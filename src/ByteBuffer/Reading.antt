-- ===== src/ByteBuffer/Reading.antt =====
-- Reading from the buffer of src/slam_byte_buffer.c, as taking from the front of a list of bytes.
use slam.Base.{
  zero, suc, if◌then◌else◌, ◌==◌, ℕ, ◌+◌, ◌-◌, ◌^◌, ◌≤◌, ◌<◌, ◌≡◌, refl, sym, ◌∙◌, ap, subst, some,
  List, [], ◌∷◌, ◌++◌, map, map-append, append_assoc, ret, length, length-append, length-map,
  length-take, length-drop, take, drop, take-all, drop-all, take-append-drop, arith, min, dec_lt,
}
use slam.Message.Cells.{Cell}
use slam.ByteBuffer.{ByteBuffer, read}
use slam.ByteBuffer.Bounds.{Holds, drop-behind, length-bytes}

take-filled :
    (n : ℕ) (xs : List ℕ) (after : List Cell)
    → n ≤ length xs
    → take n (map some xs ++ after) ≡ map some (take n xs)
take-filled zero xs after h = refl
take-filled (suc n) [] after h = absurd (omega arith)
take-filled (suc n) (x ∷ xs) after h = ap (◌∷◌ (some x)) (take-filled n xs after (omega arith))

-- What a read of `n` bytes, no more than there are, leaves.
abbrev passed : ByteBuffer → ℕ → ByteBuffer
passed b n =
    if b.wlength == b.rlength + n
    then record b { rlength = 0; wlength = 0 }
    else record b { rlength = b.rlength + n }

read_runs :
    (b : ByteBuffer) (bufsize : ℕ)
    → b.rlength ≤ b.wlength
    → b.wlength < 2 ^ 64
    → read b bufsize
      ≡ ret (
        take (min bufsize (b.wlength - b.rlength)) (drop b.rlength b.bytes),
        passed b (min bufsize (b.wlength - b.rlength)),
      )
unfolding read
read_runs b bufsize h s = elim (dec_lt bufsize (b.wlength - b.rlength)) [
  | yes part ↦ ground arith
  | no all ↦ ground arith
]

passed-part :
    (b : ByteBuffer) (xs : List ℕ) (n : ℕ)
    → Holds b xs
    → n < length xs
    → Holds (record b { rlength = b.rlength + n }) (drop n xs)
passed-part b xs n v h =
    let front : length (v.before ++ map some (take n xs)) ≡ length v.before + n = omega (
      arith,
      length-append v.before (map some (take n xs)),
      length-map some (take n xs),
      length-take n xs,
    ) in
    record {
      before = v.before ++ map some (take n xs);
      after = v.after;
      layout =
          v.layout
          ∙ ap (λ l. v.before ++ l)
              (ap (λ l. map some l ++ v.after) (sym (take-append-drop n xs))
                ∙ ap (λ l. l ++ v.after) (map-append some (take n xs) (drop n xs))
                ∙ append_assoc (map some (take n xs)) (map some (drop n xs)) v.after)
          ∙ sym (append_assoc v.before (map some (take n xs)) _);
      reads = omega (arith, v.reads);
      writes = omega (arith, v.writes, length-drop n xs);
      fills = omega (arith, v.fills, length-drop n xs);
      small = v.small;
    }

pub emptied-Holds :
    (b : ByteBuffer) (xs : List ℕ) → Holds b xs → Holds (record b { rlength = 0; wlength = 0 }) []
emptied-Holds b xs v = record {
  before = [];
  after = b.bytes;
  layout = refl;
  reads = refl;
  writes = refl;
  fills = omega (arith, length-bytes b xs v);
  small = v.small;
}

-- Reading gives the first bytes, as many as were asked for or as there are, and leaves the others.
pub read_lem :
    (b : ByteBuffer) (xs : List ℕ) (bufsize : ℕ)
    → Holds b xs
    → (b' : ByteBuffer) × (read b bufsize ≡ ret (map some (take bufsize xs), b'))
      × Holds b' (drop bufsize xs)
      × (b'.capacity ≡ b.capacity)
read_lem b xs bufsize v =
    let ran =
      read_runs b bufsize (omega (arith, v.reads, v.writes))
        (omega (arith, v.writes, v.fills, v.small)) in
    let there : drop b.rlength b.bytes ≡ map some xs ++ v.after =
      ap (drop b.rlength) v.layout
      ∙ drop-behind v.before (map some xs ++ v.after) b.rlength v.reads in
    elim (dec_lt bufsize (length xs)) [
      | yes part ↦
          let n : min bufsize (b.wlength - b.rlength) ≡ bufsize =
            omega (arith, v.reads, v.writes) in
          (
            record b { rlength = b.rlength + bufsize },
            ran
                ∙ rw (n, there, take-filled bufsize xs v.after (omega arith))
                    (ground (arith, v.reads, v.writes)),
            passed-part b xs bufsize v part,
            refl,
          )
      | no all ↦
          let n : min bufsize (b.wlength - b.rlength) ≡ length xs =
            omega (arith, v.reads, v.writes) in
          (
            record b { rlength = 0; wlength = 0 },
            ran
                ∙ rw (n, there, take-filled (length xs) xs v.after (omega arith))
                    (rw (take-all (length xs) xs (omega arith), take-all bufsize xs (omega arith))
                      (ground (arith, v.reads, v.writes))),
            subst (Holds _) (sym (drop-all bufsize xs (omega arith))) (emptied-Holds b xs v),
            refl,
          )
    ]
