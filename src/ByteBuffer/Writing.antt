-- ===== src/ByteBuffer/Writing.antt =====
-- Writing to the buffer of src/slam_byte_buffer.c, as appending to a list of bytes.
use slam.Base.{
  ℕ, ◌+◌, ◌-◌, ◌^◌, ◌≤◌, ◌<◌, ◌≡◌, sym, ◌∙◌, ap, subst, some, none, List, ◌++◌, map, map-append,
  append_assoc, ret, length, length-append, length-map, length-replicate, length-drop, drop,
  take-all, replicate, arith, dec_lt,
}
use slam.Message.Cells.{Cell, store}
use slam.ByteBuffer.{ByteBuffer, resize, reserve, write}
use slam.ByteBuffer.Bounds.{
  Holds, store-behind, store-front, length-bytes, grown, reserve_keeps, reserve_grows,
}

pub record Reserved (b : ByteBuffer) (xs : List ℕ) (n : ℕ) (b' : ByteBuffer) : Type 0 where
  pub ran : reserve b n ≡ ret b'
  pub kept : Holds b' xs
  pub room : n ≤ length kept.after
  pub bounded : b'.capacity ≤ grown b n

pub reserve_lem :
    (b : ByteBuffer) (xs : List ℕ) (n : ℕ)
    → Holds b xs
    → grown b n < 2 ^ 64
    → (b' : ByteBuffer) × Reserved b xs n b'
unfolding resize
reserve_lem b xs n v s = elim (dec_lt n (b.capacity - b.wlength)) [
  | yes enough ↦ (
    b,
    record {
      ran = reserve_keeps b n enough (omega (arith, v.writes, v.fills));
      kept = v;
      room = omega (arith, v.writes, v.fills);
      bounded = omega arith;
    },
  )
  | no little ↦
      let pad : List Cell = replicate (grown b n - length b.bytes) none in
      let long : length b.bytes ≡ b.capacity = length-bytes b xs v in
      let padded : length pad ≡ grown b n - length b.bytes =
        length-replicate (grown b n - length b.bytes) none in
      (
        record b { bytes = resize b.bytes (grown b n); capacity = grown b n },
        record {
          ran = reserve_grows b n (omega arith) (omega (arith, v.writes, v.fills)) s;
          kept = record {
            before = v.before;
            after = v.after ++ pad;
            layout =
                ap (λ l. l ++ pad) (take-all (grown b n) b.bytes (omega arith) ∙ v.layout)
                ∙ append_assoc v.before (map some xs ++ v.after) pad
                ∙ ap (λ l. v.before ++ l) (append_assoc (map some xs) v.after pad);
            reads = v.reads;
            writes = v.writes;
            fills = omega (arith, v.fills, length-append v.after pad);
            small = s;
          };
          room = omega (arith, v.writes, v.fills, length-append v.after pad);
          bounded = omega arith;
        },
      )
]

write_runs :
    (b b' : ByteBuffer) (buf : List Cell)
    → reserve b (length buf) ≡ ret b'
    → b'.wlength + length buf ≤ b'.capacity
    → b'.capacity < 2 ^ 64
    → write b buf
      ≡ ret (record b' { bytes = store b'.bytes b'.wlength buf; wlength = b'.wlength + length buf })
unfolding write
write_runs b b' buf e h s = ground (arith, e)

-- Where the capacity stays below 2 ^ 64, writing appends the bytes, and the capacity grows by no more
-- than the bytes written or one chunk.
pub write_lem :
    (b : ByteBuffer) (xs ys : List ℕ)
    → Holds b xs
    → grown b (length ys) < 2 ^ 64
    → (b' : ByteBuffer) × (write b (map some ys) ≡ ret b')
      × Holds b' (xs ++ ys)
      × (b'.capacity ≤ grown b (length ys))
write_lem b xs ys v s =
    let same : length (map some ys) ≡ length ys = length-map some ys in
    let (b1, r) =
      reserve_lem b xs (length (map some ys)) v (subst (λ n. grown b n < 2 ^ 64) (sym same) s) in
    let k = r.kept in
    let front : length (k.before ++ map some xs) ≡ b1.wlength =
      length-append k.before (map some xs) ∙ omega (arith, k.writes, length-map some xs) in
    (
      record b1 {
        bytes = store b1.bytes b1.wlength (map some ys);
        wlength = b1.wlength + length (map some ys);
      },
      write_runs b b1 (map some ys) r.ran (omega (arith, r.room, k.writes, k.fills)) k.small,
      record {
        before = k.before;
        after = drop (length (map some ys)) k.after;
        layout =
            ap (λ l. store l b1.wlength (map some ys))
              (k.layout ∙ sym (append_assoc k.before (map some xs) k.after))
            ∙ store-behind (k.before ++ map some xs) k.after (map some ys) b1.wlength (sym front)
            ∙ ap (λ l. (k.before ++ map some xs) ++ l) (store-front k.after (map some ys) r.room)
            ∙ append_assoc k.before (map some xs) _
            ∙ ap (λ l. k.before ++ l)
                (sym (append_assoc (map some xs) (map some ys) _)
                  ∙ ap (λ l. l ++ drop (length (map some ys)) k.after)
                      (sym (map-append some xs ys)));
        reads = k.reads;
        writes = omega (arith, k.writes, length-append xs ys);
        fills = omega (
          arith,
          k.fills,
          r.room,
          length-append xs ys,
          length-drop (length (map some ys)) k.after,
        );
        small = k.small;
      },
      subst (λ n. b1.capacity ≤ grown b n) same r.bounded,
    )
