-- ===== src/ByteBuffer/Bounds.antt =====
-- The representation invariant of src/slam_byte_buffer.c: the bytes that a buffer holds, against the
-- list of them.
use slam.Base.{
  ℕ, zero, suc, ◌+◌, ◌-◌, ◌^◌, ◌≤◌, ◌<◌, ◌≡◌, refl, ap, some, List, [], ◌∷◌, ◌++◌, map, ret, length,
  length-append, length-map, drop, arith, max,
}
use slam.Message.Cells.{Cell, store}
use slam.ByteBuffer.{ByteBuffer, chunk_size, resize, reserve}

pub record Holds (b : ByteBuffer) (xs : List ℕ) : Type 0 where
  pub before : List Cell
  pub after : List Cell
  pub layout : b.bytes ≡ before ++ (map some xs ++ after)
  pub reads : b.rlength ≡ length before
  pub writes : b.wlength ≡ length before + length xs
  pub fills : b.capacity ≡ length before + length xs + length after
  pub small : b.capacity < 2 ^ 64

-- a store past the end of a list is one into what follows it
pub store-behind :
    (bs rest cs : List Cell) (i : ℕ)
    → i ≡ length bs
    → store (bs ++ rest) i cs ≡ bs ++ store rest 0 cs
unfolding store
store-behind [] rest cs zero e = refl
store-behind [] rest cs (suc i) e = absurd (omega arith)
store-behind (b ∷ bs) rest cs zero e = absurd (omega arith)
store-behind (b ∷ bs) rest cs (suc i) e = ap (◌∷◌ b) (store-behind bs rest cs i (omega arith))

pub store-front :
    (rest cs : List Cell) → length cs ≤ length rest → store rest 0 cs ≡ cs ++ drop (length cs) rest
unfolding store
store-front [] [] h = refl
store-front [] (c ∷ cs) h = absurd (omega arith)
store-front (b ∷ rest) [] h = refl
store-front (b ∷ rest) (c ∷ cs) h = ap (◌∷◌ c) (store-front rest cs (omega arith))

pub drop-behind : (bs rest : List Cell) (i : ℕ) → i ≡ length bs → drop i (bs ++ rest) ≡ rest
drop-behind [] rest zero e = refl
drop-behind [] rest (suc i) e = absurd (omega arith)
drop-behind (b ∷ bs) rest zero e = absurd (omega arith)
drop-behind (b ∷ bs) rest (suc i) e = drop-behind bs rest i (omega arith)

pub length-bytes : (b : ByteBuffer) (xs : List ℕ) → Holds b xs → length b.bytes ≡ b.capacity
length-bytes b xs v = omega (
  arith,
  ap length v.layout,
  length-append v.before (map some xs ++ v.after),
  length-append (map some xs) v.after,
  length-map some xs,
  v.fills,
)

-- What room a buffer gets that has too little for `n` bytes more.
abbrev pub grown : ByteBuffer → ℕ → ℕ
grown b n = max chunk_size n + b.capacity

pub reserve_keeps :
    (b : ByteBuffer) (n : ℕ)
    → n < b.capacity - b.wlength
    → b.wlength ≤ b.capacity
    → reserve b n ≡ ret b
unfolding reserve
reserve_keeps b n h k = ground arith

pub reserve_grows :
    (b : ByteBuffer) (n : ℕ)
    → b.capacity - b.wlength ≤ n
    → b.wlength ≤ b.capacity
    → grown b n < 2 ^ 64
    → reserve b n ≡ ret (record b { bytes = resize b.bytes (grown b n); capacity = grown b n })
unfolding reserve
reserve_grows b n h k s = ground arith
