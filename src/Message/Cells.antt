-- ===== src/Message/Cells.antt =====
-- The bytes of a buffer, in which a byte that was never written is `none`.
use slam.Base.{
  ℕ, zero, suc, ◌+◌, ◌*◌, ◌≤◌, ◌≡◌, refl, ap, Option, none, some, List, [], ◌∷◌, ◌++◌, map, length,
  replicate, arith,
}

abbrev pub Cell : Type 0
Cell = Option ℕ

-- Writes the cells from the position on, as `memcpy` does.
unfoldable pub store : List Cell → ℕ → List Cell → List Cell
store [] i cs = []
store (b ∷ bs) (suc i) cs = b ∷ store bs i cs
store (b ∷ bs) zero [] = b ∷ bs
store (b ∷ bs) zero (c ∷ cs) = c ∷ store bs zero cs

-- The number whose bytes lie in the cells, least byte first.
unfoldable pub word : List Cell → ℕ
word [] = 0
word (none ∷ bs) = 256 * word bs
word (some b ∷ bs) = b + 256 * word bs

-- A buffer of the size that holds the bytes and is not written beyond them.
unfoldable pub filled : ℕ → List ℕ → List Cell
filled size [] = replicate size none
filled zero (b ∷ bs) = []
filled (suc size) (b ∷ bs) = some b ∷ filled size bs

pub store-nil : (bs : List Cell) (i : ℕ) → store bs i [] ≡ bs
unfolding store
store-nil [] i = refl
store-nil (b ∷ bs) zero = refl
store-nil (b ∷ bs) (suc i) = ap (◌∷◌ b) (store-nil bs i)

pub store-append :
    (bs : List Cell) (i j : ℕ) (cs ds : List Cell)
    → j ≡ i + length cs
    → store (store bs i cs) j ds ≡ store bs i (cs ++ ds)
unfolding store
store-append [] i j cs ds e = refl
store-append (b ∷ bs) (suc i) zero cs ds e = absurd (omega arith)
store-append (b ∷ bs) (suc i) (suc j) cs ds e = ap (◌∷◌ b) (store-append bs i j cs ds (omega arith))
store-append (b ∷ bs) zero zero [] ds e = refl
store-append (b ∷ bs) zero (suc j) [] ds e = absurd (omega arith)
store-append (b ∷ bs) zero zero (c ∷ cs) ds e = absurd (omega arith)
store-append (b ∷ bs) zero (suc j) (c ∷ cs) ds e =
    ap (◌∷◌ c) (store-append bs zero j cs ds (omega arith))

-- Bytes stored right behind those of a buffer extend them.
pub store-filled :
    (size : ℕ) (bs cs : List ℕ)
    → length bs + length cs ≤ size
    → store (filled size bs) (length bs) (map some cs) ≡ filled size (bs ++ cs)
unfolding store filled
store-filled zero [] [] h = refl
store-filled zero [] (c ∷ cs) h = absurd (omega arith)
store-filled zero (b ∷ bs) cs h = absurd (omega arith)
store-filled (suc size) [] [] h = refl
store-filled (suc size) [] (c ∷ cs) h = ap (◌∷◌ (some c)) (store-filled size [] cs (omega arith))
store-filled (suc size) (b ∷ bs) cs h = ap (◌∷◌ (some b)) (store-filled size bs cs (omega arith))

-- A store over a whole buffer leaves none of it.
pub store-all : (bs : List Cell) (cs : List Cell) → length bs ≡ length cs → store bs 0 cs ≡ cs
unfolding store
store-all [] [] h = refl
store-all [] (c ∷ cs) h = absurd (omega arith)
store-all (b ∷ bs) [] h = absurd (omega arith)
store-all (b ∷ bs) (c ∷ cs) h = ap (◌∷◌ c) (store-all bs cs (omega arith))
