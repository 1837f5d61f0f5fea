-- ===== src/Runnable/Seeking.antt =====
-- Which timer of a list has a reference, and the list without it: what `slam_runnable_remove_timer` of
-- src/slam_runnable.c does to the timers.
use slam.Base.{
  ℕ, ◌≤◌, ◌≡◌, ◌≢◌, refl, ap, inl, inr, Bool-cases, Bool, true, false, List, [], ◌∷◌, ◌++◌, length,
  ◌==◌, if◌then◌else◌, arith,
}
use slam.TimerList.Heap.{Ptr}
use slam.TimerList.Spec.{Node, All, IsSorted}
use slam.TimerList.Chain.{Apart}
use slam.TimerList.Order.{due_count}

module _ {C : Type 0} where
  -- the timers without the first that has a reference
  unfoldable pub without : ℕ → List (Node C) → List (Node C)
  without ref [] = []
  without ref (x ∷ xs) = let rest = without ref xs in if x.ref == ref then xs else x ∷ rest

  unfoldable pub has : ℕ → List (Node C) → Bool
  has ref [] = false
  has ref (x ∷ xs) = let rest = has ref xs in if x.ref == ref then true else rest

  -- A list has no timer with a reference, or a first one.
  pub data Sought (ref : ℕ) (xs : List (Node C)) : Type 0 where
    absent : All (λ y. y.ref ≢ ref) xs → has ref xs ≡ false → without ref xs ≡ xs → Sought ref xs
    present :
        (pre : List (Node C)) (n : Node C) (post : List (Node C))
        → xs ≡ pre ++ (n ∷ post)
        → All (λ y. y.ref ≢ ref) pre
        → n.ref ≡ ref
        → has ref xs ≡ true
        → without ref xs ≡ pre ++ post
        → Sought ref xs

  behind :
      (ref : ℕ) (x : Node C) (xs : List (Node C))
      → x.ref ≢ ref
      → Sought ref xs
      → Sought ref (x ∷ xs)
  unfolding without has
  behind ref x xs differ (Sought.absent a h e) =
      Sought.absent (differ, a) (ground (arith, differ, h)) (ground (arith, differ, e))
  behind ref x xs differ (Sought.present pre n post e a same h k) =
      Sought.present (x ∷ pre) n post (ap (◌∷◌ x) e) (differ, a) same (ground (arith, differ, h))
        (ground (arith, differ, k))

  pub seek : (ref : ℕ) (xs : List (Node C)) → Sought ref xs
  unfolding without has
  seek ref [] = Sought.absent tt refl refl
  seek ref (x ∷ xs) = elim (Bool-cases (x.ref == ref)) [
    | inl e ↦ Sought.present [] x xs refl tt (ground (arith, e)) (rw e refl) (rw e refl)
    | inr e ↦ behind ref x xs (ground (arith, e)) (seek ref xs)
  ]

  pub without-All :
      (P : Node C → Type 0) (ref : ℕ) (xs : List (Node C)) → All P xs → All P (without ref xs)
  unfolding without
  without-All P ref [] a = tt
  without-All P ref (x ∷ xs) a = elim (Bool-cases (x.ref == ref)) [
    | inl e ↦ rw e a.1
    | inr e ↦ rw e (a.0, without-All P ref xs a.1)
  ]

  pub without-IsSorted : (ref : ℕ) (xs : List (Node C)) → IsSorted xs → IsSorted (without ref xs)
  unfolding without
  without-IsSorted ref [] h = tt
  without-IsSorted ref (x ∷ xs) h = elim (Bool-cases (x.ref == ref)) [
    | inl e ↦ rw e h.1
    | inr e ↦
        rw e
          (without-All (λ y. x.expire_time ≤ y.expire_time) ref xs h.0, without-IsSorted ref xs h.1)
  ]

  pub without-Apart :
      (a : Ptr) (ref : ℕ) (xs : List (Node C)) → Apart a xs → Apart a (without ref xs)
  unfolding without
  without-Apart a ref [] h = tt
  without-Apart a ref (x ∷ xs) h = elim (Bool-cases (x.ref == ref)) [
    | inl e ↦ rw e h.1
    | inr e ↦ rw e (h.0, without-Apart a ref xs h.1)
  ]

  pub due_count-without :
      (nowtime ref : ℕ) (xs : List (Node C))
      → due_count nowtime (without ref xs) ≤ due_count nowtime xs
  unfolding without due_count
  due_count-without nowtime ref [] = omega arith
  due_count-without nowtime ref (x ∷ xs) = elim (Bool-cases (x.ref == ref)) [
    | inl e ↦ rw e (omega arith)
    | inr e ↦ rw e (omega (arith, due_count-without nowtime ref xs))
  ]

  pub length-without : (ref : ℕ) (xs : List (Node C)) → length (without ref xs) ≤ length xs
  unfolding without
  length-without ref [] = omega arith
  length-without ref (x ∷ xs) = elim (Bool-cases (x.ref == ref)) [
    | inl e ↦ rw e (omega arith)
    | inr e ↦ rw e (omega (arith, length-without ref xs))
  ]

  pub without_absent :
      (ref : ℕ) (xs : List (Node C)) → All (λ y. y.ref ≢ ref) xs → without ref xs ≡ xs
  unfolding without
  without_absent ref [] a = refl
  without_absent ref (x ∷ xs) a = ground (arith, a.0, without_absent ref xs a.1)

  pub has_absent : (ref : ℕ) (xs : List (Node C)) → All (λ y. y.ref ≢ ref) xs → has ref xs ≡ false
  unfolding has
  has_absent ref [] a = refl
  has_absent ref (x ∷ xs) a = ground (arith, a.0, has_absent ref xs a.1)
