-- ===== src/TimerList/Spec.antt =====
-- What src/slam_timer_list.c promises: timers in the order in which they expire, and those of equal
-- times in the order in which they were added.
use slam.Base.{ℕ, ◌≤◌, List, [], ◌∷◌, ltb, ◌==◌, if◌then◌else◌}
use slam.TimerList.Heap.{Ptr, null, Body}

-- A timer at its address.
pub record Node (C : Type 0) : Type 0 where
  pub addr : Ptr
  pub body : Body C
  pub open body use *

module _ {C : Type 0} where
  unfoldable pub insert : Node C → List (Node C) → List (Node C)
  insert n [] = n ∷ []
  insert n (x ∷ xs) = if ltb n.expire_time x.expire_time then n ∷ x ∷ xs else x ∷ insert n xs

  -- the address of the first timer with the reference, or null
  unfoldable pub locate : ℕ → List (Node C) → Ptr
  locate ref [] = null
  locate ref (x ∷ xs) = if x.ref == ref then x.addr else locate ref xs

  abbrev pub All {ℓ} : (Node C → Type ℓ) → List (Node C) → Type ℓ
  All P [] = Unit
  All P (x ∷ xs) = P x × All P xs

  -- No timer of the list expires before one that stands ahead of it.
  abbrev pub IsSorted : List (Node C) → Type 0
  IsSorted [] = Unit {0}
  IsSorted (x ∷ xs) = All (λ y. x.expire_time ≤ y.expire_time) xs × IsSorted xs
