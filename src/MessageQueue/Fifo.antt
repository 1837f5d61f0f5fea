-- ===== src/MessageQueue/Fifo.antt =====
-- What io/slam_message_queue.c promises: a first-in first-out queue of bounded length, and the
-- calls and replies that a client of either queue sees.
use slam.Base.{
  ℕ, suc, ◌+◌, ◌-◌, ◌≤◌, ◌<◌, ◌≡◌, arith, Bool, true, false, Option, none, some, List, [], ◌∷◌,
  ◌++◌, length, ltb, if◌then◌else◌,
}

pub data Call {ℓ} (A : Type ℓ) : Type ℓ where
  push_back : A → Call A
  pop_front front is_empty number : Call A

pub data Reply {ℓ} (A : Type ℓ) : Type ℓ where
  pushed : Bool → Reply A
  popped : Option A → Reply A
  looked : Option A → Reply A
  emptiness : Bool → Reply A
  counted : ℕ → Reply A

module _ {ℓ} {A : Type ℓ} where
  unfoldable pub push : ℕ → List A → A → Bool × List A
  push cap q x = if ltb (length q) cap then (true, q ++ (x ∷ [])) else (false, q)

  unfoldable pub head : List A → Option A
  head [] = none
  head (x ∷ q) = some x

  unfoldable pub tail : List A → List A
  tail [] = []
  tail (x ∷ q) = q

  unfoldable pub null : List A → Bool
  null [] = true
  null (x ∷ q) = false

  unfoldable pub apply : ℕ → List A → Call A → Reply A × List A
  unfolding push head tail null
  apply cap q (push_back x) = (pushed (push cap q x).0, (push cap q x).1)
  apply cap q pop_front = (popped (head q), tail q)
  apply cap q front = (looked (head q), q)
  apply cap q is_empty = (emptiness (null q), q)
  apply cap q number = (counted (length q), q)

  unfoldable pub run : ℕ → List A → List (Call A) → List (Reply A) × List A
  run cap q [] = ([], q)
  run cap q (c ∷ cs) = let (r, q') = apply cap q c in let (rs, q'') = run cap q' cs in (r ∷ rs, q'')

  -- how many messages one call takes from the queue
  unfoldable pub taken : List A → Call A → ℕ
  taken q (push_back x) = 0
  taken [] pop_front = 0
  taken (x ∷ q) pop_front = 1
  taken q front = 0
  taken q is_empty = 0
  taken q number = 0

  -- how many messages a history takes
  unfoldable pub served : ℕ → List A → List (Call A) → ℕ
  served cap q [] = 0
  served cap q (c ∷ cs) = let (r, q') = apply cap q c in taken q c + served cap q' cs

  pub push_room :
      (n : ℕ) (q : List A) (x : A) → suc (length q) < n → push (n - 1) q x ≡ (true, q ++ (x ∷ []))
  unfolding push
  push_room n q x h = ground arith

  pub push_full : (n : ℕ) (q : List A) (x : A) → n ≤ suc (length q) → push (n - 1) q x ≡ (false, q)
  unfolding push
  push_full n q x h = ground arith
