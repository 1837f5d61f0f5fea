-- ===== src/TimerList/Order.antt =====
-- The order of expiry in the lists that src/slam_timer_list.c keeps.
use slam.Base.{
  ap, ◌∙◌, ℕ, suc, ◌+◌, ◌≤◌, ◌<◌, ◌≡◌, refl, List, [], ◌∷◌, ◌++◌, Bool-cases, if_true, if_false,
  inl, inr, true, false, length, ltb, leb, if◌then◌else◌, u64, arith,
}
use slam.TimerList.Spec.{Node, insert, IsSorted, All}

module _ {C : Type 0} where
  pub insert-All {ℓ} :
      (P : Node C → Type ℓ) (n : Node C) (xs : List (Node C)) → P n → All P xs → All P (insert n xs)
  unfolding insert
  insert-All P n [] p a = (p, tt)
  insert-All P n (x ∷ xs) p a = elim (Bool-cases (ltb n.expire_time x.expire_time)) [
    | inl e ↦ rw e (p, a)
    | inr e ↦ rw e (a.0, insert-All P n xs p a.1)
  ]

  All-later :
      (a b : ℕ) (xs : List (Node C))
      → a ≤ b
      → All (λ y. b ≤ y.expire_time) xs
      → All (λ y. a ≤ y.expire_time) xs
  All-later a b [] h l = tt
  All-later a b (x ∷ xs) h l = (omega arith, All-later a b xs h l.1)

  -- A timer put in keeps the list in the order of expiry.
  pub insert-IsSorted : (n : Node C) (xs : List (Node C)) → IsSorted xs → IsSorted (insert n xs)
  unfolding insert
  insert-IsSorted n [] h = (tt, tt)
  insert-IsSorted n (x ∷ xs) h = elim (Bool-cases (ltb n.expire_time x.expire_time)) [
    | inl e ↦ rw e ((ground arith, All-later n.expire_time x.expire_time xs (ground arith) h.0), h)
    | inr e ↦ rw e (
      insert-All (λ y. x.expire_time ≤ y.expire_time) n xs (ground arith) h.0,
      insert-IsSorted n xs h.1,
    )
  ]

  pub length-insert : (n : Node C) (xs : List (Node C)) → length (insert n xs) ≡ suc (length xs)
  unfolding insert
  length-insert n [] = refl
  length-insert n (x ∷ xs) = ground (arith, length-insert n xs)

  -- A timer put in goes behind all those that expire no later.
  pub insert-append :
      (n : Node C) (xs ys : List (Node C))
      → All (λ y. y.expire_time ≤ n.expire_time) xs
      → insert n (xs ++ ys) ≡ xs ++ insert n ys
  unfolding insert
  insert-append n [] ys a = refl
  insert-append n (x ∷ xs) ys a = ground (arith, a.0, insert-append n xs ys a.1)

  -- the timer with its next time
  abbrev pub rearm : ℕ → Node C → Node C
  rearm nowtime n = record n { body = record n.body { expire_time = u64 (nowtime + n.interval) } }

  -- the list after the timer's function has been called
  unfoldable pub settled : ℕ → Node C → List (Node C) → List (Node C)
  settled nowtime n xs = if n.forever then insert (rearm nowtime n) xs else xs

  -- how many timers of the list have expired
  unfoldable pub due_count : ℕ → List (Node C) → ℕ
  due_count nowtime [] = 0
  due_count nowtime (x ∷ xs) = (if leb x.expire_time nowtime then 1 else 0) + due_count nowtime xs

  -- A timer that is put back expires later than now.
  abbrev pub IsFine : ℕ → Node C → Type 0
  IsFine nowtime n = n.forever ≡ true → nowtime < u64 (nowtime + n.interval)

  pub record IsGood (nowtime : ℕ) (xs : List (Node C)) : Type 0 where
    pub sorted : IsSorted xs
    pub fine : All (IsFine nowtime) xs

  pub settled_forever :
      (nowtime : ℕ) (n : Node C) (xs : List (Node C))
      → n.forever ≡ true
      → settled nowtime n xs ≡ insert (rearm nowtime n) xs
  unfolding settled
  settled_forever nowtime n xs e = if_true n.forever (insert (rearm nowtime n) xs) xs e

  pub settled_once :
      (nowtime : ℕ) (n : Node C) (xs : List (Node C))
      → n.forever ≡ false
      → settled nowtime n xs ≡ xs
  unfolding settled
  settled_once nowtime n xs e = if_false n.forever (insert (rearm nowtime n) xs) xs e

  pub settled-IsGood :
      (nowtime : ℕ) (n : Node C) (xs : List (Node C))
      → IsFine nowtime n
      → IsGood nowtime xs
      → IsGood nowtime (settled nowtime n xs)
  settled-IsGood nowtime n xs f g = elim (Bool-cases n.forever) [
    | inl e ↦ rw (settled_forever nowtime n xs e) (record {
      sorted = insert-IsSorted (rearm nowtime n) xs g.sorted;
      fine = insert-All (IsFine nowtime) (rearm nowtime n) xs f g.fine;
    })
    | inr e ↦ rw (settled_once nowtime n xs e) g
  ]

  due_count-insert :
      (nowtime : ℕ) (n : Node C) (xs : List (Node C))
      → nowtime < n.expire_time
      → due_count nowtime (insert n xs) ≡ due_count nowtime xs
  unfolding insert due_count
  due_count-insert nowtime n [] h = ground arith
  due_count-insert nowtime n (x ∷ xs) h = ground (arith, due_count-insert nowtime n xs h)

  pub due_count-settled :
      (nowtime : ℕ) (n : Node C) (xs : List (Node C))
      → IsFine nowtime n
      → due_count nowtime (settled nowtime n xs) ≡ due_count nowtime xs
  due_count-settled nowtime n xs f = elim (Bool-cases n.forever) [
    | inl e ↦
        rw (settled_forever nowtime n xs e) (due_count-insert nowtime (rearm nowtime n) xs (f e))
    | inr e ↦ rw (settled_once nowtime n xs e)
  ]

  -- In a list in the order of expiry whose first timer has not expired, none has.
  pub All-late :
      (nowtime : ℕ) (x : Node C) (xs : List (Node C))
      → IsSorted (x ∷ xs)
      → nowtime < x.expire_time
      → All (λ y. nowtime < y.expire_time) (x ∷ xs)
  All-late nowtime x xs s h = All-later (suc nowtime) x.expire_time (x ∷ xs) h (omega arith, s.0)

  pub record Splits (n : Node C) (xs before after : List (Node C)) : Type 0 where
    pub whole : xs ≡ before ++ after
    pub put_in : insert n xs ≡ before ++ (n ∷ after)
    pub sooner : All (λ y. y.expire_time ≤ n.expire_time) before
    pub later : All (λ y. n.expire_time < y.expire_time) after

  -- Where a timer goes in a list in the order of expiry.
  pub insert-Splits :
      (n : Node C) (xs : List (Node C))
      → IsSorted xs
      → (before : List (Node C)) × (after : List (Node C)) × Splits n xs before after
  unfolding insert
  insert-Splits n [] o = ([], [], record { whole = refl; put_in = refl; sooner = tt; later = tt })
  insert-Splits n (x ∷ xs) o = elim (Bool-cases (ltb n.expire_time x.expire_time)) [
    | inl e ↦ (
      [],
      x ∷ xs,
      record {
        whole = refl;
        put_in = if_true _ _ _ e;
        sooner = tt;
        later = All-late n.expire_time x xs o (ground arith);
      },
    )
    | inr e ↦
        let (b, a, p) = insert-Splits n xs o.1 in
        (
          x ∷ b,
          a,
          record {
            whole = ap (◌∷◌ x) p.whole;
            put_in = if_false _ _ _ e ∙ ap (◌∷◌ x) p.put_in;
            sooner = (ground arith, p.sooner);
            later = p.later;
          },
        )
  ]
