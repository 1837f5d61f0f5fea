-- ===== src/Spinlock/Exclusion.antt =====
-- One thread at a time has a lock of src/io/slam_spinlock.c.
use slam.Base.{ℕ, ◌≡◌, ◌≢◌, refl, sym, subst, arith, List, ℕ_discrete}
use slam.Spinlock.Threads.{Place, Threads, at}

module _ {A : Type 0} where
  -- a place without the lock, and a place with it, where what was read is still there
  unfoldable pub IsOutside : Place A → Type 0
  IsOutside Place.outside = Unit
  IsOutside (Place.spinning f) = Unit
  IsOutside (Place.holding f) = ⊥
  IsOutside (Place.loaded f a) = ⊥
  IsOutside Place.stored = ⊥

  unfoldable pub IsInside : A → Place A → Type 0
  IsInside a Place.outside = ⊥
  IsInside a (Place.spinning f) = ⊥
  IsInside a (Place.holding f) = Unit
  IsInside a (Place.loaded f b) = a ≡ b
  IsInside a Place.stored = Unit

  unfoldable pub AllOutside : (ℕ → Place A) → Type 0
  unfolding IsOutside
  AllOutside place = (i : ℕ) → IsOutside (place i)

  unfoldable pub OthersOutside : ℕ → (ℕ → Place A) → Type 0
  unfolding IsOutside
  OthersOutside i place = (j : ℕ) → j ≢ i → IsOutside (place j)

  -- The lock is free and each thread outside, or one thread is inside.
  pub data IsExclusive (s : Threads A) : Type 0 where
    free : s.spinlock.lock ≡ 0 → AllOutside s.place → IsExclusive s
    held :
        (i : ℕ)
        → s.spinlock.lock ≡ 1
        → IsInside s.shared (s.place i)
        → OthersOutside i s.place
        → IsExclusive s

  -- A predicate holds at each thread after one changed place, if it does there and at the others.
  at_decided :
      (P : Place A → Type 0) (p q : Place A) {Q : Type 0} (d : Dec Q)
      → P p
      → (¬ Q → P q)
      → P (elim d [ yes e ↦ p | no ne ↦ q ])
  at_decided P p q (yes e) here there = here
  at_decided P p q (no ne) here there = there ne

  at_each :
      (P : Place A → Type 0) (place : ℕ → Place A) (i j : ℕ) (p : Place A)
      → P p
      → (j ≢ i → P (place j))
      → P (at place i p j)
  at_each P place i j p here there = at_decided P p (place j) (ℕ_discrete j i) here there

  at_self : (place : ℕ → Place A) (i : ℕ) (p : Place A) → at place i p i ≡ p
  at_self place i p = at_each (λ q. q ≡ p) place i i p refl (λ ne. absurd (ne refl))

  at_ne : (place : ℕ → Place A) (i j : ℕ) (p : Place A) → j ≢ i → at place i p j ≡ place j
  at_ne place i j p ne = ground arith

  at-IsInside :
      (a : A) (place : ℕ → Place A) (i : ℕ) (p : Place A)
      → IsInside a p
      → IsInside a (at place i p i)
  at-IsInside a place i p h = subst (IsInside a) (sym (at_self place i p)) h

  -- What the others may assume when a thread changes place.
  at-AllOutside :
      (place : ℕ → Place A) (i : ℕ) (p : Place A)
      → IsOutside p
      → OthersOutside i place
      → AllOutside (at place i p)
  unfolding AllOutside OthersOutside
  at-AllOutside place i p o others j = at_each IsOutside place i j p o (others j)

  at-OthersOutside :
      (place : ℕ → Place A) (i : ℕ) (p : Place A)
      → OthersOutside i place
      → OthersOutside i (at place i p)
  unfolding OthersOutside
  at-OthersOutside place i p others j ne =
      subst IsOutside (sym (at_ne place i j p ne)) (others j ne)

  at_outside-OthersOutside :
      (place : ℕ → Place A) (k i : ℕ) (p : Place A)
      → IsOutside p
      → OthersOutside k place
      → OthersOutside k (at place i p)
  unfolding OthersOutside
  at_outside-OthersOutside place k i p o others j ne =
      at_each IsOutside place i j p o (λ x. others j ne)

  AllOutside-Others : (place : ℕ → Place A) (i : ℕ) → AllOutside place → OthersOutside i place
  unfolding AllOutside OthersOutside
  AllOutside-Others place i all j ne = all j

  apart : (a : A) (p : Place A) → IsInside a p → ¬ IsOutside p
  unfolding IsInside IsOutside
  apart a Place.outside h o = h
  apart a (Place.spinning f) h o = h
  apart a (Place.holding f) h o = o
  apart a (Place.loaded f b) h o = o
  apart a Place.stored h o = o

  -- A thread that is not outside has the lock, and is the only one.
  pub holder :
      (s : Threads A) (i : ℕ)
      → IsExclusive s
      → ¬ IsOutside (s.place i)
      → (s.spinlock.lock ≡ 1) × IsInside s.shared (s.place i) × OthersOutside i s.place
  unfolding AllOutside OthersOutside
  holder s i (free e all) within = absurd (within (all i))
  holder s i (held k e h others) within = elim (ℕ_discrete i k) [
    | yes same ↦
        subst (λ k. (s.spinlock.lock ≡ 1) × IsInside s.shared (s.place k) × OthersOutside k s.place)
          (sym same) (e, h, others)
    | no ne ↦ absurd (within (others i ne))
  ]

  -- What the thread with the lock read is still there when a thread outside moves.
  at_outside-IsInside :
      (a : A) (place : ℕ → Place A) (k i : ℕ) (p : Place A)
      → IsInside a (place k)
      → IsOutside (place i)
      → IsInside a (at place i p k)
  at_outside-IsInside a place k i p h o = subst (IsInside a) (sym (at_ne place i k p distinct)) h
    where
      distinct : k ≢ i
      distinct same = apart a (place i) (subst (λ j. IsInside a (place j)) same h) o

  -- A thread that is outside moves there.
  pub stays :
      (s : Threads A) (i : ℕ) (p : Place A)
      → IsExclusive s
      → IsOutside (s.place i)
      → IsOutside p
      → IsExclusive (record s { place = at s.place i p })
  stays s i p (free e all) o o' =
      free e (at-AllOutside s.place i p o' (AllOutside-Others s.place i all))
  stays s i p (held k e h others) o o' =
      held k e (at_outside-IsInside s.shared s.place k i p h o)
        (at_outside-OthersOutside s.place k i p o' others)

  -- An attempt of a thread that is outside to take the lock
  pub grabs :
      (s : Threads A) (i : ℕ) (p : Place A)
      → IsExclusive s
      → IsOutside (s.place i)
      → (s.spinlock.lock ≡ 0 → IsInside s.shared p)
      → (s.spinlock.lock ≡ 1 → IsOutside p)
      → IsExclusive (record s { spinlock = record { lock = 1 }; place = at s.place i p })
  grabs s i p (free e all) o first second =
      held i refl (at-IsInside s.shared s.place i p (first e))
        (at-OthersOutside s.place i p (AllOutside-Others s.place i all))
  grabs s i p (held k e h others) o first second =
      held k refl (at_outside-IsInside s.shared s.place k i p h o)
        (at_outside-OthersOutside s.place k i p (second e) others)

  -- The thread with the lock changes the value, and keeps the lock.
  pub keeps :
      (s : Threads A) (i : ℕ) (p : Place A) (a : A) (fs : List (A → A))
      → IsExclusive s
      → ¬ IsOutside (s.place i)
      → IsInside a p
      → IsExclusive (record s { shared = a; place = at s.place i p; written = fs })
  keeps s i p a fs h within h' =
      held i (holder s i h within).0 (at-IsInside a s.place i p h')
        (at-OthersOutside s.place i p (holder s i h within).2)

  -- The thread with the lock gives it back.
  pub leaves :
      (s : Threads A) (i : ℕ) (p : Place A)
      → IsExclusive s
      → ¬ IsOutside (s.place i)
      → IsOutside p
      → IsExclusive (record s { spinlock = record { lock = 0 }; place = at s.place i p })
  leaves s i p h within o = free refl (at-AllOutside s.place i p o (holder s i h within).2)
