-- ===== src/Spinlock/Serial.antt =====
-- Threads that change a shared value behind a lock of src/io/slam_spinlock.c change it one after the
-- other.
use slam.Base.{ℕ, ◌≡◌, refl, sym, ℕ_discrete, ◌∙◌, ap, subst, ◌∷◌, ◌==◌, not, if◌then◌else◌}
use slam.Spinlock.{new}
use slam.Spinlock.Threads.{
  Place, Threads, begin, call, try_call, turn_at, turn, Step, Reach, serial, start, later, locks,
  tries, goes,
}
use slam.Spinlock.Exclusion.{
  IsOutside, IsInside, IsExclusive, AllOutside, OthersOutside, free, stays, grabs, keeps, leaves,
  holder,
}

module _ {A : Type 0} where
  call-IsExclusive :
      (s : Threads A) (i : ℕ) (f : A → A)
      → s.place i ≡ Place.outside
      → IsExclusive s
      → IsExclusive (call s i f)
  unfolding call IsOutside
  call-IsExclusive s i f e h = stays s i (Place.spinning f) h (subst IsOutside (sym e) tt) tt

  try_call-IsExclusive :
      (s : Threads A) (i : ℕ) (f : A → A)
      → s.place i ≡ Place.outside
      → IsExclusive s
      → IsExclusive (try_call s i f)
  unfolding try_call IsOutside IsInside
  try_call-IsExclusive s i f e h =
      grabs s i (if s.spinlock.lock == 0 then Place.holding f else Place.outside) h
        (subst IsOutside (sym e) tt)
        (λ z.
          subst (λ n. IsInside s.shared (if n == 0 then Place.holding f else Place.outside)) (sym z)
            tt)
        (λ z. subst (λ n. IsOutside (if n == 0 then Place.holding f else Place.outside)) (sym z) tt)

  turn_at-IsExclusive :
      (s : Threads A) (i : ℕ) (p : Place A)
      → p ≡ s.place i
      → IsExclusive s
      → IsExclusive (turn_at s i p)
  unfolding turn_at IsOutside IsInside
  turn_at-IsExclusive s i Place.outside e h = h
  turn_at-IsExclusive s i (Place.spinning f) e h =
      grabs s i (if not (s.spinlock.lock == 0) then Place.spinning f else Place.holding f) h
        (subst IsOutside e tt)
        (λ z.
          subst
            (λ n. IsInside s.shared (if not (n == 0) then Place.spinning f else Place.holding f))
            (sym z) tt)
        (λ z.
          subst (λ n. IsOutside (if not (n == 0) then Place.spinning f else Place.holding f))
            (sym z) tt)
  turn_at-IsExclusive s i (Place.holding f) e h =
      keeps s i (Place.loaded f s.shared) s.shared s.written h
        (subst (λ p. ¬ IsOutside p) e (λ x. x)) refl
  turn_at-IsExclusive s i (Place.loaded f a) e h =
      keeps s i Place.stored (f a) (f ∷ s.written) h (subst (λ p. ¬ IsOutside p) e (λ x. x)) tt
  turn_at-IsExclusive s i Place.stored e h =
      leaves s i Place.outside h (subst (λ p. ¬ IsOutside p) e (λ x. x)) tt

  Step-IsExclusive : {s t : Threads A} → Step s t → IsExclusive s → IsExclusive t
  unfolding turn
  Step-IsExclusive {s} (locks i f e) h = call-IsExclusive s i f e h
  Step-IsExclusive {s} (tries i f e) h = try_call-IsExclusive s i f e h
  Step-IsExclusive {s} (goes i) h = turn_at-IsExclusive s i (s.place i) refl h

  Reach-IsExclusive : (a : A) {s : Threads A} → Reach a s → IsExclusive s
  unfolding begin new AllOutside IsOutside
  Reach-IsExclusive a start = free refl (λ i. tt)
  Reach-IsExclusive a (later r step) = Step-IsExclusive step (Reach-IsExclusive a r)

  -- In every interleaving at most one thread stands between its lock and its unlock.
  pub exclusion :
      (a : A) {s : Threads A} (i j : ℕ)
      → Reach a s
      → ¬ IsOutside (s.place i)
      → ¬ IsOutside (s.place j)
      → i ≡ j
  unfolding OthersOutside
  exclusion a {s} i j r within within' = elim (ℕ_discrete j i) [
    | yes same ↦ sym same
    | no ne ↦ absurd (within' ((holder s i (Reach-IsExclusive a r) within).2 j ne))
  ]

  -- What a thread read under the lock is what stands there.
  read_again :
      (s : Threads A) (i : ℕ) (f : A → A) (b : A)
      → Place.loaded f b ≡ s.place i
      → IsExclusive s
      → s.shared ≡ b
  unfolding IsInside IsOutside
  read_again s i f b e h =
      subst (IsInside s.shared) (sym e) (holder s i h (subst (λ p. ¬ IsOutside p) e (λ x. x))).1

  -- what was written, applied one after the other
  turn_at-serial :
      (s : Threads A) (i : ℕ) (p : Place A) (a : A)
      → p ≡ s.place i
      → IsExclusive s
      → s.shared ≡ serial s.written a
      → (turn_at s i p).shared ≡ serial (turn_at s i p).written a
  unfolding turn_at serial
  turn_at-serial s i Place.outside a e h q = q
  turn_at-serial s i (Place.spinning f) a e h q = q
  turn_at-serial s i (Place.holding f) a e h q = q
  turn_at-serial s i (Place.loaded f b) a e h q = ap f (sym (read_again s i f b e h) ∙ q)
  turn_at-serial s i Place.stored a e h q = q

  Step-serial :
      (a : A) {s t : Threads A}
      → Step s t
      → IsExclusive s
      → s.shared ≡ serial s.written a
      → t.shared ≡ serial t.written a
  unfolding turn call try_call
  Step-serial a {s} (locks i f e) h q = q
  Step-serial a {s} (tries i f e) h q = q
  Step-serial a {s} (goes i) h q = turn_at-serial s i (s.place i) a refl h q

  -- In every interleaving the shared value is the first one, changed by the writes one after the other:
  -- no write is lost, and none is built on a value that another thread has replaced.
  pub Reach-serial : (a : A) {s : Threads A} → Reach a s → s.shared ≡ serial s.written a
  unfolding begin serial
  Reach-serial a start = refl
  Reach-serial a (later r step) = Step-serial a step (Reach-IsExclusive a r) (Reach-serial a r)
