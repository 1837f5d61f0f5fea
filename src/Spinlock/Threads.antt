-- ===== src/Spinlock/Threads.antt =====
-- Threads that share a value behind a lock of src/io/slam_spinlock.c, interleaved in any order. A thread
-- that has the lock reads the value, and writes it back changed, in two steps.
use slam.Base.{ℕ, ◌≡◌, List, [], ◌∷◌, if◌then◌else◌, ℕ_discrete}
use slam.Spinlock.{Spinlock, new, lock_round, trylock, unlock}

abbrev pub at {ℓ} : {B : Type ℓ} → (ℕ → B) → ℕ → B → ℕ → B
at f i b j = elim (ℕ_discrete j i) [ yes e ↦ b | no ne ↦ f j ]

-- Where a thread stands: outside, in the loop of `slam_spinlock_lock`, with the lock, with the lock and
-- what it read, and with the lock after it wrote.
pub data Place (A : Type 0) : Type 0 where
  outside : Place A
  spinning : (A → A) → Place A
  holding : (A → A) → Place A
  loaded : (A → A) → A → Place A
  stored : Place A

-- The changes that were written stand last first.
pub record Threads (A : Type 0) : Type 0 where
  pub spinlock : Spinlock
  pub shared : A
  pub place : ℕ → Place A
  pub written : List (A → A)

module _ {A : Type 0} where
  abbrev pub put : Threads A → ℕ → Spinlock → Place A → Threads A
  put s i spinlock p = record s { spinlock = spinlock; place = at s.place i p }

  unfoldable pub begin : A → Threads A
  begin a = record { spinlock = new; shared = a; place = λ i. Place.outside; written = [] }

  -- A thread that is outside calls `slam_spinlock_lock`, or `slam_spinlock_trylock`.
  unfoldable pub call : Threads A → ℕ → (A → A) → Threads A
  call s i f = put s i s.spinlock (Place.spinning f)

  unfoldable pub try_call : Threads A → ℕ → (A → A) → Threads A
  unfolding trylock
  try_call s i f =
      let (taken, spinlock) = trylock s.spinlock in
      put s i spinlock (if taken then Place.holding f else Place.outside)

  -- what the thread does next, from its place
  unfoldable pub turn_at : Threads A → ℕ → Place A → Threads A
  unfolding lock_round unlock
  turn_at s i Place.outside = s
  turn_at s i (Place.spinning f) =
      let (again, spinlock) = lock_round s.spinlock in
      put s i spinlock (if again then Place.spinning f else Place.holding f)
  turn_at s i (Place.holding f) = put s i s.spinlock (Place.loaded f s.shared)
  turn_at s i (Place.loaded f a) = record s {
    shared = f a;
    place = at s.place i Place.stored;
    written = f ∷ s.written;
  }
  turn_at s i Place.stored = put s i (unlock s.spinlock) Place.outside

  unfoldable pub turn : Threads A → ℕ → Threads A
  unfolding turn_at
  turn s i = turn_at s i (s.place i)

  pub data Step (s : Threads A) : Threads A → Type 0 where
    locks : (i : ℕ) (f : A → A) → s.place i ≡ Place.outside → Step s (call s i f)
    tries : (i : ℕ) (f : A → A) → s.place i ≡ Place.outside → Step s (try_call s i f)
    goes : (i : ℕ) → Step s (turn s i)

  pub data Reach (a : A) : Threads A → Type 0 where
    start : Reach a (begin a)
    later : {s t : Threads A} → Reach a s → Step s t → Reach a t

  -- the changes of a list, the last one first, one after the other
  unfoldable pub serial : List (A → A) → A → A
  serial [] a = a
  serial (f ∷ fs) a = f (serial fs a)
