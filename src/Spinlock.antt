-- ===== src/Spinlock.antt =====
-- src/io/slam_spinlock.c: a lock that a thread waits for by trying again. The built-in functions of the
-- compiler are atomic: each is a step of its thread.
pub mod Threads
pub mod Exclusion
pub mod Serial
mod Tests
use slam.Base.{ℕ, Bool, true, false, not, ◌==◌}

-- `struct slam_spinlock_s`
pub record Spinlock : Type 0 where
  pub lock : ℕ

-- `slam_spinlock_new`
unfoldable pub new : Spinlock
new = record { lock = 0 }

-- `__sync_lock_test_and_set(&spinlock->lock, 1)`: what stood there, and the lock taken
abbrev pub test_and_set : Spinlock → ℕ × Spinlock
test_and_set spinlock = (spinlock.lock, record { lock = 1 })

-- a round of the loop of `slam_spinlock_lock`; the result is true when the loop goes on.
unfoldable pub lock_round : Spinlock → Bool × Spinlock
lock_round spinlock = let (old, spinlock') = test_and_set spinlock in (not (old == 0), spinlock')

-- `slam_spinlock_trylock`
unfoldable pub trylock : Spinlock → Bool × Spinlock
trylock spinlock = let (old, spinlock') = test_and_set spinlock in (old == 0, spinlock')

-- `slam_spinlock_unlock`; the release writes 0.
unfoldable pub unlock : Spinlock → Spinlock
unlock spinlock = record { lock = 0 }
