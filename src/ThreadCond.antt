-- ===== src/ThreadCond.antt =====
-- src/io/slam_thread_cond.c: a condition with its mutex. What the thread library answers is an argument.
pub mod Life
pub mod Deadline
mod Tests
use slam.Base.{
  ℕ, ◌+◌, ◌*◌, ◌/◌, ◌%◌, ◌^◌, ℤ, pos, negsuc, Bool, true, false, Option, none, some, ltb, ◌==◌,
  if◌then◌else◌,
}

-- `struct timespec`
pub record Timespec : Type 0 where
  pub tv_sec : ℕ
  pub tv_nsec : ℕ

-- The functions of the thread library, over what it keeps, with its mutexes and conditions. The number
-- that a function answers is 0 when it did what it should.
pub record Pthread (W M C : Type 0) : Type 0 where
  pub mutex_init : W → ℕ × M × W
  pub mutex_destroy : M → W → W
  pub mutex_lock : M → W → ℕ × W
  pub mutex_unlock : M → W → ℕ × W
  pub cond_init : W → ℕ × C × W
  pub cond_destroy : C → W → W
  pub cond_signal : C → W → ℕ × W
  pub cond_wait : C → M → W → ℕ × W
  pub cond_timedwait : C → M → Timespec → W → ℕ × W

-- `struct slam_thread_cond_s`
pub record ThreadCond (M C : Type 0) : Type 0 where
  pub mtx : M
  pub cond : C

-- the `timespec` of `slam_thread_cond_timewait`
unfoldable pub timespec : ℕ → Timespec
timespec milliseconds = record {
  tv_sec = milliseconds / 1000;
  tv_nsec = (milliseconds % 1000) * 1000000;
}

-- CHECK_RETURN of an answer that should be 0
abbrev pub succeeded {ℓ} : {W : Type ℓ} → ℕ × W → Bool × W
succeeded (rc, w) = (rc == 0, w)

module _ {W M C : Type 0} (pthread : Pthread W M C) where
  -- the second half of `slam_thread_cond_new`, with the mutex
  unfoldable pub new_cond : M → W → Option (ThreadCond M C) × W
  new_cond mtx w =
      let (rc, cond, w') = pthread.cond_init w in
      if rc == 0 then (some (record { mtx = mtx; cond = cond }), w') else (none, w')

  -- `slam_thread_cond_new`
  unfoldable pub new : W → Option (ThreadCond M C) × W
  unfolding new_cond
  new w =
      let (rc, mtx, w') = pthread.mutex_init w in if rc == 0 then new_cond mtx w' else (none, w')

  -- `slam_thread_cond_delete`
  unfoldable pub delete : ThreadCond M C → W → W
  delete slam_cond w = pthread.cond_destroy slam_cond.cond (pthread.mutex_destroy slam_cond.mtx w)

  -- `slam_thread_cond_signal`
  unfoldable pub signal : ThreadCond M C → W → Bool × W
  signal slam_cond w = succeeded (pthread.cond_signal slam_cond.cond w)

  -- `slam_thread_cond_wait`
  unfoldable pub wait : ThreadCond M C → W → Bool × W
  wait slam_cond w = succeeded (pthread.cond_wait slam_cond.cond slam_cond.mtx w)

  -- `slam_thread_cond_timewait`
  unfoldable pub timewait : ThreadCond M C → ℤ → W → Bool × W
  unfolding wait timespec
  timewait slam_cond (negsuc n) w = wait slam_cond w
  timewait slam_cond (pos n) w =
      if ltb 0 n
      then succeeded (pthread.cond_timedwait slam_cond.cond slam_cond.mtx (timespec n) w)
      else wait slam_cond w

  -- `slam_thread_mutex_lock` and `slam_thread_mutex_unlock`
  unfoldable pub mutex_lock : M → W → Bool × W
  mutex_lock mtx w = succeeded (pthread.mutex_lock mtx w)

  unfoldable pub mutex_unlock : M → W → Bool × W
  mutex_unlock mtx w = succeeded (pthread.mutex_unlock mtx w)
