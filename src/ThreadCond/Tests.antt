-- ===== src/ThreadCond/Tests.antt =====
-- Runs of src/io/slam_thread_cond.c.
use slam.Base.{ℕ, ◌+◌, ◌-◌, ◌≡◌, refl, pos, arith, true, false}
use slam.ThreadCond.{Pthread, ThreadCond, new, timewait}
use slam.ThreadCond.Life.{IsCounted, left_over, new_lem}

-- A thread library that has mutexes and no condition: it counts what lives. A wait answers 0 when it is
-- given two seconds and 5000000 nanoseconds.
abbrev mutexes_only : Pthread ℕ Unit Unit
mutexes_only = record {
  mutex_init = λ w. (0, tt, w + 1);
  mutex_destroy = λ m w. w - 1;
  mutex_lock = λ m w. (0, w);
  mutex_unlock = λ m w. (0, w);
  cond_init = λ w. (11, tt, w);
  cond_destroy = λ c w. w - 1;
  cond_signal = λ c w. (0, w);
  cond_wait = λ c m w. (1, w);
  cond_timedwait = λ c m ts w. ((ts.tv_sec - 2) + (ts.tv_nsec - 5000000), w);
}

abbrev count : ℕ → ℕ
count w = w

mutexes_only-IsCounted : IsCounted mutexes_only count
mutexes_only-IsCounted = record {
  mutex_init_counts = λ w. refl;
  cond_init_counts = λ w. omega arith;
  mutex_destroy_counts = λ m w. refl;
  cond_destroy_counts = λ c w. refl;
}

new_lem_example : left_over mutexes_only count mutexes_only-IsCounted (new mutexes_only 5) ≡ 6
new_lem_example = new_lem mutexes_only count mutexes_only-IsCounted 5

abbrev pair : ThreadCond Unit Unit
pair = record { mtx = tt; cond = tt }

waits : timewait mutexes_only pair (pos 2005) 0 ≡ (true, 0)
unfolding timewait
waits = refl

waits_without_time : timewait mutexes_only pair (pos 0) 0 ≡ (false, 0)
unfolding timewait
waits_without_time = refl
