-- ===== src/ThreadCond/Deadline.antt =====
-- The time that src/io/slam_thread_cond.c waits for.
use slam.Base.{ℕ, ◌+◌, ◌*◌, ◌<◌, ◌≡◌, arith}
use slam.ThreadCond.{timespec}

-- A number of milliseconds as seconds and nanoseconds: less than a second of them, which the thread
-- library asks for, and in sum the same time.
pub timespec_lem :
    (n : ℕ)
    → ((timespec n).tv_nsec < 1000000000)
      × ((timespec n).tv_sec * 1000000000 + (timespec n).tv_nsec ≡ n * 1000000)
unfolding timespec
timespec_lem n = omega arith
