-- ===== src/Runnable.antt =====
-- src/slam_runnable.c: the timers of a worker. The Lua state and `slam_lua_unref`, which gives up a
-- reference in its registry, are arguments.
pub mod Timers
pub mod Seeking
pub mod Cancelling
pub mod Worker
pub mod Serving
pub mod Lifecycle
mod Tests
mod CancellingTests
mod ServingTests
use slam.Base.{ℕ, Bool, true, Option, Run, ret, ◌>>=◌, ◌==◌, if◌then◌else◌}
use slam.TimerList.Heap.{Ptr, null, load}
use slam.TimerList.{TimerList, timer_new, add, find, remove_by_node}

-- `struct slam_runnable_s`, as far as timers go
pub record Runnable (L C : Type 0) : Type 0 where
  pub lua : L
  pub timer_list : TimerList C

module _ {L C : Type 0} where
  -- `slam_runnable_add_timer`, at the address that `malloc` gives and the clock's milliseconds; the
  -- result of the function is that address.
  unfoldable pub add_timer :
      ℕ → Runnable L C → Ptr → ℕ → ℕ → Bool → ℕ → Option C → Run (Runnable L C)
  unfolding timer_new add
  add_timer fuel runnable p now interval forever ref ctx =
      let s = runnable.timer_list in
      add fuel (record s { heap = timer_new s.heap p now interval forever ref ctx }) p >>= λ s'.
      ret (record runnable { timer_list = s' })

  -- `slam_runnable_remove_timer`
  unfoldable pub remove_timer : (L → ℕ → L) → ℕ → Runnable L C → ℕ → Run (Runnable L C)
  unfolding find remove_by_node
  remove_timer unref fuel runnable ref = do
    node ← find fuel runnable.timer_list ref
    if node == null
        then ret runnable
        else (load runnable.timer_list.heap node >>= λ t.
            remove_by_node runnable.timer_list node true >>= λ s.
            ret (record { lua = unref runnable.lua t.body.ref; timer_list = s }))
