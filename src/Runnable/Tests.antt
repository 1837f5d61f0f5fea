-- ===== src/Runnable/Tests.antt =====
-- Each theorem on the timers of src/slam_runnable.c at a concrete input.
use slam.Base.{
  ℕ, ◌≡◌, refl, true, false, none, some, List, [], ◌∷◌, ret, arith, ◌==◌, if◌then◌else◌,
}
use slam.TimerList.Heap.{Memory}
use slam.TimerList.Spec.{Node, IsSorted}
use slam.TimerList.Chain.{Holds, timer}
use slam.Runnable.{Runnable, add_timer, remove_timer}
use slam.Runnable.Timers.{made, add-remove_timer}

abbrev early : Node ℕ
early = made 1 0 5 false 101 none

abbrev late : Node ℕ
late = made 2 0 20 true 102 none

abbrev memory : Memory ℕ
memory p = if p == 1 then some (timer early 0 2) else if p == 2 then some (timer late 1 0) else none

-- The Lua state is the list of the references given up.
abbrev worker : Runnable (List ℕ) ℕ
worker = record { lua = []; timer_list = record { timer_head_node = 1; heap = memory } }

abbrev unref : List ℕ → ℕ → List ℕ
unref refs ref = ref ∷ refs

worker-Holds : Holds worker.timer_list (early ∷ late ∷ [])
worker-Holds = record {
  starts = refl;
  linked = (λ e. cc, refl, (λ e. cc, refl, tt));
  distinct = ((λ e. cc, tt), (tt, tt));
}

worker-IsSorted : IsSorted (early ∷ late ∷ [])
worker-IsSorted = ((omega arith, tt), (tt, tt))

add-remove_timer_example :
    (r' r'' : Runnable (List ℕ) ℕ) × (add_timer 4 worker 3 6 10 false 103 none ≡ ret r')
    × (remove_timer unref 4 r' 103 ≡ ret r'')
    × Holds r''.timer_list (early ∷ late ∷ [])
    × (r''.timer_list.heap 3 ≡ none)
    × (r''.lua ≡ 103 ∷ [])
add-remove_timer_example =
    add-remove_timer unref 4 worker (early ∷ late ∷ []) 3 6 10 false 103 none worker-Holds
      worker-IsSorted (λ e. cc) (λ e. cc, (λ e. cc, tt)) (λ e. omega arith, (λ e. omega arith, tt))
      (omega arith)
