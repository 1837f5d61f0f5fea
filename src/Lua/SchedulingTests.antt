-- ===== src/Lua/SchedulingTests.antt =====
-- newtimer of src/slam_lua_func.c with the arguments of a script, and the theorem at that input.
use slam.Base.{
  ◌≤◌, ◌<◌, ℤ, pos, ◌≡◌, refl, false, none, some, List, [], ◌∷◌, ◌++◌, ret, arith, ◌==◌,
  if◌then◌else◌,
}
use slam.Lua.Value.{LuaValue}
use slam.Lua.Sample.{lists, Thing, count, truth, routine}
use slam.Lua.Timers.{cc_newtimer}
use slam.Lua.Scheduling.{cc_newtimer_lem}
use slam.Runnable.{Runnable}
use slam.Runnable.Timers.{made}
use slam.TimerList.Heap.{Memory}
use slam.TimerList.Spec.{Node, All}
use slam.TimerList.Chain.{Holds, timer}

abbrev waiting : Node (LuaValue ℤ)
waiting = made 1 0 5 false 101 none

abbrev memory : Memory (LuaValue ℤ)
memory p = if p == 1 then some (timer waiting 0 0) else none

-- newtimer(10, false, 42, function)
abbrev arguments : List Thing
arguments = routine ∷ count (pos 42) ∷ truth false ∷ count (pos 10) ∷ []

abbrev worker : Runnable (List Thing) (LuaValue ℤ)
worker = record { lua = arguments; timer_list = record { timer_head_node = 1; heap = memory } }

worker-Holds : Holds worker.timer_list (waiting ∷ [])
worker-Holds = record { starts = refl; linked = (λ e. cc, refl, tt); distinct = (tt, tt) }

cc_newtimer_lem_example :
    (r' : Runnable (List Thing) (LuaValue ℤ)) × (before after : List (Node (LuaValue ℤ)))
    × (cc_newtimer lists 1 worker 3 6 ≡ ret (1, r'))
    × Holds r'.timer_list
        (before ++ (made 3 6 10 false 1 (some (LuaValue.integer (pos 42))) ∷ after))
    × (waiting ∷ [] ≡ before ++ after)
    × All (λ y. y.expire_time ≤ 16) before
    × All (λ y. 16 < y.expire_time) after
    × (r'.lua ≡ count (pos 1) ∷ arguments)
unfolding slam.Lua.Timers.context slam.Lua.ref
cc_newtimer_lem_example =
    cc_newtimer_lem lists 1 worker (waiting ∷ []) 3 6 1 (LuaValue.integer (pos 42)) arguments
      arguments refl refl refl refl refl refl worker-Holds (tt, tt) (λ e. cc) (λ e. cc, tt)
      (omega arith)
