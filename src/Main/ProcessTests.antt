-- ===== src/Main/ProcessTests.antt =====
-- A worker process of src/slam_main.c whose thread does not start, and its exit.
use slam.Base.{
  ℕ, ◌≡◌, refl, Bool, true, false, none, some, List, [], ◌∷◌, Run, ret, abort, fault, stuck,
}
use slam.Lua.Api.{text}
use slam.Lua.Sample.{lists, Thing}
use slam.IoThread.Sample.{World, kernel, setup}
use slam.Runnable.Lifecycle.{Service}
use slam.Main.Process.{Process, init_child_process, exit}

-- Messages are built in the state ℕ, and timers have no context.
abbrev Worker : Type 0
Worker = Process (List Thing) ℕ (Unit {0})

abbrev unset : Worker
unset = record { fd_io = some 90; fd_worker = some 91; mq = none; runnable = none; io = none }

abbrev idle : World
idle = record { rounds = []; closed = [] }

abbrev ended : Bool → Run (Bool × Worker × World) → Run World
ended runasmaster (ret (ready, p, w)) =
    exit lists kernel setup (λ b. b) (λ w. w) 1 runasmaster 60 61 (some 5) w p
ended runasmaster abort = abort
ended runasmaster fault = fault
ended runasmaster stuck = stuck

abbrev closed_by : Run World → List ℕ
closed_by (ret w) = w.closed
closed_by _ = []

-- Without a pair of sockets the exit closes the numbers that stand in the fields.
closes_unset :
    closed_by (
      ended false (
        init_child_process lists kernel setup
          (λ w. (none, w))
          3
          60
          0
          (λ p. none)
          true
          (λ s name. (true, s))
          (text "a.lua")
          idle
          unset))
    ≡ 91 ∷ 90 ∷ 5 ∷ 61 ∷ 60 ∷ []
unfolding init_child_process exit
closes_unset = refl

-- A thread that does not start has closed its poll; the worker's poll is closed by the exit.
closes_ends :
    closed_by (
      ended false (
        init_child_process lists kernel setup
          (λ w. (some (10, 11), w))
          3
          60
          0
          (λ p. none)
          false
          (λ s name. (true, s))
          (text "a.lua")
          idle
          unset))
    ≡ 11 ∷ 10 ∷ 4 ∷ 5 ∷ 61 ∷ 60 ∷ 4 ∷ []
unfolding init_child_process exit slam.MessageQueue.new slam.Runnable.Lifecycle.new
    slam.IoThread.new slam.Runnable.Lifecycle.delete slam.MessageQueue.delete
closes_ends = refl
