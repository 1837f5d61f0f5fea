-- ===== src/Main/Process.antt =====
-- src/slam_main.c: what a worker process sets up, and what its exit gives back.
use slam.Base.{ℕ, Bool, false, Option, none, some, Run, ret, ◌>>=◌, if◌then◌else◌}
use slam.Lua.Api.{Lua, Text}
use slam.Message.{Message}
use slam.MessageQueue.{MessageQueue}
use slam.MessageQueue
use slam.System.{System}
use slam.IoThread.{IoThread, Setup}
use slam.IoThread
use slam.Runnable.Lifecycle.{Service, load_script}
use slam.Runnable.Lifecycle
use slam.TimerList.Heap.{Memory}

-- The fields of `struct slam_main_s` that a worker process sets up. A descriptor of -1 is `none`, and so is
-- a null pointer. Once the thread runs, the ring is the one that stands in it.
pub record Process (L B T : Type 0) : Type 0 where
  pub fd_io : Option ℕ
  pub fd_worker : Option ℕ
  pub mq : Option (MessageQueue Message)
  pub runnable : Option (Service L B T)
  pub io : Option IoThread

-- `slam_close`
abbrev pub close_fd : {W A : Type 0} → System W A → W → Option ℕ → W
close_fd sys w none = w
close_fd sys w (some fd) = sys.close w fd

-- the settings with the ends of the pair of sockets between a worker and its thread
abbrev pub with_ends : Setup → ℕ → ℕ → Setup
with_ends setup fd_io fd_worker = record setup { fd_io = fd_io; fd_worker = fd_worker }

abbrev pub with_end : Setup → Option ℕ → Setup
with_end setup none = setup
with_end setup (some fd) = record setup { fd_io = fd }

module _ {L F C W A B T : Type 0} (lua : Lua L F C) (sys : System W A) (setup : Setup) where
  -- the end of `slam_main_init_child_process`: the thread, with whether it starts, and the script
  unfoldable pub init_threads :
      Setup
      → Bool
      → (Service L B T → Text → Bool × Service L B T)
      → Text
      → W
      → Process L B T
      → MessageQueue Message
      → Service L B T
      → Bool × Process L B T × W
  init_threads ends started load entryfile w p mq service =
      let (io, w1) = IoThread.new sys ends started w mq in
      elim io [
        | none ↦ (false, p, w1)
        | some thread ↦
            let (loaded, service') = load service entryfile in
            (loaded, record p { runnable = some service'; io = some thread }, w1)
      ]

  -- `slam_main_init_child_process` in a child, with the size of the ring, the worker's end of the pair of
  -- sockets to the master, and the memory of the timers; the result is false where it fails.
  unfoldable pub init_child_process :
      (W → Option (ℕ × ℕ) × W)
      → ℕ
      → ℕ
      → B
      → Memory T
      → Bool
      → (Service L B T → Text → Bool × Service L B T)
      → Text
      → W
      → Process L B T
      → Run (Bool × Process L B T × W)
  unfolding init_threads
  init_child_process socketpair receive_queue_size worker_end builder heap started load entryfile w
        p =
      let (pair, w1) = socketpair w in
      elim pair [
        | none ↦ ret (false, p, w1)
        | some (fd_io, fd_worker) ↦ MessageQueue.new receive_queue_size >>= λ mq.
            let p1 : Process L B T = record p {
              fd_io = some fd_io;
              fd_worker = some fd_worker;
              mq = some mq;
            } in
            let (service, w2) = Lifecycle.new sys w1 fd_worker worker_end builder heap in
            elim service [
              | none ↦ ret (false, p1, w2)
              | some s ↦ ret (
                  init_threads (record (with_ends setup fd_io fd_worker) { worker_poll = s.poll })
                    started load entryfile w2 (record p1 { runnable = some s }) mq s)
            ]
      ]

  -- the deletion of the worker in `slam_main_exit`, where there is one
  unfoldable pub exit_runnable : (B → B) → ℕ → W → Option (Service L B T) → Run W
  exit_runnable builder_destroy fuel w none = ret w
  exit_runnable builder_destroy fuel w (some s) =
      Lifecycle.delete lua sys builder_destroy fuel w s >>= λ (script, builder, heap, w'). ret w'

  -- the deletion of the thread and of the ring; that of the thread closes its end of the pair.
  unfoldable pub exit_io : (W → W) → W → Process L B T → Run (Option ℕ × W)
  exit_io joined w p = elim p.io [
    | none ↦ elim p.mq [
      | none ↦ ret (p.fd_io, w)
      | some mq ↦ MessageQueue.delete mq >>= λ freed. ret (p.fd_io, w)
    ]
    | some thread ↦ IoThread.delete sys (with_end setup p.fd_io) joined w thread >>= λ w'.
        MessageQueue.delete thread.mq >>= λ freed. ret (none, w')
  ]

  -- `slam_main_exit`, with the ends of the pair of sockets to the master, the descriptor of the log, and
  -- whether this is the master
  unfoldable pub exit : (B → B) → (W → W) → ℕ → Bool → ℕ → ℕ → Option ℕ → W → Process L B T → Run W
  unfolding exit_runnable exit_io
  exit builder_destroy joined fuel runasmaster worker_end master_end log w p =
      let w1 = close_fd sys (sys.close (sys.close w worker_end) master_end) log in
      if runasmaster
      then ret w1
      else (exit_runnable builder_destroy fuel w1 p.runnable >>= λ w2.
          exit_io joined w2 p >>= λ (fd_io, w3).
          ret (close_fd sys (close_fd sys w3 fd_io) p.fd_worker))
