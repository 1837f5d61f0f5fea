-- ===== src/Main.antt =====
-- src/slam_main.c and src/slam_signal.c: the command line, the start of the workers, the signals and the
-- loop of the program. `getopt`, `atoi`, `fork` and `wait` are parameters.
pub mod Starting
pub mod Process
mod Tests
mod ProcessTests
use slam.Base.{
  ℕ, zero, suc, ◌-◌, ◌^◌, ℤ, pos, negsuc, Bool, true, false, Option, none, some, List, [], ◌∷◌, Run,
  ret, stuck, ◌>>=◌, ltb, u32, if◌then◌else◌,
}
use slam.Lua.Api.{Text}

-- The fields of `struct slam_main_s` that the command line, the signals and the processes change.
pub record Main : Type 0 where
  pub halt : Bool
  pub runasdaemon : Bool
  pub runasmaster : Bool
  pub reload_entryfile : Bool
  pub entryfile : Option Text
  pub logfile : Text
  pub worker_number : ℕ

-- what `getopt` finds: an option with its argument, where it has one
pub data Argument : Type 0 where
  daemon : Argument
  entry : Text → Argument
  workers : Text → Argument
  logs : Text → Argument
  -- -h, -H or one that is not known
  help : Argument

-- an `int` stored in a `uint32_t`
abbrev pub to_u32 : ℤ → ℕ
to_u32 (pos n) = u32 n
to_u32 (negsuc n) = 2 ^ 32 - 1 - u32 n

-- the body of the `while` of `slam_main_parse_args`; `none` is the return after the usage.
unfoldable pub parse_arg : (Text → ℤ) → Main → Argument → Option Main
parse_arg atoi m Argument.daemon = some (record m { runasdaemon = true })
parse_arg atoi m (Argument.entry s) = some (record m { entryfile = some s })
parse_arg atoi m (Argument.workers s) = some (record m { worker_number = to_u32 (atoi s) })
parse_arg atoi m (Argument.logs s) = some (record m { logfile = s })
parse_arg atoi m Argument.help = none

-- `slam_main_parse_args`; `none` is its result false.
unfoldable pub parse_args : (Text → ℤ) → Main → List Argument → Option Main
unfolding parse_arg
parse_args atoi m [] = some m
parse_args atoi m (a ∷ args) = elim (parse_arg atoi m a) [
  | none ↦ none
  | some m' ↦ parse_args atoi m' args
]

-- the checks of `slam_main_init` on what was parsed, with whether the log was opened and what the file
-- system says of a name
unfoldable pub check_options : Bool → (Text → Bool) → (Text → Bool) → Main → Bool
check_options log exist readable m =
    if log
    then (if ltb 0 m.worker_number
        then elim m.entryfile [ none ↦ false | some s ↦ if exist s then readable s else false ]
        else false)
    else false

-- the signals that `slam_signal_handler` knows
pub data Signal : Type 0 where
  sighup sigint sigterm sigquit sigusr1 sigusr2 other : Signal

-- `slam_signal_handler`
unfoldable pub signal_handler : Main → Signal → Main
signal_handler m Signal.sighup = record m { reload_entryfile = true }
signal_handler m Signal.sigint = record m { halt = true }
signal_handler m Signal.sigterm = record m { halt = true }
signal_handler m Signal.sigquit = record m { halt = true }
signal_handler m Signal.sigusr1 = m
signal_handler m Signal.sigusr2 = m
signal_handler m Signal.other = m

-- the answers of `wait`
pub data Waited : Type 0 where
  child : Waited
  -- ECHILD
  no_child : Waited
  failed : Waited

module _ {W : Type 0} (fork : W → Bool × W) (init_child : W → Bool × W) where
  -- `slam_main_spawn_child_process`; `fork` says whether this is the child.
  unfoldable pub spawn_child_process : W → Main → Main × W
  spawn_child_process w m =
      let (is_child, w') = fork w in
      if is_child then (record m { runasmaster = false }, w') else (m, w')

  -- the `for` of `slam_main_init`, over the workers that are left; the result is false where the child
  -- exits, since `slam_main_init_child_process`, the argument `init_child`, failed.
  unfoldable pub spawn_workers : ℕ → W → Main → Bool × Main × W
  unfolding spawn_child_process
  spawn_workers zero w m = (true, m, w)
  spawn_workers (suc n) w m =
      let (m', w1) = spawn_child_process w m in
      let rest = spawn_workers n w1 m' in
      if m'.runasmaster then rest else (let (ready, w2) = init_child w1 in (ready, m', w2))

module _ {W : Type 0} (wait : W → Waited × W) (run_worker : W → Main → Main × W)
    (signals : W → Main → Main) where
  -- `slam_main_run_master`, without the restart that SLAM_DEF_AUTO_RELOAD_CHILD leaves out
  unfoldable pub run_master : ℕ → W → Run W
  run_master zero w = stuck
  run_master (suc fuel) w =
      let (answer, w') = wait w in
      elim answer [
        | Waited.child ↦ run_master fuel w'
        | Waited.no_child ↦ ret w'
        | Waited.failed ↦ run_master fuel w'
      ]

  -- `slam_main_run`; `signals` is what the signals that arrived did to the flags.
  unfoldable pub run : ℕ → ℕ → W → Main → Run (Main × W)
  run zero size w m = stuck
  run (suc fuel) size w m =
      let now = signals w m in
      elim now.halt [
        | true ↦ ret (now, w)
        | false ↦ elim now.runasmaster [
          | true ↦ run_master size w >>= λ w'. run fuel size w' now
          | false ↦ (let (m', w') = run_worker w now in run fuel size w' m')
        ]
      ]
