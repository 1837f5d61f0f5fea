-- ===== src/Main/Tests.antt =====
-- The start with a negative number of workers, and the loop of a master whose children have ended.
use slam.Base.{◌-◌, ◌^◌, ℤ, negsuc, ◌≡◌, refl, Bool, true, false, some, [], ◌∷◌, stuck, arith}
use slam.Lua.Api.{Text, text}
use slam.Main.{Main, Argument, Waited, parse_args, check_options, spawn_workers, run}
use slam.Main.Starting.{negative_workers_pass, run-stuck}

abbrev atoi_minus_one : Text → ℤ
atoi_minus_one s = negsuc 0

abbrev anything : Text → Bool
anything s = true

abbrev first_settings : Main
first_settings = record {
  halt = false;
  runasdaemon = false;
  runasmaster = true;
  reload_entryfile = false;
  entryfile = some (text "server.lua");
  logfile = text "slam.log";
  worker_number = 1;
}

negative_workers_pass_example :
    (m' : Main) × (parse_args atoi_minus_one first_settings (Argument.workers (text "-1") ∷ [])
      ≡ some m')
    × (m'.worker_number ≡ 2 ^ 32 - 1 - 0)
    × (check_options true anything anything m' ≡ true)
negative_workers_pass_example =
    negative_workers_pass atoi_minus_one first_settings (text "-1") (text "server.lua") anything
      anything 0 refl (omega arith) refl refl refl

abbrev no_children : Unit {0} → Waited × Unit {0}
no_children w = (Waited.no_child, w)

abbrev idle_worker : Unit {0} → Main → Main × Unit {0}
idle_worker w m = (m, w)

abbrev no_signal : Unit {0} → Main → Main
no_signal w m = m

run-stuck_example : run no_children idle_worker no_signal 1000 3 tt first_settings ≡ stuck
run-stuck_example =
    run-stuck no_children idle_worker no_signal 1000 3 tt first_settings refl refl refl refl

-- Without a child the start forks for each worker; the child of the second fork starts no further one.
spawn_test :
    spawn_workers (λ w. (false, w)) (λ w. (true, w)) 3 tt first_settings
    ≡ (true, first_settings, tt)
unfolding spawn_workers
spawn_test = refl
