-- ===== src/Main/Starting.antt =====
-- What the start and the loop of the program in src/slam_main.c do.
use slam.Base.{
  ℕ, zero, suc, ◌-◌, ◌^◌, ◌<◌, ℤ, negsuc, ◌≡◌, refl, ◌∙◌, ap, Bool, true, false, some, [], ◌∷◌,
  stuck, arith, mod-eq_of_lt,
}
use slam.Lua.Api.{Text}
use slam.Main.{Main, Argument, Waited, to_u32, parse_args, check_options, run_master, run}

-- A negative number of workers, no less than the least `int`, is taken for a large number and passes the
-- checks that the entry file passes.
pub negative_workers_pass :
    (atoi : Text → ℤ) (m : Main) (s entryfile : Text) (exist readable : Text → Bool) (n : ℕ)
    → atoi s ≡ negsuc n
    → n < 2 ^ 31
    → m.entryfile ≡ some entryfile
    → exist entryfile ≡ true
    → readable entryfile ≡ true
    → (m' : Main) × (parse_args atoi m (Argument.workers s ∷ []) ≡ some m')
      × (m'.worker_number ≡ 2 ^ 32 - 1 - n)
      × (check_options true exist readable m' ≡ true)
unfolding parse_args check_options
negative_workers_pass atoi m s entryfile exist readable n e small there exists reads =
    let large : to_u32 (atoi s) ≡ 2 ^ 32 - 1 - n =
      ap to_u32 e ∙ ap (λ k. 2 ^ 32 - 1 - k) (mod-eq_of_lt (omega arith)) in
    (
      record m { worker_number = to_u32 (atoi s) },
      refl,
      large,
      ground (arith, large, there, exists, reads),
    )

module _ {W : Type 0} (wait : W → Waited × W) (run_worker : W → Main → Main × W)
    (signals : W → Main → Main) where
  -- Where there is no child to wait for and no signal arrives, the loop of the program does not end in
  -- the master, whatever the fuel: it asks again and again.
  pub run-stuck :
      (fuel size : ℕ) (w : W) (m : Main)
      → wait w ≡ (Waited.no_child, w)
      → signals w m ≡ m
      → m.halt ≡ false
      → m.runasmaster ≡ true
      → run wait run_worker signals fuel size w m ≡ stuck
  unfolding run run_master
  run-stuck zero size w m waits quiet going master = refl
  run-stuck (suc fuel) zero w m waits quiet going master = ground (arith, quiet, going, master)
  run-stuck (suc fuel) (suc size) w m waits quiet going master =
      ground
        (arith, quiet, going, master, waits, run-stuck fuel (suc size) w m waits quiet going master)
