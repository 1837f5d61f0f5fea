-- ===== src/Runnable/CancellingTests.antt =====
-- Timers of a worker in src/slam_runnable.c that remove each other or themselves, and the theorems on
-- them at concrete inputs.
use slam.Base.{
  ◌⊎◌, ℕ, ◌≡◌, refl, true, false, none, some, List, [], ◌∷◌, ret, arith, ◌==◌, if◌then◌else◌, ◌<◌,
}
use slam.TimerList.Heap.{Memory}
use slam.TimerList.{TimerList}
use slam.TimerList.Spec.{Node, All, insert}
use slam.TimerList.Chain.{Holds, timer}
use slam.TimerList.Order.{IsGood, due_count, settled, rearm}
use slam.TimerList.Rounds.{plan}
use slam.TimerList.Firing.{run, fire}
use slam.Runnable.Timers.{made}
use slam.Runnable.Seeking.{without, has}
use slam.Runnable.Cancelling.{event, acts, cancelled, run-cancels, fire_itself}

abbrev early : Node ℕ
early = made 1 0 5 false 101 none

abbrev late : Node ℕ
late = made 2 0 20 true 102 none

abbrev memory : Memory ℕ
memory p = if p == 1 then some (timer early 0 2) else if p == 2 then some (timer late 1 0) else none

abbrev both : TimerList ℕ
both = record { timer_head_node = 1; heap = memory }

both-Holds : Holds both (early ∷ late ∷ [])
both-Holds = record {
  starts = refl;
  linked = (λ e. cc, refl, (λ e. cc, refl, tt));
  distinct = ((λ e. cc, tt), (tt, tt));
}

both-IsGood : IsGood 30 (early ∷ late ∷ [])
both-IsGood = record {
  sorted = ((omega arith, tt), (tt, tt));
  fine = ((λ e. cc), ((λ e. omega arith), tt));
}

abbrev lone : TimerList ℕ
lone = record { timer_head_node = 2; heap = λ p. if p == 2 then some (timer late 0 0) else none }

lone-Holds : Holds lone (late ∷ [])
lone-Holds = record { starts = refl; linked = (λ e. cc, refl, tt); distinct = (tt, tt) }

-- The Lua state is the list of the references given up.
abbrev unref : List ℕ → ℕ → List ℕ
unref refs ref = ref ∷ refs

-- The function of timer 101 removes timer 102.
abbrev first_wins : List ℕ → ℕ → List ℕ × List ℕ
first_wins l ref = (l, if ref == 101 then 102 ∷ [] else [])

abbrev removes_itself : List ℕ → ℕ → List ℕ × List ℕ
removes_itself l ref = (l, ref ∷ [])

-- Both timers are due, and only the first is called.
run-cancels_example :
    (s' : TimerList ℕ) × (run (event unref 4 first_wins) 3 4 30 [] both ≡ ret (102 ∷ [], s'))
    × Holds s' []
    × IsGood {C = ℕ} 30 []
    × All {C = ℕ} (λ y. 30 < y.expire_time) []
unfolding plan acts cancelled without has settled due_count
run-cancels_example =
    run-cancels unref 4 first_wins 3 30 [] both (early ∷ late ∷ []) both-Holds (omega arith)
      both-IsGood (omega arith)

-- Timer 101 runs once, and is freed though its function removes it in vain.
fire_itself_example :
    (s' : TimerList ℕ) × (fire (event unref 4 removes_itself) 4 30 [] both 1 ≡ ret ([], s'))
    × Holds s' (late ∷ [])
    × ((early.forever ≡ true) ⊎ (s'.heap 1 ≡ none))
unfolding settled
fire_itself_example =
    fire_itself unref 4 removes_itself 30 [] [] both early (late ∷ []) both-Holds (omega arith) refl
      (λ e. omega arith, tt)

-- Timer 102 is periodic, and goes back into the list.
periodic_test :
    (s' : TimerList ℕ) × (fire (event unref 4 removes_itself) 4 30 [] lone 2 ≡ ret ([], s'))
    × Holds s' (rearm 30 late ∷ [])
    × ((late.forever ≡ true) ⊎ (s'.heap 2 ≡ none))
unfolding settled insert
periodic_test =
    fire_itself unref 4 removes_itself 30 [] [] lone late [] lone-Holds (omega arith) refl tt
