-- ===== src/Spinlock/Tests.antt =====
-- Runs of src/io/slam_spinlock.c: two threads that add to a number.
use slam.Base.{ℕ, suc, ◌+◌, ◌≡◌, refl, List, [], ◌∷◌}
use slam.Spinlock.Threads.{Threads, begin, call, turn, Reach, serial, start, later, locks, goes}
use slam.Spinlock.Exclusion.{IsOutside}
use slam.Spinlock.Serial.{exclusion, Reach-serial}

-- Both call the lock, and the first one takes it.
abbrev first_in : Threads ℕ
first_in = turn (call (call (begin 7) 1 (λ n. n + 1)) 2 (λ n. n + 2)) 1

first_in-Reach : Reach 7 first_in
unfolding begin call turn slam.Base.ℕ_discrete
first_in-Reach =
    later (later (later start (locks 1 (λ n. n + 1) refl)) (locks 2 (λ n. n + 2) refl)) (goes 1)

turns : Threads ℕ → List ℕ → Threads ℕ
turns s [] = s
turns s (i ∷ is) = turns (turn s i) is

turns-Reach : (s : Threads ℕ) (is : List ℕ) → Reach 7 s → Reach 7 (turns s is)
unfolding turns
turns-Reach s [] r = r
turns-Reach s (i ∷ is) r = turns-Reach (turn s i) is (later r (goes i))

-- The second one tries between the steps of the first one.
abbrev both_done : Threads ℕ
both_done = turns first_in (2 ∷ 1 ∷ 2 ∷ 1 ∷ 2 ∷ 1 ∷ 2 ∷ 2 ∷ 2 ∷ 2 ∷ [])

both_done-value : both_done.shared ≡ 10
unfolding turns turn begin call slam.Base.ℕ_discrete slam.Spinlock.new
both_done-value = refl

Reach-serial_example : both_done.shared ≡ serial both_done.written 7
Reach-serial_example =
    Reach-serial 7
      (turns-Reach first_in (2 ∷ 1 ∷ 2 ∷ 1 ∷ 2 ∷ 1 ∷ 2 ∷ 2 ∷ 2 ∷ 2 ∷ []) first_in-Reach)

abbrev first_thread : ℕ
first_thread = 1

within : ¬ IsOutside (first_in.place 1)
unfolding IsOutside begin call turn slam.Base.ℕ_discrete slam.Spinlock.new
within h = h

exclusion_example : first_thread ≡ 1
exclusion_example = exclusion 7 1 1 first_in-Reach within within
