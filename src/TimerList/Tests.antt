-- ===== src/TimerList/Tests.antt =====
-- Runs of the timer list of src/slam_timer_list.c, and each theorem at a concrete input.
use slam.Base.{
  ◌⊎◌, ◌∙◌, sym, ap, abort, fault, ℕ, ◌≤◌, ◌<◌, ◌≡◌, refl, List, [], ◌∷◌, ◌++◌, none, some, Bool,
  true, false, Run, ret, stuck, ◌>>=◌, if◌then◌else◌, arith, ◌==◌,
}
use slam.TimerList.Heap.{Ptr, Timer, Memory, load}
use slam.TimerList.{TimerList, new, add, min_interval}
use slam.TimerList.Spec.{Node, IsSorted, All}
use slam.TimerList.Chain.{Holds, timer}
use slam.TimerList.Add.{add_keeps_order}
use slam.TimerList.Wait.{expired_waits_as_none}
use slam.TimerList.Calls.{LuaTimers, IsTame, IsFrugal}
use slam.TimerList.Order.{IsGood, due_count}
use slam.TimerList.Firing.{run}
use slam.TimerList.Rounds.{run_lem, plan}
use slam.TimerList.Once.{run_once, run_never_ends, calls, rearmed}

abbrev node : Ptr → ℕ → ℕ → Bool → ℕ → Node ℕ
node p interval time forever ref = record {
  addr = p;
  body = record {
    interval = interval;
    expire_time = time;
    forever = forever;
    ref = ref;
    ctx = none;
  };
}

-- a timer that is run once at 10, and a periodic one at 20
abbrev once : Node ℕ
once = node 1 5 10 false 101

abbrev each : Node ℕ
each = node 2 30 20 true 102

abbrev third : Node ℕ
third = node 3 5 15 false 103

abbrev memory : Memory ℕ
memory a =
    if a == 1
    then some (timer once 0 2)
    else if a == 2
    then some (timer each 1 0)
    else if a == 3
    then some (timer third 0 0)
    else none

abbrev two : TimerList ℕ
two = record { timer_head_node = 1; heap = memory }

two-Holds : Holds two (once ∷ each ∷ [])
two-Holds = record {
  starts = refl;
  linked = (λ e. cc, refl, (λ e. cc, refl, tt));
  distinct = ((λ e. cc, tt), (tt, tt));
}

two-IsSorted : IsSorted (once ∷ each ∷ [])
two-IsSorted = omega arith

two-IsGood : IsGood 12 (once ∷ each ∷ [])
two-IsGood = record { sorted = two-IsSorted; fine = (λ e. cc, (λ e. omega arith, tt)) }

add_keeps_order_example :
    (s' : TimerList ℕ) × (before after : List (Node ℕ)) × (add 2 two 3 ≡ ret s')
    × Holds s' (before ++ (third ∷ after))
    × (once ∷ each ∷ [] ≡ before ++ after)
    × All (λ y. y.expire_time ≤ 15) before
    × All (λ y. 15 < y.expire_time) after
    × IsSorted (before ++ (third ∷ after))
add_keeps_order_example =
    add_keeps_order 2 two (once ∷ each ∷ []) third 0 0 two-Holds two-IsSorted (λ e. cc) refl
      (λ e. cc, (λ e. cc, tt)) (omega arith)

new-Holds : Holds (new memory) []
unfolding new
new-Holds = record { starts = refl; linked = tt; distinct = tt }

expired_waits : min_interval two 10 ≡ min_interval (new memory) 10
expired_waits =
    expired_waits_as_none two (new memory) 10 once (each ∷ []) two-Holds (omega arith) new-Holds

abbrev list_of : TimerList ℕ → Run (List ℕ × TimerList ℕ) → TimerList ℕ
list_of s (ret (w, s')) = s'
list_of s _ = s

-- A timer function that only notes the reference of its timer.
note_ref : List ℕ → TimerList ℕ → Ptr → Run (List ℕ × TimerList ℕ)
note_ref w s p = load s.heap p >>= λ t. ret (t.body.ref ∷ w, s)

noting : LuaTimers note_ref 8
unfolding note_ref
noting = record {
  acts = λ w n xs. (n.ref ∷ w, xs);
  Room = λ w m. m ≤ 8;
  room_fits = λ w m h. h;
  room_down = λ w m h. omega arith;
  acts_room = λ w n xs h. h;
  acts_sound = λ w s n p q xs v n0 hn out room. (s, p, q, ground arith, v, hn, out);
}

noting-IsTame : IsTame 12 noting.acts
unfolding noting
noting-IsTame = record { keeps_good = λ w n xs g. g; adds_no_due = λ w n xs. omega arith }

run_lem_example :
    (s' : TimerList ℕ) × (run note_ref 2 8 12 [] two
      ≡ ret ((plan noting.acts 2 12 [] (once ∷ each ∷ [])).0, s'))
    × Holds s' (plan noting.acts 2 12 [] (once ∷ each ∷ [])).1
    × IsGood 12 (plan noting.acts 2 12 [] (once ∷ each ∷ [])).1
    × All (λ y. 12 < y.expire_time) (plan noting.acts 2 12 [] (once ∷ each ∷ [])).1
unfolding noting due_count
run_lem_example =
    run_lem note_ref 8 noting 2 12 [] two (once ∷ each ∷ []) noting-IsTame two-Holds (omega arith)
      two-IsGood (omega arith)

note : List ℕ → Node ℕ → List ℕ
note w n = n.ref ∷ w

noting-quiet : (w : List ℕ) (n : Node ℕ) (xs : List (Node ℕ)) → noting.acts w n xs ≡ (note w n, xs)
unfolding noting note
noting-quiet w n xs = refl

abbrev after : List ℕ → TimerList ℕ → Timer ℕ → Run (List ℕ × TimerList ℕ)
after w s t = ret (t.body.ref ∷ w, s)

noted :
    (m : Run (Timer ℕ)) (w w' : List ℕ) (s s' : TimerList ℕ)
    → (m >>= after w s) ≡ ret (w', s')
    → s ≡ s'
noted (ret t) w w' s s' e = ap (λ r. list_of s r) e
noted abort w w' s s' e = absurd (cc)
noted fault w w' s s' e = absurd (cc)
noted stuck w w' s s' e = absurd (cc)

note_ref-IsFrugal : IsFrugal note_ref
unfolding note_ref
note_ref-IsFrugal w w' s s' p a e free =
    ap (λ t. t.heap a) (sym (noted (load s.heap p) w w' s s' e)) ∙ free

run_once_example :
    (s' : TimerList ℕ) × (run note_ref 2 8 12 [] two
      ≡ ret (calls note_ref 8 noting note noting-quiet [] (once ∷ []), s'))
    × Holds s' (rearmed 12 (once ∷ []) (each ∷ []))
    × All (λ n. (n.forever ≡ true) ⊎ (s'.heap n.addr ≡ none)) (once ∷ [])
unfolding noting
run_once_example =
    run_once note_ref 8 noting note noting-quiet note_ref-IsFrugal 2 12 [] two (once ∷ [])
      (each ∷ []) two-Holds (omega arith) two-IsGood (omega arith, tt) (omega arith, tt)
      (omega arith)

-- a periodic timer of interval 0
abbrev busy : Node ℕ
busy = node 1 0 10 true 105

abbrev lone : TimerList ℕ
lone = record { timer_head_node = 1; heap = λ a. if a == 1 then some (timer busy 0 0) else none }

run_never_ends_example : run note_ref 100 8 12 [] lone ≡ stuck
unfolding noting
run_never_ends_example =
    run_never_ends note_ref 8 noting 100 12 [] lone busy (λ v m. refl)
      (record { starts = refl; linked = (λ e. cc, refl, tt); distinct = (tt, tt) }) (omega arith)
      refl (omega arith) (omega arith)
