-- ===== src/TimerList/Once.antt =====
-- Which timers one `slam_timer_list_run` of src/slam_timer_list.c calls, and when it never ends.
use slam.Base.{
  ap, ◌++◌, sym, ℕ, zero, suc, ◌+◌, ◌≤◌, ◌<◌, ◌≡◌, refl, ◌∙◌, List, [], ◌∷◌, Run, ret, stuck, ◌>>=◌,
  length, leb, u64, true, Bool-cases, inl, inr, if_true, if_false, none, ◌⊎◌, arith,
}
use mathlib.Core.Path.{subst}
use slam.TimerList.Heap.{Ptr, null}
use slam.TimerList.{TimerList}
use slam.TimerList.Spec.{Node, insert, All}
use slam.TimerList.Chain.{first, Holds}
use slam.TimerList.Order.{
  rearm, settled, settled_forever, settled_once, IsFine, insert-append, insert-All, IsGood,
  settled-IsGood,
}
use slam.TimerList.Calls.{LuaTimers, IsTame, IsFrugal}
use slam.TimerList.Firing.{run}
use slam.TimerList.Rounds.{Freed, fire_lem, run_empty, run_step, rest-IsGood, settled_room}

module _ {C : Type 0} where
  settled-late :
      (nowtime : ℕ) (n : Node C) (late : List (Node C))
      → IsFine nowtime n
      → All (λ y. nowtime < y.expire_time) late
      → All (λ y. nowtime < y.expire_time) (settled nowtime n late)
  settled-late nowtime n late fine a = elim (Bool-cases n.forever) [
    | inl e ↦
        rw (settled_forever nowtime n late e)
          (insert-All (λ y. nowtime < y.expire_time) (rearm nowtime n) late (fine e) a)
    | inr e ↦ rw (settled_once nowtime n late e) a
  ]

  pub All-parts {ℓ} :
      (P : Node C → Type ℓ) (xs ys : List (Node C)) → All P (xs ++ ys) → All P xs × All P ys
  All-parts P [] ys a = (tt, a)
  All-parts P (x ∷ xs) ys a = ((a.0, (All-parts P xs ys a.1).0), (All-parts P xs ys a.1).1)

  still-Freed :
      (n : Node C) (s s' : TimerList C)
      → Freed n s
      → (s.heap n.addr ≡ none → s'.heap n.addr ≡ none)
      → Freed n s'
  still-Freed n s s' (inl e) k = inl e
  still-Freed n s s' (inr e) k = inr (k e)

  -- the late timers, and the periodic ones of the others at their next times
  pub rearmed : ℕ → List (Node C) → List (Node C) → List (Node C)
  rearmed nowtime [] late = late
  rearmed nowtime (n ∷ due) late = rearmed nowtime due (settled nowtime n late)

  settled-append :
      (nowtime : ℕ) (n : Node C) (due late : List (Node C))
      → IsFine nowtime n
      → All (λ y. y.expire_time ≤ nowtime) due
      → settled nowtime n (due ++ late) ≡ due ++ settled nowtime n late
  settled-append nowtime n due late fine a = elim (Bool-cases n.forever) [
    | inl e ↦
        settled_forever nowtime n (due ++ late) e
        ∙ insert-append (rearm nowtime n) due late (weaken due (fine e) a)
        ∙ ap (◌++◌ due) (sym (settled_forever nowtime n late e))
    | inr e ↦
        settled_once nowtime n (due ++ late) e ∙ ap (◌++◌ due) (sym (settled_once nowtime n late e))
  ]
    where
      weaken :
          (ds : List (Node C))
          → nowtime < u64 (nowtime + n.interval)
          → All (λ y. y.expire_time ≤ nowtime) ds
          → All (λ y. y.expire_time ≤ u64 (nowtime + n.interval)) ds
      weaken [] h b = tt
      weaken (d ∷ ds) h b = (omega arith, weaken ds h b.1)

module _ {W C : Type 0} (event_timer : W → TimerList C → Ptr → Run (W × TimerList C)) (size : ℕ)
    (lua : LuaTimers event_timer size) (act : W → Node C → W)
    (quiet : (w : W) (n : Node C) (xs : List (Node C)) → lua.acts w n xs ≡ (act w n, xs)) where
  -- the functions of the timers, called one after the other
  pub calls : W → List (Node C) → W
  calls w [] = w
  calls w (n ∷ ns) = calls (act w n) ns

  pub quiet-IsTame : (nowtime : ℕ) → IsTame nowtime lua.acts
  quiet-IsTame nowtime = record {
    keeps_good = λ w n xs g. rw (quiet w n xs) g;
    adds_no_due = λ w n xs. rw (quiet w n xs) (omega arith);
  }

  -- the timers after one call of a due timer's function
  next_timers :
      (nowtime : ℕ) (w : W) (n : Node C) (due late : List (Node C))
      → IsFine nowtime n
      → All (λ y. y.expire_time ≤ nowtime) due
      → settled nowtime n (lua.acts w n (due ++ late)).1 ≡ due ++ settled nowtime n late
  next_timers nowtime w n due late fine a =
      ap (λ r. settled nowtime n r.1) (quiet w n (due ++ late))
      ∙ settled-append nowtime n due late fine a

  -- What one `slam_timer_list_run` leaves; a node that is free at its start is free at its end.
  runs_due :
      IsFrugal event_timer
      → (fuel nowtime : ℕ) (w : W) (s : TimerList C) (due late : List (Node C))
      → Holds s (due ++ late)
      → lua.Room w (length (due ++ late))
      → IsGood nowtime (due ++ late)
      → All (λ y. y.expire_time ≤ nowtime) due
      → All (λ y. nowtime < y.expire_time) late
      → length due < fuel
      → (s' : TimerList C) × (run event_timer fuel size nowtime w s ≡ ret (calls w due, s'))
        × Holds s' (rearmed nowtime due late)
        × All (λ n. Freed n s') due
        × ((a : Ptr) → s.heap a ≡ none → s'.heap a ≡ none)
  unfolding calls rearmed
  runs_due frugal zero nowtime w s due late v room good a b f = absurd (omega arith)
  runs_due frugal (suc fuel) nowtime w s [] [] v room good a b f =
      (s, run_empty event_timer size lua fuel nowtime w s v.starts, v, tt, λ a e. e)
  runs_due frugal (suc fuel) nowtime w s [] (x ∷ xs) v room good a b f = (
    s,
    run_step event_timer size lua fuel nowtime w s x null (first xs) v.linked.0 v.linked.1 v.starts
        ∙ if_false (leb x.expire_time nowtime) _ _ (ground (arith, b.0)),
    v,
    tt,
    λ a e. e,
  )
  runs_due frugal (suc fuel) nowtime w s (n ∷ ns) late v room good a b f =
      let xs = ns ++ late in
      let (s1, fired, v1, freed, kept) = fire_lem event_timer size lua nowtime w s n xs v room in
      let e = next_timers nowtime w n ns late good.fine.0 a.1 in
      let quiet_room =
        settled_room event_timer size lua nowtime (lua.acts w n xs).0 n (lua.acts w n xs).1
          (lua.acts_room w n xs room) in
      let good1 =
        settled-IsGood nowtime n (lua.acts w n xs).1 good.fine.0
          ((quiet-IsTame nowtime).keeps_good w n xs (rest-IsGood nowtime n xs good)) in
      let (s2, ran, v2, all_freed, kept2) =
        runs_due frugal fuel nowtime (lua.acts w n xs).0 s1 ns (settled nowtime n late)
          (subst (Holds s1) e v1)
          (subst (λ ys. lua.Room (lua.acts w n xs).0 (length ys)) e quiet_room)
          (subst (IsGood nowtime) e good1) a.1 (settled-late nowtime n late good.fine.0 b)
          (omega arith) in
      (
        s2,
        run_step event_timer size lua fuel nowtime w s n null (first xs) v.linked.0 v.linked.1
              v.starts
            ∙ if_true (leb n.expire_time nowtime) _ _ (ground (arith, a.0))
            ∙ ap (λ r. r >>= λ (w', s'). run event_timer fuel size nowtime w' s') fired
            ∙ ran
            ∙ ap (λ r. ret (calls r.0 ns, s2)) (quiet w n xs),
        v2,
        (still-Freed n s1 s2 freed (kept2 n.addr), all_freed),
        λ a e. kept2 a (kept frugal a e),
      )

  -- Where the timer functions leave the timer list alone and make no timer, the list is in the order
  -- of expiry, and each periodic timer's next time is later than now, one `slam_timer_list_run` calls
  -- the function of each timer that has expired exactly once, in the order of the list, and of no other.
  -- The periodic ones go back at their next times; each other is out of the list, and its node is freed.
  pub run_once :
      IsFrugal event_timer
      → (fuel nowtime : ℕ) (w : W) (s : TimerList C) (due late : List (Node C))
      → Holds s (due ++ late)
      → lua.Room w (length (due ++ late))
      → IsGood nowtime (due ++ late)
      → All (λ y. y.expire_time ≤ nowtime) due
      → All (λ y. nowtime < y.expire_time) late
      → length due < fuel
      → (s' : TimerList C) × (run event_timer fuel size nowtime w s ≡ ret (calls w due, s'))
        × Holds s' (rearmed nowtime due late)
        × All (λ n. (n.forever ≡ true) ⊎ (s'.heap n.addr ≡ none)) due
  run_once frugal fuel nowtime w s due late v room good a b f =
      let (s', ran, v', freed, _) = runs_due frugal fuel nowtime w s due late v room good a b f in
      (s', ran, v', freed)

module _ {W C : Type 0} (event_timer : W → TimerList C → Ptr → Run (W × TimerList C)) (size : ℕ)
    (lua : LuaTimers event_timer size) where
  run-zero : (nowtime : ℕ) (w : W) (s : TimerList C) → run event_timer zero size nowtime w s ≡ stuck
  unfolding run
  run-zero nowtime w s = refl

  back :
      (nowtime : ℕ) (w : W) (n : Node C)
      → ((v : W) (m : Node C) → (lua.acts v m []).1 ≡ [])
      → n.forever ≡ true
      → settled nowtime n (lua.acts w n []).1 ≡ rearm nowtime n ∷ []
  unfolding insert
  back nowtime w n alone per =
      settled_forever nowtime n (lua.acts w n []).1 per ∙ ap (insert (rearm nowtime n)) (alone w n)

  -- A periodic timer whose next time is not later than now keeps `slam_timer_list_run` busy for
  -- ever: whatever its function does to the rest of the program, no number of rounds is enough.
  pub run_never_ends :
      (fuel nowtime : ℕ) (w : W) (s : TimerList C) (n : Node C)
      → ((v : W) (m : Node C) → (lua.acts v m []).1 ≡ [])
      → Holds s (n ∷ [])
      → lua.Room w 1
      → n.forever ≡ true
      → u64 (nowtime + n.interval) ≤ nowtime
      → n.expire_time ≤ nowtime
      → run event_timer fuel size nowtime w s ≡ stuck
  run_never_ends zero nowtime w s n alone v room per next due = run-zero nowtime w s
  run_never_ends (suc fuel) nowtime w s n alone v room per next due =
      let (s1, fired, v1, _, _) = fire_lem event_timer size lua nowtime w s n [] v room in
      let kept : Holds s1 (rearm nowtime n ∷ []) =
        subst (Holds s1) (back nowtime w n alone per) v1 in
      let room1 : lua.Room (lua.acts w n []).0 1 =
        subst (λ xs. lua.Room (lua.acts w n []).0 (suc (length xs))) (alone w n)
          (lua.acts_room w n [] room) in
      run_step event_timer size lua fuel nowtime w s n null null v.linked.0 v.linked.1 v.starts
      ∙ if_true (leb n.expire_time nowtime) _ (ret (w, s)) (ground arith)
      ∙ ap (λ r. r >>= λ (w', s'). run event_timer fuel size nowtime w' s') fired
      ∙ run_never_ends fuel nowtime (lua.acts w n []).0 s1 (rearm nowtime n) alone kept room1 per
          next next
