-- ===== src/Runnable/Cancelling.antt =====
-- Timers of a worker in src/slam_runnable.c whose functions remove other timers by
-- `slam_runnable_remove_timer` while `slam_timer_list_run` of src/slam_timer_list.c is under way.
use slam.Base.{
  none, true, ◌⊎◌, ℕ, suc, ◌≤◌, ◌<◌, ◌≡◌, ◌≢◌, refl, sym, subst, ◌∙◌, ap, List, [], ◌∷◌, ◌++◌, some,
  Run, ret, ◌>>=◌, length, if◌then◌else◌, arith,
}
use slam.TimerList.Heap.{Ptr, null, load}
use slam.TimerList.{TimerList}
use slam.TimerList.Spec.{Node, All}
use slam.TimerList.Chain.{timer, Apart, Holds}
use slam.TimerList.Find.{find_lem, locate_absent}
use slam.TimerList.Order.{IsGood, IsFine, due_count, settled}
use slam.TimerList.Calls.{LuaTimers, IsTame}
use slam.TimerList.Rounds.{plan, run_lem, fire_lem}
use slam.TimerList.Firing.{run, fire}
use slam.Runnable.{Runnable, remove_timer}
use slam.Runnable.Timers.{remove_timer_found}
use slam.Runnable.Seeking.{
  without, has, Sought, seek, without-All, without-IsSorted, without-Apart, due_count-without,
  length-without, without_absent, has_absent,
}

module _ {C : Type 0} where
  Apart-at :
      (a : Ptr) (pre : List (Node C)) (n : Node C) (post : List (Node C))
      → Apart a (pre ++ (n ∷ post))
      → a ≢ n.addr
  Apart-at a [] n post h = λ e. h.0 (sym e)
  Apart-at a (x ∷ pre) n post h = Apart-at a pre n post h.1

module _ {L C : Type 0} (unref : L → ℕ → L) (size : ℕ) where
  -- Timers are removed by their references, one after the other.
  unfoldable pub cancel : List ℕ → Runnable L C → Run (Runnable L C)
  unfolding remove_timer
  cancel [] r = ret r
  cancel (ref ∷ refs) r = remove_timer unref size r ref >>= λ r'. cancel refs r'

  -- the Lua state and the timers afterwards
  abbrev pub given_up : L → ℕ → List (Node C) → L
  given_up l ref xs = if has ref xs then unref l ref else l

  unfoldable pub cancelled : List ℕ → L → List (Node C) → L × List (Node C)
  cancelled [] l xs = (l, xs)
  cancelled (ref ∷ refs) l xs = cancelled refs (given_up l ref xs) (without ref xs)

  remove_timer_absent :
      (r : Runnable L C) (xs : List (Node C)) (ref : ℕ)
      → Holds r.timer_list xs
      → All (λ y. y.ref ≢ ref) xs
      → length xs < size
      → remove_timer unref size r ref ≡ ret r
  unfolding remove_timer
  remove_timer_absent r xs ref v a f =
      rw (find_lem size r.timer_list xs ref v f, locate_absent ref xs a) refl

  -- One removal, whether or not a timer has the reference; the node at an address of no timer stays.
  removes :
      (r : Runnable L C) (xs : List (Node C)) (ref : ℕ) (a : Ptr)
      → Holds r.timer_list xs
      → length xs < size
      → Apart a xs
      → Sought ref xs
      → (r' : Runnable L C) × (remove_timer unref size r ref ≡ ret r')
        × Holds r'.timer_list (without ref xs)
        × (r'.lua ≡ given_up r.lua ref xs)
        × (r'.timer_list.heap a ≡ r.timer_list.heap a)
  removes r xs ref a v f out (Sought.absent all h k) = (
    r,
    remove_timer_absent r xs ref v all f,
    subst (Holds r.timer_list) (sym k) v,
    rw h refl,
    refl,
  )
  removes r xs ref a v f out (Sought.present pre n post e before same h k) =
      let (r', ran, v', freed, gone, others) =
        remove_timer_found unref size r pre n post ref (subst (Holds r.timer_list) e v) before same
          (omega (arith, ap length e)) in
      (
        r',
        ran,
        subst (Holds r'.timer_list) (sym k) v',
        rw h gone,
        others a (Apart-at a pre n post (subst (Apart a) e out))
            (subst (Apart a) k (without-Apart a ref xs out)),
      )

  cancel_lem :
      (refs : List ℕ) (r : Runnable L C) (l : L) (xs : List (Node C)) (a : Ptr)
      → r.lua ≡ l
      → Holds r.timer_list xs
      → length xs < size
      → Apart a xs
      → (r' : Runnable L C) × (cancel refs r ≡ ret r')
        × Holds r'.timer_list (cancelled refs l xs).1
        × (r'.lua ≡ (cancelled refs l xs).0)
        × (r'.timer_list.heap a ≡ r.timer_list.heap a)
        × Apart a (cancelled refs l xs).1
  unfolding cancel cancelled
  cancel_lem [] r l xs a e v f out = (r, refl, v, e, refl, out)
  cancel_lem (ref ∷ refs) r l xs a e v f out =
      let (r1, ran, v1, l1, same1) = removes r xs ref a v f out (seek ref xs) in
      let (r2, ran2, v2, l2, same2, out2) =
        cancel_lem refs r1 (given_up l ref xs) (without ref xs) a
          (l1 ∙ ap (λ l. given_up l ref xs) e) v1 (omega (arith, length-without ref xs))
          (without-Apart a ref xs out) in
      (r2, rw ran ran2, v2, l2, same2 ∙ same1, out2)

  length-cancelled :
      (refs : List ℕ) (l : L) (xs : List (Node C)) → length (cancelled refs l xs).1 ≤ length xs
  unfolding cancelled
  length-cancelled [] l xs = omega arith
  length-cancelled (ref ∷ refs) l xs =
      omega
        (arith, length-cancelled refs (given_up l ref xs) (without ref xs), length-without ref xs)

  due_count-cancelled :
      (nowtime : ℕ) (refs : List ℕ) (l : L) (xs : List (Node C))
      → due_count nowtime (cancelled refs l xs).1 ≤ due_count nowtime xs
  unfolding cancelled
  due_count-cancelled nowtime [] l xs = omega arith
  due_count-cancelled nowtime (ref ∷ refs) l xs = omega (
    arith,
    due_count-cancelled nowtime refs (given_up l ref xs) (without ref xs),
    due_count-without nowtime ref xs,
  )

  cancelled-IsGood :
      (nowtime : ℕ) (refs : List ℕ) (l : L) (xs : List (Node C))
      → IsGood nowtime xs
      → IsGood nowtime (cancelled refs l xs).1
  unfolding cancelled
  cancelled-IsGood nowtime [] l xs g = g
  cancelled-IsGood nowtime (ref ∷ refs) l xs g =
      cancelled-IsGood nowtime refs (given_up l ref xs) (without ref xs) (record {
        sorted = without-IsSorted ref xs g.sorted;
        fine = without-All (IsFine nowtime) ref xs g.fine;
      })

  module _ (script : L → ℕ → L × List ℕ) where
    -- A script's function for the timer with a reference changes the Lua state and removes timers.
    unfoldable pub event : L → TimerList C → Ptr → Run (L × TimerList C)
    unfolding cancel
    event l s node = load s.heap node >>= λ t.
        let (l', refs) = script l t.body.ref in
        cancel refs (record { lua = l'; timer_list = s }) >>= λ r. ret (r.lua, r.timer_list)

    unfoldable pub acts : L → Node C → List (Node C) → L × List (Node C)
    unfolding cancelled
    acts l n xs = let (l', refs) = script l n.ref in cancelled refs l' xs

    event_runs :
        (l : L) (s : TimerList C) (n : Node C) (p q : Ptr) (r : Runnable L C)
        → n.addr ≢ null
        → s.heap n.addr ≡ some (timer n p q)
        → cancel (script l n.ref).1 (record { lua = (script l n.ref).0; timer_list = s }) ≡ ret r
        → event l s n.addr ≡ ret (r.lua, r.timer_list)
    unfolding event
    event_runs l s n p q r n0 hn ran = ground (arith, n0, hn, ran)

    cancels : LuaTimers event size
    unfolding acts
    cancels = record {
      acts = acts;
      Room = λ w m. m ≤ size;
      room_fits = λ w m h. h;
      room_down = λ w m h. omega arith;
      acts_room =
          λ w n xs h. omega (arith, length-cancelled (script w n.ref).1 (script w n.ref).0 xs);
      acts_sound = λ w s n p q xs v n0 hn out room.
          let (r, ran, v', l', same, out') =
            cancel_lem (script w n.ref).1 (record { lua = (script w n.ref).0; timer_list = s })
              (script w n.ref).0 xs n.addr refl v (omega arith) out in
          (
            r.timer_list,
            p,
            q,
            event_runs w s n p q r n0 hn ran ∙ ap (λ l. ret (l, r.timer_list)) l',
            v',
            same ∙ hn,
            out',
          );
    }

    acts-IsTame : (nowtime : ℕ) → IsTame nowtime acts
    unfolding acts
    acts-IsTame nowtime = record {
      keeps_good = λ w n xs g. cancelled-IsGood nowtime (script w n.ref).1 (script w n.ref).0 xs g;
      adds_no_due = λ w n xs. due_count-cancelled nowtime (script w n.ref).1 (script w n.ref).0 xs;
    }

    -- Where the timers' functions change the Lua state and remove timers by reference, also ones that are
    -- due in the same round, then with sound timers, fuel for each that has expired, and no more timers
    -- than the fuel of a walk along the list, slam_timer_list_run follows no bad pointer and ends: it does
    -- what the loop over the list of timers does, in which a timer that is removed is not called any
    -- more, and leaves a list in the order of expiry of which no timer has expired.
    pub run-cancels :
        (fuel nowtime : ℕ) (l : L) (s : TimerList C) (xs : List (Node C))
        → Holds s xs
        → length xs ≤ size
        → IsGood nowtime xs
        → due_count nowtime xs < fuel
        → (s' : TimerList C) × (run event fuel size nowtime l s
            ≡ ret ((plan acts fuel nowtime l xs).0, s'))
          × Holds s' (plan acts fuel nowtime l xs).1
          × IsGood nowtime (plan acts fuel nowtime l xs).1
          × All (λ y. nowtime < y.expire_time) (plan acts fuel nowtime l xs).1
    unfolding cancels
    run-cancels fuel nowtime l s xs v few good enough =
        run_lem event size cancels fuel nowtime l s xs (acts-IsTame nowtime) v few good enough

    acts_itself :
        (l l' : L) (n : Node C) (xs : List (Node C))
        → script l n.ref ≡ (l', n.ref ∷ [])
        → All (λ y. y.ref ≢ n.ref) xs
        → acts l n xs ≡ (l', xs)
    unfolding acts cancelled
    acts_itself l l' n xs e a =
        ap (λ p. cancelled p.1 p.0 xs) e
        ∙ rw (has_absent n.ref xs a) (ap (λ ys. (l', ys)) (without_absent n.ref xs a))

    -- Where a timer's function removes that timer, by a reference that no other timer has, nothing is
    -- removed and the reference is kept: a periodic timer goes back into the list at its next time, and
    -- any other is freed.
    pub fire_itself :
        (nowtime : ℕ) (l l' : L) (s : TimerList C) (n : Node C) (xs : List (Node C))
        → Holds s (n ∷ xs)
        → suc (length xs) ≤ size
        → script l n.ref ≡ (l', n.ref ∷ [])
        → All (λ y. y.ref ≢ n.ref) xs
        → (s' : TimerList C) × (fire event size nowtime l s n.addr ≡ ret (l', s'))
          × Holds s' (settled nowtime n xs)
          × ((n.forever ≡ true) ⊎ (s'.heap n.addr ≡ none))
    unfolding cancels
    fire_itself nowtime l l' s n xs v few e a =
        let (s', ran, v', freed, _) = fire_lem event size cancels nowtime l s n xs v few in
        let k = acts_itself l l' n xs e a in
        (
          s',
          ran ∙ ap (λ p. ret (p.0, s')) k,
          subst (λ p. Holds s' (settled nowtime n p.1)) k v',
          freed,
        )
