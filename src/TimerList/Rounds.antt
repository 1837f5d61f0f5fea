-- ===== src/TimerList/Rounds.antt =====
-- `slam_timer_list_run` of src/slam_timer_list.c against the same loop over a list of timers: it
-- ends, and leaves no timer that has expired.
use slam.Base.{
  ap, ℕ, zero, suc, ◌≤◌, ◌<◌, ◌≡◌, ◌≢◌, refl, ◌∙◌, sym, ◌⊎◌, Option, List, [], ◌∷◌, none, some, Run,
  ret, ◌>>=◌, length, leb, if◌then◌else◌, true, false, Bool-cases, inl, inr, if_true, if_false,
  arith,
}
use slam.TimerList.Heap.{Ptr, Memory, null, write}
use slam.TimerList.{TimerList, add, remove_by_node, timer_delete}
use slam.TimerList.Spec.{Node, All}
use slam.TimerList.Chain.{first, timer, Apart, Holds, Chain, Chain-write}
use slam.TimerList.Add.{add_lem}
use slam.TimerList.Remove.{unlink_lem}
use slam.TimerList.Order.{
  rearm, settled, settled_forever, settled_once, settled-IsGood, IsGood, IsFine, due_count,
  due_count-settled, length-insert, All-late,
}
use slam.TimerList.Calls.{LuaTimers, IsTame, IsFrugal}
use slam.TimerList.Firing.{settle, fire, run}

module _ {W C : Type 0} (acts : W → Node C → List (Node C) → W × List (Node C)) where
  -- the loop over the list of the timers
  unfoldable pub plan : ℕ → ℕ → W → List (Node C) → W × List (Node C)
  plan zero nowtime w xs = (w, xs)
  plan (suc fuel) nowtime w [] = (w, [])
  plan (suc fuel) nowtime w (n ∷ xs) =
      let rest = plan fuel nowtime (acts w n xs).0 (settled nowtime n (acts w n xs).1) in
      if leb n.expire_time nowtime then rest else (w, n ∷ xs)

  pub plan_nil : (fuel nowtime : ℕ) (w : W) → plan (suc fuel) nowtime w [] ≡ (w, [])
  unfolding plan
  plan_nil fuel nowtime w = refl

  pub plan_due :
      (fuel nowtime : ℕ) (w : W) (n : Node C) (xs : List (Node C))
      → leb n.expire_time nowtime ≡ true
      → plan (suc fuel) nowtime w (n ∷ xs)
        ≡ plan fuel nowtime (acts w n xs).0 (settled nowtime n (acts w n xs).1)
  unfolding plan
  plan_due fuel nowtime w n xs e = if_true _ _ _ e

  pub plan_late :
      (fuel nowtime : ℕ) (w : W) (n : Node C) (xs : List (Node C))
      → leb n.expire_time nowtime ≡ false
      → plan (suc fuel) nowtime w (n ∷ xs) ≡ (w, n ∷ xs)
  unfolding plan
  plan_late fuel nowtime w n xs e = if_false _ _ _ e

  -- Each round leaves fewer timers that have expired.
  fewer_due :
      (nowtime : ℕ) (w : W) (n : Node C) (xs : List (Node C)) {fuel : ℕ}
      → IsTame nowtime acts
      → IsFine nowtime n
      → leb n.expire_time nowtime ≡ true
      → due_count nowtime (n ∷ xs) < suc fuel
      → due_count nowtime (settled nowtime n (acts w n xs).1) < fuel
  unfolding due_count
  fewer_due nowtime w n xs tame fine e f =
      rw (due_count-settled nowtime n (acts w n xs).1 fine)
        (ground (arith, tame.adds_no_due w n xs))

clash : {A : Type 0} {x y : Option A} {t : A} → x ≡ y → x ≡ some t → y ≡ none → ⊥
clash e f g = cc

module _ {C : Type 0} where
  -- A timer that is not periodic is freed.
  abbrev pub Freed : Node C → TimerList C → Type 0
  Freed n s = (n.forever ≡ true) ⊎ (s.heap n.addr ≡ none)

  -- A free node is no node of a list.
  Chain-none :
      (h : Memory C) (p a : Ptr) (xs : List (Node C)) → Chain h p xs → h a ≡ none → Apart a xs
  Chain-none h p a [] c e = tt
  Chain-none h p a (x ∷ xs) c e = (λ k. clash (ap h k) c.1 e, Chain-none h x.addr a xs c.2 e)

  pub rest-IsGood :
      (nowtime : ℕ) (n : Node C) (xs : List (Node C)) → IsGood nowtime (n ∷ xs) → IsGood nowtime xs
  rest-IsGood nowtime n xs g = record { sorted = g.sorted.1; fine = g.fine.1 }

  free_head :
      (s : TimerList C) (n : Node C) (p q : Ptr) (xs : List (Node C))
      → Holds s xs
      → Apart n.addr xs
      → Holds (record s { heap = write s.heap n.addr none }) xs
  free_head s n p q xs v out = record {
    starts = v.starts;
    linked = Chain-write s.heap n.addr none null xs out v.linked;
    distinct = v.distinct;
  }

  settle_forever :
      (size nowtime : ℕ) (s : TimerList C) (n : Node C) (p q : Ptr)
      → n.addr ≢ null
      → s.heap n.addr ≡ some (timer n p q)
      → n.forever ≡ true
      → settle size nowtime s n.addr
        ≡ add size
            (record s { heap = write s.heap n.addr (some (timer (rearm nowtime n) p q)) })
            n.addr
  unfolding settle
  settle_forever size nowtime s n p q n0 hn e = ground arith

  settle_once :
      (size nowtime : ℕ) (s : TimerList C) (n : Node C) (p q : Ptr)
      → n.addr ≢ null
      → s.heap n.addr ≡ some (timer n p q)
      → n.forever ≡ false
      → settle size nowtime s n.addr ≡ ret (record s { heap = write s.heap n.addr none })
  unfolding settle timer_delete
  settle_once size nowtime s n p q n0 hn e = ground arith

  settle_lem :
      (size nowtime : ℕ) (s : TimerList C) (n : Node C) (p q : Ptr) (xs : List (Node C))
      → Holds s xs
      → n.addr ≢ null
      → s.heap n.addr ≡ some (timer n p q)
      → Apart n.addr xs
      → length xs ≤ size
      → (s' : TimerList C) × (settle size nowtime s n.addr ≡ ret s')
        × Holds s' (settled nowtime n xs)
        × Freed n s'
        × ((a : Ptr) → a ≢ n.addr → Apart a xs → s'.heap a ≡ s.heap a)
  settle_lem size nowtime s n p q xs v n0 hn out f = elim (Bool-cases n.forever) [
    | inl e ↦
        let s1 : TimerList C = record s {
          heap = write s.heap n.addr (some (timer (rearm nowtime n) p q));
        } in
        let v1 : Holds s1 xs = record {
          starts = v.starts;
          linked = Chain-write s.heap n.addr _ null xs out v.linked;
          distinct = v.distinct;
        } in
        let (s', ran, v', same) =
          add_lem size s1 xs (rearm nowtime n) p q v1 n0 (ground arith) out f in
        (
          s',
          settle_forever size nowtime s n p q n0 hn e ∙ ran,
          rw (settled_forever nowtime n xs e) v',
          inl e,
          λ a differ apart. same a differ apart ∙ ground (arith, differ),
        )
    | inr e ↦ (
      record s { heap = write s.heap n.addr none },
      settle_once size nowtime s n p q n0 hn e,
      rw (settled_once nowtime n xs e) (free_head s n p q xs v out),
      inr (ground arith),
      λ a differ apart. ground (arith, differ),
    )
  ]

module _ {W C : Type 0} (event_timer : W → TimerList C → Ptr → Run (W × TimerList C)) (size : ℕ)
    (lua : LuaTimers event_timer size) where
  open lua use {acts, Room, room_fits, room_down, acts_room, acts_sound}

  -- One round of the loop takes the first timer from the list, calls its function once, and puts
  -- the timer back at its next time or frees it. Where the function makes no timer, a free node stays free.
  pub fire_lem :
      (nowtime : ℕ) (w : W) (s : TimerList C) (n : Node C) (xs : List (Node C))
      → Holds s (n ∷ xs)
      → Room w (suc (length xs))
      → (s' : TimerList C) × (fire event_timer size nowtime w s n.addr ≡ ret ((acts w n xs).0, s'))
        × Holds s' (settled nowtime n (acts w n xs).1)
        × Freed n s'
        × (IsFrugal event_timer → (a : Ptr) → s.heap a ≡ none → s'.heap a ≡ none)
  unfolding fire remove_by_node
  fire_lem nowtime w s n xs v room =
      let (s1, cut, v1, same, others) = unlink_lem s [] n xs v in
      let (s2, p, q, ran, v2, hn, out) =
        acts_sound w s1 n null (first xs) xs v1 v.linked.0 (same ∙ v.linked.1) v.distinct.0 room in
      let (s3, back, v3, freed, kept) =
        settle_lem size nowtime s2 n p q (acts w n xs).1 v2 v.linked.0 hn out
          (room_fits _ _ (room_down _ _ (acts_room w n xs room))) in
      (
        s3,
        rw (cut, ran, back) refl,
        v3,
        freed,
        λ frugal a e.
            let apart = Chain-none s.heap null a (n ∷ xs) v.linked e in
            let free = frugal w (acts w n xs).0 s1 s2 n.addr a ran (others a apart.1 ∙ e) in
            kept a (λ k. apart.0 (sym k)) (Chain-none s2.heap null a (acts w n xs).1 v2.linked free)
            ∙ free,
      )

  pub settled_room :
      (nowtime : ℕ) (w : W) (n : Node C) (xs : List (Node C))
      → Room w (suc (length xs))
      → Room w (length (settled nowtime n xs))
  settled_room nowtime w n xs room = elim (Bool-cases n.forever) [
    | inl e ↦ rw (settled_forever nowtime n xs e) (rw (length-insert (rearm nowtime n) xs) room)
    | inr e ↦ rw (settled_once nowtime n xs e) (room_down w (length xs) room)
  ]

  pub run_empty :
      (fuel nowtime : ℕ) (w : W) (s : TimerList C)
      → s.timer_head_node ≡ null
      → run event_timer (suc fuel) size nowtime w s ≡ ret (w, s)
  unfolding run
  run_empty fuel nowtime w s e = ground arith

  pub run_step :
      (fuel nowtime : ℕ) (w : W) (s : TimerList C) (n : Node C) (p q : Ptr)
      → n.addr ≢ null
      → s.heap n.addr ≡ some (timer n p q)
      → s.timer_head_node ≡ n.addr
      → run event_timer (suc fuel) size nowtime w s ≡ (
          if leb n.expire_time nowtime
          then (fire event_timer size nowtime w s n.addr >>= λ (w', s').
              run event_timer fuel size nowtime w' s')
          else ret (w, s))
  unfolding run
  run_step fuel nowtime w s n p q n0 hn e = ground arith

  -- With tame timer functions, sound timers and fuel for each timer that has expired, the loop of
  -- `slam_timer_list_run` ends, follows no bad pointer, does what the loop over the list of timers
  -- does, and leaves a list in the order of expiry of which no timer has expired.
  pub run_lem :
      (fuel nowtime : ℕ) (w : W) (s : TimerList C) (xs : List (Node C))
      → IsTame nowtime acts
      → Holds s xs
      → Room w (length xs)
      → IsGood nowtime xs
      → due_count nowtime xs < fuel
      → (s' : TimerList C) × (run event_timer fuel size nowtime w s
          ≡ ret ((plan acts fuel nowtime w xs).0, s'))
        × Holds s' (plan acts fuel nowtime w xs).1
        × IsGood nowtime (plan acts fuel nowtime w xs).1
        × All (λ y. nowtime < y.expire_time) (plan acts fuel nowtime w xs).1
  run_lem zero nowtime w s xs tame v room good f = absurd (omega arith)
  run_lem (suc fuel) nowtime w s [] tame v room good f =
      rw (plan_nil acts fuel nowtime w) (s, run_empty fuel nowtime w s v.starts, v, good, tt)
  run_lem (suc fuel) nowtime w s (n ∷ xs) tame v room good f =
      elim (Bool-cases (leb n.expire_time nowtime)) [
        | inl e ↦
            let (s1, fired, v1, _, _) = fire_lem nowtime w s n xs v room in
            let (s2, ran, v2, good2, late2) =
              run_lem fuel nowtime (acts w n xs).0 s1 (settled nowtime n (acts w n xs).1) tame v1
                (settled_room nowtime (acts w n xs).0 n (acts w n xs).1 (acts_room w n xs room))
                (settled-IsGood nowtime n (acts w n xs).1 good.fine.0
                  (tame.keeps_good w n xs (rest-IsGood nowtime n xs good)))
                (fewer_due acts nowtime w n xs tame good.fine.0 e f) in
            rw (plan_due acts fuel nowtime w n xs e) (
              s2,
              run_step fuel nowtime w s n null (first xs) v.linked.0 v.linked.1 v.starts
                  ∙ if_true _ _ _ e
                  ∙ ap (λ r. r >>= λ (w', s'). run event_timer fuel size nowtime w' s') fired
                  ∙ ran,
              v2,
              good2,
              late2,
            )
        | inr e ↦ rw (plan_late acts fuel nowtime w n xs e) (
          s,
          run_step fuel nowtime w s n null (first xs) v.linked.0 v.linked.1 v.starts
              ∙ if_false _ _ _ e,
          v,
          good,
          All-late nowtime n xs good.sorted (ground arith),
        )
      ]
