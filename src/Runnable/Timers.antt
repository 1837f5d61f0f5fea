-- ===== src/Runnable/Timers.antt =====
-- Adding and removing the timers of a worker in src/slam_runnable.c.
use slam.Base.{
  ℕ, ◌+◌, ◌≤◌, ◌<◌, ◌≡◌, ◌≢◌, refl, sym, ◌∙◌, ap, subst, Bool, Option, some, List, ◌∷◌, ◌++◌, ret,
  length, length-append, u64, none, arith,
}
use slam.TimerList.Heap.{Ptr, null}
use slam.TimerList.{TimerList, timer_new}
use slam.TimerList.Spec.{Node, All, IsSorted}
use slam.TimerList.Chain.{timer, Apart, Holds, Chain-write}
use slam.TimerList.Add.{add_keeps_order}
use slam.TimerList.Find.{find_lem, locate_first, Chain-node, remove_and_free}
use slam.TimerList.Once.{All-parts}
use slam.Runnable.{Runnable, add_timer, remove_timer}

module _ {C : Type 0} where
  -- The timer that `slam_timer_new` makes.
  abbrev pub made : Ptr → ℕ → ℕ → Bool → ℕ → Option C → Node C
  made p now interval forever ref ctx = record {
    addr = p;
    body = record {
      interval = interval;
      expire_time = u64 (now + interval);
      forever = forever;
      ref = ref;
      ctx = ctx;
    };
  }

module _ {L C : Type 0} where
  -- In a worker whose timers are in the order of expiry, a timer made at an address that no timer has
  -- goes behind all timers that expire no later and before all others.
  pub add_timer_lem :
      (fuel : ℕ) (r : Runnable L C) (xs : List (Node C)) (p : Ptr) (now interval : ℕ)
      (forever : Bool) (ref : ℕ) (ctx : Option C)
      → Holds r.timer_list xs
      → IsSorted xs
      → p ≢ null
      → Apart p xs
      → length xs ≤ fuel
      → (r' : Runnable L C) × (before after : List (Node C)) × (add_timer fuel r p now interval
            forever ref ctx
          ≡ ret r')
        × Holds r'.timer_list (before ++ (made p now interval forever ref ctx ∷ after))
        × (xs ≡ before ++ after)
        × All (λ y. y.expire_time ≤ u64 (now + interval)) before
        × All (λ y. u64 (now + interval) < y.expire_time) after
        × (r'.lua ≡ r.lua)
  unfolding add_timer timer_new
  add_timer_lem fuel r xs p now interval forever ref ctx v o p0 out f =
      let n = made p now interval forever ref ctx in
      let s : TimerList C = record {
        timer_head_node = r.timer_list.timer_head_node;
        heap = timer_new r.timer_list.heap p now interval forever ref ctx;
      } in
      let (s', before, after, ran, v', e, b, a, _) =
        add_keeps_order fuel s xs n null null
          (record {
            starts = v.starts;
            linked =
                Chain-write r.timer_list.heap p (some (timer n null null)) null xs out v.linked;
            distinct = v.distinct;
          })
          o p0 (ground arith) out f in
      (record r { timer_list = s' }, before, after, rw ran refl, v', e, b, a, refl)

  -- Removing by a reference that a timer has frees the first such timer, gives up its reference and
  -- leaves the others in the list, and every other node as it was.
  pub remove_timer_found :
      (unref : L → ℕ → L) (fuel : ℕ) (r : Runnable L C) (pre : List (Node C)) (n : Node C)
      (post : List (Node C)) (ref : ℕ)
      → Holds r.timer_list (pre ++ (n ∷ post))
      → All (λ y. y.ref ≢ ref) pre
      → n.ref ≡ ref
      → length (pre ++ (n ∷ post)) < fuel
      → (r' : Runnable L C) × (remove_timer unref fuel r ref ≡ ret r')
        × Holds r'.timer_list (pre ++ post)
        × (r'.timer_list.heap n.addr ≡ none)
        × (r'.lua ≡ unref r.lua ref)
        × ((a : Ptr)
            → a ≢ n.addr
            → Apart a (pre ++ post)
            → r'.timer_list.heap a ≡ r.timer_list.heap a)
  unfolding remove_timer
  remove_timer_found unref fuel r pre n post ref v a e f =
      let (q, n0, hn) = Chain-node r.timer_list.heap null pre n post v.linked in
      let (s', gone, v', freed, others) = remove_and_free r.timer_list pre n post v in
      (
        record { lua = unref r.lua n.ref; timer_list = s' },
        rw (find_lem fuel r.timer_list (pre ++ (n ∷ post)) ref v f, locate_first ref pre n post a e)
            (ground (arith, n0, hn, gone)),
        v',
        freed,
        ap (unref r.lua) e,
        others,
      )

  -- A timer that is added under a reference of no other timer and then removed by it leaves the
  -- timers as they were: its node is freed and its reference given up.
  pub add-remove_timer :
      (unref : L → ℕ → L) (fuel : ℕ) (r : Runnable L C) (xs : List (Node C)) (p : Ptr)
      (now interval : ℕ) (forever : Bool) (ref : ℕ) (ctx : Option C)
      → Holds r.timer_list xs
      → IsSorted xs
      → p ≢ null
      → Apart p xs
      → All (λ y. y.ref ≢ ref) xs
      → length xs + 1 < fuel
      → (r' r'' : Runnable L C) × (add_timer fuel r p now interval forever ref ctx ≡ ret r')
        × (remove_timer unref fuel r' ref ≡ ret r'')
        × Holds r''.timer_list xs
        × (r''.timer_list.heap p ≡ none)
        × (r''.lua ≡ unref r.lua ref)
  add-remove_timer unref fuel r xs p now interval forever ref ctx v o p0 out unlike f =
      let n = made p now interval forever ref ctx in
      let (r', before, after, added, v', e, _, _, same) =
        add_timer_lem fuel r xs p now interval forever ref ctx v o p0 out (omega arith) in
      let (r'', removed, v'', freed, gone, _) =
        remove_timer_found unref fuel r' before n after ref v'
          (All-parts (λ y. y.ref ≢ ref) before after (subst (All (λ y. y.ref ≢ ref)) e unlike)).0
          refl
          (omega
            (arith, length-append before (n ∷ after), length-append before after, ap length e)) in
      (
        r',
        r'',
        added,
        removed,
        subst (Holds r''.timer_list) (sym e) v'',
        freed,
        gone ∙ ap (λ l. unref l ref) same,
      )
