-- ===== src/TimerList/Add.antt =====
-- `slam_timer_list_add` of src/slam_timer_list.c.
use slam.Base.{
  ap, ℕ, zero, suc, ◌≤◌, ◌<◌, ◌≡◌, ◌≢◌, refl, sym, ◌∙◌, List, [], ◌∷◌, ◌++◌, none, some, ltb, ◌==◌,
  if◌then◌else◌, arith, ret, length, Bool-cases, inl, inr, false,
}
use slam.TimerList.Heap.{Ptr, null, Memory, write}
use slam.TimerList.{TimerList, link_before, link_after, add_from, add}
use slam.TimerList.Spec.{Node, insert, All, IsSorted}
use slam.TimerList.Chain.{first, timer, Chain, Apart, Distinct, Holds}
use slam.TimerList.Link.{
  Place, addr_of, Out, PlaceApart, link_before_lem, after_heap, link_after_lem, Added, Ready,
  before_list, before-Added, after-Added, next-Ready, next-Added,
}
use slam.TimerList.Order.{insert-Splits, insert-IsSorted}
use mathlib.Core.Path.{subst}

module _ {C : Type 0} where
  add_from_step :
      (fuel : ℕ) (s : TimerList C) (n : Node C) (pn qn : Ptr) (y : Node C) (yp yn : Ptr)
      → n.addr ≢ null
      → s.heap n.addr ≡ some (timer n pn qn)
      → y.addr ≢ null
      → s.heap y.addr ≡ some (timer y yp yn)
      → add_from (suc fuel) s n.addr y.addr ≡ (
          if ltb n.expire_time y.expire_time
          then link_before s n.addr y.addr
          else if yn == null
          then link_after s n.addr y.addr
          else add_from fuel s n.addr yn)
  unfolding add_from
  add_from_step fuel s n pn qn y yp yn n0 hn y0 hy = ground arith

  abbrev Adds : ℕ → TimerList C → Node C → Place C → List (Node C) → Type 0
  Adds fuel s n pv xs =
      (s' : TimerList C) × (add_from fuel s n.addr (first xs) ≡ ret s')
      × Added s n pv xs (insert n xs) s'

  first_ne :
      (h : Memory C) (p : Ptr) (z : Node C) (zs : List (Node C))
      → Chain h p (z ∷ zs)
      → (z.addr == null) ≡ false
  first_ne h p z zs c = ground (arith, c.0)

  place-Out :
      (pv : Place C) (y : Node C) (ys : List (Node C)) → PlaceApart pv (y ∷ ys) → Out pv y.addr
  place-Out none y ys p = tt
  place-Out (some (x, q)) y ys p = λ e. p.0 (sym e)

  -- The loop puts the new node where the order of expiry asks for it.
  add_from_lem :
      (fuel : ℕ) (s : TimerList C) (n : Node C) (pn qn : Ptr) (pv : Place C) (y : Node C)
      (ys : List (Node C))
      → Ready s n pn qn pv (y ∷ ys)
      → length (y ∷ ys) ≤ fuel
      → Adds fuel s n pv (y ∷ ys)
  unfolding insert
  add_from_lem zero s n pn qn pv y ys r f = absurd (omega arith)
  add_from_lem (suc fuel) s n pn qn pv y [] r f =
      elim (Bool-cases (ltb n.expire_time y.expire_time)) [
        | inl e ↦ (
          before_list s n pn y [] pv,
          rw
              (
                add_from_step fuel s n pn qn y (addr_of pv) null r.fresh r.node r.linked.0
                    r.linked.1,
                e,
              )
              (link_before_lem s n pn qn pv y null r.fresh r.node r.before r.linked.0 r.linked.1
                (λ h. r.apart.0 (sym h)) r.out (place-Out pv y [] r.place)),
          rw e (before-Added s n pn qn pv y [] r),
        )
        | inr e ↦ (
          record s { heap = after_heap s.heap n qn y (addr_of pv) },
          rw
              (
                add_from_step fuel s n pn qn y (addr_of pv) null r.fresh r.node r.linked.0
                    r.linked.1,
                e,
              )
              (link_after_lem s n pn qn y (addr_of pv) r.fresh r.node r.linked.0 r.linked.1
                (λ h. r.apart.0 (sym h))),
          rw e (after-Added s n pn qn pv y r),
        )
      ]
  add_from_lem (suc fuel) s n pn qn pv y (z ∷ zs) r f =
      elim (Bool-cases (ltb n.expire_time y.expire_time)) [
        | inl e ↦ (
          before_list s n pn y (z ∷ zs) pv,
          rw
              (
                add_from_step fuel s n pn qn y (addr_of pv) z.addr r.fresh r.node r.linked.0
                    r.linked.1,
                e,
              )
              (link_before_lem s n pn qn pv y z.addr r.fresh r.node r.before r.linked.0 r.linked.1
                (λ h. r.apart.0 (sym h)) r.out (place-Out pv y (z ∷ zs) r.place)),
          rw e (before-Added s n pn qn pv y (z ∷ zs) r),
        )
        | inr e ↦
            let (s', ran, a) =
              add_from_lem fuel s n pn qn (some (y, addr_of pv)) z zs
                (next-Ready s n pn qn pv y z zs r) (omega arith) in
            (
              s',
              rw
                  (
                    add_from_step fuel s n pn qn y (addr_of pv) z.addr r.fresh r.node r.linked.0
                        r.linked.1,
                    e,
                    first_ne s.heap y.addr z zs r.linked.2,
                  )
                  ran,
              rw e (next-Added s n pn qn pv y z zs (insert n (z ∷ zs)) s' r a),
            )
      ]

  insert-Apart :
      (a : Ptr) (n : Node C) (xs : List (Node C)) → n.addr ≢ a → Apart a xs → Apart a (insert n xs)
  unfolding insert
  insert-Apart a n [] ne out = (ne, tt)
  insert-Apart a n (x ∷ xs) ne out = elim (Bool-cases (ltb n.expire_time x.expire_time)) [
    | inl e ↦ rw e (ne, out)
    | inr e ↦ rw e (out.0, insert-Apart a n xs ne out.1)
  ]

  insert-Distinct :
      (n : Node C) (xs : List (Node C)) → Apart n.addr xs → Distinct xs → Distinct (insert n xs)
  unfolding insert
  insert-Distinct n [] out d = (tt, tt)
  insert-Distinct n (x ∷ xs) out d = elim (Bool-cases (ltb n.expire_time x.expire_time)) [
    | inl e ↦ rw e (out, d)
    | inr e ↦
        rw e (insert-Apart x.addr n xs (λ h. out.0 (sym h)) d.0, insert-Distinct n xs out.1 d.1)
  ]

  add_nonempty :
      (fuel : ℕ) (s : TimerList C) (p : Ptr)
      → s.timer_head_node ≢ null
      → add fuel s p ≡ add_from fuel s p s.timer_head_node
  unfolding add
  add_nonempty fuel s p h = ground arith

  -- With fuel for each timer of the list, `slam_timer_list_add` follows no bad pointer, and the
  -- list then holds the new timer at the place that the order of expiry gives it, behind the timers
  -- of the same time. Nodes of neither the list nor the new timer keep their contents.
  pub add_lem :
      (fuel : ℕ) (s : TimerList C) (xs : List (Node C)) (n : Node C) (pn qn : Ptr)
      → Holds s xs
      → n.addr ≢ null
      → s.heap n.addr ≡ some (timer n pn qn)
      → Apart n.addr xs
      → length xs ≤ fuel
      → (s' : TimerList C) × (add fuel s n.addr ≡ ret s')
        × Holds s' (insert n xs)
        × ((a : Ptr) → a ≢ n.addr → Apart a xs → s'.heap a ≡ s.heap a)
  unfolding add insert
  add_lem fuel s [] n pn qn v n0 hn out f = (
    record {
      timer_head_node = n.addr;
      heap = write (write s.heap n.addr (some (timer n null qn))) n.addr (some (timer n null null));
    },
    ground (arith, v.starts),
    record { starts = refl; linked = (n0, ground arith, tt); distinct = (tt, tt) },
    λ a an apart. ground arith,
  )
  add_lem fuel s (x ∷ xs) n pn qn v n0 hn out f =
      let (s', ran, a) = add_from_lem fuel s n pn qn none x xs ready f in
      (
        s',
        add_nonempty fuel s n.addr (λ e. v.linked.0 (sym v.starts ∙ e))
            ∙ ap (add_from fuel s n.addr) v.starts
            ∙ ran,
        record {
          starts = a.head_here v.starts;
          linked = a.chain;
          distinct = insert-Distinct n (x ∷ xs) out v.distinct;
        },
        λ b bn apart. a.frame b bn tt apart,
      )
    where
      ready : Ready s n pn qn none (x ∷ xs)
      ready = record {
        fresh = n0;
        node = hn;
        before = tt;
        linked = v.linked;
        distinct = v.distinct;
        apart = out;
        out = tt;
        place = tt;
      }

  -- In a list in the order of expiry, with fuel for each timer, `slam_timer_list_add` follows no
  -- bad pointer and puts the new timer behind all timers that expire no later and before all others;
  -- the list stays in the order of expiry.
  pub add_keeps_order :
      (fuel : ℕ) (s : TimerList C) (xs : List (Node C)) (n : Node C) (pn qn : Ptr)
      → Holds s xs
      → IsSorted xs
      → n.addr ≢ null
      → s.heap n.addr ≡ some (timer n pn qn)
      → Apart n.addr xs
      → length xs ≤ fuel
      → (s' : TimerList C) × (before after : List (Node C)) × (add fuel s n.addr ≡ ret s')
        × Holds s' (before ++ (n ∷ after))
        × (xs ≡ before ++ after)
        × All (λ y. y.expire_time ≤ n.expire_time) before
        × All (λ y. n.expire_time < y.expire_time) after
        × IsSorted (before ++ (n ∷ after))
  add_keeps_order fuel s xs n pn qn v o n0 hn out f =
      let (s', ran, v', _) = add_lem fuel s xs n pn qn v n0 hn out f in
      let (before, after, p) = insert-Splits n xs o in
      (
        s',
        before,
        after,
        ran,
        subst (Holds s') p.put_in v',
        p.whole,
        p.sooner,
        p.later,
        subst IsSorted p.put_in (insert-IsSorted n xs o),
      )
