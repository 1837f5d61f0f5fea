-- ===== src/TimerList/Find.antt =====
-- `slam_timer_list_find` and `slam_timer_list_remove_by_ref` of src/slam_timer_list.c.
use slam.Base.{
  ℕ, zero, suc, ◌<◌, ◌≡◌, ◌≢◌, refl, sym, ◌∙◌, List, [], ◌∷◌, ◌++◌, none, some, ◌==◌, if_false,
  arith, ret, length, Bool, true,
}
use slam.TimerList.Heap.{Ptr, null, Memory, write}
use slam.TimerList.{TimerList, remove_by_node, remove_by_ref, find, find_from, timer_delete}
use slam.TimerList.Spec.{Node, locate, All}
use slam.TimerList.Chain.{first, timer, Chain, Apart, Distinct, Holds, Chain-write}
use slam.TimerList.Remove.{unlink_lem, Apart-mid}

module _ {C : Type 0} where
  find_from_lem :
      (fuel : ℕ) (h : Memory C) (p : Ptr) (xs : List (Node C)) (ref : ℕ)
      → Chain h p xs
      → length xs < fuel
      → find_from fuel h (first xs) ref ≡ ret (locate ref xs)
  unfolding find_from locate
  find_from_lem zero h p xs ref c f = absurd (omega arith)
  find_from_lem (suc fuel) h p [] ref c f = refl
  find_from_lem (suc fuel) h p (x ∷ xs) ref c f =
      ground (arith, c.0, c.1, find_from_lem fuel h x.addr xs ref c.2)

  -- With fuel for each timer and one more, `slam_timer_list_find` gives the first timer in the list
  -- with the reference, or null if there is none.
  pub find_lem :
      (fuel : ℕ) (s : TimerList C) (xs : List (Node C)) (ref : ℕ)
      → Holds s xs
      → length xs < fuel
      → find fuel s ref ≡ ret (locate ref xs)
  unfolding find
  find_lem fuel s xs ref v f = rw v.starts (find_from_lem fuel s.heap null xs ref v.linked f)

  pub locate_absent :
      (ref : ℕ) (xs : List (Node C)) → All (λ y. y.ref ≢ ref) xs → locate ref xs ≡ null
  unfolding locate
  locate_absent ref [] a = refl
  locate_absent ref (x ∷ xs) a = ground (arith, a.0, locate_absent ref xs a.1)

  pub locate_first :
      (ref : ℕ) (pre : List (Node C)) (n : Node C) (post : List (Node C))
      → All (λ y. y.ref ≢ ref) pre
      → n.ref ≡ ref
      → locate ref (pre ++ (n ∷ post)) ≡ n.addr
  unfolding locate
  locate_first ref [] n post a e = ground arith
  locate_first ref (x ∷ pre) n post a e = ground (arith, a.0, locate_first ref pre n post a.1 e)

  -- Where no timer has the reference, removing by it changes nothing.
  pub remove_by_ref_absent :
      (fuel : ℕ) (s : TimerList C) (xs : List (Node C)) (ref : ℕ) (remove_timer : Bool)
      → Holds s xs
      → All (λ y. y.ref ≢ ref) xs
      → length xs < fuel
      → remove_by_ref fuel s ref remove_timer ≡ ret s
  unfolding remove_by_ref
  remove_by_ref_absent fuel s xs ref remove_timer v a f =
      rw (find_lem fuel s xs ref v f, locate_absent ref xs a)

  pub Chain-node :
      (h : Memory C) (p : Ptr) (pre : List (Node C)) (n : Node C) (post : List (Node C))
      → Chain h p (pre ++ (n ∷ post))
      → (q : Ptr) × (n.addr ≢ null) × (h n.addr ≡ some (timer n q (first post)))
  Chain-node h p [] n post c = (p, c.0, c.1)
  Chain-node h p (x ∷ pre) n post c = Chain-node h x.addr pre n post c.2

  mid-Apart :
      (n : Node C) (pre post : List (Node C))
      → Distinct (pre ++ (n ∷ post))
      → Apart n.addr (pre ++ post)
  mid-Apart n [] post d = d.0
  mid-Apart n (x ∷ pre) post d =
      (λ e. Apart-mid x.addr n pre post d.0 (sym e), mid-Apart n pre post d.1)

  pub remove_and_free :
      (s : TimerList C) (pre : List (Node C)) (n : Node C) (post : List (Node C))
      → Holds s (pre ++ (n ∷ post))
      → (s' : TimerList C) × (remove_by_node s n.addr true ≡ ret s')
        × Holds s' (pre ++ post)
        × (s'.heap n.addr ≡ none)
        × ((a : Ptr) → a ≢ n.addr → Apart a (pre ++ post) → s'.heap a ≡ s.heap a)
  unfolding remove_by_node timer_delete
  remove_and_free s pre n post v =
      let (q, n0, hn) = Chain-node s.heap null pre n post v.linked in
      let (s1, cut, v1, same, others) = unlink_lem s pre n post v in
      (
        record s1 { heap = write s1.heap n.addr none },
        rw cut (ground (arith, same ∙ hn)),
        record {
          starts = v1.starts;
          linked =
              Chain-write s1.heap n.addr none null (pre ++ post) (mid-Apart n pre post v.distinct)
                v1.linked;
          distinct = v1.distinct;
        },
        ground arith,
        λ a differ out. ground (arith, differ, others a out),
      )

  -- Removing by a reference frees the first timer that has it, and leaves the others in the list in
  -- their order.
  pub remove_by_ref_found :
      (fuel : ℕ) (s : TimerList C) (pre : List (Node C)) (n : Node C) (post : List (Node C))
      (ref : ℕ)
      → Holds s (pre ++ (n ∷ post))
      → All (λ y. y.ref ≢ ref) pre
      → n.ref ≡ ref
      → length (pre ++ (n ∷ post)) < fuel
      → (s' : TimerList C) × (remove_by_ref fuel s ref true ≡ ret s')
        × Holds s' (pre ++ post)
        × (s'.heap n.addr ≡ none)
  unfolding remove_by_ref
  remove_by_ref_found fuel s pre n post ref v a e f =
      let (q, n0, hn) = Chain-node s.heap null pre n post v.linked in
      let (s', gone, v', freed, _) = remove_and_free s pre n post v in
      (
        s',
        rw (find_lem fuel s (pre ++ (n ∷ post)) ref v f, locate_first ref pre n post a e)
            (if_false (n.addr == null) (ret s) _ (ground (arith, n0)) ∙ gone),
        v',
        freed,
      )
