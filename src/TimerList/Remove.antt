-- ===== src/TimerList/Remove.antt =====
-- `slam_timer_list_remove_by_node`, `slam_timer_list_find` and `slam_timer_list_remove_by_ref` of
-- src/slam_timer_list.c.
use slam.Base.{◌≡◌, ◌≢◌, refl, sym, ◌∙◌, List, [], ◌∷◌, ◌++◌, some, arith, ret}
use slam.TimerList.Heap.{Ptr, null, Memory, write}
use slam.TimerList.{TimerList, unlink}
use slam.TimerList.Spec.{Node}
use slam.TimerList.Chain.{first, timer, Chain, Apart, Distinct, Holds, Chain-write}

module _ {C : Type 0} where
  Apart-drop :
      (a : Ptr) (n : Node C) (pre post : List (Node C))
      → Apart a (pre ++ (n ∷ post))
      → Apart a (pre ++ post)
  Apart-drop a n [] post out = out.1
  Apart-drop a n (x ∷ pre) post out = (out.0, Apart-drop a n pre post out.1)

  pub Apart-mid :
      (a : Ptr) (n : Node C) (pre post : List (Node C)) → Apart a (pre ++ (n ∷ post)) → n.addr ≢ a
  Apart-mid a n [] post out = out.0
  Apart-mid a n (x ∷ pre) post out = Apart-mid a n pre post out.1

  Distinct-drop :
      (n : Node C) (pre post : List (Node C))
      → Distinct (pre ++ (n ∷ post))
      → Distinct (pre ++ post)
  Distinct-drop n [] post d = d.1
  Distinct-drop n (x ∷ pre) post d =
      (Apart-drop x.addr n pre post d.0, Distinct-drop n pre post d.1)

  -- The node `l` before the node `n`, found from `x` on, and how the list is put together again
  -- once `l` points past `n`.
  record Cut (h : Memory C) (p : Ptr) (x : Node C) (pre : List (Node C)) (n : Node C)
      (post : List (Node C)) (l : Node C) (q : Ptr) : Type 0 where
    l_null : l.addr ≢ null
    l_node : h l.addr ≡ some (timer l q n.addr)
    n_null : n.addr ≢ null
    n_node : h n.addr ≡ some (timer n l.addr (first post))
    rest : Chain h n.addr post
    l_post : Apart l.addr post
    l_ne : l.addr ≢ n.addr
    n_post : Apart n.addr post
    post_distinct : Distinct post
    l_apart : (a : Ptr) → Apart a (x ∷ (pre ++ post)) → a ≢ l.addr
    post_apart : (a : Ptr) → Apart a (x ∷ (pre ++ post)) → Apart a post
    rebuild :
        (h' : Memory C)
        → h' l.addr ≡ some (timer l q (first post))
        → Chain h' l.addr post
        → ((a : Ptr) → a ≢ l.addr → Apart a post → h' a ≡ h a)
        → Chain h' p (x ∷ (pre ++ post))

  cut :
      (h : Memory C) (p : Ptr) (x : Node C) (pre : List (Node C)) (n : Node C)
      (post : List (Node C))
      → Chain h p (x ∷ (pre ++ (n ∷ post)))
      → Distinct (x ∷ (pre ++ (n ∷ post)))
      → (l : Node C) × (q : Ptr) × Cut h p x pre n post l q
  cut h p x [] n post c d = (
    x,
    p,
    record {
      l_null = c.0;
      l_node = c.1;
      n_null = c.2.0;
      n_node = c.2.1;
      rest = c.2.2;
      l_post = d.0.1;
      l_ne = λ e. d.0.0 (sym e);
      n_post = d.1.0;
      post_distinct = d.1.1;
      l_apart = λ a out e. out.0 (sym e);
      post_apart = λ a out. out.1;
      rebuild = λ h' e ch same. (c.0, e, ch);
    },
  )
  cut h p x (y ∷ pre) n post c d =
      let (l, q, k) = cut h x.addr y pre n post c.2 d.1 in
      (
        l,
        q,
        record {
          l_null = k.l_null;
          l_node = k.l_node;
          n_null = k.n_null;
          n_node = k.n_node;
          rest = k.rest;
          l_post = k.l_post;
          l_ne = k.l_ne;
          n_post = k.n_post;
          post_distinct = k.post_distinct;
          l_apart = λ a out. k.l_apart a out.1;
          post_apart = λ a out. k.post_apart a out.1;
          rebuild = λ h' e ch same. (
            c.0,
            same x.addr (k.l_apart x.addr (Apart-drop x.addr n (y ∷ pre) post d.0))
                  (k.post_apart x.addr (Apart-drop x.addr n (y ∷ pre) post d.0))
                ∙ c.1,
            k.rebuild h' e ch same,
          );
        },
      )

  -- the memory after `unlink` behind another node
  abbrev cut_heap : Memory C → Node C → Ptr → List (Node C) → Memory C
  cut_heap h l q [] = write h l.addr (some (timer l q null))
  cut_heap h l q (z ∷ zs) =
      write (write h l.addr (some (timer l q z.addr))) z.addr (some (timer z l.addr (first zs)))

  unlink_behind :
      (s : TimerList C) (p : Ptr) (x : Node C) (pre : List (Node C)) (n : Node C)
      (post : List (Node C)) (l : Node C) (q : Ptr)
      → Cut s.heap p x pre n post l q
      → s.timer_head_node ≢ n.addr
      → unlink s n.addr ≡ ret (record s { heap = cut_heap s.heap l q post })
  unfolding unlink
  unlink_behind s p x pre n [] l q k ne =
      ground (arith, k.l_null, k.l_node, k.n_null, k.n_node, k.l_ne)
  unlink_behind s p x pre n (z ∷ zs) l q k ne =
      ground (arith, k.l_null, k.l_node, k.n_null, k.n_node, k.l_ne, k.rest.0, k.rest.1, k.l_post.0)

  -- what `cut_heap` does to the list and to the other nodes
  Cut-rest :
      (h : Memory C) (p : Ptr) (x : Node C) (pre : List (Node C)) (n : Node C)
      (post : List (Node C)) (l : Node C) (q : Ptr)
      → Cut h p x pre n post l q
      → (cut_heap h l q post l.addr ≡ some (timer l q (first post)))
        × Chain (cut_heap h l q post) l.addr post
        × ((a : Ptr) → a ≢ l.addr → Apart a post → cut_heap h l q post a ≡ h a)
  Cut-rest h p x pre n [] l q k = (ground arith, tt, λ a al out. ground arith)
  Cut-rest h p x pre n (z ∷ zs) l q k = (
    ground (arith, k.l_post.0),
    (
      k.rest.0,
      ground arith,
      Chain-write _ z.addr _ z.addr zs k.post_distinct.0
          (Chain-write h l.addr _ z.addr zs k.l_post.1 k.rest.2),
    ),
    λ a al out. ground (arith, out.0),
  )

  abbrev head_heap : Memory C → List (Node C) → Memory C
  head_heap h [] = h
  head_heap h (z ∷ zs) = write h z.addr (some (timer z null (first zs)))

  -- Unlinking a node of the list follows no bad pointer and fails no assertion. The list then holds
  -- the other timers in their order, and the node keeps its contents.
  pub unlink_lem :
      (s : TimerList C) (pre : List (Node C)) (n : Node C) (post : List (Node C))
      → Holds s (pre ++ (n ∷ post))
      → (s' : TimerList C) × (unlink s n.addr ≡ ret s')
        × Holds s' (pre ++ post)
        × (s'.heap n.addr ≡ s.heap n.addr)
        × ((a : Ptr) → Apart a (pre ++ post) → s'.heap a ≡ s.heap a)
  unfolding unlink
  unlink_lem s [] n [] v = (
    record { timer_head_node = null; heap = s.heap },
    ground (arith, v.starts, v.linked.0, v.linked.1),
    record { starts = refl; linked = tt; distinct = tt },
    refl,
    λ a out. refl,
  )
  unlink_lem s [] n (z ∷ zs) v = (
    record { timer_head_node = z.addr; heap = head_heap s.heap (z ∷ zs) },
    ground (arith, v.starts, v.linked.0, v.linked.1, v.linked.2.0, v.linked.2.1),
    record {
      starts = refl;
      linked = (
        v.linked.2.0,
        ground arith,
        Chain-write s.heap z.addr _ z.addr zs v.distinct.1.0 v.linked.2.2,
      );
      distinct = v.distinct.1;
    },
    ground (arith, v.distinct.0.0),
    λ a out. ground (arith, out.0),
  )
  unlink_lem s (x ∷ pre) n post v =
      let (l, q, k) = cut s.heap null x pre n post v.linked v.distinct in
      let (hl, hc, same) = Cut-rest s.heap null x pre n post l q k in
      (
        record s { heap = cut_heap s.heap l q post },
        unlink_behind s null x pre n post l q k
            (λ e. Apart-mid x.addr n pre post v.distinct.0 (sym e ∙ v.starts)),
        record {
          starts = v.starts;
          linked = k.rebuild (cut_heap s.heap l q post) hl hc same;
          distinct = Distinct-drop n (x ∷ pre) post v.distinct;
        },
        same n.addr (λ e. k.l_ne (sym e)) k.n_post,
        λ a out. same a (k.l_apart a out) (k.post_apart a out),
      )
