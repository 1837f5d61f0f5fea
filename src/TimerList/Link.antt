-- ===== src/TimerList/Link.antt =====
-- Where `slam_timer_list_add` of src/slam_timer_list.c links a new node in.
use slam.Base.{
  ◌≡◌, ◌≢◌, refl, ◌∙◌, List, [], ◌∷◌, Option, none, some, ◌==◌, if◌then◌else◌, arith, ret,
}
use slam.TimerList.Heap.{Ptr, null, Memory, write}
use slam.TimerList.{TimerList, link_before, link_after}
use slam.TimerList.Spec.{Node}
use slam.TimerList.Chain.{first, timer, Chain, Apart, Distinct, Chain-write, Apart-eq}

-- the node before a place in the list, with its own `prev`
abbrev pub Place : Type 0 → Type 0
Place C = Option (Node C × Ptr)

module _ {C : Type 0} where
  abbrev pub addr_of : Place C → Ptr
  addr_of none = null
  addr_of (some (x, q)) = x.addr

  abbrev pub Behind : Memory C → Place C → Ptr → Type 0
  Behind h none next = Unit {0}
  Behind h (some (x, q)) next = (x.addr ≢ null) × (h x.addr ≡ some (timer x q next))

  abbrev pub Out : Place C → Ptr → Type 0
  Out none a = Unit {0}
  Out (some (x, q)) a = x.addr ≢ a

  abbrev pub PlaceApart : Place C → List (Node C) → Type 0
  PlaceApart none xs = Unit {0}
  PlaceApart (some (x, q)) xs = Apart x.addr xs

  -- the memory after `link_before`
  abbrev pub before_heap : Memory C → Node C → Ptr → Node C → Ptr → Place C → Memory C
  before_heap h n pn y ynext none =
      write (write (write h n.addr (some (timer n pn y.addr))) n.addr (some (timer n null y.addr)))
        y.addr (some (timer y n.addr ynext))
  before_heap h n pn y ynext (some (x, q)) =
      write
        (write
          (write (write h n.addr (some (timer n pn y.addr))) n.addr (some (timer n x.addr y.addr)))
          x.addr (some (timer x q n.addr)))
        y.addr (some (timer y n.addr ynext))

  pub link_before_lem :
      (s : TimerList C) (n : Node C) (pn qn : Ptr) (pv : Place C) (y : Node C) (ynext : Ptr)
      → n.addr ≢ null
      → s.heap n.addr ≡ some (timer n pn qn)
      → Behind s.heap pv y.addr
      → y.addr ≢ null
      → s.heap y.addr ≡ some (timer y (addr_of pv) ynext)
      → n.addr ≢ y.addr
      → Out pv n.addr
      → Out pv y.addr
      → link_before s n.addr y.addr
        ≡ ret (record {
          timer_head_node = if y.addr == s.timer_head_node then n.addr else s.timer_head_node;
          heap = before_heap s.heap n pn y ynext pv;
        })
  unfolding link_before
  link_before_lem s n pn qn none y ynext n0 hn b y0 hy ny on oy = ground arith
  link_before_lem s n pn qn (some (x, q)) y ynext n0 hn b y0 hy ny on oy = ground arith

  abbrev pub after_heap : Memory C → Node C → Ptr → Node C → Ptr → Memory C
  after_heap h n qn y yprev =
      write (write (write h n.addr (some (timer n y.addr qn))) n.addr (some (timer n y.addr null)))
        y.addr (some (timer y yprev n.addr))

  pub link_after_lem :
      (s : TimerList C) (n : Node C) (pn qn : Ptr) (y : Node C) (yprev : Ptr)
      → n.addr ≢ null
      → s.heap n.addr ≡ some (timer n pn qn)
      → y.addr ≢ null
      → s.heap y.addr ≡ some (timer y yprev null)
      → n.addr ≢ y.addr
      → link_after s n.addr y.addr ≡ ret (record s { heap = after_heap s.heap n qn y yprev })
  unfolding link_after
  link_after_lem s n pn qn y yprev n0 hn y0 hy ny = ground arith

  -- What `slam_timer_list_add` does from a place in the list on.
  pub record Added (s : TimerList C) (n : Node C) (pv : Place C) (xs zs : List (Node C))
      (s' : TimerList C) : Type 0 where
    pub chain : Chain s'.heap (addr_of pv) zs
    pub behind : Behind s'.heap pv (first zs)
    pub head_here : s.timer_head_node ≡ first xs → s'.timer_head_node ≡ first zs
    pub head_else : Apart s.timer_head_node xs → s'.timer_head_node ≡ s.timer_head_node
    pub frame : (a : Ptr) → a ≢ n.addr → Out pv a → Apart a xs → s'.heap a ≡ s.heap a

  -- What holds at a place before the loop looks at it.
  pub record Ready (s : TimerList C) (n : Node C) (pn qn : Ptr) (pv : Place C) (xs : List (Node C))
      : Type 0 where
    pub fresh : n.addr ≢ null
    pub node : s.heap n.addr ≡ some (timer n pn qn)
    pub before : Behind s.heap pv (first xs)
    pub linked : Chain s.heap (addr_of pv) xs
    pub distinct : Distinct xs
    pub apart : Apart n.addr xs
    pub out : Out pv n.addr
    pub place : PlaceApart pv xs

  abbrev pub before_list :
      TimerList C → Node C → Ptr → Node C → List (Node C) → Place C → TimerList C
  before_list s n pn y ys pv = record {
    timer_head_node = if y.addr == s.timer_head_node then n.addr else s.timer_head_node;
    heap = before_heap s.heap n pn y (first ys) pv;
  }

  pub before-Added :
      (s : TimerList C) (n : Node C) (pn qn : Ptr) (pv : Place C) (y : Node C) (ys : List (Node C))
      → Ready s n pn qn pv (y ∷ ys)
      → Added s n pv (y ∷ ys) (n ∷ y ∷ ys) (before_list s n pn y ys pv)
  before-Added s n pn qn none y ys r = record {
    chain = (r.fresh, ground (arith, r.apart.0), (r.linked.0, ground arith, keep));
    behind = tt;
    head_here = λ e. ground arith;
    head_else = λ out. ground (arith, out.0);
    frame = λ a an apv out. ground (arith, out.0);
  }
    where
      keep : Chain (before_list s n pn y ys none).heap y.addr ys
      keep = Chain-write _ y.addr _ y.addr ys r.distinct.0 (
          Chain-write _ n.addr _ y.addr ys r.apart.1
            (Chain-write _ n.addr _ y.addr ys r.apart.1 r.linked.2))
  before-Added s n pn qn (some (x, q)) y ys r = record {
    chain = (r.fresh, ground (arith, r.apart.0, r.out), (r.linked.0, ground arith, keep));
    behind = (r.before.0, ground (arith, r.place.0, r.out));
    head_here = λ e. ground arith;
    head_else = λ out. ground (arith, out.0);
    frame = λ a an apv out. ground (arith, out.0);
  }
    where
      keep : Chain (before_list s n pn y ys (some (x, q))).heap y.addr ys
      keep = Chain-write _ y.addr _ y.addr ys r.distinct.0 (
          Chain-write _ x.addr _ y.addr ys r.place.1 (
            Chain-write _ n.addr _ y.addr ys r.apart.1
              (Chain-write _ n.addr _ y.addr ys r.apart.1 r.linked.2)))

  pub after-Added :
      (s : TimerList C) (n : Node C) (pn qn : Ptr) (pv : Place C) (y : Node C)
      → Ready s n pn qn pv (y ∷ [])
      → Added s n pv
          (y ∷ [])
          (y ∷ n ∷ [])
          (record s { heap = after_heap s.heap n qn y (addr_of pv) })
  after-Added s n pn qn none y r = record {
    chain = (r.linked.0, ground arith, (r.fresh, ground (arith, r.apart.0), tt));
    behind = tt;
    head_here = λ e. e;
    head_else = λ out. refl;
    frame = λ a an apv out. ground (arith, out.0);
  }
  after-Added s n pn qn (some (x, q)) y r = record {
    chain = (r.linked.0, ground arith, (r.fresh, ground (arith, r.apart.0), tt));
    behind = (r.before.0, ground (arith, r.place.0, r.out));
    head_here = λ e. e;
    head_else = λ out. refl;
    frame = λ a an apv out. ground (arith, out.0);
  }

  pub next-Ready :
      (s : TimerList C) (n : Node C) (pn qn : Ptr) (pv : Place C) (y z : Node C)
      (zs : List (Node C))
      → Ready s n pn qn pv (y ∷ z ∷ zs)
      → Ready s n pn qn (some (y, addr_of pv)) (z ∷ zs)
  next-Ready s n pn qn pv y z zs r = record {
    fresh = r.fresh;
    node = r.node;
    before = (r.linked.0, r.linked.1);
    linked = r.linked.2;
    distinct = r.distinct.1;
    apart = r.apart.1;
    out = r.apart.0;
    place = r.distinct.0;
  }

  pub next-Added :
      (s : TimerList C) (n : Node C) (pn qn : Ptr) (pv : Place C) (y z : Node C)
      (zs ws : List (Node C)) (s' : TimerList C)
      → Ready s n pn qn pv (y ∷ z ∷ zs)
      → Added s n (some (y, addr_of pv)) (z ∷ zs) ws s'
      → Added s n pv (y ∷ z ∷ zs) (y ∷ ws) s'
  next-Added s n pn qn none y z zs ws s' r a = record {
    chain = (a.behind.0, a.behind.1, a.chain);
    behind = tt;
    head_here = λ e. a.head_else (Apart-eq s.timer_head_node y.addr (z ∷ zs) e r.distinct.0) ∙ e;
    head_else = λ out. a.head_else out.1;
    frame = λ b bn bpv out. a.frame b bn out.0 out.1;
  }
  next-Added s n pn qn (some (x, q)) y z zs ws s' r a = record {
    chain = (a.behind.0, a.behind.1, a.chain);
    behind = (r.before.0, a.frame x.addr r.out r.place.0 r.place.1 ∙ r.before.1);
    head_here = λ e. a.head_else (Apart-eq s.timer_head_node y.addr (z ∷ zs) e r.distinct.0) ∙ e;
    head_else = λ out. a.head_else out.1;
    frame = λ b bn bpv out. a.frame b bn out.0 out.1;
  }
