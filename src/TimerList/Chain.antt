-- ===== src/TimerList/Chain.antt =====
-- How the doubly linked nodes of src/slam_timer_list.c represent a list of timers.
use slam.Base.{arith, Option, sym, ◌≡◌, ◌≢◌, List, [], ◌∷◌, some}
use slam.TimerList.Heap.{Ptr, null, Timer, Memory, write}
use mathlib.Core.Path.{subst}
use slam.TimerList.{TimerList}
use slam.TimerList.Spec.{Node}

module _ {C : Type 0} where
  abbrev pub first : List (Node C) → Ptr
  first [] = null
  first (x ∷ xs) = x.addr

  abbrev pub timer : Node C → Ptr → Ptr → Timer C
  timer n p q = record { body = n.body; prev = p; next = q }

  -- From `prev` on, the nodes hold the timers of the list, linked both ways.
  abbrev pub Chain : Memory C → Ptr → List (Node C) → Type 0
  Chain h prev [] = Unit {0}
  Chain h prev (x ∷ xs) =
      (x.addr ≢ null) × (h x.addr ≡ some (timer x prev (first xs))) × Chain h x.addr xs

  -- The address is no node of the list.
  abbrev pub Apart : Ptr → List (Node C) → Type 0
  Apart a [] = Unit {0}
  Apart a (x ∷ xs) = (x.addr ≢ a) × Apart a xs

  abbrev pub Distinct : List (Node C) → Type 0
  Distinct [] = Unit {0}
  Distinct (x ∷ xs) = Apart x.addr xs × Distinct xs

  pub record Holds (s : TimerList C) (xs : List (Node C)) : Type 0 where
    pub starts : s.timer_head_node ≡ first xs
    pub linked : Chain s.heap null xs
    pub distinct : Distinct xs

  -- A write to an address that is no node of the list keeps the list.
  pub Chain-write :
      (h : Memory C) (a : Ptr) (c : Option (Timer C)) (p : Ptr) (xs : List (Node C))
      → Apart a xs
      → Chain h p xs
      → Chain (write h a c) p xs
  Chain-write h a c p [] out ch = tt
  Chain-write h a c p (x ∷ xs) out ch = (ch.0, ground arith, Chain-write h a c x.addr xs out.1 ch.2)

  -- Two addresses, one of a node and one of none, differ.
  pub Apart-ne : (a : Ptr) (x : Node C) (xs : List (Node C)) → Apart a (x ∷ xs) → a ≢ x.addr
  Apart-ne a x xs out e = out.0 (sym e)

  pub Apart-eq : (a b : Ptr) (xs : List (Node C)) → a ≡ b → Apart b xs → Apart a xs
  Apart-eq a b xs e out = subst (λ c. Apart c xs) (sym e) out
