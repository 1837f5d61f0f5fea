-- ===== src/TimerList/Heap.antt =====
-- The nodes of src/slam_timer_list.c at their addresses.
use slam.Base.{ℕ, ◌==◌, Bool, Option, none, some, Run, ret, fault, ◌>>=◌, if◌then◌else◌}

abbrev pub Ptr : Type 0
Ptr = ℕ

abbrev pub null : Ptr
null = 0

-- The fields of `struct slam_timer_s` that hold the timer itself. `ref` is an `int`, which is only
-- compared. A missing context is the null pointer.
pub record Body (C : Type 0) : Type 0 where
  pub interval : ℕ
  pub expire_time : ℕ
  pub forever : Bool
  pub ref : ℕ
  pub ctx : Option C

-- `struct slam_timer_s`
pub record Timer (C : Type 0) : Type 0 where
  pub body : Body C
  pub prev : Ptr
  pub next : Ptr

abbrev pub Memory : Type 0 → Type 0
Memory C = Ptr → Option (Timer C)

module _ {C : Type 0} where
  abbrev pub write : Memory C → Ptr → Option (Timer C) → Memory C
  write h p c a = if a == p then c else h a

  -- `*p`
  abbrev pub load : Memory C → Ptr → Run (Timer C)
  load h p = if p == null then fault else elim (h p) [ none ↦ fault | some t ↦ ret t ]

  -- `p->next = q`
  abbrev pub set_next : Memory C → Ptr → Ptr → Run (Memory C)
  set_next h p q = load h p >>= λ t. ret (write h p (some (record t { next = q })))

  -- `p->prev = q`
  abbrev pub set_prev : Memory C → Ptr → Ptr → Run (Memory C)
  set_prev h p q = load h p >>= λ t. ret (write h p (some (record t { prev = q })))

  abbrev pub set_body : Memory C → Ptr → Body C → Run (Memory C)
  set_body h p b = load h p >>= λ t. ret (write h p (some (record t { body = b })))
