-- ===== src/TimerList.antt =====
-- src/slam_timer_list.c: timers in a doubly linked list, ordered by the time at which they expire.
-- The clock and what a timer's Lua function does are arguments.
pub mod Heap
pub mod Spec
pub mod Chain
pub mod Link
pub mod Order
pub mod Add
pub mod Remove
pub mod Find
pub mod Firing
pub mod Calls
pub mod Rounds
pub mod Once
pub mod Wait
mod Tests
use slam.Base.{
  ℕ, zero, suc, ◌+◌, ◌-◌, Bool, true, false, not, Option, none, some, List, [], ◌∷◌, Run, ret,
  abort, fault, stuck, ◌>>=◌, ◌>>◌, assert, ltb, leb, ◌==◌, if◌then◌else◌, u64, ℤ, pos, minus_one,
  int64, sub64,
}
use Heap.{Ptr, null, Body, Timer, Memory, write, load, set_next, set_prev, set_body}

-- `struct slam_timer_list_s`, with the memory in which its nodes lie.
pub record TimerList (C : Type 0) : Type 0 where
  pub timer_head_node : Ptr
  pub heap : Memory C

module _ {C : Type 0} where
  -- `slam_timer_new`, at the address that `malloc` gives and the clock's milliseconds.
  unfoldable pub timer_new : Memory C → Ptr → ℕ → ℕ → Bool → ℕ → Option C → Memory C
  timer_new h p now interval forever ref ctx = write h p (
      some (record {
        body = record {
          interval = interval;
          expire_time = u64 (now + interval);
          forever = forever;
          ref = ref;
          ctx = ctx;
        };
        prev = null;
        next = null;
      }))

  -- `slam_timer_delete` frees the node; its context is the node's own.
  unfoldable pub timer_delete : Memory C → Ptr → Run (Memory C)
  timer_delete h p = load h p >>= λ t. ret (write h p none)

  unfoldable pub new : Memory C → TimerList C
  new h = record { timer_head_node = null; heap = h }

  -- push_front: `newnode` goes before `node`
  unfoldable pub link_before : TimerList C → Ptr → Ptr → Run (TimerList C)
  link_before s newnode node = do
    h1 ← set_next s.heap newnode node
    t ← load h1 node
    h2 ← set_prev h1 newnode t.prev
    h3 ← if t.prev == null then ret h2 else set_next h2 t.prev newnode
    h4 ← set_prev h3 node newnode
    ret (record {
      timer_head_node = if node == s.timer_head_node then newnode else s.timer_head_node;
      heap = h4;
    })

  -- push_back: `newnode` goes after `node`, which is last
  unfoldable pub link_after : TimerList C → Ptr → Ptr → Run (TimerList C)
  link_after s newnode node = do
    h1 ← set_prev s.heap newnode node
    h2 ← set_next h1 newnode null
    h3 ← set_next h2 node newnode
    ret (record s { heap = h3 })

  -- the `while` of `slam_timer_list_add`
  unfoldable pub add_from : ℕ → TimerList C → Ptr → Ptr → Run (TimerList C)
  add_from zero s newnode node = stuck
  add_from (suc fuel) s newnode node =
      if node == null
      then ret s
      else (load s.heap newnode >>= λ n. load s.heap node >>= λ t.
          let later = add_from fuel s newnode t.next in
          if ltb n.body.expire_time t.body.expire_time
          then link_before s newnode node
          else if t.next == null
          then link_after s newnode node
          else later)

  unfoldable pub add : ℕ → TimerList C → Ptr → Run (TimerList C)
  unfolding add_from
  add fuel s newnode =
      if s.timer_head_node == null
      then (set_prev s.heap newnode null >>= λ h1.
          set_next h1 newnode null >>= λ h2. ret (record { timer_head_node = newnode; heap = h2 }))
      else add_from fuel s newnode s.timer_head_node

  -- the `while` of `slam_timer_list_find`
  unfoldable pub find_from : ℕ → Memory C → Ptr → ℕ → Run Ptr
  find_from zero h node ref = stuck
  find_from (suc fuel) h node ref =
      if node == null
      then ret null
      else (load h node >>= λ t.
          let later = find_from fuel h t.next ref in if t.body.ref == ref then ret node else later)

  unfoldable pub find : ℕ → TimerList C → ℕ → Run Ptr
  unfolding find_from
  find fuel s ref = find_from fuel s.heap s.timer_head_node ref

  unfoldable pub unlink : TimerList C → Ptr → Run (TimerList C)
  unlink s node =
      if s.timer_head_node == node
      then (load s.heap s.timer_head_node >>= λ t.
          (if t.next == null then ret s.heap else set_prev s.heap t.next null) >>= λ h.
          ret (record { timer_head_node = t.next; heap = h }))
      else (load s.heap node >>= λ t.
          assert (not (t.prev == null))
          >> (set_next s.heap t.prev t.next >>= λ h.
              (if t.next == null then ret h else set_prev h t.next t.prev) >>= λ h'.
              ret (record s { heap = h' })))

  unfoldable pub remove_by_node : TimerList C → Ptr → Bool → Run (TimerList C)
  unfolding unlink timer_delete
  remove_by_node s node remove_timer = do
    s' ← unlink s node
    if remove_timer
        then (timer_delete s'.heap node >>= λ h. ret (record s' { heap = h }))
        else ret s'

  unfoldable pub remove_by_ref : ℕ → TimerList C → ℕ → Bool → Run (TimerList C)
  unfolding find remove_by_node
  remove_by_ref fuel s ref remove_timer = do
    node ← find fuel s ref
    if node == null then ret s else remove_by_node s node remove_timer

  -- How long the poll may wait, in milliseconds; the poll takes -1 for "without end".
  unfoldable pub min_interval : TimerList C → ℕ → Run ℤ
  min_interval s nowtime =
      if s.timer_head_node == null
      then ret minus_one
      else (load s.heap s.timer_head_node >>= λ t. ret (
          if ltb nowtime t.body.expire_time
          then int64 (sub64 t.body.expire_time nowtime)
          else minus_one))

  -- the `while` of `slam_timer_list_delete`
  unfoldable pub delete_from : ℕ → Memory C → Ptr → Run (Memory C)
  unfolding timer_delete
  delete_from zero h node = stuck
  delete_from (suc fuel) h node =
      if node == null
      then ret h
      else (load h node >>= λ t. timer_delete h node >>= λ h'. delete_from fuel h' t.next)

  unfoldable pub delete : ℕ → TimerList C → Run (Memory C)
  unfolding delete_from
  delete fuel s = delete_from fuel s.heap s.timer_head_node
