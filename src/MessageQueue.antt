-- ===== src/MessageQueue.antt =====
-- src/io/slam_message_queue.c: the ring buffer of messages.
pub mod Fifo
pub mod Bounds
pub mod Refine
pub mod History
pub mod Drain
pub mod Ends
pub mod Window
pub mod Pushing
pub mod Popping
pub mod Crossing
mod Tests
use slam.Base.{
  ℕ, zero, suc, ◌+◌, ◌-◌, ◌%◌, ◌^◌, ◌≤◌, ◌<◌, Bool, true, false, ◌&&◌, Option, none, some, List, [],
  ◌∷◌, Run, ret, abort, stuck, ◌>>=◌, ◌>>◌, assert, ltb, leb, ◌==◌, if◌then◌else◌, u32, get_or, set,
  replicate,
}

-- `struct slam_message_queue_s`. A slot that was never written is `none`.
pub record MessageQueue {ℓ} (A : Type ℓ) : Type ℓ where
  pub queue : List (Option A)
  pub maxsize : ℕ
  pub rindex : ℕ
  pub windex : ℕ
  pub read_number : ℕ
  pub write_number : ℕ

module _ {ℓ} {A : Type ℓ} where
  unfoldable pub new : ℕ → Run (MessageQueue A)
  new maxsize = do
    assert (ltb 0 maxsize)
    ret (record {
      queue = replicate maxsize none;
      maxsize = maxsize;
      rindex = 0;
      windex = 0;
      read_number = 0;
      write_number = 0;
    })

  -- ASSERT_QUEUE
  unfoldable pub assert_queue : MessageQueue A → Run (Unit {0})
  assert_queue mq = assert (ltb mq.rindex mq.maxsize) >> assert (ltb mq.windex mq.maxsize)

  -- The result is false when the queue is full.
  unfoldable pub push_back : MessageQueue A → A → Run (Bool × MessageQueue A)
  unfolding assert_queue
  push_back mq message = do
    assert_queue mq
    let newindex = u32 (u32 (mq.windex + 1) % mq.maxsize)
    if newindex == mq.rindex
        then ret (false, mq)
        else ret (
          true,
          record mq {
            queue = set mq.queue mq.windex (some message);
            windex = newindex;
            write_number = u32 (mq.write_number + 1);
          },
        )

  unfoldable pub is_empty : MessageQueue A → Run Bool
  unfolding assert_queue
  is_empty mq = assert_queue mq >> ret (mq.rindex == mq.windex)

  -- `none` is the null pointer that an empty queue gives.
  unfoldable pub pop_front : MessageQueue A → Run (Option A × MessageQueue A)
  unfolding assert_queue
  pop_front mq = do
    assert_queue mq
    if mq.rindex == mq.windex
        then ret (none, mq)
        else ret (
          get_or mq.queue mq.rindex none,
          record mq { rindex = u32 (mq.rindex + 1); read_number = u32 (mq.read_number + 1) },
        )

  unfoldable pub front : MessageQueue A → Run (Option A)
  unfolding assert_queue
  front mq = do
    assert_queue mq
    if mq.rindex == mq.windex then ret none else ret (get_or mq.queue mq.rindex none)

  unfoldable pub number : MessageQueue A → Run ℕ
  unfolding assert_queue
  number mq = do
    assert_queue mq
    assert (leb mq.read_number mq.write_number)
    ret (mq.write_number - mq.read_number)

  -- The messages that the loop hands to `slam_message_delete`, oldest first. Only null pointers
  -- are skipped by `slam_free`.
  drain : ℕ → MessageQueue A → Run (List (Option A))
  unfolding is_empty pop_front
  drain zero mq = stuck
  drain (suc fuel) mq = is_empty mq >>= λ done. elim done [
    | true ↦ ret []
    | false ↦ pop_front mq >>= λ (m, mq'). drain fuel mq' >>= λ ms. ret (m ∷ ms)
  ]

  -- `slam_message_queue_delete`. Each round reads one position, so a round for each position and
  -- one more are enough.
  unfoldable pub delete : MessageQueue A → Run (List (Option A))
  unfolding drain
  delete mq = drain (mq.maxsize + 1) mq
