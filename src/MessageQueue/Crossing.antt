-- ===== src/MessageQueue/Crossing.antt =====
-- What two threads see of each other through the ring of src/io/slam_message_queue.c: the messages are
-- taken as they were put in, whatever the order of the threads' steps.
use slam.Base.{
  ℕ, ◌+◌, ◌≤◌, ◌<◌, ◌^◌, ◌≡◌, refl, none, some, map, length, length-replicate, take, arith,
}
use slam.MessageQueue.Ends.{Writer, Ends, begin, Step, Reach}
use slam.MessageQueue.Window.{Window, WriterKnows, hidden, unread}
use slam.MessageQueue.Pushing.{push_step-Window, unread_le}
use slam.MessageQueue.Popping.{pop_step-Window}

module _ {A : Type 0} where
  begin-Window : (n : ℕ) → 0 < n → n < 2 ^ 31 → Window {A = A} (begin n)
  unfolding begin
  begin-Window n some_room below = record {
    p = 0;
    r = 0;
    sees = refl;
    takes = refl;
    storage = length-replicate n none;
    small = below;
    writes_at = ground arith;
    reads_at = refl;
    ordered = omega arith;
    roomy = omega arith;
    limited = omega arith;
    writer_knows = tt;
    reader_knows = tt;
    kept = λ k a b. absurd (omega arith);
    faithful = refl;
  }

  Step-Window : (s t : Ends A) → Step s t → Window s → Window t
  Step-Window s t (Step.pushes m) w = push_step-Window s w m s.writer w.sees w.writer_knows
  Step-Window s t Step.pops w = pop_step-Window s w s.reader w.takes w.reader_knows

  Reach-Window : (n : ℕ) (s : Ends A) → 0 < n → n < 2 ^ 31 → Reach n s → Window s
  Reach-Window n s a b Reach.start = begin-Window n a b
  Reach-Window n t a b (Reach.later {s} rest step) =
      Step-Window s t step (Reach-Window n s a b rest)

  stored_bound :
      (n p r : ℕ) (place : Writer A)
      → WriterKnows n p r place
      → p < r + n
      → p + hidden place < r + n
  stored_bound n p r Writer.between k h = omega arith
  stored_bound n p r (Writer.asserted x) k h = omega arith
  stored_bound n p r (Writer.checked x) k h = omega arith
  stored_bound n p r Writer.stored k h = k
  stored_bound n p r Writer.aborted k h = omega arith

  Window-bounds :
      (s : Ends A) (w : Window s)
      → (length s.received ≤ length s.sent)
        × (length s.sent ≤ length s.received + s.mq.maxsize)
        × (length s.received ≤ s.mq.maxsize)
  Window-bounds s w =
      let room : w.p + hidden s.writer < w.r + s.mq.maxsize =
        stored_bound s.mq.maxsize w.p w.r s.writer w.writer_knows w.roomy in
      let one : unread s.reader ≤ 1 = unread_le s.reader in
      (
        omega (arith, w.sees, w.takes, w.ordered),
        omega (arith, w.sees, w.takes, room, one),
        omega (arith, w.takes, w.limited),
      )

  -- In every state that two threads reach from a new ring of at least one and fewer than 2 ^ 31 positions,
  -- where one puts messages in and the other takes them out, one access after the other in any order, the messages taken
  -- are the first of those put in, in their order; no more are put in and not taken than the ring has
  -- positions, and no more are taken than it has positions.
  pub Reach-take :
      (n : ℕ) (s : Ends A)
      → 0 < n
      → n < 2 ^ 31
      → Reach n s
      → (s.received ≡ take (length s.received) (map some s.sent))
        × (length s.received ≤ length s.sent)
        × (length s.sent ≤ length s.received + s.mq.maxsize)
        × (length s.received ≤ s.mq.maxsize)
  Reach-take n s a b reached =
      let w : Window s = Reach-Window n s a b reached in
      let h = Window-bounds s w in (w.faithful, h.0, h.1, h.2)
