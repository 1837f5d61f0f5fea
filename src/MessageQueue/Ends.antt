-- ===== src/MessageQueue/Ends.antt =====
-- The ring of src/io/slam_message_queue.c between two threads: one puts messages in by
-- `slam_message_queue_push_back`, one takes them out by `slam_message_queue_pop_front`, with no lock. Each
-- access to what the threads share is a step. What a thread alone writes it reads in the step that uses it.
use slam.Base.{
  ℕ, ◌+◌, Bool, ◌&&◌, Option, none, some, List, [], ◌∷◌, ◌++◌, ltb, ◌==◌, if◌then◌else◌, u32,
  get_or, set, replicate,
}
use slam.MessageQueue.{MessageQueue}
use slam.MessageQueue.Refine.{newindex}

-- Where the thread stands that puts messages in: between two calls, behind the assertions, behind the test
-- for a full ring, behind the write of the slot, or at a failed assertion.
pub data Writer (A : Type 0) : Type 0 where
  between : Writer A
  asserted : A → Writer A
  checked : A → Writer A
  stored : Writer A
  aborted : Writer A

-- The thread that takes messages out: between two calls, behind the assertions, behind the test for
-- an empty ring, behind the step of `rindex` from a position whose message it has still to read, or at
-- a failed assertion.
pub data Reader : Type 0 where
  between : Reader
  asserted : Reader
  checked : Reader
  moved : ℕ → Reader
  aborted : Reader

-- The ring and its two ends, with the messages that were put in and those that were taken out, in order.
pub record Ends (A : Type 0) : Type 0 where
  pub mq : MessageQueue A
  pub writer : Writer A
  pub reader : Reader
  pub sent : List A
  pub received : List (Option A)

module _ {A : Type 0} where
  -- a new ring of `maxsize` positions
  unfoldable pub begin : ℕ → Ends A
  begin maxsize = record {
    mq = record {
      queue = replicate maxsize none;
      maxsize = maxsize;
      rindex = 0;
      windex = 0;
      read_number = 0;
      write_number = 0;
    };
    writer = Writer.between;
    reader = Reader.between;
    sent = [];
    received = [];
  }

  -- ASSERT_QUEUE
  abbrev pub passes : MessageQueue A → Bool
  passes mq = ltb mq.rindex mq.maxsize && ltb mq.windex mq.maxsize

  -- a step of `slam_message_queue_push_back`, which is called with the message `m` if none is under way
  unfoldable pub push_step : A → Ends A → Writer A → Ends A
  push_step m s Writer.between = record s {
    writer = if passes s.mq then Writer.asserted m else Writer.aborted;
  }
  push_step m s (Writer.asserted x) = record s {
    writer = if newindex s.mq == s.mq.rindex then Writer.between else Writer.checked x;
  }
  push_step m s (Writer.checked x) = record s {
    mq = record s.mq { queue = set s.mq.queue s.mq.windex (some x) };
    writer = Writer.stored;
    sent = s.sent ++ (x ∷ []);
  }
  push_step m s Writer.stored = record s {
    mq = record s.mq { windex = newindex s.mq; write_number = u32 (s.mq.write_number + 1) };
    writer = Writer.between;
  }
  push_step m s Writer.aborted = s

  -- a step of `slam_message_queue_pop_front`; `rindex` moves on before the message is read, which C allows.
  unfoldable pub pop_step : Ends A → Reader → Ends A
  pop_step s Reader.between = record s {
    reader = if passes s.mq then Reader.asserted else Reader.aborted;
  }
  pop_step s Reader.asserted = record s {
    reader = if s.mq.rindex == s.mq.windex then Reader.between else Reader.checked;
  }
  pop_step s Reader.checked = record s {
    mq = record s.mq { rindex = u32 (s.mq.rindex + 1); read_number = u32 (s.mq.read_number + 1) };
    reader = Reader.moved s.mq.rindex;
  }
  pop_step s (Reader.moved i) = record s {
    reader = Reader.between;
    received = s.received ++ (get_or s.mq.queue i none ∷ []);
  }
  pop_step s Reader.aborted = s

  pub data Step (s : Ends A) : Ends A → Type 0 where
    pushes : (m : A) → Step s (push_step m s s.writer)
    pops : Step s (pop_step s s.reader)

  pub data Reach (maxsize : ℕ) : Ends A → Type 0 where
    start : Reach maxsize (begin maxsize)
    later : {s t : Ends A} → Reach maxsize s → Step s t → Reach maxsize t
