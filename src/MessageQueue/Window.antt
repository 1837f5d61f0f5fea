-- ===== src/MessageQueue/Window.antt =====
-- What stands in a ring of src/io/slam_message_queue.c while two threads use it.
use slam.Base.{
  ℕ, ◌+◌, ◌-◌, ◌≤◌, ◌<◌, ◌^◌, ◌≡◌, none, some, map, length, take, get_or, ltb, if◌then◌else◌,
}
use slam.MessageQueue.Ends.{Writer, Reader, Ends}

-- The position of a message in a ring of `n` positions, for the first 2 × n messages.
abbrev pub slot : ℕ → ℕ → ℕ
slot n k = if ltb k n then k else k - n

-- a message that is taken, and not read yet
abbrev pub unread : Reader → ℕ
unread (Reader.moved i) = 1
unread _ = 0

-- What the reading thread knows: `p` messages can be seen, and `r` are taken.
abbrev pub ReaderKnows : ℕ → ℕ → ℕ → Reader → Type 0
ReaderKnows n p r Reader.asserted = r < n
ReaderKnows n p r Reader.checked = (r < p) × (r < n)
ReaderKnows n p r (Reader.moved i) = i + 1 ≡ r
ReaderKnows n p r _ = Unit

module _ {A : Type 0} where
  -- a message that is stored, and that the other thread cannot see yet
  abbrev pub hidden : Writer A → ℕ
  hidden Writer.stored = 1
  hidden _ = 0

  -- What the writing thread knows of them.
  abbrev pub WriterKnows : ℕ → ℕ → ℕ → Writer A → Type 0
  WriterKnows n p r (Writer.asserted x) = p + 1 < n + n
  WriterKnows n p r (Writer.checked x) = p + 1 < r + n
  WriterKnows n p r Writer.stored = p + 1 < r + n
  WriterKnows n p r _ = Unit

  pub record Window (s : Ends A) : Type 0 where
    pub p : ℕ
    pub r : ℕ
    pub sees : length s.sent ≡ p + hidden s.writer
    pub takes : length s.received + unread s.reader ≡ r
    pub storage : length s.mq.queue ≡ s.mq.maxsize
    pub small : s.mq.maxsize < 2 ^ 31
    pub writes_at : s.mq.windex ≡ slot s.mq.maxsize p
    pub reads_at : s.mq.rindex ≡ r
    pub ordered : r ≤ p
    pub roomy : p < r + s.mq.maxsize
    pub limited : r ≤ s.mq.maxsize
    pub writer_knows : WriterKnows s.mq.maxsize p r s.writer
    pub reader_knows : ReaderKnows s.mq.maxsize p r s.reader
    pub kept :
        (k : ℕ)
        → length s.received ≤ k
        → k < length s.sent
        → get_or s.mq.queue (slot s.mq.maxsize k) none ≡ get_or (map some s.sent) k none
    pub faithful : s.received ≡ take (length s.received) (map some s.sent)
