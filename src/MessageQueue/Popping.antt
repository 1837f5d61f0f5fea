-- ===== src/MessageQueue/Popping.antt =====
-- The steps of the thread that takes messages out of the ring of src/io/slam_message_queue.c.
use slam.Base.{
  ℕ, suc, ◌+◌, ◌<◌, ◌^◌, ◌≡◌, sym, refl, ◌∙◌, ap, Bool, true, false, Option, none, some, List, [],
  ◌∷◌, ◌++◌, map, length, length-append, length-map, take, take-suc, get_or, ◌==◌, if◌then◌else◌,
  arith, u32,
}
use slam.MessageQueue.Ends.{Writer, Reader, Ends, pop_step, passes}
use slam.MessageQueue.Window.{Window, slot, unread, ReaderKnows, WriterKnows}

module _ {A : Type 0} where
  still_room :
      (n p r : ℕ) (place : Writer A) → WriterKnows n p r place → WriterKnows n p (r + 1) place
  still_room n p r Writer.between k = tt
  still_room n p r (Writer.asserted x) k = k
  still_room n p r (Writer.checked x) k = omega (arith, k)
  still_room n p r Writer.stored k = omega (arith, k)
  still_room n p r Writer.aborted k = tt

  -- Between its accesses the reading thread moves without a change to the ring.
  stays :
      (s : Ends A) (w : Window s) (place : Reader)
      → length s.received + unread place ≡ w.r
      → ReaderKnows s.mq.maxsize w.p w.r place
      → Window (record s { reader = place })
  stays s w place e k = record {
    p = w.p;
    r = w.r;
    sees = w.sees;
    takes = e;
    storage = w.storage;
    small = w.small;
    writes_at = w.writes_at;
    reads_at = w.reads_at;
    ordered = w.ordered;
    roomy = w.roomy;
    limited = w.limited;
    writer_knows = w.writer_knows;
    reader_knows = k;
    kept = w.kept;
    faithful = w.faithful;
  }

  asserted-Window :
      (s : Ends A) (w : Window s) (b : Bool)
      → passes s.mq ≡ b
      → length s.received + 0 ≡ w.r
      → Window (record s { reader = if b then Reader.asserted else Reader.aborted })
  asserted-Window s w false e same = stays s w Reader.aborted same tt
  asserted-Window s w true e same = stays s w Reader.asserted same (ground (arith, e, w.reads_at))

  -- The reading thread finds a message: the writing thread can only add to them.
  checked-Window :
      (s : Ends A) (w : Window s) (b : Bool)
      → (s.mq.rindex == s.mq.windex) ≡ b
      → length s.received + 0 ≡ w.r
      → w.r < s.mq.maxsize
      → Window (record s { reader = if b then Reader.between else Reader.checked })
  checked-Window s w true e same inside = stays s w Reader.between same tt
  checked-Window s w false e same inside =
      stays s w Reader.checked same (ground (arith, e, w.reads_at, w.writes_at, w.ordered), inside)

  moved-Window :
      (s : Ends A) (w : Window s)
      → length s.received + 0 ≡ w.r
      → w.r < w.p
      → w.r < s.mq.maxsize
      → Window (pop_step s Reader.checked)
  unfolding pop_step
  moved-Window s w same some_left inside = record {
    p = w.p;
    r = w.r + 1;
    sees = w.sees;
    takes = omega arith;
    storage = w.storage;
    small = w.small;
    writes_at = w.writes_at;
    reads_at = ap (λ k. u32 (k + 1)) w.reads_at ∙ whole (w.r + 1) (omega (arith, w.small));
    ordered = omega arith;
    roomy = omega (arith, w.roomy);
    limited = omega arith;
    writer_knows = still_room s.mq.maxsize w.p w.r s.writer w.writer_knows;
    reader_knows = ap (λ k. k + 1) w.reads_at;
    kept = w.kept;
    faithful = w.faithful;
  }
    where
      whole : (k : ℕ) → k < 2 ^ 32 → u32 k ≡ k
      whole k below = omega arith

  taken-Window :
      (s : Ends A) (w : Window s) (i : ℕ)
      → length s.received + 1 ≡ w.r
      → i + 1 ≡ w.r
      → Window (pop_step s (Reader.moved i))
  unfolding pop_step
  taken-Window s w i same at = record {
    p = w.p;
    r = w.r;
    sees = w.sees;
    takes = omega (arith, longer);
    storage = w.storage;
    small = w.small;
    writes_at = w.writes_at;
    reads_at = w.reads_at;
    ordered = w.ordered;
    roomy = w.roomy;
    limited = w.limited;
    writer_knows = w.writer_knows;
    reader_knows = tt;
    kept = λ k a b. w.kept k (omega (arith, longer)) b;
    faithful =
        ap (λ l. l ++ (x ∷ [])) w.faithful
        ∙ ap (λ y. take (length s.received) all ++ (y ∷ [])) is_next
        ∙ sym (
            take-suc (length s.received) all none
              (omega (arith, length-map some s.sent, w.sees, w.ordered)))
        ∙ ap (λ k. take k all) more;
  }
    where
      x : Option A
      x = get_or s.mq.queue i none

      all : List (Option A)
      all = map some s.sent

      longer : length (s.received ++ (x ∷ [])) ≡ length s.received + 1
      longer = length-append s.received (x ∷ [])

      more : suc (length s.received) ≡ length (s.received ++ (x ∷ []))
      more = omega (arith, longer)

      here : i ≡ slot s.mq.maxsize (length s.received)
      here = ground (arith, same, at, w.limited)

      is_next : x ≡ get_or all (length s.received) none
      is_next =
          ap (λ j. get_or s.mq.queue j none) here
          ∙ w.kept (length s.received) (omega arith) (omega (arith, w.sees, w.ordered))

  -- Each step of the reading thread keeps the ring's window.
  pub pop_step-Window :
      (s : Ends A) (w : Window s) (place : Reader)
      → length s.received + unread place ≡ w.r
      → ReaderKnows s.mq.maxsize w.p w.r place
      → Window (pop_step s place)
  unfolding pop_step
  pop_step-Window s w Reader.between e k = asserted-Window s w (passes s.mq) refl e
  pop_step-Window s w Reader.asserted e k = checked-Window s w (s.mq.rindex == s.mq.windex) refl e k
  pop_step-Window s w Reader.checked e k = moved-Window s w e k.0 k.1
  pop_step-Window s w (Reader.moved i) e k = taken-Window s w i e k
  pop_step-Window s w Reader.aborted e k = w
