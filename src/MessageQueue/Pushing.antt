-- ===== src/MessageQueue/Pushing.antt =====
-- The steps of the thread that puts messages into the ring of src/io/slam_message_queue.c.
use slam.Base.{
  ℕ, ◌+◌, ◌-◌, ◌%◌, ◌≤◌, ◌<◌, ◌^◌, ◌≡◌, ◌≢◌, refl, sym, ◌∙◌, ap, Bool, true, false, none, some, [],
  ◌∷◌, ◌++◌, map, length, length-append, length-map, length-set, map-append, take, take-append,
  get_or, set, get_or-set_self, get_or-set_ne, get_or-append, get_or-append_end, ltb, ◌==◌,
  if◌then◌else◌, arith, dec_lt, u32, mod-eq_of_lt, mod-eq-sub-mod,
}
use slam.MessageQueue.Refine.{newindex}
use slam.MessageQueue.Ends.{Writer, Reader, Ends, push_step, passes}
use slam.MessageQueue.Window.{Window, slot, hidden, unread, WriterKnows, ReaderKnows}

-- Two messages less than a ring apart lie at different positions.
pub slot_ne : (n j k : ℕ) → j < k → k < j + n → k < n + n → slot n j ≢ slot n k
slot_ne n j k a b c e = ground (arith, e)

-- the position behind one
turned :
    (n i : ℕ) → i < n → n < 2 ^ 31 → u32 (u32 (i + 1) % n) ≡ (if ltb (i + 1) n then i + 1 else 0)
turned n i h small = elim (dec_lt (i + 1) n) [
  | yes inside ↦
      ap (λ k. u32 (k % n)) (whole (i + 1) (omega arith))
      ∙ ap u32 (mod-eq_of_lt inside)
      ∙ ground arith
  | no last ↦
      ap (λ k. u32 (k % n)) (whole (i + 1) (omega arith))
      ∙ ap u32 (
          mod-eq-sub-mod {n = i + 1} {m = n} (omega arith)
          ∙ mod-eq_of_lt {n = i + 1 - n} (omega arith))
      ∙ ground arith
]
  where
    whole : (k : ℕ) → k < 2 ^ 32 → u32 k ≡ k
    whole k below = omega arith

-- the position after the one of a message
next_slot :
    (n i k : ℕ) → i ≡ slot n k → n < 2 ^ 31 → k + 1 < n + n → u32 (u32 (i + 1) % n) ≡ slot n (k + 1)
next_slot n i k e small h = turned n i (ground (arith, e)) small ∙ ground (arith, e)

pub unread_le : (place : Reader) → unread place ≤ 1
unread_le Reader.between = omega arith
unread_le Reader.checked = omega arith
unread_le Reader.asserted = omega arith
unread_le (Reader.moved i) = omega arith
unread_le Reader.aborted = omega arith

still_knows : (n p r : ℕ) (place : Reader) → ReaderKnows n p r place → ReaderKnows n (p + 1) r place
still_knows n p r Reader.between k = tt
still_knows n p r Reader.asserted k = k
still_knows n p r Reader.checked k = (omega (arith, k.0), k.1)
still_knows n p r (Reader.moved i) k = k
still_knows n p r Reader.aborted k = tt

module _ {A : Type 0} where
  -- Between its accesses the writing thread moves without a change to the ring.
  waits :
      (s : Ends A) (w : Window s) (place : Writer A)
      → length s.sent ≡ w.p + hidden place
      → WriterKnows s.mq.maxsize w.p w.r place
      → Window (record s { writer = place })
  waits s w place e k = record {
    p = w.p;
    r = w.r;
    sees = e;
    takes = w.takes;
    storage = w.storage;
    small = w.small;
    writes_at = w.writes_at;
    reads_at = w.reads_at;
    ordered = w.ordered;
    roomy = w.roomy;
    limited = w.limited;
    writer_knows = k;
    reader_knows = w.reader_knows;
    kept = w.kept;
    faithful = w.faithful;
  }

  -- the message stored at its position
  stores-kept :
      (s : Ends A) (w : Window s) (x : A) (k : ℕ)
      → length s.sent ≡ w.p
      → w.p + 1 < w.r + s.mq.maxsize
      → length s.received ≤ k
      → k < length (s.sent ++ (x ∷ []))
      → get_or (set s.mq.queue s.mq.windex (some x)) (slot s.mq.maxsize k) none
        ≡ get_or (map some (s.sent ++ (x ∷ []))) k none
  stores-kept s w x k same room a b =
      let longer : length (s.sent ++ (x ∷ [])) ≡ length s.sent + 1 =
        length-append s.sent (x ∷ []) in
      let wide : length (map some s.sent) ≡ length s.sent = length-map some s.sent in
      elim (dec_lt k (length s.sent)) [
        | yes old ↦
            get_or-set_ne s.mq.queue s.mq.windex (slot s.mq.maxsize k) (some x) none (λ e.
              slot_ne s.mq.maxsize k w.p (omega arith) (omega (arith, w.takes, unread_le s.reader))
                (omega (arith, w.limited)) (sym e ∙ w.writes_at))
            ∙ w.kept k a old
            ∙ sym (
                ap (λ l. get_or l k none) (map-append some s.sent (x ∷ []))
                ∙ get_or-append (map some s.sent) (some x ∷ []) k none (omega arith))
        | no new ↦
            ap (λ i. get_or (set s.mq.queue s.mq.windex (some x)) i none)
              (ap (slot s.mq.maxsize) (last new) ∙ sym w.writes_at)
            ∙ get_or-set_self s.mq.queue s.mq.windex (some x) none
                (ground (arith, w.storage, w.writes_at, w.roomy, w.limited))
            ∙ sym (
                ap (λ l. get_or l k none) (map-append some s.sent (x ∷ []))
                ∙ get_or-append_end (map some s.sent) (some x) k none (omega arith))
      ]
    where
      last : ¬ k < length s.sent → k ≡ w.p
      last new = omega (arith, length-append s.sent (x ∷ []))

  asserted-Window :
      (s : Ends A) (w : Window s) (m : A) (b : Bool)
      → passes s.mq ≡ b
      → length s.sent ≡ w.p
      → Window (record s { writer = if b then Writer.asserted m else Writer.aborted })
  asserted-Window s w m false e same = waits s w Writer.aborted (omega arith) tt
  asserted-Window s w m true e same =
      waits s w (Writer.asserted m) (omega arith) (ground (arith, e, w.reads_at, w.roomy))

  -- The writing thread finds room: the reading thread can only make more.
  checked-Window :
      (s : Ends A) (w : Window s) (x : A) (b : Bool)
      → (newindex s.mq == s.mq.rindex) ≡ b
      → length s.sent ≡ w.p
      → w.p + 1 < s.mq.maxsize + s.mq.maxsize
      → Window (record s { writer = if b then Writer.between else Writer.checked x })
  checked-Window s w x true e same room = waits s w Writer.between (omega arith) tt
  checked-Window s w x false e same room =
      let next : newindex s.mq ≡ slot s.mq.maxsize (w.p + 1) =
        next_slot s.mq.maxsize s.mq.windex w.p w.writes_at w.small room in
      waits s w (Writer.checked x) (omega arith) (ground (arith, e, next, w.reads_at, w.roomy))

  stored-Window :
      (s : Ends A) (w : Window s) (x : A)
      → length s.sent ≡ w.p
      → w.p + 1 < w.r + s.mq.maxsize
      → Window (push_step x s (Writer.checked x))
  unfolding push_step
  stored-Window s w x same room = record {
    p = w.p;
    r = w.r;
    sees = length-append s.sent (x ∷ []) ∙ ap (λ k. k + 1) same;
    takes = w.takes;
    storage = length-set s.mq.queue s.mq.windex (some x) ∙ w.storage;
    small = w.small;
    writes_at = w.writes_at;
    reads_at = w.reads_at;
    ordered = w.ordered;
    roomy = w.roomy;
    limited = w.limited;
    writer_knows = room;
    reader_knows = w.reader_knows;
    kept = λ k a b. stores-kept s w x k same room a b;
    faithful =
        w.faithful
        ∙ sym (
            take-append (length s.received) (map some s.sent) (some x ∷ [])
              (omega (arith, length-map some s.sent, w.takes, w.ordered)))
        ∙ ap (take (length s.received)) (sym (map-append some s.sent (x ∷ [])));
  }

  shown-Window :
      (s : Ends A) (w : Window s) (m : A)
      → length s.sent ≡ w.p + 1
      → w.p + 1 < w.r + s.mq.maxsize
      → Window (push_step m s Writer.stored)
  unfolding push_step
  shown-Window s w m more room = record {
    p = w.p + 1;
    r = w.r;
    sees = more ∙ omega arith;
    takes = w.takes;
    storage = w.storage;
    small = w.small;
    writes_at =
        next_slot s.mq.maxsize s.mq.windex w.p w.writes_at w.small (omega (arith, w.limited));
    reads_at = w.reads_at;
    ordered = omega (arith, w.ordered);
    roomy = room;
    limited = w.limited;
    writer_knows = tt;
    reader_knows = still_knows s.mq.maxsize w.p w.r s.reader w.reader_knows;
    kept = w.kept;
    faithful = w.faithful;
  }

  -- Each step of the writing thread keeps the ring's window.
  pub push_step-Window :
      (s : Ends A) (w : Window s) (m : A) (place : Writer A)
      → length s.sent ≡ w.p + hidden place
      → WriterKnows s.mq.maxsize w.p w.r place
      → Window (push_step m s place)
  unfolding push_step
  push_step-Window s w m Writer.between e k = asserted-Window s w m (passes s.mq) refl (omega arith)
  push_step-Window s w m (Writer.asserted x) e k =
      checked-Window s w x (newindex s.mq == s.mq.rindex) refl (omega arith) k
  push_step-Window s w m (Writer.checked x) e k = stored-Window s w x (omega arith) k
  push_step-Window s w m Writer.stored e k = shown-Window s w m e k
  push_step-Window s w m Writer.aborted e k = w
