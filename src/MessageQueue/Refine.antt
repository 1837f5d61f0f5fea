-- ===== src/MessageQueue/Refine.antt =====
-- Each operation of io/slam_message_queue.c against the bounded first-in first-out queue, and what
-- the operations do once every position of the ring has been read.
use slam.Base.{
  ℕ, suc, ◌+◌, ◌-◌, ◌%◌, ◌<◌, ◌≡◌, ◌≢◌, ◌∙◌, ap, sym, true, false, none, some, List, [], ◌∷◌, ◌++◌,
  ret, length, length-set, length-append, set, arith, u32, add-zero, mod-eq_of_lt, mod-eq-sub-mod,
  mod-add-mod,
}
use slam.MessageQueue.{MessageQueue, push_back, pop_front, front, is_empty, number}
use slam.MessageQueue.Bounds.{Holds, Slots-set, Holds-empty, ahead-ne}
use slam.MessageQueue.Fifo

module _ {ℓ} {A : Type ℓ} where
  abbrev pub newindex : MessageQueue A → ℕ
  newindex mq = u32 (u32 (mq.windex + 1) % mq.maxsize)

  newindex_lem :
      (mq : MessageQueue A) (xs : List A)
      → Holds mq xs
      → newindex mq ≡ (mq.rindex + suc (length xs)) % mq.maxsize
  newindex_lem mq xs v =
      small ∙ rw v.ahead (rw mod-add-mod (ap (λ k. k % mq.maxsize) (omega arith)))
    where
      small : newindex mq ≡ (mq.windex + 1) % mq.maxsize
      small =
          let e : u32 (mq.windex + 1) ≡ mq.windex + 1 = omega arith in
          rw e (mod-eq_of_lt {n = (mq.windex + 1) % mq.maxsize} (omega arith))

  abbrev pub written : MessageQueue A → A → MessageQueue A
  written mq x = record mq {
    queue = set mq.queue mq.windex (some x);
    windex = newindex mq;
    write_number = u32 (mq.write_number + 1);
  }

  pub written-Holds :
      (mq : MessageQueue A) (xs : List A) (x : A)
      → Holds mq xs
      → suc (length xs) < mq.maxsize
      → Holds (written mq x) (xs ++ (x ∷ []))
  written-Holds mq xs x v room = record {
    storage = length-set mq.queue mq.windex (some x) ∙ v.storage;
    small = v.small;
    reads_in = v.reads_in;
    writes_in = rw (newindex_lem mq xs v) (omega arith);
    fits = rw len room;
    ahead = rw len (newindex_lem mq xs v);
    reads = v.reads;
    writes = rw len (omega arith);
    slots =
        Slots-set mq.queue mq.maxsize x xs mq.rindex mq.windex (omega arith) v.reads_in v.fits
          v.ahead v.slots;
  }
    where
      len : length (xs ++ (x ∷ [])) ≡ suc (length xs)
      len = omega (arith, length-append xs (x ∷ []))

  pub push_full :
      (mq : MessageQueue A) (xs : List A) (x : A)
      → Holds mq xs
      → suc (length xs) ≡ mq.maxsize
      → push_back mq x ≡ ret (false, mq)
  unfolding push_back
  push_full mq xs x v full = ground (arith, hit)
    where
      hit : newindex mq ≡ mq.rindex
      hit =
          newindex_lem mq xs v
          ∙ rw full (
              mod-eq-sub-mod {n = mq.rindex + mq.maxsize} {m = mq.maxsize} (omega arith)
              ∙ mod-eq_of_lt {n = mq.rindex + mq.maxsize - mq.maxsize} (omega arith)
              ∙ omega arith)

  pub push_room :
      (mq : MessageQueue A) (xs : List A) (x : A)
      → Holds mq xs
      → suc (length xs) < mq.maxsize
      → push_back mq x ≡ ret (true, written mq x)
  unfolding push_back
  push_room mq xs x v room = ground (arith, miss)
    where
      miss : newindex mq ≢ mq.rindex
      miss =
          rw (newindex_lem mq xs v)
            (ahead-ne mq.maxsize mq.rindex (suc (length xs)) v.reads_in room (omega arith))

  abbrev pub read : MessageQueue A → MessageQueue A
  read mq = record mq { rindex = u32 (mq.rindex + 1); read_number = u32 (mq.read_number + 1) }

  same_index : (mq : MessageQueue A) → Holds mq [] → mq.windex ≡ mq.rindex
  same_index mq v = v.ahead ∙ rw add-zero (mod-eq_of_lt v.reads_in)

  pub pop_empty : (mq : MessageQueue A) → Holds mq [] → pop_front mq ≡ ret (none, mq)
  unfolding pop_front
  pop_empty mq v = ground (arith, same_index mq v)

  indices-ne :
      (mq : MessageQueue A) (x : A) (xs : List A) → Holds mq (x ∷ xs) → mq.rindex ≢ mq.windex
  indices-ne mq x xs v e = cc (Holds-empty {mq = mq} (x ∷ xs) v e)

  pub pop_some :
      (mq : MessageQueue A) (x : A) (xs : List A)
      → Holds mq (x ∷ xs)
      → pop_front mq ≡ ret (some x, read mq)
  unfolding pop_front
  pop_some mq x xs v = ground (arith, v.slots.0, indices-ne mq x xs v)

  pub read-Holds :
      (mq : MessageQueue A) (x : A) (xs : List A)
      → Holds mq (x ∷ xs)
      → mq.rindex + 1 < mq.maxsize
      → Holds (read mq) xs
  read-Holds mq x xs v inside = record {
    storage = v.storage;
    small = v.small;
    reads_in = omega arith;
    writes_in = v.writes_in;
    fits = omega arith;
    ahead = v.ahead ∙ ap (λ k. k % mq.maxsize) (omega arith);
    reads = omega arith;
    writes = omega arith;
    slots = rw (step ∙ sym (mod-eq_of_lt inside)) v.slots.1;
  }
    where
      step : u32 (mq.rindex + 1) ≡ mq.rindex + 1
      step = omega arith

  pub front_lem : (mq : MessageQueue A) (xs : List A) → Holds mq xs → front mq ≡ ret (Fifo.head xs)
  unfolding front Fifo.head
  front_lem mq [] v = ground (arith, same_index mq v)
  front_lem mq (x ∷ xs) v = ground (arith, v.slots.0, indices-ne mq x xs v)

  pub is_empty_lem :
      (mq : MessageQueue A) (xs : List A) → Holds mq xs → is_empty mq ≡ ret (Fifo.null xs)
  unfolding is_empty Fifo.null
  is_empty_lem mq [] v = ground (arith, same_index mq v)
  is_empty_lem mq (x ∷ xs) v = ground (arith, indices-ne mq x xs v)

  -- `slam_message_queue_number` gives the number of messages that the ring holds.
  pub number_lem : (mq : MessageQueue A) (xs : List A) → Holds mq xs → number mq ≡ ret (length xs)
  unfolding number
  number_lem mq xs v = ground arith
