-- ===== src/MessageQueue/History.antt =====
-- Whole histories of calls of io/slam_message_queue.c. While fewer messages are taken than the ring
-- has positions it is the bounded queue. `slam_message_queue_pop_front` does not bring `rindex` back
-- to the start, so a ring whose last position has been read fails its assertions from then on.
use slam.Base.{
  ℕ, suc, ◌+◌, ◌-◌, ◌≤◌, ◌<◌, ◌≡◌, refl, ◌∙◌, List, [], ◌∷◌, ◌++◌, Run, ret, abort, ◌>>=◌, length,
  arith, dec_lt,
}
use slam.MessageQueue.{MessageQueue, push_back, pop_front, front, is_empty, number}
use slam.MessageQueue.Bounds.{Holds, IsSpent}
use slam.MessageQueue.Refine.{
  written, written-Holds, push_full, push_room, read, read-Holds, pop_empty, pop_some, front_lem,
  is_empty_lem, number_lem,
}
use slam.MessageQueue.Fifo
use slam.MessageQueue.Fifo.{Call, Reply}

module _ {ℓ} {A : Type ℓ} where
  unfoldable pub apply : MessageQueue A → Call A → Run (Reply A × MessageQueue A)
  apply mq (Call.push_back x) = push_back mq x >>= λ (b, mq'). ret (Reply.pushed b, mq')
  apply mq Call.pop_front = pop_front mq >>= λ (m, mq'). ret (Reply.popped m, mq')
  apply mq Call.front = front mq >>= λ m. ret (Reply.looked m, mq)
  apply mq Call.is_empty = is_empty mq >>= λ b. ret (Reply.emptiness b, mq)
  apply mq Call.number = number mq >>= λ n. ret (Reply.counted n, mq)

  unfoldable pub run : MessageQueue A → List (Call A) → Run (List (Reply A) × MessageQueue A)
  run mq [] = ret ([], mq)
  run mq (c ∷ cs) = apply mq c >>= λ (r, mq'). run mq' cs >>= λ (rs, last). ret (r ∷ rs, last)

  abbrev cap : MessageQueue A → ℕ
  cap mq = mq.maxsize - 1

  -- What one call does: it replies as the bounded queue, and leaves a ring that holds the queue's
  -- messages, or a spent ring.
  record Agrees (mq : MessageQueue A) (xs : List A) (c : Call A) (mq' : MessageQueue A)
      : Type ℓ where
    replies : apply mq c ≡ ret ((Fifo.apply (cap mq) xs c).0, mq')
    same_size : mq'.maxsize ≡ mq.maxsize
    moved : mq'.rindex ≡ mq.rindex + Fifo.taken xs c
    holds : mq'.rindex < mq'.maxsize → Holds mq' (Fifo.apply (cap mq) xs c).1

  apply-Agrees :
      (mq : MessageQueue A) (xs : List A) (c : Call A)
      → Holds mq xs
      → (mq' : MessageQueue A) × Agrees mq xs c mq'
  unfolding apply Fifo.apply Fifo.taken
  apply-Agrees mq xs (Call.push_back x) v = elim (dec_lt (suc (length xs)) mq.maxsize) [
    | yes room ↦ (
      written mq x,
      record {
        replies = rw (push_room mq xs x v room, Fifo.push_room mq.maxsize xs x room);
        same_size = refl;
        moved = omega arith;
        holds = λ _. rw (Fifo.push_room mq.maxsize xs x room) (written-Holds mq xs x v room);
      },
    )
    | no full ↦ (
      mq,
      record {
        replies =
            rw (push_full mq xs x v (omega arith), Fifo.push_full mq.maxsize xs x (omega arith));
        same_size = refl;
        moved = omega arith;
        holds = λ _. rw (Fifo.push_full mq.maxsize xs x (omega arith)) v;
      },
    )
  ]
  apply-Agrees mq [] Call.pop_front v = (
    mq,
    record { replies = rw (pop_empty mq v); same_size = refl; moved = omega arith; holds = λ _. v },
  )
  apply-Agrees mq (x ∷ xs) Call.pop_front v = (
    read mq,
    record {
      replies = rw (pop_some mq x xs v);
      same_size = refl;
      moved = omega arith;
      holds = λ h. read-Holds mq x xs v (omega arith);
    },
  )
  apply-Agrees mq xs Call.front v = (
    mq,
    record {
      replies = rw (front_lem mq xs v);
      same_size = refl;
      moved = omega arith;
      holds = λ _. v;
    },
  )
  apply-Agrees mq xs Call.is_empty v = (
    mq,
    record {
      replies = rw (is_empty_lem mq xs v);
      same_size = refl;
      moved = omega arith;
      holds = λ _. v;
    },
  )
  apply-Agrees mq xs Call.number v = (
    mq,
    record {
      replies = rw (number_lem mq xs v);
      same_size = refl;
      moved = omega arith;
      holds = λ _. v;
    },
  )

  -- A ring whose positions have all been read fails an assertion at any call.
  apply_spent : (mq : MessageQueue A) (c : Call A) → IsSpent mq → apply mq c ≡ abort
  unfolding apply push_back pop_front front is_empty number
  apply_spent mq (Call.push_back x) h = ground arith
  apply_spent mq Call.pop_front h = ground arith
  apply_spent mq Call.front h = ground arith
  apply_spent mq Call.is_empty h = ground arith
  apply_spent mq Call.number h = ground arith

  -- From a ring that holds the messages `xs`, a history that takes fewer messages than there are
  -- positions left to read does not fail an assertion: each call replies as the bounded queue of
  -- `maxsize - 1` messages does, and the ring ends up holding the queue's messages.
  pub run_refines :
      (mq : MessageQueue A) (xs : List A) (cs : List (Call A))
      → Holds mq xs
      → mq.rindex + Fifo.served (mq.maxsize - 1) xs cs < mq.maxsize
      → (mq' : MessageQueue A) × (run mq cs ≡ ret ((Fifo.run (mq.maxsize - 1) xs cs).0, mq'))
        × Holds mq' (Fifo.run (mq.maxsize - 1) xs cs).1
        × (mq'.rindex ≡ mq.rindex + Fifo.served (mq.maxsize - 1) xs cs)
  unfolding run Fifo.run Fifo.served
  run_refines mq xs [] v h = (mq, refl, v, omega arith)
  run_refines mq xs (c ∷ cs) v h =
      let (mq', a) = apply-Agrees mq xs c v in
      let (last, ran, kept, at) =
        run_refines mq' (Fifo.apply (cap mq) xs c).1 cs
          (a.holds (omega (arith, a.moved, a.same_size)))
          (rw a.same_size (omega (arith, a.moved))) in
      (
        last,
        rw (a.replies, ran, a.same_size),
        rw a.same_size at kept,
        at ∙ rw (a.same_size, a.moved) (omega arith),
      )

  run_spent :
      (mq : MessageQueue A) (cs : List (Call A)) (c : Call A)
      → IsSpent mq
      → run mq (cs ++ (c ∷ [])) ≡ abort
  unfolding run
  run_spent mq [] c h = rw (apply_spent mq c h)
  run_spent mq (b ∷ cs) c h = rw (apply_spent mq b h)

  -- From a ring that holds the messages `xs`, a history that takes all the positions left to read,
  -- and makes a call after that, fails an assertion.
  pub run_spends :
      (mq : MessageQueue A) (xs : List A) (cs : List (Call A)) (c : Call A)
      → Holds mq xs
      → mq.maxsize ≤ mq.rindex + Fifo.served (mq.maxsize - 1) xs cs
      → run mq (cs ++ (c ∷ [])) ≡ abort
  unfolding run Fifo.served
  run_spends mq xs [] c v h = absurd (omega (arith, v.reads_in))
  run_spends mq xs (b ∷ cs) c v h =
      let (mq', a) = apply-Agrees mq xs b v in
      rw a.replies (elim (dec_lt mq'.rindex mq'.maxsize) [
        | yes inside ↦ rw (
            run_spends mq' (Fifo.apply (cap mq) xs b).1 cs c (a.holds inside)
              (rw a.same_size (omega (arith, a.moved))))
        | no spent ↦ rw (run_spent mq' cs c (omega arith))
      ])
