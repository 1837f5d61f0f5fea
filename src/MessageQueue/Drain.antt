-- ===== src/MessageQueue/Drain.antt =====
-- `slam_message_queue_delete` of io/slam_message_queue.c.
use slam.Base.{
  ltb, if◌then◌else◌, ℕ, zero, suc, ◌+◌, ◌≤◌, ◌<◌, ◌≡◌, some, List, [], ◌∷◌, map, ret, abort, ◌>>=◌,
  length, arith, dec_lt,
}
use slam.MessageQueue.{MessageQueue, is_empty, drain, delete}
use slam.MessageQueue.Bounds.{Holds, IsSpent}
use slam.MessageQueue.Refine.{read, read-Holds, pop_some, is_empty_lem}
use slam.MessageQueue.Fifo

module _ {ℓ} {A : Type ℓ} where
  drain_straight :
      (fuel : ℕ) (mq : MessageQueue A) (xs : List A)
      → Holds mq xs
      → length xs < fuel
      → mq.rindex + length xs < mq.maxsize
      → drain fuel mq ≡ ret (map some xs)
  unfolding drain Fifo.null
  drain_straight zero mq xs v f h = absurd (omega arith)
  drain_straight (suc fuel) mq [] v f h = rw (is_empty_lem mq [] v)
  drain_straight (suc fuel) mq (x ∷ xs) v f h = rw (
    is_empty_lem mq (x ∷ xs) v,
    pop_some mq x xs v,
    drain_straight fuel (read mq) xs (read-Holds mq x xs v (omega arith)) (omega arith)
        (omega (arith, v.small)),
  )

  is_empty_spent : (mq : MessageQueue A) → IsSpent mq → is_empty mq ≡ abort
  unfolding is_empty
  is_empty_spent mq h = ground arith

  after_last :
      (fuel : ℕ) (mq : MessageQueue A) (x : A)
      → 0 < fuel
      → IsSpent (read mq)
      → (drain fuel (read mq) >>= λ ms. ret (some x ∷ ms)) ≡ abort
  unfolding drain
  after_last zero mq x h spent = absurd (omega arith)
  after_last (suc fuel) mq x h spent = rw (is_empty_spent (read mq) spent)

  drain_wrapped :
      (fuel : ℕ) (mq : MessageQueue A) (xs : List A)
      → Holds mq xs
      → length xs < fuel
      → mq.maxsize ≤ mq.rindex + length xs
      → drain fuel mq ≡ abort
  unfolding drain Fifo.null
  drain_wrapped zero mq xs v f h = absurd (omega arith)
  drain_wrapped (suc fuel) mq [] v f h = absurd (omega (arith, v.reads_in))
  drain_wrapped (suc fuel) mq (x ∷ xs) v f h =
      rw (is_empty_lem mq (x ∷ xs) v, pop_some mq x xs v)
        (elim (dec_lt (mq.rindex + 1) mq.maxsize) [
          | yes inside ↦ rw (
              drain_wrapped fuel (read mq) xs (read-Holds mq x xs v inside) (omega arith)
                (omega (arith, v.small)))
          | no spent ↦ after_last fuel mq x (omega arith) (omega (arith, v.small))
        ])

  -- Deleting a ring that holds the messages `xs` frees exactly those, oldest first, if they lie in
  -- one piece below the end of the ring, and fails an assertion if they reach or go round the end.
  pub delete_lem :
      (mq : MessageQueue A) (xs : List A)
      → Holds mq xs
      → delete mq ≡ (if ltb (mq.rindex + length xs) mq.maxsize then ret (map some xs) else abort)
  unfolding delete
  delete_lem mq xs v = elim (dec_lt (mq.rindex + length xs) mq.maxsize) [
    | yes h ↦ ground (arith, drain_straight (mq.maxsize + 1) mq xs v (omega (arith, v.fits)) h)
    | no h ↦
        ground (arith, drain_wrapped (mq.maxsize + 1) mq xs v (omega (arith, v.fits)) (omega arith))
  ]
