-- ===== src/Socket/Sends.antt =====
-- One round of `slam_socket_poll_write` of src/io/slam_socket.c, for each answer of the kernel, and
-- what the whole loop leaves.
use slam.Base.{
  ℕ, suc, ◌-◌, ◌<◌, ◌≡◌, sym, ◌∙◌, ap, ◌⊎◌, Bool, true, false, some, List, [], ◌++◌, map,
  map-append, append_assoc, ret, length-map, take, drop, take-all, take-append-drop, arith,
}
use slam.Message.{Message}
use slam.Message.Cells.{Cell}
use slam.MessageQueue.{MessageQueue, is_empty, front}
use slam.MessageQueue.Bounds.{Holds}
use slam.Socket.Framing.{join}
use slam.Socket.Sending.{Send, IsSink, count_sent, unsent, poll_write}
use slam.Socket.Fronts.{drop-map, HasLeft, HaveLeft}
use slam.Socket.{Socket}

module _ {W : Type 0} (send : W → ℕ → List Cell → Send × W) where
  -- The last answer of the kernel was that it takes nothing for now.
  abbrev pub Blocked : ℕ → W → Type 0
  Blocked fd w' = (v : W) × (cs : List Cell) × (send v fd cs ≡ (Send.would_block, w'))

  -- The last answer of the kernel was that the connection is lost.
  abbrev pub Lost : ℕ → W → Type 0
  Lost fd w' =
      (v : W) × (cs : List Cell) × ((send v fd cs ≡ (Send.took 0, w'))
        ⊎ (send v fd cs ≡ (Send.failed, w')))

  -- From the bytes `bss` left of the queued messages to the bytes `left` of the messages `ms`.
  pub record Wrote (sink : IsSink send) (fd : ℕ) (w : W) (bss : List (List ℕ)) (b : Bool)
      (socket' : Socket) (ms : List Message) (left : List (List ℕ)) (w' : W) : Type 0 where
    pub same_fd : socket'.fd ≡ fd
    pub conserves :
        sink.outgoing w fd ++ map some (join bss) ≡ sink.outgoing w' fd ++ map some (join left)
    pub holds : Holds socket'.sendmq ms
    pub have : HaveLeft ms left
    pub ending : ((b ≡ true) × ((ms ≡ []) ⊎ Blocked fd w')) ⊎ ((b ≡ false) × Lost fd w')

  abbrev pub Writes : IsSink send → ℕ → ℕ → W → Socket → List (List ℕ) → Type 0
  Writes sink fuel fd w socket bss =
      (b : Bool) × (socket' : Socket) × (ms : List Message) × (left : List (List ℕ)) × (w' : W)
      × (poll_write send fuel w socket ≡ ret (b, socket', w'))
      × Wrote sink fd w bss b socket' ms left w'

  pub all_sent :
      (fuel : ℕ) (w : W) (socket : Socket)
      → is_empty socket.sendmq ≡ ret true
      → poll_write send (suc fuel) w socket ≡ ret (true, socket, w)
  unfolding poll_write
  all_sent fuel w socket e = ground (arith, e)

  module _ (fuel : ℕ) (w : W) (socket : Socket) (m : Message) (w' : W)
      (nonempty : is_empty socket.sendmq ≡ ret false) (first : front socket.sendmq ≡ ret (some m))
      (more : m.bytesize < m.bufsize) where
    pub step_took :
        (n : ℕ) (mq : MessageQueue Message)
        → send w socket.fd (unsent send m) ≡ (Send.took (suc n), w')
        → count_sent socket.sendmq m (suc n) ≡ ret mq
        → poll_write send (suc fuel) w socket
          ≡ poll_write send fuel w' (record socket { sendmq = mq })
    unfolding poll_write
    step_took n mq e ran = ground (arith, nonempty, first, e, ran)

    pub step_closed :
        send w socket.fd (unsent send m) ≡ (Send.took 0, w')
        → poll_write send (suc fuel) w socket ≡ ret (false, socket, w')
    unfolding poll_write
    step_closed e = ground (arith, nonempty, first, e)

    pub step_interrupted :
        send w socket.fd (unsent send m) ≡ (Send.interrupted, w')
        → poll_write send (suc fuel) w socket ≡ poll_write send fuel w' socket
    unfolding poll_write
    step_interrupted e = ground (arith, nonempty, first, e)

    pub step_blocked :
        send w socket.fd (unsent send m) ≡ (Send.would_block, w')
        → poll_write send (suc fuel) w socket ≡ ret (true, socket, w')
    unfolding poll_write
    step_blocked e = ground (arith, nonempty, first, e)

    pub step_failed :
        send w socket.fd (unsent send m) ≡ (Send.failed, w')
        → poll_write send (suc fuel) w socket ≡ ret (false, socket, w')
    unfolding poll_write
    step_failed e = ground (arith, nonempty, first, e)

  -- Taking the first `n` of the bytes left moves them to those that are out.
  pub flow :
      (out : List Cell) (n : ℕ) (bs rest : List ℕ)
      → out ++ map some (bs ++ rest) ≡ (out ++ take n (map some bs)) ++ map some (drop n bs ++ rest)
  flow out n bs rest =
      ap (λ l. out ++ l)
        (map-append some bs rest
          ∙ ap (λ l. l ++ map some rest) (sym (take-append-drop n (map some bs)))
          ∙ append_assoc (take n (map some bs)) (drop n (map some bs)) (map some rest)
          ∙ ap (λ l. take n (map some bs) ++ (l ++ map some rest)) (drop-map n bs)
          ∙ ap (λ l. take n (map some bs) ++ l) (sym (map-append some (drop n bs) rest)))
      ∙ sym (append_assoc out (take n (map some bs)) _)

  pub unsent_left : (m : Message) (bs : List ℕ) → HasLeft m bs → unsent send m ≡ map some bs
  unsent_left m bs h =
      ap (take (m.bufsize - m.bytesize)) h.left
      ∙ take-all (m.bufsize - m.bytesize) (map some bs) (omega (arith, h.sizes, length-map some bs))
