-- ===== src/Socket/Writes.antt =====
-- `slam_socket_poll_write` of src/io/slam_socket.c against the bytes that the kernel takes: those of
-- the queued messages, in order, each once.
use slam.Base.{
  ℕ, zero, suc, ◌+◌, ◌≤◌, ◌<◌, ◌≡◌, refl, sym, ◌∙◌, ap, subst, inl, inr, true, false, some, List,
  [], ◌∷◌, ◌++◌, map, append-nil, ret, length, length-append, length-map, length-drop, take, drop,
  drop-all, arith, dec_lt,
}
use slam.Message.{Message}
use slam.Message.Cells.{Cell}
use slam.MessageQueue.{is_empty, front}
use slam.MessageQueue.Bounds.{Holds}
use slam.MessageQueue.Fifo
use slam.MessageQueue.Refine.{read, read-Holds, is_empty_lem, front_lem}
use slam.Socket.Framing.{join}
use slam.Socket.Sending.{Send, IsSink, taken, interruptions, change_front, unsent}
use slam.Socket.Fronts.{
  HasLeft, HaveLeft, change_front-Holds, advanced, advanced-HasLeft, sent_part, sent_all,
}
use slam.Socket.{Socket}
use slam.Socket.Sends.{
  Writes, all_sent, step_took, step_closed, step_interrupted, step_blocked, step_failed, flow,
  unsent_left,
}

module _ {W : Type 0} (send : W → ℕ → List Cell → Send × W) where
  -- what the rounds left do
  abbrev Later : IsSink send → ℕ → ℕ → Type 0
  Later sink fuel fd =
      (v : W) (s : Socket) (ms : List Message) (bss : List (List ℕ))
      → s.fd ≡ fd
      → Holds s.sendmq ms
      → HaveLeft ms bss
      → s.sendmq.rindex + length ms < s.sendmq.maxsize
      → length (join bss) + sink.signals v < fuel
      → Writes send sink fuel fd v s bss

  -- a round in which `send` takes bytes
  after_took :
      (sink : IsSink send) (fuel fd : ℕ) (w : W) (socket : Socket) (m : Message) (ms : List Message)
      (bs : List ℕ) (bss : List (List ℕ)) (n : ℕ) (w' : W)
      → Later sink fuel fd
      → send w socket.fd (unsent send m) ≡ (Send.took (suc n), w')
      → socket.fd ≡ fd
      → Holds socket.sendmq (m ∷ ms)
      → HasLeft m bs
      → HaveLeft ms bss
      → socket.sendmq.rindex + suc (length ms) < socket.sendmq.maxsize
      → length (bs ++ join bss) + sink.signals w < suc fuel
      → suc n ≤ length bs
      → sink.outgoing w' fd ≡ sink.outgoing w fd ++ take (suc n) (map some bs)
      → sink.signals w' ≤ sink.signals w
      → Writes send sink (suc fuel) fd w socket (bs ∷ bss)
  unfolding Fifo.null Fifo.head
  after_took sink fuel fd w socket m ms bs bss n w' later e same v h hs room f g c s =
      let nonempty : is_empty socket.sendmq ≡ ret false = is_empty_lem socket.sendmq (m ∷ ms) v in
      let first : front socket.sendmq ≡ ret (some m) = front_lem socket.sendmq (m ∷ ms) v in
      let out : sink.outgoing w fd ++ map some (bs ++ join bss)
          ≡ sink.outgoing w' fd ++ map some (drop (suc n) bs ++ join bss) =
        flow send (sink.outgoing w fd) (suc n) bs (join bss)
        ∙ ap (λ o. o ++ map some (drop (suc n) bs ++ join bss)) (sym c) in
      elim (dec_lt (suc n) (length bs)) [
        | yes part ↦
            let mq = change_front socket.sendmq (advanced m (suc n)) in
            let (b, s', ms', left, w'', ran, d) =
              later w' (record socket { sendmq = mq }) (advanced m (suc n) ∷ ms)
                (drop (suc n) bs ∷ bss) same
                (change_front-Holds socket.sendmq m (advanced m (suc n)) ms v)
                (advanced-HasLeft m bs (suc n) h part, hs) room
                (omega (
                  arith,
                  length-append bs (join bss),
                  length-append (drop (suc n) bs) (join bss),
                  length-drop (suc n) bs,
                )) in
            (
              b,
              s',
              ms',
              left,
              w'',
              step_took send fuel w socket m w' nonempty first (omega (arith, h.sizes, h.some_left))
                    n mq e (sent_part socket.sendmq m bs (suc n) h part)
                  ∙ ran,
              record {
                same_fd = d.same_fd;
                conserves = out ∙ d.conserves;
                holds = d.holds;
                have = d.have;
                ending = d.ending;
              },
            )
        | no all ↦
            let mq = read (change_front socket.sendmq (advanced m (suc n))) in
            let (b, s', ms', left, w'', ran, d) =
              later w' (record socket { sendmq = mq }) ms bss same
                (read-Holds (change_front socket.sendmq (advanced m (suc n))) (advanced m (suc n))
                  ms (change_front-Holds socket.sendmq m (advanced m (suc n)) ms v) (omega arith))
                hs (omega (arith, v.small)) (omega (arith, length-append bs (join bss))) in
            (
              b,
              s',
              ms',
              left,
              w'',
              step_took send fuel w socket m w' nonempty first (omega (arith, h.sizes, h.some_left))
                    n mq e (sent_all socket.sendmq m ms bs (suc n) v h (omega arith))
                  ∙ ran,
              record {
                same_fd = d.same_fd;
                conserves =
                    out
                    ∙ ap (λ l. sink.outgoing w' fd ++ map some (l ++ join bss))
                        (drop-all (suc n) bs (omega arith))
                    ∙ d.conserves;
                holds = d.holds;
                have = d.have;
                ending = d.ending;
              },
            )
      ]

  -- What follows an answer of the kernel that takes no bytes.
  unchanged :
      (sink : IsSink send) (fd : ℕ) (w w' : W) (bss : List (List ℕ))
      → sink.outgoing w' fd ≡ sink.outgoing w fd ++ []
      → sink.outgoing w fd ++ map some (join bss) ≡ sink.outgoing w' fd ++ map some (join bss)
  unchanged sink fd w w' bss c =
      ap (λ o. o ++ map some (join bss)) (sym (append-nil (sink.outgoing w fd)) ∙ sym c)

  after_send :
      (sink : IsSink send) (fuel fd : ℕ) (w : W) (socket : Socket) (m : Message) (ms : List Message)
      (bs : List ℕ) (bss : List (List ℕ)) (a : Send) (w' : W)
      → Later sink fuel fd
      → send w socket.fd (unsent send m) ≡ (a, w')
      → socket.fd ≡ fd
      → Holds socket.sendmq (m ∷ ms)
      → HasLeft m bs
      → HaveLeft ms bss
      → socket.sendmq.rindex + suc (length ms) < socket.sendmq.maxsize
      → length (bs ++ join bss) + sink.signals w < suc fuel
      → taken a ≤ length bs
      → sink.outgoing w' fd ≡ sink.outgoing w fd ++ take (taken a) (map some bs)
      → interruptions a + sink.signals w' ≤ sink.signals w
      → Writes send sink (suc fuel) fd w socket (bs ∷ bss)
  unfolding Fifo.null Fifo.head
  after_send sink fuel fd w socket m ms bs bss (Send.took (suc n)) w' later e same v h hs room f g c
        s =
      after_took sink fuel fd w socket m ms bs bss n w' later e same v h hs room f g c (omega arith)
  after_send sink fuel fd w socket m ms bs bss (Send.took zero) w' later e same v h hs room f g c
        s =
      (
        false,
        socket,
        m ∷ ms,
        bs ∷ bss,
        w',
        step_closed send fuel w socket m w' (is_empty_lem socket.sendmq (m ∷ ms) v)
            (front_lem socket.sendmq (m ∷ ms) v) (omega (arith, h.sizes, h.some_left)) e,
        record {
          same_fd = same;
          conserves = unchanged sink fd w w' (bs ∷ bss) c;
          holds = v;
          have = (h, hs);
          ending = inr (
            refl,
            (
              w,
              unsent send m,
              inl (subst (λ k. send w k (unsent send m) ≡ (Send.took 0, w')) same e),
            ),
          );
        },
      )
  after_send sink fuel fd w socket m ms bs bss Send.interrupted w' later e same v h hs room f g c
        s =
      let (b, s', ms', left, w'', ran, d) =
        later w' socket (m ∷ ms) (bs ∷ bss) same v (h, hs) room (omega arith) in
      (
        b,
        s',
        ms',
        left,
        w'',
        step_interrupted send fuel w socket m w' (is_empty_lem socket.sendmq (m ∷ ms) v)
              (front_lem socket.sendmq (m ∷ ms) v) (omega (arith, h.sizes, h.some_left)) e
            ∙ ran,
        record {
          same_fd = d.same_fd;
          conserves = unchanged sink fd w w' (bs ∷ bss) c ∙ d.conserves;
          holds = d.holds;
          have = d.have;
          ending = d.ending;
        },
      )
  after_send sink fuel fd w socket m ms bs bss Send.would_block w' later e same v h hs room f g c
        s =
      (
        true,
        socket,
        m ∷ ms,
        bs ∷ bss,
        w',
        step_blocked send fuel w socket m w' (is_empty_lem socket.sendmq (m ∷ ms) v)
            (front_lem socket.sendmq (m ∷ ms) v) (omega (arith, h.sizes, h.some_left)) e,
        record {
          same_fd = same;
          conserves = unchanged sink fd w w' (bs ∷ bss) c;
          holds = v;
          have = (h, hs);
          ending = inl (
            refl,
            inr (
              w,
              unsent send m,
              subst (λ k. send w k (unsent send m) ≡ (Send.would_block, w')) same e,
            ),
          );
        },
      )
  after_send sink fuel fd w socket m ms bs bss Send.failed w' later e same v h hs room f g c s = (
    false,
    socket,
    m ∷ ms,
    bs ∷ bss,
    w',
    step_failed send fuel w socket m w' (is_empty_lem socket.sendmq (m ∷ ms) v)
        (front_lem socket.sendmq (m ∷ ms) v) (omega (arith, h.sizes, h.some_left)) e,
    record {
      same_fd = same;
      conserves = unchanged sink fd w w' (bs ∷ bss) c;
      holds = v;
      have = (h, hs);
      ending = inr (
        refl,
        (w, unsent send m, inr (subst (λ k. send w k (unsent send m) ≡ (Send.failed, w')) same e)),
      );
    },
  )

  -- For a `send` that takes bytes from the front of those it is given, for queued messages that fit in
  -- what is left of the ring, and with fuel for each byte left and each interruption,
  -- `slam_socket_poll_write` returns and fails no assertion. What the kernel has taken, with what is
  -- left of the queued messages, is what it had taken with what was left of them before. The result
  -- is true only when the queue is empty or the kernel takes no more for now, and false only when the
  -- connection is lost.
  pub poll_write_lem :
      (sink : IsSink send) (fuel fd : ℕ) (w : W) (socket : Socket) (ms : List Message)
      (bss : List (List ℕ))
      → socket.fd ≡ fd
      → Holds socket.sendmq ms
      → HaveLeft ms bss
      → socket.sendmq.rindex + length ms < socket.sendmq.maxsize
      → length (join bss) + sink.signals w < fuel
      → Writes send sink fuel fd w socket bss
  unfolding Fifo.null
  poll_write_lem sink zero fd w socket ms bss same v h room f = absurd (omega arith)
  poll_write_lem sink (suc fuel) fd w socket [] [] same v h room f = (
    true,
    socket,
    [],
    [],
    w,
    all_sent send fuel w socket (is_empty_lem socket.sendmq [] v),
    record {
      same_fd = same;
      conserves = refl;
      holds = v;
      have = tt;
      ending = inl (refl, inl refl);
    },
  )
  poll_write_lem sink (suc fuel) fd w socket [] (bs ∷ bss) same v h room f = absurd h
  poll_write_lem sink (suc fuel) fd w socket (m ∷ ms) [] same v h room f = absurd h
  poll_write_lem sink (suc fuel) fd w socket (m ∷ ms) (bs ∷ bss) same v h room f =
      let cs : unsent send m ≡ map some bs = unsent_left send m bs h.0 in
      after_send sink fuel fd w socket m ms bs bss (send w socket.fd (unsent send m)).0
        (send w socket.fd (unsent send m)).1
        (λ v' s ms' bss' same' hold have room' fuel'.
          poll_write_lem sink fuel fd v' s ms' bss' same' hold have room' fuel')
        refl same v h.0 h.1 room f
        (omega (arith, sink.fits w socket.fd (unsent send m), ap length cs, length-map some bs))
        (subst
          (λ k.
            sink.outgoing (send w socket.fd (unsent send m)).1 k
            ≡ sink.outgoing w k ++ take (taken (send w socket.fd (unsent send m)).0) (map some bs))
          same
          (sink.conserves w socket.fd (unsent send m)
            ∙ ap
                (λ l.
                  sink.outgoing w socket.fd ++ take (taken (send w socket.fd (unsent send m)).0) l)
                cs))
        (sink.patience w socket.fd (unsent send m))
