-- ===== src/IoThread/Table.antt =====
-- The table of sockets of src/io/slam_io_thread.c: a socket stands at its own descriptor.
use slam.Base.{
  ℕ, zero, suc, ◌+◌, ◌<◌, ℤ, ◌≡◌, ◌≢◌, refl, sym, ◌∙◌, ap, subst, Bool, true, false, inl, inr,
  Option, none, some, List, [], ◌∷◌, Run, ret, ltb, ◌==◌, if◌then◌else◌, arith, Ensures,
  Ensures-bind, Ensures-assert, Ensures-if, Ensures-map, Ensures-any, Ensures-option, Ensures-test,
  Ensures-ret, Ensures-stuck, Ensures-abort, ℕ_discrete,
}
use slam.Message.{Message, MessageType}
use slam.Message
use slam.MessageQueue.{push_back, is_empty}
use slam.Socket.{Socket}
use slam.Socket.Descriptor.{ReadsFd, poll_read_keeps_fd, WritesFd, poll_write_keeps_fd}
use slam.Socket.Opening
use slam.System.{System, Event}
use slam.Poll
use slam.IoThread.{
  IoThread, Setup, set_socket, is_server, valid_socket, establish_connection_event,
  lost_connection_event, add_socket, remove_socket, accept_socket, read_socket, write_socket,
  do_event, do_events, do_message, run,
}

-- A socket in the table stands at its own descriptor, which is below the size of the table.
unfoldable pub IsTable : IoThread → Type 0
IsTable io = (fd : ℕ) (s : Socket) → io.sockets fd ≡ some s → (s.fd ≡ fd) × (fd < 65536)

-- the table after a step
unfoldable pub KeepsTable : {W : Type 0} → IoThread × W → Type 0
KeepsTable (io, w) = IsTable io

valid_below : (fd : ℕ) → valid_socket fd ≡ true → fd < 65536
valid_below fd e = ground (arith, e)

module _ (io : IoThread) (t : IsTable io) where
  pub set_none-IsTable : (fd : ℕ) → IsTable (set_socket io fd none)
  unfolding IsTable
  set_none-IsTable fd k s e = ground (arith, e, t k s)

  pub set_some-IsTable :
      (fd : ℕ) (s : Socket) → s.fd ≡ fd → fd < 65536 → IsTable (set_socket io fd (some s))
  unfolding IsTable
  set_some-IsTable fd s same below k s' e = grind (arith, e, t k s')

-- A message for the worker leaves the table alone.
lost_connection_event-IsTable :
    (io : IoThread) (fd : ℕ)
    → IsTable io
    → Ensures (λ (pushed, io'). IsTable io') (lost_connection_event io fd)
unfolding lost_connection_event IsTable
lost_connection_event-IsTable io fd t =
    Ensures-bind (λ (pushed, io'). IsTable io')
      (push_back io.mq (Message.new fd MessageType.lost_connection 0)) _
      (Ensures-any _ _ (λ (pushed, mq). Ensures-ret _ _ t))

establish_connection_event-IsTable :
    (io : IoThread) (fd : ℕ)
    → IsTable io
    → Ensures (λ (pushed, io'). IsTable io') (establish_connection_event io fd)
unfolding establish_connection_event IsTable
establish_connection_event-IsTable io fd t =
    Ensures-bind (λ (pushed, io'). IsTable io')
      (push_back io.mq (Message.new fd MessageType.establish_connection 0)) _
      (Ensures-any _ _ (λ (pushed, mq). Ensures-ret _ _ t))

own_fd : (io : IoThread) → IsTable io → (fd : ℕ) (s : Socket) → io.sockets fd ≡ some s → s.fd ≡ fd
unfolding IsTable
own_fd io t fd s e = (t fd s e).0

module _ {W A : Type 0} (sys : System W A) (setup : Setup) where
  pub add_socket-IsTable :
      (w : W) (io : IoThread) (s : Socket)
      → IsTable io
      → Ensures (λ (added, io', w'). IsTable io') (add_socket sys setup w io s)
  unfolding add_socket
  add_socket-IsTable w io s t =
      Ensures-assert (λ (added, io', w'). IsTable io') (valid_socket s.fd) _
        (λ v.
          Ensures-option (λ (added, io', w'). IsTable io') (io.sockets s.fd) _ _
            (λ e.
              Ensures-if (λ (added, io', w'). IsTable io') (Poll.add_socket sys w io.poll s.fd).0 _
                _ (λ b. Ensures-ret _ _ (set_some-IsTable io t s.fd s refl (valid_below s.fd v)))
                (λ b. Ensures-ret _ _ t))
            (λ old e. Ensures-abort _))

  pub remove_socket-KeepsTable :
      (w : W) (io : IoThread) (fd : ℕ)
      → IsTable io
      → Ensures KeepsTable (remove_socket sys setup w io fd)
  unfolding remove_socket KeepsTable
  remove_socket-KeepsTable w io fd t = Ensures-assert KeepsTable (valid_socket fd) _ (λ v.
      Ensures-option KeepsTable (io.sockets fd) _ _ (λ e. Ensures-ret _ _ t)
        (λ s e.
          Ensures-bind KeepsTable (Opening.delete sys (Poll.remove_socket sys w io.poll fd).1 s) _ (
            Ensures-any _ _ (λ w2.
              Ensures-bind KeepsTable (lost_connection_event (set_socket io fd none) fd) _ (
                Ensures-map _ _ _ (λ (pushed, io') t'. Ensures-ret _ _ t')
                  (lost_connection_event-IsTable (set_socket io fd none) fd
                    (set_none-IsTable io t fd)))))))

  accept_socket-KeepsTable :
      (fuel : ℕ) (w : W) (io : IoThread) (s : Socket)
      → IsTable io
      → Ensures KeepsTable (accept_socket sys setup fuel w io s)
  unfolding accept_socket KeepsTable
  accept_socket-KeepsTable zero w io s t = Ensures-stuck _
  accept_socket-KeepsTable (suc fuel) w io s t =
      Ensures-assert KeepsTable (is_server s.kind) _ (λ v.
        Ensures-bind KeepsTable (Opening.accept sys setup.accepts setup.socket_send_queue_size w s)
          _
          (Ensures-any _ _ (λ (accepted, w1).
            Ensures-option KeepsTable accepted _ _ (λ e. Ensures-ret _ _ t)
              (λ news e. Ensures-bind KeepsTable _ _ (
                Ensures-map _ _ _
                  (λ (added, io1, w2) t1.
                    Ensures-test KeepsTable added _ _
                      (λ b. Ensures-bind KeepsTable _ _ (
                        Ensures-map _ _ _
                          (λ (pushed, io2) t2. accept_socket-KeepsTable fuel w2 io2 s t2)
                          (establish_connection_event-IsTable io1 news.fd t1)))
                      (λ b.
                        Ensures-bind KeepsTable (Opening.delete sys w2 news) _
                          (Ensures-any _ _ (λ w3. accept_socket-KeepsTable fuel w3 io1 s t1))))
                  (add_socket-IsTable w1 io news t))))))

  pub read_socket-KeepsTable :
      (w : W) (io : IoThread) (fd : ℕ)
      → IsTable io
      → Ensures KeepsTable (read_socket sys setup w io fd)
  unfolding read_socket KeepsTable ReadsFd IsTable
  read_socket-KeepsTable w io fd t = Ensures-assert KeepsTable (valid_socket fd) _ (λ v.
      Ensures-option KeepsTable (io.sockets fd) _ _ (λ e. Ensures-ret _ _ t)
        (λ s e.
          Ensures-if KeepsTable (is_server s.kind) _ _
            (λ b. accept_socket-KeepsTable setup.accepts w io s t)
            (λ b. Ensures-bind KeepsTable _ _ (
              Ensures-map _ _ _
                (λ (alive, s', mq', w') same.
                  let io' = set_socket (record io { mq = mq' }) fd (some s') in
                  let t' : IsTable io' =
                    set_some-IsTable (record io { mq = mq' }) t fd s' same (valid_below fd v) in
                  Ensures-if KeepsTable alive _ _ (λ b'. Ensures-ret _ _ t')
                    (λ b'. remove_socket-KeepsTable w' io' fd t'))
                (poll_read_keeps_fd sys.recv setup.max_package_size setup.rounds setup.reads fd w s
                  io.mq (own_fd io t fd s e))))))

  pub write_socket-KeepsTable :
      (w : W) (io : IoThread) (fd : ℕ)
      → IsTable io
      → Ensures KeepsTable (write_socket sys setup w io fd)
  unfolding write_socket KeepsTable WritesFd
  write_socket-KeepsTable w io fd t = Ensures-assert KeepsTable (valid_socket fd) _ (λ v.
      Ensures-option KeepsTable (io.sockets fd) _ _ (λ e. Ensures-ret _ _ t)
        (λ s e.
          Ensures-if KeepsTable (is_server s.kind) _ _ (λ b. Ensures-abort _)
            (λ b. Ensures-bind KeepsTable _ _ (
              Ensures-map _ _ _
                (λ (alive, s', w') same.
                  let io' = set_socket io fd (some s') in
                  let t' : IsTable io' = set_some-IsTable io t fd s' same (valid_below fd v) in
                  Ensures-if KeepsTable alive _ _ (λ b'. Ensures-ret _ _ t')
                    (λ b'. remove_socket-KeepsTable w' io' fd t'))
                (poll_write_keeps_fd sys.send setup.writes fd w s (own_fd io t fd s e))))))

  do_event-KeepsTable :
      (w : W) (io : IoThread) (event : Event)
      → IsTable io
      → Ensures KeepsTable (do_event sys setup w io event)
  unfolding do_event KeepsTable
  do_event-KeepsTable w io event t =
      Ensures-if KeepsTable event.err _ _ (λ b. remove_socket-KeepsTable w io event.fd t)
        (λ b.
          Ensures-if KeepsTable event.hup _ _ (λ b. remove_socket-KeepsTable w io event.fd t)
            (λ b.
              Ensures-if KeepsTable event.rdhup _ _ (λ b. remove_socket-KeepsTable w io event.fd t)
                (λ b. Ensures-bind KeepsTable _ _ (
                  Ensures-map KeepsTable _ _
                    (λ (io1, w1) t1.
                      Ensures-if KeepsTable event.output _ _
                        (λ b. write_socket-KeepsTable w1 io1 event.fd t1) (λ b. Ensures-ret _ _ t1))
                    (Ensures-if KeepsTable event.input _ _
                      (λ b. read_socket-KeepsTable w io event.fd t) (λ b. Ensures-ret _ _ t))))))

  do_events-KeepsTable :
      (w : W) (io : IoThread) (es : List Event)
      → IsTable io
      → Ensures KeepsTable (do_events sys setup w io es)
  unfolding do_events KeepsTable
  do_events-KeepsTable w io [] t = Ensures-ret _ _ t
  do_events-KeepsTable w io (event ∷ es) t = Ensures-bind KeepsTable _ _ (
      Ensures-map KeepsTable _ _ (λ (io', w') t'. do_events-KeepsTable w' io' es t')
        (do_event-KeepsTable w io event t))

  do_message-KeepsTable :
      (w : W) (io : IoThread) (timeout : ℤ)
      → IsTable io
      → Ensures KeepsTable (do_message sys setup w io timeout)
  unfolding do_message KeepsTable
  do_message-KeepsTable w io timeout t =
      let ((number, es), w1) = Poll.wait sys w io.poll setup.poll_event_number timeout in
      Ensures-if KeepsTable (sys.halted w1) _ _ (λ b. Ensures-ret _ _ t)
        (λ b. Ensures-bind KeepsTable _ _ (
          Ensures-map KeepsTable _ _
            (λ (io', w2) t'.
              Ensures-bind KeepsTable (is_empty io'.mq) _
                (Ensures-any _ _ (λ quiet. Ensures-ret _ _ t')))
            (do_events-KeepsTable w1 io es t)))

  -- When each socket in the table stands at its own descriptor and below the size of the table, it
  -- does so whenever the loop of `slam_io_thread_run` ends, whatever the kernel answers.
  pub run-IsTable :
      (fuel : ℕ) (w : W) (io : IoThread) → IsTable io → Ensures KeepsTable (run sys setup fuel w io)
  unfolding run KeepsTable
  run-IsTable zero w io t = Ensures-stuck _
  run-IsTable (suc fuel) w io t =
      Ensures-test KeepsTable (sys.halted w) _ _ (λ b. Ensures-ret _ _ t)
        (λ b. Ensures-bind KeepsTable _ _ (
          Ensures-map KeepsTable _ _ (λ (io', w') t'. run-IsTable fuel w' io' t')
            (do_message-KeepsTable w io slam.Base.minus_one t)))
