-- ===== src/Socket/Opening.antt =====
-- Making, opening, accepting and deleting the sockets of src/io/slam_socket.c.
use slam.Base.{
  ℕ, zero, suc, ℤ, Bool, true, false, Option, none, some, Run, ret, abort, stuck, ◌>>=◌, ◌>>◌,
  assert, if◌then◌else◌,
}
use slam.MessageQueue
use slam.Socket.{Socket, SocketType}
use slam.System.{System, Accept}

abbrev pub is_unused : SocketType → Bool
is_unused SocketType.unused = true
is_unused _ = false

-- `slam_socket_newfd`, with `socket_send_queue_size` of the program's options
unfoldable pub newfd : ℕ → ℕ → SocketType → Run Socket
newfd send_queue_size connfd kind = do
  sendmq ← MessageQueue.new send_queue_size
  ret (record { fd = connfd; kind = kind; readmessage = none; sendmq = sendmq })

module _ {W A : Type 0} (sys : System W A) where
  -- `slam_socket_new`; `none` is the null pointer.
  unfoldable pub new : ℕ → W → Run (Option Socket × W)
  unfolding newfd
  new send_queue_size w =
      let (opened, w') = sys.open_socket w in
      elim opened [
        | none ↦ ret (none, w')
        | some fd ↦ newfd send_queue_size fd SocketType.unused >>= λ s. ret (some s, w')
      ]

  -- `slam_socket_delete`; the messages that it frees have no other part.
  unfoldable pub delete : W → Socket → Run W
  delete w socket =
      let w' = sys.close w socket.fd in MessageQueue.delete socket.sendmq >>= λ freed. ret w'

  -- `slam_socket_bind`
  unfoldable pub bind : W → Option Socket → A → ℤ → Run (Bool × Socket × W)
  bind w none address port = abort
  bind w (some s) address port =
      let (reused, w1) = sys.reuse_port w s.fd in
      let (nonblocking, w2) = sys.set_nonblocking w1 s.fd in
      let (bound, w3) = sys.bind w2 s.fd address port in
      let (listening, w4) = sys.listen w3 s.fd in
      if reused
      then (if nonblocking
          then (if bound
              then (if listening
                  then assert (is_unused s.kind)
                    >> ret (true, record s { kind = SocketType.server }, w4)
                  else ret (false, s, w4))
              else ret (false, s, w3))
          else ret (false, s, w2))
      else ret (false, s, w1)

  -- `slam_socket_connect`
  unfoldable pub connect : W → Option Socket → A → ℤ → ℕ → Run (Bool × Socket × W)
  connect w none address port timeout = abort
  connect w (some s) address port timeout =
      let w1 = sys.alarm (sys.catch_alarm w) timeout in
      let (blocking, w2) = sys.set_blocking w1 s.fd in
      let (connected, w3) = sys.connect w2 s.fd address port in
      let (nonblocking, w4) = sys.set_nonblocking w3 s.fd in
      let w5 = sys.restore_alarm (sys.alarm w4 0) in
      if connected
      then assert (is_unused s.kind) >> ret (true, record s { kind = SocketType.client }, w5)
      else ret (false, s, w5)

  -- `slam_socket_accept`; `none` is the null pointer, for no more connection or an error.
  unfoldable pub accept : ℕ → ℕ → W → Socket → Run (Option Socket × W)
  unfolding newfd
  accept zero send_queue_size w socket = stuck
  accept (suc fuel) send_queue_size w socket =
      let (answer, w1) = sys.accept w socket.fd in
      elim answer [
        | Accept.got connfd ↦
            (let (nonblocking, w2) = sys.set_nonblocking w1 connfd in
              elim nonblocking [
                | true ↦
                    newfd send_queue_size connfd SocketType.connection >>= λ s. ret (some s, w2)
                | false ↦ accept fuel send_queue_size (sys.close w2 connfd) socket
              ])
        | Accept.interrupted ↦ accept fuel send_queue_size w1 socket
        | Accept.would_block ↦ ret (none, w1)
        | Accept.failed ↦ ret (none, w1)
      ]
