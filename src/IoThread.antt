-- ===== src/IoThread.antt =====
-- src/io/slam_io_thread.c: the thread that accepts, reads and writes sockets, as steps on its table
-- of sockets and on the ring of messages for the worker.
pub mod Table
pub mod Interface
pub mod Removal
pub mod Receiving
pub mod Sample
mod Tests
mod ReceivingTests
use slam.Base.{
  ℕ, zero, suc, ◌+◌, ℤ, pos, Bool, true, false, Option, none, some, List, [], ◌∷◌, Run, ret, abort,
  stuck, ◌>>=◌, ◌>>◌, assert, ltb, ◌==◌, if◌then◌else◌,
}
use slam.Message.{Message, MessageType}
use slam.Message
use slam.MessageQueue.{MessageQueue, push_back, is_empty}
use slam.Socket.{Socket, SocketType, poll_read, write_message}
use slam.Socket.Sending.{poll_write}
use slam.Socket.Opening
use slam.System.{System, Event}
use slam.Poll.{Poll}
use slam.Poll

abbrev pub max_socket_number : ℕ
max_socket_number = 65536

-- VALID_SOCKET; a descriptor is no negative number here.
abbrev pub valid_socket : ℕ → Bool
valid_socket fd = ltb fd max_socket_number

-- `struct slam_io_thread_s`, without the handle of the thread
pub record IoThread : Type 0 where
  pub mq : MessageQueue Message
  pub poll : Poll
  pub sockets : ℕ → Option Socket

-- The fields of `slam_main_s` that the thread reads, and the fuel of the loops that wait for the
-- kernel.
pub record Setup : Type 0 where
  pub poll_event_number : ℕ
  pub max_package_size : ℕ
  pub socket_send_queue_size : ℕ
  pub fd_io : ℕ
  pub fd_worker : ℕ
  pub worker_poll : Poll
  pub accepts : ℕ
  pub rounds : ℕ
  pub reads : ℕ
  pub writes : ℕ

-- `io->sockets[fd] = entry`
abbrev pub set_socket : IoThread → ℕ → Option Socket → IoThread
set_socket io fd entry = record io { sockets = λ k. if k == fd then entry else io.sockets k }

abbrev pub is_server : SocketType → Bool
is_server SocketType.server = true
is_server _ = false

-- A message without a body goes to the worker, or is dropped when the ring is full.
-- `slam_io_thread_establish_connection_event`
unfoldable pub establish_connection_event : IoThread → ℕ → Run (Bool × IoThread)
unfolding push_back
establish_connection_event io fd = do
  (pushed, mq) ← push_back io.mq (Message.new fd MessageType.establish_connection 0)
  ret (pushed, record io { mq = mq })

-- `slam_io_thread_lost_connection_event`
unfoldable pub lost_connection_event : IoThread → ℕ → Run (Bool × IoThread)
unfolding push_back
lost_connection_event io fd = do
  (pushed, mq) ← push_back io.mq (Message.new fd MessageType.lost_connection 0)
  ret (pushed, record io { mq = mq })

module _ {W A : Type 0} (sys : System W A) (setup : Setup) where
  -- `slam_io_thread_add_socket`
  unfoldable pub add_socket : W → IoThread → Socket → Run (Bool × IoThread × W)
  unfolding Poll.add_socket
  add_socket w io newsocket = assert (valid_socket newsocket.fd) >> elim (io.sockets newsocket.fd) [
    | some old ↦ abort
    | none ↦
        (let (added, w') = Poll.add_socket sys w io.poll newsocket.fd in
          if added
          then ret (true, set_socket io newsocket.fd (some newsocket), w')
          else ret (false, io, w'))
  ]

  -- `slam_io_thread_remove_socket`
  unfoldable pub remove_socket : W → IoThread → ℕ → Run (IoThread × W)
  unfolding Poll.remove_socket Opening.delete lost_connection_event
  remove_socket w io fd = assert (valid_socket fd) >> elim (io.sockets fd) [
    | none ↦ ret (io, w)
    | some socket ↦
        (let (removed, w1) = Poll.remove_socket sys w io.poll fd in
          Opening.delete sys w1 socket >>= λ w2.
          lost_connection_event (set_socket io fd none) fd >>= λ (told, io'). ret (io', w2))
  ]

  -- `slam_io_thread_accept_socket`
  unfoldable pub accept_socket : ℕ → W → IoThread → Socket → Run (IoThread × W)
  unfolding Opening.accept Opening.delete add_socket establish_connection_event
  accept_socket zero w io socket = stuck
  accept_socket (suc fuel) w io socket =
      assert (is_server socket.kind)
      >> (Opening.accept sys setup.accepts setup.socket_send_queue_size w socket
          >>= λ (accepted, w1). elim accepted [
            | none ↦ ret (io, w1)
            | some newsocket ↦ add_socket w1 io newsocket >>= λ (added, io1, w2). elim added [
              | false ↦ Opening.delete sys w2 newsocket >>= λ w3. accept_socket fuel w3 io1 socket
              | true ↦ establish_connection_event io1 newsocket.fd >>= λ (told, io2).
                  accept_socket fuel w2 io2 socket
            ]
          ])

  -- `slam_io_thread_read_socket`
  unfoldable pub read_socket : W → IoThread → ℕ → Run (IoThread × W)
  read_socket w io fd = assert (valid_socket fd) >> elim (io.sockets fd) [
    | none ↦ ret (io, w)
    | some socket ↦
        if is_server socket.kind
        then accept_socket setup.accepts w io socket
        else poll_read sys.recv setup.max_package_size setup.rounds setup.reads w socket io.mq
          >>= λ (alive, socket', mq', w').
              let io' = set_socket (record io { mq = mq' }) fd (some socket') in
              if alive then ret (io', w') else remove_socket w' io' fd
  ]

  -- `slam_io_thread_write_socket`
  unfoldable pub write_socket : W → IoThread → ℕ → Run (IoThread × W)
  unfolding poll_write remove_socket
  write_socket w io fd = assert (valid_socket fd) >> elim (io.sockets fd) [
    | none ↦ ret (io, w)
    | some socket ↦
        if is_server socket.kind
        then abort
        else poll_write sys.send setup.writes w socket >>= λ (alive, socket', w').
            let io' = set_socket io fd (some socket') in
            if alive then ret (io', w') else remove_socket w' io' fd
  ]

  -- the body of the `for` of `slam_io_thread_do_message`
  unfoldable pub do_event : W → IoThread → Event → Run (IoThread × W)
  unfolding remove_socket read_socket write_socket
  do_event w io event =
      if event.err
      then remove_socket w io event.fd
      else if event.hup
      then remove_socket w io event.fd
      else if event.rdhup
      then remove_socket w io event.fd
      else (if event.input then read_socket w io event.fd else ret (io, w)) >>= λ (io1, w1).
          (if event.output then write_socket w1 io1 event.fd else ret (io1, w1))

  -- the `for` of `slam_io_thread_do_message`
  unfoldable pub do_events : W → IoThread → List Event → Run (IoThread × W)
  unfolding do_event
  do_events w io [] = ret (io, w)
  do_events w io (event ∷ es) = do_event w io event >>= λ (io', w'). do_events w' io' es

  -- `slam_runnable_wakeup` of src/slam_runnable.c
  unfoldable pub wakeup_worker : W → W
  unfolding Poll.set_socket_pollout
  wakeup_worker w = (Poll.set_socket_pollout sys w setup.worker_poll setup.fd_worker true).1

  -- `slam_io_thread_do_message`
  unfoldable pub do_message : W → IoThread → ℤ → Run (IoThread × W)
  unfolding do_events Poll.wait is_empty wakeup_worker
  do_message w io timeout =
      let ((number, es), w1) = Poll.wait sys w io.poll setup.poll_event_number timeout in
      if sys.halted w1
      then ret (io, w1)
      else do_events w1 io es >>= λ (io', w2).
          is_empty io'.mq >>= λ quiet. ret (io', if quiet then w2 else wakeup_worker w2)

  -- the loop of `slam_io_thread_run`
  unfoldable pub run : ℕ → W → IoThread → Run (IoThread × W)
  unfolding do_message
  run zero w io = stuck
  run (suc fuel) w io = elim (sys.halted w) [
    | true ↦ ret (io, w)
    | false ↦ do_message w io slam.Base.minus_one >>= λ (io', w'). run fuel w' io'
  ]

  -- `slam_io_thread_new`, where `started` says whether `pthread_create` started the thread
  unfoldable pub new : Bool → W → MessageQueue Message → Option IoThread × W
  unfolding Poll.new Poll.add_socket Poll.delete
  new started w mq =
      let (poll, w1) = Poll.new sys w in
      let (added, w2) = Poll.add_socket sys w1 poll setup.fd_io in
      if added
      then (if started
          then (some (record { mq = mq; poll = poll; sockets = λ fd. none }), w2)
          else (none, Poll.delete sys w2 poll))
      else (none, Poll.delete sys w2 poll)

  -- the `for` of `slam_io_thread_delete`, over `n` descriptors from `fd` on
  unfoldable pub delete_sockets : ℕ → ℕ → W → IoThread → Run W
  unfolding Opening.delete
  delete_sockets zero fd w io = ret w
  delete_sockets (suc n) fd w io = elim (io.sockets fd) [
    | none ↦ delete_sockets n (fd + 1) w io
    | some socket ↦ Opening.delete sys w socket >>= λ w'. delete_sockets n (fd + 1) w' io
  ]

  -- `slam_io_wakeup`
  unfoldable pub wakeup : W → IoThread → W
  unfolding Poll.set_socket_pollout
  wakeup w io = (Poll.set_socket_pollout sys w io.poll setup.fd_io true).1

  -- `slam_io_thread_delete`, where `joined` is what the world is when the thread has ended
  unfoldable pub delete : (W → W) → W → IoThread → Run W
  unfolding delete_sockets wakeup Poll.delete
  delete joined w io = do
    w' ← delete_sockets max_socket_number 0 (Poll.delete sys (joined (wakeup w io)) io.poll) io
    ret (sys.close w' setup.fd_io)
