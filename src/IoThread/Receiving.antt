-- ===== src/IoThread/Receiving.antt =====
-- What a readable connection of src/io/slam_io_thread.c gives the worker: the messages of its stream, and
-- word of the end of the connection.
use slam.Base.{
  ℕ, ◌+◌, ◌*◌, ◌<◌, ◌≡◌, refl, sym, ◌∙◌, ap, subst, Bool, true, false, none, some, List, ◌++◌, map,
  length, ret, ◌==◌, if◌then◌else◌, arith, Ensures-at, if-if,
}
use slam.Message.{Message, MessageType}
use slam.Message
use slam.MessageQueue.{MessageQueue}
use slam.MessageQueue.Bounds.{Holds}
use slam.Socket.{Socket, poll_read}
use slam.Socket.Kernel.{IsStream}
use slam.Socket.Framing.{frame, Reading}
use slam.Socket.Polling.{Polled, poll_read_lem}
use slam.Socket.Descriptor.{rest, ReadsRest, poll_read_keeps_rest}
use slam.System.{System}
use slam.IoThread.{IoThread, Setup, set_socket, is_server, read_socket, remove_socket}
use slam.IoThread.Removal.{offered, remove_socket_lem}

module _ {W A : Type 0} (sys : System W A) (setup : Setup) where
  -- the thread once a connection was read
  abbrev pub after_read : IoThread → ℕ → Socket → MessageQueue Message → IoThread
  after_read io fd socket mq = set_socket (record io { mq = mq }) fd (some socket)

  read_runs :
      (w : W) (io : IoThread) (fd : ℕ) (socket : Socket) (b : Bool) (socket' : Socket)
      (mq' : MessageQueue Message) (w' : W)
      → fd < 65536
      → io.sockets fd ≡ some socket
      → is_server socket.kind ≡ false
      → poll_read sys.recv setup.max_package_size setup.rounds setup.reads w socket io.mq
        ≡ ret (b, socket', mq', w')
      → read_socket sys setup w io fd ≡ (
          if b
          then ret (after_read io fd socket' mq', w')
          else remove_socket sys setup w' (after_read io fd socket' mq') fd)
  unfolding read_socket
  read_runs w io fd socket b socket' mq' w' below there no_server ran =
      ground (arith, there, no_server, ran)

  -- What the worker is told of a connection: the messages handed on, and its end if it has ended.
  abbrev pub told : Bool → ℕ → List Message → ℕ → List Message
  told true maxsize xs fd = xs
  told false maxsize xs fd = offered maxsize xs (Message.new fd MessageType.lost_connection 0)

  -- The thread reads a connection up to a point in its stream, and what it keeps, tells the worker and
  -- does to the world.
  pub record Received (stream : IsStream sys.recv) (w : W) (io : IoThread) (fd : ℕ)
      (socket : Socket) (xs : List Message) (pending : List ℕ) : Type 0 where
    pub alive : Bool
    pub socket' : Socket
    pub mq' : MessageQueue Message
    pub fs : List (List ℕ)
    pub left : List ℕ
    pub w' : W
    pub io' : IoThread
    pub polled :
        Polled sys.recv setup.max_package_size stream fd io.mq xs w pending alive socket' mq' fs
          left w'
    pub kept : rest socket' ≡ rest socket
    pub ran :
        read_socket sys setup w io fd
        ≡ ret (io', if alive then w' else sys.close (sys.epoll_del w' io.poll.epfd fd).1 fd)
    pub table :
        (k : ℕ)
        → io'.sockets k ≡ (if k == fd then (if alive then some socket' else none) else io.sockets k)
    pub hands_on : Holds io'.mq (told alive mq'.maxsize (xs ++ map (frame fd) fs) fd)

  -- the rest of the thread's work, once the connection was read
  settles :
      (stream : IsStream sys.recv) (w : W) (io : IoThread) (fd : ℕ) (socket : Socket)
      (ys xs : List Message) (pending : List ℕ) (b : Bool) (socket' : Socket)
      (mq' : MessageQueue Message) (fs : List (List ℕ)) (left : List ℕ) (w' : W)
      → fd < 65536
      → socket.fd ≡ fd
      → Holds socket.sendmq ys
      → socket.sendmq.rindex + length ys < socket.sendmq.maxsize
      → rest socket' ≡ rest socket
      → Polled sys.recv setup.max_package_size stream fd io.mq xs w pending b socket' mq' fs left w'
      → read_socket sys setup w io fd ≡ (
          if b
          then ret (after_read io fd socket' mq', w')
          else remove_socket sys setup w' (after_read io fd socket' mq') fd)
      → Received stream w io fd socket xs pending
  settles stream w io fd socket ys xs pending true socket' mq' fs left w' below same unsent piece
        kept p ran =
      record {
        alive = true;
        socket' = socket';
        mq' = mq';
        fs = fs;
        left = left;
        w' = w';
        io' = after_read io fd socket' mq';
        polled = p;
        kept = kept;
        ran = ran;
        table = λ k. refl;
        hands_on = p.holds;
      }
  settles stream w io fd socket ys xs pending false socket' mq' fs left w' below same unsent piece
        kept p ran =
      let unsent' : Holds socket'.sendmq ys = subst (λ s. Holds s.sendmq ys) (sym kept) unsent in
      let (io2, removed, gone, holds) =
        remove_socket_lem sys setup w' (after_read io fd socket' mq') fd socket' ys
          (xs ++ map (frame fd) fs) below (ground arith) unsent'
          (omega (arith, piece, ap (λ s. s.sendmq.rindex) kept, ap (λ s. s.sendmq.maxsize) kept))
          p.holds in
      record {
        alive = false;
        socket' = socket';
        mq' = mq';
        fs = fs;
        left = left;
        w' = w';
        io' = io2;
        polled = p;
        kept = kept;
        ran =
            ran
            ∙ removed
            ∙ ap (λ n. ret (io2, sys.close (sys.epoll_del w' io.poll.epfd fd).1 n))
                (ap (λ s. s.fd) kept ∙ same);
        table = λ k. ap (λ t. t k) gone ∙ if-if (k == fd) none (some socket') (io.sockets k);
        hands_on = holds;
      }

  -- For a recv that gives the bytes of a stream, with fuel as poll_read_lem asks for it, and where what the
  -- connection has not sent lies in one piece: reading the connection returns, and hands the messages of
  -- the stream to the worker; the connection stays in the table if it goes on, and otherwise is taken out
  -- of it, out of the poll and closed, and the worker is told.
  pub read_socket_lem :
      (stream : IsStream sys.recv) (w : W) (io : IoThread) (fd : ℕ) (socket : Socket)
      (ys xs : List Message) (pending : List ℕ)
      → fd < 65536
      → io.sockets fd ≡ some socket
      → is_server socket.kind ≡ false
      → socket.fd ≡ fd
      → Reading setup.max_package_size socket pending
      → Holds socket.sendmq ys
      → socket.sendmq.rindex + length ys < socket.sendmq.maxsize
      → Holds io.mq xs
      → 2 * length (stream.incoming w fd) + length pending < setup.rounds
      → setup.max_package_size + stream.signals w + 4 < setup.reads
      → Received stream w io fd socket xs pending
  unfolding ReadsRest
  read_socket_lem stream w io fd socket ys xs pending below there no_server same reading unsent
        piece v rounds reads =
      let (b, socket', mq', fs, left, w', ran, p) =
        poll_read_lem sys.recv setup.max_package_size stream setup.rounds setup.reads fd w socket
          io.mq xs pending same reading v rounds reads in
      let kept : rest socket' ≡ rest socket =
        Ensures-at (ReadsRest sys.recv setup.max_package_size (rest socket)) _ _ ran (
          poll_read_keeps_rest sys.recv setup.max_package_size setup.rounds setup.reads
            (rest socket) w socket io.mq refl) in
      settles stream w io fd socket ys xs pending b socket' mq' fs left w' below same unsent piece
        kept p (read_runs w io fd socket b socket' mq' w' below there no_server ran)
