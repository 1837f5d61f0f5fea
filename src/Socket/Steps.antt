-- ===== src/Socket/Steps.antt =====
-- The second half of a round of `slam_socket_poll_read` of src/io/slam_socket.c, for each way it can
-- go, and what it leaves.
use slam.Base.{
  if◌then◌else◌, ℕ, ◌+◌, ◌-◌, ◌*◌, ◌≤◌, ◌<◌, ◌≡◌, ◌⊎◌, Bool, true, false, none, some, List, ◌++◌,
  map, ret, length, arith,
}
use slam.Message.{Message}
use slam.Message.Cells.{Cell}
use slam.MessageQueue.{MessageQueue, push_back}
use slam.MessageQueue.Bounds.{Holds}
use slam.Socket.Kernel.{Recv, IsStream}
use slam.Socket.Framing.{frame, AllFrames, join, Reading, Ending}
use slam.Socket.{Socket, Next, read_bytes, advance}

module _ {W : Type 0} (recv : W → ℕ → ℕ → Recv × W) (max_package_size : ℕ) where
  -- What the loop does next, with the bytes of a message that it keeps.
  abbrev pub GoesOn : Next → Socket → ℕ → ℕ → List ℕ → W → Type 0 → Type 0
  GoesOn next socket maxsize held left w Less =
      ((next ≡ Next.go_on) × Reading max_package_size socket left × Less)
      ⊎ ((b : Bool) × (next ≡ Next.leave b)
          × Ending recv max_package_size socket maxsize held left w b)

  -- From a queue of the messages `xs` and the bytes `pending`: the messages `fs` are handed on, and
  -- the bytes `left` are kept.
  pub record Advanced (stream : IsStream recv) (fd : ℕ) (readmq : MessageQueue Message)
      (xs : List Message) (w : W) (pending : List ℕ) (next : Next) (socket' : Socket)
      (readmq' : MessageQueue Message) (fs : List (List ℕ)) (left : List ℕ) (w' : W) : Type 0 where
    pub same_fd : socket'.fd ≡ fd
    pub same_size : readmq'.maxsize ≡ readmq.maxsize
    pub conserves : pending ++ stream.incoming w fd ≡ join fs ++ (left ++ stream.incoming w' fd)
    pub patience : stream.signals w' ≤ stream.signals w
    pub frames : AllFrames max_package_size fs
    pub holds : Holds readmq' (xs ++ map (frame fd) fs)
    pub goes : GoesOn next socket' readmq.maxsize (length (xs ++ map (frame fd) fs)) left w' (
        2 * length (stream.incoming w' fd) + length left
        < 2 * length (stream.incoming w fd) + length pending)

  abbrev pub Advances :
      IsStream recv → ℕ → W → Socket → MessageQueue Message → List Message → List ℕ → Type 0
  Advances stream size w socket readmq xs pending =
      (next : Next) × (socket' : Socket) × (readmq' : MessageQueue Message) × (fs : List (List ℕ))
      × (left : List ℕ) × (w' : W) × (advance recv max_package_size size w socket readmq
          ≡ ret (next, socket', readmq', w'))
      × Advanced stream socket.fd readmq xs w pending next socket' readmq' fs left w'

  pub complete :
      (size : ℕ) (w : W) (socket : Socket) (readmq : MessageQueue Message) (m : Message)
      (pushed : Bool) (readmq' : MessageQueue Message)
      → socket.readmessage ≡ some m
      → m.bytesize ≡ m.bufsize
      → push_back readmq m ≡ ret (pushed, readmq')
      → advance recv max_package_size size w socket readmq
        ≡ ret (
            if pushed
            then (Next.go_on, record socket { readmessage = none }, readmq', w)
            else (Next.leave false, socket, readmq', w))
  unfolding advance
  complete size w socket readmq m pushed readmq' e full ran = ground (arith, e, full, ran)

  pub incomplete_lost :
      (size : ℕ) (w : W) (socket : Socket) (readmq : MessageQueue Message) (m : Message)
      (buf : List Cell) (w' : W)
      → socket.readmessage ≡ some m
      → m.bytesize < m.bufsize
      → read_bytes recv size w socket.fd m.buf m.bytesize (m.bufsize - m.bytesize) 0
        ≡ ret (none, buf, w')
      → advance recv max_package_size size w socket readmq
        ≡ ret (
          Next.leave false,
          record socket { readmessage = some (record m { buf = buf }) },
          readmq,
          w',
        )
  unfolding advance
  incomplete_lost size w socket readmq m buf w' e more ran = ground (arith, e, ran)

  pub incomplete_none :
      (size : ℕ) (w : W) (socket : Socket) (readmq : MessageQueue Message) (m : Message)
      (buf : List Cell) (w' : W)
      → socket.readmessage ≡ some m
      → m.bytesize < m.bufsize
      → read_bytes recv size w socket.fd m.buf m.bytesize (m.bufsize - m.bytesize) 0
        ≡ ret (some 0, buf, w')
      → advance recv max_package_size size w socket readmq
        ≡ ret (
          Next.leave true,
          record socket { readmessage = some (record m { buf = buf }) },
          readmq,
          w',
        )
  unfolding advance
  incomplete_none size w socket readmq m buf w' e more ran = ground (arith, e, ran)

  pub incomplete_some :
      (size : ℕ) (w : W) (socket : Socket) (readmq : MessageQueue Message) (m : Message) (n : ℕ)
      (buf : List Cell) (w' : W)
      → socket.readmessage ≡ some m
      → m.bytesize < m.bufsize
      → read_bytes recv size w socket.fd m.buf m.bytesize (m.bufsize - m.bytesize) 0
        ≡ ret (some n, buf, w')
      → 0 < n
      → m.bytesize + n ≤ m.bufsize
      → advance recv max_package_size size w socket readmq
        ≡ ret (
          Next.go_on,
          record socket { readmessage = some (record m { buf = buf; bytesize = m.bytesize + n }) },
          readmq,
          w',
        )
  unfolding advance
  incomplete_some size w socket readmq m n buf w' e more ran some_read fits = ground (arith, e, ran)
