-- ===== src/Socket/Sending.antt =====
-- `slam_socket_poll_write` of src/io/slam_socket.c. `send` is an argument: what it answers, and what
-- its manual says of that.
use slam.Base.{
  ℕ, zero, suc, ◌+◌, ◌-◌, ◌≤◌, ◌≡◌, Bool, true, false, none, some, List, ◌++◌, Run, ret, fault,
  stuck, ◌>>=◌, ◌>>◌, assert, ltb, leb, ◌==◌, if◌then◌else◌, u64, length, take, drop, set,
}
use slam.Message.{Message}
use slam.Message.Cells.{Cell}
use slam.MessageQueue.{MessageQueue, is_empty, front, pop_front}
use slam.Socket.{Socket}

pub data Send : Type 0 where
  -- the number of bytes taken
  took : ℕ → Send
  -- -1 with EINTR
  interrupted : Send
  -- -1 with EAGAIN or EWOULDBLOCK
  would_block : Send
  -- -1 with another error
  failed : Send

abbrev pub taken : Send → ℕ
taken (Send.took n) = n
taken Send.interrupted = 0
taken Send.would_block = 0
taken Send.failed = 0

abbrev pub interruptions : Send → ℕ
interruptions (Send.took n) = 0
interruptions Send.interrupted = 1
interruptions Send.would_block = 0
interruptions Send.failed = 0

-- `send` on a stream socket: it takes bytes from the front of those it is given, and signals interrupt
-- it a finite number of times.
pub record IsSink {W : Type 0} (send : W → ℕ → List Cell → Send × W) : Type 0 where
  -- the bytes that `send` has taken so far
  pub outgoing : W → ℕ → List Cell
  -- the interruptions still to come
  pub signals : W → ℕ
  pub fits : (w : W) (fd : ℕ) (cs : List Cell) → taken (send w fd cs).0 ≤ length cs
  pub conserves :
      (w : W) (fd : ℕ) (cs : List Cell)
      → outgoing (send w fd cs).1 fd ≡ outgoing w fd ++ take (taken (send w fd cs).0) cs
  pub patience :
      (w : W) (fd : ℕ) (cs : List Cell)
      → interruptions (send w fd cs).0 + signals (send w fd cs).1 ≤ signals w

-- The message at the front of the queue is the one that the code changes.
abbrev pub change_front : MessageQueue Message → Message → MessageQueue Message
change_front mq m = record mq { queue = set mq.queue mq.rindex (some m) }

-- `len` bytes of the message at the front have been sent
unfoldable pub count_sent : MessageQueue Message → Message → ℕ → Run (MessageQueue Message)
unfolding pop_front
count_sent mq m len =
    let m' = record m { bytesize = u64 (m.bytesize + len) } in
    assert (leb m'.bytesize m'.bufsize)
    >> (if m'.bytesize == m'.bufsize
        then (pop_front (change_front mq m') >>= λ (popped, mq'). ret mq')
        else ret (change_front mq m'))

module _ {W : Type 0} (send : W → ℕ → List Cell → Send × W) where
  -- the bytes that are offered to `send`
  abbrev pub unsent : Message → List Cell
  unsent m = take (m.bufsize - m.bytesize) (drop m.bytesize m.buf)

  unfoldable pub poll_write : ℕ → W → Socket → Run (Bool × Socket × W)
  unfolding is_empty front count_sent
  poll_write zero w socket = stuck
  poll_write (suc fuel) w socket = is_empty socket.sendmq >>= λ done. elim done [
    | true ↦ ret (true, socket, w)
    | false ↦ front socket.sendmq >>= λ first. elim first [
      | none ↦ fault
      | some m ↦
          assert (ltb m.bytesize m.bufsize)
          >> (let (answer, w') = send w socket.fd (unsent m) in
              elim answer [
                | Send.took len ↦ elim (len == 0) [
                  | true ↦ ret (false, socket, w')
                  | false ↦ count_sent socket.sendmq m len >>= λ mq.
                      poll_write fuel w' (record socket { sendmq = mq })
                ]
                | Send.interrupted ↦ poll_write fuel w' socket
                | Send.would_block ↦ ret (true, socket, w')
                | Send.failed ↦ ret (false, socket, w')
              ])
    ]
  ]
