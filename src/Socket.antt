-- ===== src/Socket.antt =====
-- src/io/slam_socket.c: reading messages from a socket. `recv` and the limit `max_package_size` of
-- the program's options are arguments.
pub mod Kernel
pub mod Reads
pub mod Framing
pub mod Starts
pub mod Prepare
pub mod Steps
pub mod Advance
pub mod Polling
pub mod Sending
pub mod Fronts
pub mod Sends
pub mod Writes
pub mod Opening
pub mod Descriptor
pub mod Sample
mod Tests
mod WriteTests
use slam.Base.{
  ℕ, zero, suc, ◌+◌, ◌-◌, Bool, true, false, not, Option, none, some, List, [], ◌∷◌, map, Run, ret,
  fault, stuck, ◌>>=◌, ◌>>◌, assert, ltb, leb, ◌==◌, if◌then◌else◌, length, replicate,
}
use slam.Message.{Message, MessageType, package_min_size}
use slam.Message
use slam.Message.Cells.{Cell, store, word}
use slam.MessageQueue.{MessageQueue, push_back}
use Kernel.{Recv, interrupted, given}

pub data SocketType : Type 0 where
  unused : SocketType
  server : SocketType
  client : SocketType
  connection : SocketType

-- `struct slam_socket_s`
pub record Socket : Type 0 where
  pub fd : ℕ
  pub kind : SocketType
  pub readmessage : Option Message
  pub sendmq : MessageQueue Message

-- `slam_socket_write_message`
unfoldable pub write_message : Socket → Message → Run (Bool × Socket)
unfolding push_back
write_message socket message = do
  (pushed, mq) ← push_back socket.sendmq message
  ret (pushed, record socket { sendmq = mq })

module _ {W : Type 0} (recv : W → ℕ → ℕ → Recv × W) where
  -- `slam_socket_read_bytes` from `readbytes` on, into `buf` at `offset`: the number of bytes read,
  -- or `none` for SLAM_ERROR, and the buffer
  unfoldable pub read_bytes : ℕ → W → ℕ → List Cell → ℕ → ℕ → ℕ → Run (Option ℕ × List Cell × W)
  read_bytes zero w fd buf offset bufsize readbytes = stuck
  read_bytes (suc fuel) w fd buf offset bufsize readbytes = elim (ltb readbytes bufsize) [
    | true ↦
        (let (answer, w') = recv w fd (bufsize - readbytes) in
          elim answer [
            | Recv.got b bs ↦
                read_bytes fuel w' fd (store buf (offset + readbytes) (map some (b ∷ bs))) offset
                  bufsize (readbytes + length (b ∷ bs))
            | Recv.closed ↦ ret (none, buf, w')
            | Recv.interrupted ↦ read_bytes fuel w' fd buf offset bufsize readbytes
            | Recv.would_block ↦ ret (some readbytes, buf, w')
            | Recv.failed ↦ ret (none, buf, w')
          ])
    | false ↦ ret (some readbytes, buf, w)
  ]

-- What a round of the loop of `slam_socket_poll_read` does next: go on, or return the value.
pub data Next : Type 0 where
  go_on : Next
  leave : Bool → Next

-- the checks of a length that was read, and the new message that it starts
unfoldable pub start : ℕ → Socket → ℕ → List Cell → Next × Socket
start max_package_size socket readbytes len =
    if readbytes == 0
    then (Next.leave true, socket)
    else if not (readbytes == 4)
    then (Next.leave false, socket)
    else if ltb (word len) package_min_size
    then (Next.leave false, socket)
    else if leb max_package_size (word len)
    then (Next.leave false, socket)
    else (
      Next.go_on,
      let message = Message.new socket.fd MessageType.protobuf_package (word len) in
          record socket {
            readmessage =
                some
                  (record message { buf = store message.buf message.bytesize len; bytesize = 4 });
          },
    )

module _ {W : Type 0} (recv : W → ℕ → ℕ → Recv × W) (max_package_size : ℕ) where
  -- without a message begun, reads the length of one
  unfoldable pub prepare : ℕ → W → Socket → Run (Next × Socket × W)
  unfolding start read_bytes
  prepare size w socket = elim socket.readmessage [
    | some m ↦ ret (Next.go_on, socket, w)
    | none ↦ read_bytes recv size w socket.fd (replicate 4 (some 0)) 0 4 0 >>= λ (r, len, w').
        elim r [
          | none ↦ ret (Next.leave false, socket, w')
          | some readbytes ↦
              (let (next, socket') = start max_package_size socket readbytes len in
                ret (next, socket', w'))
        ]
  ]

  -- hands a complete message to the queue, or reads more of it
  unfoldable pub advance :
      ℕ → W → Socket → MessageQueue Message → Run (Next × Socket × MessageQueue Message × W)
  unfolding push_back read_bytes
  advance size w socket readmq = elim socket.readmessage [
    | none ↦ fault
    | some m ↦ assert (leb m.bytesize m.bufsize) >> elim (m.bytesize == m.bufsize) [
      | true ↦ push_back readmq m >>= λ (pushed, readmq'). ret (
          if pushed
          then (Next.go_on, record socket { readmessage = none }, readmq', w)
          else (Next.leave false, socket, readmq', w))
      | false ↦
          read_bytes recv size w socket.fd m.buf m.bytesize (m.bufsize - m.bytesize) 0
          >>= λ (r, buf, w'). elim r [
            | none ↦ ret (
              Next.leave false,
              record socket { readmessage = some (record m { buf = buf }) },
              readmq,
              w',
            )
            | some readbytes ↦
                if readbytes == 0
                then ret (
                  Next.leave true,
                  record socket { readmessage = some (record m { buf = buf }) },
                  readmq,
                  w',
                )
                else assert (leb (m.bytesize + readbytes) m.bufsize)
                  >> ret (
                    Next.go_on,
                    record socket {
                      readmessage =
                          some (record m { buf = buf; bytesize = m.bytesize + readbytes });
                    },
                    readmq,
                    w',
                  )
          ]
    ]
  ]

  -- the `while` of `slam_socket_poll_read`; `size` is fuel for each `slam_socket_read_bytes`
  unfoldable pub poll_read :
      ℕ → ℕ → W → Socket → MessageQueue Message → Run (Bool × Socket × MessageQueue Message × W)
  unfolding prepare advance
  poll_read zero size w socket readmq = stuck
  poll_read (suc fuel) size w socket readmq = prepare size w socket >>= λ (next, socket1, w1).
      elim next [
        | Next.leave b ↦ ret (b, socket1, readmq, w1)
        | Next.go_on ↦ advance size w1 socket1 readmq >>= λ (next', socket2, readmq2, w2).
            elim next' [
              | Next.leave b ↦ ret (b, socket2, readmq2, w2)
              | Next.go_on ↦ poll_read fuel size w2 socket2 readmq2
            ]
      ]
