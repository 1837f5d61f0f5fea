-- ===== src/IoThread/Removal.antt =====
-- What src/io/slam_io_thread.c tells the worker: the messages without a body, and the removal and the
-- answer of a socket.
use slam.Base.{
  ℕ, suc, ◌+◌, ◌-◌, ◌<◌, ◌≡◌, refl, true, false, none, some, List, length, ret, ltb, ◌==◌,
  if◌then◌else◌, arith, dec_lt,
}
use slam.Message.{Message, MessageType}
use slam.Message
use slam.MessageQueue.{MessageQueue, push_back}
use slam.MessageQueue.Fifo
use slam.MessageQueue.Bounds.{Holds}
use slam.MessageQueue.Refine.{written, written-Holds, push_full, push_room}
use slam.MessageQueue.Drain.{delete_lem}
use slam.Socket.{Socket, write_message}
use slam.Socket.Opening
use slam.System.{System}
use slam.Poll
use slam.IoThread.{IoThread, Setup, set_socket, lost_connection_event, remove_socket}
use slam.IoThread.Interface.{response}

-- the messages in a ring of `maxsize` positions after one more is offered
abbrev pub offered : ℕ → List Message → Message → List Message
offered maxsize xs x = (Fifo.push (maxsize - 1) xs x).1

pub offer :
    (mq : MessageQueue Message) (xs : List Message) (x : Message)
    → Holds mq xs
    → (mq' : MessageQueue Message) × (push_back mq x
        ≡ ret ((Fifo.push (mq.maxsize - 1) xs x).0, mq'))
      × Holds mq' (offered mq.maxsize xs x)
      × (mq'.maxsize ≡ mq.maxsize)
offer mq xs x v = elim (dec_lt (suc (length xs)) mq.maxsize) [
  | yes room ↦ (
    written mq x,
    rw (push_room mq xs x v room, Fifo.push_room mq.maxsize xs x room) refl,
    rw (offered, Fifo.push_room mq.maxsize xs x room) (written-Holds mq xs x v room),
    refl,
  )
  | no full ↦ (
    mq,
    rw
        (
          push_full mq xs x v (omega (arith, v.fits)),
          Fifo.push_full mq.maxsize xs x (omega (arith, v.fits)),
        )
        refl,
    rw (offered, Fifo.push_full mq.maxsize xs x (omega (arith, v.fits))) v,
    refl,
  )
]

module _ {W A : Type 0} (sys : System W A) (setup : Setup) where
  -- Where a socket stands at a valid descriptor and the messages that it has not sent lie below the end
  -- of its ring in one piece, removing it returns. The table has no socket there any more and is
  -- otherwise as it was, the descriptor is out of the poll and closed, and the worker is offered a
  -- message of the lost connection behind those that the ring holds, which is dropped if the ring is
  -- full.
  pub remove_socket_lem :
      (w : W) (io : IoThread) (fd : ℕ) (s : Socket) (ys xs : List Message)
      → fd < 65536
      → io.sockets fd ≡ some s
      → Holds s.sendmq ys
      → s.sendmq.rindex + length ys < s.sendmq.maxsize
      → Holds io.mq xs
      → (io' : IoThread) × (remove_socket sys setup w io fd
          ≡ ret (io', sys.close (sys.epoll_del w io.poll.epfd fd).1 s.fd))
        × (io'.sockets ≡ (λ k. if k == fd then none else io.sockets k))
        × Holds io'.mq (offered io.mq.maxsize xs (Message.new fd MessageType.lost_connection 0))
  unfolding remove_socket Poll.remove_socket Opening.delete lost_connection_event
  remove_socket_lem w io fd s ys xs below there unsent piece v =
      let (mq', pushes, holds, same) =
        offer io.mq xs (Message.new fd MessageType.lost_connection 0) v in
      (
        record (set_socket io fd none) { mq = mq' },
        ground (arith, there, delete_lem s.sendmq ys unsent, pushes),
        refl,
        holds,
      )

  -- A message for a valid descriptor with a socket goes behind those that the socket has not sent yet,
  -- with its count of sent bytes at 0, and the descriptor is watched for output; the result is the one
  -- of that. If the ring of the socket is full, the result is false, nothing is watched and nothing
  -- changes in the ring.
  pub response_lem :
      (w : W) (io : IoThread) (m : Message) (s : Socket) (ys : List Message)
      → m.fd < 65536
      → io.sockets m.fd ≡ some s
      → Holds s.sendmq ys
      → (mq' : MessageQueue Message) × Holds mq'
          (offered s.sendmq.maxsize ys (record m { bytesize = 0 }))
        × (response sys setup w io m ≡ (
            let (watched, w') =
              sys.epoll_mod w io.poll.epfd m.fd
                (record { edge = true; input = true; output = true; err = true }) in
            let io' = set_socket io m.fd (some (record s { sendmq = mq' })) in
            if ltb (length ys) (s.sendmq.maxsize - 1)
            then ret (watched, io', w')
            else ret (false, io', w)))
  unfolding response write_message Poll.set_socket_pollout Fifo.push
  response_lem w io m s ys below there v =
      let (mq', pushes, holds, same) = offer s.sendmq ys (record m { bytesize = 0 }) v in
      (mq', holds, ground (arith, there, pushes))
