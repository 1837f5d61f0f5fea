-- ===== src/Socket/WriteTests.antt =====
-- Sending to a kernel that takes at most two bytes at a time, and the theorem at a concrete input.
use slam.Base.{
  ℕ, ◌≡◌, refl, min, none, some, true, List, [], ◌∷◌, ◌++◌, length, take, arith, Bool, Option, Run,
  ret, abort, fault, stuck,
}
use slam.Message.{Message, MessageType}
use slam.Message.Cells.{Cell}
use slam.MessageQueue.{MessageQueue}
use slam.MessageQueue.Bounds.{Holds}
use slam.Socket.Sending.{Send, IsSink, poll_write}
use slam.Socket.Fronts.{HasLeft}
use slam.Socket.Sends.{Writes}
use slam.Socket.Writes.{poll_write_lem}
use slam.Socket.{Socket, SocketType}

abbrev send : List Cell → ℕ → List Cell → Send × List Cell
send w fd cs = (Send.took (min 2 (length cs)), w ++ take (min 2 (length cs)) cs)

abbrev send-IsSink : IsSink send
send-IsSink = record {
  outgoing = λ w fd. w;
  signals = λ w. 0;
  fits = λ w fd cs. omega arith;
  conserves = λ w fd cs. refl;
  patience = λ w fd cs. omega arith;
}

-- one byte sent, and three left
abbrev half_sent : Message
half_sent = record {
  fd = 7;
  kind = MessageType.protobuf_package;
  bufsize = 4;
  bytesize = 1;
  buf = some 9 ∷ some 8 ∷ some 7 ∷ some 6 ∷ [];
}

half_sent-HasLeft : HasLeft half_sent (8 ∷ 7 ∷ 6 ∷ [])
half_sent-HasLeft = record {
  small = omega arith;
  sizes = refl;
  some_left = omega arith;
  left = refl;
}

abbrev one_queued : MessageQueue Message
one_queued = record {
  queue = some half_sent ∷ none ∷ none ∷ [];
  maxsize = 3;
  rindex = 0;
  windex = 1;
  read_number = 0;
  write_number = 1;
}

one_queued-Holds : Holds one_queued (half_sent ∷ [])
one_queued-Holds = record {
  storage = refl;
  small = omega arith;
  reads_in = omega arith;
  writes_in = omega arith;
  fits = omega arith;
  ahead = refl;
  reads = refl;
  writes = refl;
  slots = (refl, tt);
}

abbrev busy_socket : Socket
busy_socket = record {
  fd = 7;
  kind = SocketType.connection;
  readmessage = none;
  sendmq = one_queued;
}

poll_write_lem_example : Writes send send-IsSink 9 7 [] busy_socket ((8 ∷ 7 ∷ 6 ∷ []) ∷ [])
poll_write_lem_example =
    poll_write_lem send send-IsSink 9 7 [] busy_socket (half_sent ∷ []) ((8 ∷ 7 ∷ 6 ∷ []) ∷ []) refl
      one_queued-Holds (half_sent-HasLeft, tt) (omega arith) (omega arith)

abbrev number_sent : Run (Bool × Socket × List Cell) → Option (Bool × ℕ × List Cell)
number_sent (ret (b, s, w)) = some (b, s.sendmq.read_number, w)
number_sent abort = none
number_sent fault = none
number_sent stuck = none

-- All that was left is sent.
poll_write_run :
    number_sent (poll_write send 9 [] busy_socket) ≡ some (true, 1, some 8 ∷ some 7 ∷ some 6 ∷ [])
unfolding poll_write
poll_write_run = refl
