-- ===== src/IoThread/Tests.antt =====
-- A round of the thread, and each theorem at a concrete input.
use slam.Base.{
  ◌≡◌, refl, true, false, none, some, [], ◌∷◌, ret, ◌==◌, if◌then◌else◌, arith, Ensures,
}
use slam.Message.{Message, MessageType}
use slam.Message
use slam.MessageQueue.{MessageQueue}
use slam.MessageQueue
use slam.MessageQueue.Bounds.{Holds}
use slam.Socket.{Socket, SocketType}
use slam.System.{Event}
use slam.IoThread.{IoThread, set_socket, run, remove_socket}
use slam.IoThread.Sample.{World, kernel, small_ring, setup}
use slam.IoThread.Interface.{response}
use slam.IoThread.Table.{IsTable, KeepsTable, set_some-IsTable, run-IsTable}
use slam.IoThread.Removal.{offered, remove_socket_lem, response_lem}

small_ring-Holds : Holds small_ring []
small_ring-Holds = record {
  storage = refl;
  small = omega arith;
  reads_in = omega arith;
  writes_in = omega arith;
  fits = omega arith;
  ahead = refl;
  reads = refl;
  writes = refl;
  slots = tt;
}

abbrev peer : Socket
peer = record { fd = 5; kind = SocketType.connection; readmessage = none; sendmq = small_ring }

abbrev no_sockets : IoThread
no_sockets = record { mq = small_ring; poll = record { epfd = 6 }; sockets = λ fd. none }

abbrev one_socket : IoThread
one_socket = set_socket no_sockets 5 (some peer)

no_sockets-IsTable : IsTable no_sockets
unfolding IsTable
no_sockets-IsTable fd s e = ground (arith, e)

one_socket-IsTable : IsTable one_socket
one_socket-IsTable = set_some-IsTable no_sockets no_sockets-IsTable 5 peer refl (omega arith)

abbrev readable : Event
readable = record { fd = 5; err = false; hup = false; rdhup = false; input = true; output = false }

abbrev two_rounds : World
two_rounds = record { rounds = (readable ∷ []) ∷ ((readable ∷ []) ∷ []); closed = [] }

run-IsTable_example : Ensures KeepsTable (run kernel setup 4 two_rounds one_socket)
run-IsTable_example = run-IsTable kernel setup 4 two_rounds one_socket one_socket-IsTable

abbrev lost : Message
lost = Message.new 5 MessageType.lost_connection 0

-- A connection that the peer closed is removed once, and the worker has one message.
run_test :
    run kernel setup 4 two_rounds one_socket
    ≡ ret (
      record (set_socket (set_socket one_socket 5 (some peer)) 5 none) {
        mq = record {
          queue = some lost ∷ none ∷ none ∷ [];
          maxsize = 3;
          rindex = 0;
          windex = 1;
          read_number = 0;
          write_number = 1;
        };
      },
      record { rounds = []; closed = 5 ∷ [] },
    )
unfolding run MessageQueue.delete slam.Socket.poll_read
run_test = refl

remove_socket_lem_example :
    (io' : IoThread) × (remove_socket kernel setup two_rounds one_socket 5
      ≡ ret (io', record two_rounds { closed = 5 ∷ [] }))
    × (io'.sockets ≡ (λ k. if k == 5 then none else one_socket.sockets k))
    × Holds io'.mq (offered 3 [] lost)
remove_socket_lem_example =
    remove_socket_lem kernel setup two_rounds one_socket 5 peer [] [] (omega arith) refl
      small_ring-Holds (omega arith) small_ring-Holds

abbrev answer : Message
answer = record {
  fd = 5;
  kind = MessageType.protobuf_package;
  bufsize = 2;
  bytesize = 2;
  buf = some 1 ∷ some 2 ∷ [];
}

response_lem_example :
    (mq' : MessageQueue Message) × Holds mq' (offered 3 [] (record answer { bytesize = 0 }))
    × (response kernel setup two_rounds one_socket answer
        ≡ ret (true, set_socket one_socket 5 (some (record peer { sendmq = mq' })), two_rounds))
response_lem_example =
    response_lem kernel setup two_rounds one_socket answer peer [] (omega arith) refl
      small_ring-Holds
