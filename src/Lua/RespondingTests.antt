-- ===== src/Lua/RespondingTests.antt =====
-- An answer to a socket whose ring has one position, which holds nothing.
use slam.Base.{ℕ, ◌≡◌, refl, ℤ, pos, true, Option, none, some, List, [], ◌∷◌, drop, ret, arith, map}
use slam.IoThread.{IoThread, set_socket}
use slam.IoThread.Sample.{World, kernel, small_ring, setup}
use slam.Lua.Func.{respond}
use slam.Lua.Responding.{respond-full}
use slam.Lua.Sample.{Thing, truth, table, lists}
use slam.Message.{Message, MessageType}
use slam.MessageQueue.{MessageQueue}
use slam.MessageQueue.Bounds.{Holds}
use slam.Protocol.Wire.{encode, rawmessage}
use slam.Socket.{Socket, SocketType}

abbrev builder_encode : List Thing → ℤ → Option (List ℕ) × List Thing
builder_encode l msgid = (some (8 ∷ []), drop 1 l)

abbrev no_room : MessageQueue Message
no_room = record {
  queue = none ∷ [];
  maxsize = 1;
  rindex = 0;
  windex = 0;
  read_number = 0;
  write_number = 0;
}

no_room-Holds : Holds no_room []
no_room-Holds = record {
  storage = refl;
  small = omega arith;
  reads_in = omega arith;
  writes_in = omega arith;
  fits = omega arith;
  ahead = refl;
  reads = refl;
  writes = refl;
  slots = tt;
}

abbrev busy : Socket
busy = record { fd = 5; kind = SocketType.connection; readmessage = none; sendmq = no_room }

abbrev threads : IoThread
threads =
    set_socket (record { mq = small_ring; poll = record { epfd = 6 }; sockets = λ fd. none }) 5
      (some busy)

abbrev world : World
world = record { rounds = []; closed = [] }

abbrev one_byte : Message
one_byte = record {
  fd = 5;
  kind = MessageType.protobuf_package;
  bufsize = 19;
  bytesize = 0;
  buf = map some (rawmessage 19 (pos 300) (8 ∷ []));
}

encoded : encode builder_encode (table ∷ []) 5 (pos 300) ≡ ret (some one_byte, [])
unfolding encode
encoded = refl

respond-full_example :
    (mq' : MessageQueue Message) × (respond lists kernel setup builder_encode
        (table ∷ [])
        world
        threads
        5
        (pos 300)
      ≡ ret (1, truth true ∷ [], set_socket threads 5 (some (record busy { sendmq = mq' })), world))
    × Holds mq' []
respond-full_example =
    respond-full lists kernel setup builder_encode (table ∷ []) [] world threads 5 (pos 300)
      one_byte busy [] encoded (omega arith) refl no_room-Holds refl
