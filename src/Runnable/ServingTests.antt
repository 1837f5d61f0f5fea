-- ===== src/Runnable/ServingTests.antt =====
-- Two messages of a ring handled, and the theorem at that input.
use slam.Base.{map, pos, ◌≡◌, refl, ℤ, Bool, false, none, some, List, [], ◌∷◌, ret, arith}
use slam.Lua.Api.{Text}
use slam.Lua.Sample.{Thing, lists}
use slam.Message.{Message, MessageType}
use slam.Message
use slam.Message.Cells.{Cell, word}
use slam.MessageQueue.{MessageQueue}
use slam.MessageQueue.Bounds.{Holds}
use slam.Protocol.{Protocol}
use slam.Protocol.Wire.{rawmessage}
use slam.Runnable.Worker.{do_message}
use slam.Runnable.Serving.{serve, do_message_lem}

abbrev builder_decode : List Thing → ℤ → List Cell → Bool × List Thing
builder_decode l msgid payload = (false, l)

abbrev no_names : Protocol (Unit {0}) Text
no_names = record { regtable = none ∷ []; builder = tt }

abbrev arrival : Message
arrival = Message.new 5 MessageType.establish_connection 0

-- a header of 18 bytes that says so, with an empty payload
abbrev frame : Message
frame = record {
  fd = 5;
  kind = MessageType.protobuf_package;
  bufsize = 18;
  bytesize = 18;
  buf = map some (rawmessage 18 (pos 3) []);
}

abbrev two_messages : MessageQueue Message
two_messages = record {
  queue = some arrival ∷ (some frame ∷ (none ∷ []));
  maxsize = 3;
  rindex = 0;
  windex = 2;
  read_number = 0;
  write_number = 2;
}

two_messages-Holds : Holds two_messages (arrival ∷ (frame ∷ []))
two_messages-Holds = record {
  storage = refl;
  small = omega arith;
  reads_in = omega arith;
  writes_in = omega arith;
  fits = omega arith;
  ahead = refl;
  reads = refl;
  writes = refl;
  slots = (refl, (refl, tt));
}

do_message_lem_example :
    (mq' : MessageQueue Message) × (do_message lists builder_decode
        (λ l. no_names)
        3
        two_messages
        []
      ≡ ret (mq', serve lists builder_decode (λ l. no_names) (arrival ∷ (frame ∷ [])) []))
    × Holds mq' []
unfolding Message.new word
do_message_lem_example =
    do_message_lem lists builder_decode (λ l. no_names) 3 two_messages (arrival ∷ (frame ∷ [])) []
      two_messages-Holds (tt, ((refl, omega arith), tt)) (omega arith) (omega arith)
