-- ===== src/Runnable/Serving.antt =====
-- `slam_runnable_do_message` of src/slam_runnable.c against the messages that the ring holds.
use slam.Base.{
  pos, ◌≤◌, ℕ, zero, suc, ◌+◌, ◌<◌, ℤ, ◌≡◌, refl, Bool, List, [], ◌∷◌, length, ret, arith,
}
use slam.Message.{Message, MessageType, package_min_size}
use slam.Protocol.Wire.{handed, raw_len, raw_msgid, raw_payload}
use slam.Protocol.Framed.{decode_lem}
use slam.Lua.Event.{event_establish_connection, event_lost_connection}
use slam.Message.Cells.{Cell}
use slam.MessageQueue.{MessageQueue}
use slam.MessageQueue.Bounds.{Holds}
use slam.MessageQueue.Fifo
use slam.MessageQueue.Refine.{read, read-Holds, pop_some, is_empty_lem}
use slam.Lua.Api.{Lua, Text}
use slam.Protocol.{Protocol}
use slam.Runnable.Worker.{dispatch, do_message}

-- A message of protobuf has arrived whole, and says a length of at least its header.
abbrev pub IsWhole : MessageType → Message → Type 0
IsWhole MessageType.protobuf_package m =
    (m.bytesize ≡ m.bufsize) × (package_min_size ≤ raw_len m.buf)
IsWhole _ m = Unit

abbrev pub AllWhole : List Message → Type 0
AllWhole [] = Unit
AllWhole (m ∷ ms) = IsWhole m.kind m × AllWhole ms

module _ {L F C B : Type 0} (lua : Lua L F C) (builder_decode : L → ℤ → List Cell → Bool × L)
    (protocol : L → Protocol B Text) where
  -- What a message asks of the script, by its kind.
  abbrev handled_as : MessageType → L → Message → L
  handled_as MessageType.protobuf_package l m =
      (handed lua builder_decode (protocol l) l m.fd (raw_msgid m.buf) (raw_payload m.buf)).1
  handled_as MessageType.establish_connection l m = (event_establish_connection lua l (pos m.fd)).1
  handled_as MessageType.lost_connection l m = (event_lost_connection lua l (pos m.fd)).1

  -- The messages handled one after the other, each in the state that those before it left.
  abbrev pub serve : List Message → L → L
  serve [] l = l
  serve (m ∷ ms) l = serve ms (handled_as m.kind l m)

  dispatch_lem :
      (k : MessageType) (l : L) (m : Message)
      → m.kind ≡ k
      → IsWhole k m
      → dispatch lua builder_decode protocol l m ≡ ret (handled_as k l m)
  unfolding dispatch
  dispatch_lem MessageType.protobuf_package l m e whole =
      rw (dispatch, e, decode_lem lua builder_decode (protocol l) l m whole.0 whole.1) refl
  dispatch_lem MessageType.establish_connection l m e whole = rw (dispatch, e) refl
  dispatch_lem MessageType.lost_connection l m e whole = rw (dispatch, e) refl

  -- the ring from which that many messages were read
  abbrev spent : List Message → MessageQueue Message → MessageQueue Message
  spent [] mq = mq
  spent (m ∷ ms) mq = spent ms (read mq)

  spent-Holds :
      (mq : MessageQueue Message) (xs : List Message)
      → Holds mq xs
      → mq.rindex + length xs < mq.maxsize
      → Holds (spent xs mq) []
  spent-Holds mq [] v h = v
  spent-Holds mq (x ∷ xs) v h =
      spent-Holds (read mq) xs (read-Holds mq x xs v (omega arith)) (omega (arith, v.small))

  do_message_runs :
      (fuel : ℕ) (mq : MessageQueue Message) (xs : List Message) (l : L)
      → Holds mq xs
      → AllWhole xs
      → mq.rindex + length xs < mq.maxsize
      → length xs < fuel
      → do_message lua builder_decode protocol fuel mq l ≡ ret (spent xs mq, serve xs l)
  unfolding do_message Fifo.null
  do_message_runs zero mq xs l v whole h enough = absurd (omega arith)
  do_message_runs (suc fuel) mq [] l v whole h enough = rw (is_empty_lem mq [] v) refl
  do_message_runs (suc fuel) mq (x ∷ xs) l v whole h enough =
      rw (is_empty_lem mq (x ∷ xs) v, pop_some mq x xs v, dispatch_lem x.kind l x refl whole.0)
        (do_message_runs fuel (read mq) xs (handled_as x.kind l x)
          (read-Holds mq x xs v (omega arith)) whole.1 (omega (arith, v.small)) (omega arith))

  -- With fuel for each message, where the messages that the ring holds lie below its end, and each one of
  -- protobuf has arrived whole, with a length of at least its header, `slam_runnable_do_message` returns: it
  -- has handled each message as its kind asks, in their order and with the table of messages that
  -- the handlers before it left, and the ring is empty.
  pub do_message_lem :
      (fuel : ℕ) (mq : MessageQueue Message) (xs : List Message) (l : L)
      → Holds mq xs
      → AllWhole xs
      → mq.rindex + length xs < mq.maxsize
      → length xs < fuel
      → (mq' : MessageQueue Message) × (do_message lua builder_decode protocol fuel mq l
          ≡ ret (mq', serve xs l))
        × Holds mq' []
  do_message_lem fuel mq xs l v whole h enough =
      (spent xs mq, do_message_runs fuel mq xs l v whole h enough, spent-Holds mq xs v h)
