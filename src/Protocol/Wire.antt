-- ===== src/Protocol/Wire.antt =====
-- src/slam_protocol.c: the packed header of a message, encoding and decoding. The functions of
-- MessageBuilder that translate between a Lua table and a payload are arguments.
use slam.Base.{
  ℕ, zero, suc, ◌+◌, ◌-◌, ◌/◌, ◌%◌, ◌^◌, ℤ, pos, negsuc, Bool, false, Option, none, some, List, [],
  ◌∷◌, ◌++◌, map, length, take, drop, replicate, Run, ret, ◌>>◌, assert, leb, ltb, ◌==◌,
  if◌then◌else◌, u32, u64,
}
use slam.Lua.Api.{Lua, Text}
use slam.Lua.Event.{event_message}
use slam.Message.{Message, MessageType, package_min_size}
use slam.Message.Cells.{Cell, word}
use slam.Protocol.{Protocol}

-- the bytes of a number, least byte first
abbrev pub bytes : ℕ → ℕ → List ℕ
bytes zero n = []
bytes (suc k) n = n % 256 ∷ bytes k (n / 256)

-- an `int` as an unsigned number, and back
abbrev pub unsigned : ℤ → ℕ
unsigned (pos n) = u32 n
unsigned (negsuc n) = 2 ^ 32 - 1 - u32 n

abbrev pub signed : ℕ → ℤ
signed n = if ltb n (2 ^ 31) then pos n else negsuc (2 ^ 32 - 1 - n)

-- `struct slam_rawmessage_s` with its payload, packed: the length, the entity's id, the message's id and
-- the flags
abbrev pub rawmessage : ℕ → ℤ → List ℕ → List ℕ
rawmessage len msgid payload =
    bytes 4 (u32 len) ++ (replicate 8 0 ++ (bytes 4 (unsigned msgid) ++ (replicate 2 0 ++ payload)))

-- the fields that `slam_protocol_decode` reads
abbrev pub raw_len : List Cell → ℕ
raw_len buf = word (take 4 buf)

abbrev pub raw_msgid : List Cell → ℤ
raw_msgid buf = signed (word (take 4 (drop 12 buf)))

abbrev pub raw_payload : List Cell → List Cell
raw_payload buf = take (raw_len buf - package_min_size) (drop 18 buf)

-- `sizeof(slam_message_t)`: two numbers of 4 bytes and two of 8
abbrev pub message_size : ℕ
message_size = 24

-- `head_size` of `slam_protocol_encode`
abbrev pub head_size : ℕ
head_size = message_size + package_min_size

-- the message with a buffer of that size
abbrev pub packed : ℕ → ℕ → ℤ → List ℕ → Message
packed bufsize fd msgid payload = record {
  fd = fd;
  kind = MessageType.protobuf_package;
  bufsize = bufsize;
  bytesize = 0;
  buf = map some (rawmessage bufsize msgid payload);
}

-- the message for what MessageBuilder made: `none` is the null pointer. MessageBuilder adds the payload's
-- length to the size of the heads, which it is given.
abbrev pub pack : {L : Type 0} → ℕ → ℤ → Option (List ℕ) × L → Run (Option Message × L)
pack fd msgid (none, l) = ret (none, l)
pack fd msgid (some payload, l) =
    let size = u64 (head_size + length payload) in
    assert (leb head_size size) >> ret (some (packed (size - message_size) fd msgid payload), l)

-- `slam_protocol_encode`
unfoldable pub encode :
    {L : Type 0} → (L → ℤ → Option (List ℕ) × L) → L → ℕ → ℤ → Run (Option Message × L)
encode builder_encode l fd msgid = pack fd msgid (builder_encode l msgid)

module _ {L F C : Type 0} (lua : Lua L F C) where
  -- `slam_protocol_decode` from the call of MessageBuilder on
  unfoldable pub handed :
      {B : Type 0}
      → (L → ℤ → List Cell → Bool × L)
      → Protocol B Text
      → L
      → ℕ
      → ℤ
      → List Cell
      → Bool × L
  handed builder_decode protocol l fd msgid payload =
      let (ok, l1) = builder_decode l msgid payload in
      if ok then event_message lua protocol l1 (pos fd) msgid else (false, l1)

  -- `slam_protocol_decode`, with the result of the function in the source and the Lua state
  unfoldable pub decode :
      {B : Type 0} → (L → ℤ → List Cell → Bool × L) → Protocol B Text → L → Message → Run (Bool × L)
  decode builder_decode protocol l message =
      assert (message.bytesize == message.bufsize)
      >> (assert (leb package_min_size (raw_len message.buf))
          >> ret (
              handed builder_decode protocol l message.fd (raw_msgid message.buf)
                (raw_payload message.buf)))

-- `slam_protocol_delete` frees the names; what is left is the state of MessageBuilder that is destroyed.
unfoldable pub delete : {B N : Type 0} → (B → B) → Protocol B N → B
delete builder_destroy protocol = builder_destroy protocol.builder

-- `slam_protocol_load_descriptor`, with what MessageBuilder makes of a file
unfoldable pub load_descriptor :
    {B N : Type 0} → (B → Text → Bool × B) → Protocol B N → Text → Bool × Protocol B N
load_descriptor load protocol filename =
    let (ok, builder) = load protocol.builder filename in
    (ok, record protocol { builder = builder })
