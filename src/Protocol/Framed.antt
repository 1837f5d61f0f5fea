-- ===== src/Protocol/Framed.antt =====
-- What src/slam_protocol.c encodes is what src/io/slam_socket.c takes for a message, and what it decodes.
use slam.Base.{
  ℕ, ◌+◌, ◌-◌, ◌^◌, ◌≤◌, ◌<◌, ℤ, pos, ◌≡◌, refl, sym, ◌∙◌, ap, ap₂, Bool, true, Run, assert, ◌>>◌,
  ◌==◌, leb, Option, some, List, [], ◌∷◌, map, length, length-map, take-all, drop, ret, arith, u32,
  mod-eq_of_lt, u64,
}
use slam.Lua.Api.{Lua, Text}
use slam.Message.{Message, MessageType, package_min_size}
use slam.Message.Cells.{Cell, word, filled}
use slam.Socket.Framing.{frame, IsFrame}
use slam.Protocol.{Protocol}
use slam.Protocol.Wire.{
  encode, decode, pack, packed, head_size, message_size, handed, rawmessage, raw_len, raw_msgid,
  raw_payload, bytes, signed,
}

-- Four bytes hold a number below 2 ^ 32.
word-bytes : (n : ℕ) → n < 2 ^ 32 → word (map some (bytes 4 n)) ≡ n
unfolding word
word-bytes n h = omega arith

filled-all : (bs : List ℕ) → filled (length bs) bs ≡ map some bs
unfolding filled
filled-all [] = refl
filled-all (b ∷ bs) = ap (◌∷◌ (some b)) (filled-all bs)

assert_holds : {A : Type 0} (b : Bool) (m : Run A) → b ≡ true → assert b >> m ≡ m
assert_holds b m e = rw e refl

-- The assertion on the size holds, and the message has room for its header and the payload.
pack_lem :
    {L : Type 0} (fd : ℕ) (msgid : ℤ) (payload : List ℕ) (l : L)
    → length payload < 2 ^ 32
    → pack fd msgid (some payload, l)
      ≡ ret (some (packed (package_min_size + length payload) fd msgid payload), l)
pack_lem fd msgid payload l h =
    let e : u64 (head_size + length payload) ≡ head_size + length payload =
      mod-eq_of_lt (omega arith) in
    let left : u64 (head_size + length payload) - message_size ≡ package_min_size + length payload =
      omega (arith, e) in
    assert_holds (leb head_size (u64 (head_size + length payload))) _ (ground (arith, e))
    ∙ ap (λ len. ret (some (packed len fd msgid payload), l)) left

-- If MessageBuilder makes a payload of a table, and header and payload are shorter than the limit,
-- which is at most 2 ^ 32, then the message is one that a socket with that limit takes whole, with
-- nothing of it sent yet.
pub encode-IsFrame :
    {L : Type 0} (builder_encode : L → ℤ → Option (List ℕ) × L) (l l' : L) (fd max_package_size : ℕ)
    (msgid : ℤ) (payload : List ℕ)
    → builder_encode l msgid ≡ (some payload, l')
    → package_min_size + length payload < max_package_size
    → max_package_size ≤ 2 ^ 32
    → (bs : List ℕ) × (encode builder_encode l fd msgid
        ≡ ret (some (record (frame fd bs) { bytesize = 0 }), l'))
      × IsFrame max_package_size bs
      × (drop package_min_size bs ≡ payload)
unfolding encode
encode-IsFrame builder_encode l l' fd max_package_size msgid payload made short limit =
    let len = package_min_size + length payload in
    let bs = rawmessage len msgid payload in
    let small : u32 len ≡ len = mod-eq_of_lt (omega arith) in
    let same : len ≡ length bs = omega arith in
    (
      bs,
      ap (pack fd msgid) made
          ∙ pack_lem fd msgid payload l' (omega arith)
          ∙ ap₂
              (λ n c. ret (some (record (frame fd bs) { bufsize = n; buf = c; bytesize = 0 }), l'))
              same (sym (filled-all bs)),
      (
        omega (arith, same),
        omega (arith, same),
        word-bytes (u32 len) (omega (arith, small)) ∙ small ∙ same,
      ),
      refl,
    )

raw_len_lem :
    (len : ℕ) (msgid : ℤ) (payload : List ℕ)
    → len < 2 ^ 32
    → raw_len (map some (rawmessage len msgid payload)) ≡ len
raw_len_lem len msgid payload h =
    word-bytes (u32 len) (omega (arith, mod-eq_of_lt {n = len} {m = 2 ^ 32} h)) ∙ mod-eq_of_lt h

signed-pos : (n : ℕ) → n < 2 ^ 31 → signed n ≡ pos n
signed-pos n h = ground arith

raw_msgid_lem :
    (len id : ℕ) (payload : List ℕ)
    → id < 2 ^ 31
    → raw_msgid (map some (rawmessage len (pos id) payload)) ≡ pos id
raw_msgid_lem len id payload h =
    let small : u32 id ≡ id = mod-eq_of_lt (omega arith) in
    ap signed (word-bytes (u32 id) (omega (arith, small)) ∙ small) ∙ signed-pos id h

raw_payload_lem :
    (len : ℕ) (msgid : ℤ) (payload : List ℕ)
    → len ≡ package_min_size + length payload
    → len < 2 ^ 32
    → raw_payload (map some (rawmessage len msgid payload)) ≡ map some payload
raw_payload_lem len msgid payload e h =
    take-all (raw_len (map some (rawmessage len msgid payload)) - package_min_size)
      (map some payload)
      (omega (arith, raw_len_lem len msgid payload h, length-map some payload, e))

module _ {L F C : Type 0} (lua : Lua L F C) where
  pub decode_lem :
      {B : Type 0} (builder_decode : L → ℤ → List Cell → Bool × L) (protocol : Protocol B Text)
      (l : L) (m : Message)
      → m.bytesize ≡ m.bufsize
      → package_min_size ≤ raw_len m.buf
      → decode lua builder_decode protocol l m
        ≡ ret (handed lua builder_decode protocol l m.fd (raw_msgid m.buf) (raw_payload m.buf))
  unfolding decode
  decode_lem builder_decode protocol l m whole enough =
      assert_holds (m.bytesize == m.bufsize) _ (ground (arith, whole))
      ∙ assert_holds (leb package_min_size (raw_len m.buf)) _ (ground (arith, enough))

  -- A message that was encoded with an id that is not negative, shorter than 2 ^ 32 with its header, and
  -- that arrived whole is decoded with the same id and the same payload.
  pub decode-encode :
      {B : Type 0} (builder_encode : L → ℤ → Option (List ℕ) × L)
      (builder_decode : L → ℤ → List Cell → Bool × L) (protocol : Protocol B Text) (l l' peer : L)
      (fd id : ℕ) (payload : List ℕ)
      → builder_encode l (pos id) ≡ (some payload, l')
      → package_min_size + length payload < 2 ^ 32
      → id < 2 ^ 31
      → (m : Message) × (encode builder_encode l fd (pos id) ≡ ret (some m, l'))
        × (decode lua builder_decode protocol peer (record m { bytesize = m.bufsize })
            ≡ ret (handed lua builder_decode protocol peer fd (pos id) (map some payload)))
  unfolding encode
  decode-encode builder_encode builder_decode protocol l l' peer fd id payload made short small =
      let len = package_min_size + length payload in
      let buf = map some (rawmessage len (pos id) payload) in
      let says_len = raw_len_lem len (pos id) payload short in
      let m : Message = record {
        fd = fd;
        kind = MessageType.protobuf_package;
        bufsize = len;
        bytesize = 0;
        buf = buf;
      } in
      (
        m,
        ap (pack fd (pos id)) made ∙ pack_lem fd (pos id) payload l' (omega arith),
        decode_lem builder_decode protocol peer (record m { bytesize = len }) refl
              (omega (arith, says_len))
            ∙ ap₂ (λ i p. ret (handed lua builder_decode protocol peer fd i p))
                (raw_msgid_lem len id payload small)
                (raw_payload_lem len (pos id) payload refl short),
      )
