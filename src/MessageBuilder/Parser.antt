-- ===== src/MessageBuilder/Parser.antt =====
-- src/MessageBuilder/MessageParser.cpp and MessageBuilder.cpp: the messages that are kept for the ids, and
-- what src/slam_protocol.c calls.
use slam.Base.{
  ℕ, ℤ, pos, negsuc, Bool, true, false, Option, none, some, List, [], ◌∷◌, ◌++◌, map, length,
  replicate, Run, ret, ◌>>=◌, ◌>>◌, assert, ltb, ◌==◌, if◌then◌else◌,
}
use slam.Lua.Api.{Lua, Text}
use slam.Message.Cells.{Cell}
use slam.MessageBuilder.{Protobuf}
use slam.MessageBuilder.Decoding.{decode_descriptor}
use slam.MessageBuilder.Encoding.{encode_descriptor}

abbrev pub same_id : ℤ → ℤ → Bool
same_id (pos m) (pos n) = m == n
same_id (negsuc m) (negsuc n) = m == n
same_id _ _ = false

-- `MessageParser`: `_messages`, from ids to messages
pub record MessageParser (M : Type 0) : Type 0 where
  pub messages : List (ℤ × M)

module _ {M : Type 0} where
  unfoldable pub find_in : List (ℤ × M) → ℤ → Option M
  find_in [] msgid = none
  find_in ((id, m) ∷ ms) msgid =
      let rest = find_in ms msgid in if same_id id msgid then some m else rest

  -- `FindOrNull` of the messages
  unfoldable pub find : MessageParser M → ℤ → Option M
  unfolding find_in
  find parser msgid = find_in parser.messages msgid

  -- `insert` of an id that is not there
  abbrev pub insert : MessageParser M → ℤ → M → MessageParser M
  insert parser msgid m = record { messages = (msgid, m) ∷ parser.messages }

  -- a message changes where it lies
  unfoldable pub change_in : List (ℤ × M) → ℤ → M → List (ℤ × M)
  change_in [] msgid m' = []
  change_in ((id, m) ∷ ms) msgid m' =
      let rest = change_in ms msgid m' in if same_id id msgid then (id, m') ∷ ms else (id, m) ∷ rest

  unfoldable pub change : MessageParser M → ℤ → M → MessageParser M
  unfolding change_in
  change parser msgid m' = record { messages = change_in parser.messages msgid m' }

module _ {L F C M D G : Type 0} (lua : Lua L F C) (protobuf : Protobuf M D G F) where
  -- `NewMessage` of a name
  unfoldable pub new_message_named : Text → Option M
  new_message_named name = elim (protobuf.find_type name) [
    | none ↦ none
    | some descriptor ↦ protobuf.prototype descriptor
  ]

  -- `RegisteMessage`
  unfoldable pub registe_message : MessageParser M → ℤ → Text → Bool × MessageParser M
  unfolding find new_message_named
  registe_message parser msgid name = elim (find parser msgid) [
    | some m ↦ (false, parser)
    | none ↦ elim (new_message_named name) [
      | none ↦ (false, parser)
      | some m ↦ (true, insert parser msgid m)
    ]
  ]

  -- `NewMessage` of an id
  unfoldable pub new_message : MessageParser M → ℤ → Option M
  unfolding find new_message_named
  new_message parser msgid = elim (find parser msgid) [
    | none ↦ none
    | some m ↦ new_message_named (protobuf.type_name m)
  ]

  -- `GetMessage`
  unfoldable pub get_message : MessageParser M → ℤ → Option M × MessageParser M
  unfolding find new_message
  get_message parser msgid = elim (find parser msgid) [
    | some m ↦ (some m, parser)
    | none ↦ elim (new_message parser msgid) [
      | none ↦ (none, parser)
      | some m ↦ (some m, insert parser msgid m)
    ]
  ]

  -- the payload behind `size` bytes that are not written
  abbrev pub behind : ℕ → Option (List ℕ) → L → M → Option (List Cell) × L × M
  behind size none l m = (none, l, m)
  behind size (some payload) l m = (some (replicate size none ++ map some payload), l, m)

  -- the end of `luaT_message_parser_encode`
  abbrev pub serialize : ℕ → Option Bool × L × M → Option (List Cell) × L × M
  serialize size (some true, l, m) = behind size (protobuf.serialize m) l m
  serialize size (_, l, m) = (none, l, m)

  -- `luaT_message_parser_encode`; no buffer is the null pointer.
  unfoldable pub message_parser_encode :
      ℕ → ℕ → MessageParser M → L → ℤ → ℕ → Run (Option (List Cell) × L × MessageParser M)
  unfolding get_message encode_descriptor change
  message_parser_encode depth fuel parser l msgid size =
      let (found, parser1) = get_message parser msgid in
      elim found [
        | none ↦ ret (none, l, parser1)
        | some m ↦
            let cleared = protobuf.clear m in
            elim (protobuf.find_type (protobuf.type_name cleared)) [
              | none ↦ ret (none, l, change parser1 msgid cleared)
              | some descriptor ↦
                  assert (protobuf.byte_size cleared == 0)
                  >> encode_descriptor lua protobuf depth fuel descriptor l cleared
                  >>= λ result.
                      let (buf, l', m') = serialize size result in
                      ret (buf, l', change parser1 msgid m')
            ]
      ]

  -- `luaT_message_parser_decode`
  unfoldable pub message_parser_decode :
      ℕ → MessageParser M → L → ℤ → List ℕ → Run (Bool × L × MessageParser M)
  unfolding get_message decode_descriptor change
  message_parser_decode depth parser l msgid buf =
      let (found, parser1) = get_message parser msgid in
      elim found [
        | none ↦ ret (false, l, parser1)
        | some m ↦
            let cleared = protobuf.clear m in
            elim (protobuf.find_type (protobuf.type_name cleared)) [
              | none ↦ ret (false, l, change parser1 msgid cleared)
              | some descriptor ↦
                  let (parsed, m1) = protobuf.parse cleared buf in
                  let parser2 = change parser1 msgid m1 in
                  elim parsed [
                    | false ↦ ret (false, l, parser2)
                    | true ↦
                        decode_descriptor lua protobuf depth descriptor (lua.new_table l) m1
                        >>= λ (rc, l'). ret (rc, l', parser2)
                  ]
            ]
      ]

  -- `MessageBuilderRegister`, with whether it gives BUILDER_OK; there is no parser before
  -- `MessageBuilderInit`.
  unfoldable pub builder_register :
      Option (MessageParser M) → ℤ → Text → Bool × Option (MessageParser M)
  unfolding registe_message
  builder_register none msgid name = (false, none)
  builder_register (some parser) msgid name =
      let (done, parser') = registe_message parser msgid name in (done, some parser')

  -- `MessageBuilderDecode`; a buffer is no null pointer.
  unfoldable pub builder_decode :
      ℕ
      → Option (MessageParser M)
      → L
      → ℤ
      → Option (List ℕ)
      → Run (Bool × L × Option (MessageParser M))
  unfolding message_parser_decode
  builder_decode depth none l msgid buf = ret (false, l, none)
  builder_decode depth (some parser) l msgid none = ret (false, l, some parser)
  builder_decode depth (some parser) l msgid (some buf) =
      if ltb 0 (length buf)
      then (message_parser_decode depth parser l msgid buf >>= λ (rc, l', parser').
          ret (rc, l', some parser'))
      else ret (false, l, some parser)

  -- `MessageBuilderEncode`, for a size that is no null pointer
  unfoldable pub builder_encode :
      ℕ
      → ℕ
      → Option (MessageParser M)
      → L
      → ℤ
      → ℕ
      → Run (Option (List Cell) × L × Option (MessageParser M))
  unfolding message_parser_encode
  builder_encode depth fuel none l msgid size = ret (none, l, none)
  builder_encode depth fuel (some parser) l msgid size =
      message_parser_encode depth fuel parser l msgid size >>= λ (buf, l', parser').
      ret (buf, l', some parser')
