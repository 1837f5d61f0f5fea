-- ===== src/MessageBuilder/Decoding.antt =====
-- src/MessageBuilder/luaT_message_parser.cpp: a message of protobuf becomes a table on Lua's stack.
use slam.Base.{
  ℕ, zero, suc, ◌+◌, pos, Bool, true, false, not, ◌&&◌, List, [], ◌∷◌, Run, ret, stuck, ◌>>=◌, ◌>>◌,
  assert, if◌then◌else◌,
}
use slam.Lua.Api.{Lua, third}
use slam.MessageBuilder.{Protobuf, CppType, lua_integer, c_string}

module _ {L F C M D G : Type 0} (lua : Lua L F C) (protobuf : Protobuf M D G F) where
  -- the value that `decodeFieldDefaultValue` takes for a field that is not repeated
  abbrev pub push_default : L → CppType → L
  push_default l CppType.double = lua.push_number l (lua.from_integer (pos 0))
  push_default l CppType.float = lua.push_number l (lua.from_integer (pos 0))
  push_default l CppType.bool = lua.push_boolean l false
  push_default l CppType.string = lua.push_string l []
  push_default l CppType.message = lua.new_table l
  push_default l _ = lua.push_integer l (pos 0)

  -- `decodeFieldDefaultValue`
  unfoldable pub decode_field_default_value : L → G → L
  decode_field_default_value l field =
      let named = lua.push_string l (protobuf.name field) in
      if protobuf.is_repeated field
      then lua.set_table (lua.new_table named) third
      else lua.set_table (push_default named (protobuf.cpp_type field)) third

  -- a message within a message, behind its key: `decode` is `decodeDescriptor`.
  abbrev pub decode_message : (D → L → M → Run (Bool × L)) → L → G → M → Run (Bool × L)
  decode_message decode l field submessage =
      decode (protobuf.message_type field) (lua.new_table l) submessage >>= λ (rc, l').
      ret (rc, lua.set_table l' third)

  -- the `switch` of `decodeFieldRepeated`
  unfoldable pub decode_repeated_type :
      (D → L → M → Run (Bool × L)) → CppType → L → M → G → ℕ → Run (Bool × L)
  decode_repeated_type decode CppType.message l m field index =
      decode_message decode (lua.push_integer l (pos index)) field
        (protobuf.get_repeated_message m field index)
  decode_repeated_type decode CppType.string l m field index = ret (
    true,
    lua.set_table
        (lua.push_string (lua.push_integer l (pos index))
          (c_string (protobuf.get_repeated_string m field index)))
        third,
  )
  decode_repeated_type decode CppType.bool l m field index = ret (
    true,
    lua.set_table
        (lua.push_boolean (lua.push_integer l (pos index))
          (protobuf.get_repeated_bool m field index))
        third,
  )
  decode_repeated_type decode CppType.double l m field index = ret (
    true,
    lua.set_table
        (lua.push_number (lua.push_integer l (pos index))
          (protobuf.get_repeated_number m field index))
        third,
  )
  decode_repeated_type decode CppType.float l m field index = ret (
    true,
    lua.set_table
        (lua.push_number (lua.push_integer l (pos index))
          (protobuf.get_repeated_number m field index))
        third,
  )
  decode_repeated_type decode _ l m field index = ret (
    true,
    lua.set_table
        (lua.push_integer (lua.push_integer l (pos index))
          (lua_integer (protobuf.get_repeated_integer m field index)))
        third,
  )

  -- `decodeFieldRepeated`
  unfoldable pub decode_field_repeated :
      (D → L → M → Run (Bool × L)) → L → M → G → ℕ → Run (Bool × L)
  unfolding decode_repeated_type
  decode_field_repeated decode l m field index =
      assert (protobuf.is_repeated field)
      >> decode_repeated_type decode (protobuf.cpp_type field) l m field index

  -- the value of a field that has one, or what `decodeFieldDefaultValue` leaves, behind the key
  abbrev pub decode_value : L → M → G → (L → L) → Run (Bool × L)
  decode_value l m field push =
      let named = lua.push_string l (protobuf.name field) in
      ret (
        true,
        lua.set_table
            (if protobuf.has_field m field
              then push named
              else decode_field_default_value named field)
            third,
      )

  -- the `switch` of `decodeFieldSimple`
  unfoldable pub decode_simple_type :
      (D → L → M → Run (Bool × L)) → CppType → L → M → G → Run (Bool × L)
  unfolding decode_field_default_value
  decode_simple_type decode CppType.message l m field =
      decode_message decode (lua.push_string l (protobuf.name field)) field
        (protobuf.get_message m field)
  decode_simple_type decode CppType.string l m field = ret (
    true,
    lua.set_table
        (lua.push_string (lua.push_string l (protobuf.name field))
          (c_string (protobuf.get_string m field)))
        third,
  )
  decode_simple_type decode CppType.bool l m field =
      decode_value l m field (λ l'. lua.push_boolean l' (protobuf.get_bool m field))
  decode_simple_type decode CppType.double l m field =
      decode_value l m field (λ l'. lua.push_number l' (protobuf.get_number m field))
  decode_simple_type decode CppType.float l m field =
      decode_value l m field (λ l'. lua.push_number l' (protobuf.get_number m field))
  decode_simple_type decode _ l m field =
      decode_value l m field
        (λ l'. lua.push_integer l' (lua_integer (protobuf.get_integer m field)))

  -- `decodeFieldSimple`
  unfoldable pub decode_field_simple : (D → L → M → Run (Bool × L)) → L → M → G → Run (Bool × L)
  unfolding decode_simple_type
  decode_field_simple decode l m field =
      assert (not (protobuf.is_repeated field))
      >> decode_simple_type decode (protobuf.cpp_type field) l m field

  -- the `for` of `decodeField`, over what is left of the elements
  unfoldable pub decode_elements : (D → L → M → Run (Bool × L)) → ℕ → ℕ → L → M → G → Run (Bool × L)
  unfolding decode_field_repeated
  decode_elements decode zero index l m field = ret (true, l)
  decode_elements decode (suc n) index l m field =
      decode_field_repeated decode l m field index >>= λ (rc, l'). elim rc [
        | true ↦ decode_elements decode n (index + 1) l' m field
        | false ↦ ret (false, l')
      ]

  -- `decodeField`
  unfoldable pub decode_field : (D → L → M → Run (Bool × L)) → L → M → G → Run (Bool × L)
  unfolding decode_elements decode_field_simple
  decode_field decode l m field =
      if protobuf.is_repeated field
      then (decode_elements decode (protobuf.field_size m field) 0
            (lua.new_table (lua.push_string l (protobuf.name field))) m field
          >>= λ (rc, l'). ret (rc, lua.set_table l' third))
      else decode_field_simple decode l m field

  -- the `for` of `decodeDescriptor`, over what is left of the fields
  unfoldable pub decode_fields : (D → L → M → Run (Bool × L)) → List G → L → M → Run (Bool × L)
  unfolding decode_field decode_field_default_value
  decode_fields decode [] l m = ret (true, l)
  decode_fields decode (field ∷ fields) l m =
      elim (not (protobuf.is_repeated field) && not (protobuf.has_field m field)) [
        | true ↦ decode_fields decode fields (decode_field_default_value l field) m
        | false ↦ decode_field decode l m field >>= λ (rc, l'). elim rc [
          | true ↦ decode_fields decode fields l' m
          | false ↦ ret (false, l')
        ]
      ]

  -- `decodeDescriptor`; the fuel bounds how deep messages lie in messages.
  unfoldable pub decode_descriptor : ℕ → D → L → M → Run (Bool × L)
  unfolding decode_fields
  decode_descriptor zero descriptor l m = stuck
  decode_descriptor (suc fuel) descriptor l m =
      decode_fields (decode_descriptor fuel) (protobuf.fields descriptor) l m
