-- ===== src/MessageBuilder/Encoding.antt =====
-- src/MessageBuilder/luaT_message_parser.cpp: the table on the top of Lua's stack becomes a message of
-- protobuf.
use slam.Base.{
  ℕ, zero, suc, ℤ, pos, Bool, true, false, not, ◌&&◌, Option, none, some, List, [], ◌∷◌, Run, ret,
  stuck, ◌>>=◌, ◌>>◌, assert, if◌then◌else◌,
}
use slam.Lua.Api.{Lua, top, second, is_table, is_nil, is_none}
use slam.MessageBuilder.{Protobuf, CppType, field_integer, c_string}

-- What an encoding function gives: true or false, or no result, since it throws an exception. A
-- `std::string` made of a null pointer throws one.
abbrev pub Encoded : Type 0 → Type 0 → Type 0
Encoded L M = Run (Option Bool × L × M)

module _ {L F C M D G : Type 0} (lua : Lua L F C) (protobuf : Protobuf M D G F) where
  -- the `switch` of `encodeFieldRepeated`: `encode` is `encodeDescriptor`.
  unfoldable pub encode_repeated_type :
      (D → L → M → Encoded L M) → CppType → L → M → G → Encoded L M
  encode_repeated_type encode CppType.message l m field =
      encode (protobuf.message_type field) l (protobuf.new_message m field)
      >>= λ (rc, l', submessage). ret (rc, l', protobuf.put_last_message m field submessage)
  encode_repeated_type encode CppType.string l m field =
      if lua.is_string l top
      then (let (value, l') = lua.to_string l top in
          ret (some true, l', protobuf.add_string m field (c_string value)))
      else ret (none, l, m)
  encode_repeated_type encode CppType.bool l m field =
      ret (some true, l, protobuf.add_bool m field (lua.to_boolean l top))
  encode_repeated_type encode CppType.double l m field =
      ret (some true, l, protobuf.add_number m field (lua.to_number l top))
  encode_repeated_type encode CppType.float l m field =
      ret (some true, l, protobuf.add_number m field (protobuf.narrow (lua.to_number l top)))
  encode_repeated_type encode type l m field =
      ret (some true, l, protobuf.add_integer m field (field_integer type (lua.to_integer l top)))

  -- `encodeFieldRepeated`
  unfoldable pub encode_field_repeated : (D → L → M → Encoded L M) → L → M → G → Encoded L M
  unfolding encode_repeated_type
  encode_field_repeated encode l m field =
      assert (protobuf.is_repeated field)
      >> (if is_none lua l top
          then ret (some true, l, m)
          else if is_nil lua l top
          then ret (some true, l, m)
          else encode_repeated_type encode (protobuf.cpp_type field) l m field)

  -- the `switch` of `encodeFieldSimple`
  unfoldable pub encode_simple_type : (D → L → M → Encoded L M) → CppType → L → M → G → Encoded L M
  encode_simple_type encode CppType.message l m field =
      encode (protobuf.message_type field) l (protobuf.get_message m field)
      >>= λ (rc, l', submessage). ret (rc, l', protobuf.put_message m field submessage)
  encode_simple_type encode CppType.string l m field =
      if lua.is_string l top
      then (let (value, l') = lua.to_string l top in
          ret (some true, l', protobuf.set_string m field (c_string value)))
      else ret (none, l, m)
  encode_simple_type encode CppType.bool l m field =
      ret (some true, l, protobuf.set_bool m field (lua.to_boolean l top))
  encode_simple_type encode CppType.double l m field =
      ret (some true, l, protobuf.set_number m field (lua.to_number l top))
  encode_simple_type encode CppType.float l m field =
      ret (some true, l, protobuf.set_number m field (protobuf.narrow (lua.to_number l top)))
  encode_simple_type encode type l m field =
      ret (some true, l, protobuf.set_integer m field (field_integer type (lua.to_integer l top)))

  -- `encodeFieldSimple`
  unfoldable pub encode_field_simple : (D → L → M → Encoded L M) → L → M → G → Encoded L M
  unfolding encode_simple_type
  encode_field_simple encode l m field =
      assert (not (protobuf.is_repeated field))
      >> (if is_none lua l top
          then ret (some true, l, m)
          else if is_nil lua l top
          then ret (some true, l, m)
          else encode_simple_type encode (protobuf.cpp_type field) l m field)

  -- the `while` of `encodeField`; the fuel bounds the entries.
  unfoldable pub encode_elements :
      (D → L → M → Encoded L M) → ℕ → Bool → ℤ → L → M → G → Encoded L M
  unfolding encode_field_repeated
  encode_elements encode zero rc table_index l m field = stuck
  encode_elements encode (suc fuel) rc table_index l m field =
      let (more, l1) = lua.next l table_index in
      elim (more && rc) [
        | true ↦ encode_field_repeated encode l1 m field >>= λ (rc', l2, m'). elim rc' [
          | none ↦ ret (none, l2, m')
          | some b ↦ encode_elements encode fuel b table_index (lua.pop l2 1) m' field
        ]
        | false ↦ ret (some rc, l1, m)
      ]

  -- the last `lua_pop` of `encodeField`, which an exception passes by
  abbrev pub pop_value : Option Bool × L × M → Option Bool × L × M
  pop_value (none, l, m) = (none, l, m)
  pop_value (some rc, l, m) = (some rc, lua.pop l 1, m)

  -- `encodeField`
  unfoldable pub encode_field : (D → L → M → Encoded L M) → ℕ → L → M → G → Encoded L M
  unfolding encode_elements encode_field_simple
  encode_field encode fuel l m field =
      let l1 = lua.get_table (lua.push_string l (protobuf.name field)) second in
      (if protobuf.is_repeated field
        then if is_table lua l1 top
          then encode_elements encode fuel true (pos (lua.get_top l1)) (lua.push_nil l1) m field
          else ret (some true, l1, m)
        else encode_field_simple encode l1 m field)
      >>= λ result. ret (pop_value result)

  -- the `for` of `encodeDescriptor`, over what is left of the fields
  unfoldable pub encode_fields : (D → L → M → Encoded L M) → ℕ → List G → L → M → Encoded L M
  unfolding encode_field
  encode_fields encode fuel [] l m = ret (some true, l, m)
  encode_fields encode fuel (field ∷ fields) l m =
      encode_field encode fuel l m field >>= λ (rc, l', m'). elim rc [
        | none ↦ ret (none, l', m')
        | some b ↦ elim b [
          | true ↦ encode_fields encode fuel fields l' m'
          | false ↦ ret (some false, l', m')
        ]
      ]

  -- `encodeDescriptor`; the first number bounds how deep tables lie in tables.
  unfoldable pub encode_descriptor : ℕ → ℕ → D → L → M → Encoded L M
  unfolding encode_fields
  encode_descriptor zero fuel descriptor l m = stuck
  encode_descriptor (suc depth) fuel descriptor l m =
      let rest =
        encode_fields (encode_descriptor depth fuel) fuel (protobuf.fields descriptor) l m in
      if is_table lua l top then rest else ret (some false, l, m)
