-- ===== src/MessageBuilder/Stack.antt =====
-- What the decoding of src/MessageBuilder/luaT_message_parser.cpp leaves on Lua's stack.
use slam.Base.{
  ℕ, zero, suc, ◌+◌, ◌≤◌, ◌<◌, pos, ◌≡◌, refl, ◌∙◌, Bool, true, false, not, ◌&&◌, List, [], ◌∷◌,
  Run, ret, Bool-cases, inl, inr, arith,
}
use slam.Lua.Api.{Lua, third}
use slam.Lua.Decoding.{IsStack}
use slam.MessageBuilder.{Protobuf, CppType, lua_integer, c_string}
use slam.MessageBuilder.Decoding.{
  push_default, decode_field_default_value, decode_message, decode_value, decode_repeated_type,
  decode_field_repeated, decode_simple_type, decode_field_simple, decode_elements, decode_field,
  decode_fields, decode_descriptor,
}

module _ {F M D G : Type 0} (protobuf : Protobuf M D G F) where
  -- what is asked of the messages that a field of `m` has
  abbrev pub Within : (D → M → Type 0) → M → G → CppType → Bool → Type 0
  Within P m field CppType.message true =
      (index : ℕ)
      → index < protobuf.field_size m field
      → P (protobuf.message_type field) (protobuf.get_repeated_message m field index)
  Within P m field CppType.message false =
      protobuf.has_field m field ≡ true
      → P (protobuf.message_type field) (protobuf.get_message m field)
  Within P m field _ repeated = Unit

  abbrev pub Fields : (D → M → Type 0) → M → List G → Type 0
  Fields P m [] = Unit
  Fields P m (field ∷ fields) =
      Within P m field (protobuf.cpp_type field) (protobuf.is_repeated field) × Fields P m fields

  -- Messages lie at most `n` deep in a message, itself counted.
  abbrev pub Nested : ℕ → D → M → Type 0
  Nested zero descriptor m = ⊥
  Nested (suc n) descriptor m = Fields (Nested n) m (protobuf.fields descriptor)

module _ {L F C M D G : Type 0} (lua : Lua L F C) (protobuf : Protobuf M D G F)
    (height : L → ℕ) where
  -- A run that succeeds and leaves the stack at a height
  abbrev pub Keeps : ℕ → Run (Bool × L) → Type 0
  Keeps n run = (l : L) × (run ≡ ret (true, l)) × (height l ≡ n)

  module _ (push_boolean : (l : L) (b : Bool) → height (lua.push_boolean l b) ≡ height l + 1)
      (stack : IsStack lua height) where
    sets : (l : L) (n : ℕ) → 1 ≤ n → height l ≡ n + 2 → height (lua.set_table l third) ≡ n
    sets l n some_table e = omega (arith, stack.set_table l (omega arith))

    push_default_lem : (l : L) (t : CppType) → height (push_default lua protobuf l t) ≡ height l + 1
    push_default_lem l CppType.int32 = stack.push_integer l (pos 0)
    push_default_lem l CppType.int64 = stack.push_integer l (pos 0)
    push_default_lem l CppType.uint32 = stack.push_integer l (pos 0)
    push_default_lem l CppType.uint64 = stack.push_integer l (pos 0)
    push_default_lem l CppType.enumeration = stack.push_integer l (pos 0)
    push_default_lem l CppType.double = stack.push_number l _
    push_default_lem l CppType.float = stack.push_number l _
    push_default_lem l CppType.bool = push_boolean l false
    push_default_lem l CppType.string = stack.push_string l []
    push_default_lem l CppType.message = stack.new_table l

    default_lem :
        (l : L) (field : G)
        → 1 ≤ height l
        → height (decode_field_default_value lua protobuf l field) ≡ height l
    unfolding decode_field_default_value
    default_lem l field h = elim (Bool-cases (protobuf.is_repeated field)) [
      | inl b ↦ rw b (
          sets _ _ h (
            omega (
              arith,
              stack.new_table (lua.push_string l (protobuf.name field)),
              stack.push_string l (protobuf.name field),
            )))
      | inr b ↦ rw b (
          sets _ _ h (
            omega (
              arith,
              push_default_lem (lua.push_string l (protobuf.name field)) (protobuf.cpp_type field),
              stack.push_string l (protobuf.name field),
            )))
    ]

    two :
        (l : L) (index : ℕ) {l' : L}
        → height l' ≡ height (lua.push_integer l (pos index)) + 1
        → height l' ≡ height l + 2
    two l index e = omega (arith, e, stack.push_integer l (pos index))

    there :
        (m : M) (field : G)
        → (not (protobuf.is_repeated field) && not (protobuf.has_field m field)) ≡ false
        → protobuf.is_repeated field ≡ false
        → protobuf.has_field m field ≡ true
    there m field e single = ground (arith, e, single)

    module _ (P : D → M → Type 0) (decode : D → L → M → Run (Bool × L))
        (decodes : (d : D) (l : L) (m : M)
          → P d m
          → 1 ≤ height l
          → Keeps (height l) (decode d l m)) where
      message_lem :
          (n : ℕ) (l : L) (field : G) (submessage : M)
          → P (protobuf.message_type field) submessage
          → 1 ≤ n
          → height l ≡ n + 1
          → Keeps n (decode_message lua protobuf decode l field submessage)
      message_lem n l field submessage p h e =
          let (l', run, e') =
            decodes (protobuf.message_type field) (lua.new_table l) submessage p
              (omega (arith, stack.new_table l)) in
          (lua.set_table l' third, rw run refl, sets l' n h (omega (arith, e', stack.new_table l)))

      value_lem :
          (l : L) (m : M) (field : G) (push : L → L)
          → ((l : L) → height (push l) ≡ height l + 1)
          → protobuf.has_field m field ≡ true
          → 1 ≤ height l
          → Keeps (height l) (decode_value lua protobuf l m field push)
      value_lem l m field push pushes has h = (
        lua.set_table (push (lua.push_string l (protobuf.name field))) third,
        rw has refl,
        sets _ _ h (
            omega (
              arith,
              pushes (lua.push_string l (protobuf.name field)),
              stack.push_string l (protobuf.name field),
            )),
      )

      simple_type_lem :
          (t : CppType) (l : L) (m : M) (field : G)
          → Within protobuf P m field t false
          → protobuf.has_field m field ≡ true
          → 1 ≤ height l
          → Keeps (height l) (decode_simple_type lua protobuf decode t l m field)
      unfolding decode_simple_type
      simple_type_lem CppType.message l m field w has h =
          message_lem (height l) _ field _ (w has) h (stack.push_string l (protobuf.name field))
      simple_type_lem CppType.string l m field w has h = (
        _,
        refl,
        sets _ _ h (
            omega (
              arith,
              stack.push_string (lua.push_string l (protobuf.name field))
                  (c_string (protobuf.get_string m field)),
              stack.push_string l (protobuf.name field),
            )),
      )
      simple_type_lem CppType.bool l m field w has h =
          value_lem l m field _ (λ l. push_boolean l (protobuf.get_bool m field)) has h
      simple_type_lem CppType.double l m field w has h =
          value_lem l m field _ (λ l. stack.push_number l (protobuf.get_number m field)) has h
      simple_type_lem CppType.float l m field w has h =
          value_lem l m field _ (λ l. stack.push_number l (protobuf.get_number m field)) has h
      simple_type_lem CppType.int32 l m field w has h =
          value_lem l m field _
            (λ l. stack.push_integer l (lua_integer (protobuf.get_integer m field))) has h
      simple_type_lem CppType.int64 l m field w has h =
          value_lem l m field _
            (λ l. stack.push_integer l (lua_integer (protobuf.get_integer m field))) has h
      simple_type_lem CppType.uint32 l m field w has h =
          value_lem l m field _
            (λ l. stack.push_integer l (lua_integer (protobuf.get_integer m field))) has h
      simple_type_lem CppType.uint64 l m field w has h =
          value_lem l m field _
            (λ l. stack.push_integer l (lua_integer (protobuf.get_integer m field))) has h
      simple_type_lem CppType.enumeration l m field w has h =
          value_lem l m field _
            (λ l. stack.push_integer l (lua_integer (protobuf.get_integer m field))) has h

      repeated_type_lem :
          (t : CppType) (l : L) (m : M) (field : G) (index : ℕ)
          → Within protobuf P m field t true
          → index < protobuf.field_size m field
          → 1 ≤ height l
          → Keeps (height l) (decode_repeated_type lua protobuf decode t l m field index)
      unfolding decode_repeated_type
      repeated_type_lem CppType.message l m field index w inside h =
          message_lem (height l) _ field _ (w index inside) h (stack.push_integer l (pos index))
      repeated_type_lem CppType.string l m field index w inside h =
          (_, refl, sets _ _ h (two l index (stack.push_string (lua.push_integer l (pos index)) _)))
      repeated_type_lem CppType.bool l m field index w inside h =
          (_, refl, sets _ _ h (two l index (push_boolean (lua.push_integer l (pos index)) _)))
      repeated_type_lem CppType.double l m field index w inside h =
          (_, refl, sets _ _ h (two l index (stack.push_number (lua.push_integer l (pos index)) _)))
      repeated_type_lem CppType.float l m field index w inside h =
          (_, refl, sets _ _ h (two l index (stack.push_number (lua.push_integer l (pos index)) _)))
      repeated_type_lem CppType.int32 l m field index w inside h = (
        _,
        refl,
        sets _ _ h (two l index (stack.push_integer (lua.push_integer l (pos index)) _)),
      )
      repeated_type_lem CppType.int64 l m field index w inside h = (
        _,
        refl,
        sets _ _ h (two l index (stack.push_integer (lua.push_integer l (pos index)) _)),
      )
      repeated_type_lem CppType.uint32 l m field index w inside h = (
        _,
        refl,
        sets _ _ h (two l index (stack.push_integer (lua.push_integer l (pos index)) _)),
      )
      repeated_type_lem CppType.uint64 l m field index w inside h = (
        _,
        refl,
        sets _ _ h (two l index (stack.push_integer (lua.push_integer l (pos index)) _)),
      )
      repeated_type_lem CppType.enumeration l m field index w inside h = (
        _,
        refl,
        sets _ _ h (two l index (stack.push_integer (lua.push_integer l (pos index)) _)),
      )

      -- the elements that are left, from one that is behind those done
      elements_lem :
          (n index : ℕ) (l : L) (m : M) (field : G)
          → protobuf.is_repeated field ≡ true
          → Within protobuf P m field (protobuf.cpp_type field) true
          → n + index ≡ protobuf.field_size m field
          → 1 ≤ height l
          → Keeps (height l) (decode_elements lua protobuf decode n index l m field)
      unfolding decode_elements decode_field_repeated
      elements_lem zero index l m field repeated w e h = (l, refl, refl)
      elements_lem (suc n) index l m field repeated w e h =
          let (l1, run, e1) =
            repeated_type_lem (protobuf.cpp_type field) l m field index w (omega arith) h in
          let (l2, run', e2) =
            elements_lem n (index + 1) l1 m field repeated w (omega arith) (omega arith) in
          (l2, rw (repeated, run) run', e2 ∙ e1)

      field_lem :
          (l : L) (m : M) (field : G) (b : Bool)
          → protobuf.is_repeated field ≡ b
          → Within protobuf P m field (protobuf.cpp_type field) b
          → (b ≡ false → protobuf.has_field m field ≡ true)
          → 1 ≤ height l
          → Keeps (height l) (decode_field lua protobuf decode l m field)
      unfolding decode_field decode_field_simple
      field_lem l m field true repeated w has h =
          let (l1, run, e1) =
            elements_lem (protobuf.field_size m field) 0
              (lua.new_table (lua.push_string l (protobuf.name field))) m field repeated w
              (omega arith)
              (omega (arith, stack.new_table (lua.push_string l (protobuf.name field)))) in
          (
            lua.set_table l1 third,
            rw (repeated, run) refl,
            sets l1 (height l) h (
                omega (
                  arith,
                  e1,
                  stack.new_table (lua.push_string l (protobuf.name field)),
                  stack.push_string l (protobuf.name field),
                )),
          )
      field_lem l m field false repeated w has h =
          let (l1, run, e1) = simple_type_lem (protobuf.cpp_type field) l m field w (has refl) h in
          (l1, rw repeated run, e1)

      skips :
          (field : G) (fields : List G) (l : L) (m : M)
          → (not (protobuf.is_repeated field) && not (protobuf.has_field m field)) ≡ true
          → decode_fields lua protobuf decode (field ∷ fields) l m
            ≡ decode_fields lua protobuf decode fields
                (decode_field_default_value lua protobuf l field)
                m
      unfolding decode_fields
      skips field fields l m b = rw (decode_fields, b) refl

      decodes_one :
          (field : G) (fields : List G) (l : L) (m : M) (l' : L)
          → (not (protobuf.is_repeated field) && not (protobuf.has_field m field)) ≡ false
          → decode_field lua protobuf decode l m field ≡ ret (true, l')
          → decode_fields lua protobuf decode (field ∷ fields) l m
            ≡ decode_fields lua protobuf decode fields l' m
      unfolding decode_fields
      decodes_one field fields l m l' b run = rw (decode_fields, b, run) refl

      fields_lem :
          (fields : List G) (l : L) (m : M)
          → Fields protobuf P m fields
          → 1 ≤ height l
          → Keeps (height l) (decode_fields lua protobuf decode fields l m)
      unfolding decode_fields
      fields_lem [] l m w h = (l, refl, refl)
      fields_lem (field ∷ fields) l m (w, ws) h =
          elim (Bool-cases (not (protobuf.is_repeated field) && not (protobuf.has_field m field))) [
            | inl b ↦
                let e = default_lem l field h in
                let (l2, run', e2) = fields_lem fields _ m ws (omega arith) in
                (l2, skips field fields l m b ∙ run', e2 ∙ e)
            | inr b ↦
                let (l1, run, e1) =
                  field_lem l m field (protobuf.is_repeated field) refl w (there m field b) h in
                let (l2, run', e2) = fields_lem fields l1 m ws (omega arith) in
                (l2, decodes_one field fields l m l1 b run ∙ run', e2 ∙ e1)
          ]

    -- Decoding a message in which messages lie no deeper than the fuel succeeds, and leaves the stack as
    -- high as it was.
    pub descriptor_lem :
        (n : ℕ) (descriptor : D) (l : L) (m : M)
        → Nested protobuf n descriptor m
        → 1 ≤ height l
        → Keeps (height l) (decode_descriptor lua protobuf n descriptor l m)
    unfolding decode_descriptor
    descriptor_lem zero descriptor l m nested h = absurd nested
    descriptor_lem (suc n) descriptor l m nested h =
        fields_lem (Nested protobuf n) (decode_descriptor lua protobuf n)
          (λ d l m p h. descriptor_lem n d l m p h) (protobuf.fields descriptor) l m nested h
