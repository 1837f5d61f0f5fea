-- ===== src/MessageBuilder/Encoded.antt =====
-- What the encoding of src/MessageBuilder/luaT_message_parser.cpp leaves on Lua's stack, for messages
-- without repeated fields.
use slam.Base.{
  ℕ, zero, suc, ◌+◌, ◌≤◌, ℤ, ◌≡◌, refl, subst, ◌∙◌, ap, Bool, true, false, Option, none, some, List,
  [], ◌∷◌, ret, ◌>>=◌, Bool-cases, inl, inr, arith,
}
use slam.Lua.Api.{Lua, Text, top, second, is_table, is_nil, is_none}
use slam.MessageBuilder.{Protobuf, CppType, c_string}
use slam.Message.Cells.{Cell}
use slam.MessageBuilder.Parser.{
  MessageParser, find, change, serialize, behind, message_parser_encode,
}
use slam.MessageBuilder.Decoded.{get_message_found}
use slam.MessageBuilder.Encoding.{
  Encoded, pop_value, encode_simple_type, encode_field_simple, encode_field, encode_fields,
  encode_descriptor,
}

-- What Lua's manual says of the height of the stack.
pub record IsReading {L F C : Type 0} (lua : Lua L F C) (height : L → ℕ) : Type 0 where
  pub push_string : (l : L) (s : Text) → height (lua.push_string l s) ≡ height l + 1
  pub get_table : (l : L) → 2 ≤ height l → height (lua.get_table l second) ≡ height l
  pub pop : (l : L) (n : ℕ) → n ≤ height l → height (lua.pop l n) + n ≡ height l
  pub to_string : (l : L) → 1 ≤ height l → height (lua.to_string l top).1 ≡ height l

module _ {F M D G : Type 0} (protobuf : Protobuf M D G F) where
  -- what is asked of the type of a field that is a message
  abbrev pub Of : (D → Type 0) → G → CppType → Type 0
  Of P field CppType.message = P (protobuf.message_type field)
  Of P field _ = Unit

  abbrev pub Singles : (D → Type 0) → List G → Type 0
  Singles P [] = Unit
  Singles P (field ∷ fields) =
      (protobuf.is_repeated field ≡ false) × Of P field (protobuf.cpp_type field) × Singles P fields

  -- No field of the type or of a type within it is repeated, and the types lie at most `n` deep, the
  -- outermost counted.
  abbrev pub Shallow : ℕ → D → Type 0
  Shallow zero descriptor = ⊥
  Shallow (suc n) descriptor = Singles (Shallow n) (protobuf.fields descriptor)

-- The height of the stack after an encoding: as it was if there is a result, and if not, between two bounds.
abbrev pub Left : {A : Type 0} → ℕ → ℕ → ℕ → Option A → ℕ → Type 0
Left low high h (some b) k = k ≡ h
Left low high h none k = (h + low ≤ k) × (k ≤ h + high)

module _ {L F C M D G : Type 0} (lua : Lua L F C) (protobuf : Protobuf M D G F) (height : L → ℕ)
    (reading : IsReading lua height) where
  abbrev pub Ends : ℕ → ℕ → ℕ → Encoded L M → Type 0
  Ends low high h run =
      (rc : Option Bool) × (l : L) × (m : M) × (run ≡ ret (rc, l, m))
      × Left low high h rc (height l)

  module _ (n : ℕ) (P : D → Type 0) (encode : D → L → M → Encoded L M)
      (encodes : (d : D) (l : L) (m : M)
        → P d
        → 1 ≤ height l
        → Ends 1 n (height l) (encode d l m)) where
    ends_at : (low h : ℕ) (rc : Option Bool) (k : ℕ) → Left 1 n h rc k → Left 0 n h rc k
    ends_at low h (some b) k e = e
    ends_at low h none k e = (omega (arith, e.0), e.1)

    simple_type_lem :
        (t : CppType) (l : L) (m : M) (field : G)
        → Of protobuf P field t
        → 1 ≤ height l
        → Ends 0 n (height l) (encode_simple_type lua protobuf encode t l m field)
    unfolding encode_simple_type
    simple_type_lem CppType.message l m field p h =
        let (rc, l', m', run, left) =
          encodes (protobuf.message_type field) l (protobuf.get_message m field) p h in
        (
          rc,
          l',
          protobuf.put_message m field m',
          rw run refl,
          ends_at 0 (height l) rc (height l') left,
        )
    simple_type_lem CppType.string l m field p h = elim (Bool-cases (lua.is_string l top)) [
      | inl b ↦ (
        some true,
        (lua.to_string l top).1,
        protobuf.set_string m field (c_string (lua.to_string l top).0),
        rw b refl,
        reading.to_string l h,
      )
      | inr b ↦ (none, l, m, rw b refl, (omega arith, omega arith))
    ]
    simple_type_lem CppType.bool l m field p h = (some true, l, _, refl, refl)
    simple_type_lem CppType.double l m field p h = (some true, l, _, refl, refl)
    simple_type_lem CppType.float l m field p h = (some true, l, _, refl, refl)
    simple_type_lem CppType.int32 l m field p h = (some true, l, _, refl, refl)
    simple_type_lem CppType.int64 l m field p h = (some true, l, _, refl, refl)
    simple_type_lem CppType.uint32 l m field p h = (some true, l, _, refl, refl)
    simple_type_lem CppType.uint64 l m field p h = (some true, l, _, refl, refl)
    simple_type_lem CppType.enumeration l m field p h = (some true, l, _, refl, refl)

    field_simple_lem :
        (l : L) (m : M) (field : G)
        → protobuf.is_repeated field ≡ false
        → Of protobuf P field (protobuf.cpp_type field)
        → 1 ≤ height l
        → Ends 0 n (height l) (encode_field_simple lua protobuf encode l m field)
    unfolding encode_field_simple
    field_simple_lem l m field single p h = elim (Bool-cases (is_none lua l top)) [
      | inl a ↦ (some true, l, m, rw (single, a) refl, refl)
      | inr a ↦ elim (Bool-cases (is_nil lua l top)) [
        | inl b ↦ (some true, l, m, rw (single, a, b) refl, refl)
        | inr b ↦
            let (rc, l', m', run, left) = simple_type_lem (protobuf.cpp_type field) l m field p h in
            (rc, l', m', rw (single, a, b) run, left)
      ]
    ]

    pops :
        (h : ℕ) (rc : Option Bool) (l : L) (m : M)
        → Left 0 n (h + 1) rc (height l)
        → Ends 1 (suc n) h (ret (pop_value lua protobuf (rc, l, m)))
    pops h (some b) l m e =
        (some b, lua.pop l 1, m, refl, omega (arith, reading.pop l 1 (omega (arith, e))))
    pops h none l m e = (none, l, m, refl, (omega (arith, e.0), omega (arith, e.1)))

    single_field :
        (fuel : ℕ) (l : L) (m : M) (field : G)
        → protobuf.is_repeated field ≡ false
        → encode_field lua protobuf encode fuel l m field ≡ (
            encode_field_simple lua protobuf encode
              (lua.get_table (lua.push_string l (protobuf.name field)) second)
              m
              field
            >>= λ result. ret (pop_value lua protobuf result))
    unfolding encode_field encode_field_simple
    single_field fuel l m field single = rw single refl

    field_lem :
        (fuel : ℕ) (l : L) (m : M) (field : G)
        → protobuf.is_repeated field ≡ false
        → Of protobuf P field (protobuf.cpp_type field)
        → 1 ≤ height l
        → Ends 1 (suc n) (height l) (encode_field lua protobuf encode fuel l m field)
    field_lem fuel l m field single p h =
        let e = reading.push_string l (protobuf.name field) in
        let l1 = lua.get_table (lua.push_string l (protobuf.name field)) second in
        let e1 : height l1 ≡ height l + 1 =
          reading.get_table (lua.push_string l (protobuf.name field)) (omega arith) ∙ e in
        let (rc, l', m', run, left) = field_simple_lem l1 m field single p (omega arith) in
        let (rc2, l2, m2, run2, left2) =
          pops (height l) rc l' m' (subst (λ k. Left 0 n k rc (height l')) e1 left) in
        (
          rc2,
          l2,
          m2,
          single_field fuel l m field single
              ∙ ap (λ r. r >>= λ result. ret (pop_value lua protobuf result)) run
              ∙ run2,
          left2,
        )

    -- what the rest of the fields gives, after one that gave a result
    next_field :
        (fuel : ℕ) (fields : List G) (h : ℕ) (field : G) (l l1 : L) (m m1 : M) (rc : Option Bool)
        → encode_field lua protobuf encode fuel l m field ≡ ret (rc, l1, m1)
        → Left 1 (suc n) h rc (height l1)
        → (height l1 ≡ h → Ends 1 (suc n) h (encode_fields lua protobuf encode fuel fields l1 m1))
        → Ends 1 (suc n) h (encode_fields lua protobuf encode fuel (field ∷ fields) l m)
    unfolding encode_fields
    next_field fuel fields h field l l1 m m1 none run left rest =
        (none, l1, m1, rw (encode_fields, run) refl, left)
    next_field fuel fields h field l l1 m m1 (some false) run left rest =
        (some false, l1, m1, rw (encode_fields, run) refl, left)
    next_field fuel fields h field l l1 m m1 (some true) run left rest =
        let (rc2, l2, m2, run2, left2) = rest left in
        (rc2, l2, m2, rw (encode_fields, run) run2, left2)

    fields_lem :
        (fuel : ℕ) (fields : List G) (l : L) (m : M)
        → Singles protobuf P fields
        → 1 ≤ height l
        → Ends 1 (suc n) (height l) (encode_fields lua protobuf encode fuel fields l m)
    unfolding encode_fields
    fields_lem fuel [] l m p h = (some true, l, m, refl, refl)
    fields_lem fuel (field ∷ fields) l m (single, p, ps) h =
        let (rc, l1, m1, run, left) = field_lem fuel l m field single p h in
        next_field fuel fields (height l) field l l1 m m1 rc run left (λ e.
          subst (λ k. Ends 1 (suc n) k (encode_fields lua protobuf encode fuel fields l1 m1)) e
            (fields_lem fuel fields l1 m1 ps (omega arith)))

  descriptor_lem :
      (depth fuel : ℕ) (descriptor : D) (l : L) (m : M)
      → Shallow protobuf depth descriptor
      → 1 ≤ height l
      → Ends 1 depth (height l) (encode_descriptor lua protobuf depth fuel descriptor l m)
  unfolding encode_descriptor
  descriptor_lem zero fuel descriptor l m shallow h = absurd shallow
  descriptor_lem (suc depth) fuel descriptor l m shallow h =
      elim (Bool-cases (is_table lua l top)) [
        | inl b ↦ rw b (
            fields_lem depth (Shallow protobuf depth) (encode_descriptor lua protobuf depth fuel)
              (λ d l m p h. descriptor_lem depth fuel d l m p h) fuel (protobuf.fields descriptor) l
              m shallow h)
        | inr b ↦ rw b (some false, l, m, refl, refl)
      ]

  serialize_lem :
      (size depth h : ℕ) (rc : Option Bool) (l : L) (m : M)
      → Left 1 depth h rc (height l)
      → Left 0 depth h
          (serialize lua protobuf size (rc, l, m)).0
          (height (serialize lua protobuf size (rc, l, m)).1)
  serialize_lem size depth h (some true) l m e = serialized (protobuf.serialize m)
    where
      serialized :
          (made : Option (List ℕ))
          → Left 0 depth h
              (behind lua protobuf size made l m).0
              (height (behind lua protobuf size made l m).1)
      serialized none = (omega (arith, e), omega (arith, e))
      serialized (some payload) = e
  serialize_lem size depth h (some false) l m e = (omega (arith, e), omega (arith, e))
  serialize_lem size depth h none l m e = (omega (arith, e.0), e.1)

  encode_runs :
      (depth fuel : ℕ) (parser : MessageParser M) (l l1 : L) (msgid : ℤ) (size : ℕ) (m m1 : M)
      (descriptor : D) (rc : Option Bool)
      → find parser msgid ≡ some m
      → protobuf.find_type (protobuf.type_name (protobuf.clear m)) ≡ some descriptor
      → protobuf.byte_size (protobuf.clear m) ≡ 0
      → encode_descriptor lua protobuf depth fuel descriptor l (protobuf.clear m) ≡ ret (rc, l1, m1)
      → message_parser_encode lua protobuf depth fuel parser l msgid size
        ≡ ret (
          (serialize lua protobuf size (rc, l1, m1)).0,
          (serialize lua protobuf size (rc, l1, m1)).1,
          change parser msgid (serialize lua protobuf size (rc, l1, m1)).2,
        )
  unfolding message_parser_encode change
  encode_runs depth fuel parser l l1 msgid size m m1 descriptor rc e1 e2 e3 run =
      let g = get_message_found lua protobuf parser msgid m e1 in
      rw (message_parser_encode, ap (λ p. p.0) g, e2, e3, run)
        (ap
          (λ p. ret (
            (serialize lua protobuf size (rc, l1, m1)).0,
            (serialize lua protobuf size (rc, l1, m1)).1,
            change p.1 msgid (serialize lua protobuf size (rc, l1, m1)).2,
          ))
          g)

  -- For a registered id whose message has a type without repeated fields, a cleared message without bytes
  -- and fuel for how deep the type's messages lie in messages, `luaT_message_parser_encode` ends. If it
  -- gives a buffer, the stack is as high as before; if it gives none, at most one value for each of these
  -- messages is left on it.
  pub message_parser_encode_lem :
      (depth fuel : ℕ) (parser : MessageParser M) (l : L) (msgid : ℤ) (size : ℕ) (m : M)
      (descriptor : D)
      → find parser msgid ≡ some m
      → protobuf.find_type (protobuf.type_name (protobuf.clear m)) ≡ some descriptor
      → protobuf.byte_size (protobuf.clear m) ≡ 0
      → Shallow protobuf depth descriptor
      → 1 ≤ height l
      → (buf : Option (List Cell)) × (l' : L) × (parser' : MessageParser M) × (message_parser_encode
            lua protobuf depth fuel parser l msgid size
          ≡ ret (buf, l', parser'))
        × Left 0 depth (height l) buf (height l')
  message_parser_encode_lem depth fuel parser l msgid size m descriptor e1 e2 e3 shallow h =
      let (rc, l1, m1, run, left) =
        descriptor_lem depth fuel descriptor l (protobuf.clear m) shallow h in
      (
        _,
        _,
        change parser msgid (serialize lua protobuf size (rc, l1, m1)).2,
        encode_runs depth fuel parser l l1 msgid size m m1 descriptor rc e1 e2 e3 run,
        serialize_lem size depth (height l) rc l1 m1 left,
      )
