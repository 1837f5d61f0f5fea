-- ===== src/MessageBuilder/Decoded.antt =====
-- What `MessageBuilderDecode` of src/MessageBuilder/MessageBuilder.cpp leaves, and which messages
-- `MessageBuilderRegister` adds.
use slam.Base.{
  ℕ, ◌+◌, ◌<◌, ℤ, pos, negsuc, ◌≡◌, ◌≢◌, refl, sym, ◌∙◌, ap, Bool, true, false, none, some, List,
  length, ret, ltb, if◌then◌else◌, Bool-cases, inl, inr, arith,
}
use slam.Lua.Api.{Lua, Text}
use slam.Lua.Decoding.{IsStack}
use slam.MessageBuilder.{Protobuf}
use slam.MessageBuilder.Decoding.{decode_descriptor}
use slam.MessageBuilder.Parser.{
  MessageParser, same_id, find_in, find, change, insert, new_message_named, registe_message,
  get_message, message_parser_decode, builder_register, builder_decode,
}
use slam.MessageBuilder.Stack.{Nested, descriptor_lem}

same_id_refl : (id : ℤ) → same_id id id ≡ true
same_id_refl (pos n) = ground arith
same_id_refl (negsuc n) = ground arith

same_id_eq : (i j : ℤ) → same_id i j ≡ true → i ≡ j
same_id_eq (pos m) (pos n) e = ap pos (ground (arith, e))
same_id_eq (negsuc m) (negsuc n) e = ap negsuc (ground (arith, e))
same_id_eq (pos m) (negsuc n) e = absurd (ground (arith, e))
same_id_eq (negsuc m) (pos n) e = absurd (ground (arith, e))

module _ {L F C M D G : Type 0} (lua : Lua L F C) (protobuf : Protobuf M D G F) where
  pub get_message_found :
      (parser : MessageParser M) (msgid : ℤ) (m : M)
      → find parser msgid ≡ some m
      → get_message lua protobuf parser msgid ≡ (some m, parser)
  unfolding get_message
  get_message_found parser msgid m e = rw (get_message, e) refl

  find-insert_same :
      (parser : MessageParser M) (msgid : ℤ) (m : M) → find (insert parser msgid m) msgid ≡ some m
  unfolding find find_in
  find-insert_same parser msgid m = rw (same_id_refl msgid) refl

  find-insert_other :
      (parser : MessageParser M) (msgid other : ℤ) (m : M)
      → other ≢ msgid
      → find (insert parser msgid m) other ≡ find parser other
  unfolding find find_in
  find-insert_other parser msgid other m differ = elim (Bool-cases (same_id msgid other)) [
    | inl b ↦ absurd (differ (sym (same_id_eq msgid other b)))
    | inr b ↦ rw b refl
  ]

  register_known :
      (parser : MessageParser M) (msgid : ℤ) (m : M) (name : Text)
      → find parser msgid ≡ some m
      → builder_register lua protobuf (some parser) msgid name ≡ (false, some parser)
  unfolding builder_register registe_message
  register_known parser msgid m name e = rw (registe_message, e) refl

  register_new :
      (parser : MessageParser M) (msgid : ℤ) (m : M) (name : Text)
      → find parser msgid ≡ none
      → new_message_named lua protobuf name ≡ some m
      → builder_register lua protobuf (some parser) msgid name
        ≡ (true, some (insert parser msgid m))
  unfolding builder_register registe_message
  register_new parser msgid m name e n = rw (registe_message, e, n) refl

  -- An id without a message that is registered with a name that has a type gets a new message of that
  -- type, every other id keeps what it had, and the id is then refused, whatever the name.
  pub builder_register_lem :
      (parser : MessageParser M) (msgid other : ℤ) (name again : Text) (m : M)
      → find parser msgid ≡ none
      → new_message_named lua protobuf name ≡ some m
      → other ≢ msgid
      → (after : MessageParser M) × (builder_register lua protobuf (some parser) msgid name
          ≡ (true, some after))
        × (find after msgid ≡ some m)
        × (find after other ≡ find parser other)
        × (builder_register lua protobuf (some after) msgid again ≡ (false, some after))
  builder_register_lem parser msgid other name again m e n differ =
      let found = find-insert_same parser msgid m in
      (
        insert parser msgid m,
        register_new parser msgid m name e n,
        found,
        find-insert_other parser msgid other m differ,
        register_known (insert parser msgid m) msgid m again found,
      )

  -- a buffer that is no message of its type, and one that is
  parse_fails :
      (depth : ℕ) (parser : MessageParser M) (l : L) (msgid : ℤ) (buf : List ℕ) (m m1 : M)
      (descriptor : D)
      → find parser msgid ≡ some m
      → protobuf.find_type (protobuf.type_name (protobuf.clear m)) ≡ some descriptor
      → protobuf.parse (protobuf.clear m) buf ≡ (false, m1)
      → message_parser_decode lua protobuf depth parser l msgid buf
        ≡ ret (false, l, change parser msgid m1)
  unfolding message_parser_decode change
  parse_fails depth parser l msgid buf m m1 descriptor e1 e2 e3 =
      let g = get_message_found parser msgid m e1 in
      rw (message_parser_decode, ap (λ p. p.0) g, e2, ap (λ p. p.0) e3, ap (λ p. p.1) e3)
        (ap (λ p. ret (false, l, change p.1 msgid m1)) g)

  parse_works :
      (depth : ℕ) (parser : MessageParser M) (l l' : L) (msgid : ℤ) (buf : List ℕ) (m m1 : M)
      (descriptor : D)
      → find parser msgid ≡ some m
      → protobuf.find_type (protobuf.type_name (protobuf.clear m)) ≡ some descriptor
      → protobuf.parse (protobuf.clear m) buf ≡ (true, m1)
      → decode_descriptor lua protobuf depth descriptor (lua.new_table l) m1 ≡ ret (true, l')
      → message_parser_decode lua protobuf depth parser l msgid buf
        ≡ ret (true, l', change parser msgid m1)
  unfolding message_parser_decode change
  parse_works depth parser l l' msgid buf m m1 descriptor e1 e2 e3 run =
      let g = get_message_found parser msgid m e1 in
      rw (message_parser_decode, ap (λ p. p.0) g, e2, ap (λ p. p.0) e3, ap (λ p. p.1) e3, run)
        (ap (λ p. ret (true, l', change p.1 msgid m1)) g)

  calls :
      (depth : ℕ) (parser parser' : MessageParser M) (l l' : L) (msgid : ℤ) (buf : List ℕ)
      (rc : Bool)
      → 0 < length buf
      → message_parser_decode lua protobuf depth parser l msgid buf ≡ ret (rc, l', parser')
      → builder_decode lua protobuf depth (some parser) l msgid (some buf)
        ≡ ret (rc, l', some parser')
  unfolding builder_decode
  calls depth parser parser' l l' msgid buf rc some_bytes run =
      let e : ltb 0 (length buf) ≡ true = ground (arith, some_bytes) in rw (e, run) refl

  module _ (height : L → ℕ)
      (push_boolean : (l : L) (b : Bool) → height (lua.push_boolean l b) ≡ height l + 1)
      (stack : IsStack lua height) where
    -- For a registered id whose message has a type, and a buffer that has bytes: if protobuf takes the bytes
    -- for a message in which messages lie no deeper than the fuel, decoding succeeds and leaves one value
    -- more on the stack, and if not, it fails and leaves the stack as it was. Either way the id's message
    -- is what protobuf made of the bytes.
    pub builder_decode_lem :
        (depth : ℕ) (parser : MessageParser M) (l : L) (msgid : ℤ) (buf : List ℕ) (m m1 : M)
        (descriptor : D) (parsed : Bool)
        → find parser msgid ≡ some m
        → protobuf.find_type (protobuf.type_name (protobuf.clear m)) ≡ some descriptor
        → protobuf.parse (protobuf.clear m) buf ≡ (parsed, m1)
        → (parsed ≡ true → Nested protobuf depth descriptor m1)
        → 0 < length buf
        → (l' : L) × (builder_decode lua protobuf depth (some parser) l msgid (some buf)
            ≡ ret (parsed, l', some (change parser msgid m1)))
          × (height l' ≡ height l + (if parsed then 1 else 0))
    builder_decode_lem depth parser l msgid buf m m1 descriptor false e1 e2 e3 nested some_bytes = (
      l,
      calls depth parser _ l l msgid buf false some_bytes
          (parse_fails depth parser l msgid buf m m1 descriptor e1 e2 e3),
      omega arith,
    )
    builder_decode_lem depth parser l msgid buf m m1 descriptor true e1 e2 e3 nested some_bytes =
        let (l', run, h) =
          descriptor_lem lua protobuf height push_boolean stack depth descriptor (lua.new_table l)
            m1 (nested refl) (omega (arith, stack.new_table l)) in
        (
          l',
          calls depth parser _ l l' msgid buf true some_bytes
              (parse_works depth parser l l' msgid buf m m1 descriptor e1 e2 e3 run),
          h ∙ stack.new_table l,
        )
