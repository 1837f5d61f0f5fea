-- ===== src/MessageBuilder/Tests.antt =====
-- Messages of src/MessageBuilder on concrete data, and each theorem at a concrete input.
use slam.Base.{
  ◌≤◌, Option, ℕ, ℤ, pos, negsuc, ◌≡◌, ◌^◌, ◌-◌, refl, Bool, true, false, none, some, List, [], ◌∷◌,
  length, length-drop, get_or, ret, arith,
}
use slam.Lua.Api.{top, second, Text, text}
use slam.Lua.Decoding.{IsStack}
use slam.Lua.Sample.{lists, Thing, table, routine}
use slam.MessageBuilder.{Protobuf, CppType, field_integer, lua_integer}
use slam.MessageBuilder.Encoding.{encode_descriptor}
use slam.MessageBuilder.Parser.{message_parser_encode, MessageParser, find, change, builder_decode}
use slam.MessageBuilder.Decoded.{builder_decode_lem}
use slam.MessageBuilder.Encoded.{IsReading, Left, message_parser_encode_lem}
use slam.Message.Cells.{Cell}

-- A party has a size and members, which are parties without members: here, their sizes.
record Party : Type 0 where
  size : ℤ
  members : List ℤ

data Field : Type 0 where
  size title members : Field

abbrev party : ℤ → List ℤ → Party
party n ms = record { size = n; members = ms }

abbrev empty : Party
empty = party (pos 0) []

abbrev name_of : Field → Text
name_of Field.size = text "size"
name_of Field.title = text "title"
name_of Field.members = text "members"

abbrev type_of : Field → CppType
type_of Field.size = CppType.int32
type_of Field.title = CppType.string
type_of Field.members = CppType.message

abbrev many : Field → Bool
many Field.members = true
many _ = false

-- A protobuf with one type, whose fields are given: a buffer of bytes is a party of two.
abbrev parties : List Field → Protobuf Party (Unit {0}) Field ℤ
parties fields = record {
  fields = λ d. fields;
  name = name_of;
  is_repeated = many;
  cpp_type = type_of;
  message_type = λ g. tt;
  has_field = λ m g. true;
  field_size = λ m g. length m.members;
  get_integer = λ m g. m.size;
  get_number = λ m g. m.size;
  get_bool = λ m g. true;
  get_string = λ m g. text "raid";
  get_message = λ m g. m;
  get_repeated_integer = λ m g i. m.size;
  get_repeated_number = λ m g i. m.size;
  get_repeated_bool = λ m g i. true;
  get_repeated_string = λ m g i. [];
  get_repeated_message = λ m g i. party (get_or m.members i (pos 0)) [];
  set_integer = λ m g n. party n m.members;
  set_number = λ m g n. party n m.members;
  set_bool = λ m g b. m;
  set_string = λ m g s. m;
  put_message = λ m g p. m;
  add_integer = λ m g n. m;
  add_number = λ m g n. m;
  add_bool = λ m g b. m;
  add_string = λ m g s. m;
  new_message = λ m g. empty;
  put_last_message = λ m g p. party m.size (p.size ∷ m.members);
  narrow = λ x. x;
  clear = λ m. empty;
  byte_size = λ m. 0;
  type_name = λ m. text "Party";
  find_type = λ s. some tt;
  prototype = λ d. some empty;
  parse = λ m buf. (true, party (pos 2) (pos 1 ∷ pos 1 ∷ []));
  serialize = λ m. some (1 ∷ []);
}

abbrev height : List Thing → ℕ
height l = length l

lists-IsStack : IsStack lists height
lists-IsStack = record {
  push_nil = λ l. omega arith;
  push_integer = λ l n. omega arith;
  push_number = λ l x. omega arith;
  push_string = λ l s. omega arith;
  new_table = λ l. omega arith;
  set_table = λ l h. omega (arith, length-drop 2 l);
}

abbrev known : MessageParser Party
known = record { messages = (pos 3, empty) ∷ [] }

builder_decode_lem_example :
    (l' : List Thing) × (builder_decode lists
        (parties (Field.size ∷ Field.title ∷ Field.members ∷ []))
        2
        (some known)
        []
        (pos 3)
        (some (8 ∷ []))
      ≡ ret (true, l', some (change known (pos 3) (party (pos 2) (pos 1 ∷ pos 1 ∷ [])))))
    × (height l' ≡ 1)
unfolding find
builder_decode_lem_example =
    builder_decode_lem lists (parties (Field.size ∷ Field.title ∷ Field.members ∷ [])) height
      (λ l b. omega arith) lists-IsStack 2 known [] (pos 3) (8 ∷ []) empty
      (party (pos 2) (pos 1 ∷ pos 1 ∷ [])) tt true refl refl refl
      (λ e. (tt, (tt, ((λ i h. (tt, (tt, ((λ j k. absurd (omega (arith, k))), tt)))), tt))))
      (omega arith)

look_up-height : (l : List Thing) → 2 ≤ height l → height (lists.get_table l second) ≡ height l
look_up-height [] h = absurd (omega arith)
look_up-height (v ∷ vs) h = refl

convert-height : (l : List Thing) → 1 ≤ height l → height (lists.to_string l top).1 ≡ height l
convert-height [] h = absurd (omega arith)
convert-height (v ∷ vs) h = refl

lists-IsReading : IsReading lists height
lists-IsReading = record {
  push_string = λ l s. omega arith;
  get_table = look_up-height;
  pop = λ l n h. omega (arith, length-drop n l);
  to_string = convert-height;
}

message_parser_encode_lem_example :
    (buf : Option (List Cell)) × (l' : List Thing) × (parser' : MessageParser Party)
    × (message_parser_encode lists
          (parties (Field.size ∷ Field.title ∷ []))
          1
          4
          known
          (table ∷ [])
          (pos 3)
          18
        ≡ ret (buf, l', parser'))
    × Left 0 1 1 buf (height l')
unfolding find
message_parser_encode_lem_example =
    message_parser_encode_lem lists (parties (Field.size ∷ Field.title ∷ [])) height lists-IsReading
      1 4 known (table ∷ []) (pos 3) 18 empty tt refl refl refl (refl, tt, (refl, tt, tt))
      (omega arith)

-- A table whose size is no number becomes a party of size 0.
encode_test :
    encode_descriptor lists (parties (Field.size ∷ [])) 1 1 tt (table ∷ []) (party (pos 5) [])
    ≡ ret (some true, table ∷ [], empty)
unfolding encode_descriptor
encode_test = refl

-- A title that is no string throws an exception, and stays on the stack.
encode_throws :
    encode_descriptor lists (parties (Field.title ∷ [])) 1 1 tt (table ∷ []) empty
    ≡ ret (none, routine ∷ (table ∷ []), empty)
unfolding encode_descriptor
encode_throws = refl

-- Large numbers wrap.
field_integer_test : field_integer CppType.int32 (pos (2 ^ 31)) ≡ negsuc (2 ^ 31 - 1)
field_integer_test = refl

lua_integer_test : lua_integer (pos (2 ^ 64 - 1)) ≡ negsuc 0
lua_integer_test = refl
