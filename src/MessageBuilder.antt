-- ===== src/MessageBuilder.antt =====
-- src/MessageBuilder: the C++ library that turns a script's tables into protobuf's messages and back.
pub mod Parser
pub mod Decoding
pub mod Encoding
pub mod Stack
pub mod Files
pub mod Loading
pub mod Decoded
pub mod Encoded
mod LoadingTests
mod Tests
use slam.Base.{
  ℕ, suc, ◌-◌, ◌%◌, ◌^◌, ℤ, pos, negsuc, Bool, Option, List, [], ◌∷◌, ◌==◌, if◌then◌else◌, ltb, u64,
}
use slam.Base.{int64 as to_int64}
use slam.Lua.Api.{Text}

-- `FieldDescriptor::CPPTYPE_INT32`, ...
pub data CppType : Type 0 where
  int32 int64 uint32 uint64 : CppType
  double float : CppType
  bool enumeration string message : CppType

-- The functions of protobuf, with `M` its messages, `D` the descriptors of messages and `G` those of
-- fields; `F` is a floating number. `Reflection::GetInt32`, `GetInt64`, `GetUInt32`, `GetUInt64` and
-- `GetEnumValue` are `get_integer` of a field of that type, `GetDouble` and `GetFloat` are `get_number`,
-- and so for `Set`, `Add` and `GetRepeated`. A pointer to a message within a message is that message,
-- which `put_message` puts back.
pub record Protobuf (M D G F : Type 0) : Type 0 where
  pub fields : D → List G
  pub name : G → Text
  pub is_repeated : G → Bool
  pub cpp_type : G → CppType
  pub message_type : G → D
  pub has_field : M → G → Bool
  pub field_size : M → G → ℕ
  pub get_integer : M → G → ℤ
  pub get_number : M → G → F
  pub get_bool : M → G → Bool
  pub get_string : M → G → Text
  pub get_message : M → G → M
  pub get_repeated_integer : M → G → ℕ → ℤ
  pub get_repeated_number : M → G → ℕ → F
  pub get_repeated_bool : M → G → ℕ → Bool
  pub get_repeated_string : M → G → ℕ → Text
  pub get_repeated_message : M → G → ℕ → M
  pub set_integer : M → G → ℤ → M
  pub set_number : M → G → F → M
  pub set_bool : M → G → Bool → M
  pub set_string : M → G → Text → M
  pub put_message : M → G → M → M
  pub add_integer : M → G → ℤ → M
  pub add_number : M → G → F → M
  pub add_bool : M → G → Bool → M
  pub add_string : M → G → Text → M
  -- the message that `AddMessage` makes, and the one that has it last
  pub new_message : M → G → M
  pub put_last_message : M → G → M → M
  pub narrow : F → F
  pub clear : M → M
  pub byte_size : M → ℕ
  pub type_name : M → Text
  pub find_type : Text → Option D
  -- a new message of a type
  pub prototype : D → Option M
  pub parse : M → List ℕ → Bool × M
  pub serialize : M → Option (List ℕ)

-- an integer as a `uint64_t`
abbrev pub unsigned : ℤ → ℕ
unsigned (pos n) = u64 n
unsigned (negsuc n) = 2 ^ 64 - 1 - u64 n

-- a number of any integer type as a `lua_Integer`
abbrev pub lua_integer : ℤ → ℤ
lua_integer n = to_int64 (unsigned n)

-- the `int32_t` with given bits
abbrev pub signed : ℕ → ℤ
signed w = if ltb w (2 ^ 31) then pos w else negsuc (2 ^ 32 - 1 - w)

-- a `lua_Integer` as a value of a field's type, an enumeration's being an `int`
abbrev pub field_integer : CppType → ℤ → ℤ
field_integer CppType.int64 n = lua_integer n
field_integer CppType.uint32 n = pos (unsigned n % 2 ^ 32)
field_integer CppType.uint64 n = pos (unsigned n)
field_integer _ n = signed (unsigned n % 2 ^ 32)

-- a string as C sees it
abbrev pub c_string : Text → Text
c_string [] = []
c_string (c ∷ s) = let rest = c_string s in if c == 0 then [] else c ∷ rest
