-- ===== src/Lua/Api.antt =====
-- The functions of Lua's C interface that src/slam_lua*.c call, as operations on a state. What they do
-- is a parameter of the models that use them.
use Prim.Native.String.{String}
use Prim.Native.Char.{code}
use slam.Base.{ℕ, ℤ, negsuc, minus_one, Bool, true, false, List, [], ◌∷◌}

-- a C string, or the bytes of a Lua string
abbrev pub Text : Type 0
Text = List ℕ

abbrev pub text : String → Text
text String.[] = []
text (String.◌∷◌ c s) = code c ∷ text s

-- LUA_TNONE, LUA_TNIL, ... of lua.h
pub data Kind : Type 0 where
  none_kind : Kind
  nil : Kind
  boolean : Kind
  lightuserdata : Kind
  number : Kind
  string : Kind
  table : Kind
  function : Kind
  userdata : Kind
  thread : Kind

-- `L` is the state, `F` the type of `lua_Number` and `C` that of C functions. A place on the stack is
-- a position from the bottom, or a negative number from the top.
pub record Lua (L F C : Type 0) : Type 0 where
  pub registry : ℤ
  pub get_top : L → ℕ
  pub set_top : L → ℕ → L
  pub pop : L → ℕ → L
  pub push_value : L → ℤ → L
  pub insert : L → ℤ → L
  pub remove : L → ℤ → L
  pub kind : L → ℤ → Kind
  pub is_number : L → ℤ → Bool
  pub is_string : L → ℤ → Bool
  pub is_userdata : L → ℤ → Bool
  pub to_boolean : L → ℤ → Bool
  pub to_integer : L → ℤ → ℤ
  pub to_number : L → ℤ → F
  -- changes a number at that place into a string
  pub to_string : L → ℤ → Text × L
  pub push_nil : L → L
  pub push_boolean : L → Bool → L
  pub push_integer : L → ℤ → L
  pub push_number : L → F → L
  pub push_string : L → Text → L
  pub push_function : L → C → L
  pub new_table : L → L
  pub get_global : L → Text → L
  pub get_table : L → ℤ → L
  pub set_table : L → ℤ → L
  pub raw_get : L → ℤ → L
  pub raw_set : L → ℤ → L
  pub raw_geti : L → ℤ → ℤ → L
  -- whether there was an entry left
  pub next : L → ℤ → Bool × L
  pub ref : L → ℤ → ℤ × L
  pub unref : L → ℤ → ℤ → L
  -- whether there was an error
  pub pcall : L → ℕ → ℕ → ℤ → Bool × L
  pub load_string : L → Text → Bool × L
  pub open_state : L → L
  pub check_stack : L → ℕ → L
  pub close : L → L
  -- arithmetic on `lua_Number`
  pub truncate : F → ℤ
  pub from_integer : ℤ → F
  pub same_number : F → F → Bool

-- -1, -2 and -3
abbrev pub top : ℤ
top = minus_one

abbrev pub second : ℤ
second = negsuc 1

abbrev pub third : ℤ
third = negsuc 2

-- the macros on `lua_type`
abbrev pub is_function_kind : Kind → Bool
is_function_kind Kind.function = true
is_function_kind _ = false

abbrev pub is_table_kind : Kind → Bool
is_table_kind Kind.table = true
is_table_kind _ = false

abbrev pub is_boolean_kind : Kind → Bool
is_boolean_kind Kind.boolean = true
is_boolean_kind _ = false

abbrev pub is_nil_kind : Kind → Bool
is_nil_kind Kind.nil = true
is_nil_kind _ = false

abbrev pub is_none_kind : Kind → Bool
is_none_kind Kind.none_kind = true
is_none_kind _ = false

abbrev pub is_lightuserdata_kind : Kind → Bool
is_lightuserdata_kind Kind.lightuserdata = true
is_lightuserdata_kind _ = false

abbrev pub is_thread_kind : Kind → Bool
is_thread_kind Kind.thread = true
is_thread_kind _ = false

module _ {L F C : Type 0} (lua : Lua L F C) where
  abbrev pub is_function : L → ℤ → Bool
  is_function l i = is_function_kind (lua.kind l i)

  abbrev pub is_table : L → ℤ → Bool
  is_table l i = is_table_kind (lua.kind l i)

  abbrev pub is_boolean : L → ℤ → Bool
  is_boolean l i = is_boolean_kind (lua.kind l i)

  abbrev pub is_nil : L → ℤ → Bool
  is_nil l i = is_nil_kind (lua.kind l i)

  abbrev pub is_none : L → ℤ → Bool
  is_none l i = is_none_kind (lua.kind l i)

  abbrev pub is_lightuserdata : L → ℤ → Bool
  is_lightuserdata l i = is_lightuserdata_kind (lua.kind l i)

  abbrev pub is_thread : L → ℤ → Bool
  is_thread l i = is_thread_kind (lua.kind l i)
