-- ===== src/Lua/Value.antt =====
-- src/slam_lua_value.c: a copy of a Lua value that outlives the stack.
use slam.Base.{ℤ, Bool, true, false, Run, ret, abort}
use slam.Lua.Api.{Text}

-- `struct slam_lua_value_s`: the tag and the member of the union that it stands for
pub data LuaValue (F : Type 0) : Type 0 where
  nil : LuaValue F
  boolean : Bool → LuaValue F
  integer : ℤ → LuaValue F
  number : F → LuaValue F
  string : Text → LuaValue F

module _ {F : Type 0} where
  -- `slam_lua_value_new`
  abbrev pub new : LuaValue F
  new = LuaValue.nil

  -- The setters write the tag and the member, whatever stood there.
  abbrev pub set_nil : LuaValue F → LuaValue F
  set_nil lvalue = LuaValue.nil

  abbrev pub set_boolean : LuaValue F → Bool → LuaValue F
  set_boolean lvalue value = LuaValue.boolean value

  abbrev pub set_integer : LuaValue F → ℤ → LuaValue F
  set_integer lvalue value = LuaValue.integer value

  abbrev pub set_number : LuaValue F → F → LuaValue F
  set_number lvalue value = LuaValue.number value

  abbrev pub set_string : LuaValue F → Text → LuaValue F
  set_string lvalue value = LuaValue.string value

  abbrev pub is_nil : LuaValue F → Bool
  is_nil LuaValue.nil = true
  is_nil _ = false

  abbrev pub is_boolean : LuaValue F → Bool
  is_boolean (LuaValue.boolean b) = true
  is_boolean _ = false

  abbrev pub is_integer : LuaValue F → Bool
  is_integer (LuaValue.integer n) = true
  is_integer _ = false

  abbrev pub is_number : LuaValue F → Bool
  is_number (LuaValue.number x) = true
  is_number _ = false

  abbrev pub is_string : LuaValue F → Bool
  is_string (LuaValue.string s) = true
  is_string _ = false

  unfoldable pub get_boolean : LuaValue F → Run Bool
  get_boolean (LuaValue.boolean b) = ret b
  get_boolean _ = abort

  unfoldable pub get_integer : LuaValue F → Run ℤ
  get_integer (LuaValue.integer n) = ret n
  get_integer _ = abort

  unfoldable pub get_number : LuaValue F → Run F
  get_number (LuaValue.number x) = ret x
  get_number _ = abort

  unfoldable pub get_string : LuaValue F → Run Text
  get_string (LuaValue.string s) = ret s
  get_string _ = abort
