-- ===== src/Lua/Registering.antt =====
-- src/slam_lua.c: states, files and the names that a script finds.
use slam.Base.{ℕ, ℤ, minus_one, Bool, Option, none, some, List, [], ◌∷◌, map, if◌then◌else◌}
use slam.Lua.Api.{Lua, Text, text, third}
use slam.Lua.Names.{require_command}
use slam.Lua.{dostring}

-- `struct slam_lua_s`
pub record LuaState (L : Type 0) : Type 0 where
  pub state : L
  pub entryfile : Option Text
  pub stack_size : ℕ

-- SLAM_LUA_REGISTER_NAMESPACE
abbrev pub namespace : Text
namespace = text "cc"

-- the names that `slam_lua_reg_std_func` registers
abbrev pub std_names : List Text
std_names =
    text "loadmsg"
    ∷ text "bindmsg"
    ∷ text "newserver"
    ∷ text "newclient"
    ∷ text "response"
    ∷ text "closesocket"
    ∷ text "newtimer"
    ∷ text "removetimer"
    ∷ []

-- the names of the methods that `slam_lua_reg_db_func` registers
abbrev pub db_names : List Text
db_names =
    text "execute"
    ∷ text "query"
    ∷ text "insert"
    ∷ text "update"
    ∷ text "insert_id"
    ∷ text "__gc"
    ∷ text "__tostring"
    ∷ []

module _ {L F C : Type 0} (lua : Lua L F C) where
  -- `slam_lua_newstate`, on the state that `luaL_newstate` gives
  unfoldable pub newstate : L → ℕ → L
  newstate fresh stack_size = lua.check_stack (lua.open_state fresh) stack_size

  -- `slam_lua_dofile`
  unfoldable pub dofile : L → Text → Bool × L
  unfolding dostring require_command
  dofile l filename = dostring lua l (require_command filename)

  -- `slam_lua_load_entryfile`
  unfoldable pub load_entryfile : LuaState L → Text → Bool × LuaState L
  unfolding dofile
  load_entryfile s entryfile =
      let (rc, l) = dofile s.state entryfile in
      if rc
      then (rc, record s { state = l; entryfile = some entryfile })
      else (rc, record s { state = l })

  -- `slam_lua_reg_namespace`
  unfoldable pub reg_namespace : L → Text → L
  reg_namespace l ns =
      let l1 = lua.get_global l (text "_G") in
      let l2 = lua.push_string l1 ns in
      let l3 = lua.new_table l2 in lua.pop (lua.raw_set l3 third) 1

  -- `slam_lua_begin_namespace`
  unfoldable pub begin_namespace : L → Text → L
  begin_namespace l ns =
      let l1 = lua.get_global l (text "_G") in
      lua.raw_get (lua.push_string l1 ns) slam.Lua.Api.second

  -- `slam_lua_end_namespace`
  unfoldable pub end_namespace : L → L
  end_namespace l = lua.pop l 2

  -- `slam_lua_reg_function`, and the macro LUA_REGISTER
  unfoldable pub reg_function : L → Text → C → L
  reg_function l func routine =
      lua.raw_set (lua.push_function (lua.push_string l func) routine) third

  -- `slam_lua_reg_global_function`
  unfoldable pub reg_global_function : L → Text → C → L
  unfolding reg_function
  reg_global_function l func routine =
      lua.pop (reg_function (lua.get_global l (text "_G")) func routine) 1

  -- `slam_lua_reg_integer`
  unfoldable pub reg_integer : L → Text → ℤ → L
  reg_integer l key value = lua.set_table (lua.push_integer (lua.push_string l key) value) third

  -- `slam_lua_reg_double`; `slam_lua_reg_long` is that on a converted value.
  unfoldable pub reg_double : L → Text → F → L
  reg_double l key value = lua.set_table (lua.push_number (lua.push_string l key) value) third

  -- `slam_lua_reg_string`
  unfoldable pub reg_string : L → Text → Text → L
  reg_string l key value = lua.set_table (lua.push_string (lua.push_string l key) value) third

  -- `slam_lua_new`, where `reg_std_func` is `slam_lua_reg_std_func`
  unfoldable pub new : (L → L) → L → ℕ → LuaState L
  unfolding newstate reg_namespace
  new reg_std_func fresh stack_size = record {
    state = reg_std_func (reg_namespace (newstate fresh stack_size) namespace);
    entryfile = none;
    stack_size = stack_size;
  }

  -- `slam_lua_delete`
  unfoldable pub delete : LuaState L → L
  delete s = lua.close s.state

  -- the registration of given functions one after the other
  abbrev pub reg_functions : L → List (Text × C) → L
  reg_functions l [] = l
  reg_functions l ((func, routine) ∷ rest) = reg_functions (reg_function l func routine) rest

  -- `slam_lua_reg_std_func`, for the functions of src/slam_lua_func.c in the order of `std_names`
  unfoldable pub reg_std_func : (Text → C) → L → L
  unfolding begin_namespace end_namespace reg_function
  reg_std_func routine l =
      let named : Text → Text × C = λ name. (name, routine name) in
      end_namespace (reg_functions (begin_namespace l namespace) (map named std_names))

  -- `slam_lua_reg_db_func`, where `new_metatable` is `luaL_newmetatable` and `set_field` is `lua_setfield`
  unfoldable pub reg_db_func : (L → Text → L) → (L → ℤ → Text → L) → (Text → C) → L → L
  unfolding begin_namespace end_namespace reg_function
  reg_db_func new_metatable set_field routine l =
      let named : Text → Text × C = λ name. (name, routine name) in
      let l1 = new_metatable (begin_namespace l namespace) (text "cc.DB") in
      let l2 = set_field (lua.push_value l1 minus_one) slam.Lua.Api.second (text "__index") in
      let l3 = end_namespace (reg_functions l2 (map named db_names)) in
      end_namespace
        (reg_function (begin_namespace l3 namespace) (text "newdb") (routine (text "newdb")))
