-- ===== src/Lua.antt =====
-- src/slam_lua.c: calls into a Lua state. The functions of Lua are a parameter.
pub mod Api
pub mod Value
pub mod Names
pub mod Registering
pub mod Balance
pub mod Event
pub mod Events
pub mod Suffix
pub mod Sql
pub mod Commands
pub mod Assignments
pub mod Encoding
pub mod Inserting
pub mod Rows
pub mod Decoding
pub mod Querying
pub mod Func
pub mod Responding
pub mod Timers
pub mod Scheduling
pub mod Printing
pub mod Database
pub mod Sample
mod Tests
mod SqlTests
mod InsertingTests
mod QueryingTests
mod SchedulingTests
mod PrintingTests
mod RespondingTests
use slam.Base.{
  ℕ, zero, suc, ◌+◌, ℤ, pos, negsuc, Bool, true, false, not, Option, none, some, List, [], ◌∷◌, Run,
  ret, ◌>>=◌, if◌then◌else◌,
}
use Api.{Lua, Text, text, top, is_function, is_boolean, is_nil}
use Value.{
  LuaValue, get_boolean, get_integer, get_number, get_string, set_boolean, set_integer, set_nil,
  set_number, set_string,
}
use Value

-- whether `traceback` is not 0
abbrev pub has_traceback : ℤ → Bool
has_traceback (pos n) = false
has_traceback (negsuc n) = true

module _ {L F C : Type 0} (lua : Lua L F C) where
  -- `slam_is_integer` of src/slam_utils.c
  abbrev pub slam_is_integer : F → Bool
  slam_is_integer value = lua.same_number value (lua.from_integer (lua.truncate value))

  -- what `slam_lua_pcall` puts into `lvalue` of the value at a place, in the branch of a number
  abbrev pub copy_number : L → ℤ → LuaValue F → LuaValue F
  copy_number l i lvalue =
      if slam_is_integer (lua.to_number l i)
      then set_integer lvalue (lua.to_integer l i)
      else set_number lvalue (lua.to_number l i)

  -- the chain of tests under `if (lvalue != nullptr)` of `slam_lua_pcall`; a value of another type
  -- leaves `lvalue` as it was.
  unfoldable pub fetch : L → LuaValue F → LuaValue F × L
  fetch l lvalue =
      if is_boolean lua l top
      then (set_boolean lvalue (lua.to_boolean l top), l)
      else if lua.is_number l top
      then (copy_number l top lvalue, l)
      else if lua.is_string l top
      then (let (s, l') = lua.to_string l top in (set_string lvalue s, l'))
      else (lvalue, l)

  -- the error handler of a script, below the function and its arguments, or nothing: the state, and the
  -- place of the handler, which is 0 if there is none
  unfoldable pub put_traceback : L → ℕ → ℤ × L
  put_traceback l args =
      let l1 = lua.get_global l (text "__G_TRACKBACK__") in
      if not (is_function lua l1 top)
      then (pos 0, lua.pop l1 1)
      else (negsuc (args + 1), lua.insert l1 (negsuc (args + 1)))

  -- the error message is printed and removed, and the handler with it
  unfoldable pub drop_error : L → ℤ → L
  drop_error l traceback =
      if has_traceback traceback then lua.pop l 2 else lua.pop (lua.to_string l top).1 1

  -- the value is stored where one is wanted, and removed, and the handler after it
  unfoldable pub take_value : L → ℤ → Option (LuaValue F) → Option (LuaValue F) × L
  unfolding fetch
  take_value l traceback lvalue =
      let (lvalue', l1) = elim lvalue as (λ x. Option (LuaValue F) × L) [
        | none ↦ (none, l)
        | some v ↦ (let (v', l') = fetch l v in (some v', l'))
      ] in
      let l2 = lua.pop l1 1 in (lvalue', if has_traceback traceback then lua.pop l2 1 else l2)

  -- `slam_lua_pcall`; `lvalue` is `none` for the null pointer.
  unfoldable pub pcall : L → ℕ → Option (LuaValue F) → Bool × Option (LuaValue F) × L
  unfolding put_traceback drop_error take_value
  pcall l args lvalue =
      if not (is_function lua l (negsuc args))
      then (false, lvalue, lua.pop l (args + 1))
      else (let (traceback, l1) = put_traceback l args in
          let (error, l2) = lua.pcall l1 args 1 traceback in
          if error
          then (false, lvalue, drop_error l2 traceback)
          else (let (lvalue', l3) = take_value l2 traceback lvalue in (true, lvalue', l3)))

  -- `slam_lua_dostring`
  unfoldable pub dostring : L → Text → Bool × L
  unfolding pcall
  dostring l str = let (rc, lvalue, l') = pcall (lua.load_string l str).1 0 none in (rc, l')

  -- `slam_lua_cleanup`
  unfoldable pub cleanup : L → L
  cleanup l = lua.set_top l 0

  -- `slam_lua_pushvalue`; `none` is the null pointer.
  unfoldable pub push_lvalue : L → Option (LuaValue F) → Run L
  unfolding get_integer get_number get_boolean get_string
  push_lvalue l none = ret (lua.push_nil l)
  push_lvalue l (some lvalue) =
      if Value.is_nil lvalue
      then ret (lua.push_nil l)
      else if Value.is_integer lvalue
      then (get_integer lvalue >>= λ n. ret (lua.push_integer l n))
      else if Value.is_number lvalue
      then (get_number lvalue >>= λ x. ret (lua.push_number l x))
      else if Value.is_boolean lvalue
      then (get_boolean lvalue >>= λ b. ret (lua.push_boolean l b))
      else if Value.is_string lvalue
      then (get_string lvalue >>= λ s. ret (lua.push_string l s))
      else ret (lua.push_nil l)

  -- `slam_lua_ref`, `slam_lua_unref` and `slam_lua_get_value_by_ref`
  unfoldable pub ref : L → ℤ × L
  ref l = lua.ref l lua.registry

  unfoldable pub unref : L → ℤ → L
  unref l r = lua.unref l lua.registry r

  unfoldable pub get_value_by_ref : L → ℤ → L
  get_value_by_ref l r = lua.raw_geti l lua.registry r
