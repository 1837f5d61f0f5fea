-- ===== src/Lua/Event.antt =====
-- src/slam_lua_event.c: the functions of a script that a worker calls. Each gives the result of the
-- function in the source and the Lua state of the worker.
use slam.Base.{ℕ, ℤ, pos, Bool, false, not, Option, none, some, Run, ret, ◌>>=◌, if◌then◌else◌}
use slam.Lua.Api.{Lua, Text, text, top, is_function, is_table}
use slam.Lua.Value.{LuaValue}
use slam.Lua.{pcall, push_lvalue, get_value_by_ref, cleanup}
use slam.Protocol.{Protocol, find_name}

module _ {L F C : Type 0} (lua : Lua L F C) where
  -- the end of an event whose arguments are pushed
  abbrev pub finish : L → ℕ → Bool × L
  finish l args = let (rc, lvalue, l') = pcall lua l args none in (rc, l')

  -- `slam_lua_event_start`
  unfoldable pub event_start : L → Bool × L
  event_start l =
      let l1 = lua.get_global l (text "slam_lua_event_start") in
      if not (is_function lua l1 top) then (false, l1) else finish l1 0

  -- `slam_lua_event_stop`
  unfoldable pub event_stop : L → Bool × L
  event_stop l =
      let l1 = lua.get_global l (text "slam_lua_event_stop") in
      if not (is_function lua l1 top) then (false, l1) else finish l1 0

  -- `slam_lua_event_establish_connection`
  unfoldable pub event_establish_connection : L → ℤ → Bool × L
  event_establish_connection l fd =
      let l1 = lua.get_global l (text "slam_lua_event_establish_connection") in
      if not (is_function lua l1 top) then (false, l1) else finish (lua.push_integer l1 fd) 1

  -- `slam_lua_event_lost_connection`
  unfoldable pub event_lost_connection : L → ℤ → Bool × L
  event_lost_connection l fd =
      let l1 = lua.get_global l (text "slam_lua_event_lost_connection") in
      if not (is_function lua l1 top) then (false, l1) else finish (lua.push_integer l1 fd) 1

  -- `slam_lua_event_message` from the check of the table on
  unfoldable pub call_handler : L → ℤ → ℤ → Text → Bool × L
  call_handler l fd msgid ref_name =
      if not (is_table lua l top)
      then (false, l)
      else (let t_index = lua.get_top l in
          let l1 = lua.get_table (lua.push_string l ref_name) lua.registry in
          if not (is_function lua l1 top)
          then (false, l1)
          else (let l2 = lua.push_integer (lua.push_integer l1 fd) msgid in
              finish (lua.push_value l2 (pos t_index)) 3))

  -- `slam_lua_event_message`
  unfoldable pub event_message : {B : Type 0} → Protocol B Text → L → ℤ → ℤ → Bool × L
  event_message protocol l fd msgid = elim (find_name protocol msgid) [
    | none ↦ (false, l)
    | some ref_name ↦ call_handler l fd msgid ref_name
  ]

  -- `slam_lua_event_timer`, for the reference and the context of a timer
  unfoldable pub event_timer : L → ℤ → Option (LuaValue F) → Run (Bool × L)
  unfolding get_value_by_ref push_lvalue cleanup
  event_timer l ref ctx =
      let l1 = get_value_by_ref lua l ref in
      if not (is_function lua l1 top)
      then ret (false, l1)
      else (push_lvalue lua (lua.push_integer l1 ref) ctx >>= λ l2.
          let (rc, l3) = finish l2 2 in ret (rc, cleanup lua l3))
