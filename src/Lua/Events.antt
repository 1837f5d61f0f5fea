-- ===== src/Lua/Events.antt =====
-- What the events of src/slam_lua_event.c leave on Lua's stack.
use slam.Base.{
  ℕ, ◌+◌, ◌≤◌, ℤ, pos, ◌≡◌, ◌∙◌, ap, Bool, true, false, not, Option, none, some, List, ◌∷◌, length,
  drop, arith, if◌then◌else◌,
}
use slam.Lua.Api.{Lua, Text, text, top, is_function, is_table}
use slam.Lua.Balance.{IsLua, pcall_lem}
use slam.Lua.Event.{event_start, event_establish_connection, event_message, call_handler, finish}
use slam.Protocol.{Protocol, find_name}

module _ {L F C V : Type 0} (lua : Lua L F C) (i : IsLua V lua) where
  -- The end of an event takes the function and its arguments.
  finish_lem :
      (l : L) (args : ℕ)
      → args + 1 ≤ length (i.stack l)
      → i.stack (finish lua l args).1 ≡ drop (args + 1) (i.stack l)
  finish_lem l args enough = pcall_lem lua i l args none enough

  guarded :
      (b : Bool) (x y : Bool × L) (s t : List V)
      → i.stack x.1 ≡ s
      → i.stack y.1 ≡ t
      → i.stack (if not b then x else y).1 ≡ (if b then t else s)
  guarded true x y s t h k = k
  guarded false x y s t h k = h

  -- Telling a script that the worker starts leaves the stack as it was if the script has a function
  -- for that, and the value that stands in its place, nil for none, if it has not.
  pub event_start_lem :
      (l : L)
      → i.stack (event_start lua l).1 ≡ (
          let name = text "slam_lua_event_start" in
          if is_function lua (lua.get_global l name) top
          then i.stack l
          else i.global l name ∷ i.stack l)
  unfolding event_start
  event_start_lem l =
      let name = text "slam_lua_event_start" in
      let l1 = lua.get_global l name in
      let e = i.get_global l name in
      guarded (is_function lua l1 top) (false, l1) (finish lua l1 0) (i.global l name ∷ i.stack l)
        (i.stack l) e (finish_lem l1 0 (omega (arith, ap length e)) ∙ ap (drop 1) e)

  -- The same of a new connection, whose descriptor is pushed and taken.
  pub event_establish_connection_lem :
      (l : L) (fd : ℤ)
      → i.stack (event_establish_connection lua l fd).1 ≡ (
          let name = text "slam_lua_event_establish_connection" in
          if is_function lua (lua.get_global l name) top
          then i.stack l
          else i.global l name ∷ i.stack l)
  unfolding event_establish_connection
  event_establish_connection_lem l fd =
      let name = text "slam_lua_event_establish_connection" in
      let l1 = lua.get_global l name in
      let e = i.get_global l name in
      let e1 = i.push_integer l1 fd ∙ ap (◌∷◌ (i.integer fd)) e in
      guarded (is_function lua l1 top) (false, l1) (finish lua (lua.push_integer l1 fd) 1)
        (i.global l name ∷ i.stack l) (i.stack l) e
        (finish_lem (lua.push_integer l1 fd) 1 (omega (arith, ap length e1)) ∙ ap (drop 2) e1)

  -- With the decoded table on the stack and a function for the name in the registry, the function and
  -- its three arguments are taken, and the table stays.
  call_handler_lem :
      (l : L) (fd msgid : ℤ) (name : Text)
      → is_table lua l top ≡ true
      → is_function lua (lua.get_table (lua.push_string l name) lua.registry) top ≡ true
      → i.stack (call_handler lua l fd msgid name).1 ≡ i.stack l
  unfolding call_handler
  call_handler_lem l fd msgid name table function =
      let place = pos (lua.get_top l) in
      let l1 = lua.get_table (lua.push_string l name) lua.registry in
      let l2 = lua.push_integer l1 fd in
      let l3 = lua.push_integer l2 msgid in
      let l4 = lua.push_value l3 place in
      let e1 =
        i.get_table (lua.push_string l name) (i.text name) (i.stack l) (i.push_string l name) in
      let e2 = i.push_integer l1 fd ∙ ap (◌∷◌ (i.integer fd)) e1 in
      let e3 = i.push_integer l2 msgid ∙ ap (◌∷◌ (i.integer msgid)) e2 in
      let e4 = i.push_value l3 place ∙ ap (◌∷◌ (i.at l3 place)) e3 in
      rw (table, function) (finish_lem l4 3 (omega (arith, ap length e4)) ∙ ap (drop 4) e4)

  chosen :
      (o : Option Text) (n : Bool × L) (f : Text → Bool × L) (name : Text)
      → o ≡ some name
      → elim o [ none ↦ n | some a ↦ f a ] ≡ f name
  chosen o n f name e = ap (λ o'. elim o' [ none ↦ n | some a ↦ f a ]) e

  -- A message that has a name, with its decoded table on the stack and a function for the name in the
  -- registry: the function and its three arguments are taken, and the table stays on the stack.
  pub event_message_lem :
      {B : Type 0} (protocol : Protocol B Text) (l : L) (fd msgid : ℤ) (name : Text)
      → find_name protocol msgid ≡ some name
      → is_table lua l top ≡ true
      → is_function lua (lua.get_table (lua.push_string l name) lua.registry) top ≡ true
      → i.stack (event_message lua protocol l fd msgid).1 ≡ i.stack l
  unfolding event_message
  event_message_lem protocol l fd msgid name found table function =
      ap (λ r. i.stack r.1)
        (chosen (find_name protocol msgid) (false, l) (call_handler lua l fd msgid) name found)
      ∙ call_handler_lem l fd msgid name table function
