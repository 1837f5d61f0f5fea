-- ===== src/Lua/Printing.antt =====
-- src/slam_lua.c: what it prints of Lua's values, as the list of the lines handed to the log.
use slam.Base.{
  ℕ, zero, suc, ◌+◌, ℤ, pos, minus_one, Bool, true, false, List, [], ◌∷◌, ◌++◌, Run, ret, stuck,
  ◌>>=◌, ◌&&◌, if◌then◌else◌,
}
use slam.Lua.Api.{
  Lua, Text, text, top, second, Kind, is_table, is_none, is_nil, is_boolean, is_function,
  is_lightuserdata, is_thread,
}
use slam.Lua.Registering.{namespace}

-- a line, as the format of a call of the log and its arguments
pub data Line : Type 0 where
  stack_height : ℕ → Line
  on_stack : Text → Kind → Line
  entry : Text → Text → Text → Line
  title opening closing : Text → Line

module _ {L F C : Type 0} (lua : Lua L F C) where
  -- `slam_lua_tostring`, and `slam_L_tostring`, which has the same body on a `lua_State`
  unfoldable pub tostring : L → ℤ → Text × L
  tostring l idx =
      if is_table lua l idx
      then (text "[table]", l)
      else if is_none lua l idx
      then (text "[none]", l)
      else if is_nil lua l idx
      then (text "[nil]", l)
      else if is_boolean lua l idx
      then (if lua.to_boolean l idx then (text "[true]", l) else (text "[false]", l))
      else if is_function lua l idx
      then (text "[function]", l)
      else if lua.is_userdata l idx
      then (text "[userdata]", l)
      else if is_lightuserdata lua l idx
      then (text "[lightuserdata]", l)
      else if is_thread lua l idx
      then (text "[thread]", l)
      else lua.to_string l idx

  -- the loop of `slam_lua_tracestack`, for `n` places from `i` on
  unfoldable pub trace_places : ℕ → ℕ → L → List Line × L
  unfolding tostring
  trace_places zero i l = ([], l)
  trace_places (suc n) i l =
      let (s, l1) = tostring l (pos i) in
      let (rest, l2) = trace_places n (i + 1) l1 in
      (Line.on_stack s (lua.kind l1 (pos i)) ∷ rest, l2)

  -- `slam_lua_tracestack`
  unfoldable pub tracestack : L → List Line × L
  unfolding trace_places
  tracestack l =
      let (lines, l') = trace_places (lua.get_top l) 1 l in
      (Line.stack_height (lua.get_top l) ∷ lines, l')

  -- a round of `slam_lua_dump_table` reads the key and the value
  unfoldable pub read_entry : L → Text × Text × L
  unfolding tostring
  read_entry l =
      let (key, l1) = lua.to_string (lua.push_value l second) top in
      let (value, l2) = tostring l1 second in (key, value, lua.pop l2 1)

  -- `slam_lua_dump_table` from its loop on, with fuel for the entries, those of the namespace included;
  -- `same_name` is `strcasecmp`, and `deeper` the prefix with two tabulators that fits its buffer.
  unfoldable pub dump_entries :
      (Text → Text → Bool) → (Text → Text) → ℕ → L → ℤ → Text → Run (List Line × L)
  unfolding read_entry
  dump_entries same_name deeper zero l idx prefix = stuck
  dump_entries same_name deeper (suc fuel) l idx prefix =
      let (more, l1) = lua.next l idx in
      let (key, value, l2) = read_entry l1 in
      let inner =
        dump_entries same_name deeper fuel (lua.push_nil l2) (pos (lua.get_top l2))
          (deeper prefix) in
      elim more [
        | false ↦ ret ([], l1)
        | true ↦
            (if is_table lua l2 minus_one && same_name key namespace
              then (inner >>= λ (lines, l3).
                  ret ((Line.opening prefix ∷ lines) ++ (Line.closing prefix ∷ []), l3))
              else ret ([], l2))
            >>= λ (lines, l3).
                dump_entries same_name deeper fuel (lua.pop l3 1) idx prefix >>= λ (rest, l4).
                ret (Line.entry prefix key value ∷ (lines ++ rest), l4)
      ]

  -- `slam_lua_dump_table`
  unfoldable pub dump_table :
      (Text → Text → Bool) → (Text → Text) → ℕ → L → ℤ → Text → Run (List Line × L)
  unfolding dump_entries
  dump_table same_name deeper fuel l idx prefix =
      dump_entries same_name deeper fuel (lua.push_nil l) idx prefix

  -- `slam_lua_dump_root_table`, whose prefix is a tabulator, and `slam_lua_dump_registry_table`, which has
  -- `lua_getregistry` for the first call
  unfoldable pub dump_whole :
      (Text → Text → Bool) → (Text → Text) → Text → ℕ → L → Run (List Line × L)
  unfolding dump_table
  dump_whole same_name deeper name fuel l =
      dump_table same_name deeper fuel l (pos (lua.get_top l)) (9 ∷ []) >>= λ (lines, l').
      ret ((Line.title name ∷ Line.opening [] ∷ lines) ++ (Line.closing [] ∷ []), lua.pop l' 1)

  unfoldable pub dump_root_table :
      (Text → Text → Bool) → (Text → Text) → ℕ → L → Run (List Line × L)
  unfolding dump_whole
  dump_root_table same_name deeper fuel l =
      dump_whole same_name deeper (text "dump root table") fuel (lua.get_global l (text "_G"))

  unfoldable pub dump_registry_table :
      (Text → Text → Bool) → (Text → Text) → ℕ → L → Run (List Line × L)
  unfolding dump_whole
  dump_registry_table same_name deeper fuel l =
      dump_whole same_name deeper (text "dump registry table") fuel (lua.push_value l lua.registry)
