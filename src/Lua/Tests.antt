-- ===== src/Lua/Tests.antt =====
-- Each theorem of the calls at a concrete input.
use slam.Base.{
  ℕ, ◌≤◌, pos, ◌≡◌, refl, ap, true, none, some, List, [], ◌∷◌, ◌++◌, length, take, drop, arith,
}
use slam.Lua.Api.{Text, text}
use slam.Lua.Value.{LuaValue}
use slam.Lua.{pcall}
use slam.Lua.Names.{strip, last_dot, same_word}
use slam.Lua.Event.{event_start, event_message}
use slam.Lua.Balance.{IsLua, pcall_lem}
use slam.Lua.Events.{event_start_lem, event_message_lem}
use slam.Lua.Sample.{
  Thing, count, word, table, routine, lists, move, convert, look_up, from_top, word_of,
}
use slam.Protocol.{Protocol}

moved :
    (l : List Thing) (n : ℕ) (v : Thing) (vs : List Thing)
    → l ≡ v ∷ vs
    → n ≤ length vs
    → move n l ≡ take n vs ++ (v ∷ drop n vs)
moved l n v vs e h = ap (move n) e

converted :
    (l : List Thing) (v : Thing) (vs : List Thing)
    → l ≡ v ∷ vs
    → (v' : Thing) × (convert l ≡ v' ∷ vs)
converted l v vs e = (word (word_of v), ap convert e)

abbrev lists-IsLua : IsLua Thing lists
lists-IsLua = record {
  stack = λ l. l;
  global = λ l s. routine;
  outcome = λ l args traceback. count (pos 7);
  chunk = λ l s. routine;
  integer = λ n. count n;
  text = λ s. word s;
  at = λ l i. from_top l i;
  entry = λ l k. routine;
  push_string = λ l s. refl;
  push_value = λ l i. refl;
  get_table = λ l k vs e. ap look_up e;
  push_integer = λ l n. refl;
  pop = λ l n h. refl;
  get_global = λ l s. refl;
  insert = moved;
  call = λ l args traceback h. refl;
  to_string = converted;
  load_string = λ l s. refl;
}

-- A function with one argument, above a table.
abbrev ready : List Thing
ready = count (pos 3) ∷ (routine ∷ (table ∷ []))

pcall_lem_example : (pcall lists ready 1 (some LuaValue.nil)).2 ≡ table ∷ []
pcall_lem_example = pcall_lem lists lists-IsLua ready 1 (some LuaValue.nil) (omega arith)

pcall_test :
    pcall lists ready 1 (some LuaValue.nil) ≡ (true, some (LuaValue.integer (pos 7)), table ∷ [])
unfolding pcall
pcall_test = refl

event_start_lem_example : (event_start lists (table ∷ [])).1 ≡ table ∷ []
event_start_lem_example = event_start_lem lists lists-IsLua (table ∷ [])

abbrev one_name : Protocol (Unit {0}) Text
one_name = record { regtable = none ∷ (some (text "Login.1") ∷ []); builder = tt }

one_name_found : slam.Protocol.find_name one_name (pos 1) ≡ some (text "Login.1")
unfolding slam.Protocol.find_name
one_name_found = refl

event_message_lem_example :
    (event_message lists one_name (table ∷ []) (pos 5) (pos 1)).1 ≡ table ∷ []
event_message_lem_example =
    event_message_lem lists lists-IsLua one_name (table ∷ []) (pos 5) (pos 1) (text "Login.1")
      one_name_found refl refl

-- The suffix is found whatever its case.
strip_test : strip (text "v2.1/start.LUA") ≡ text "v2.1/start"
unfolding strip last_dot same_word
strip_test = refl
