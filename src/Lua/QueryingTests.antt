-- ===== src/Lua/QueryingTests.antt =====
-- db:query of src/slam_lua_db.c with a result of two rows, and the theorem at that input.
use slam.Base.{
  ℕ, ℤ, pos, ◌≡◌, refl, true, false, Option, none, some, List, [], ◌∷◌, length, length-drop, arith,
  fault,
}
use slam.Lua.Api.{Lua, Text, text}
use slam.Lua.Rows.{Field, FieldType, ResultSet, cc_db_query}
use slam.Lua.Decoding.{IsStack, Fetches, no_row, row_then, rows_readable, Leaves}
use slam.Lua.Querying.{cc_db_query_lem}
use slam.Lua.Sample.{lists, Thing, from_top, word_of, word, table}
use slam.Db.{Db, MySql, query}

abbrev talker : Lua (List Thing) ℤ (Unit {0})
talker = record lists { is_string = λ l i. true; to_string = λ l i. (word_of (from_top l i), l) }

abbrev height : List Thing → ℕ
height l = length l

talker-IsStack : IsStack talker height
talker-IsStack = record {
  push_nil = λ l. omega arith;
  push_integer = λ l n. omega arith;
  push_number = λ l x. omega arith;
  push_string = λ l s. omega arith;
  new_table = λ l. omega arith;
  set_table = λ l h. omega (arith, length-drop 2 l);
}

-- A result set is the list of its rows. Players have a level and a name; the second one has no level.
abbrev Rows : Type 0
Rows = List (List (Option Text))

abbrev next_row : Rows → Option (List (Option Text)) × Rows
next_row [] = (none, [])
next_row (row ∷ rows) = (some row, rows)

abbrev players : ResultSet Rows ℤ
players = record {
  num_fields = λ r. 2;
  fetch_fields = λ r.
      record { org_name = text "level"; field_type = FieldType.tiny }
      ∷ record { org_name = text "name"; field_type = FieldType.var_string }
      ∷ [];
  fetch_row = next_row;
  fetch_lengths = λ r. 1 ∷ 3 ∷ [];
  atoi = λ s. pos (length s);
  atol = λ s. pos (length s);
  atoll = λ s. pos (length s);
  atof = λ s. pos (length s);
}

abbrev bob : List (Option Text)
bob = some (text "7") ∷ some (text "bob") ∷ []

abbrev eve : List (Option Text)
eve = none ∷ some (text "eve") ∷ []

-- A database that answers each command with given rows.
abbrev answering : Rows → MySql Unit Rows
answering rows = record {
  init = tt;
  options = λ h o. (false, h);
  real_connect = λ h host username passwd database port. (true, h);
  real_query = λ h sql. (pos 0, h);
  store_result = λ h. (some rows, h);
  insert_id = λ h. pos 1;
  close = λ h. h;
}

abbrev connection : Db (Unit {0})
connection = record { conf = none; mysqlhandle = tt }

abbrev asked : List Thing
asked = word (text "select level, name from player") ∷ table ∷ []

two_rows : Fetches players 2 (bob ∷ eve ∷ []) ((bob, 1 ∷ 3 ∷ []) ∷ (eve, 1 ∷ 3 ∷ []) ∷ []) []
two_rows = row_then refl refl refl (row_then refl refl refl (no_row refl))

-- The second row has a NULL in a column of numbers.
cc_db_query_lem_example :
    Leaves talker players height talker-IsStack
      (λ a. a.1)
      3
      (rows_readable
        (players.fetch_fields (bob ∷ eve ∷ []))
        ((bob, 1 ∷ 3 ∷ []) ∷ (eve, 1 ∷ 3 ∷ []) ∷ []))
      (cc_db_query talker players (answering (bob ∷ eve ∷ [])) 3 asked (some connection))
unfolding query
cc_db_query_lem_example =
    cc_db_query_lem talker players height talker-IsStack (answering (bob ∷ eve ∷ [])) 3 asked asked
      (text "select level, name from player") connection connection refl refl refl refl two_rows
      refl (omega arith)

query_faults :
    cc_db_query talker players (answering (bob ∷ eve ∷ [])) 3 asked (some connection) ≡ fault
unfolding cc_db_query slam.Lua.Rows.decode_result query
query_faults = refl
