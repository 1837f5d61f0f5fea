-- ===== src/Lua/InsertingTests.antt =====
-- db:insert of src/slam_lua_db.c with a table of two entries, and the theorem at that input.
use slam.Base.{
  zero, suc, ◌+◌, ◌^◌, ◌<◌, ℤ, pos, ◌≡◌, refl, Bool, true, false, List, [], ◌∷◌, ret, length, arith,
  ◌==◌,
}
use slam.Lua.Api.{Lua, Text, text}
use slam.Lua.Assignments.{Value, Entry, room, Walks, ends, walks, truth, words}
use slam.Lua.Inserting.{insertion, insert_lem}
use slam.Lua.Commands.{NoZero}
use slam.Lua.Sample.{lists, Thing, from_top, word_of, nothing, truth, word, table, routine}
use slam.Lua.Sql.{insert}
use slam.Lua.SqlTests.{log_sql, fresh}
use slam.Db.{execute}

abbrev is_word : Thing → Bool
is_word (word s) = true
is_word _ = false

-- The table has a name and whether its owner is an admin: the key on the top says how far Lua is.
abbrev step : List Thing → Bool × List Thing
step [] = (false, [])
step (Thing.nothing ∷ vs) = (true, word (text "bob") ∷ word (text "name") ∷ vs)
step (Thing.word s ∷ vs) = elim (length s == 4) [
  | true ↦ (true, Thing.truth true ∷ word (text "admin") ∷ vs)
  | false ↦ (false, vs)
]
step (v ∷ vs) = (false, vs)

abbrev walker : Lua (List Thing) ℤ (Unit {0})
walker = record lists {
  is_string = λ l i. is_word (from_top l i);
  to_string = λ l i. (word_of (from_top l i), l);
  next = λ l i. step l;
}

abbrev before : List Thing
before = table ∷ word (text "player") ∷ routine ∷ []

abbrev entries : List Entry
entries =
    record { key = text "name"; value = Value.quoted (text "bob") }
    ∷ record { key = text "admin"; value = Value.plain [] }
    ∷ []

both_entries : Walks walker (pos 3) (nothing ∷ before) entries before
both_entries =
    walks refl refl (words refl refl refl refl refl refl)
      (walks refl refl (truth refl refl refl refl) (ends refl))

-- The value of the boolean is missing.
command : insertion (text "player") entries ≡ text "insert into `player` set name='bob',admin="
unfolding insertion slam.Lua.Assignments.joined slam.Lua.Assignments.assignment
    slam.Lua.Assignments.sql_value
command = refl

none_zero : Text → Bool
none_zero [] = true
none_zero (zero ∷ s) = false
none_zero (suc c ∷ s) = none_zero s

none_zero-NoZero : (s : Text) → none_zero s ≡ true → NoZero s
unfolding none_zero
none_zero-NoZero [] e = tt
none_zero-NoZero (zero ∷ s) e = absurd (ground arith)
none_zero-NoZero (suc c ∷ s) e = (omega arith, none_zero-NoZero s e)

command_passes : none_zero (insertion (text "player") entries) ≡ true
unfolding none_zero insertion slam.Lua.Assignments.joined slam.Lua.Assignments.assignment
    slam.Lua.Assignments.sql_value
command_passes = refl

entries_small : length (text "player") + room entries < 2 ^ 62
unfolding slam.Lua.Assignments.sql_value
entries_small = omega arith

insert_lem_example :
    insert walker log_sql 3 before fresh
    ≡ ret (
      (execute log_sql fresh (insertion (text "player") entries)).0,
      before,
      (execute log_sql fresh (insertion (text "player") entries)).1,
    )
insert_lem_example =
    insert_lem walker log_sql 3 before before before fresh (text "player") entries refl both_entries
      (omega arith) entries_small (none_zero-NoZero _ command_passes)
