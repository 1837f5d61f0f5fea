-- ===== src/Lua/Database.antt =====
-- src/slam_lua_db.c: the functions of a database that a script is offered. Each gives the number of
-- results, and the states after it. `userdata` is what `luaL_checkudata` finds at the first place:
-- `none` for the null pointer.
use slam.Base.{
  ℕ, pos, minus_one, false, Option, none, some, Run, ret, ◌>>=◌, ◌==◌, ◌||◌, if◌then◌else◌,
}
use slam.Lua.Api.{Lua, text, is_table}
use slam.Lua.Sql.{insert, update}
use slam.Db.{Db, MySql, connect, execute, insert_id}
use slam.Db

module _ {L F C H R : Type 0} (lua : Lua L F C) (mysql : MySql H R) where
  -- `cc_newdb`: the new connection, if there is one, becomes a userdata, which the argument makes.
  unfoldable pub cc_newdb : (L → L) → L → Option (Db H) × ℕ × L
  unfolding connect
  cc_newdb push_userdata l =
      if lua.get_top l == 4
      then (if lua.is_string l (pos 1)
          then (if lua.is_string l (pos 2)
              then (if lua.is_string l (pos 3)
                  then (if lua.is_number l (pos 4)
                      then (let (host, l1) = lua.to_string l (pos 1) in
                          let (username, l2) = lua.to_string l1 (pos 2) in
                          let (password, l3) = lua.to_string l2 (pos 3) in
                          let (rc, db) =
                            connect mysql (Db.new mysql) host username password
                              (lua.to_integer l3 (pos 4)) none in
                          if rc then (some db, 1, push_userdata l3) else (none, 1, lua.push_nil l3))
                      else (none, 0, l))
                  else (none, 0, l))
              else (none, 0, l))
          else (none, 0, l))
      else (none, 0, l)

  -- `__cc_db_gc`: the state of the client library after the connection is closed
  unfoldable pub db_gc : Db H → H
  unfolding Db.delete
  db_gc db = Db.delete mysql db

  -- `__cc_db_tostring`
  unfoldable pub db_tostring : L → ℕ × L
  db_tostring l = (1, lua.push_string l (text "db"))

  -- `cc_db_insert_id`
  unfoldable pub cc_db_insert_id : L → Option (Db H) → ℕ × L
  unfolding insert_id
  cc_db_insert_id l userdata =
      if lua.get_top l == 1
      then elim userdata [
        | none ↦ (1, lua.push_integer l minus_one)
        | some db ↦ (1, lua.push_integer l (insert_id mysql db))
      ]
      else (1, lua.push_integer l minus_one)

  -- `cc_db_execute`; with two arguments the place -(args - 1) is the topmost.
  unfoldable pub cc_db_execute : L → Option (Db H) → ℕ × L × Option (Db H)
  unfolding execute
  cc_db_execute l userdata =
      if lua.get_top l == 2
      then elim userdata [
        | none ↦ (1, lua.push_boolean l false, none)
        | some db ↦
            if lua.is_string l minus_one
            then (let (sql, l1) = lua.to_string l minus_one in
                let (rc, db') = execute mysql db sql in (1, lua.push_boolean l1 rc, some db'))
            else (1, lua.push_boolean l false, some db)
      ]
      else (1, lua.push_boolean l false, userdata)

  -- `cc_db_insert`, with fuel for the entries of the table
  unfoldable pub cc_db_insert : ℕ → L → Option (Db H) → Run (ℕ × L × Option (Db H))
  unfolding insert
  cc_db_insert fuel l userdata =
      if lua.get_top l == 3
      then elim userdata [
        | none ↦ ret (1, lua.push_boolean l false, none)
        | some db ↦
            if lua.is_string l (pos 2)
            then (if is_table lua l (pos 3)
                then (insert lua mysql fuel l db >>= λ (rc, l', db').
                    ret (1, lua.push_boolean l' rc, some db'))
                else ret (1, lua.push_boolean l false, some db))
            else ret (1, lua.push_boolean l false, some db)
      ]
      else ret (1, lua.push_boolean l false, userdata)

  -- `cc_db_update` from the check of the table on, with the number of arguments
  unfoldable pub update_checked : ℕ → ℕ → L → Db H → Run (ℕ × L × Option (Db H))
  unfolding update
  update_checked fuel args l db =
      let (table, l1) = lua.to_string l (pos 2) in
      if is_table lua l1 (pos 3)
      then (if args == 4
          then (if lua.is_string l1 (pos 4)
              then (let (where_text, l2) = lua.to_string l1 (pos 4) in
                  update lua mysql fuel l2 db table (some where_text) >>= λ (rc, l', db').
                  ret (1, lua.push_boolean l' rc, some db'))
              else ret (1, lua.push_boolean l1 false, some db))
          else (update lua mysql fuel l1 db table none >>= λ (rc, l', db').
              ret (1, lua.push_boolean l' rc, some db')))
      else ret (1, lua.push_boolean l1 false, some db)

  -- `cc_db_update`
  unfoldable pub cc_db_update : ℕ → L → Option (Db H) → Run (ℕ × L × Option (Db H))
  unfolding update_checked
  cc_db_update fuel l userdata =
      let args = lua.get_top l in
      if (args == 3) || (args == 4)
      then elim userdata [
        | none ↦ ret (1, lua.push_boolean l false, none)
        | some db ↦
            if lua.is_string l (pos 2)
            then update_checked fuel args l db
            else ret (1, lua.push_boolean l false, some db)
      ]
      else ret (1, lua.push_boolean l false, userdata)
