-- ===== src/Lua/Sql.antt =====
-- src/slam_lua_db.c: the SQL commands that a script's tables become, in a byte buffer.
use slam.Base.{
  ℕ, zero, suc, ℤ, pos, Bool, true, false, Option, none, some, List, [], ◌∷◌, map, Run, ret, fault,
  stuck, ◌>>=◌, ◌==◌, if◌then◌else◌,
}
use slam.Message.Cells.{Cell}
use slam.ByteBuffer.{ByteBuffer, readbuffer, write}
use slam.ByteBuffer
use slam.Lua.Api.{Lua, Text, text, top, second, is_boolean, is_nil, is_none}
use slam.Db.{Db, MySql, execute}

-- `slam_byte_buffer_write` of a text and its length
unfoldable pub write_text : ByteBuffer → Text → Run ByteBuffer
unfolding write
write_text b s = write b (map some s)

-- the C string at an address: the bytes before the first 0
unfoldable pub c_string : List Cell → Run Text
c_string [] = fault
c_string (none ∷ bs) = fault
c_string (some c ∷ bs) =
    let rest = c_string bs in elim (c == 0) [ true ↦ ret [] | false ↦ rest >>= λ s. ret (c ∷ s) ]

-- the end of a command, which is run
unfoldable pub run_command : {H R : Type 0} → MySql H R → Db H → ByteBuffer → Run (Bool × Db H)
run_command mysql db b =
    write_text b (0 ∷ []) >>= λ b'. c_string (readbuffer b') >>= λ sql. ret (execute mysql db sql)

module _ {L F C : Type 0} (lua : Lua L F C) where
  -- `slam_lua_db_encode_key`
  unfoldable pub encode_key : L → ℤ → ByteBuffer → Run (Bool × L × ByteBuffer)
  unfolding write_text
  encode_key l t b =
      let (key, l') = lua.to_string l t in write_text b key >>= λ b'. ret (true, l', b')

  -- `slam_lua_db_encode_value`
  unfoldable pub encode_value : L → ℤ → ByteBuffer → Run (Bool × L × ByteBuffer)
  unfolding write_text
  encode_value l t b =
      if is_none lua l t
      then (write_text b (text "null") >>= λ b'. ret (true, l, b'))
      else if is_nil lua l t
      then (write_text b (text "null") >>= λ b'. ret (true, l, b'))
      else if is_boolean lua l t
      then (let (value, l') = lua.to_string l t in write_text b value >>= λ b'. ret (true, l', b'))
      else if lua.is_number l t
      then (let (value, l') = lua.to_string l t in write_text b value >>= λ b'. ret (true, l', b'))
      else if lua.is_string l t
      then (let (value, l') = lua.to_string l t in
          write_text b (text "'") >>= λ b1.
          write_text b1 value >>= λ b2. write_text b2 (text "'") >>= λ b3. ret (true, l', b3))
      else ret (false, l, b)

  -- the `while` of `slam_lua_db_encode_table`; `rc` is false before the first entry.
  unfoldable pub encode_entries : ℕ → Bool → L → ℤ → ByteBuffer → Run (Bool × L × ByteBuffer)
  unfolding write_text encode_key encode_value
  encode_entries zero rc l t b = stuck
  encode_entries (suc fuel) rc l t b =
      let (more, l1) = lua.next l t in
      elim more [
        | false ↦ ret (true, l1, b)
        | true ↦ (if rc then write_text b (text ",") else ret b) >>= λ b1.
            encode_key l1 second b1 >>= λ (keyed, l2, b2). write_text b2 (text "=") >>= λ b3.
            encode_value l2 top b3 >>= λ (valued, l3, b4). elim valued [
              | true ↦ encode_entries fuel true (lua.pop l3 1) t b4
              | false ↦ ret (false, l3, b4)
            ]
      ]

  -- `slam_lua_db_encode_table`
  unfoldable pub encode_table : ℕ → L → ℤ → ByteBuffer → Run (Bool × L × ByteBuffer)
  unfolding encode_entries
  encode_table fuel l t b = encode_entries fuel false (lua.push_nil l) t b

  -- `cc_db_insert` from the checks on
  unfoldable pub insert : {H R : Type 0} → MySql H R → ℕ → L → Db H → Run (Bool × L × Db H)
  unfolding write_text encode_table run_command
  insert mysql fuel l db =
      let (table_name, l1) = lua.to_string l (pos 2) in
      ByteBuffer.new 4096 >>= λ b. write_text b (text "insert into `") >>= λ b1.
      write_text b1 table_name >>= λ b2. write_text b2 (text "` set ") >>= λ b3.
      encode_table fuel l1 (pos 3) b3 >>= λ (rc, l2, b4). elim rc [
        | false ↦ ret (false, l2, db)
        | true ↦ run_command mysql db b4 >>= λ (done, db'). ret (done, l2, db')
      ]

  -- `cc_db_update` from the checks on, with the text after `where` if there is one
  unfoldable pub update :
      {H R : Type 0} → MySql H R → ℕ → L → Db H → Text → Option Text → Run (Bool × L × Db H)
  unfolding write_text encode_table run_command
  update mysql fuel l db table where_text = ByteBuffer.new 4096 >>= λ b.
      write_text b (text "update `") >>= λ b1. write_text b1 table >>= λ b2.
      write_text b2 (text "` set ") >>= λ b3. encode_table fuel l (pos 3) b3 >>= λ (rc, l2, b4).
      elim rc [
        | false ↦ ret (false, l2, db)
        | true ↦ elim where_text [
          | none ↦ run_command mysql db b4 >>= λ (done, db'). ret (done, l2, db')
          | some s ↦ write_text b4 (text " where ") >>= λ b5. write_text b5 s >>= λ b6.
              run_command mysql db b6 >>= λ (done, db'). ret (done, l2, db')
        ]
      ]
