-- ===== src/Lua/Inserting.antt =====
-- The command that db:insert of src/slam_lua_db.c runs.
use slam.Base.{
  ℕ, ◌+◌, ◌^◌, ◌≤◌, ◌<◌, pos, ◌≡◌, refl, ap, true, false, List, [], ◌++◌, length, ret, arith,
}
use slam.ByteBuffer.{ByteBuffer, chunk_size}
use slam.ByteBuffer
use slam.ByteBuffer.Bounds.{Holds}
use slam.ByteBuffer.History.{new_is_empty}
use slam.Lua.Api.{Lua, Text, text}
use slam.Lua.Assignments.{Entry, joined, room, Walks}
use slam.Lua.Commands.{NoZero, run_command_lem}
use slam.Lua.Encoding.{write_text_lem, Wrote-trans, encode_entries_lem}
use slam.Lua.Sql.{write_text, encode_table, encode_entries, run_command, insert}
use slam.Db.{Db, MySql, execute}

-- the command that puts entries into a table
unfoldable pub insertion : Text → List Entry → Text
unfolding joined
insertion table es = text "insert into `" ++ (table ++ (text "` set " ++ joined false es))

-- A new buffer, with a text written to it.
start_lem :
    (s : Text)
    → length s < 2 ^ 62
    → (b b' : ByteBuffer) × (ByteBuffer.new 4096 ≡ ret b)
      × (write_text b s ≡ ret b')
      × Holds b' s
      × (b'.capacity ≤ 4608 + length s)
start_lem s h =
    let (b, made, none_yet, r, bounded) = new_is_empty 4096 (omega arith) in
    let (b', ran, w) = write_text_lem b [] s none_yet (omega (arith, bounded)) in
    (b, b', made, ran, w.holds, omega (arith, bounded, w.bounded))

module _ {L F C H R : Type 0} (lua : Lua L F C) (mysql : MySql H R) where
  insert_runs :
      (fuel : ℕ) (l l1 l2 : L) (db : Db H) (table : Text) (b b1 b2 b3 b4 : ByteBuffer) (sql : Text)
      → lua.to_string l (pos 2) ≡ (table, l1)
      → ByteBuffer.new 4096 ≡ ret b
      → write_text b (text "insert into `") ≡ ret b1
      → write_text b1 table ≡ ret b2
      → write_text b2 (text "` set ") ≡ ret b3
      → encode_entries lua fuel false (lua.push_nil l1) (pos 3) b3 ≡ ret (true, l2, b4)
      → run_command mysql db b4 ≡ ret (execute mysql db sql)
      → insert lua mysql fuel l db ≡ ret ((execute mysql db sql).0, l2, (execute mysql db sql).1)
  unfolding insert encode_table
  insert_runs fuel l l1 l2 db table b b1 b2 b3 b4 sql e1 e2 e3 e4 e5 e6 e7 =
      rw (ap (λ p. p.0) e1, ap (λ p. p.1) e1, e2, e3, e4, e5, e6, e7) refl

  -- Where Lua gives the name of a table and walks over given entries of a record, with fuel for each, the
  -- texts are short enough for a buffer and free of the byte 0, db:insert runs one command: the insertion
  -- into that table with an assignment for each entry, in the order of the walk. The assignment of a
  -- boolean has nothing behind its equals sign.
  pub insert_lem :
      (fuel : ℕ) (l l1 l2 : L) (db : Db H) (table : Text) (es : List Entry)
      → lua.to_string l (pos 2) ≡ (table, l1)
      → Walks lua (pos 3) (lua.push_nil l1) es l2
      → length es < fuel
      → length table + room es < 2 ^ 62
      → NoZero (insertion table es)
      → insert lua mysql fuel l db
        ≡ ret (
          (execute mysql db (insertion table es)).0,
          l2,
          (execute mysql db (insertion table es)).1,
        )
  unfolding insertion
  insert_lem fuel l l1 l2 db table es e w enough small clean =
      let (b, b1, made, ran1, h1, c1) = start_lem (text "insert into `") (omega arith) in
      let (b2, ran2, w2) = write_text_lem b1 _ table h1 (omega (arith, c1)) in
      let (b3, ran3, w3) =
        write_text_lem b2 _ (text "` set ") w2.holds (omega (arith, c1, w2.bounded)) in
      let (b4, ran4, w4) =
        encode_entries_lem lua fuel false (pos 3) b3 _ w w3.holds enough
          (omega (arith, c1, w2.bounded, w3.bounded)) in
      let written = Wrote-trans w2 (Wrote-trans w3 w4) in
      insert_runs fuel l l1 l2 db table b b1 b2 b3 b4 (insertion table es) e made ran1 ran2 ran3
        ran4
        (run_command_lem mysql db b4 (insertion table es) written.holds clean
          (omega (arith, c1, written.bounded)))
