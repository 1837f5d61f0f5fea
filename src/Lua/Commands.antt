-- ===== src/Lua/Commands.antt =====
-- The command that src/slam_lua_db.c runs is the text that its buffer holds.
use slam.Base.{
  ℕ, ◌<◌, ◌^◌, ◌≡◌, ◌≢◌, refl, ◌∙◌, ap, some, List, [], ◌∷◌, ◌++◌, map, drop, ret, arith,
}
use slam.Message.Cells.{Cell}
use slam.ByteBuffer.{ByteBuffer, readbuffer}
use slam.ByteBuffer.Bounds.{Holds, grown, drop-behind}
use slam.ByteBuffer.Writing.{write_lem}
use slam.Lua.Api.{Text}
use slam.Lua.Sql.{c_string, write_text, run_command}
use slam.Db.{Db, MySql, execute}

-- a text without the byte 0
abbrev pub NoZero : Text → Type 0
NoZero [] = Unit {0}
NoZero (c ∷ s) = (c ≢ 0) × NoZero s

c_string-append :
    (s : Text) (rest : List Cell) → NoZero s → c_string (map some (s ++ (0 ∷ [])) ++ rest) ≡ ret s
unfolding c_string
c_string-append [] rest z = refl
c_string-append (c ∷ s) rest z = ground (arith, z.0, c_string-append s rest z.1)

readbuffer_lem :
    (b : ByteBuffer) (xs : List ℕ) (v : Holds b xs) → readbuffer b ≡ map some xs ++ v.after
unfolding readbuffer
readbuffer_lem b xs v =
    ap (drop b.rlength) v.layout ∙ drop-behind v.before (map some xs ++ v.after) b.rlength v.reads

-- From a buffer that holds a text without the byte 0, with room for one byte more below 2 ^ 64,
-- exactly that text is run.
pub run_command_lem :
    {H R : Type 0} (mysql : MySql H R) (db : Db H) (b : ByteBuffer) (sql : Text)
    → Holds b sql
    → NoZero sql
    → grown b 1 < 2 ^ 64
    → run_command mysql db b ≡ ret (execute mysql db sql)
unfolding run_command write_text
run_command_lem mysql db b sql v z room =
    let (b', wrote, w, bounded) = write_lem b sql (0 ∷ []) v room in
    let ends : c_string (readbuffer b') ≡ ret sql =
      ap c_string (readbuffer_lem b' (sql ++ (0 ∷ [])) w) ∙ c_string-append sql w.after z in
    rw (wrote, ends) refl
