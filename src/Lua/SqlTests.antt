-- ===== src/Lua/SqlTests.antt =====
-- A command in a buffer, and the theorem at that input.
use slam.Base.{pos, refl, true, false, none, some, List, [], ◌∷◌, map, arith}
use slam.ByteBuffer.{ByteBuffer}
use slam.ByteBuffer.Bounds.{Holds}
use slam.Lua.Api.{Text, text}
use slam.Lua.Commands.{NoZero}
use slam.Db.{Db, MySql}

-- A database that keeps the commands it was given.
abbrev pub log_sql : MySql (List Text) (Unit {0})
log_sql = record {
  init = [];
  options = λ h o. (false, h);
  real_connect = λ h host username passwd database port. (true, h);
  real_query = λ h sql. (pos 0, sql ∷ h);
  store_result = λ h. (none, h);
  insert_id = λ h. pos 1;
  close = λ h. h;
}

abbrev pub fresh : Db (List Text)
fresh = record { conf = none; mysqlhandle = [] }

abbrev short_command : ByteBuffer
short_command = record { bytes = map some (text "commit"); capacity = 6; rlength = 0; wlength = 6 }

short_command-Holds : Holds short_command (text "commit")
short_command-Holds = record {
  before = [];
  after = [];
  layout = refl;
  reads = refl;
  writes = refl;
  fills = refl;
  small = omega arith;
}

no_zeros : NoZero (text "commit")
no_zeros =
    (omega arith, (omega arith, (omega arith, (omega arith, (omega arith, (omega arith, tt))))))
