-- ===== src/Db.antt =====
-- src/db/slam_db.c and slam_db_conf.c: a connection to a database. The client library of MySQL is a
-- parameter.
use slam.Base.{
  ℕ, ℤ, pos, negsuc, Bool, true, false, Option, none, some, List, [], ◌∷◌, if◌then◌else◌, ◌==◌,
}
use slam.Lua.Api.{Text, text}

-- the options that `slam_db_connect` sets
pub data ConnectOption : Type 0 where
  connect_timeout : ℕ → ConnectOption
  reconnect : Bool → ConnectOption
  init_command : Text → ConnectOption
  report_data_truncation : Bool → ConnectOption

-- `H` is the state behind a handle, `R` a result set. `options` says whether it failed.
pub record MySql (H R : Type 0) : Type 0 where
  pub init : H
  pub options : H → ConnectOption → Bool × H
  pub real_connect : H → Text → Text → Text → Option Text → ℤ → Bool × H
  pub real_query : H → Text → ℤ × H
  pub store_result : H → Option R × H
  pub insert_id : H → ℤ
  pub close : H → H

-- `struct slam_db_conf_s`
pub record DbConf : Type 0 where
  pub host : Text
  pub username : Text
  pub password : Text
  pub port : ℤ

-- `struct slam_db_s`
pub record Db (H : Type 0) : Type 0 where
  pub conf : Option DbConf
  pub mysqlhandle : H

abbrev pub is_zero : ℤ → Bool
is_zero (pos n) = n == 0
is_zero (negsuc n) = false

-- the five options of `slam_db_connect`, with MYSQL_CONNECT_TIMEOUT, MYSQL_WAIT_TIMEOUT and
-- MYSQL_INTERACTIVE_TIMEOUT
abbrev pub connect_options : List ConnectOption
connect_options =
    ConnectOption.connect_timeout 10
    ∷ (ConnectOption.reconnect true
        ∷ (ConnectOption.init_command (text "SET WAIT_TIMEOUT = 604800")
            ∷ (ConnectOption.init_command (text "SET INTERACTIVE_TIMEOUT = 604800")
                ∷ (ConnectOption.report_data_truncation true ∷ []))))

module _ {H R : Type 0} (mysql : MySql H R) where
  -- `slam_db_new`
  abbrev pub new : Db H
  new = record { conf = none; mysqlhandle = mysql.init }

  -- `slam_db_delete`; the configuration is freed.
  unfoldable pub delete : Db H → H
  delete db = mysql.close db.mysqlhandle

  -- sets options until one fails, and says whether all were set
  unfoldable pub set_options : H → List ConnectOption → Bool × H
  set_options h [] = (true, h)
  set_options h (o ∷ os) =
      let (failed, h') = mysql.options h o in
      let rest = set_options h' os in if failed then (false, h') else rest

  -- `slam_db_execute`
  unfoldable pub execute : Db H → Text → Bool × Db H
  execute db sql =
      let (rc, h) = mysql.real_query db.mysqlhandle sql in
      (is_zero rc, record db { mysqlhandle = h })

  -- `slam_db_connect`
  unfoldable pub connect : Db H → Text → Text → Text → ℤ → Option Text → Bool × Db H
  unfolding set_options execute
  connect db host username passwd port database =
      let (all, h1) = set_options db.mysqlhandle connect_options in
      if all
      then (let (connected, h2) = mysql.real_connect h1 host username passwd database port in
          let conf : DbConf = record {
            host = host;
            username = username;
            password = passwd;
            port = port;
          } in
          if connected
          then execute (record { conf = some conf; mysqlhandle = h2 }) (text "SET NAMES UTF8")
          else (false, record db { mysqlhandle = h2 }))
      else (false, record db { mysqlhandle = h1 })

  -- `slam_db_query`; `none` is the null pointer.
  unfoldable pub query : Db H → Text → Option R × Db H
  query db sql =
      let (rc, h1) = mysql.real_query db.mysqlhandle sql in
      if is_zero rc
      then (let (res, h2) = mysql.store_result h1 in (res, record db { mysqlhandle = h2 }))
      else (none, record db { mysqlhandle = h1 })

  -- `slam_db_insert_id`
  unfoldable pub insert_id : Db H → ℤ
  insert_id db = mysql.insert_id db.mysqlhandle
