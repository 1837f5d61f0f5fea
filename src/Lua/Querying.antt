-- ===== src/Lua/Querying.antt =====
-- What db:query of src/slam_lua_db.c gives a script.
use slam.Base.{
  ℕ, ◌+◌, ◌<◌, pos, ◌≡◌, refl, sym, subst, ap, true, Option, some, List, length, ret, ◌>>=◌,
}
use slam.Lua.Api.{Lua, Text}
use slam.Lua.Rows.{ResultSet, decode_result, cc_db_query}
use slam.Lua.Decoding.{IsStack, rows_readable, Fetches, Leaves, Leaves-ret, decode_result_lem}
use slam.Db.{Db, MySql, query}

module _ {L F C R : Type 0} (lua : Lua L F C) (set : ResultSet R F) (height : L → ℕ)
    (stack : IsStack lua height) where
  query_runs :
      {H : Type 0} (mysql : MySql H R) (fuel : ℕ) (l l1 : L) (sql : Text) (db db' : Db H) (r : R)
      → lua.get_top l ≡ 2
      → lua.is_string l (pos 2) ≡ true
      → lua.to_string l (pos 2) ≡ (sql, l1)
      → query mysql db sql ≡ (some r, db')
      → cc_db_query lua set mysql fuel l (some db)
        ≡ (decode_result lua set fuel l1 r >>= λ p. ret (1, p.0, some db', some p.1))
  unfolding cc_db_query
  query_runs mysql fuel l l1 sql db db' r e1 e2 e3 e4 =
      rw
        (
          e1,
          e2,
          ap (λ p. p.0) e3,
          ap (λ p. p.0) e4,
          ap (λ p. p.1) e3,
          ap (λ p. p.0) e3,
          ap (λ p. p.1) e4,
        )
        refl

  -- With a command whose result has these rows, a query gives the script one value if each value of the
  -- rows can be read; if one cannot, such as a NULL in a column of numbers, it follows a null pointer.
  pub cc_db_query_lem :
      {H : Type 0} (mysql : MySql H R) (fuel : ℕ) (l l1 : L) (sql : Text) (db db' : Db H) {r r' : R}
      {rows : List (List (Option Text) × List ℕ)}
      → lua.get_top l ≡ 2
      → lua.is_string l (pos 2) ≡ true
      → lua.to_string l (pos 2) ≡ (sql, l1)
      → query mysql db sql ≡ (some r, db')
      → Fetches set (set.num_fields r) r rows r'
      → length (set.fetch_fields r) ≡ set.num_fields r
      → length rows < fuel
      → Leaves lua set height stack
          (λ a. a.1)
          (height l1 + 1)
          (rows_readable (set.fetch_fields r) rows)
          (cc_db_query lua set mysql fuel l (some db))
  cc_db_query_lem mysql fuel l l1 sql db db' {r} {r'} {rows} e1 e2 e3 e4 w shaped enough =
      subst
        (Leaves lua set height stack (λ a. a.1) (height l1 + 1)
          (rows_readable (set.fetch_fields r) rows))
        (sym (query_runs mysql fuel l l1 sql db db' r e1 e2 e3 e4))
        (Leaves-ret lua set height stack (λ p. p.0) (λ a. a.1) _
          (rows_readable (set.fetch_fields r) rows) _ (λ p. (1, p.0, some db', some p.1))
          (λ p. refl) (decode_result_lem lua set height stack fuel l1 w shaped enough))
