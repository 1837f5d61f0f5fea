-- ===== src/Lua/Rows.antt =====
-- src/slam_lua_db.c: the result of a query as a table of rows, and db:query. The result set is MySQL's,
-- an argument.
use slam.Base.{
  ℕ, zero, suc, ◌+◌, ℤ, pos, Option, none, some, List, [], ◌∷◌, Run, ret, fault, stuck, ◌>>=◌, ◌==◌,
  if◌then◌else◌, take, u64,
}
use slam.Lua.Api.{Lua, Text, third}
use slam.Db.{Db, MySql, query}

-- MYSQL_TYPE_TINY, ..., and `other` for those that the switch does not name
pub data FieldType : Type 0 where
  tiny short int24 bit long longlong : FieldType
  decimal newdecimal float double : FieldType
  timestamp date time datetime year text_string var_string : FieldType
  blob other : FieldType

-- MYSQL_FIELD
pub record Field : Type 0 where
  pub org_name : Text
  pub field_type : FieldType

-- The functions of MySQL on a result set, and those of C that read numbers. A row has a null pointer where
-- the value is NULL.
pub record ResultSet (R F : Type 0) : Type 0 where
  pub num_fields : R → ℕ
  pub fetch_fields : R → List Field
  pub fetch_row : R → Option (List (Option Text)) × R
  pub fetch_lengths : R → List ℕ
  pub atoi : Text → ℤ
  pub atol : Text → ℤ
  pub atoll : Text → ℤ
  pub atof : Text → F

-- the groups of cases of the `switch` of `slam_lua_db_decode_result`
pub data Reading : Type 0 where
  as_int as_long as_longlong as_double as_bytes ignored : Reading

abbrev pub reading : FieldType → Reading
reading FieldType.tiny = Reading.as_int
reading FieldType.short = Reading.as_int
reading FieldType.int24 = Reading.as_int
reading FieldType.bit = Reading.as_int
reading FieldType.long = Reading.as_long
reading FieldType.longlong = Reading.as_longlong
reading FieldType.decimal = Reading.as_double
reading FieldType.newdecimal = Reading.as_double
reading FieldType.float = Reading.as_double
reading FieldType.double = Reading.as_double
reading FieldType.other = Reading.ignored
reading _ = Reading.as_bytes

-- the C string at a pointer, which must not be null
abbrev pub number_text : Option Text → Run Text
number_text none = fault
number_text (some s) = ret s

-- `length` bytes at a pointer, which may be null if there are none
abbrev pub bytes_at : Option Text → ℕ → Run Text
bytes_at none zero = ret []
bytes_at none (suc n) = fault
bytes_at (some s) n = ret (take n s)

module _ {L F C R : Type 0} (lua : Lua L F C) (set : ResultSet R F) where
  -- the `switch` of `slam_lua_db_decode_result`, by its groups
  unfoldable pub push_value : L → Reading → Option Text → ℕ → Run L
  push_value l Reading.as_int v len = number_text v >>= λ s. ret (lua.push_integer l (set.atoi s))
  push_value l Reading.as_long v len = number_text v >>= λ s. ret (lua.push_integer l (set.atol s))
  push_value l Reading.as_longlong v len =
      number_text v >>= λ s. ret (lua.push_integer l (set.atoll s))
  push_value l Reading.as_double v len = number_text v >>= λ s. ret (lua.push_number l (set.atof s))
  push_value l Reading.as_bytes v len = bytes_at v len >>= λ s. ret (lua.push_string l s)
  push_value l Reading.ignored v len = ret (lua.push_nil l)

  -- the `for` of `slam_lua_db_decode_result`, over what is left of the fields
  unfoldable pub decode_fields : ℕ → L → List Field → List (Option Text) → List ℕ → Run L
  unfolding push_value
  decode_fields zero l fields row lengths = ret l
  decode_fields (suc n) l [] row lengths = fault
  decode_fields (suc n) l (f ∷ fields) [] lengths = fault
  decode_fields (suc n) l (f ∷ fields) (v ∷ row) [] = fault
  decode_fields (suc n) l (f ∷ fields) (v ∷ row) (len ∷ lengths) =
      push_value (lua.push_string l f.org_name) (reading f.field_type) v len >>= λ l'.
      decode_fields n (lua.set_table l' third) fields row lengths

  -- the `while` of `slam_lua_db_decode_result`
  unfoldable pub decode_rows : ℕ → ℕ → L → ℕ → List Field → R → Run (L × R)
  unfolding decode_fields
  decode_rows zero row_number l field_number fields r = stuck
  decode_rows (suc fuel) row_number l field_number fields r =
      let (row, r1) = set.fetch_row r in
      elim row [
        | none ↦ ret (l, r1)
        | some vs ↦
            decode_fields field_number (lua.new_table (lua.push_integer l (pos row_number))) fields
              vs (set.fetch_lengths r1)
            >>= λ l'.
                decode_rows fuel (u64 (row_number + 1)) (lua.set_table l' third) field_number fields
                  r1
      ]

  -- `slam_lua_db_decode_result`
  unfoldable pub decode_result : ℕ → L → R → Run (L × R)
  unfolding decode_rows
  decode_result fuel l r =
      decode_rows fuel 1 (lua.new_table l) (set.num_fields r) (set.fetch_fields r) r

  -- `cc_db_query`, with the result set that is freed at its end
  unfoldable pub cc_db_query :
      {H : Type 0} → MySql H R → ℕ → L → Option (Db H) → Run (ℕ × L × Option (Db H) × Option R)
  cc_db_query mysql fuel l userdata =
      if lua.get_top l == 2
      then elim userdata [
        | none ↦ ret (1, lua.push_nil l, none, none)
        | some db ↦
            if lua.is_string l (pos 2)
            then (let (sql, l1) = lua.to_string l (pos 2) in
                let (result, db') = query mysql db sql in
                elim result [
                  | none ↦ ret (1, lua.push_nil l1, some db', none)
                  | some r ↦ decode_result fuel l1 r >>= λ (l2, r'). ret (1, l2, some db', some r')
                ])
            else ret (1, lua.push_nil l, some db, none)
      ]
      else ret (1, lua.push_nil l, userdata, none)
