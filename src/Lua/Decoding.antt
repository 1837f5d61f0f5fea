-- ===== src/Lua/Decoding.antt =====
-- What src/slam_lua_db.c leaves of the result of a query.
use slam.Base.{
  ℕ, zero, suc, ◌+◌, ◌≤◌, ◌<◌, ℤ, pos, ◌≡◌, refl, sym, subst, ◌∙◌, ap, Bool, true, false, ◌&&◌,
  Option, none, some, List, [], ◌∷◌, length, ret, fault, Run, ◌>>=◌, arith, u64,
}
use slam.Lua.Api.{Lua, Text, third}
use slam.Lua.Rows.{
  Field, Reading, reading, ResultSet, push_value, decode_fields, decode_rows, decode_result,
}

-- What Lua's manual says of the height of the stack.
pub record IsStack {L F C : Type 0} (lua : Lua L F C) (height : L → ℕ) : Type 0 where
  pub push_nil : (l : L) → height (lua.push_nil l) ≡ height l + 1
  pub push_integer : (l : L) (n : ℤ) → height (lua.push_integer l n) ≡ height l + 1
  pub push_number : (l : L) (x : F) → height (lua.push_number l x) ≡ height l + 1
  pub push_string : (l : L) (s : Text) → height (lua.push_string l s) ≡ height l + 1
  pub new_table : (l : L) → height (lua.new_table l) ≡ height l + 1
  pub set_table : (l : L) → 3 ≤ height l → height (lua.set_table l third) + 2 ≡ height l

-- whether a value can be read: NULL is no number, and has no bytes.
unfoldable pub readable : Reading → Option Text → ℕ → Bool
readable Reading.ignored v len = true
readable Reading.as_bytes none zero = true
readable Reading.as_bytes none (suc n) = false
readable kind none len = false
readable kind (some s) len = true

unfoldable pub row_readable : List Field → List (Option Text) → List ℕ → Bool
unfolding readable
row_readable (f ∷ fields) (v ∷ row) (len ∷ lengths) =
    readable (reading f.field_type) v len && row_readable fields row lengths
row_readable _ _ _ = true

unfoldable pub rows_readable : List Field → List (List (Option Text) × List ℕ) → Bool
unfolding row_readable
rows_readable fields [] = true
rows_readable fields ((row, lengths) ∷ rows) =
    row_readable fields row lengths && rows_readable fields rows

-- A result set has these rows left, with the lengths of their values; each has a value for each field.
pub data Fetches {R F : Type 0} (set : ResultSet R F) (n : ℕ)
    : R → List (List (Option Text) × List ℕ) → R → Type 0 where
  no_row : {r r' : R} → set.fetch_row r ≡ (none, r') → Fetches set n r [] r'
  row_then :
      {r r1 r2 : R} {row : List (Option Text)} {rows : List (List (Option Text) × List ℕ)}
      → set.fetch_row r ≡ (some row, r1)
      → length row ≡ n
      → length (set.fetch_lengths r1) ≡ n
      → Fetches set n r1 rows r2
      → Fetches set n r ((row, set.fetch_lengths r1) ∷ rows) r2

module _ {L F C R : Type 0} (lua : Lua L F C) (set : ResultSet R F) (height : L → ℕ)
    (stack : IsStack lua height) where
  -- A run that does what it should if all can be read, and follows a null pointer if not
  unfoldable pub Leaves : {A : Type 0} → (A → L) → ℕ → Bool → Run A → Type 0
  Leaves {A} state n true m = (a : A) × (m ≡ ret a) × (height (state a) ≡ n)
  Leaves state n false m = m ≡ fault

  push_value_lem :
      (l : L) (kind : Reading) (v : Option Text) (len : ℕ)
      → Leaves (λ l. l) (height l + 1) (readable kind v len) (push_value lua set l kind v len)
  unfolding Leaves push_value readable
  push_value_lem l Reading.as_int none len = refl
  push_value_lem l Reading.as_long none len = refl
  push_value_lem l Reading.as_longlong none len = refl
  push_value_lem l Reading.as_double none len = refl
  push_value_lem l Reading.as_int (some s) len = (_, refl, stack.push_integer l (set.atoi s))
  push_value_lem l Reading.as_long (some s) len = (_, refl, stack.push_integer l (set.atol s))
  push_value_lem l Reading.as_longlong (some s) len = (_, refl, stack.push_integer l (set.atoll s))
  push_value_lem l Reading.as_double (some s) len = (_, refl, stack.push_number l (set.atof s))
  push_value_lem l Reading.as_bytes none zero = (_, refl, stack.push_string l [])
  push_value_lem l Reading.as_bytes none (suc len) = refl
  push_value_lem l Reading.as_bytes (some s) len = (_, refl, stack.push_string l _)
  push_value_lem l Reading.ignored v len = (_, refl, stack.push_nil l)

  -- the rest of a run
  Leaves-bind :
      {A B : Type 0} (first : A → L) (then : B → L) (n k : ℕ) (b c : Bool) (m : Run A)
      (f : A → Run B)
      → Leaves first n b m
      → ((a : A) → height (first a) ≡ n → Leaves then k c (f a))
      → Leaves then k (b && c) (m >>= f)
  unfolding Leaves
  Leaves-bind first then n k true c m f (a, e, h) g =
      subst (λ m. Leaves then k c (m >>= f)) (sym e) (g a h)
  Leaves-bind first then n k false c m f e g = ap (λ m. m >>= f) e

  Leaves-at :
      {A : Type 0} (state : A → L) (n k : ℕ) (b : Bool) (m : Run A)
      → n ≡ k
      → Leaves state n b m
      → Leaves state k b m
  Leaves-at state n k b m e h = subst (λ n. Leaves state n b m) e h

  -- A row's values go into the table on the top, each under the name of its field.
  decode_fields_lem :
      (n : ℕ) (l : L) (fields : List Field) (row : List (Option Text)) (lengths : List ℕ)
      → length fields ≡ n
      → length row ≡ n
      → length lengths ≡ n
      → 1 ≤ height l
      → Leaves
          (λ l. l)
          (height l)
          (row_readable fields row lengths)
          (decode_fields lua set n l fields row lengths)
  unfolding decode_fields row_readable Leaves
  decode_fields_lem zero l [] row lengths e1 e2 e3 h = (l, refl, refl)
  decode_fields_lem zero l (f ∷ fields) row lengths e1 e2 e3 h = absurd (omega arith)
  decode_fields_lem (suc n) l [] row lengths e1 e2 e3 h = absurd (omega arith)
  decode_fields_lem (suc n) l (f ∷ fields) [] lengths e1 e2 e3 h = absurd (omega arith)
  decode_fields_lem (suc n) l (f ∷ fields) (v ∷ row) [] e1 e2 e3 h = absurd (omega arith)
  decode_fields_lem (suc n) l (f ∷ fields) (v ∷ row) (len ∷ lengths) e1 e2 e3 h =
      Leaves-bind (λ l. l) (λ l. l) (height l + 2) (height l)
        (readable (reading f.field_type) v len) (row_readable fields row lengths) _ _
        (Leaves-at (λ l. l) _ _ (readable (reading f.field_type) v len) _
          (omega (arith, stack.push_string l f.org_name))
          (push_value_lem (lua.push_string l f.org_name) (reading f.field_type) v len))
        (λ l' e.
          Leaves-at (λ l. l) _ _ (row_readable fields row lengths) _
            (omega (arith, stack.set_table l' (omega arith)))
            (decode_fields_lem n (lua.set_table l' third) fields row lengths (omega arith)
              (omega arith) (omega arith) (omega (arith, stack.set_table l' (omega arith)))))

  -- a round of the loop over the rows
  row_runs :
      (fuel row_number n : ℕ) (l : L) (fields : List Field) (r r1 : R) (row : List (Option Text))
      → set.fetch_row r ≡ (some row, r1)
      → decode_rows lua set (suc fuel) row_number l n fields r ≡ (
          decode_fields lua set n
            (lua.new_table (lua.push_integer l (pos row_number)))
            fields
            row
            (set.fetch_lengths r1)
          >>= λ l'.
              decode_rows lua set fuel (u64 (row_number + 1)) (lua.set_table l' third) n fields r1)
  unfolding decode_rows
  row_runs fuel row_number n l fields r r1 row e =
      rw (decode_rows, ap (λ p. p.0) e, ap (λ p. p.1) e) refl

  end_runs :
      (fuel row_number n : ℕ) (l : L) (fields : List Field) (r r1 : R)
      → set.fetch_row r ≡ (none, r1)
      → decode_rows lua set (suc fuel) row_number l n fields r ≡ ret (l, r1)
  unfolding decode_rows
  end_runs fuel row_number n l fields r r1 e =
      rw (decode_rows, ap (λ p. p.0) e, ap (λ p. p.1) e) refl

  decode_rows_lem :
      (fuel row_number n : ℕ) (l : L) (fields : List Field) {r r' : R}
      {rows : List (List (Option Text) × List ℕ)}
      → Fetches set n r rows r'
      → length fields ≡ n
      → length rows < fuel
      → 1 ≤ height l
      → Leaves
          (λ p. p.0)
          (height l)
          (rows_readable fields rows)
          (decode_rows lua set fuel row_number l n fields r)
  unfolding Leaves rows_readable
  decode_rows_lem zero row_number n l fields w shaped enough h = absurd (omega arith)
  decode_rows_lem (suc fuel) row_number n l fields (no_row e) shaped enough h =
      (_, end_runs fuel row_number n l fields _ _ e, refl)
  decode_rows_lem (suc fuel) row_number n l fields (row_then {r} {r1} {r2} {row} {rows} e e1 e2 w)
        shaped enough h =
      subst
        (Leaves (λ p. p.0) (height l)
          (row_readable fields row (set.fetch_lengths r1) && rows_readable fields rows))
        (sym (row_runs fuel row_number n l fields r r1 row e))
        (Leaves-bind (λ l. l) (λ p. p.0) (height l + 2) (height l)
          (row_readable fields row (set.fetch_lengths r1)) (rows_readable fields rows) _ _
          (Leaves-at (λ l. l) _ _ (row_readable fields row (set.fetch_lengths r1)) _
            (omega (
              arith,
              stack.new_table (lua.push_integer l (pos row_number)),
              stack.push_integer l (pos row_number),
            ))
            (decode_fields_lem n _ fields row (set.fetch_lengths r1) shaped e1 e2
              (omega (arith, stack.new_table (lua.push_integer l (pos row_number))))))
          (λ l' k.
            Leaves-at (λ p. p.0) _ _ (rows_readable fields rows) _
              (omega (arith, stack.set_table l' (omega arith)))
              (decode_rows_lem fuel (u64 (row_number + 1)) n (lua.set_table l' third) fields w
                shaped (omega arith) (omega (arith, stack.set_table l' (omega arith))))))

  -- The result becomes one value.
  pub decode_result_lem :
      (fuel : ℕ) (l : L) {r r' : R} {rows : List (List (Option Text) × List ℕ)}
      → Fetches set (set.num_fields r) r rows r'
      → length (set.fetch_fields r) ≡ set.num_fields r
      → length rows < fuel
      → Leaves
          (λ p. p.0)
          (height l + 1)
          (rows_readable (set.fetch_fields r) rows)
          (decode_result lua set fuel l r)
  unfolding decode_result
  decode_result_lem fuel l {r} {r'} {rows} w shaped enough =
      Leaves-at (λ p. p.0) _ _ (rows_readable (set.fetch_fields r) rows) _ (stack.new_table l)
        (decode_rows_lem fuel 1 (set.num_fields r) (lua.new_table l) (set.fetch_fields r) w shaped
          enough (omega (arith, stack.new_table l)))

  pub Leaves-ret :
      {A B : Type 0} (first : A → L) (then : B → L) (n : ℕ) (b : Bool) (m : Run A) (f : A → B)
      → ((a : A) → first a ≡ then (f a))
      → Leaves first n b m
      → Leaves then n b (m >>= λ a. ret (f a))
  unfolding Leaves
  Leaves-ret first then n true m f same (a, e, h) =
      (f a, ap (λ m. m >>= λ a. ret (f a)) e, ap height (sym (same a)) ∙ h)
  Leaves-ret first then n false m f same e = ap (λ m. m >>= λ a. ret (f a)) e
