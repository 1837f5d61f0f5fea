-- ===== src/Lua/Encoding.antt =====
-- The text that src/slam_lua_db.c writes for a table.
use slam.Base.{
  ℕ, zero, suc, ◌+◌, ◌^◌, ◌≤◌, ◌<◌, ℤ, ◌≡◌, refl, sym, ◌∙◌, ap, subst, Bool, true, false, List, [],
  ◌∷◌, ◌++◌, append_assoc, append-nil, length, length-append, ret, arith, if◌then◌else◌,
}
use slam.ByteBuffer.{ByteBuffer}
use slam.ByteBuffer.Bounds.{Holds}
use slam.ByteBuffer.Writing.{write_lem}
use slam.Lua.Api.{Lua, Text, text, top, second}
use slam.Lua.Assignments.{
  Value, Entry, sql_value, assignment, joined, entry_room, room, Reads, Walks, missing, nothing,
  truth, amount, words, ends, walks,
}
use slam.Lua.Sql.{write_text, encode_key, encode_value, encode_entries}

-- what a write of a text leaves
pub record Wrote (b : ByteBuffer) (xs s : Text) (n : ℕ) (b' : ByteBuffer) : Type 0 where
  pub holds : Holds b' (xs ++ s)
  pub bounded : b'.capacity ≤ b.capacity + n

pub write_text_lem :
    (b : ByteBuffer) (xs s : Text)
    → Holds b xs
    → b.capacity + (512 + length s) < 2 ^ 64
    → (b' : ByteBuffer) × (write_text b s ≡ ret b') × Wrote b xs s (512 + length s) b'
unfolding write_text
write_text_lem b xs s v small =
    let (b', ran, kept, bounded) = write_lem b xs s v (omega arith) in
    (b', ran, record { holds = kept; bounded = omega arith })

-- Two writes are one of both texts.
pub Wrote-trans :
    {b b1 b2 : ByteBuffer} {xs s1 s2 : Text} {n1 n2 : ℕ}
    → Wrote b xs s1 n1 b1
    → Wrote b1 (xs ++ s1) s2 n2 b2
    → Wrote b xs (s1 ++ s2) (n1 + n2) b2
Wrote-trans {b} {b1} {b2} {xs} {s1} {s2} w1 w2 = record {
  holds = subst (Holds b2) (append_assoc xs s1 s2) w2.holds;
  bounded = omega (arith, w1.bounded, w2.bounded);
}

pub loosely :
    {b b' : ByteBuffer} {xs s : Text} {n m : ℕ} → Wrote b xs s n b' → n ≤ m → Wrote b xs s m b'
loosely w h = record { holds = w.holds; bounded = omega (arith, w.bounded) }

Wrote-nothing : (b : ByteBuffer) (xs : Text) → Holds b xs → Wrote b xs [] 0 b
Wrote-nothing b xs h = record {
  holds = subst (Holds b) (sym (append-nil xs)) h;
  bounded = omega arith;
}

-- the comma before each entry but the first
comma_lem :
    (rc : Bool) (b : ByteBuffer) (xs : Text)
    → Holds b xs
    → b.capacity + 513 < 2 ^ 64
    → (b' : ByteBuffer) × ((if rc then write_text b (text ",") else ret b) ≡ ret b')
      × Wrote b xs (if rc then text "," else []) 513 b'
comma_lem true b xs h small = write_text_lem b xs (text ",") h small
comma_lem false b xs h small = (b, refl, loosely (Wrote-nothing b xs h) (omega arith))

module _ {L F C : Type 0} (lua : Lua L F C) where
  encode_key_lem :
      (l : L) (t : ℤ) (b : ByteBuffer) (xs key : Text) (l' : L)
      → lua.to_string l t ≡ (key, l')
      → Holds b xs
      → b.capacity + (512 + length key) < 2 ^ 64
      → (b' : ByteBuffer) × (encode_key lua l t b ≡ ret (true, l', b'))
        × Wrote b xs key (512 + length key) b'
  unfolding encode_key
  encode_key_lem l t b xs key l' e v small =
      let (b', ran, w) = write_text_lem b xs key v small in (b', rw (e, ran) refl, w)

  encode_value_lem :
      (l : L) (t : ℤ) (b : ByteBuffer) (xs : Text) (v : Value) (l' : L)
      → Reads lua l t v l'
      → Holds b xs
      → b.capacity + (1540 + length (sql_value v)) < 2 ^ 64
      → (b' : ByteBuffer) × (encode_value lua l t b ≡ ret (true, l', b'))
        × Wrote b xs (sql_value v) (1540 + length (sql_value v)) b'
  unfolding encode_value sql_value
  encode_value_lem l t b xs v l' (missing e) h small =
      let (b', ran, w) = write_text_lem b xs (text "null") h (omega arith) in
      (b', rw (e, ran) refl, loosely w (omega arith))
  encode_value_lem l t b xs v l' (nothing e1 e2) h small =
      let (b', ran, w) = write_text_lem b xs (text "null") h (omega arith) in
      (b', rw (e1, e2, ran) refl, loosely w (omega arith))
  encode_value_lem l t b xs v l' (truth e1 e2 e3 e4) h small =
      let (b', ran, w) = write_text_lem b xs [] h (omega arith) in
      (b', rw (e1, e2, e3, e4, ran) refl, loosely w (omega arith))
  encode_value_lem l t b xs v l' (amount {s} e1 e2 e3 e4 e5) h small =
      let (b', ran, w) = write_text_lem b xs s h (omega arith) in
      (b', rw (e1, e2, e3, e4, e5, ran) refl, loosely w (omega arith))
  encode_value_lem l t b xs v l' (words {s} e1 e2 e3 e4 e5 e6) h small =
      let longer : length (s ++ text "'") ≡ length s + 1 = length-append s (text "'") in
      let (b1, ran1, w1) = write_text_lem b xs (text "'") h (omega arith) in
      let (b2, ran2, w2) = write_text_lem b1 _ s w1.holds (omega (arith, w1.bounded, longer)) in
      let (b3, ran3, w3) =
        write_text_lem b2 _ (text "'") w2.holds (omega (arith, w1.bounded, w2.bounded, longer)) in
      (
        b3,
        rw (e1, e2, e3, e4, e5, e6, ran1, ran2, ran3) refl,
        loosely (Wrote-trans w1 (Wrote-trans w2 w3)) (omega (arith, longer)),
      )

  last_runs :
      (fuel : ℕ) (rc : Bool) (t : ℤ) (l l' : L) (b : ByteBuffer)
      → lua.next l t ≡ (false, l')
      → encode_entries lua (suc fuel) rc l t b ≡ ret (true, l', b)
  unfolding encode_entries
  last_runs fuel rc t l l' b e = rw (encode_entries, ap (λ p. p.0) e, ap (λ p. p.1) e) refl

  -- a round of the loop, from the runs of its parts
  round_runs :
      (fuel : ℕ) (rc : Bool) (t : ℤ) (key : Text) (l l1 l2 l3 : L) (b b1 b2 b3 b4 : ByteBuffer)
      → lua.next l t ≡ (true, l1)
      → (if rc then write_text b (text ",") else ret b) ≡ ret b1
      → encode_key lua l1 second b1 ≡ ret (true, l2, b2)
      → write_text b2 (text "=") ≡ ret b3
      → encode_value lua l2 top b3 ≡ ret (true, l3, b4)
      → encode_entries lua (suc fuel) rc l t b ≡ encode_entries lua fuel true (lua.pop l3 1) t b4
  unfolding encode_entries
  round_runs fuel rc t key l l1 l2 l3 b b1 b2 b3 b4 e1 e2 e3 e4 e5 =
      rw (encode_entries, ap (λ p. p.0) e1, ap (λ p. p.1) e1, e2, e3, e4, e5) refl

  -- A round writes an entry.
  entry_lem :
      (fuel : ℕ) (rc : Bool) (t : ℤ) (b : ByteBuffer) (xs : Text) (e : Entry) (l l1 l2 l3 : L)
      → lua.next l t ≡ (true, l1)
      → lua.to_string l1 second ≡ (e.key, l2)
      → Reads lua l2 top e.value l3
      → Holds b xs
      → b.capacity + entry_room e < 2 ^ 64
      → (b' : ByteBuffer) × (encode_entries lua (suc fuel) rc l t b
          ≡ encode_entries lua fuel true (lua.pop l3 1) t b')
        × Wrote b xs ((if rc then text "," else []) ++ assignment e) (entry_room e) b'
  unfolding assignment
  entry_lem fuel rc t b xs e l l1 l2 l3 e1 e2 r h small =
      let (b1, ran1, w1) = comma_lem rc b xs h (omega arith) in
      let (b2, ran2, w2) =
        encode_key_lem l1 second b1 _ e.key l2 e2 w1.holds (omega (arith, w1.bounded)) in
      let (b3, ran3, w3) =
        write_text_lem b2 _ (text "=") w2.holds (omega (arith, w1.bounded, w2.bounded)) in
      let (b4, ran4, w4) =
        encode_value_lem l2 top b3 _ e.value l3 r w3.holds
          (omega (arith, w1.bounded, w2.bounded, w3.bounded)) in
      (
        b4,
        round_runs fuel rc t e.key l l1 l2 l3 b b1 b2 b3 b4 e1 ran1 ran2 ran3 ran4,
        loosely (Wrote-trans w1 (Wrote-trans w2 (Wrote-trans w3 w4))) (omega arith),
      )

  -- The loop writes the entries that Lua walks over, behind what stands before them.
  pub encode_entries_lem :
      (fuel : ℕ) (rc : Bool) (t : ℤ) (b : ByteBuffer) (xs : Text) {l l' : L} {es : List Entry}
      → Walks lua t l es l'
      → Holds b xs
      → length es < fuel
      → b.capacity + room es < 2 ^ 64
      → (b' : ByteBuffer) × (encode_entries lua fuel rc l t b ≡ ret (true, l', b'))
        × Wrote b xs (joined rc es) (room es) b'
  unfolding joined
  encode_entries_lem zero rc t b xs w h enough small = absurd (omega arith)
  encode_entries_lem (suc fuel) rc t b xs (ends e) h enough small =
      (b, last_runs fuel rc t _ _ b e, Wrote-nothing b xs h)
  encode_entries_lem (suc fuel) rc t b xs (walks {key} {v} {es} {l} {l1} {l2} {l3} e1 e2 r w) h
        enough small =
      let e : Entry = record { key = key; value = v } in
      let (b', ran, first) = entry_lem fuel rc t b xs e l l1 l2 l3 e1 e2 r h (omega arith) in
      let (last, ran', rest) =
        encode_entries_lem fuel true t b' _ w first.holds (omega arith)
          (omega (arith, first.bounded)) in
      (
        last,
        ran ∙ ran',
        subst (λ s. Wrote b xs s (room (e ∷ es)) last)
            (append_assoc (if rc then text "," else []) (assignment e) (joined true es))
            (Wrote-trans first rest),
      )
