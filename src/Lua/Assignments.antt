-- ===== src/Lua/Assignments.antt =====
-- The SQL text that src/slam_lua_db.c should make of a table's entries, and what it means that Lua walks
-- over given entries.
use slam.Base.{ℕ, ◌+◌, ℤ, ◌≡◌, Bool, true, false, List, [], ◌∷◌, ◌++◌, length, if◌then◌else◌}
use slam.Lua.Api.{Lua, Text, text, top, second, is_boolean, is_nil, is_none}

-- A value as SQL has it: no value, a text as it is, or a text between quotes.
pub data Value : Type 0 where
  null : Value
  plain : Text → Value
  quoted : Text → Value

pub record Entry : Type 0 where
  pub key : Text
  pub value : Value

unfoldable pub sql_value : Value → Text
sql_value Value.null = text "null"
sql_value (Value.plain s) = s
sql_value (Value.quoted s) = text "'" ++ (s ++ text "'")

unfoldable pub assignment : Entry → Text
unfolding sql_value
assignment e = e.key ++ (text "=" ++ sql_value e.value)

-- the assignments with a comma between any two, and one before the first if some stand there already
unfoldable pub joined : Bool → List Entry → Text
unfolding assignment
joined rc [] = []
joined rc (e ∷ es) = (if rc then text "," else []) ++ (assignment e ++ joined true es)

-- no less than what the buffer may grow by for an entry, and for entries
abbrev pub entry_room : Entry → ℕ
entry_room e = 3080 + length e.key + length (sql_value e.value)

abbrev pub room : List Entry → ℕ
room [] = 0
room (e ∷ es) = entry_room e + room es

module _ {L F C : Type 0} (lua : Lua L F C) where
  -- What Lua answers about a value on its stack; reading it as a text leaves the last state. A boolean is
  -- no text: reading it gives none, which has no bytes.
  pub data Reads (l : L) (t : ℤ) : Value → L → Type 0 where
    missing : is_none lua l t ≡ true → Reads l t Value.null l
    nothing : is_none lua l t ≡ false → is_nil lua l t ≡ true → Reads l t Value.null l
    truth :
        is_none lua l t ≡ false
        → is_nil lua l t ≡ false
        → is_boolean lua l t ≡ true
        → lua.to_string l t ≡ ([], l)
        → Reads l t (Value.plain []) l
    amount :
        {s : Text} {l' : L}
        → is_none lua l t ≡ false
        → is_nil lua l t ≡ false
        → is_boolean lua l t ≡ false
        → lua.is_number l t ≡ true
        → lua.to_string l t ≡ (s, l')
        → Reads l t (Value.plain s) l'
    words :
        {s : Text} {l' : L}
        → is_none lua l t ≡ false
        → is_nil lua l t ≡ false
        → is_boolean lua l t ≡ false
        → lua.is_number l t ≡ false
        → lua.is_string l t ≡ true
        → lua.to_string l t ≡ (s, l')
        → Reads l t (Value.quoted s) l'

  -- From a state whose topmost value is a key, Lua walks over the entries of the table at a place, and
  -- ends in another state.
  pub data Walks (t : ℤ) : L → List Entry → L → Type 0 where
    ends : {l l' : L} → lua.next l t ≡ (false, l') → Walks t l [] l'
    walks :
        {key : Text} {v : Value} {es : List Entry} {l l1 l2 l3 l4 : L}
        → lua.next l t ≡ (true, l1)
        → lua.to_string l1 second ≡ (key, l2)
        → Reads l2 top v l3
        → Walks t (lua.pop l3 1) es l4
        → Walks t l (record { key = key; value = v } ∷ es) l4
