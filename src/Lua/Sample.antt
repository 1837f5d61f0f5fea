-- ===== src/Lua/Sample.antt =====
-- A Lua for the tests: its stack is a list, each of its functions returns 7, every name has a function,
-- and a table has no entries.
use slam.Base.{
  ℕ, ◌+◌, ◌-◌, ℤ, pos, negsuc, Bool, true, false, List, [], ◌∷◌, ◌++◌, length, take, drop, get_or,
}
use slam.Lua.Api.{Lua, Kind, Text}

pub data Thing : Type 0 where
  nothing : Thing
  truth : Bool → Thing
  count : ℤ → Thing
  word : Text → Thing
  table : Thing
  routine : Thing

abbrev pub kind_of : Thing → Kind
kind_of nothing = Kind.nil
kind_of (truth b) = Kind.boolean
kind_of (count n) = Kind.number
kind_of (word s) = Kind.string
kind_of table = Kind.table
kind_of routine = Kind.function

abbrev pub from_top : List Thing → ℤ → Thing
from_top l (pos n) = get_or l (length l - n) nothing
from_top l (negsuc n) = get_or l n nothing

abbrev pub is_count : Thing → Bool
is_count (count n) = true
is_count _ = false

abbrev pub truth_of : Thing → Bool
truth_of nothing = false
truth_of (truth b) = b
truth_of _ = true

abbrev pub count_of : Thing → ℤ
count_of (count n) = n
count_of _ = pos 0

abbrev pub word_of : Thing → Text
word_of (word s) = s
word_of _ = []

abbrev pub place_of : ℤ → ℕ
place_of (pos n) = n
place_of (negsuc n) = n

abbrev pub move : ℕ → List Thing → List Thing
move n [] = []
move n (v ∷ vs) = take n vs ++ (v ∷ drop n vs)

-- converts the topmost value
abbrev pub convert : List Thing → List Thing
convert [] = []
convert (v ∷ vs) = word (word_of v) ∷ vs

-- looks a key up: every key has a function
abbrev pub look_up : List Thing → List Thing
look_up [] = []
look_up (k ∷ vs) = routine ∷ vs

abbrev pub lists : Lua (List Thing) ℤ (Unit {0})
lists = record {
  registry = negsuc 9999;
  get_top = λ l. length l;
  set_top = λ l n. drop (length l - n) l;
  pop = λ l n. drop n l;
  push_value = λ l i. from_top l i ∷ l;
  insert = λ l i. move (place_of i) l;
  remove = λ l i. l;
  kind = λ l i. kind_of (from_top l i);
  is_number = λ l i. is_count (from_top l i);
  is_string = λ l i. false;
  is_userdata = λ l i. false;
  to_boolean = λ l i. truth_of (from_top l i);
  to_integer = λ l i. count_of (from_top l i);
  to_number = λ l i. count_of (from_top l i);
  to_string = λ l i. (word_of (from_top l i), convert l);
  push_nil = λ l. nothing ∷ l;
  push_boolean = λ l b. truth b ∷ l;
  push_integer = λ l n. count n ∷ l;
  push_number = λ l n. count n ∷ l;
  push_string = λ l s. word s ∷ l;
  push_function = λ l c. routine ∷ l;
  new_table = λ l. table ∷ l;
  get_global = λ l s. routine ∷ l;
  get_table = λ l i. look_up l;
  set_table = λ l i. drop 2 l;
  raw_get = λ l i. look_up l;
  raw_set = λ l i. drop 2 l;
  raw_geti = λ l i n. routine ∷ l;
  next = λ l i. (false, drop 1 l);
  ref = λ l i. (pos 1, drop 1 l);
  unref = λ l i n. l;
  pcall = λ l args results traceback. (false, count (pos 7) ∷ drop (args + 1) l);
  load_string = λ l s. (false, routine ∷ l);
  open_state = λ l. l;
  check_stack = λ l n. l;
  close = λ l. [];
  truncate = λ x. x;
  from_integer = λ n. n;
  same_number = λ a b. true;
}
