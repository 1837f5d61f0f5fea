-- ===== src/Lua/Names.antt =====
-- The name that `slam_lua_dofile` of src/slam_lua.c gives to `require`: the file's name without a
-- suffix `.lua`. A C string ends before its first 0; `snprintf` cuts it to the size of its buffer.
use slam.Base.{
  ℕ, ◌+◌, ◌-◌, Bool, true, false, ◌&&◌, Option, none, some, [], ◌∷◌, ◌++◌, take, leb, ◌==◌,
  if◌then◌else◌,
}
use slam.Lua.Api.{Text, text}

-- PATH_MAX of linux/limits.h
abbrev pub path_max : ℕ
path_max = 4096

-- what `snprintf` leaves of a string in a buffer of that size
abbrev pub printed : ℕ → Text → Text
printed size s = take (size - 1) s

-- `tolower` in the locale of the program's names
abbrev pub lower : ℕ → ℕ
lower c = if leb 65 c && leb c 90 then c + 32 else c

-- `strcasecmp` for equality
unfoldable pub same_word : Text → Text → Bool
same_word [] [] = true
same_word [] (d ∷ ds) = false
same_word (c ∷ cs) [] = false
same_word (c ∷ cs) (d ∷ ds) =
    let rest = same_word cs ds in if lower c == lower d then rest else false

-- `strrchr` at '.': what stands before the last dot, and the rest from it on
unfoldable pub last_dot : Text → Option (Text × Text)
last_dot [] = none
last_dot (c ∷ cs) = elim (last_dot cs) [
  | some (before, rest) ↦ some (c ∷ before, rest)
  | none ↦ if c == 46 then some ([], c ∷ cs) else none
]

-- the name of which `strrchr` found the given parts, without the suffix that its test accepts
abbrev pub cut : Text → Option (Text × Text) → Text
cut s none = s
cut s (some (before, rest)) = if same_word rest (text ".lua") then before else s

-- the name without its suffix
unfoldable pub strip : Text → Text
strip s = cut s (last_dot s)

-- the command that `slam_lua_dofile` runs
unfoldable pub require_command : Text → Text
require_command filename =
    printed path_max (text "require \"" ++ (strip (printed path_max filename) ++ text "\""))
