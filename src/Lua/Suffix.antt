-- ===== src/Lua/Suffix.antt =====
-- The name of a script without its suffix, in `slam_lua_dofile` of src/slam_lua.c.
use slam.Base.{◌<◌, arith, length, length-append, take-all, ◌≡◌, refl, some, [], ◌∷◌, ◌++◌, ap}
use slam.Lua.Api.{Text, text}
use slam.Lua.Names.{strip, cut, last_dot, same_word, require_command}

last_dot-append : (s : Text) → last_dot (s ++ text ".lua") ≡ some (s, text ".lua")
unfolding last_dot
last_dot-append [] = refl
last_dot-append (c ∷ s) = rw (last_dot-append s) refl

-- The suffix `.lua` is taken off whatever name it ends, and no more than it.
pub strip-append : (s : Text) → strip (s ++ text ".lua") ≡ s
unfolding strip same_word
strip-append s = ap (cut (s ++ text ".lua")) (last_dot-append s)

-- A name that ends in `.lua` and is short enough for the two buffers is required without the suffix,
-- whatever stands before it.
pub require_command-append :
    (s : Text)
    → length s < 4085
    → require_command (s ++ text ".lua") ≡ text "require \"" ++ (s ++ text "\"")
unfolding require_command
require_command-append s short =
    rw
      (
        take-all 4095 (s ++ text ".lua") (omega (arith, length-append s (text ".lua"))),
        strip-append s,
      )
      (take-all 4095 (text "require \"" ++ (s ++ text "\""))
        (omega (arith, length-append s (text "\""))))
