-- ===== src/Utils/Tests.antt =====
-- Runs of src/slam_utils.c.
use slam.Base.{◌^◌, ◌<◌, ◌≡◌, refl, ℤ, pos, negsuc, [], ◌∷◌}
use slam.Lua.Api.{Text, text}
use slam.Utils.{hash_string, errstring, strerror_init, sys_errno, cpus, milliseconds, Timeval}
use slam.Utils.Hash.{hash_string-lt}
use slam.Utils.Errors.{errstring_lem}

hash : hash_string (text "slam") ≡ 500349
unfolding hash_string slam.Utils.hash_round
hash = refl

hash_long : hash_string (text "slam_player_leave") ≡ 42606389
unfolding hash_string slam.Utils.hash_round
hash_long = refl

hash_string-lt_example : hash_string (text "slam_player_leave") < 2 ^ 28
hash_string-lt_example = hash_string-lt (text "slam_player_leave")

abbrev plain : ℤ → Text
plain (pos n) = n ∷ []
plain (negsuc n) = 45 ∷ n ∷ []

text_of_98 : errstring plain (strerror_init (λ n. plain (pos n)) sys_errno 0) (pos 98) ≡ 98 ∷ []
text_of_98 = errstring_lem plain (pos 98)

no_answer : cpus (negsuc 0) ≡ 1
unfolding cpus
no_answer = refl

clock : milliseconds (record { tv_sec = 12; tv_usec = 345678 }) ≡ 12345
unfolding milliseconds
clock = refl
