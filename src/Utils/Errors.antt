-- ===== src/Utils/Errors.antt =====
-- The texts of errors in src/slam_utils.c, before a test of the error's range.
use slam.Base.{ℕ, zero, suc, ◌+◌, ◌<◌, ◌≡◌, refl, ◌∙◌, ap, ℤ, pos, negsuc, [], arith, get_or}
use slam.Lua.Api.{Text}
use slam.Utils.{strerror_init, errstring, sys_errno}

-- The entry of the table for an error is the text of that error.
strerror_init-entry :
    (strerror : ℕ → Text)
    → (n err k : ℕ) → k < n
    → get_or (strerror_init strerror n err) k [] ≡ strerror (err + k)
unfolding strerror_init
strerror_init-entry strerror zero err k h = absurd (omega arith)
strerror_init-entry strerror (suc n) err zero h = ap strerror (omega arith)
strerror_init-entry strerror (suc n) err (suc k) h =
    strerror_init-entry strerror n (err + 1) k (omega arith) ∙ ap strerror (omega arith)

-- With the table that is built when the program starts, the text of any error, in the table's range or
-- out of it, is the one of the C library.
pub errstring_lem :
    (strerror : ℤ → Text) (err : ℤ)
    → errstring strerror (strerror_init (λ n. strerror (pos n)) sys_errno 0) err ≡ strerror err
unfolding errstring
errstring_lem strerror (negsuc n) = refl
errstring_lem strerror (pos n) = ground (arith, strerror_init-entry (λ n. strerror (pos n)) 256 0 n)
