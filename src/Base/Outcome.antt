-- ===== src/Base/Outcome.antt =====
-- What a C function can do: return, fail an `assert`, follow a pointer that points to nothing, or
-- run past the fuel of its model.
use mathlib.Core.Path.{◌≡◌, refl}
use mathlib.Core.Bool.{Bool, true, false}

-- The build is a debug build (`CMAKE_BUILD_TYPE "Debug"`, no `NDEBUG`), so `assert` is on.
pub data Run {ℓ} (A : Type ℓ) : Type ℓ where
  ret : A → Run A
  abort : Run A
  fault : Run A
  stuck : Run A

infixl 5 ◌>>=◌ ◌>>◌
abbrev pub ◌>>=◌ {ℓ κ} : {A : Type ℓ} {B : Type κ} → Run A → (A → Run B) → Run B
ret a >>= f = f a
abort >>= f = abort
fault >>= f = fault
stuck >>= f = stuck

abbrev pub ◌>>◌ {ℓ} : {B : Type ℓ} → Run (Unit {0}) → Run B → Run B
m >> k = m >>= λ _. k

-- `assert(b)`
abbrev pub assert : Bool → Run (Unit {0})
assert true = ret tt
assert false = abort

-- To continue a run as two runs one after the other do.
pub bind-bind {ℓ κ μ} :
    {A : Type ℓ} {B : Type κ} {C : Type μ} (m : Run A) (f : A → Run B) (s : A → Run C)
    (k : C → Run B)
    → ((a : A) → f a ≡ (s a >>= k))
    → (m >>= f) ≡ ((m >>= s) >>= k)
bind-bind (ret a) f s k h = h a
bind-bind abort f s k h = refl
bind-bind fault f s k h = refl
bind-bind stuck f s k h = refl
