-- ===== src/Base/Results.antt =====
-- What holds of the result of a run, if it returns one: the rule for each way to build a run.
use mathlib.Core.Path.{◌≡◌, refl, subst}
use mathlib.Core.Bool.{Bool, true, false}
use mathlib.Core.Option.{Option, none, some}
use slam.Base.Tests.{if◌then◌else◌}
use slam.Base.Outcome.{Run, ret, abort, fault, stuck, ◌>>=◌, ◌>>◌, assert}

unfoldable pub Ensures {ℓ κ} : {A : Type ℓ} → (A → Type κ) → Run A → Type κ
Ensures P (ret a) = P a
Ensures P abort = Unit
Ensures P fault = Unit
Ensures P stuck = Unit

pub Ensures-bind {ℓ κ μ} :
    {A : Type ℓ} {B : Type κ} (P : B → Type μ) (m : Run A) (f : A → Run B)
    → Ensures (λ a. Ensures P (f a)) m
    → Ensures P (m >>= f)
unfolding Ensures
Ensures-bind P (ret a) f h = h
Ensures-bind P abort f h = tt
Ensures-bind P fault f h = tt
Ensures-bind P stuck f h = tt

pub Ensures-assert {κ μ} :
    {B : Type κ} (P : B → Type μ) (b : Bool) (m : Run B)
    → (b ≡ true → Ensures P m)
    → Ensures P (assert b >> m)
unfolding Ensures
Ensures-assert P true m h = h refl
Ensures-assert P false m h = tt

pub Ensures-if {κ μ} :
    {B : Type κ} (P : B → Type μ) (b : Bool) (m n : Run B)
    → (b ≡ true → Ensures P m)
    → (b ≡ false → Ensures P n)
    → Ensures P (if b then m else n)
unfolding Ensures
Ensures-if P true m n h k = h refl
Ensures-if P false m n h k = k refl

pub Ensures-map {ℓ κ μ} :
    {A : Type ℓ} (P : A → Type κ) (Q : A → Type μ) (m : Run A)
    → ((a : A) → P a → Q a)
    → Ensures P m
    → Ensures Q m
unfolding Ensures
Ensures-map P Q (ret a) f h = f a h
Ensures-map P Q abort f h = tt
Ensures-map P Q fault f h = tt
Ensures-map P Q stuck f h = tt

-- What is ensured of anything.
pub Ensures-any {ℓ κ} : {A : Type ℓ} (P : A → Type κ) (m : Run A) → ((a : A) → P a) → Ensures P m
unfolding Ensures
Ensures-any P (ret a) f = f a
Ensures-any P abort f = tt
Ensures-any P fault f = tt
Ensures-any P stuck f = tt

-- the rules for a choice
pub Ensures-option {ℓ κ μ} :
    {A : Type ℓ} {B : Type κ} (P : B → Type μ) (o : Option A) (n : Run B) (f : A → Run B)
    → (o ≡ none → Ensures P n)
    → ((a : A) → o ≡ some a → Ensures P (f a))
    → Ensures P (elim o [ none ↦ n | some a ↦ f a ])
unfolding Ensures
Ensures-option P none n f h k = h refl
Ensures-option P (some a) n f h k = k a refl

pub Ensures-test {κ μ} :
    {B : Type κ} (P : B → Type μ) (b : Bool) (m n : Run B)
    → (b ≡ true → Ensures P m)
    → (b ≡ false → Ensures P n)
    → Ensures P (elim b [ true ↦ m | false ↦ n ])
unfolding Ensures
Ensures-test P true m n h k = h refl
Ensures-test P false m n h k = k refl

pub Ensures-ret {ℓ κ} : {A : Type ℓ} (P : A → Type κ) (a : A) → P a → Ensures P (ret a)
unfolding Ensures
Ensures-ret P a h = h

-- A run that returns nothing ensures everything.
pub Ensures-stuck {ℓ κ} : {A : Type ℓ} (P : A → Type κ) → Ensures P stuck
unfolding Ensures
Ensures-stuck P = tt

pub Ensures-fault {ℓ κ} : {A : Type ℓ} (P : A → Type κ) → Ensures P fault
unfolding Ensures
Ensures-fault P = tt

pub Ensures-abort {ℓ κ} : {A : Type ℓ} (P : A → Type κ) → Ensures P abort
unfolding Ensures
Ensures-abort P = tt

-- What is ensured of a run holds of what it returns.
pub Ensures-at {ℓ κ} :
    {A : Type ℓ} (P : A → Type κ) (m : Run A) (a : A) → m ≡ ret a → Ensures P m → P a
unfolding Ensures
Ensures-at P m a e h = subst (Ensures P) e h
