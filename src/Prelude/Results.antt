-- ===== src/Prelude/Results.antt =====
-- Results of fallible code, and computations that change a state and may fail.
use mathlib.Core.Path.{◌≡◌, refl, ap}
use native.Mathlib.Omega.{arith}
use mathlib.Core.Logic.{◌⊎◌, inl, inr}
use mathlib.Core.Option.{Option, none, some}

-- `Result<A, E>`
pub data Result {ℓ κ} (E : Type ℓ) (A : Type κ) : Type (ℓ ⊔ κ) where
  ok : A → Result E A
  err : E → Result E A

-- How a method ends when it does not return a value: with an `Err`, or with a panic.
pub data Fault {ℓ} (E : Type ℓ) : Type ℓ where
  error : E → Fault E
  panic : Fault E

infixl 5 ◌>>=◌
abbrev pub ◌>>=◌ {ℓ κ μ} :
    {E : Type ℓ} {A : Type κ} {B : Type μ} → Result E A → (A → Result E B) → Result E B
ok a >>= f = f a
err e >>= f = err e

abbrev pub map_err {ℓ κ μ} :
    {E : Type ℓ} {F : Type κ} {A : Type μ} → (E → F) → Result E A → Result F A
map_err f (ok a) = ok a
map_err f (err e) = err (f e)

-- `Option::context(e)`: the value, or the error `e`.
abbrev pub context {ℓ κ} : {E : Type ℓ} {A : Type κ} → E → Option A → Result E A
context e none = err e
context e (some a) = ok a

-- `Result::ok`
abbrev pub to_option {ℓ κ} : {E : Type ℓ} {A : Type κ} → Result E A → Option A
to_option (ok a) = some a
to_option (err e) = none

-- `Option::flatten`
abbrev pub flatten_option {ℓ} : {A : Type ℓ} → Option (Option A) → Option A
flatten_option none = none
flatten_option (some o) = o

abbrev pub map_option {ℓ κ} : {A : Type ℓ} {B : Type κ} → (A → B) → Option A → Option B
map_option f none = none
map_option f (some a) = some (f a)

pub Result-cases {ℓ κ} :
    {E : Type ℓ} {A : Type κ} (r : Result E A) → ((a : A) × (r ≡ ok a)) ⊎ ((e : E) × (r ≡ err e))
Result-cases (ok a) = inl (a, refl)
Result-cases (err e) = inr (e, refl)

-- A method that changes a state `s` and may fail, then the next one. `?` on the first.
abbrev pub and_then {ℓ κ} :
    {S : Type ℓ} {E : Type κ}
    → S × Result E (Unit {0})
    → (S → S × Result E (Unit {0}))
    → S × Result E (Unit {0})
and_then (s, ok _) f = f s
and_then (s, err e) f = (s, err e)

abbrev pub map_fault {ℓ κ μ} :
    {S : Type ℓ} {E : Type κ} {F : Type μ}
    → (E → F)
    → S × Result E (Unit {0})
    → S × Result F (Unit {0})
map_fault f (s, r) = (s, map_err f r)

module _ {ℓ κ} {E : Type ℓ} {A : Type κ} where
  pub ok-injective : {x y : A} → ◌≡◌ {A = Result E A} (ok x) (ok y) → x ≡ y
  ok-injective e = cc

pub map_err-ok {ℓ κ μ} :
    {E : Type ℓ} {F : Type κ} {A : Type μ} (f : E → F) (r : Result E A) (a : A)
    → map_err f r ≡ ok a
    → r ≡ ok a
map_err-ok f (ok x) a e = ap ok (ok-injective e)
map_err-ok f (err x) a e = absurd (ground arith)
