-- ===== src/Common/Results.antt =====
-- Rust's `Result<A, E>`.
use mathlib.Core.Path.{◌≡◌, refl, ap}
use mathlib.Core.Option.{Option, none, some}
use native.Mathlib.Omega.{arith}

pub data Result {ℓ κ} (A : Type ℓ) (E : Type κ) : Type (ℓ ⊔ κ) where
  ok : A → Result A E
  err : E → Result A E

-- `?`: an error ends the computation.
infixl 5 ◌>>=◌
abbrev pub ◌>>=◌ {ℓ κ μ} :
    {T : Type ℓ} {E : Type κ} {U : Type μ} → Result T E → (T → Result U E) → Result U E
err failure >>= next = err failure
ok value >>= next = next value

-- `ok_or`
abbrev pub ok_or {ℓ κ} : {A : Type ℓ} {E : Type κ} → Option A → E → Result A E
ok_or none e = err e
ok_or (some a) e = ok a

-- A chain that has succeeded went through a first success.
pub >>=-eq-ok {ℓ κ μ} :
    {T : Type ℓ} {E : Type κ} {U : Type μ} (first : Result T E) (next : T → Result U E) {out : U}
    → (first >>= next) ≡ ok out
    → (mid : T) × (first ≡ ok mid) × (next mid ≡ ok out)
>>=-eq-ok (err failure) next reached = cc
>>=-eq-ok (ok value) next reached = (value, refl, reached)

pub ok_or-eq-ok {ℓ κ} :
    {A : Type ℓ} {E : Type κ} (o : Option A) (e : E) (a : A) → ok_or o e ≡ ok a → o ≡ some a
ok_or-eq-ok none e a h = cc
ok_or-eq-ok (some b) e a h = ground arith

pub ok-injective {ℓ κ} :
    {A : Type ℓ} {E : Type κ} {a b : A} → ◌≡◌ {A = Result A E} (ok a) (ok b) → a ≡ b
ok-injective {A = A} {E = E} {a} {b} h = ap value h
  where
    value : Result A E → A
    value (ok x) = x
    value (err e) = a
