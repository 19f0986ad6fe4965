-- ===== src/Prelude/Outcome.antt =====
-- Rust's `Result`, with the error type first, and `?` as `do`.
use mathlib.Core.Bool.{Bool, true, false}
use mathlib.Core.Path.{◌≡◌, refl, subst}
use mathlib.Core.Option.{Option, none, some}

pub data Result {ℓ κ} (E : Type ℓ) (A : Type κ) : Type (ℓ ⊔ κ) where
  ok : A → Result E A
  err : E → Result E A

infixl 5 ◌>>=◌ ◌>>◌
abbrev pub ◌>>=◌ {ℓ κ λ₁} :
    {E : Type ℓ} {A : Type κ} {B : Type λ₁} → Result E A → (A → Result E B) → Result E B
ok a >>= f = f a
err e >>= f = err e

abbrev pub ◌>>◌ {ℓ κ} : {E : Type ℓ} {B : Type κ} → Result E (Unit {0}) → Result E B → Result E B
m >> k = m >>= λ _. k

-- `if !test { return Err(e) }`
abbrev pub ensure {ℓ} : {E : Type ℓ} → Bool → E → Result E (Unit {0})
ensure true e = ok tt
ensure false e = err e

-- `Option::ok_or`
abbrev pub ok_or {ℓ κ} : {E : Type ℓ} {A : Type κ} → Option A → E → Result E A
ok_or (some a) e = ok a
ok_or none e = err e

-- `Result::map_err`
abbrev pub map_err {ℓ κ λ₁} :
    {E : Type ℓ} {F : Type κ} {A : Type λ₁} → (E → F) → Result E A → Result F A
map_err f (ok a) = ok a
map_err f (err e) = err (f e)

abbrev pub is_ok {ℓ κ} : {E : Type ℓ} {A : Type κ} → Result E A → Bool
is_ok (ok a) = true
is_ok (err e) = false

pub ok_inj {ℓ κ} : {E : Type ℓ} {A : Type κ} {a b : A} → ◌≡◌ {A = Result E A} (ok a) (ok b) → a ≡ b
ok_inj e = cc

-- What holds of the value, if there is one.
abbrev pub OnOk {ℓ κ λ₁} : {E : Type ℓ} {A : Type κ} → (A → Type λ₁) → Result E A → Type λ₁
OnOk Q (ok a) = Q a
OnOk Q (err e) = Unit

pub OnOk-bind {ℓ κ λ₁ μ ν} :
    {E : Type ℓ} {A : Type κ} {B : Type λ₁} (P : A → Type μ) (Q : B → Type ν) (m : Result E A)
    (f : A → Result E B)
    → OnOk P m
    → ((a : A) → P a → OnOk Q (f a))
    → OnOk Q (m >>= f)
OnOk-bind P Q (ok a) f h k = k a h
OnOk-bind P Q (err e) f h k = tt

pub OnOk-imp {ℓ κ λ₁ μ} :
    {E : Type ℓ} {A : Type κ} (P : A → Type λ₁) (Q : A → Type μ) (m : Result E A)
    → ((a : A) → P a → Q a)
    → OnOk P m
    → OnOk Q m
OnOk-imp P Q (ok a) f h = f a h
OnOk-imp P Q (err e) f h = tt

pub OnOk-trivial {ℓ κ} : {E : Type ℓ} {A : Type κ} (m : Result E A) → OnOk (λ _. Unit {0}) m
OnOk-trivial (ok a) = tt
OnOk-trivial (err e) = tt

pub OnOk-of {ℓ κ} : {E : Type ℓ} {A : Type κ} (m : Result E A) → OnOk (λ a. m ≡ ok a) m
OnOk-of (ok a) = refl
OnOk-of (err e) = tt

pub OnOk-ensure {ℓ} : {E : Type ℓ} (b : Bool) (e : E) → OnOk (λ _. b ≡ true) (ensure b e)
OnOk-ensure true e = refl
OnOk-ensure false e = tt

pub OnOk-at {ℓ κ λ₁} :
    {E : Type ℓ} {A : Type κ} (Q : A → Type λ₁) (m : Result E A) (a : A) → m ≡ ok a → OnOk Q m → Q a
OnOk-at Q m a e h = subst (OnOk Q) e h

-- A test, and what follows it.
pub OnOk-test {ℓ κ λ₁} :
    {E : Type ℓ} {B : Type κ} (Q : B → Type λ₁) (b : Bool) (e : E) (f : Unit {0} → Result E B)
    → (b ≡ true → OnOk Q (f tt))
    → OnOk Q (ensure b e >>= f)
OnOk-test Q true e f h = h refl
OnOk-test Q false e f h = tt
