-- ===== src/Prelude/Outcome.antt =====
-- Exceptions as values, and methods that change a state and may raise.
use mathlib.Core.Path.{◌≡◌, refl}
use mathlib.Core.Logic.{◌⊎◌, inl, inr}
use mathlib.Core.Bool.{Bool, true, false}
use mathlib.Core.Option.{Option, none, some}
use native.Mathlib.Omega.{arith}
use Prim.Native.String.{String}

-- The exception classes that the code raises or lets through, with their codes.
pub data Exception : Type 0 where
  value_error : String → Exception
  runtime_error : String → Exception
  permission_error : String → Exception
  lookup_error : String → Exception
  not_found : String → Exception
  conflict : String → Exception
  invalid_transition : String → Exception
  review_validation : String → Exception
  admission_error : String → Exception
  os_error : String → Exception
  integrity_error : String → Exception
  no_result : Exception

pub data Result {ℓ} (A : Type ℓ) : Type ℓ where
  ok : A → Result A
  err : Exception → Result A

module _ {ℓ} {A : Type ℓ} where
  abbrev pub is_ok : Result A → Bool
  is_ok (ok a) = true
  is_ok (err e) = false

  -- `raise` unless the test holds.
  abbrev pub require : Bool → Exception → Result A → Result A
  require true e r = r
  require false e r = err e

  abbrev pub or_raise : Option A → Exception → Result A
  or_raise none e = err e
  or_raise (some a) e = ok a

pub Result-cases {ℓ} :
    {A : Type ℓ} (r : Result A) → ((a : A) × (r ≡ ok a)) ⊎ ((e : Exception) × (r ≡ err e))
Result-cases (ok a) = inl (a, refl)
Result-cases (err e) = inr (e, refl)

pub ok_inj {ℓ} : {A : Type ℓ} {a b : A} → ok a ≡ ok b → a ≡ b
ok_inj h = cc

module _ {ℓ κ} {A : Type ℓ} {B : Type κ} where
  infixl 5 ◌>>=◌
  abbrev pub ◌>>=◌ : Result A → (A → Result B) → Result B
  ok a >>= f = f a
  err e >>= f = err e

  pub >>=-ok :
      (r : Result A) (f : A → Result B) {b : B}
      → (r >>= f) ≡ ok b
      → (a : A) × (r ≡ ok a) × (f a ≡ ok b)
  >>=-ok (ok a) f h = (a, refl, h)
  >>=-ok (err e) f h = cc

pub >>=-pure {ℓ} : {A : Type ℓ} (r : Result A) → (r >>= (λ a. ok a)) ≡ r
>>=-pure (ok a) = refl
>>=-pure (err e) = refl

pub require-ok {ℓ} :
    {A : Type ℓ} (b : Bool) (e : Exception) (r : Result A) {a : A}
    → require b e r ≡ ok a
    → (b ≡ true) × (r ≡ ok a)
require-ok true e r h = (refl, h)
require-ok false e r h = absurd (ground arith)

-- Methods of several transactions: what the first ones wrote stays also when a later one raises.
module _ {ℓ κ μ} {A : Type ℓ} {B : Type κ} {S : Type μ} where
  infixl 5 ◌andthen◌
  abbrev pub ◌andthen◌ : Result A × S → (A → S → Result B × S) → Result B × S
  (ok a, s) andthen f = f a s
  (err e, s) andthen f = (err e, s)

  -- What holds of the state and is kept by what follows holds in the end, raised or not.
  pub andthen-keeps {ν} :
      (P : S → Type ν) (r : Result A × S) (f : A → S → Result B × S)
      → P r.1
      → ((a : A) (s : S) → P s → P (f a s).1)
      → P (r andthen f).1
  andthen-keeps P (ok a, s) f h keeps = keeps a s h
  andthen-keeps P (err e, s) f h keeps = h

  -- By the result of the first method.
  pub andthen-cases {ν} :
      (Q : Result B × S → Type ν) (r : Result A × S) (f : A → S → Result B × S)
      → ((a : A) (s : S) → r ≡ (ok a, s) → Q (f a s))
      → ((e : Exception) (s : S) → r ≡ (err e, s) → Q (err e, s))
      → Q (r andthen f)
  andthen-cases Q (ok a, s) f returned raised = returned a s refl
  andthen-cases Q (err e, s) f returned raised = raised e s refl

module _ {ℓ μ} {A : Type ℓ} {S : Type μ} where
  -- `with engine.begin()`: an exception rolls back what the body wrote.
  abbrev pub in_transaction : S → Result A × S → Result A × S
  in_transaction before (ok a, s) = (ok a, s)
  in_transaction before (err e, s) = (err e, before)

-- The outcome of a check that returns nothing.
abbrev pub Checked : Type 0
Checked = Result (Unit {0})
