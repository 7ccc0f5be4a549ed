-- ===== src/Base/Failures.antt =====
-- Results of code that throws: an error carries the status that the error handler answers with (500
-- where the source attaches none) and its message.
use Prim.Native.Nat.{ℕ}
use Prim.Native.String.{String}
use mathlib.Core.Path.{◌≡◌, refl, subst}
use mathlib.Core.Logic.{◌⊎◌, inl, inr}
use mathlib.Core.Bool.{Bool, true, false}

pub data Result {ℓ} (Value : Type ℓ) : Type ℓ where
  err : (status : ℕ) → (message : String) → Result Value
  ok : Value → Result Value

-- `if (!b) throw …`
abbrev pub require : Bool → ℕ → String → Result (Unit {0})
require false status message = err status message
require true status message = ok tt

module _ {ℓ κ} {Value : Type ℓ} {Next : Type κ} where
  -- What follows a call that may throw.
  infixl 5 ◌>>=◌
  abbrev pub ◌>>=◌ : Result Value → (Value → Result Next) → Result Next
  err status message >>= next = err status message
  ok value >>= next = next value

  -- Inversion of a chain that succeeds.
  pub >>=-eq-ok :
      (first : Result Value) (next : Value → Result Next) {end : Next}
      → first >>= next ≡ ok end
      → (value : Value) × (first ≡ ok value) × (next value ≡ ok end)
  >>=-eq-ok (err status message) next done = cc
  >>=-eq-ok (ok value) next done = (value, refl, done)

module _ {ℓ} {Value : Type ℓ} where
  infixl 5 ◌>>◌
  abbrev pub ◌>>◌ : Result (Unit {0}) → Result Value → Result Value
  check >> next = check >>= λ _. next

  -- To split on a result and keep the equation.
  pub Result-cases :
      (r : Result Value)
      → ((value : Value) × (r ≡ ok value))
        ⊎ ((status : ℕ) × (message : String) × (r ≡ err status message))
  Result-cases (err status message) = inr (status, message, refl)
  Result-cases (ok value) = inl (value, refl)

-- What holds of a result that is not an error.
abbrev pub Yields {ℓ} : {Value : Type ℓ} → (Value → Type 0) → Result Value → Type 0
Yields P (err status message) = Unit
Yields P (ok value) = P value

module _ {ℓ κ} {Value : Type ℓ} {Next : Type κ} (P : Next → Type 0) where
  pub Yields->>= :
      (first : Result Value) (next : Value → Result Next)
      → ((value : Value) → first ≡ ok value → Yields P (next value))
      → Yields P (first >>= next)
  Yields->>= (err status message) next h = tt
  Yields->>= (ok value) next h = h value refl

pub Yields-ok {ℓ} :
    {Value : Type ℓ} (P : Value → Type 0) (r : Result Value) (value : Value)
    → Yields P r
    → r ≡ ok value
    → P value
Yields-ok P r value h e = subst (Yields P) e h

pub require_ok :
    (b : Bool) (status : ℕ) (message : String) (u : Unit {0})
    → require b status message ≡ ok u
    → b ≡ true
require_ok true status message u h = refl
require_ok false status message u h = absurd (cc h)

pub Yields-intro {ℓ} :
    {Value : Type ℓ} (P : Value → Type 0) (r : Result Value)
    → ((value : Value) → r ≡ ok value → P value)
    → Yields P r
Yields-intro P (err status message) h = tt
Yields-intro P (ok value) h = h value refl
