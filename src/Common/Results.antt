-- ===== src/Common/Results.antt =====
-- `Result`, and the `?` operator as a monad.
use mathlib.Core.Path.{◌≡◌, refl}
use mathlib.Core.Logic.{◌⊎◌, inl, inr}
use mathlib.Core.Bool.{Bool, true, false}
use mathlib.Core.Option.{Option, none, some}

pub data Result {a b} (Failure : Type a) (Value : Type b) : Type (a ⊔ b) where
  err : Failure → Result Failure Value
  ok : Value → Result Failure Value

module _ {a b c} {Failure : Type a} {V : Type b} {W : Type c} where
  -- `?`: an error returns at once.
  infixl 5 ◌>>=◌
  abbrev pub ◌>>=◌ : Result Failure V → (V → Result Failure W) → Result Failure W
  err failure >>= next = err failure
  ok value >>= next = next value

  -- A chain that ends well has a first step that did.
  pub >>=-eq-ok :
      (first : Result Failure V) (next : V → Result Failure W) {final : W}
      → first >>= next ≡ ok final
      → (value : V) × (first ≡ ok value) × (next value ≡ ok final)
  >>=-eq-ok (err failure) next h = cc
  >>=-eq-ok (ok value) next h = (value, refl, h)

module _ {a c} {Failure : Type a} {W : Type c} where
  infixl 5 ◌>>◌
  abbrev pub ◌>>◌ : Result Failure (Unit {0}) → Result Failure W → Result Failure W
  first >> next = first >>= λ done. next

module _ {ℓ κ} {E : Type ℓ} {A : Type κ} where
  -- `o.ok_or(e)?`, and `r.map_err(|_| e)?` where the error of `r` is thrown away.
  abbrev pub ok_or : Option A → E → Result E A
  ok_or none e = err e
  ok_or (some a) e = ok a

  pub ok_or-eq-ok : (o : Option A) (e : E) (a : A) → ok_or o e ≡ ok a → o ≡ some a
  ok_or-eq-ok none e a h = cc
  ok_or-eq-ok (some b) e a h = cc

  -- The first step of such a chain.
  pub ok_or-step {μ} :
      {B : Type μ} (o : Option A) (e : E) (next : A → Result E B) {final : B}
      → ok_or o e >>= next ≡ ok final
      → (a : A) × (o ≡ some a) × (next a ≡ ok final)
  ok_or-step none e next h = cc
  ok_or-step (some a) e next h = (a, refl, h)

  abbrev pub is_ok : Result E A → Bool
  is_ok (ok a) = true
  is_ok (err e) = false

  pub ok-injective : {a b : A} → ◌≡◌ {A = Result E A} (ok a) (ok b) → a ≡ b
  ok-injective h = cc

  pub Result-cases : (r : Result E A) → ((a : A) × (r ≡ ok a)) ⊎ ((e : E) × (r ≡ err e))
  Result-cases (ok a) = inl (a, refl)
  Result-cases (err e) = inr (e, refl)

-- `if !test { return Err(e) }`
abbrev pub ensure {ℓ} : {E : Type ℓ} → Bool → E → Result E (Unit {0})
ensure true e = ok tt
ensure false e = err e
