-- ===== src/Crypto/Tokens/Slices.antt =====
-- crates/lluma-crypto/src/tokens.rs: the slices of a token, out of bytes put together.
use lluma.Common.{ℕ, zero, suc, ◌≡◌, refl, ap, List, [], ◌∷◌, ◌++◌, length, take, drop, arith}

pub take-front {ℓ} : {A : Type ℓ} (n : ℕ) (xs ys : List A) → length xs ≡ n → take n (xs ++ ys) ≡ xs
take-front zero [] ys h = refl
take-front (suc n) [] ys h = absurd (omega (arith, h))
take-front zero (x ∷ xs) ys h = absurd (omega (arith, h))
take-front (suc n) (x ∷ xs) ys h = ap (◌∷◌ x) (take-front n xs ys (omega (arith, h)))

pub drop-front {ℓ} : {A : Type ℓ} (n : ℕ) (xs ys : List A) → length xs ≡ n → drop n (xs ++ ys) ≡ ys
drop-front zero [] ys h = refl
drop-front (suc n) [] ys h = absurd (omega (arith, h))
drop-front zero (x ∷ xs) ys h = absurd (omega (arith, h))
drop-front (suc n) (x ∷ xs) ys h = drop-front n xs ys (omega (arith, h))

pub append_assoc {ℓ} : {A : Type ℓ} (xs ys zs : List A) → (xs ++ ys) ++ zs ≡ xs ++ (ys ++ zs)
append_assoc [] ys zs = refl
append_assoc (x ∷ xs) ys zs = ap (◌∷◌ x) (append_assoc xs ys zs)
