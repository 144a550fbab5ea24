-- ===== src/Common/Lists.antt =====
-- Lists measured and cut by native numbers, and byte strings.
use Prim.Native.Nat.{ℕ, zero, suc, ◌+◌, compare, Ordering}
use Prim.Native.Char.{code}
use Prim.Native.String.{String}
use mathlib.Core.Path.{◌≡◌, refl, ap, sym, subst, ◌∙◌}
use mathlib.Core.Bool.{Bool, true, false}
use mathlib.Core.List.{List, [], ◌∷◌, ◌++◌}
use native.Mathlib.Omega.{arith}

-- A `Vec<u8>` or a slice of bytes.
abbrev pub Bytes : Type 0
Bytes = List ℕ

-- The bytes of a text in ASCII.
abbrev pub codes : String → Bytes
codes String.[] = []
codes (String.◌∷◌ c s) = code c ∷ codes s

-- `trim_end_matches` of one byte.
abbrev pub trim_end : ℕ → Bytes → Bytes
trim_end c [] = []
trim_end c (b ∷ bs) = elim (trim_end c bs) [
  | [] ↦ elim (compare b c) [ Ordering.eq ↦ [] | _ ↦ b ∷ [] ]
  | x ∷ xs ↦ b ∷ x ∷ xs
]

module _ {ℓ} {A : Type ℓ} where
  abbrev pub length : List A → ℕ
  length [] = 0
  length (x ∷ xs) = suc (length xs)

  abbrev pub is_empty : List A → Bool
  is_empty [] = true
  is_empty (x ∷ xs) = false

  abbrev pub take : ℕ → List A → List A
  take zero xs = []
  take (suc n) [] = []
  take (suc n) (x ∷ xs) = x ∷ take n xs

  abbrev pub drop : ℕ → List A → List A
  drop zero xs = xs
  drop (suc n) [] = []
  drop (suc n) (x ∷ xs) = drop n xs

  abbrev pub replicate : ℕ → A → List A
  replicate zero a = []
  replicate (suc n) a = a ∷ replicate n a

  -- The predicate holds of every element.
  abbrev pub All {κ} : (A → Type κ) → List A → Type κ
  All P [] = Unit
  All P (x ∷ xs) = P x × All P xs

  pub length-append : (xs ys : List A) → length (xs ++ ys) ≡ length xs + length ys
  length-append [] ys = omega arith
  length-append (x ∷ xs) ys = omega (arith, length-append xs ys)

  pub length-replicate : (n : ℕ) (a : A) → length (replicate n a) ≡ n
  length-replicate zero a = refl
  length-replicate (suc n) a = ap suc (length-replicate n a)

  pub take-length-append : (xs ys : List A) → take (length xs) (xs ++ ys) ≡ xs
  take-length-append [] ys = refl
  take-length-append (x ∷ xs) ys = ap (◌∷◌ x) (take-length-append xs ys)

  pub take-nil : (n : ℕ) → take n [] ≡ []
  take-nil zero = refl
  take-nil (suc n) = refl

  pub drop-take : (k n : ℕ) (xs : List A) → drop k (take (k + n) xs) ≡ take n (drop k xs)
  drop-take zero n xs = ap (λ (m : ℕ). take m xs) (omega arith)
  drop-take (suc k) n [] = ap (drop (suc k)) (take-nil (suc k + n)) ∙ sym (take-nil n)
  drop-take (suc k) n (x ∷ xs) =
      let e : suc k + n ≡ suc (k + n) = omega arith in
      subst (λ m. drop (suc k) (take m (x ∷ xs)) ≡ take n (drop k xs)) (sym e) (drop-take k n xs)
