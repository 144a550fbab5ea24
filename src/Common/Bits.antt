-- ===== src/Common/Bits.antt =====
-- Bitwise operators on words of a given width, and the comparison of bytes, also in constant time.
use Prim.Native.Nat.{ℕ, zero, suc, ◌+◌, ◌*◌, ◌/◌, ◌%◌, ◌^◌, ◌<◌}
use mathlib.Core.Path.{◌≡◌, refl}
use mathlib.Core.Logic.{◌↔◌}
use mathlib.Core.Bool.{Bool, true, false, not, ◌&&◌}
use mathlib.Core.List.{[], ◌∷◌}
use native.Mathlib.Omega.{arith}
use lluma.Common.Tests.{◌==◌, if◌then◌else◌}
use lluma.Common.Lists.{Bytes, length, All}

abbrev pub xor_bit : ℕ → ℕ → ℕ
xor_bit a b = if a == b then 0 else 1

abbrev pub or_bit : ℕ → ℕ → ℕ
or_bit zero b = b
or_bit (suc a) b = 1

-- Bit by bit, the lowest first.
unfoldable pub xor : ℕ → ℕ → ℕ → ℕ
xor zero a b = 0
xor (suc w) a b = xor_bit (a % 2) (b % 2) + 2 * xor w (a / 2) (b / 2)

unfoldable pub or : ℕ → ℕ → ℕ → ℕ
or zero a b = 0
or (suc w) a b = or_bit (a % 2) (b % 2) + 2 * or w (a / 2) (b / 2)

xor-zero : (w a b : ℕ) → a < 2 ^ w → b < 2 ^ w → xor w a b ≡ 0 → a ≡ b
unfolding xor
xor-zero zero a b ha hb h = omega arith
xor-zero (suc w) a b ha hb h =
    ground (arith, xor-zero w (a / 2) (b / 2) (omega arith) (omega arith))

xor_self : (w a : ℕ) → xor w a a ≡ 0
unfolding xor
xor_self zero a = refl
xor_self (suc w) a = ground (arith, xor_self w (a / 2))

or-zero : (w a b : ℕ) → a < 2 ^ w → b < 2 ^ w → or w a b ≡ 0 → (a ≡ 0) × (b ≡ 0)
unfolding or
or-zero zero a b ha hb h = ground arith
or-zero (suc w) a b ha hb h = ground (arith, or-zero w (a / 2) (b / 2) (omega arith) (omega arith))

or_zeros : (w : ℕ) → or w 0 0 ≡ 0
unfolding or
or_zeros zero = refl
or_zeros (suc w) = ground (arith, or_zeros w)

or_bound : (w a b : ℕ) → or w a b < 2 ^ w
unfolding or
or_bound zero a b = omega arith
or_bound (suc w) a b = ground (arith, or_bound w (a / 2) (b / 2))

xor_bound : (w a b : ℕ) → xor w a b < 2 ^ w
unfolding xor
xor_bound zero a b = omega arith
xor_bound (suc w) a b = ground (arith, xor_bound w (a / 2) (b / 2))

-- A `u8`.
abbrev pub IsByte : ℕ → Type 0
IsByte x = x < 256

-- `for (x, y) in a.iter().zip(b.iter()) { diff |= x ^ y; }`
unfoldable pub fold_diff : ℕ → Bytes → Bytes → ℕ
fold_diff diff [] ys = diff
fold_diff diff (x ∷ xs) [] = diff
fold_diff diff (x ∷ xs) (y ∷ ys) = fold_diff (or 8 diff (xor 8 x y)) xs ys

unfoldable pub ct_eq : Bytes → Bytes → Bool
ct_eq a b = if not (length a == length b) then false else fold_diff 0 a b == 0

fold_diff-zero :
    (d : ℕ) (xs ys : Bytes)
    → IsByte d
    → All IsByte xs
    → All IsByte ys
    → length xs ≡ length ys
    → fold_diff d xs ys ≡ 0
    → (d ≡ 0) × (xs ≡ ys)
unfolding fold_diff
fold_diff-zero d [] [] hd hx hy l h = (h, refl)
fold_diff-zero d [] (y ∷ ys) hd hx hy l h = absurd (omega (arith, l))
fold_diff-zero d (x ∷ xs) [] hd hx hy l h = absurd (omega (arith, l))
fold_diff-zero d (x ∷ xs) (y ∷ ys) hd hx hy l h =
    let (z, e) =
      fold_diff-zero (or 8 d (xor 8 x y)) xs ys (or_bound 8 d (xor 8 x y)) hx.1 hy.1
        (omega (arith, l)) h in
    let (dz, xz) = or-zero 8 d (xor 8 x y) hd (xor_bound 8 x y) z in
    (dz, cc (e, xor-zero 8 x y hx.0 hy.0 xz))

fold_diff_self : (xs : Bytes) → fold_diff 0 xs xs ≡ 0
unfolding fold_diff
fold_diff_self [] = refl
fold_diff_self (x ∷ xs) = rw (xor_self 8 x) (rw (or_zeros 8) (fold_diff_self xs))

-- The comparison in constant time, which has no early exit, decides equality of byte strings.
pub ct_eq_iff : (a b : Bytes) → All IsByte a → All IsByte b → (ct_eq a b ≡ true) ↔ (a ≡ b)
unfolding ct_eq
ct_eq_iff a b ha hb = (
  (λ h. (fold_diff-zero 0 a b (omega arith) ha hb (ground arith) (ground arith)).1),
  (λ e. rw e (ground (arith, fold_diff_self b))),
)

-- `==` on byte strings.
unfoldable pub same : Bytes → Bytes → Bool
same [] [] = true
same [] (y ∷ ys) = false
same (x ∷ xs) [] = false
same (x ∷ xs) (y ∷ ys) = x == y && same xs ys

pub same-≡ : (xs ys : Bytes) → same xs ys ≡ true → xs ≡ ys
unfolding same
same-≡ [] [] h = refl
same-≡ [] (y ∷ ys) h = absurd (ground (arith, h))
same-≡ (x ∷ xs) [] h = absurd (ground (arith, h))
same-≡ (x ∷ xs) (y ∷ ys) h = ground (arith, h, same-≡ xs ys)

pub same_self : (xs : Bytes) → same xs xs ≡ true
unfolding same
same_self [] = refl
same_self (x ∷ xs) = ground (arith, same_self xs)
