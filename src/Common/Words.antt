-- ===== src/Common/Words.antt =====
-- Unsigned machine words with saturating arithmetic.
use Prim.Native.Nat.{ℕ, ◌+◌, ◌-◌, min}

abbrev pub u32_max : ℕ
u32_max = 4294967295

abbrev pub u64_max : ℕ
u64_max = 18446744073709551615

-- `u64::saturating_add`
abbrev pub saturating_add : ℕ → ℕ → ℕ
saturating_add a b = min (a + b) u64_max

-- `u32::saturating_add`
abbrev pub saturating_add32 : ℕ → ℕ → ℕ
saturating_add32 a b = min (a + b) u32_max

-- `saturating_sub`: subtraction on the naturals stops at zero.
abbrev pub saturating_sub : ℕ → ℕ → ℕ
saturating_sub a b = a - b

-- `u64::abs_diff`: one of the two differences is zero.
abbrev pub abs_diff : ℕ → ℕ → ℕ
abs_diff a b = (a - b) + (b - a)
