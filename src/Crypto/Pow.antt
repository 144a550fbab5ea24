-- ===== src/Crypto/Pow.antt =====
-- crates/lluma-crypto/src/account.rs: the proof of work against Sybil registrations.
use lluma.Common.{
  ℕ, zero, suc, ◌+◌, ◌/◌, ◌%◌, Bool, Option, none, some, [], ◌∷◌, ◌++◌, Bytes, codes, ltb, leb,
  ◌==◌, if◌then◌else◌, ◌<◌, ◌≡◌, true, refl, arith, Bool-cases, inl, inr, subst, sym, ℕ_discrete,
  ◌≤◌,
}
use lluma.Core.Wire.{Array32, be_bytes}
use lluma.Crypto.Primitives.{Primitives}

abbrev pub pow_trial_domain : Bytes
pow_trial_domain = codes "lluma-pow-trial-v1"

abbrev pub pow_host_domain : Bytes
pow_host_domain = codes "lluma-pow-host-v1"

-- `u8::leading_zeros`
leading_zeros : ℕ → ℕ
leading_zeros b =
    if ltb b 1
    then 8
    else if ltb b 2
    then 7
    else if ltb b 4
    then 6
    else if ltb b 8
    then 5
    else if ltb b 16
    then 4
    else if ltb b 32
    then 3
    else if ltb b 64
    then 2
    else if ltb b 128
    then 1
    else 0

pub leading_zero_bits : Bytes → ℕ
unfolding leading_zeros
leading_zero_bits [] = 0
leading_zero_bits (b ∷ h) =
    let rest = 8 + leading_zero_bits h in if b == 0 then rest else leading_zeros b

-- `u64::to_le_bytes`, and the bytes of any width.
unfoldable pub le_bytes : ℕ → ℕ → Bytes
le_bytes zero n = []
le_bytes (suc k) n = n % 256 ∷ le_bytes k (n / 256)

module _ ⦃C : Primitives⦄ where
  unfoldable pub pow_verify : Bytes → Array32 → Bytes → Array32 → ℕ → Bool
  unfolding leading_zero_bits be_bytes
  pow_verify domain account_pk nonce epoch_salt difficulty_bits =
      let h = C.blake3 (domain ++ (be_bytes 32 account_pk ++ (nonce ++ be_bytes 32 epoch_salt))) in
      leb difficulty_bits (leading_zero_bits (be_bytes 32 h))

  -- The loop from nonce `n`, with fuel; `none` when the fuel runs out. The counter is a `u64`.
  pow_scan : Bytes → Array32 → Array32 → ℕ → ℕ → ℕ → Option Bytes
  pow_scan domain account_pk epoch_salt difficulty_bits zero n = none
  pow_scan domain account_pk epoch_salt difficulty_bits (suc fuel) n =
      let rest =
        pow_scan domain account_pk epoch_salt difficulty_bits fuel
          ((n + 1) % 18446744073709551616) in
      if pow_verify domain account_pk (le_bytes 8 n) epoch_salt difficulty_bits
      then some (le_bytes 8 n)
      else rest

  unfoldable pub pow_solve : ℕ → Bytes → Array32 → Array32 → ℕ → Option Bytes
  unfolding pow_scan
  pow_solve fuel domain account_pk epoch_salt difficulty_bits =
      pow_scan domain account_pk epoch_salt difficulty_bits fuel 0

  pow_scan-finds :
      (domain : Bytes) (account_pk epoch_salt : Array32) (difficulty_bits n fuel k : ℕ)
      → k ≤ n
      → n < 18446744073709551616
      → n < k + fuel
      → pow_verify domain account_pk (le_bytes 8 n) epoch_salt difficulty_bits ≡ true
      → (nonce : Bytes) × (pow_scan domain account_pk epoch_salt difficulty_bits fuel k
          ≡ some nonce)
        × (pow_verify domain account_pk nonce epoch_salt difficulty_bits ≡ true)
  unfolding pow_scan
  pow_scan-finds domain account_pk epoch_salt difficulty_bits n zero k le small lt good =
      absurd (omega (arith, le, lt))
  pow_scan-finds domain account_pk epoch_salt difficulty_bits n (suc fuel) k le small lt good =
      elim (Bool-cases (pow_verify domain account_pk (le_bytes 8 k) epoch_salt difficulty_bits)) [
        | inl yes_ ↦ (le_bytes 8 k, rw yes_ refl, yes_)
        | inr no_ ↦ elim (ℕ_discrete k n) [
          | yes e ↦ absurd (
              ground (
                arith,
                no_,
                subst
                    (λ m.
                      pow_verify domain account_pk (le_bytes 8 m) epoch_salt difficulty_bits ≡ true)
                    (sym e) good,
              ))
          | no ne ↦ rw no_ (
              pow_scan-finds domain account_pk epoch_salt difficulty_bits n fuel
                ((k + 1) % 18446744073709551616) (omega (arith, le, small, ne)) small
                (omega (arith, le, small, lt, ne)) good)
        ]
      ]

  -- The search ends, and what it returns verifies: if any 64-bit nonce verifies, then as many rounds
  -- as its value and one more are enough for `pow_solve` to return a nonce, and that nonce verifies.
  pub pow_solve-verifies :
      (domain : Bytes) (account_pk epoch_salt : Array32) (difficulty_bits n : ℕ)
      → n < 18446744073709551616
      → pow_verify domain account_pk (le_bytes 8 n) epoch_salt difficulty_bits ≡ true
      → (nonce : Bytes) × (pow_solve (suc n) domain account_pk epoch_salt difficulty_bits
          ≡ some nonce)
        × (pow_verify domain account_pk nonce epoch_salt difficulty_bits ≡ true)
  unfolding pow_solve
  pow_solve-verifies domain account_pk epoch_salt difficulty_bits n small good =
      pow_scan-finds domain account_pk epoch_salt difficulty_bits n (suc n) 0 (omega arith) small
        (omega arith) good
