-- ===== src/Examples/Keeping.antt =====
-- Stand-ins for the packages of the keystore: an AEAD with a constant tag, and a list of words that
-- knows the entropy of sixteen zeros.
use lluma.Common.{
  ◌≡◌, ◌↔◌, refl, sym, subst, ap, false, Option, none, some, [], ◌∷◌, ◌++◌, Bytes, codes, length,
  replicate, leb, All, IsByte, same, same-≡, ok, err, if◌then◌else◌, arith, length-append,
  length-replicate, Bool-cases, inl, inr,
}
use lluma.Gateway.{any_}
use lluma.Crypto.Account.{encoding}
use lluma.Crypto.Pow.{le_bytes}
use lluma.Crypto.Vault.{Vault, trim}
use lluma.Crypto.Keystore.{mnemonic_from_phrase, open_bytes, seal_bytes, header_of, le_value}
use lluma.Crypto.Keystore.Sealing.{IsSealed, open_bytes_iff}
use lluma.Examples.Database.{some_inj}
use lluma.Examples.Strip.{strip, strip-tag, strip-inv}

abbrev pub zeros16 : Bytes
zeros16 = replicate 16 0

pub known_entropy :
    (entropy : Bytes) (m : Unit {0})
    → (if same entropy zeros16 then some tt else none) ≡ some m
    → zeros16 ≡ entropy
known_entropy entropy m h = elim (Bool-cases (same entropy zeros16)) [
  | inl e ↦ sym (same-≡ entropy zeros16 e)
  | inr e ↦ absurd (ground (arith, h, e))
]

abbrev pub twelve_words : Bytes
twelve_words =
    codes
      "abandon abandon abandon abandon abandon abandon abandon abandon abandon abandon abandon about"

pub trimmed : trim twelve_words ≡ twelve_words
unfolding trim
trimmed = refl

pub tag_then :
    (msg ct : Bytes)
    → ◌≡◌ {A = Option Bytes} (some (replicate 16 0 ++ msg)) (some ct)
    → ct ≡ replicate 16 0 ++ msg
tag_then msg ct h = sym (some_inj (replicate 16 0 ++ msg) ct h)

instance abbrev pub vault : Vault
vault = record {
  Rng = Unit;
  fill = λ n rng. (replicate n 0, rng);
  length-fill = λ n rng. length-replicate n 0;
  Params = Unit;
  new_params = λ m t p n. some tt;
  hash_password = λ params passphrase salt. some (replicate 32 5);
  encrypt = λ key nonce msg aad. some (replicate 16 0 ++ msg);
  decrypt = λ key nonce ct aad. strip 16 0 ct;
  decrypt-encrypt = λ key nonce msg aad ct h.
      subst (λ c. strip 16 0 c ≡ some msg) (sym (tag_then msg ct h)) (strip-tag 16 0 msg);
  encrypt-decrypt = λ key nonce msg aad ct h. ap some (sym (strip-inv 16 0 ct msg h));
  length-encrypt = λ key nonce msg aad ct h.
      omega (arith, ap length (tag_then msg ct h), length-append (replicate 16 0) msg);
  derive_key = λ context material. replicate 32 4;
  Phrase = Unit;
  from_entropy = λ entropy. if same entropy zeros16 then some tt else none;
  to_entropy = λ m. zeros16;
  to_seed = λ m passphrase. replicate 64 6;
  to_string = λ m. twelve_words;
  parse_normalized = λ phrase. some tt;
  to_entropy-from_entropy = known_entropy;
  parse-to_string = λ m. refl;
  trim-to_string = λ m. trimmed;
}

IsByte-check : (xs : Bytes) → any_ (λ x. leb 256 x) xs ≡ false → All IsByte xs
IsByte-check [] h = tt
IsByte-check (x ∷ xs) h = elim (Bool-cases (leb 256 x)) [
  | inl big ↦ absurd (ground (arith, h, big))
  | inr small ↦ (ground (arith, small), IsByte-check xs (ground (arith, h, small)))
]

-- The costs in use, a salt and a nonce of zeros, the tag, and a text of one letter.
abbrev blob : Bytes
blob =
    codes "LLKS"
    ++ (1 ∷ 0 ∷ 0 ∷ 1 ∷ 0 ∷ 3 ∷ 0 ∷ 0 ∷ 0 ∷ 1 ∷ 0 ∷ 0 ∷ 0 ∷ [])
    ++ replicate 40 0
    ++ replicate 16 0
    ++ codes "x"

sealed_blob : (seal_bytes tt (codes "pass") (codes "x")).0 ≡ ok blob
unfolding seal_bytes header_of le_bytes
sealed_blob = refl

-- A blob that names a cheaper derivation is refused.
weakened :
    open_bytes (codes "pass") (codes "LLKS" ++ (1 ∷ 0 ∷ 0 ∷ 0 ∷ 0 ∷ 3 ∷ []) ++ replicate 70 7)
    ≡ err encoding
unfolding open_bytes le_value same
weakened = refl

restored : mnemonic_from_phrase twelve_words ≡ ok zeros16
unfolding mnemonic_from_phrase trim
restored = refl

open_bytes_iff_example :
    (open_bytes (codes "pass") blob ≡ ok (codes "x")) ↔ IsSealed (codes "pass") (codes "x") blob
open_bytes_iff_example = open_bytes_iff (codes "pass") (codes "x") blob (IsByte-check blob refl)
