-- ===== src/Crypto/Vault.antt =====
-- The packages that crates/lluma-crypto/src/account.rs uses to keep secrets: bip39, argon2 with the
-- algorithm Argon2id and its version 0x13, XChaCha20Poly1305, and the key derivation of blake3.
use lluma.Common.{
  ℕ, ◌+◌, ◌≡◌, Bool, ◌&&◌, ◌||◌, Option, some, [], ◌∷◌, Bytes, length, leb, ◌==◌, if◌then◌else◌,
}

-- `char::is_whitespace`, the property White_Space of Unicode.
abbrev pub is_whitespace : ℕ → Bool
is_whitespace c =
    leb 9 c && leb c 13
    || (c == 32
        || (c == 133
            || (c == 160
                || (c == 5760
                    || (leb 8192 c && leb c 8202
                        || (c == 8232
                            || (c == 8233 || (c == 8239 || (c == 8287 || c == 12288)))))))))

unfoldable pub trim_start : Bytes → Bytes
trim_start [] = []
trim_start (c ∷ cs) = let rest = trim_start cs in if is_whitespace c then rest else c ∷ cs

unfoldable pub trim_last : Bytes → Bytes
trim_last [] = []
trim_last (c ∷ cs) = elim (trim_last cs) [
  | [] ↦ if is_whitespace c then [] else c ∷ []
  | x ∷ xs ↦ c ∷ x ∷ xs
]

-- `str::trim`
unfoldable pub trim : Bytes → Bytes
unfolding trim_start trim_last
trim cs = trim_last (trim_start cs)

pub record Vault : Type 1 where
  pub Rng : Type 0
  -- `fill_bytes` on an array of a length.
  pub fill : ℕ → Rng → Bytes × Rng
  pub length-fill : (n : ℕ) (rng : Rng) → length (fill n rng).0 ≡ n
  -- `Params::new` with the two costs, the lanes and the length of the output, and
  -- `hash_password_into` with a passphrase and a salt.
  pub Params : Type 0
  pub new_params : ℕ → ℕ → ℕ → ℕ → Option Params
  pub hash_password : Params → Bytes → Bytes → Option Bytes
  -- `encrypt` and `decrypt` with a key and a nonce, the text and the associated data.
  pub encrypt : Bytes → Bytes → Bytes → Bytes → Option Bytes
  pub decrypt : Bytes → Bytes → Bytes → Bytes → Option Bytes
  -- RFC 5116: decryption gives back what was encrypted, and accepts nothing else. The tag of
  -- Poly1305 has 16 bytes.
  pub decrypt-encrypt :
      (key nonce msg aad ct : Bytes)
      → encrypt key nonce msg aad ≡ some ct
      → decrypt key nonce ct aad ≡ some msg
  pub encrypt-decrypt :
      (key nonce msg aad ct : Bytes)
      → decrypt key nonce ct aad ≡ some msg
      → encrypt key nonce msg aad ≡ some ct
  pub length-encrypt :
      (key nonce msg aad ct : Bytes)
      → encrypt key nonce msg aad ≡ some ct
      → length ct ≡ length msg + 16
  -- `blake3::derive_key` with the context and the key material.
  pub derive_key : Bytes → Bytes → Bytes
  -- `bip39::Mnemonic`: `from_entropy`, `to_entropy`, `to_seed`, `to_string`, `parse_normalized`.
  pub Phrase : Type 0
  pub from_entropy : Bytes → Option Phrase
  pub to_entropy : Phrase → Bytes
  pub to_seed : Phrase → Bytes → Bytes
  pub to_string : Phrase → Bytes
  pub parse_normalized : Bytes → Option Phrase
  pub to_entropy-from_entropy :
      (entropy : Bytes) (m : Phrase) → from_entropy entropy ≡ some m → to_entropy m ≡ entropy
  pub parse-to_string : (m : Phrase) → parse_normalized (to_string m) ≡ some m
  -- A phrase is words with a space between, so that it starts and ends with a letter.
  pub trim-to_string : (m : Phrase) → trim (to_string m) ≡ to_string m
