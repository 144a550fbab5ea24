-- ===== src/Crypto/Keystore.antt =====
-- crates/lluma-crypto/src/account.rs: mnemonics, and what is kept under a passphrase. The packages
-- bip39, argon2 and chacha20poly1305 are parameters. A `[u8; N]` is the list of its N bytes here, and
-- a `str` the list of its characters' codes.
use lluma.Common.{
  ℕ, zero, suc, ◌+◌, ◌*◌, ◌/◌, ◌%◌, ◌≡◌, Bool, true, false, not, ◌&&◌, ◌||◌, Option, none, some, [],
  ◌∷◌, ◌++◌, Bytes, codes, length, take, drop, ltb, leb, ◌==◌, same, Result, ok, err, ok_or, ensure,
  ◌>>=◌, ◌>>◌, if◌then◌else◌,
}
use lluma.Core.Wire.{AccountSecretKey, AccountPublicKey}
use lluma.Crypto.Primitives.{Primitives}
use lluma.Crypto.Account.{CryptoError, Fallible, derivation, auth_failed, encoding}
use lluma.Crypto.Pow.{le_bytes}
use lluma.Crypto.Vault.{Vault, trim}
pub mod Written
pub mod Sealing

-- The 16 bytes of entropy.
abbrev pub Mnemonic : Type 0
Mnemonic = Bytes

abbrev pub KeystoreBlob : Type 0
KeystoreBlob = Bytes

abbrev pub ks_magic : Bytes
ks_magic = codes "LLKS"

abbrev pub ks_version : ℕ
ks_version = 1

abbrev pub ks_m_cost : ℕ
ks_m_cost = 64 * 1024

abbrev pub ks_t_cost : ℕ
ks_t_cost = 3

abbrev pub ks_p : ℕ
ks_p = 1

abbrev pub ks_salt_len : ℕ
ks_salt_len = 16

abbrev pub ks_nonce_len : ℕ
ks_nonce_len = 24

abbrev pub ks_header_len : ℕ
ks_header_len = 4 + 1 + 4 + 4 + 4 + ks_salt_len + ks_nonce_len

-- `b[from..from + len]`, of a blob that is long enough.
abbrev pub slice : ℕ → ℕ → Bytes → Bytes
slice from len b = take len (drop from b)

-- `u32::from_le_bytes` of a slice, and one byte of it.
unfoldable pub le_value : Bytes → ℕ
le_value [] = 0
le_value (b ∷ bs) = b + 256 * le_value bs

unfoldable pub header_of : Bytes → Bytes → Bytes
unfolding le_bytes
header_of salt nonce =
    ks_magic
    ++ (ks_version ∷ le_bytes 4 ks_m_cost
        ++ (le_bytes 4 ks_t_cost ++ (le_bytes 4 ks_p ++ (salt ++ nonce))))

-- `<[u8; 16]>::try_from`
abbrev pub try_into16 : CryptoError → Bytes → Fallible Mnemonic
try_into16 e bytes = ensure (length bytes == 16) e >> ok bytes

-- Whether the version and the costs that a blob names are the ones in use.
abbrev pub params_supported : Bytes → Bool
params_supported b =
    le_value (slice 4 1 b) == ks_version
    && (le_value (slice 5 4 b) == ks_m_cost
        && (le_value (slice 9 4 b) == ks_t_cost && le_value (slice 13 4 b) == ks_p))

module _ ⦃V : Vault⦄ where
  unfoldable pub account_mnemonic_new : V.Rng → Fallible Mnemonic × V.Rng
  account_mnemonic_new rng = let (entropy, rng') = V.fill 16 rng in (ok entropy, rng')

  unfoldable pub derive_kek : Bytes → Bytes → Fallible Bytes
  derive_kek passphrase salt = do
    params ← ok_or (V.new_params ks_m_cost ks_t_cost ks_p 32) derivation
    ok_or (V.hash_password params passphrase salt) derivation

  unfoldable pub mnemonic_from_phrase : Bytes → Fallible Mnemonic
  mnemonic_from_phrase phrase = do
    m ← ok_or (V.parse_normalized (trim phrase)) derivation
    try_into16 derivation (V.to_entropy m)

  unfoldable pub mnemonic_to_phrase : Mnemonic → Fallible Bytes
  mnemonic_to_phrase mnemonic = do
    m ← ok_or (V.from_entropy mnemonic) derivation
    ok (V.to_string m)

  -- With a salt and a nonce that have been drawn.
  unfoldable pub seal_with : Bytes → Bytes → Bytes → Bytes → Fallible KeystoreBlob
  unfolding derive_kek header_of
  seal_with salt nonce passphrase plaintext = do
    kek ← derive_kek passphrase salt
    ct ← ok_or (V.encrypt kek nonce plaintext (header_of salt nonce)) auth_failed
    ok (header_of salt nonce ++ ct)

  unfoldable pub seal_bytes : V.Rng → Bytes → Bytes → Fallible KeystoreBlob × V.Rng
  unfolding seal_with
  seal_bytes rng passphrase plaintext =
      let (salt, rng') = V.fill ks_salt_len rng in
      let (nonce, rng'') = V.fill ks_nonce_len rng' in
      (seal_with salt nonce passphrase plaintext, rng'')

  unfoldable pub open_bytes : Bytes → KeystoreBlob → Fallible Bytes
  unfolding derive_kek le_value
  open_bytes passphrase b = do
    ensure (not (ltb (length b) (ks_header_len + 16) || not (same (take 4 b) ks_magic))) auth_failed
    ensure (params_supported b) encoding
    kek ← derive_kek passphrase (slice 17 16 b)
    ok_or (V.decrypt kek (slice 33 24 b) (drop ks_header_len b) (take ks_header_len b)) auth_failed

  unfoldable pub seal_keystore : V.Rng → Bytes → Mnemonic → Fallible KeystoreBlob × V.Rng
  unfolding seal_bytes
  seal_keystore rng passphrase mnemonic = seal_bytes rng passphrase mnemonic

  unfoldable pub open_keystore : Bytes → KeystoreBlob → Fallible Mnemonic
  unfolding open_bytes
  open_keystore passphrase blob = open_bytes passphrase blob >>= try_into16 auth_failed

module _ ⦃C : Primitives⦄ ⦃V : Vault⦄ where
  unfoldable pub derive_keypair_from_seed :
      Mnemonic → Fallible (AccountSecretKey × AccountPublicKey)
  derive_keypair_from_seed mnemonic = do
    phrase ← ok_or (V.from_entropy mnemonic) derivation
    let key32 = V.derive_key (codes "lluma v1 account ed25519") (V.to_seed phrase [])
    ok (key32, C.public_of key32)
