-- ===== src/Desktop/Account.antt =====
-- apps/lluma-desktop/src-tauri/src/account.rs: the account of the user, sealed under a passphrase.
-- The texts of errors are left out. An account is its two keys and its mnemonic.
use lluma.Common.{
  Bool, true, false, not, Option, none, some, [], Bytes, is_empty, Result, ok, err, ok_or, ensure,
  ◌>>=◌, ◌>>◌, if◌then◌else◌,
}
use lluma.Core.Wire.{AccountId, AccountPublicKey, AccountSecretKey}
use lluma.Crypto.Primitives.{Primitives}
use lluma.Crypto.Account.{Fallible, account_fingerprint}
use lluma.Crypto.Vault.{Vault}
use lluma.Crypto.Keystore.{
  Mnemonic, account_mnemonic_new, derive_keypair_from_seed, mnemonic_from_phrase,
  mnemonic_to_phrase, open_keystore, seal_keystore,
}
use lluma.Desktop.Wallet.{Files, put}
pub mod Recovery

pub data AccountError : Type 0 where
  empty_passphrase wrong_passphrase crypto file : AccountError

pub record Account : Type 0 where
  pub sk : AccountSecretKey
  pub pk : AccountPublicKey
  pub mnemonic : Mnemonic

-- `map_err(|e| e.to_string())`
abbrev pub crypto_ok : {A : Type 0} → Fallible A → Result AccountError A
crypto_ok (ok a) = ok a
crypto_ok (err e) = err crypto

module _ ⦃C : Primitives⦄ ⦃V : Vault⦄ where
  unfoldable pub from_mnemonic : Mnemonic → Result AccountError Account
  from_mnemonic m = do
    keys ← crypto_ok (derive_keypair_from_seed m)
    ok (record { sk = keys.0; pk = keys.1; mnemonic = m })

  unfoldable pub account_id : Account → AccountId
  account_id account = account_fingerprint account.pk

  unfoldable pub recovery_phrase : Account → Result AccountError Bytes
  recovery_phrase account = crypto_ok (mnemonic_to_phrase account.mnemonic)

module _ ⦃C : Primitives⦄ ⦃V : Vault⦄ ⦃F : Files⦄ where
  -- A result, the generator and the disk.
  abbrev pub Outcome : Type 0 → Type 0
  Outcome A = Result AccountError A × (V.Rng × F.Disk)

  -- `persist`, and then the account.
  unfoldable pub persist : V.Rng → F.Disk → Mnemonic → Bytes → Outcome (Unit {0})
  persist rng disk m passphrase =
      let (sealed, rng') = seal_keystore rng passphrase m in
      elim sealed [
        | err e ↦ (err crypto, (rng', disk))
        | ok blob ↦
            let (done, disk') = put blob disk in (if done then ok tt else err file, (rng', disk'))
      ]

  abbrev pub keep : V.Rng → F.Disk → Mnemonic → Bytes → Outcome Account
  keep rng disk m passphrase =
      let (kept, after) = persist rng disk m passphrase in (kept >> from_mnemonic m, after)

  unfoldable pub create : V.Rng → F.Disk → Bytes → Outcome Account
  create rng disk passphrase =
      if is_empty passphrase
      then (err empty_passphrase, (rng, disk))
      else (let (made, rng') = account_mnemonic_new rng in
          elim made [ err e ↦ (err crypto, (rng', disk)) | ok m ↦ keep rng' disk m passphrase ])

  unfoldable pub import_phrase : V.Rng → F.Disk → Bytes → Bytes → Outcome Account
  import_phrase rng disk phrase passphrase =
      if is_empty passphrase
      then (err empty_passphrase, (rng, disk))
      else (elim (mnemonic_from_phrase phrase) [
        | err e ↦ (err crypto, (rng, disk))
        | ok m ↦ keep rng disk m passphrase
      ])

  unfoldable pub unlock : F.Disk → Bytes → Result AccountError Account
  unfolding from_mnemonic
  unlock disk passphrase = elim (F.read disk) [
    | none ↦ err file
    | some bytes ↦ elim (open_keystore passphrase bytes) [
      | err e ↦ err wrong_passphrase
      | ok m ↦ from_mnemonic m
    ]
  ]
