-- ===== src/Desktop/Wallet/Keeping.antt =====
-- apps/lluma-desktop/src-tauri/src/client.rs: that the tokens on the disk are the ones in memory.
use lluma.Common.{
  ◌≡◌, ap, ◌∙◌, true, some, List, Bytes, ok, arith, Bool-cases, Option-cases, Result-cases, inl,
  inr,
}
use lluma.Core.Wire.{Token}
use lluma.Crypto.Vault.{Vault}
use lluma.Crypto.Keystore.{KeystoreBlob, seal_bytes, open_bytes}
use lluma.Crypto.Keystore.Sealing.{open_bytes-seal_bytes}
use lluma.Desktop.Wallet.{Network, Files, Wallet, load, put, save}

module _ ⦃F : Files⦄ where
  pub read-put :
      (blob : KeystoreBlob) (d : F.Disk) → (put blob d).0 ≡ true → F.read (put blob d).1 ≡ some blob
  unfolding put
  read-put blob d h = elim (Bool-cases (F.create_dir_all d).0) [
    | inl made ↦
        let done : (F.write blob (F.create_dir_all d).1).0 ≡ true = ground (arith, h, made) in
        ground (arith, made, F.read-write blob (F.create_dir_all d).1 done)
    | inr bad ↦ absurd (ground (arith, h, bad))
  ]

module _ ⦃V : Vault⦄ ⦃N : Network⦄ ⦃F : Files⦄ where
  load-blob :
      (disk : F.Disk) (passphrase blob plain : Bytes) (tokens : List Token)
      → F.read disk ≡ some blob
      → open_bytes passphrase blob ≡ ok plain
      → F.from_bytes plain ≡ some tokens
      → load disk passphrase ≡ tokens
  unfolding load
  load-blob disk passphrase blob plain tokens there opened parsed =
      ground (arith, there, opened, parsed)

  -- After a save that succeeds, loading with the same passphrase gives the tokens that the wallet had.
  pub load-save :
      (passphrase : Bytes) (w : Wallet)
      → (save passphrase w).0 ≡ true
      → load (save passphrase w).1.disk passphrase ≡ w.tokens
  unfolding save
  load-save passphrase w h = elim (Option-cases (F.to_stdvec w.tokens)) [
    | inl none_ ↦ absurd (ground (arith, h, none_))
    | inr (plain, written) ↦ elim (Result-cases (seal_bytes w.rng passphrase plain).0) [
      | inr (e, bad) ↦ absurd (ground (arith, h, written, bad))
      | inl (blob, sealed) ↦
          let done : (put blob w.disk).0 ≡ true = ground (arith, h, written, sealed) in
          let after : (save passphrase w).1.disk ≡ (put blob w.disk).1 =
            ground (arith, written, sealed) in
          load-blob (save passphrase w).1.disk passphrase blob plain w.tokens
            (ap F.read after ∙ read-put blob w.disk done)
            (open_bytes-seal_bytes w.rng passphrase plain blob sealed)
            (F.from_bytes-to_stdvec w.tokens plain written)
    ]
  ]

  pub save-tokens : (passphrase : Bytes) (w : Wallet) → (save passphrase w).1.tokens ≡ w.tokens
  unfolding save
  save-tokens passphrase w = elim (Option-cases (F.to_stdvec w.tokens)) [
    | inl none_ ↦ ground (arith, none_)
    | inr (plain, written) ↦
        ground (arith, written, Result-cases (seal_bytes w.rng passphrase plain).0)
  ]
