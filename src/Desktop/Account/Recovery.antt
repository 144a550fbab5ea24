-- ===== src/Desktop/Account/Recovery.antt =====
-- apps/lluma-desktop/src-tauri/src/account.rs: that an account comes back, from the disk with the
-- passphrase, and from its phrase.
use lluma.Common.{
  ◌≡◌, sym, ap, ◌∙◌, some, Bytes, length, is_empty, ok, ◌>>◌, arith, ok-injective, Bool-cases,
  Result-cases, inl, inr,
}
use lluma.Crypto.Primitives.{Primitives}
use lluma.Crypto.Vault.{Vault}
use lluma.Crypto.Keystore.{
  Mnemonic, KeystoreBlob, account_mnemonic_new, derive_keypair_from_seed, mnemonic_from_phrase,
  mnemonic_to_phrase, seal_keystore,
}
use lluma.Crypto.Keystore.Sealing.{open_keystore-seal_keystore, mnemonic_from_phrase-to_phrase}
use lluma.Desktop.Wallet.{Files, put}
use lluma.Desktop.Wallet.Keeping.{read-put}
use lluma.Desktop.Account.{
  Account, from_mnemonic, recovery_phrase, Outcome, persist, keep, create, import_phrase, unlock,
}

module _ ⦃C : Primitives⦄ ⦃V : Vault⦄ where
  -- An account has sixteen bytes of entropy, and its keys are those of its mnemonic.
  pub record IsAccount (a : Account) : Type 0 where
    pub entropy : length a.mnemonic ≡ 16
    pub keys : from_mnemonic a.mnemonic ≡ ok a

  from_mnemonic-mnemonic : (m : Mnemonic) (a : Account) → from_mnemonic m ≡ ok a → a.mnemonic ≡ m
  unfolding from_mnemonic
  from_mnemonic-mnemonic m a h = elim (Result-cases (derive_keypair_from_seed m)) [
    | inl (keys, made) ↦ ground (arith, h, made)
    | inr (e, bad) ↦ absurd (ground (arith, h, bad))
  ]

  from_mnemonic-IsAccount :
      (m : Mnemonic) (a : Account) → length m ≡ 16 → from_mnemonic m ≡ ok a → IsAccount a
  from_mnemonic-IsAccount m a whole h =
      let is = from_mnemonic-mnemonic m a h in
      record { entropy = ap length is ∙ whole; keys = ap from_mnemonic is ∙ h }

module _ ⦃C : Primitives⦄ ⦃V : Vault⦄ ⦃F : Files⦄ where
  persist-parts :
      (rng : V.Rng) (disk : F.Disk) (m : Mnemonic) (passphrase : Bytes)
      → (persist rng disk m passphrase).0 ≡ ok tt
      → (blob : KeystoreBlob) × ((seal_keystore rng passphrase m).0 ≡ ok blob)
        × (F.read (persist rng disk m passphrase).1.1 ≡ some blob)
  unfolding persist
  persist-parts rng disk m passphrase h = elim (Result-cases (seal_keystore rng passphrase m).0) [
    | inr (e, bad) ↦ absurd (ground (arith, h, bad))
    | inl (blob, sealed) ↦ elim (Bool-cases (put blob disk).0) [
      | inr bad ↦ absurd (ground (arith, h, sealed, bad))
      | inl done ↦ (blob, sealed, ground (arith, sealed, done, read-put blob disk done))
    ]
  ]

  keep-unlock :
      (rng rng' : V.Rng) (disk disk' : F.Disk) (m : Mnemonic) (passphrase : Bytes) (a : Account)
      → length m ≡ 16
      → keep rng disk m passphrase ≡ (ok a, (rng', disk'))
      → (unlock disk' passphrase ≡ ok a) × IsAccount a × (from_mnemonic m ≡ ok a)
  unfolding unlock
  keep-unlock rng rng' disk disk' m passphrase a whole h =
      let result : ((persist rng disk m passphrase).0 >> from_mnemonic m) ≡ ok a =
        ap (λ (r : Outcome Account). r.0) h in
      let after : (persist rng disk m passphrase).1.1 ≡ disk' =
        ap (λ (r : Outcome Account). r.1.1) h in
      elim (Result-cases (persist rng disk m passphrase).0) [
        | inr (e, bad) ↦ absurd (ground (arith, result, bad))
        | inl (_, done) ↦
            let made : from_mnemonic m ≡ ok a = ground (arith, result, done) in
            let (blob, sealed, there) = persist-parts rng disk m passphrase done in
            let opened = open_keystore-seal_keystore rng passphrase m blob whole sealed in
            (
              ground (arith, ap F.read (sym after) ∙ there, opened, made),
              from_mnemonic-IsAccount m a whole made,
              made,
            )
      ]

  -- An account that has been created is the one that its passphrase unlocks from the disk, and it is
  -- well formed: sixteen bytes of entropy, and the keys that these derive.
  pub create-unlock :
      (rng rng' : V.Rng) (disk disk' : F.Disk) (passphrase : Bytes) (a : Account)
      → create rng disk passphrase ≡ (ok a, (rng', disk'))
      → (unlock disk' passphrase ≡ ok a) × IsAccount a
  unfolding create account_mnemonic_new
  create-unlock rng rng' disk disk' passphrase a h = elim (Bool-cases (is_empty passphrase)) [
    | inl bad ↦ absurd (ground (arith, h, bad))
    | inr good ↦
        let kept : keep (V.fill 16 rng).1 disk (V.fill 16 rng).0 passphrase
            ≡ (ok a, (rng', disk')) =
          ground (arith, h, good) in
        let (open_, is, _) =
          keep-unlock (V.fill 16 rng).1 rng' disk disk' (V.fill 16 rng).0 passphrase a
            (V.length-fill 16 rng) kept in
        (open_, is)
  ]

  -- The phrase of a well-formed account, imported on any machine under any passphrase, gives the same
  -- account, where the import succeeds; and that passphrase unlocks it there.
  pub import_phrase-recovery_phrase :
      (a b : Account) (phrase passphrase : Bytes) (rng rng' : V.Rng) (disk disk' : F.Disk)
      → IsAccount a
      → recovery_phrase a ≡ ok phrase
      → import_phrase rng disk phrase passphrase ≡ (ok b, (rng', disk'))
      → (b ≡ a) × (unlock disk' passphrase ≡ ok a)
  unfolding import_phrase recovery_phrase
  import_phrase-recovery_phrase a b phrase passphrase rng rng' disk disk' is told h =
      elim (Bool-cases (is_empty passphrase)) [
        | inl bad ↦ absurd (ground (arith, h, bad))
        | inr good ↦ elim (Result-cases (mnemonic_to_phrase a.mnemonic)) [
          | inr (e, bad) ↦ absurd (ground (arith, told, bad))
          | inl (p, written) ↦
              let parsed : mnemonic_from_phrase phrase ≡ ok a.mnemonic =
                mnemonic_from_phrase-to_phrase a.mnemonic phrase is.entropy
                  (ground (arith, told, written)) in
              let kept : keep rng disk a.mnemonic passphrase ≡ (ok b, (rng', disk')) =
                ground (arith, h, good, parsed) in
              let (open_, _, made) =
                keep-unlock rng rng' disk disk' a.mnemonic passphrase b is.entropy kept in
              let same : b ≡ a = ok-injective (sym made ∙ is.keys) in (same, open_ ∙ ap ok same)
        ]
      ]
