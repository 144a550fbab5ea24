-- ===== src/Crypto/Keystore/Sealing.antt =====
-- crates/lluma-crypto/src/account.rs: which blobs open under a passphrase, and the phrase of a
-- mnemonic.
use lluma.Common.{
  ◌+◌, ◌≤◌, ◌≡◌, refl, sym, ap, ◌∙◌, ◌↔◌, true, false, not, ◌||◌, some, ◌++◌, Bytes, length, take,
  drop, ltb, All, IsByte, same, same-≡, ok, ok_or, ◌>>=◌, arith, length-append, Bool-cases,
  Option-cases, Result-cases, inl, inr,
}
use lluma.Crypto.Tokens.Slices.{take-front, drop-front, append_assoc}
use lluma.Crypto.Account.{auth_failed}
use lluma.Crypto.Pow.{le_bytes}
use lluma.Crypto.Vault.{Vault}
use lluma.Crypto.Keystore.{
  ks_magic, slice, le_value, header_of, params_supported, derive_kek, seal_with, seal_bytes,
  open_bytes, seal_keystore, open_keystore, mnemonic_from_phrase, mnemonic_to_phrase,
}
use lluma.Crypto.Keystore.Written.{take-drop, length-slice, written_header}

module _ ⦃V : Vault⦄ where
  -- What is sealed under a passphrase with some salt and some nonce.
  abbrev pub IsSealed : Bytes → Bytes → Bytes → Type 0
  IsSealed passphrase plaintext blob =
      (salt : Bytes) × (nonce : Bytes) × (length salt ≡ 16)
      × (length nonce ≡ 24)
      × (seal_with salt nonce passphrase plaintext ≡ ok blob)

  seal_with-parts :
      (salt nonce passphrase plaintext blob : Bytes)
      → seal_with salt nonce passphrase plaintext ≡ ok blob
      → (kek ct : Bytes) × (derive_kek passphrase salt ≡ ok kek)
        × (V.encrypt kek nonce plaintext (header_of salt nonce) ≡ some ct)
        × (blob ≡ header_of salt nonce ++ ct)
  unfolding seal_with
  seal_with-parts salt nonce passphrase plaintext blob h =
      elim (Result-cases (derive_kek passphrase salt)) [
        | inr (e, bad) ↦ absurd (ground (arith, h, bad))
        | inl (kek, made) ↦
            elim (Option-cases (V.encrypt kek nonce plaintext (header_of salt nonce))) [
              | inl none_ ↦ absurd (ground (arith, h, made, none_))
              | inr (ct, put) ↦ (kek, ct, made, put, ground (arith, h, made, put))
            ]
      ]

  seal_with-made :
      (salt nonce passphrase plaintext kek ct : Bytes)
      → derive_kek passphrase salt ≡ ok kek
      → V.encrypt kek nonce plaintext (header_of salt nonce) ≡ some ct
      → seal_with salt nonce passphrase plaintext ≡ ok (header_of salt nonce ++ ct)
  unfolding seal_with
  seal_with-made salt nonce passphrase plaintext kek ct made put = rw made (rw put refl)

  -- A blob with a written header is read back.
  open_written :
      (salt nonce passphrase ct : Bytes)
      → length salt ≡ 16
      → length nonce ≡ 24
      → 16 ≤ length ct
      → open_bytes passphrase (header_of salt nonce ++ ct) ≡ (do
        kek ← derive_kek passphrase salt
        ok_or (V.decrypt kek nonce ct (header_of salt nonce)) auth_failed)
  unfolding open_bytes header_of le_bytes le_value same
  open_written salt nonce passphrase ct hs hn hc =
      let tail : length ((salt ++ nonce) ++ ct) ≡ 40 + length ct =
        omega (arith, length-append (salt ++ nonce) ct, length-append salt nonce, hs, hn) in
      let whole : length (salt ++ nonce) ≡ 40 = omega (arith, length-append salt nonce, hs, hn) in
      let assoc = append_assoc salt nonce ct in
      let e1 : take 16 ((salt ++ nonce) ++ ct) ≡ salt =
        rw assoc (take-front 16 salt (nonce ++ ct) hs) in
      let e2 : take 24 (drop 16 ((salt ++ nonce) ++ ct)) ≡ nonce =
        rw assoc (rw (drop-front 16 salt (nonce ++ ct) hs) (take-front 24 nonce ct hn)) in
      let e3 : drop 40 ((salt ++ nonce) ++ ct) ≡ ct = drop-front 40 (salt ++ nonce) ct whole in
      let e4 : take 40 ((salt ++ nonce) ++ ct) ≡ salt ++ nonce =
        take-front 40 (salt ++ nonce) ct whole in
      let long : ltb (length (header_of salt nonce ++ ct)) 73 ≡ false = ground (arith, tail, hc) in
      rw long (rw e1 (rw e2 (rw e3 (rw e4 refl))))

  -- A blob that opens has a written header.
  open_bytes-parts :
      (passphrase plaintext b : Bytes)
      → open_bytes passphrase b ≡ ok plaintext
      → (73 ≤ length b)
        × (take 4 b ≡ ks_magic)
        × (params_supported b ≡ true)
        × (kek : Bytes) × (derive_kek passphrase (slice 17 16 b) ≡ ok kek)
        × (V.decrypt kek (slice 33 24 b) (drop 57 b) (take 57 b) ≡ some plaintext)
  unfolding open_bytes
  open_bytes-parts passphrase plaintext b h =
      elim (Bool-cases (ltb (length b) 73 || not (same (take 4 b) ks_magic))) [
        | inl bad ↦ absurd (ground (arith, h, bad))
        | inr good ↦ elim (Bool-cases (params_supported b)) [
          | inr bad ↦ absurd (ground (arith, h, good, bad))
          | inl known ↦ elim (Result-cases (derive_kek passphrase (slice 17 16 b))) [
            | inr (e, bad) ↦ absurd (ground (arith, h, good, known, bad))
            | inl (kek, made) ↦ (
              ground (arith, good),
              same-≡ (take 4 b) ks_magic (ground (arith, good)),
              known,
              kek,
              made,
              ground (
                arith,
                h,
                good,
                known,
                made,
                Option-cases (V.decrypt kek (slice 33 24 b) (drop 57 b) (take 57 b)),
              ),
            )
          ]
        ]
      ]

  open_bytes-seal_with :
      (salt nonce passphrase plaintext blob : Bytes)
      → length salt ≡ 16
      → length nonce ≡ 24
      → seal_with salt nonce passphrase plaintext ≡ ok blob
      → open_bytes passphrase blob ≡ ok plaintext
  open_bytes-seal_with salt nonce passphrase plaintext blob hs hn h =
      let (kek, ct, made, put, is) = seal_with-parts salt nonce passphrase plaintext blob h in
      let aad = header_of salt nonce in
      let long : 16 ≤ length ct = omega (arith, V.length-encrypt kek nonce plaintext aad ct put) in
      rw is (
        open_written salt nonce passphrase ct hs hn long
        ∙ rw made (rw (V.decrypt-encrypt kek nonce plaintext aad ct put) refl))

  opens-IsSealed :
      (passphrase plaintext blob : Bytes)
      → All IsByte blob
      → open_bytes passphrase blob ≡ ok plaintext
      → IsSealed passphrase plaintext blob
  opens-IsSealed passphrase plaintext blob bytes h =
      let (long, magic, known, kek, made, got) = open_bytes-parts passphrase plaintext blob h in
      let put =
        V.encrypt-decrypt kek (slice 33 24 blob) plaintext (take 57 blob) (drop 57 blob) got in
      let front = written_header blob bytes long magic known in
      let back : header_of (slice 17 16 blob) (slice 33 24 blob) ++ drop 57 blob ≡ blob =
        ap (λ (xs : Bytes). xs ++ drop 57 blob) (sym front) ∙ take-drop 57 blob in
      (
        slice 17 16 blob,
        slice 33 24 blob,
        length-slice 17 16 blob (omega (arith, long)),
        length-slice 33 24 blob (omega (arith, long)),
        seal_with-made (slice 17 16 blob) (slice 33 24 blob) passphrase plaintext kek (drop 57 blob)
              made (ap (V.encrypt kek (slice 33 24 blob) plaintext) (sym front) ∙ put)
            ∙ ap ok back,
      )

  -- A blob opens under a passphrase to a plaintext exactly if sealing the plaintext under the
  -- passphrase, with some salt and some nonce of the right lengths, makes this blob: the header with
  -- its version and costs, and the text, are all authenticated.
  pub open_bytes_iff :
      (passphrase plaintext blob : Bytes)
      → All IsByte blob
      → (open_bytes passphrase blob ≡ ok plaintext) ↔ IsSealed passphrase plaintext blob
  open_bytes_iff passphrase plaintext blob bytes = (
    opens-IsSealed passphrase plaintext blob bytes,
    λ (salt, nonce, hs, hn, sealed).
        open_bytes-seal_with salt nonce passphrase plaintext blob hs hn sealed,
  )

  pub open_bytes-seal_bytes :
      (rng : V.Rng) (passphrase plaintext blob : Bytes)
      → (seal_bytes rng passphrase plaintext).0 ≡ ok blob
      → open_bytes passphrase blob ≡ ok plaintext
  unfolding seal_bytes
  open_bytes-seal_bytes rng passphrase plaintext blob h =
      open_bytes-seal_with (V.fill 16 rng).0 (V.fill 24 (V.fill 16 rng).1).0 passphrase plaintext
        blob (V.length-fill 16 rng) (V.length-fill 24 (V.fill 16 rng).1) h

  pub open_keystore-seal_keystore :
      (rng : V.Rng) (passphrase mnemonic blob : Bytes)
      → length mnemonic ≡ 16
      → (seal_keystore rng passphrase mnemonic).0 ≡ ok blob
      → open_keystore passphrase blob ≡ ok mnemonic
  unfolding seal_keystore open_keystore
  open_keystore-seal_keystore rng passphrase mnemonic blob whole h =
      rw (open_bytes-seal_bytes rng passphrase mnemonic blob h) (rw whole refl)

  pub mnemonic_from_phrase-to_phrase :
      (mnemonic phrase : Bytes)
      → length mnemonic ≡ 16
      → mnemonic_to_phrase mnemonic ≡ ok phrase
      → mnemonic_from_phrase phrase ≡ ok mnemonic
  unfolding mnemonic_from_phrase mnemonic_to_phrase
  mnemonic_from_phrase-to_phrase mnemonic phrase whole h =
      elim (Option-cases (V.from_entropy mnemonic)) [
        | inl none_ ↦ absurd (ground (arith, h, none_))
        | inr (m, made) ↦
            let is : phrase ≡ V.to_string m = ground (arith, h, made) in
            rw is (
              rw (V.trim-to_string m) (
                rw (V.parse-to_string m)
                  (rw (V.to_entropy-from_entropy mnemonic m made) (rw whole refl))))
      ]
