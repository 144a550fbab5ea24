-- ===== src/Crypto/E2e/Requests.antt =====
-- crates/lluma-crypto/src/e2e.rs: that the two ends of a stream agree once they are set up, and that
-- what a client seals is what its host opens.
use lluma.Common.{
  ◌+◌, ◌≤◌, ◌≡◌, refl, ap, sym, subst, ◌∙◌, Bool, some, ◌++◌, Bytes, length, ltb, ◌==◌, ok, arith,
  length-append, Bool-cases, Option-cases, Result-cases, inl, inr,
}
use lluma.Crypto.Tokens.Slices.{take-front, drop-front}
use lluma.Crypto.Hpke.{Hpke}
use lluma.Crypto.E2e.{
  info, resp_info, sender_for, receiver_for, split_reply, e2e_seal, e2e_open, response_setup_host,
  response_setup_client,
}

module _ ⦃H : Hpke⦄ where
  -- The two ends share their secret and stand at the same place.
  pub record Agree (s : H.Sender) (r : H.Receiver) : Type 0 where
    pub secret : H.sender_secret s ≡ H.receiver_secret r
    pub place : H.sender_seq s ≡ H.receiver_seq r

  sender_for-made :
      (rng : H.Rng) (pk label enc : Bytes) (s : H.Sender)
      → (sender_for rng pk label).0 ≡ ok (enc, s)
      → (rng' : H.Rng) × (H.setup_sender rng pk label ≡ (some (enc, s), rng'))
  unfolding sender_for
  sender_for-made rng pk label enc s h = elim (Bool-cases (H.public_ok pk)) [
    | inl good ↦ elim (Option-cases (H.setup_sender rng pk label).0) [
      | inl none_ ↦ absurd (ground (arith, h, good, none_))
      | inr (pair, made) ↦ ((H.setup_sender rng pk label).1, ground (arith, h, good, made))
    ]
    | inr bad ↦ absurd (ground (arith, h, bad))
  ]

  -- The encapsulated key of a sender sets up the receiver that holds the secret key.
  pub receiver_for-sender_for :
      (rng : H.Rng) (sk pk label enc : Bytes) (s : H.Sender)
      → H.IsPair sk pk
      → (sender_for rng pk label).0 ≡ ok (enc, s)
      → (r : H.Receiver) × (receiver_for sk enc label ≡ ok r)
        × Agree s r
        × (length enc ≡ H.enc_size)
  unfolding receiver_for
  receiver_for-sender_for rng sk pk label enc s pair h =
      let (rng', made) = sender_for-made rng pk label enc s h in
      let (r, set, same, at, good, len) = H.setup_agrees rng rng' sk pk label enc s pair made in
      (
        r,
        rw good (rw (H.pair_ok sk pk pair).0 (rw set refl)),
        record { secret = same; place = at },
        len,
      )

  -- A sealed request is the encapsulated key and one message of the context for it.
  e2e_seal-parts :
      (rng : H.Rng) (pk aad prompt reply_to sealed : Bytes)
      → (e2e_seal rng pk aad prompt reply_to).0 ≡ ok sealed
      → (length reply_to ≡ 32)
        × (enc : Bytes) × (s : H.Sender) × ((sender_for rng pk info).0 ≡ ok (enc, s))
        × (ct : Bytes) × (s' : H.Sender) × (H.seal s (reply_to ++ prompt) aad ≡ (some ct, s'))
        × (sealed ≡ enc ++ ct)
  unfolding e2e_seal
  e2e_seal-parts rng pk aad prompt reply_to sealed h = elim (Bool-cases (length reply_to == 32)) [
    | inr bad ↦ absurd (ground (arith, h, bad))
    | inl good ↦ elim (Result-cases (sender_for rng pk info).0) [
      | inr (e, bad) ↦ absurd (ground (arith, h, good, bad))
      | inl ((enc, s), made) ↦ elim (Option-cases (H.seal s (reply_to ++ prompt) aad).0) [
        | inl none_ ↦ absurd (ground (arith, h, good, made, none_))
        | inr (ct, put) ↦ (
          ground (arith, good),
          enc,
          s,
          made,
          ct,
          (H.seal s (reply_to ++ prompt) aad).1,
          ground (arith, put),
          ground (arith, h, good, made, put),
        )
      ]
    ]
  ]

  split_reply-append :
      (reply_to prompt : Bytes)
      → length reply_to ≡ 32
      → split_reply (reply_to ++ prompt) ≡ ok (prompt, reply_to)
  split_reply-append reply_to prompt h =
      let long : ltb (length (reply_to ++ prompt)) 32 ≡ Bool.false =
        ground (arith, length-append reply_to prompt, h) in
      rw long (rw (drop-front 32 reply_to prompt h) (rw (take-front 32 reply_to prompt h) refl))

  open-parts :
      (sk aad enc ct pt : Bytes) (r r' : H.Receiver)
      → length enc ≡ H.enc_size
      → 32 ≤ length ct
      → receiver_for sk enc info ≡ ok r
      → H.unseal r ct aad ≡ (some pt, r')
      → e2e_open sk aad (enc ++ ct) ≡ split_reply pt
  unfolding e2e_open
  open-parts sk aad enc ct pt r r' len long set got =
      let fits : ltb (length (enc ++ ct)) (H.enc_size + 32) ≡ Bool.false =
        ground (arith, length-append enc ct, len, long) in
      rw fits (
        rw (take-front H.enc_size enc ct len)
          (rw (drop-front H.enc_size enc ct len) (rw set (rw got refl))))

  -- What is sealed to a host's public key opens under its secret key and the same associated data,
  -- to the prompt and the session key that were put in.
  pub e2e_open-e2e_seal :
      (rng : H.Rng) (sk pk aad prompt reply_to sealed : Bytes)
      → H.IsPair sk pk
      → (e2e_seal rng pk aad prompt reply_to).0 ≡ ok sealed
      → e2e_open sk aad sealed ≡ ok (prompt, reply_to)
  e2e_open-e2e_seal rng sk pk aad prompt reply_to sealed pair h =
      let (whole, enc, s, made, ct, s', put, is) =
        e2e_seal-parts rng pk aad prompt reply_to sealed h in
      let (r, set, ends, len) = receiver_for-sender_for rng sk pk info enc s pair made in
      let (r', got) = H.open-seal s s' r (reply_to ++ prompt) aad ct ends.secret ends.place put in
      let (ct_is, moved, at) = H.seal-aead s s' (reply_to ++ prompt) aad ct put in
      let long : 32 ≤ length ct = omega (
        arith,
        ap length ct_is,
        H.length-aead (H.sender_secret s) (H.sender_seq s) aad (reply_to ++ prompt),
        length-append reply_to prompt,
        whole,
      ) in
      subst (λ m. e2e_open sk aad m ≡ ok (prompt, reply_to)) (sym is)
        (open-parts sk aad enc ct (reply_to ++ prompt) r r' len long set got
          ∙ split_reply-append reply_to prompt whole)

  -- The two contexts of an answer agree.
  pub response_setup-Agree :
      (rng : H.Rng) (sk pk preamble : Bytes) (s : H.Sender)
      → H.IsPair sk pk
      → (response_setup_host rng pk).0 ≡ ok (s, preamble)
      → (r : H.Receiver) × (response_setup_client sk preamble ≡ ok r) × Agree s r
  unfolding response_setup_host response_setup_client
  response_setup-Agree rng sk pk preamble s pair h =
      let made : (sender_for rng pk resp_info).0 ≡ ok (preamble, s) = ground (arith, h) in
      let (r, set, ends, len) = receiver_for-sender_for rng sk pk resp_info preamble s pair made in
      (r, set, ends)
