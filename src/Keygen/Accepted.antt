-- ===== src/Keygen/Accepted.antt =====
-- crates/lluma-keygen/src/bin/lluma-bootstrap.rs and crates/lluma-client/src/lib.rs: what a client
-- makes of a document that the tool has signed.
use lluma.Common.{
  ℕ, ◌≡◌, ◌≢◌, refl, ap, ◌∙◌, not, ◌&&◌, Option, none, some, String, Bytes, is_empty, ok, ensure,
  ◌>>◌, arith, Bool-cases, Option-cases, Result-cases, inl, inr,
}
use lluma.Core.Wire.{Array32, to_array32, AccountSecretKey, AccountPublicKey, BootstrapDoc}
use lluma.Core.Proto.{SignedBootstrap}
use lluma.Crypto.Primitives.{Primitives}
use lluma.Crypto.Account.{account_public_from_secret, bootstrap_sign, bootstrap_verify}
use lluma.Client.Error.{protocol}
use lluma.Client.Verify.{starts_with, tunnel_ok, difficulty_ok, verify_bootstrap}
use lluma.Keygen.{
  SignFlags, DocCodec, checked_tunnel, checked_difficulty, checked_salt, read_sk, document,
  sign_doc, sign,
}

checked_difficulty-ok :
    (given d : Option ℕ) → checked_difficulty given ≡ ok d → difficulty_ok d ≡ ok tt
checked_difficulty-ok none d h = ground (arith, h)
checked_difficulty-ok (some n) d h = ground (arith, h)

checked_tunnel-same : (given url : Option String) → checked_tunnel given ≡ ok url → url ≡ given
checked_tunnel-same none url h = ground (arith, h)
checked_tunnel-same (some u) url h = elim (Bool-cases (starts_with "wss://" u)) [
  | inl good ↦ ground (arith, h, good)
  | inr bad ↦ absurd (ground (arith, h, bad))
]

checked_difficulty-same : (given d : Option ℕ) → checked_difficulty given ≡ ok d → d ≡ given
checked_difficulty-same none d h = ground (arith, h)
checked_difficulty-same (some n) d h = ground (arith, h)

-- A salt that is given has 32 bytes, and is read as the array of them.
abbrev pub IsSalt : Option Bytes → Option Array32 → Type 0
IsSalt none salt = salt ≡ none
IsSalt (some bytes) salt = (to_array32 bytes ≢ none) × (salt ≡ to_array32 bytes)

checked_salt-IsSalt :
    (given : Option Bytes) (salt : Option Array32)
    → checked_salt given ≡ ok salt
    → IsSalt given salt
checked_salt-IsSalt none salt h = ground (arith, h)
checked_salt-IsSalt (some bytes) salt h = elim (Option-cases (to_array32 bytes)) [
  | inl none_ ↦ absurd (ground (arith, h, none_))
  | inr (n, got) ↦ ((λ e. ground (arith, got, e)), ground (arith, h, got))
]

-- The document with the values of the flags, and a salt.
abbrev described : SignFlags → Option Array32 → BootstrapDoc
described flags salt = record {
  version = 1;
  relay_url = flags.relay;
  gateway_kc = flags.gateway_kc;
  issuer_key_id = flags.issuer_key_id;
  issued_at_s = flags.issued_at;
  tunnel_url = flags.tunnel_url;
  pow_difficulty = flags.pow_difficulty;
  epoch_salt = salt;
}

document-described :
    (flags : SignFlags) (doc : BootstrapDoc)
    → document flags ≡ ok doc
    → (salt : Option Array32) × IsSalt flags.epoch_salt salt
      × (difficulty_ok flags.pow_difficulty ≡ ok tt)
      × (document flags ≡ ok (described flags salt))
unfolding document
document-described flags doc h = elim (Result-cases (checked_tunnel flags.tunnel_url)) [
  | inr (e, bad) ↦ absurd (ground (arith, h, bad))
  | inl (url, t) ↦ elim (Result-cases (checked_difficulty flags.pow_difficulty)) [
    | inr (e, bad) ↦ absurd (ground (arith, h, t, bad))
    | inl (d, c) ↦ elim (Result-cases (checked_salt flags.epoch_salt)) [
      | inr (e, bad) ↦ absurd (ground (arith, h, t, c, bad))
      | inl (salt, s) ↦
          let t' : checked_tunnel flags.tunnel_url ≡ ok flags.tunnel_url =
            t ∙ ap ok (checked_tunnel-same flags.tunnel_url url t) in
          let c' : checked_difficulty flags.pow_difficulty ≡ ok flags.pow_difficulty =
            c ∙ ap ok (checked_difficulty-same flags.pow_difficulty d c) in
          (
            salt,
            checked_salt-IsSalt flags.epoch_salt salt s,
            checked_difficulty-ok flags.pow_difficulty flags.pow_difficulty c',
            rw (t', document) (rw c' (rw s refl)),
          )
    ]
  ]
]

module _ ⦃C : Primitives⦄ where
  sign_doc-parts :
      (codec : DocCodec) (sk : AccountSecretKey) (doc : BootstrapDoc) (pk : AccountPublicKey)
      (sb : SignedBootstrap)
      → sign_doc codec sk doc ≡ ok (pk, sb)
      → (codec.to_stdvec doc ≡ some sb.doc) × (bootstrap_verify pk sb.doc sb.sig ≡ ok tt)
  unfolding sign_doc
  sign_doc-parts codec sk doc pk sb h = elim (Option-cases (codec.to_stdvec doc)) [
    | inl none_ ↦ absurd (ground (arith, h, none_))
    | inr (bytes, made) ↦ elim (Result-cases (bootstrap_sign sk bytes)) [
      | inr (e, bad) ↦ absurd (ground (arith, h, made, bad))
      | inl (sig, signed) ↦ elim (Result-cases (account_public_from_secret sk)) [
        | inr (e, bad) ↦ absurd (ground (arith, h, made, signed, bad))
        | inl (key, known) ↦ elim (Result-cases (bootstrap_verify key bytes sig)) [
          | inr (e, bad) ↦ absurd (ground (arith, h, made, signed, known, bad))
          | inl (_, good) ↦ ground (arith, h, made, signed, known, good)
        ]
      ]
    ]
  ]

  -- A client that pins the public key which the tool reports accepts what the tool has signed, except
  -- for a relay whose URL is not https, an empty key configuration, and a tunnel URL that does not parse
  -- to a clean one. What it reads is the document with the values of the flags, field by field, and with
  -- the salt as an array of 32 bytes.
  pub verify_bootstrap-sign :
      (codec : DocCodec) (sk_file : Bytes) (flags : SignFlags) (pk : AccountPublicKey)
      (sb : SignedBootstrap)
      → sign codec sk_file flags ≡ ok (pk, sb)
      → (salt : Option Array32) × IsSalt flags.epoch_salt salt
        × (verify_bootstrap codec.codecs pk sb ≡ (do
          ensure (not (is_empty flags.gateway_kc) && starts_with "https://" flags.relay) protocol
          tunnel_ok codec.codecs flags.tunnel_url
          ok (record {
            version = 1;
            relay_url = flags.relay;
            gateway_kc = flags.gateway_kc;
            issuer_key_id = flags.issuer_key_id;
            issued_at_s = flags.issued_at;
            tunnel_url = flags.tunnel_url;
            pow_difficulty = flags.pow_difficulty;
            epoch_salt = salt;
          })))
  unfolding sign verify_bootstrap
  verify_bootstrap-sign codec sk_file flags pk sb h = elim (Result-cases (read_sk sk_file)) [
    | inr (e, bad) ↦ absurd (ground (arith, h, bad))
    | inl (sk, key) ↦ elim (Result-cases (document flags)) [
      | inr (e, bad) ↦ absurd (ground (arith, h, key, bad))
      | inl (doc, first) ↦
          let (salt, is_salt, d, made) = document-described flags doc first in
          let signed : sign_doc codec sk (described flags salt) ≡ ok (pk, sb) =
            ground (arith, h, key, made) in
          let (written, good) = sign_doc-parts codec sk (described flags salt) pk sb signed in
          let back = codec.doc-to_stdvec (described flags salt) sb.doc written in
          (salt, is_salt, rw (good, verify_bootstrap) (rw back (rw d refl)))
    ]
  ]
