-- ===== src/Examples/Signing.antt =====
-- An operator who signs a bootstrap document without what hosts need.
use text.Mathlib.Text.{◌==◌ as str_eq}
use text.Mathlib.TextEquality.{eq_iff}
use lluma.Common.{
  ℕ, ◌≡◌, refl, sym, ap, ◌∙◌, Bool, true, false, not, ◌&&◌, Option, none, some, [], ◌∷◌, Bytes,
  ◌++◌, replicate, is_empty, ◌==◌, ok, ensure, ◌>>◌, arith, if◌then◌else◌, Bool-cases, Option-cases,
  inl, inr,
}
use lluma.Core.Wire.{BootstrapDoc}
use lluma.Core.Proto.{SignedBootstrap}
use lluma.Crypto.Account.{
  bootstrap_domain, bootstrap_sign, account_public_from_secret, bootstrap_verify,
}
use lluma.Client.Error.{protocol}
use lluma.Client.Verify.{starts_with, tunnel_ok, verify_bootstrap}
use lluma.Keygen.{SignFlags, DocCodec, sign}
use lluma.Keygen.Accepted.{verify_bootstrap-sign, IsSalt}
use lluma.Examples.Instances.{primitives}

-- The documents of one relay, without a tunnel.
abbrev is_plain : BootstrapDoc → Bool
is_plain doc =
    doc.version == 1
    && (str_eq doc.relay_url "https://r" && (elim doc.tunnel_url [
      | some u ↦ false
      | none ↦ elim doc.pow_difficulty [
        | some d ↦ false
        | none ↦ elim doc.epoch_salt [ some s ↦ false | none ↦ true ]
      ]
    ]))

abbrev plain_doc : ℕ → ℕ → Bytes → BootstrapDoc
plain_doc key_id at kc = record {
  version = 1;
  relay_url = "https://r";
  gateway_kc = kc;
  issuer_key_id = key_id;
  issued_at_s = at;
  tunnel_url = none;
  pow_difficulty = none;
  epoch_salt = none;
}

abbrev encoded : BootstrapDoc → Option Bytes
encoded doc =
    if is_plain doc then some (doc.issuer_key_id ∷ doc.issued_at_s ∷ doc.gateway_kc) else none

abbrev decoded : Bytes → Option BootstrapDoc
decoded (key_id ∷ at ∷ kc) = some (plain_doc key_id at kc)
decoded bs = none

decoded-encoded :
    (doc : BootstrapDoc) (bytes : Bytes) → encoded doc ≡ some bytes → decoded bytes ≡ some doc
decoded-encoded doc bytes h = elim (Bool-cases (is_plain doc)) [
  | inr bad ↦ absurd (ground (arith, h, bad))
  | inl good ↦ elim (Option-cases doc.tunnel_url) [
    | inr (u, some_) ↦ absurd (ground (arith, good, some_))
    | inl no_tunnel ↦ elim (Option-cases doc.pow_difficulty) [
      | inr (d, some_) ↦ absurd (ground (arith, good, no_tunnel, some_))
      | inl no_pow ↦ elim (Option-cases doc.epoch_salt) [
        | inr (s, some_) ↦ absurd (ground (arith, good, no_tunnel, no_pow, some_))
        | inl no_salt ↦
            let v : 1 ≡ doc.version = ground (arith, good) in
            let told : str_eq doc.relay_url "https://r" ≡ true = ground (arith, good) in
            let relay : "https://r" ≡ doc.relay_url =
              sym ((eq_iff doc.relay_url "https://r").0 told) in
            let whole : plain_doc doc.issuer_key_id doc.issued_at_s doc.gateway_kc ≡ doc = λ i.
              record {
                version = v i;
                relay_url = relay i;
                gateway_kc = doc.gateway_kc;
                issuer_key_id = doc.issuer_key_id;
                issued_at_s = doc.issued_at_s;
                tunnel_url = sym no_tunnel i;
                pow_difficulty = sym no_pow i;
                epoch_salt = sym no_salt i;
              } in
            let is : bytes ≡ doc.issuer_key_id ∷ doc.issued_at_s ∷ doc.gateway_kc =
              ground (arith, h, good) in
            ap decoded is ∙ ap some whole
      ]
    ]
  ]
]

abbrev codec : DocCodec
codec = record {
  codecs = record { doc = decoded; signed = λ b. none; parse_url = λ u. none };
  to_stdvec = encoded;
  doc-to_stdvec = decoded-encoded;
}

abbrev flags : SignFlags
flags = record {
  relay = "https://r";
  gateway_kc = 5 ∷ [];
  issuer_key_id = 6;
  issued_at = 7;
  tunnel_url = none;
  pow_difficulty = none;
  epoch_salt = none;
}

abbrev signed : SignedBootstrap
signed = record {
  doc = 6 ∷ 7 ∷ 5 ∷ [];
  sig = primitives.sign (replicate 32 1) (bootstrap_domain ++ (6 ∷ 7 ∷ 5 ∷ []));
}

verify_bootstrap-sign_example :
    (salt : Option ℕ) × IsSalt none salt
    × (verify_bootstrap codec.codecs (primitives.public_of (replicate 32 1)) signed ≡ (do
      ensure (not (is_empty flags.gateway_kc) && starts_with "https://" flags.relay) protocol
      tunnel_ok codec.codecs flags.tunnel_url
      ok (record {
        version = 1;
        relay_url = flags.relay;
        gateway_kc = flags.gateway_kc;
        issuer_key_id = flags.issuer_key_id;
        issued_at_s = 7;
        tunnel_url = none;
        pow_difficulty = none;
        epoch_salt = salt;
      })))
unfolding sign bootstrap_sign account_public_from_secret bootstrap_verify
verify_bootstrap-sign_example =
    verify_bootstrap-sign codec (replicate 32 1) flags (primitives.public_of (replicate 32 1))
      signed refl
