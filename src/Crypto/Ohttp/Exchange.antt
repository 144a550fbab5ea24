-- ===== src/Crypto/Ohttp/Exchange.antt =====
-- crates/lluma-crypto/src/ohttp.rs: one exchange between a client and the gateway, there and back,
-- and that each side answers once.
use lluma.Common.{
  ℕ, zero, suc, ◌≡◌, refl, ap, sym, subst, ◌∙◌, Bool, true, false, none, some, [], ◌∷◌, Bytes,
  length, take, ◌==◌, Result, ok, err, ok_or, >>=-eq-ok, ok_or-eq-ok, arith,
}
use lluma.Crypto.Account.{ohttp}
use lluma.Crypto.E2e.{flag}
use lluma.Crypto.Ohttp.{
  Oblivious, OhttpError, ClientContext, ohttp_keygen, ohttp_public_from_secret, ohttp_encapsulate,
  ohttp_decapsulate, ohttp_seal_chunk, ohttp_open_chunk, derived, map_err,
}

take-whole : (n : ℕ) (xs : Bytes) → length xs ≡ n → take n xs ≡ xs
take-whole zero [] h = refl
take-whole zero (x ∷ xs) h = absurd (omega (arith, h))
take-whole (suc n) [] h = absurd (omega (arith, h))
take-whole (suc n) (x ∷ xs) h = ap (◌∷◌ x) (take-whole n xs (omega (arith, h)))

module _ ⦃O : Oblivious⦄ where
  keygen-parts :
      (rng : O.Rng) (key_id : ℕ) (sk public : Bytes)
      → (ohttp_keygen rng key_id).0 ≡ ok (sk, public)
      → (ikm : Bytes) × (cfg : O.KeyConfig) × (length ikm ≡ 32)
        × (sk ≡ key_id ∷ ikm)
        × (O.derive_config key_id ikm ≡ some cfg)
        × (O.encode cfg ≡ some public)
  unfolding ohttp_keygen
  keygen-parts rng key_id sk public h =
      let ikm = (O.fill_bytes rng).0 in
      let (cfg, d, h1) = >>=-eq-ok (derived key_id ikm) _ h in
      let (enc, e, h2) = >>=-eq-ok (ok_or (O.encode cfg) ohttp) (λ p. ok (key_id ∷ ikm, p)) h1 in
      (
        ikm,
        cfg,
        O.length-fill_bytes rng,
        ground (arith, h2),
        ok_or-eq-ok _ ohttp cfg d,
        ok_or-eq-ok (O.encode cfg) ohttp enc e ∙ ground (arith, h2),
      )

  -- The public configuration derived again from a stored secret is the one that was published with it.
  pub public_from_secret-keygen :
      (rng : O.Rng) (key_id : ℕ) (sk public : Bytes)
      → (ohttp_keygen rng key_id).0 ≡ ok (sk, public)
      → ohttp_public_from_secret sk ≡ ok public
  unfolding ohttp_public_from_secret
  public_from_secret-keygen rng key_id sk public h =
      let (ikm, cfg, len, is, made, enc) = keygen-parts rng key_id sk public h in
      subst (λ k. ohttp_public_from_secret k ≡ ok public) (sym is)
        (ground (arith, len, take-whole 32 ikm len, made, enc))

  encapsulate-parts :
      (seed : O.Seed) (public request capsule : Bytes) (ctx : ClientContext)
      → ohttp_encapsulate seed public request ≡ ok (capsule, ctx)
      → (client : O.ClientRequest) × (cr : O.ClientResponse) × (O.from_encoded_config public
          ≡ some client)
        × (O.encapsulate client seed request ≡ some (capsule, cr))
        × (ctx ≡ some cr)
  unfolding ohttp_encapsulate
  encapsulate-parts seed public request capsule ctx h =
      let (client, c, h1) = >>=-eq-ok (ok_or (O.from_encoded_config public) ohttp) _ h in
      let ((cap, cr), m, h2) =
        >>=-eq-ok (ok_or (O.encapsulate client seed request) ohttp) (λ p. ok (p.0, some p.1)) h1 in
      (
        client,
        cr,
        ok_or-eq-ok _ ohttp client c,
        ok_or-eq-ok (O.encapsulate client seed request) ohttp (cap, cr) m ∙ ground (arith, h2),
        ground (arith, h2),
      )

  decapsulate-made :
      (key_id : ℕ) (ikm capsule request : Bytes) (cfg : O.KeyConfig) (server : O.Server)
      (sr : O.ServerResponse)
      → length ikm ≡ 32
      → O.derive_config key_id ikm ≡ some cfg
      → O.new_server cfg ≡ some server
      → O.decapsulate server capsule ≡ ok (request, sr)
      → ohttp_decapsulate (key_id ∷ ikm) capsule ≡ ok (request, some sr)
  unfolding ohttp_decapsulate
  decapsulate-made key_id ikm capsule request cfg server sr len made serves opens =
      ground (arith, len, take-whole 32 ikm len, made, serves, opens)

  -- A capsule that a client makes for a published configuration opens, under the secret that was
  -- generated with it, to the request, and the two response contexts belong together.
  pub ohttp_decapsulate-ohttp_encapsulate :
      (rng : O.Rng) (key_id : ℕ) (sk public request capsule : Bytes) (seed : O.Seed)
      (ctx : ClientContext)
      → (ohttp_keygen rng key_id).0 ≡ ok (sk, public)
      → ohttp_encapsulate seed public request ≡ ok (capsule, ctx)
      → (cr : O.ClientResponse) × (sr : O.ServerResponse) × (ctx ≡ some cr)
        × (ohttp_decapsulate sk capsule ≡ ok (request, some sr))
        × O.IsPaired cr sr
  ohttp_decapsulate-ohttp_encapsulate rng key_id sk public request capsule seed ctx hk h =
      let (ikm, cfg, len, is, made, enc) = keygen-parts rng key_id sk public hk in
      let (client, cr, from, cap, ctx_is) = encapsulate-parts seed public request capsule ctx h in
      let (server, sr, serves, opens, paired) =
        O.decapsulate-encapsulate key_id ikm public request capsule cfg client seed cr made enc from
          cap in
      (
        cr,
        sr,
        ctx_is,
        subst (λ k. ohttp_decapsulate k capsule ≡ ok (request, some sr)) (sym is)
            (decapsulate-made key_id ikm capsule request cfg server sr len made serves opens),
        paired,
      )

  flag-last : (last : Bool) → (flag last == 1) ≡ last
  flag-last true = refl
  flag-last false = refl

  map_err-eq-ok : (r : Result OhttpError Bytes) (m : Bytes) → map_err r ≡ ok m → r ≡ ok m
  map_err-eq-ok (ok a) m h = ground (arith, h)
  map_err-eq-ok (err e) m h = absurd (ground (arith, h))

  -- The response that the gateway seals in an exchange opens at its client to the same text and mark
  -- of finality. Both contexts are then spent: neither seals or opens anything more.
  pub ohttp_open_chunk-ohttp_seal_chunk :
      (cr : O.ClientResponse) (sr : O.ServerResponse) (seed : O.Seed) (chunk sealed : Bytes)
      (last : Bool)
      → O.IsPaired cr sr
      → (ohttp_seal_chunk (some sr) seed chunk last).0 ≡ ok sealed
      → (ohttp_open_chunk (some cr) sealed ≡ (ok (chunk, last), none))
        × ((ohttp_seal_chunk (some sr) seed chunk last).1 ≡ none)
        × ((seed' : O.Seed) (more : Bytes) (last' : Bool)
            → (ohttp_seal_chunk none seed' more last').0 ≡ err ohttp)
        × ((more : Bytes) → (ohttp_open_chunk none more).0 ≡ err ohttp)
  unfolding ohttp_open_chunk ohttp_seal_chunk
  ohttp_open_chunk-ohttp_seal_chunk cr sr seed chunk sealed last paired h =
      let put = map_err-eq-ok (O.seal_response sr seed (flag last ∷ chunk)) sealed h in
      let got = O.open-seal_response cr sr seed (flag last ∷ chunk) sealed paired put in
      (
        rw got (ap (λ (b : Bool). (ok (chunk, b), none)) (flag-last last)),
        refl,
        λ seed' more last'. refl,
        λ more. refl,
      )
