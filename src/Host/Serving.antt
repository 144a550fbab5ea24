-- ===== src/Host/Serving.antt =====
-- crates/lluma-host/src/lib.rs with the two ends of e2e.rs: what the client opens is what the host's
-- model said to the client's prompt, and a request that does not open reaches no model.
use lluma.Common.{◌≡◌, refl, true, Bytes, ok, err, arith, Result-cases, inl, inr}
use lluma.Core.Wire.{SpendId, be_bytes}
use lluma.Core.Proto.{ExecResponse}
use lluma.Crypto.Account.{CryptoError}
use lluma.Crypto.Hpke.{Hpke}
use lluma.Crypto.E2e.{
  e2e_seal, e2e_open, response_setup_host, response_setup_client, response_seal_chunk,
  response_open_chunk,
}
use lluma.Crypto.E2e.Requests.{e2e_open-e2e_seal, response_setup-Agree}
use lluma.Crypto.E2e.Streams.{open_chunk-seal_chunk}
use lluma.Host.{Upstream, seal, serve_sealed, seal_answer}

module _ ⦃H : Hpke⦄ where
  seal_answer-parts :
      (rng : H.Rng) (reply_to answer : Bytes) (er : ExecResponse)
      → seal_answer rng reply_to answer ≡ ok er
      → (s : H.Sender) × ((response_setup_host rng reply_to).0 ≡ ok (s, er.preamble))
        × ((response_seal_chunk s answer true).0 ≡ ok er.chunk)
  unfolding seal_answer
  seal_answer-parts rng reply_to answer er h =
      elim (Result-cases (response_setup_host rng reply_to).0) [
        | inr (e, bad) ↦ absurd (ground (arith, h, bad))
        | inl ((s, preamble), made) ↦ elim (Result-cases (response_seal_chunk s answer true).0) [
          | inr (e, bad) ↦ absurd (ground (arith, h, made, bad))
          | inl (chunk, put) ↦ (s, ground (arith, h, made, put), ground (arith, h, made, put))
        ]
      ]

  -- The client opens a sealed answer to what was sealed, marked as final.
  pub open-seal_answer :
      (rng : H.Rng) (sess_sk sess_pk answer : Bytes) (er : ExecResponse)
      → H.IsPair sess_sk sess_pk
      → seal_answer rng sess_pk answer ≡ ok er
      → (r : H.Receiver) × (response_setup_client sess_sk er.preamble ≡ ok r)
        × ((response_open_chunk r er.chunk).0 ≡ ok (answer, true))
  open-seal_answer rng sess_sk sess_pk answer er pair h =
      let (s, made, put) = seal_answer-parts rng sess_pk answer er h in
      let (r, set, ends) = response_setup-Agree rng sess_sk sess_pk er.preamble s pair made in
      let (r', got, _) = open_chunk-seal_chunk s r answer true er.chunk ends put in
      (r, set, rw got refl)

  -- A host that serves has opened the request to the client's prompt, and seals its model's answer to
  -- this prompt for the client's session key, so that the client opens it as the final chunk.
  pub serve_sealed-answers :
      (rng host_rng : H.Rng) (host_sk host_pk sess_sk sess_pk prompt sealed : Bytes)
      (spend_id : SpendId) (complete : Upstream) (er : ExecResponse)
      → H.IsPair host_sk host_pk
      → H.IsPair sess_sk sess_pk
      → (e2e_seal rng host_pk (be_bytes 32 spend_id) prompt sess_pk).0 ≡ ok sealed
      → serve_sealed host_rng host_sk spend_id sealed complete ≡ ok er
      → (answer : Bytes) × (complete prompt ≡ ok answer)
        × (r : H.Receiver) × (response_setup_client sess_sk er.preamble ≡ ok r)
        × ((response_open_chunk r er.chunk).0 ≡ ok (answer, true))
  unfolding serve_sealed
  serve_sealed-answers rng host_rng host_sk host_pk sess_sk sess_pk prompt sealed spend_id complete
        er host sess put h =
      let opens =
        e2e_open-e2e_seal rng host_sk host_pk (be_bytes 32 spend_id) prompt sess_pk sealed host
          put in
      elim (Result-cases (complete prompt)) [
        | inr (e, bad) ↦ absurd (ground (arith, h, opens, bad))
        | inl (answer, said) ↦
            let made : seal_answer host_rng sess_pk answer ≡ ok er =
              ground (arith, h, opens, said) in
            let (r, set, got) = open-seal_answer host_rng sess_sk sess_pk answer er sess made in
            (answer, said, r, set, got)
      ]

  -- A request that does not open under the host's key and the spend id fails as a broken seal, and
  -- does so whatever the model is: the model has no part in it.
  pub serve_sealed_unopened :
      (rng : H.Rng) (host_sk sealed : Bytes) (spend_id : SpendId) (complete other : Upstream)
      (e : CryptoError)
      → e2e_open host_sk (be_bytes 32 spend_id) sealed ≡ err e
      → (serve_sealed rng host_sk spend_id sealed complete ≡ err seal)
        × (serve_sealed rng host_sk spend_id sealed complete
            ≡ serve_sealed rng host_sk spend_id sealed other)
  unfolding serve_sealed
  serve_sealed_unopened rng host_sk sealed spend_id complete other e h =
      (ground (arith, h), ground (arith, h))
