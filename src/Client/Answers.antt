-- ===== src/Client/Answers.antt =====
-- crates/lluma-client/src/lib.rs and crates/lluma-host/src/lib.rs together: what `exec_with_host`
-- returns when the host that the client sealed to serves the request.
use lluma.Common.{
  ℕ, ◌≡◌, refl, ap, sym, subst, ◌∙◌, true, Option, none, some, [], Bytes, codes, Result, ok, err,
  >>=-eq-ok, ok_or-step, ok-injective, arith, Option-cases, inl, inr,
}
use lluma.Core.Wire.{Token, SnapshotHostEntry, be_bytes}
use lluma.Core.Proto.{ExecRequest, ExecResponse}
use lluma.Crypto.Primitives.{Primitives}
use lluma.Crypto.Tokens.{token_spend_id}
use lluma.Crypto.Hpke.{Hpke}
use lluma.Crypto.E2e.{session_keygen, e2e_seal, response_setup_client, response_open_chunk}
use lluma.Issuer.Service.{KeyConfigResponse}
use lluma.Net.Framing.{NetError, InnerResponse}
use lluma.Client.Error.{protocol, net_ok, crypto_ok, crypto_ok-eq-ok}
use lluma.Client.Calls.{
  ClientJson, Send, post_request, answer_200, exec_with_host, ask, read_answer,
}
use lluma.Host
use lluma.Host.{Upstream, serve_sealed}
use lluma.Host.Serving.{serve_sealed-answers}

-- What serde_json makes of the two messages at the other end.
pub record PeerJson : Type 0 where
  pub exec_request : Bytes → Option ExecRequest
  pub exec_response : ExecResponse → Option Bytes

-- An answer with a body or, where there is none, an error status.
abbrev pub status_200_or : ℕ → Option Bytes → Result NetError InnerResponse
status_200_or s none = ok (record { status = s; body = [] })
status_200_or s (some body) = ok (record { status = 200; body = body })

module _ ⦃C : Primitives⦄ ⦃H : Hpke⦄ where
  -- Relay, gateway and broker out of the way: the sealed request goes to a host with this key and
  -- this model, with the spend id of the token, and the host's answer comes back. Any other outcome
  -- has some status that is not 200.
  abbrev pub reply_from :
      PeerJson → Result Host.ServeError ExecResponse → Result NetError InnerResponse
  reply_from peer (ok er) = status_200_or 500 (peer.exec_response er)
  reply_from peer (err e) = status_200_or 502 none

  abbrev pub reply_for :
      PeerJson → H.Rng → Bytes → Upstream → Option ExecRequest → Result NetError InnerResponse
  reply_for peer rng host_sk complete none = status_200_or 422 none
  reply_for peer rng host_sk complete (some req) =
      reply_from peer (serve_sealed rng host_sk (token_spend_id req.token) req.sealed complete)

  abbrev pub through_host : PeerJson → H.Rng → Bytes → Upstream → Send
  through_host peer rng host_sk complete r =
      reply_for peer rng host_sk complete (peer.exec_request r.body)

  read_answer-opened :
      (sess_sk answer got : Bytes) (er : ExecResponse) (r : H.Receiver)
      → response_setup_client sess_sk er.preamble ≡ ok r
      → (response_open_chunk r er.chunk).0 ≡ ok (answer, true)
      → read_answer sess_sk er ≡ ok got
      → answer ≡ got
  unfolding read_answer
  read_answer-opened sess_sk answer got er r set opened h =
      ok-injective (sym (rw set (rw opened refl)) ∙ h)

  -- The response that the client parses is the host's.
  reply_from-parts :
      (json : ClientJson) (peer : PeerJson) (served : Result Host.ServeError ExecResponse)
      (resp : InnerResponse) (er : ExecResponse)
      → ((x : ExecResponse) (e : Bytes)
          → peer.exec_response x ≡ some e
          → json.exec_response e ≡ some x)
      → net_ok (reply_from peer served) ≡ ok resp
      → answer_200 json.exec_response resp ≡ ok er
      → served ≡ ok er
  reply_from-parts json peer (err e) resp er law s h = absurd (ground (arith, h, s))
  reply_from-parts json peer (ok x) resp er law s h = elim (Option-cases (peer.exec_response x)) [
    | inl none_ ↦ absurd (ground (arith, h, s, none_))
    | inr (b, e) ↦ ground (arith, h, s, e, law x b e)
  ]

  reply_for-parts :
      (peer : PeerJson) (rng : H.Rng) (host_sk : Bytes) (complete : Upstream) (req : ExecRequest)
      (o : Option ExecRequest)
      → o ≡ some req
      → reply_for peer rng host_sk complete o
        ≡ reply_from peer (serve_sealed rng host_sk (token_spend_id req.token) req.sealed complete)
  reply_for-parts peer rng host_sk complete req o h = rw h refl

  -- Where the request reaches the host that it was sealed to, what the client returns is what the
  -- host's model said to the client's prompt: no other answer is ever returned.
  pub exec_with_host-answers :
      (json : ClientJson) (peer : PeerJson) (rng host_rng : H.Rng) (host_sk : Bytes)
      (complete : Upstream) (kc : KeyConfigResponse) (token : Token) (host : SnapshotHostEntry)
      (prompt got : Bytes)
      → H.IsPair host_sk host.hpke_pk
      → ((x : ExecRequest) (e : Bytes)
          → json.exec_request x ≡ some e
          → peer.exec_request e ≡ some x)
      → ((x : ExecResponse) (e : Bytes)
          → peer.exec_response x ≡ some e
          → json.exec_response e ≡ some x)
      → exec_with_host json (through_host peer host_rng host_sk complete) rng kc token host prompt
        ≡ ok got
      → complete prompt ≡ ok got
  unfolding exec_with_host ask session_keygen
  exec_with_host-answers json peer rng host_rng host_sk complete kc token host prompt got pair there
        back h =
      let (sess_sk, sess_pk) = (H.gen_keypair rng).0 in
      let id = token_spend_id token in
      let (sealed, m, h1) =
        >>=-eq-ok
          (crypto_ok
            (e2e_seal (H.gen_keypair rng).1 host.hpke_pk (be_bytes 32 id) prompt sess_pk).0)
          _ h in
      let req : ExecRequest = record {
        key_id = kc.key_id;
        host_account = host.host_account;
        token = token;
        sealed = sealed;
      } in
      let (text, t, h2) = ok_or-step (json.exec_request req) protocol _ h1 in
      let (resp, s, h3) =
        >>=-eq-ok
          (net_ok
            (through_host peer host_rng host_sk complete (post_request (codes "/v1/exec") text)))
          _ h2 in
      let (er, i, h4) = >>=-eq-ok (answer_200 json.exec_response resp) (read_answer sess_sk) h3 in
      let reached =
        reply_for-parts peer host_rng host_sk complete req (peer.exec_request text)
          (there req text t) in
      let served =
        reply_from-parts json peer (serve_sealed host_rng host_sk id sealed complete) resp er back
          (subst (λ o. net_ok o ≡ ok resp) reached s) i in
      let (answer, said, r, set, opened) =
        serve_sealed-answers (H.gen_keypair rng).1 host_rng host_sk host.hpke_pk sess_sk sess_pk
          prompt sealed id complete er pair (H.gen_keypair-IsPair rng).0 (crypto_ok-eq-ok _ _ m)
          served in
      said ∙ ap ok (read_answer-opened sess_sk answer got er r set opened h4)
