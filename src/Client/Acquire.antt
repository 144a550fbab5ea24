-- ===== src/Client/Acquire.antt =====
-- crates/lluma-client/src/lib.rs: `acquire`, which has a batch of tokens signed blindly.
use lluma.Common.{
  ℕ, ◌≡◌, ◌&&◌, ◌∙◌, some, List, Bytes, codes, length, All, ◌==◌, Result, ok, ok_or, ensure, ◌>>=◌,
  ◌>>◌, >>=-eq-ok, ok_or-step, arith,
}
use lluma.Core.Wire.{Array32, Token, IssueRequestBody, to_array32, written}
use lluma.Core.Proto.{IssueRequest, IssueResponse}
use lluma.Crypto.Primitives.{Primitives}
use lluma.Crypto.Account.{issue_request_sign}
use lluma.Crypto.Tokens.{BlindRsa}
use lluma.Issuer.Service.{KeyConfigResponse}
use lluma.Client.Error.{ClientError, protocol, crypto, net_ok, crypto_ok, crypto_ok-eq-ok}
use lluma.Client.Calls.{Client, ClientJson, Send, post_request, answer_200}
use lluma.Client.Batches.{blind_all, blind_all-length, unblind_all, unblind_all-verifies, IsToken}

module _ ⦃C : Primitives⦄ ⦃B : BlindRsa⦄ (json : ClientJson) (send : Send) where
  -- The signed request for a batch.
  unfoldable pub sign_batch_request :
      Client → KeyConfigResponse → List Bytes → Array32 → ℕ → Result ClientError IssueRequest
  sign_batch_request client kc blinded request_id now = do
    enc ← ok_or (C.encode_blinded blinded) protocol
    account ← ok_or (to_array32 client.pk) crypto
    let body : IssueRequestBody = record {
      version = 1;
      account = account;
      key_id = kc.key_id;
      request_id = request_id;
      ts_unix_s = now;
      blinded_batch_hash = C.blake3 enc;
    }
    auth_sig ← crypto_ok (issue_request_sign client.sk body)
    ok (record { body = body; blinded = blinded; auth_sig = auth_sig })

  -- The answer to it: as many signatures as states, under the key that was asked for.
  unfoldable pub collect_tokens :
      KeyConfigResponse → List Bytes → IssueResponse → Result ClientError (List Token)
  collect_tokens kc states ir = do
    ensure (ir.key_id == kc.key_id && length ir.signatures == length states) protocol
    crypto_ok (unblind_all kc.issuer_public_key states ir.signatures)

  -- The exchange for a batch that is blinded.
  unfoldable pub exchange :
      Client
      → KeyConfigResponse
      → Array32
      → ℕ
      → List Bytes × List Bytes
      → Result ClientError (List Token)
  unfolding sign_batch_request collect_tokens
  exchange client kc request_id now (states, blinded) = do
    req ← sign_batch_request client kc blinded request_id now
    text ← ok_or (json.issue_request req) protocol
    resp ← net_ok (send (post_request (codes "/v1/issue") text))
    ir ← answer_200 json.issue_response resp
    collect_tokens kc states ir

  unfoldable pub acquire :
      B.Rng → Client → KeyConfigResponse → ℕ → ℕ → Result ClientError (List Token)
  unfolding exchange
  acquire rng client kc count now =
      let (made, rng') = blind_all count rng kc.issuer_public_key in
      let (request_id, rng'') = B.draw rng' in
      crypto_ok made >>= exchange client kc (written 0 request_id) now

  collect_tokens-verifies :
      (kc : KeyConfigResponse) (states : List Bytes) (ir : IssueResponse) (tokens : List Token)
      (rsa_pk : B.PublicKey)
      → B.public_from_der kc.issuer_public_key ≡ some rsa_pk
      → B.size rsa_pk ≡ 256
      → collect_tokens kc states ir ≡ ok tokens
      → (length tokens ≡ length states) × All (IsToken kc.issuer_public_key) tokens
  collect_tokens-verifies kc states ir tokens rsa_pk key size h =
      let even : length ir.signatures ≡ length states =
        unfold collect_tokens in ground (arith, h) in
      let got : unblind_all kc.issuer_public_key states ir.signatures ≡ ok tokens =
        unfold collect_tokens in ground (arith, h) in
      unblind_all-verifies kc.issuer_public_key states ir.signatures tokens rsa_pk key size even got

  -- Where the issuer's key parses and its signatures have 256 bytes (a modulus of 2048 bits), a client
  -- that acquires tokens under this key gets exactly as many as it asked for, and each of them is 320
  -- bytes long and verifies under the key, whatever else the relay, the gateway and the issuer answer.
  pub acquire-verifies :
      (rng : B.Rng) (client : Client) (kc : KeyConfigResponse) (count now : ℕ) (tokens : List Token)
      (rsa_pk : B.PublicKey)
      → B.public_from_der kc.issuer_public_key ≡ some rsa_pk
      → B.size rsa_pk ≡ 256
      → acquire rng client kc count now ≡ ok tokens
      → (length tokens ≡ count) × All (IsToken kc.issuer_public_key) tokens
  unfolding acquire exchange
  acquire-verifies rng client kc count now tokens rsa_pk key size h =
      let ((states, blinded), m, h1) =
        >>=-eq-ok (crypto_ok (blind_all count rng kc.issuer_public_key).0) _ h in
      let id = written 0 (B.draw (blind_all count rng kc.issuer_public_key).1).0 in
      let made =
        blind_all-length count rng kc.issuer_public_key states blinded (crypto_ok-eq-ok _ _ m) in
      let (req, r, h2) = >>=-eq-ok (sign_batch_request client kc blinded id now) _ h1 in
      let (text, t, h3) = ok_or-step (json.issue_request req) protocol _ h2 in
      let (resp, s, h4) = >>=-eq-ok (net_ok (send (post_request (codes "/v1/issue") text))) _ h3 in
      let (ir, i, h5) =
        >>=-eq-ok (answer_200 json.issue_response resp) (collect_tokens kc states) h4 in
      let (even, good) = collect_tokens-verifies kc states ir tokens rsa_pk key size h5 in
      (even ∙ made, good)
