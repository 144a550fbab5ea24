-- ===== src/Issuer/Client/Outcomes.antt =====
-- crates/lluma-issuer/src/client.rs against service.rs: which errors and which spend ids reach the
-- client.
use lluma.Common.{
  ℕ, ◌≡◌, refl, ap, sym, ◌∙◌, ◌==◌, ensure, is_ok, false, some, List, Bytes, codes, ◌++◌, length,
  All, ok, err, >>=-eq-ok, ok_or-step, ok-injective, arith,
}
use lluma.Core.Wire.{SpendId, Array32, Token, AccountPublicKey, AccountSecretKey, written}
use lluma.Core.Proto.{IssueResponse, validate_issue_response}
use lluma.Net.Agent.{is_success}
use lluma.Crypto.Primitives.{Primitives}
use lluma.Crypto.Account.{Fallible}
use lluma.Crypto.Tokens.{BlindRsa, token_spend_id}
use lluma.Issuer.Error.{
  IssuerError, insufficient_credits, unauthorized, token_invalid, double_spend, request_id_conflict,
  bad_request, internal, concurrent, code, status,
}
use lluma.Issuer.Service.{KeyConfigResponse, response_status}
use lluma.Issuer.Client.{
  IssuerJson, Post, map_code, into_body, redeem, unblind_response, batch_request, request_tokens,
  issue_batch, crypto_internal,
}
use lluma.Client.Batches.{blind_all, blind_all-length, unblind_all-verifies, IsToken}

crypto_internal-eq-ok : {A : Type 0} (r : Fallible A) (a : A) → crypto_internal r ≡ ok a → r ≡ ok a
crypto_internal-eq-ok (ok b) a h = ground (arith, h)
crypto_internal-eq-ok (err e) a h = absurd (ground (arith, h))

map_code-code : (e : IssuerError) → map_code (code e) ≡ e
unfolding map_code code
map_code-code insufficient_credits = refl
map_code-code unauthorized = refl
map_code-code token_invalid = refl
map_code-code double_spend = refl
map_code-code request_id_conflict = refl
map_code-code bad_request = refl
map_code-code internal = refl
map_code-code concurrent = refl

response_status-fails : (e : IssuerError) → is_success (response_status e) ≡ false
unfolding response_status status
response_status-fails insufficient_credits = refl
response_status-fails unauthorized = refl
response_status-fails token_invalid = refl
response_status-fails double_spend = refl
response_status-fails request_id_conflict = refl
response_status-fails bad_request = refl
response_status-fails internal = refl
response_status-fails concurrent = refl

-- The client recovers every error of the issuer from the response that the issuer makes of it, by the
-- code in the body: `Concurrent` too, although its status on the wire is that of an internal error.
pub into_body-error :
    (json : IssuerJson) (e : IssuerError) (body : Bytes)
    → json.code_field body ≡ some (code e)
    → into_body json (record { status = response_status e; bytes = some body }) ≡ err e
unfolding into_body
into_body-error json e body h = rw (response_status-fails e) (rw h (ap err (map_code-code e)))

module _ ⦃C : Primitives⦄ ⦃B : BlindRsa⦄ (json : IssuerJson) (base_url : Bytes) (post : Post) where
  unblind_response-verifies :
      (kc : KeyConfigResponse) (states : List Bytes) (r : IssueResponse) (tokens : List Token)
      (rsa_pk : B.PublicKey)
      → B.public_from_der kc.issuer_public_key ≡ some rsa_pk
      → B.size rsa_pk ≡ 256
      → unblind_response json base_url post kc states r ≡ ok tokens
      → (length tokens ≡ length states) × All (IsToken kc.issuer_public_key) tokens
  unfolding unblind_response
  unblind_response-verifies kc states r tokens rsa_pk key size h =
      let (_, _, h1) = >>=-eq-ok (ensure (is_ok (validate_issue_response r)) internal) _ h in
      let (_, e, h2) = >>=-eq-ok (ensure (length r.signatures == length states) internal) _ h1 in
      let even : length r.signatures ≡ length states = ground (arith, e) in
      unblind_all-verifies kc.issuer_public_key states r.signatures tokens rsa_pk key size even
        (crypto_internal-eq-ok _ _ h2)

  -- What the issuer's own client gets are as many tokens as it asked for, each of which verifies under
  -- the issuer's key, whatever the issuer answers.
  pub request_tokens-verifies :
      (rng : B.Rng) (kc : KeyConfigResponse) (sk : AccountSecretKey) (pk : AccountPublicKey)
      (count now : ℕ) (tokens : List Token) (rsa_pk : B.PublicKey)
      → B.public_from_der kc.issuer_public_key ≡ some rsa_pk
      → B.size rsa_pk ≡ 256
      → request_tokens json base_url post rng kc sk pk count now ≡ ok tokens
      → (length tokens ≡ count) × All (IsToken kc.issuer_public_key) tokens
  unfolding request_tokens issue_batch
  request_tokens-verifies rng kc sk pk count now tokens rsa_pk key size h =
      let ((states, blinded), m, h1) =
        >>=-eq-ok (crypto_internal (blind_all count rng kc.issuer_public_key).0) _ h in
      let id = written 0 (B.draw (blind_all count rng kc.issuer_public_key).1).0 in
      let made =
        blind_all-length count rng kc.issuer_public_key states blinded
          (crypto_internal-eq-ok _ _ m) in
      let (req, _, h2) =
        >>=-eq-ok (batch_request json base_url post sk pk kc blinded id now) _ h1 in
      let (text, _, h3) = ok_or-step (json.issue_request req) internal _ h2 in
      let (resp, _, h4) = ok_or-step (post (base_url ++ codes "/v1/issue") text) internal _ h3 in
      let (bytes, _, h5) = >>=-eq-ok (into_body json resp) _ h4 in
      let (r, _, h6) = ok_or-step (json.issue_response bytes) internal _ h5 in
      let (even, good) = unblind_response-verifies kc states r tokens rsa_pk key size h6 in
      (even ∙ made, good)

-- A redemption that succeeds returns the spend id of the client's own token, which the issuer must have
-- echoed: a response with any other id is an error.
pub redeem_own :
    ⦃C : Primitives⦄ (json : IssuerJson) (base_url : Bytes) (post : Post) (key_id : Array32)
    (token : Token) (id : SpendId)
    → redeem json base_url post key_id token ≡ ok id
    → id ≡ token_spend_id token
unfolding redeem
redeem_own json base_url post key_id token id h =
    let (text, _, h1) =
      ok_or-step (json.redeem_request (record { key_id = key_id; token = token })) internal _ h in
    let (resp, _, h2) = ok_or-step (post (base_url ++ codes "/v1/redeem") text) internal _ h1 in
    let (bytes, _, h3) = >>=-eq-ok (into_body json resp) _ h2 in
    let (r, _, h4) = ok_or-step (json.redeem_response bytes) internal _ h3 in
    let (_, e, h5) = >>=-eq-ok (ensure (r.spend_id == token_spend_id token) internal) _ h4 in
    ok-injective (sym h5)
