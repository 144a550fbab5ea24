-- ===== src/Issuer/Client.antt =====
-- crates/lluma-issuer/src/client.rs: the clients of the issuer, one for each side of it. The time and
-- the HTTP answers are arguments, serde_json a parameter.
use text.Mathlib.Text.{◌==◌ as str_eq}
use lluma.Common.{
  ℕ, ◌&&◌, not, Bool, true, false, Option, none, some, String, List, ◌++◌, Bytes, codes, length,
  ◌==◌, Result, ok, err, ok_or, ensure, is_ok, ◌>>=◌, ◌>>◌, if◌then◌else◌,
}
use lluma.Core.Wire.{
  Array32, SpendId, Token, AccountPublicKey, AccountSecretKey, IssueRequestBody, to_array32,
  written,
}
use lluma.Core.Proto.{
  IssueRequest, IssueResponse, RedeemRequest, RedeemResponse, validate_issue_response,
}
use lluma.Crypto.Primitives.{Primitives}
use lluma.Crypto.Account.{CryptoError, Fallible, issue_request_sign}
use lluma.Crypto.Tokens.{BlindRsa, token_spend_id}
use lluma.Issuer.Error.{
  IssuerError, insufficient_credits, unauthorized, token_invalid, double_spend, request_id_conflict,
  bad_request, internal, concurrent,
}
use lluma.Issuer.Service.{KeyConfigResponse}
use lluma.Net.Agent.{is_success}
use lluma.Client.Batches.{blind_all, unblind_all}
pub mod Outcomes

-- A response: its status, and its body where it arrives.
pub record HttpResponse : Type 0 where
  pub status : ℕ
  pub bytes : Option Bytes

pub record IssuerJson : Type 0 where
  pub key_config_response : Bytes → Option KeyConfigResponse
  pub issue_request : IssueRequest → Option Bytes
  pub issue_response : Bytes → Option IssueResponse
  pub redeem_request : RedeemRequest → Option Bytes
  pub redeem_response : Bytes → Option RedeemResponse
  -- The text of the field `code` of an object, where there is one.
  pub code_field : Bytes → Option String

-- A GET of a URL, and a POST of a JSON text to it; `none` is an error of the transport.
abbrev pub Get : Type 0
Get = Bytes → Option HttpResponse

abbrev pub Post : Type 0
Post = Bytes → Bytes → Option HttpResponse

unfoldable pub map_code : String → IssuerError
map_code code =
    if str_eq code "insufficient_credits"
    then insufficient_credits
    else if str_eq code "unauthorized"
    then unauthorized
    else if str_eq code "token_invalid"
    then token_invalid
    else if str_eq code "double_spend"
    then double_spend
    else if str_eq code "request_id_conflict"
    then request_id_conflict
    else if str_eq code "bad_request"
    then bad_request
    else if str_eq code "concurrent_request"
    then concurrent
    else internal

-- `unwrap_or_default` on a text.
abbrev pub text_or_empty : Option String → String
text_or_empty none = ""
text_or_empty (some s) = s

unfoldable pub into_body : IssuerJson → HttpResponse → Result IssuerError Bytes
unfolding map_code
into_body json resp = do
  bytes ← ok_or resp.bytes internal
  if is_success resp.status
      then ok bytes
      else err (map_code (text_or_empty (json.code_field bytes)))

-- `From<CryptoError>`.
abbrev pub crypto_internal : {A : Type 0} → Fallible A → Result IssuerError A
crypto_internal (ok a) = ok a
crypto_internal (err e) = err internal

module _ ⦃C : Primitives⦄ where
  unfoldable pub verify_key_id : KeyConfigResponse → Result IssuerError (Unit {0})
  verify_key_id kc = ensure (C.blake3 kc.issuer_public_key == kc.key_id) bad_request

  unfoldable pub fetch_key_config : IssuerJson → Bytes → Get → Result IssuerError KeyConfigResponse
  unfolding into_body verify_key_id
  fetch_key_config json base_url get = do
    resp ← ok_or (get (base_url ++ codes "/v1/key-config")) internal
    bytes ← into_body json resp
    kc ← ok_or (json.key_config_response bytes) internal
    verify_key_id kc
    ok kc

  -- `RedeemClient::redeem`
  unfoldable pub redeem : IssuerJson → Bytes → Post → Array32 → Token → Result IssuerError SpendId
  unfolding into_body
  redeem json base_url post key_id token = do
    text ← ok_or (json.redeem_request (record { key_id = key_id; token = token })) internal
    resp ← ok_or (post (base_url ++ codes "/v1/redeem") text) internal
    bytes ← into_body json resp
    r ← ok_or (json.redeem_response bytes) internal
    ensure (r.spend_id == token_spend_id token) internal
    ok (token_spend_id token)

module _ ⦃C : Primitives⦄ ⦃B : BlindRsa⦄ (json : IssuerJson) (base_url : Bytes) (post : Post) where
  -- The signed request for a batch.
  unfoldable pub batch_request :
      AccountSecretKey
      → AccountPublicKey
      → KeyConfigResponse
      → List Bytes
      → Array32
      → ℕ
      → Result IssuerError IssueRequest
  batch_request account_sk account_pk kc blinded request_id now = do
    enc ← ok_or (C.encode_blinded blinded) internal
    account ← ok_or (to_array32 account_pk) bad_request
    let body : IssueRequestBody = record {
      version = 1;
      account = account;
      key_id = kc.key_id;
      request_id = request_id;
      ts_unix_s = now;
      blinded_batch_hash = C.blake3 enc;
    }
    auth_sig ← crypto_internal (issue_request_sign account_sk body)
    ok (record { body = body; blinded = blinded; auth_sig = auth_sig })

  -- The signatures are unblinded by their positions.
  unfoldable pub unblind_response :
      KeyConfigResponse → List Bytes → IssueResponse → Result IssuerError (List Token)
  unblind_response kc states r = do
    ensure (is_ok (validate_issue_response r)) internal
    ensure (length r.signatures == length states) internal
    crypto_internal (unblind_all kc.issuer_public_key states r.signatures)

  unfoldable pub issue_batch :
      AccountSecretKey
      → AccountPublicKey
      → KeyConfigResponse
      → Array32
      → ℕ
      → List Bytes × List Bytes
      → Result IssuerError (List Token)
  unfolding batch_request unblind_response
  issue_batch account_sk account_pk kc request_id now (states, blinded) = do
    req ← batch_request account_sk account_pk kc blinded request_id now
    text ← ok_or (json.issue_request req) internal
    resp ← ok_or (post (base_url ++ codes "/v1/issue") text) internal
    bytes ← into_body json resp
    r ← ok_or (json.issue_response bytes) internal
    unblind_response kc states r

  unfoldable pub request_tokens :
      B.Rng
      → KeyConfigResponse
      → AccountSecretKey
      → AccountPublicKey
      → ℕ
      → ℕ
      → Result IssuerError (List Token)
  unfolding issue_batch
  request_tokens rng kc account_sk account_pk count now =
      let (made, rng') = blind_all count rng kc.issuer_public_key in
      let (request_id, rng'') = B.draw rng' in
      crypto_internal made >>= issue_batch account_sk account_pk kc (written 0 request_id) now
