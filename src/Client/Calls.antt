-- ===== src/Client/Calls.antt =====
-- crates/lluma-client/src/lib.rs: the calls of the client that ride the relay. `send` is the
-- `round_trip` of the client's agent, and serde_json a parameter.
use lluma.Common.{
  ℕ, Bool, true, false, Option, none, some, List, [], Bytes, codes, ltb, ◌==◌, Result, ok, err,
  ok_or, ensure, ◌>>=◌, ◌>>◌, if◌then◌else◌,
}
use lluma.Core.Wire.{
  Array32, AccountPublicKey, AccountSecretKey, SnapshotHostEntry, Token, be_bytes, to_array32,
}
use lluma.Core.Proto.{
  IssueRequest, IssueResponse, ExecRequest, ExecResponse, SnapshotResponse, TrialRegisterRequest,
}
use lluma.Crypto.Primitives.{Primitives}
use lluma.Crypto.Pow.{pow_solve, pow_trial_domain}
use lluma.Crypto.Tokens.{token_spend_id}
use lluma.Crypto.Hpke.{Hpke}
use lluma.Crypto.E2e.{session_keygen, e2e_seal, response_setup_client, response_open_chunk}
use lluma.Issuer.Service.{KeyConfigResponse}
use lluma.Net.Framing.{NetError, InnerRequest, InnerResponse}
use lluma.Client.Error.{ClientError, protocol, crypto, not_final, server, net_ok, crypto_ok}
use lluma.Client.Verify.{verify_snapshot}

pub record ClientJson : Type 0 where
  pub key_config_response : Bytes → Option KeyConfigResponse
  pub issue_request : IssueRequest → Option Bytes
  pub issue_response : Bytes → Option IssueResponse
  pub trial_register_request : TrialRegisterRequest → Option Bytes
  pub snapshot_response : Bytes → Option SnapshotResponse
  pub exec_request : ExecRequest → Option Bytes
  pub exec_response : Bytes → Option ExecResponse

-- `Client`, without the agent.
pub record Client : Type 0 where
  pub sk : AccountSecretKey
  pub pk : AccountPublicKey
  pub host_pk : Bytes
  pub host_account : Array32
  pub expected_issuer_key_id : Option Array32

abbrev pub Send : Type 0
Send = InnerRequest → Result NetError InnerResponse

abbrev pub get_request : Bytes → InnerRequest
get_request path = record { method = codes "GET"; path = path; content_type = none; body = [] }

abbrev pub post_request : Bytes → Bytes → InnerRequest
post_request path json = record {
  method = codes "POST";
  path = path;
  content_type = some (codes "application/json");
  body = json;
}

-- The status is 200, and the body is what is wanted.
abbrev pub answer_200 : {A : Type 0} → (Bytes → Option A) → InnerResponse → Result ClientError A
answer_200 parse resp = do
  ensure (resp.status == 200) (server resp.status)
  ok_or (parse resp.body) protocol

module _ ⦃C : Primitives⦄ (json : ClientJson) (send : Send) where
  abbrev pub pinned : Option Array32 → Array32 → Bool
  pinned none key_id = true
  pinned (some expected) key_id = key_id == expected

  unfoldable pub key_config : Client → Result ClientError KeyConfigResponse
  key_config client = do
    resp ← net_ok (send (get_request (codes "/v1/key-config")))
    kc ← answer_200 json.key_config_response resp
    ensure (C.blake3 kc.issuer_public_key == kc.key_id) protocol
    ensure (pinned client.expected_issuer_key_id kc.key_id) protocol
    ok kc

  -- The outcome of a claim by the status of the answer.
  abbrev pub claimed : ℕ → Result ClientError Bool
  claimed s = if s == 200 then ok true else if s == 429 then ok false else err (server s)

  -- The claim itself, with the nonce that was found.
  unfoldable pub claim : Array32 → Bytes → Result ClientError Bool
  claim account nonce = do
    text ←
        ok_or
          (json.trial_register_request
            (record { body = record { version = 1; account = account }; pow_nonce = nonce }))
          protocol
    resp ← net_ok (send (post_request (codes "/v1/register") text))
    claimed resp.status

  -- The fuel bounds the search for a nonce; `none` when it runs out.
  unfoldable pub trial_register : ℕ → Client → Array32 → ℕ → Option (Result ClientError Bool)
  unfolding claim
  trial_register fuel client epoch_salt pow_difficulty =
      if ltb 30 pow_difficulty then some (err protocol) else elim (to_array32 client.pk) [
        | none ↦ some (err crypto)
        | some account ↦ elim (pow_solve fuel pow_trial_domain account epoch_salt pow_difficulty) [
          | none ↦ none
          | some nonce ↦ some (claim account nonce)
        ]
      ]

  unfoldable pub snapshot : AccountPublicKey → Result ClientError (List SnapshotHostEntry)
  snapshot registry_pk = do
    resp ← net_ok (send (get_request (codes "/v1/snapshot")))
    sr ← answer_200 json.snapshot_response resp
    body ← verify_snapshot registry_pk sr
    ok body.hosts

module _ ⦃H : Hpke⦄ where
  -- The answer, which must be marked as final.
  unfoldable pub read_answer : Bytes → ExecResponse → Result ClientError Bytes
  read_answer sess_sk er = do
    cctx ← crypto_ok (response_setup_client sess_sk er.preamble)
    opened ← crypto_ok (response_open_chunk cctx er.chunk).0
    ensure opened.1 not_final
    ok opened.0

module _ ⦃C : Primitives⦄ ⦃H : Hpke⦄ (json : ClientJson) (send : Send) where
  -- From the sealed request on.
  unfoldable pub ask :
      KeyConfigResponse → Token → SnapshotHostEntry → Bytes → Bytes → Result ClientError Bytes
  unfolding read_answer
  ask kc token host sess_sk sealed = do
    text ←
        ok_or
          (json.exec_request (record {
            key_id = kc.key_id;
            host_account = host.host_account;
            token = token;
            sealed = sealed;
          }))
          protocol
    resp ← net_ok (send (post_request (codes "/v1/exec") text))
    er ← answer_200 json.exec_response resp
    read_answer sess_sk er

  unfoldable pub exec_with_host :
      H.Rng → KeyConfigResponse → Token → SnapshotHostEntry → Bytes → Result ClientError Bytes
  unfolding ask
  exec_with_host rng kc token host prompt =
      let (pair, rng') = session_keygen rng in
      (do
        keys ← crypto_ok pair
        sealed ←
            crypto_ok
              (e2e_seal rng' host.hpke_pk (be_bytes 32 (token_spend_id token)) prompt keys.1).0
        ask kc token host keys.0 sealed)

  unfoldable pub exec :
      H.Rng → Client → KeyConfigResponse → Token → Bytes → Result ClientError Bytes
  unfolding exec_with_host
  exec rng client kc token prompt =
      exec_with_host rng kc token
        (record {
          host_account = client.host_account;
          hpke_pk = client.host_pk;
          models = [];
          tier_flags = 0;
          load_bucket = 0;
          freshness_bucket = 0;
        })
        prompt
