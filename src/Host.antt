-- ===== src/Host.antt =====
-- crates/lluma-host/src/lib.rs: the host opens the sealed request, asks its model, and seals the
-- answer to the client's session key.
use lluma.Common.{
  ℕ, Bool, true, false, Option, none, some, String, List, [], ◌∷◌, ◌++◌, Bytes, Result, ok, err,
  ok_or, ◌>>=◌, is_ok, if◌then◌else◌,
}
use lluma.Core.Wire.{SpendId, SealedRequest, be_bytes}
use lluma.Core.Proto.{ExecResponse, HostExecRequest, validate_host_exec_request}
use lluma.Crypto.Account.{Fallible}
use lluma.Crypto.Hpke.{Hpke}
use lluma.Crypto.E2e.{Drawn, e2e_open, response_setup_host, response_seal_chunk}
pub mod OpenAi
pub mod Serving
pub mod Registering
pub mod Tunnel

pub data UpstreamError : Type 0 where
  transport status decode bad_prompt encode : UpstreamError

-- The trait `Upstream`: the model's answer to a prompt.
abbrev pub Upstream : Type 0
Upstream = Bytes → Result UpstreamError Bytes

-- `EchoUpstream`
unfoldable pub echo : Bytes → Upstream
echo sentinel prompt = ok (sentinel ++ prompt)

pub data ServeError : Type 0 where
  seal upstream internal : ServeError

-- A response of the host: 200 with a body, or a status with a code.
pub data Reply : Type 0 where
  served : Bytes → Reply
  failed : ℕ → String → Reply

-- `serde_json` on the host's request and response.
pub record HostJson : Type 0 where
  pub host_exec_request : Bytes → Option HostExecRequest
  pub exec_response : ExecResponse → Option Bytes

module _ ⦃H : Hpke⦄ where
  -- The answer sealed as a single final chunk.
  unfoldable pub seal_answer : H.Rng → Bytes → Bytes → Result ServeError ExecResponse
  seal_answer rng reply_to answer = elim (response_setup_host rng reply_to).0 [
    | err e ↦ err internal
    | ok (hctx, preamble) ↦ elim (response_seal_chunk hctx answer true).0 [
      | err e ↦ err internal
      | ok chunk ↦ ok (record { preamble = preamble; chunk = chunk })
    ]
  ]

  unfoldable pub serve_sealed :
      H.Rng → Bytes → SpendId → SealedRequest → Upstream → Result ServeError ExecResponse
  unfolding seal_answer
  serve_sealed rng host_sk spend_id sealed complete =
      elim (e2e_open host_sk (be_bytes 32 spend_id) sealed) [
        | err e ↦ err seal
        | ok (prompt, reply_to) ↦ elim (complete prompt) [
          | err e ↦ err upstream
          | ok answer ↦ seal_answer rng reply_to answer
        ]
      ]

  -- What the handler answers for a result of `serve_sealed`.
  abbrev pub reply_of : HostJson → Result ServeError ExecResponse → Reply
  reply_of json (ok resp) = elim (json.exec_response resp) [
    | some body ↦ served body
    | none ↦ failed 500 "internal"
  ]
  reply_of json (err seal) = failed 422 "seal_invalid"
  reply_of json (err upstream) = failed 502 "upstream"
  reply_of json (err internal) = failed 500 "internal"

  unfoldable pub exec : HostJson → H.Rng → Bytes → Upstream → Bytes → Reply
  unfolding serve_sealed
  exec json rng host_sk complete body = elim (json.host_exec_request body) [
    | none ↦ failed 422 "bad_request"
    | some req ↦
        if is_ok (validate_host_exec_request req)
        then reply_of json (serve_sealed rng host_sk req.spend_id req.sealed complete)
        else failed 422 "bad_request"
  ]
