-- ===== src/Host/Registering.antt =====
-- crates/lluma-host/src/register.rs: how a host registers at the broker and sends its heartbeats.
use lluma.Common.{
  ℕ, ◌&&◌, Option, none, some, List, ◌++◌, Bytes, codes, trim_end, leb, ltb, Result, ok, err, ok_or,
  is_ok, ◌>>=◌, if◌then◌else◌,
}
use lluma.Core.Wire.{Array32, AccountSecretKey, ModelId, HostRegisterBody, HeartbeatBody}
use lluma.Core.Proto.{HostRegisterRequest, HeartbeatRequest}
use lluma.Crypto.Primitives.{Primitives}
use lluma.Crypto.Account.{Fallible, host_register_sign, heartbeat_sign}
use lluma.Crypto.Pow.{pow_solve, pow_host_domain}
use lluma.Broker.Exec.{tunnel_sentinel_addr}

pub record RegisterConfig : Type 0 where
  pub broker_ingress : Bytes
  pub epoch_salt : Array32
  pub pow_difficulty : ℕ
  pub heartbeat_interval_s : ℕ
  pub models : List ModelId

pub data RegisterError : Type 0 where
  sign transport : RegisterError
  rejected : ℕ → RegisterError

-- serde_json on the two requests.
pub record RegisterJson : Type 0 where
  pub host_register_request : HostRegisterRequest → Option Bytes
  pub heartbeat_request : HeartbeatRequest → Option Bytes

-- A POST of a JSON text that follows no redirect: the status, or an error of the transport.
abbrev pub Post : Type 0
Post = Bytes → Bytes → Option ℕ

abbrev pub sign_or : Fallible Bytes → Result RegisterError Bytes
sign_or (ok sig) = ok sig
sign_or (err e) = err sign

unfoldable pub post : Post → Bytes → Bytes → Bytes → Result RegisterError (Unit {0})
post http base path body = do
  status ← ok_or (http (trim_end b'/' base ++ path) body) transport
  if leb 200 status && ltb status 300 then ok tt else err (rejected status)

abbrev pub register_body : RegisterConfig → Array32 → Bytes → HostRegisterBody
register_body cfg host_account hpke_pk = record {
  version = 1;
  host_account = host_account;
  hpke_pk = hpke_pk;
  ingress_addr = tunnel_sentinel_addr;
  models = cfg.models;
}

abbrev pub heartbeat_body : RegisterConfig → Array32 → ℕ → HeartbeatBody
heartbeat_body cfg host_account hb_counter = record {
  version = 1;
  host_account = host_account;
  hb_counter = hb_counter;
  load_bucket = 0;
  models = cfg.models;
}

module _ ⦃C : Primitives⦄ (json : RegisterJson) (http : Post) (cfg : RegisterConfig) where
  -- The request that is sent, with a nonce that was found.
  unfoldable pub register_with :
      AccountSecretKey → Array32 → Bytes → Bytes → Result RegisterError (Unit {0})
  unfolding post
  register_with account_sk host_account hpke_pk nonce = do
    sig ← sign_or (host_register_sign account_sk (register_body cfg host_account hpke_pk))
    text ←
        ok_or
          (json.host_register_request (record {
            body = register_body cfg host_account hpke_pk;
            sig = sig;
            pow_nonce = nonce;
          }))
          sign
    post http cfg.broker_ingress (codes "/v1/host/register") text

  -- The fuel bounds the search for a nonce; `none` when it runs out. The body is signed before it.
  unfoldable pub register :
      ℕ → AccountSecretKey → Array32 → Bytes → Option (Result RegisterError (Unit {0}))
  unfolding register_with
  register fuel account_sk host_account hpke_pk =
      if is_ok (host_register_sign account_sk (register_body cfg host_account hpke_pk))
      then (elim (pow_solve fuel pow_host_domain host_account cfg.epoch_salt cfg.pow_difficulty) [
        | none ↦ none
        | some nonce ↦ some (register_with account_sk host_account hpke_pk nonce)
      ])
      else some (err sign)

  unfoldable pub heartbeat : AccountSecretKey → Array32 → ℕ → Result RegisterError (Unit {0})
  unfolding post
  heartbeat account_sk host_account hb_counter = do
    sig ← sign_or (heartbeat_sign account_sk (heartbeat_body cfg host_account hb_counter))
    text ←
        ok_or
          (json.heartbeat_request
            (record { body = heartbeat_body cfg host_account hb_counter; sig = sig }))
          sign
    post http cfg.broker_ingress (codes "/v1/heartbeat") text
