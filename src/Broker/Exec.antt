-- ===== src/Broker/Exec.antt =====
-- crates/lluma-broker/src/service.rs: `exec`, which redeems a token and forwards the request to the
-- host that the client chose.
pub mod Spending
pub mod Guards
use lluma.Common.{
  ℕ, Bool, true, false, not, ◌||◌, Option, none, some, String, Bytes, ◌==◌, Result, ok, err, ok_or,
  ensure, ◌>>=◌, ◌>>◌, is_ok, if◌then◌else◌,
}
use text.Mathlib.Text.{◌==◌ as str_eq}
use lluma.Core.Wire.{Array32, SpendId, SealedRequest}
use lluma.Core.Proto.{ExecRequest, ExecResponse, HostExecRequest, validate_exec_request}
use lluma.Crypto.Primitives.{Primitives}
use lluma.Crypto.Tokens.{BlindRsa, token_verify, token_spend_id}
use lluma.Broker.Config.{BrokerError, BrokerConfig}
use lluma.Broker.Db.{Redb}
use lluma.Broker.Store.{Store}
use lluma.Broker.Redeem.{redeem, resolve_active_host, SpendOutcome, newly_spent, already_spent}
use lluma.Broker.Tunnel.{
  TunnelRegistry, Reservation, no_socket, at_capacity, reserved, reserve_tunnel, drop_guard,
  dispatch,
}

-- A response: a status and a code, or 200 with a body.
pub data Response : Type 0 where
  refused : ℕ → String → Response
  answered : Bytes → Response
  coded : String → Response

abbrev pub tunnel_sentinel_addr : String
tunnel_sentinel_addr = "https://tunnel.invalid"

pub data Route : Type 0 where
  tunnel : ℕ → Route
  http : String → Route

-- What `serde_json` makes of the texts.
pub record ExecJson : Type 0 where
  pub exec_request : Bytes → Option ExecRequest
  pub exec_response : ExecResponse → Option Bytes
  pub host_exec_request : HostExecRequest → Option Bytes

-- A reply over HTTP: whether its status is a success, and its body where it arrives.
pub record HttpReply : Type 0 where
  pub is_success : Bool
  pub bytes : Option Bytes

-- What happens outside: the faults of the read and of the write transaction, the store that the read
-- transaction sees, before other requests may write, the answer that comes back through the tunnel in time, and the reply to a POST to the path `/v1/exec` of an address.
pub record Outside ⦃R : Redb⦄ : Type 0 where
  pub read_fault : R.Fault
  pub write_fault : R.Fault
  pub seen : Store
  pub tunnel_answer : Option ExecResponse
  pub post : String → Bytes → Option HttpReply

-- The fixed part of `BrokerState`.
pub record ExecSetup : Type 0 where
  pub issuer_pk : Bytes
  pub key_id : Array32
  pub cfg : BrokerConfig

abbrev pub route_reserved : String → Reservation → Result Response Route
route_reserved addr (reserved g) = ok (tunnel g)
route_reserved addr at_capacity = err (refused 502 "no_host")
route_reserved addr no_socket =
    if str_eq addr tunnel_sentinel_addr then err (refused 502 "no_host") else ok (http addr)

-- The host is resolved, and a slot reserved, before anything is spent.
unfoldable pub choose_route :
    Result BrokerError (Option String)
    → TunnelRegistry
    → Array32
    → Result Response Route × TunnelRegistry
choose_route (err e) t host = (err (refused 500 "internal"), t)
choose_route (ok none) t host = (err (refused 502 "no_host"), t)
choose_route (ok (some addr)) t host =
    let (o, t') = reserve_tunnel t host in (route_reserved addr o, t')

-- The guard of a tunnel route is dropped at every exit.
unfoldable pub leave : Route → TunnelRegistry → TunnelRegistry
leave (tunnel g) t = drop_guard t g
leave (http addr) t = t

abbrev relay_answer : ExecJson → Option ExecResponse → Response
relay_answer json none = refused 502 "upstream"
relay_answer json (some resp) = elim (json.exec_response resp) [
  | none ↦ refused 500 "internal"
  | some b ↦ answered b
]

abbrev relay_reply : Option HttpReply → Response
relay_reply none = refused 502 "upstream"
relay_reply (some reply) =
    if not reply.is_success
    then refused 502 "upstream"
    else elim reply.bytes [ none ↦ refused 502 "upstream" | some b ↦ answered b ]

module _ ⦃R : Redb⦄ where
  -- The request goes to the host, with the spend id and the sealed bytes only.
  unfoldable pub forward : ExecJson → Outside → Route → SpendId → SealedRequest → Response
  forward json out (tunnel g) spend_id sealed = relay_answer json out.tunnel_answer
  forward json out (http addr) spend_id sealed =
      elim (json.host_exec_request (record { spend_id = spend_id; sealed = sealed })) [
        | none ↦ refused 500 "internal"
        | some hbody ↦ relay_reply (out.post addr hbody)
      ]

  unfoldable pub jobs : Route → TunnelRegistry → TunnelRegistry
  jobs (tunnel g) t = dispatch t g
  jobs (http addr) t = t

  -- What follows the spend.
  unfoldable pub after_spend :
      ExecJson
      → Outside
      → Route
      → SpendId
      → SealedRequest
      → TunnelRegistry
      → Result BrokerError SpendOutcome
      → Response × TunnelRegistry
  unfolding forward jobs leave
  after_spend json out route spend_id sealed t (ok newly_spent) =
      (forward json out route spend_id sealed, leave route (jobs route t))
  after_spend json out route spend_id sealed t (ok already_spent) =
      (refused 409 "double_spend", leave route t)
  after_spend json out route spend_id sealed t (err e) = (refused 409 "refused", leave route t)

module _ ⦃C : Primitives⦄ ⦃B : BlindRsa⦄ where
  -- The checks on the request itself.
  unfoldable pub check_exec : ExecJson → ExecSetup → Bytes → Result Response ExecRequest
  check_exec json st body = do
    req ← ok_or (json.exec_request body) (refused 422 "bad_request")
    ensure (is_ok (validate_exec_request req)) (refused 422 "token_invalid")
    ensure (req.key_id == st.key_id) (refused 422 "token_invalid")
    ensure (is_ok (token_verify st.issuer_pk req.token)) (refused 422 "token_invalid")
    ok req

module _ ⦃C : Primitives⦄ ⦃B : BlindRsa⦄ ⦃R : Redb⦄ where
  unfoldable pub spend_and_forward :
      ExecJson
      → Outside
      → ExecSetup
      → ExecRequest
      → Store
      → Result Response Route
      → TunnelRegistry
      → Response × Store × TunnelRegistry
  unfolding after_spend
  spend_and_forward json out st req s (err resp) t = (resp, s, t)
  spend_and_forward json out st req s (ok route) t =
      let spend_id = token_spend_id req.token in
      let (o, s') = redeem out.write_fault s st.cfg.epoch spend_id req.host_account in
      let (resp, t') = after_spend json out route spend_id req.sealed t o in (resp, s', t')

  unfoldable pub exec_checked :
      ExecJson
      → Outside
      → ExecSetup
      → Store
      → TunnelRegistry
      → Result Response ExecRequest
      → Response × Store × TunnelRegistry
  unfolding choose_route spend_and_forward
  exec_checked json out st s t (err resp) = (resp, s, t)
  exec_checked json out st s t (ok req) =
      let (r, t') =
        choose_route (resolve_active_host out.read_fault out.seen req.host_account) t
          req.host_account in
      spend_and_forward json out st req s r t'

  unfoldable pub exec :
      ExecJson
      → Outside
      → ExecSetup
      → Store
      → TunnelRegistry
      → Bytes
      → Response × Store × TunnelRegistry
  unfolding exec_checked
  exec json out st s t body = exec_checked json out st s t (check_exec json st body)
