-- ===== src/Broker/Service.antt =====
-- crates/lluma-broker/src/service.rs: the other handlers. Each takes its body as bytes, runs one
-- operation, and answers with a status and a code.
use lluma.Common.{
  ℕ, ◌/◌, ◌%◌, ◌^◌, ◌≡◌, ◌≢◌, Bool, false, Option, none, some, Bytes, leb, Result, ok, err,
  if◌then◌else◌, arith, ct_eq, not,
}
use lluma.Core.Wire.{Array32}
use lluma.Core.Proto.{
  HostRegisterRequest, HeartbeatRequest, ReceiptSubmit, TrialRegisterRequest, SnapshotResponse,
}
use lluma.Crypto.Primitives.{Primitives}
use lluma.Broker.Config.{BrokerError, BrokerConfig}
use lluma.Broker.Db.{Redb}
use lluma.Broker.Store.{Store, CounterRow}
use lluma.Broker.Address.{Parsers}
use lluma.Broker.Counters
use lluma.Broker.Counters.{counts_of}
use lluma.Broker.Registry.{
  register, heartbeat, RegisterOutcome, registered, updated, HeartbeatOutcome, accepted,
}
use lluma.Broker.Receipts.{ingest, IngestOutcome, credited, already_credited}
use lluma.Broker.Trial.{grant_trial, grant_trial-Grants, TrialOutcome, granted}
use lluma.Broker.Snapshot.{publish}
use lluma.Broker.Exec.{Response, refused, answered, coded}

-- `serde_json` on the bodies of these handlers.
pub record ServiceJson : Type 0 where
  pub host_register : Bytes → Option HostRegisterRequest
  pub heartbeat : Bytes → Option HeartbeatRequest
  pub receipt_submit : Bytes → Option ReceiptSubmit
  pub trial_register : Bytes → Option TrialRegisterRequest
  pub snapshot : SnapshotResponse → Option Bytes

abbrev register_response : Result BrokerError RegisterOutcome → Response
register_response (ok registered) = coded "registered"
register_response (ok updated) = coded "updated"
register_response (ok o) = refused 422 "rejected"
register_response (err e) = refused 500 "internal"

abbrev heartbeat_response : Result BrokerError HeartbeatOutcome → Response
heartbeat_response (ok (accepted active)) = coded "accepted"
heartbeat_response (ok o) = refused 422 "rejected"
heartbeat_response (err e) = refused 500 "internal"

abbrev receipt_response : Result BrokerError IngestOutcome → Response
receipt_response (ok credited) = coded "credited"
receipt_response (ok already_credited) = coded "already_credited"
receipt_response (ok o) = refused 422 "rejected"
receipt_response (err e) = refused 500 "internal"

-- Every refusal of a trial looks the same.
abbrev trial_response : Result BrokerError TrialOutcome → Response
trial_response (ok granted) = coded "granted"
trial_response (ok o) = refused 429 "unavailable"
trial_response (err e) = refused 500 "internal"

abbrev snapshot_response : ServiceJson → Result BrokerError SnapshotResponse → Response
snapshot_response json (err e) = refused 500 "internal"
snapshot_response json (ok resp) = elim (json.snapshot resp) [
  | none ↦ refused 500 "internal"
  | some b ↦ answered b
]

-- What `admin_invariant` reports.
pub record InvariantReport : Type 0 where
  pub epoch : ℕ
  pub issued : ℕ
  pub redeemed : ℕ
  pub trial_granted : ℕ
  pub invariant_holds : Bool

module _ ⦃C : Primitives⦄ ⦃R : Redb⦄ ⦃N : Parsers⦄ (json : ServiceJson) (cfg : BrokerConfig) where
  pub host_register : R.Fault → Store → ℕ → Bytes → Response × Store
  host_register φ s now body = elim (json.host_register body) [
    | none ↦ (refused 422 "bad_request", s)
    | some req ↦ let (o, s') = register φ s req cfg now in (register_response o, s')
  ]

  pub host_heartbeat : R.Fault → R.Fault → Store → Store → ℕ → Bytes → Response × Store
  host_heartbeat ψ φ seen s now body = elim (json.heartbeat body) [
    | none ↦ (refused 422 "bad_request", s)
    | some req ↦ let (o, s') = heartbeat ψ φ seen s req now cfg in (heartbeat_response o, s')
  ]

  pub receipt_submit : R.Fault → Store → Bytes → Response × Store
  receipt_submit φ s body = elim (json.receipt_submit body) [
    | none ↦ (refused 422 "bad_request", s)
    | some req ↦ let (o, s') = ingest φ s req cfg in (receipt_response o, s')
  ]

  pub trial_register : R.Fault → Store → ℕ → Bytes → Response × Store
  trial_register φ s now body = elim (json.trial_register body) [
    | none ↦ (refused 422 "bad_request", s)
    | some req ↦ let (o, s') = grant_trial φ s req cfg (now / 86400) in (trial_response o, s')
  ]

  -- `issued_at_h` is cast to 32 bits.
  pub snapshot_get : R.Fault → Store → ℕ → Array32 → Bytes → Response
  snapshot_get φ s now key_id registry_sk = snapshot_response json (
      publish φ s
        (record { epoch = cfg.epoch; issued_at_h = now / 3600 % 2 ^ 32; issuer_key_id = key_id })
        registry_sk)

module _ ⦃R : Redb⦄ (cfg : BrokerConfig) where
  abbrev report : Result BrokerError CounterRow → Result Response InvariantReport
  report (err e) = err (refused 500 "internal")
  report (ok c) = ok (record {
    epoch = cfg.epoch;
    issued = c.issued;
    redeemed = c.redeemed;
    trial_granted = c.trial_granted;
    invariant_holds = leb c.redeemed c.issued;
  })

  unfoldable pub admin_invariant :
      R.Fault → Bytes → Store → Option Bytes → Result Response InvariantReport
  admin_invariant φ admin_secret s header =
      if not (elim header [ none ↦ false | some v ↦ ct_eq v admin_secret ])
      then err (refused 403 "forbidden")
      else report (Counters.read φ s cfg.epoch)

module _ ⦃C : Primitives⦄ ⦃R : Redb⦄ ⦃N : Parsers⦄ (json : ServiceJson) (cfg : BrokerConfig) where
  -- Whatever the reason, for an account that had its grant, a budget that is spent, work that does not
  -- verify or a request that is malformed, a refused trial gets the same response, and the store is
  -- as it was.
  pub trial_register_uniform :
      (φ : R.Fault) (s : Store) (now : ℕ) (body : Bytes) (req : TrialRegisterRequest)
      (o : TrialOutcome)
      → json.trial_register body ≡ some req
      → (grant_trial φ s req cfg (now / 86400)).0 ≡ ok o
      → o ≢ granted
      → trial_register json cfg φ s now body ≡ (refused 429 "unavailable", s)
  unfolding trial_register
  trial_register_uniform φ s now body req o parsed h ne =
      ground (arith, parsed, h, ne, grant_trial-Grants φ s req cfg (now / 86400) 0 0 0 0)
