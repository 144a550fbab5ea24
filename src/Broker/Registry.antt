-- ===== src/Broker/Registry.antt =====
-- crates/lluma-broker/src/registry.rs: registration, heartbeats with slow admission, and eviction.
pub mod Rows
pub mod Eviction
use lluma.Common.{
  ℕ, ◌≡◌, ◌≤◌, ◌<◌, ◌*◌, Bool, true, false, Option, none, some, List, [], ◌∷◌, Bytes, length,
  Result, ok, err, is_ok, ◌>>=◌, ◌==◌, leb, ltb, not, ◌&&◌, ◌||◌, if◌then◌else◌, arith, refl, min,
  u64_max, saturating_sub, saturating_add32,
}
use lluma.Core.Wire.{Array32, HostRegisterBody, HeartbeatBody, be_bytes}
use lluma.Core.Proto.{
  HostRegisterRequest, HeartbeatRequest, validate_host_register_request, validate_heartbeat_request,
}
use lluma.Crypto.Primitives.{Primitives}
use lluma.Crypto.Account.{host_register_verify, heartbeat_verify}
use lluma.Crypto.Pow.{pow_host_domain}
use lluma.Broker.Config.{BrokerError, BrokerConfig}
use lluma.Broker.Db.{Redb}
use lluma.Broker.Store.{
  Store, HostRow, host_pending, host_active, get_row, put_row, all_rows, with_write, with_read,
}
use lluma.Broker.Address.{Parsers, ingress_addr_ok}
use lluma.Broker.Spent.{is_some}
use lluma.Broker.Trial.{pow_ok}

pub data RegisterOutcome : Type 0 where
  registered updated bad_signature bad_pow bad_address : RegisterOutcome

pub data HeartbeatOutcome : Type 0 where
  accepted : Bool → HeartbeatOutcome
  unknown_host bad_signature replay : HeartbeatOutcome

unfoldable pub host_pow_ok : ⦃C : Primitives⦄ → BrokerConfig → Array32 → Bytes → Bool
host_pow_ok cfg account_pk nonce = pow_ok pow_host_domain cfg account_pk nonce

-- The row that a registration leaves, and its outcome: a known host keeps its status.
abbrev pub register_row : Option HostRow → HostRegisterBody → ℕ → HostRow × RegisterOutcome
register_row (some r) body now = (
  record r { hpke_pk = body.hpke_pk; ingress_addr = body.ingress_addr; models = body.models },
  updated,
)
register_row none body now = (
  record {
    hpke_pk = body.hpke_pk;
    ingress_addr = body.ingress_addr;
    models = body.models;
    status = host_pending;
    hb_counter = 0;
    last_hb = now;
    load_bucket = 0;
    admit_progress = 0;
  },
  registered,
)

-- `elapsed >= heartbeat_interval_s` advances the admission, and `M` steps make the host active.
abbrev pub admit : BrokerConfig → ℕ → HostRow → HostRow
admit cfg elapsed row =
    let progress = saturating_add32 row.admit_progress 1 in
    if leb cfg.heartbeat_interval_s elapsed
    then record row {
      admit_progress = progress;
      status = if leb cfg.admission_m progress then host_active else row.status;
    }
    else row

-- The row after a heartbeat that is not a replay.
abbrev pub beat_row : BrokerConfig → ℕ → HeartbeatBody → HostRow → HostRow
beat_row cfg now body row =
    let elapsed = saturating_sub now row.last_hb in
    let row1 = record row { hb_counter = body.hb_counter; load_bucket = body.load_bucket } in
    record (admit cfg elapsed row1) { last_hb = now }

-- The rows that `evict_stale` demotes: out of date, and active or on the way.
abbrev pub is_stale : BrokerConfig → ℕ → HostRow → Bool
is_stale cfg now row =
    ltb (min (cfg.heartbeat_interval_s * 3) u64_max) (saturating_sub now row.last_hb)
    && (row.status == host_active || ltb 0 row.admit_progress)

abbrev pub demote : HostRow → HostRow
demote row = record row { status = host_pending; admit_progress = 0 }

stale_rows : BrokerConfig → ℕ → List (Array32 × HostRow) → List (Array32 × HostRow)
stale_rows cfg now [] = []
stale_rows cfg now ((k, row) ∷ es) =
    let rest = stale_rows cfg now es in
    if is_stale cfg now row then (k, demote row) ∷ rest else rest

module _ ⦃R : Redb⦄ where
  register_body :
      R.Fault → HostRegisterBody → ℕ → Store → Result BrokerError (RegisterOutcome × Store)
  register_body φ body now s = do
    existing ← get_row φ s.hosts body.host_account
    let rowed = register_row existing body now
    t ← put_row φ s.hosts body.host_account rowed.0
    ok (rowed.1, record s { hosts = t })

  -- The part of `heartbeat` under the writer, on the row that it reads again.
  beat :
      R.Fault
      → BrokerConfig
      → ℕ
      → HeartbeatBody
      → Store
      → Option HostRow
      → Result BrokerError (HeartbeatOutcome × Store)
  beat φ cfg now body s none = ok (unknown_host, s)
  beat φ cfg now body s (some row) =
      if leb body.hb_counter row.hb_counter then ok (replay, s) else (do
        t ← put_row φ s.hosts body.host_account (beat_row cfg now body row)
        ok (accepted ((beat_row cfg now body row).status == host_active), record s { hosts = t }))

  heartbeat_body :
      R.Fault
      → BrokerConfig
      → ℕ
      → HeartbeatBody
      → Store
      → Result BrokerError (HeartbeatOutcome × Store)
  unfolding beat
  heartbeat_body φ cfg now body s = do
    got ← get_row φ s.hosts body.host_account
    beat φ cfg now body s got

  -- `for (k, row) in &stale { hosts.insert(k, row) }`
  put_all :
      R.Fault → R.Table HostRow → List (Array32 × HostRow) → Result BrokerError (R.Table HostRow)
  put_all φ t [] = ok t
  put_all φ t ((k, row) ∷ es) = do t' ← put_row φ t k row; put_all φ t' es

  evict_body : R.Fault → BrokerConfig → ℕ → Store → Result BrokerError (ℕ × Store)
  unfolding stale_rows put_all
  evict_body φ cfg now s = do
    es ← all_rows φ s.hosts
    let stale = stale_rows cfg now es
    t ← put_all φ s.hosts stale
    ok (length stale, record s { hosts = t })

  unfoldable pub evict_stale : R.Fault → Store → ℕ → BrokerConfig → Result BrokerError ℕ × Store
  unfolding evict_body
  evict_stale φ s now cfg = with_write φ (evict_body φ cfg now) s

module _ ⦃C : Primitives⦄ ⦃R : Redb⦄ ⦃N : Parsers⦄ where
  unfoldable pub register :
      R.Fault
      → Store
      → HostRegisterRequest
      → BrokerConfig
      → ℕ
      → Result BrokerError RegisterOutcome × Store
  unfolding register_body host_pow_ok
  register φ s req cfg now =
      if not (is_ok (validate_host_register_request req))
      then (ok bad_address, s)
      else if not
          (is_ok (host_register_verify (be_bytes 32 req.body.host_account) req.body req.sig))
      then (ok RegisterOutcome.bad_signature, s)
      else if not (length req.pow_nonce == 8)
      then (ok bad_pow, s)
      else if not (host_pow_ok cfg req.body.host_account req.pow_nonce)
      then (ok bad_pow, s)
      else if not (ingress_addr_ok req.body.ingress_addr cfg.allow_loopback_ingress)
      then (ok bad_address, s)
      else with_write φ (register_body φ req.body now) s

module _ ⦃C : Primitives⦄ ⦃R : Redb⦄ where
  -- The rest of `heartbeat` on what the prefilter read: the signature, then the writer.
  heartbeat_known :
      R.Fault
      → Store
      → HeartbeatRequest
      → ℕ
      → BrokerConfig
      → Result BrokerError (Option HostRow)
      → Result BrokerError HeartbeatOutcome × Store
  unfolding heartbeat_body
  heartbeat_known φ s req now cfg (err e) = (err e, s)
  heartbeat_known φ s req now cfg (ok none) = (ok unknown_host, s)
  heartbeat_known φ s req now cfg (ok (some known)) =
      if not (is_ok (heartbeat_verify (be_bytes 32 req.body.host_account) req.body req.sig))
      then (ok HeartbeatOutcome.bad_signature, s)
      else with_write φ (heartbeat_body φ cfg now req.body) s

  -- The prefilter reads in a transaction of its own, with its fault `ψ` and the store that it sees.
  unfoldable pub heartbeat :
      R.Fault
      → R.Fault
      → Store
      → Store
      → HeartbeatRequest
      → ℕ
      → BrokerConfig
      → Result BrokerError HeartbeatOutcome × Store
  unfolding heartbeat_known
  heartbeat ψ φ seen s req now cfg =
      if not (is_ok (validate_heartbeat_request req))
      then (ok HeartbeatOutcome.bad_signature, s)
      else heartbeat_known φ s req now cfg
          (with_read ψ (λ r. get_row ψ r.hosts req.body.host_account) seen)
