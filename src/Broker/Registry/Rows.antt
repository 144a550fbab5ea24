-- ===== src/Broker/Registry/Rows.antt =====
-- crates/lluma-broker/src/registry.rs: what each operation leaves in the table of hosts.
use lluma.Common.{
  ℕ, ◌≡◌, ◌<◌, Bool, Option, none, some, Result, ok, err, ◌==◌, if◌then◌else◌, arith, refl,
}
use lluma.Core.Wire.{Array32, HostRegisterBody, HeartbeatBody}
use lluma.Core.Proto.{HostRegisterRequest, HeartbeatRequest}
use lluma.Crypto.Primitives.{Primitives}
use lluma.Broker.Config.{BrokerError, BrokerConfig}
use lluma.Broker.Db.{Redb}
use lluma.Broker.Store.{
  Store, HostRow, host_active, get_row, with_write, with_read, with_write_cases, get_row_cases,
  put_row_cases,
}
use lluma.Broker.Address.{Parsers}
use lluma.Broker.Registry.{
  RegisterOutcome, registered, updated, HeartbeatOutcome, accepted, register, heartbeat,
  heartbeat_known, register_row, beat_row, register_body, heartbeat_body,
}

module _ ⦃R : Redb⦄ where
  -- The row of the host is set, and nothing else changes.
  abbrev Records : HostRow → Array32 → Array32 → Store → Store → Type 0
  Records row account j s s' =
      (R.rows HostRow s'.hosts j ≡ (if account == j then some row else R.rows HostRow s.hosts j))
      × (s' ≡ record s { hosts = s'.hosts })

  abbrev pub Refreshes : HostRegisterBody → ℕ → Array32 → Store → Store → HostRow → Type 0
  Refreshes body now j s s' row =
      (R.rows HostRow s.hosts body.host_account ≡ some row)
      × Records (register_row (some row) body now).0 body.host_account j s s'

  -- What a registration has done, seen at an account `j`.
  abbrev pub Registers :
      HostRegisterBody → ℕ → Array32 → Store → Result BrokerError RegisterOutcome × Store → Type 0
  Registers body now j s (ok registered, s') =
      (R.rows HostRow s.hosts body.host_account ≡ none)
      × Records (register_row none body now).0 body.host_account j s s'
  Registers body now j s (ok updated, s') = (row : HostRow) × Refreshes body now j s s' row
  Registers body now j s (r, s') = s' ≡ s

  register_body-Registers :
      (φ : R.Fault) (s : Store) (body : HostRegisterBody) (now : ℕ) (j : Array32)
      (old : Option HostRow) (o : RegisterOutcome) (s' : Store)
      → R.rows HostRow s.hosts body.host_account ≡ old
      → register_body φ body now s ≡ ok (o, s')
      → Registers body now j s (ok o, s')
  unfolding register_body
  register_body-Registers φ s body now j none o s' e h = ground (
    arith,
    get_row_cases φ s.hosts body.host_account,
    put_row_cases φ s.hosts body.host_account (register_row none body now).0 j,
  )
  register_body-Registers φ s body now j (some row) registered s' e h = ground (
    arith,
    get_row_cases φ s.hosts body.host_account,
    put_row_cases φ s.hosts body.host_account (register_row (some row) body now).0 j,
  )
  register_body-Registers φ s body now j (some row) updated s' e h = (
    row,
    ground (
      arith,
      get_row_cases φ s.hosts body.host_account,
      put_row_cases φ s.hosts body.host_account (register_row (some row) body now).0 j,
    ),
  )
  register_body-Registers φ s body now j (some row) o s' e h = ground (
    arith,
    get_row_cases φ s.hosts body.host_account,
    put_row_cases φ s.hosts body.host_account (register_row (some row) body now).0 j,
  )

  -- A known host with a lower counter, and its row advanced.
  abbrev pub Advances :
      BrokerConfig → ℕ → HeartbeatBody → Array32 → Store → Store → Bool → HostRow → Type 0
  Advances cfg now body j s s' active row =
      (R.rows HostRow s.hosts body.host_account ≡ some row)
      × (row.hb_counter < body.hb_counter)
      × (active ≡ ((beat_row cfg now body row).status == host_active))
      × Records (beat_row cfg now body row) body.host_account j s s'

  -- What a heartbeat has done, seen at an account `j`.
  abbrev pub Beats :
      BrokerConfig
      → ℕ
      → HeartbeatBody
      → Array32
      → Store
      → Result BrokerError HeartbeatOutcome × Store
      → Type 0
  Beats cfg now body j s (ok (accepted active), s') =
      (row : HostRow) × Advances cfg now body j s s' active row
  Beats cfg now body j s (r, s') = s' ≡ s

  heartbeat_body-Beats :
      (φ : R.Fault) (s : Store) (cfg : BrokerConfig) (now : ℕ) (body : HeartbeatBody) (j : Array32)
      (old : Option HostRow) (o : HeartbeatOutcome) (s' : Store)
      → R.rows HostRow s.hosts body.host_account ≡ old
      → heartbeat_body φ cfg now body s ≡ ok (o, s')
      → Beats cfg now body j s (ok o, s')
  unfolding heartbeat_body
  heartbeat_body-Beats φ s cfg now body j (some row) (accepted active) s' e h = (
    row,
    ground (
      arith,
      get_row_cases φ s.hosts body.host_account,
      put_row_cases φ s.hosts body.host_account (beat_row cfg now body row) j,
    ),
  )
  heartbeat_body-Beats φ s cfg now body j (some row) o s' e h = ground (
    arith,
    get_row_cases φ s.hosts body.host_account,
    put_row_cases φ s.hosts body.host_account (beat_row cfg now body row) j,
  )
  heartbeat_body-Beats φ s cfg now body j none (accepted active) s' e h =
      ground (arith, get_row_cases φ s.hosts body.host_account)
  heartbeat_body-Beats φ s cfg now body j none o s' e h =
      ground (arith, get_row_cases φ s.hosts body.host_account)

  register_txn-Registers :
      (φ : R.Fault) (s : Store) (body : HostRegisterBody) (now : ℕ) (j : Array32)
      → Registers body now j s (with_write φ (register_body φ body now) s)
  register_txn-Registers φ s body now j =
      with_write_cases (Registers body now j s) φ (register_body φ body now) s (λ e. refl)
        λ o s' h. register_body-Registers φ s body now j _ o s' refl h

  heartbeat_txn-Beats :
      (φ : R.Fault) (s : Store) (cfg : BrokerConfig) (now : ℕ) (body : HeartbeatBody) (j : Array32)
      → Beats cfg now body j s (with_write φ (heartbeat_body φ cfg now body) s)
  heartbeat_txn-Beats φ s cfg now body j =
      with_write_cases (Beats cfg now body j s) φ (heartbeat_body φ cfg now body) s (λ e. refl)
        λ o s' h. heartbeat_body-Beats φ s cfg now body j _ o s' refl h

module _ ⦃C : Primitives⦄ ⦃R : Redb⦄ ⦃N : Parsers⦄ where
  -- A registration that is accepted makes a pending row for a new host, or refreshes the row of a
  -- known one in the fields it may change, and touches nothing else; one that is refused, or that a
  -- storage fault stops, changes nothing.
  pub register-Registers :
      (φ : R.Fault) (s : Store) (req : HostRegisterRequest) (cfg : BrokerConfig) (now : ℕ)
      (j : Array32)
      → Registers req.body now j s (register φ s req cfg now)
  unfolding register
  register-Registers φ s req cfg now j = ground (arith, register_txn-Registers φ s req.body now j)

module _ ⦃C : Primitives⦄ ⦃R : Redb⦄ where
  heartbeat_known-Beats :
      (φ : R.Fault) (s : Store) (req : HeartbeatRequest) (now : ℕ) (cfg : BrokerConfig)
      (j : Array32) (known : Result BrokerError (Option HostRow))
      → Beats cfg now req.body j s (heartbeat_known φ s req now cfg known)
  unfolding heartbeat_known
  heartbeat_known-Beats φ s req now cfg j (err e) = refl
  heartbeat_known-Beats φ s req now cfg j (ok none) = refl
  heartbeat_known-Beats φ s req now cfg j (ok (some known)) =
      ground (arith, heartbeat_txn-Beats φ s cfg now req.body j)

  -- A heartbeat that is accepted is of a known host, has a higher counter than the one on record,
  -- and advances the row of this host alone; the answer tells whether the row is active then. One
  -- that is refused, or that a storage fault stops, changes nothing.
  pub heartbeat-Beats :
      (ψ φ : R.Fault) (seen s : Store) (req : HeartbeatRequest) (now : ℕ) (cfg : BrokerConfig)
      (j : Array32)
      → Beats cfg now req.body j s (heartbeat ψ φ seen s req now cfg)
  unfolding heartbeat
  heartbeat-Beats ψ φ seen s req now cfg j = ground (
    arith,
    heartbeat_known-Beats φ s req now cfg j
        (with_read ψ (λ r. get_row ψ r.hosts req.body.host_account) seen),
  )
