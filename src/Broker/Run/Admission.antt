-- ===== src/Broker/Run/Admission.antt =====
-- crates/lluma-broker/src/registry.rs: how long it takes to be admitted, over every sequence of
-- operations whose clock does not go back.
use lluma.Common.{
  ℕ, zero, suc, ◌+◌, ◌*◌, ◌/◌, ◌≤◌, ◌≡◌, ◌≢◌, ◌⊎◌, inl, inr, Option, none, some, List, [], ◌∷◌,
  arith, u32_max, subst, sym, saturating_add32, Option-cases,
}
use lluma.Core.Wire.{Array32, HeartbeatBody}
use lluma.Core.Proto.{HostRegisterRequest, HeartbeatRequest}
use lluma.Crypto.Primitives.{Primitives}
use lluma.Broker.Config.{BrokerConfig}
use lluma.Broker.Db.{Redb}
use lluma.Broker.Store.{Store, HostRow, host_active}
use lluma.Broker.Address.{Parsers}
use lluma.Broker.Ledger.Books.{grant_frame, debit_frame}
use lluma.Broker.Spent
use lluma.Broker.Counters.{bump_issued-Updates, bump_trial_granted-Updates}
use lluma.Broker.Redeem.{redeem-Redeems}
use lluma.Broker.Receipts.{ingest-Ingests}
use lluma.Broker.Trial.{grant_trial-Grants}
use lluma.Broker.Registry.{register, heartbeat, evict_stale, beat_row}
use lluma.Broker.Registry.Rows.{register-Registers, heartbeat-Beats}
use lluma.Broker.Registry.Eviction.{evict_stale-Evicts}
use lluma.Broker.Run.{
  Call, redeems, inserts, grants, debits, issues, counts_trial, ingests, registers, beats, evicts,
  trials, Event, perform, step, run,
}

-- The clock of the events does not go back, and when it ends.
abbrev pub IsTimed : ⦃R : Redb⦄ → ℕ → List Event → Type 0
IsTimed lo [] = Unit
IsTimed lo (ev ∷ evs) = (lo ≤ ev.now) × IsTimed ev.now evs

abbrev pub last_time : ⦃R : Redb⦄ → ℕ → List Event → ℕ
last_time lo [] = lo
last_time lo (ev ∷ evs) = last_time ev.now evs

-- Each step of admission stands for a whole interval since `start`.
abbrev Paced : BrokerConfig → ℕ → ℕ → Option HostRow → Type 0
Paced cfg start now none = Unit
Paced cfg start now (some row) =
    (start + row.admit_progress * cfg.heartbeat_interval_s ≤ row.last_hb)
    × (row.last_hb ≤ now)
    × (row.admit_progress ≤ u32_max)
    × ((row.status ≢ host_active) ⊎ (cfg.admission_m ≤ row.admit_progress))

mul_mono : (a b i : ℕ) → a ≤ b → a * i ≤ b * i
mul_mono zero b i h = omega arith
mul_mono (suc a) zero i h = omega arith
mul_mono (suc a) (suc b) i h = omega (arith, mul_mono a b i (omega arith))

one_more : (p i : ℕ) → saturating_add32 p 1 * i ≤ p * i + i
one_more p i = omega (arith, mul_mono (saturating_add32 p 1) (p + 1) i (omega arith))

-- A heartbeat keeps the pace.
beat_row-Paced :
    (cfg : BrokerConfig) (start lo now : ℕ) (body : HeartbeatBody) (row : HostRow)
    → lo ≤ now
    → Paced cfg start lo (some row)
    → Paced cfg start now (some (beat_row cfg now body row))
beat_row-Paced cfg start lo now body row le h =
    ground (arith, h, le, one_more row.admit_progress cfg.heartbeat_interval_s)

Paced-later :
    (cfg : BrokerConfig) (start lo now : ℕ) (old : Option HostRow)
    → lo ≤ now
    → Paced cfg start lo old
    → Paced cfg start now old
Paced-later cfg start lo now none le h = tt
Paced-later cfg start lo now (some row) le h = ground (arith, h, le)

abbrev beaten : BrokerConfig → ℕ → HeartbeatBody → Option HostRow → Option HostRow
beaten cfg now body none = none
beaten cfg now body (some row) = some (beat_row cfg now body row)

beaten-Paced :
    (cfg : BrokerConfig) (start lo now : ℕ) (body : HeartbeatBody) (old : Option HostRow)
    → lo ≤ now
    → Paced cfg start lo old
    → Paced cfg start now (beaten cfg now body old)
beaten-Paced cfg start lo now body none le h = tt
beaten-Paced cfg start lo now body (some row) le h = beat_row-Paced cfg start lo now body row le h

module _ ⦃C : Primitives⦄ ⦃R : Redb⦄ ⦃N : Parsers⦄ (cfg : BrokerConfig) (j : Array32) where
  abbrev IsPaced : ℕ → ℕ → Store → Type 0
  IsPaced start now s = Paced cfg start now (R.rows HostRow s.hosts j)

  register-IsPaced :
      (φ : R.Fault) (req : HostRegisterRequest) (start lo now : ℕ) (s : Store)
      → start ≤ lo
      → lo ≤ now
      → IsPaced start lo s
      → IsPaced start now (register φ s req cfg now).1
  register-IsPaced φ req start lo now s first le h = ground (
    arith,
    first,
    le,
    register-Registers φ s req cfg now j,
    Paced-later cfg start lo now (R.rows HostRow s.hosts j) le h,
  )

  heartbeat-IsPaced :
      (ψ φ : R.Fault) (seen : Store) (req : HeartbeatRequest) (start lo now : ℕ) (s : Store)
      → lo ≤ now
      → IsPaced start lo s
      → IsPaced start now (heartbeat ψ φ seen s req now cfg).1
  heartbeat-IsPaced ψ φ seen req start lo now s le h = ground (
    arith,
    le,
    heartbeat-Beats ψ φ seen s req now cfg j,
    beaten-Paced cfg start lo now req.body (R.rows HostRow s.hosts j) le h,
    Paced-later cfg start lo now (R.rows HostRow s.hosts j) le h,
  )

  evict-IsPaced :
      (φ : R.Fault) (start lo now : ℕ) (s : Store)
      → lo ≤ now
      → IsPaced start lo s
      → IsPaced start now (evict_stale φ s now cfg).1
  evict-IsPaced φ start lo now s le h = elim (Option-cases (R.rows HostRow s.hosts j)) [
    | inl e ↦ ground (arith, e, evict_stale-Evicts φ s now cfg j)
    | inr (row, e) ↦ ground (
      arith,
      e,
      le,
      evict_stale-Evicts φ s now cfg j,
      Paced-later cfg start lo now (R.rows HostRow s.hosts j) le h,
    )
  ]

  perform-IsPaced :
      (ψ φ : R.Fault) (start lo now : ℕ) (s : Store) (call : Call)
      → start ≤ lo
      → lo ≤ now
      → IsPaced start lo s
      → IsPaced start now (perform cfg ψ φ now s call)
  unfolding perform
  perform-IsPaced ψ φ start lo now s (registers req) first le h =
      register-IsPaced φ req start lo now s first le h
  perform-IsPaced ψ φ start lo now s (beats seen req) first le h =
      heartbeat-IsPaced ψ φ seen req start lo now s le h
  perform-IsPaced ψ φ start lo now s evicts first le h = evict-IsPaced φ start lo now s le h
  perform-IsPaced ψ φ start lo now s (redeems id host) first le h =
      ground (arith, redeem-Redeems φ s cfg.epoch id host 0 0, Paced-later cfg start lo now _ le h)
  perform-IsPaced ψ φ start lo now s (inserts epoch id) first le h =
      ground (arith, Spent.insert-Spends φ epoch s id 0, Paced-later cfg start lo now _ le h)
  perform-IsPaced ψ φ start lo now s (grants a n) first le h =
      ground (arith, grant_frame φ s a n, Paced-later cfg start lo now _ le h)
  perform-IsPaced ψ φ start lo now s (debits a n) first le h =
      ground (arith, debit_frame φ s a n, Paced-later cfg start lo now _ le h)
  perform-IsPaced ψ φ start lo now s (issues epoch n) first le h =
      ground (arith, bump_issued-Updates φ s epoch n 0, Paced-later cfg start lo now _ le h)
  perform-IsPaced ψ φ start lo now s (counts_trial epoch n) first le h =
      ground (arith, bump_trial_granted-Updates φ s epoch n 0, Paced-later cfg start lo now _ le h)
  perform-IsPaced ψ φ start lo now s (ingests submit) first le h =
      ground (arith, ingest-Ingests φ s submit cfg 0 0, Paced-later cfg start lo now _ le h)
  perform-IsPaced ψ φ start lo now s (trials req) first le h = ground (
    arith,
    grant_trial-Grants φ s req cfg (now / 86400) 0 0 0 0,
    Paced-later cfg start lo now _ le h,
  )

  run-IsPaced :
      (start lo : ℕ) (s : Store) (evs : List Event)
      → start ≤ lo
      → IsTimed lo evs
      → IsPaced start lo s
      → IsPaced start (last_time lo evs) (run cfg s evs)
  unfolding run step
  run-IsPaced start lo s [] first timed h = h
  run-IsPaced start lo s (ev ∷ evs) first timed h =
      run-IsPaced start ev.now (step cfg s ev) evs (omega (arith, first, timed.0)) timed.1
        (perform-IsPaced ev.read_fault ev.write_fault start lo ev.now s ev.call first timed.0 h)

  -- Slow admission. A host that has no row at one time, and is active after any sequence of
  -- operations whose clock does not go back, has waited: `M` whole heartbeat intervals lie between
  -- the two times, however many heartbeats it sent and whatever it registered in between.
  pub slow_admission :
      (start : ℕ) (s : Store) (evs : List Event) (row : HostRow)
      → IsTimed start evs
      → R.rows HostRow s.hosts j ≡ none
      → R.rows HostRow (run cfg s evs).hosts j ≡ some row
      → row.status ≡ host_active
      → start + cfg.admission_m * cfg.heartbeat_interval_s ≤ last_time start evs
  slow_admission start s evs row timed absent present active = ground (
    arith,
    absent,
    present,
    active,
    run-IsPaced start start s evs (omega arith) timed
        (subst (Paced cfg start start) (sym absent) tt),
    mul_mono cfg.admission_m row.admit_progress cfg.heartbeat_interval_s,
  )
