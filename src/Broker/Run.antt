-- ===== src/Broker/Run.antt =====
-- crates/lluma-broker: every operation that writes the store, as one step function. The operations
-- come from concurrent requests; redb lets one write transaction in at a time, so what the store
-- goes through is a sequence of such steps, each in an environment and at a time of its own.
pub mod Invariant
pub mod Steps
pub mod Histories
pub mod Admission
use lluma.Common.{ℕ, ◌/◌, List, [], ◌∷◌}
use lluma.Core.Wire.{Array32, SpendId, AccountId}
use lluma.Core.Proto.{ReceiptSubmit, HostRegisterRequest, HeartbeatRequest, TrialRegisterRequest}
use lluma.Crypto.Primitives.{Primitives}
use lluma.Broker.Config.{BrokerConfig}
use lluma.Broker.Db.{Redb}
use lluma.Broker.Store.{Store}
use lluma.Broker.Address.{Parsers}
use lluma.Broker.Ledger
use lluma.Broker.Spent
use lluma.Broker.Counters.{bump_issued, bump_trial_granted}
use lluma.Broker.Redeem.{redeem}
use lluma.Broker.Receipts.{ingest}
use lluma.Broker.Trial.{grant_trial}
use lluma.Broker.Registry.{register, heartbeat, evict_stale}

module _ ⦃R : Redb⦄ where
  pub data Call : Type 0 where
    -- the transaction of `exec`, and the spent-set and the ledger as the issuer uses them
    redeems : SpendId → Array32 → Call
    inserts : ℕ → SpendId → Call
    grants debits : AccountId → ℕ → Call
    -- `counters::bump_issued` and `bump_trial_granted`
    issues counts_trial : ℕ → ℕ → Call
    ingests : ReceiptSubmit → Call
    registers : HostRegisterRequest → Call
    -- The store that the prefilter saw, and the request.
    beats : Store → HeartbeatRequest → Call
    evicts : Call
    trials : TrialRegisterRequest → Call

  pub record Event : Type 0 where
    pub read_fault : R.Fault
    pub write_fault : R.Fault
    pub now : ℕ
    pub call : Call

module _ ⦃C : Primitives⦄ ⦃R : Redb⦄ ⦃N : Parsers⦄ (cfg : BrokerConfig) where
  unfoldable pub perform : R.Fault → R.Fault → ℕ → Store → Call → Store
  perform ψ φ now s (redeems id host) = (redeem φ s cfg.epoch id host).1
  perform ψ φ now s (inserts epoch id) = (Spent.insert φ epoch s id).1
  perform ψ φ now s (grants a n) = Ledger.grant φ s a n
  perform ψ φ now s (debits a n) = (Ledger.debit φ s a n).1
  perform ψ φ now s (issues epoch n) = (bump_issued φ s epoch n).1
  perform ψ φ now s (counts_trial epoch n) = (bump_trial_granted φ s epoch n).1
  perform ψ φ now s (ingests submit) = (ingest φ s submit cfg).1
  perform ψ φ now s (registers req) = (register φ s req cfg now).1
  perform ψ φ now s (beats seen req) = (heartbeat ψ φ seen s req now cfg).1
  perform ψ φ now s evicts = (evict_stale φ s now cfg).1
  perform ψ φ now s (trials req) = (grant_trial φ s req cfg (now / 86400)).1

  unfoldable pub step : Store → Event → Store
  unfolding perform
  step s ev = perform ev.read_fault ev.write_fault ev.now s ev.call

  unfoldable pub run : Store → List Event → Store
  unfolding step
  run s [] = s
  run s (ev ∷ evs) = run (step s ev) evs
