-- ===== src/Broker/Run/Invariant.antt =====
-- crates/lluma-broker: what holds of the store at all times.
use lluma.Common.{ℕ, ◌≤◌, ◌≡◌, true, Option, some, none, arith, ◌⊎◌, ◌≢◌, u32_max, u64_max}
use lluma.Core.Wire.{Array32}
use lluma.Broker.Config.{BrokerConfig}
use lluma.Broker.Db.{Redb}
use lluma.Broker.Store.{Store, HostRow, ReceiptRow, CounterRow, host_active, empty_store}
use lluma.Broker.Spent.{is_some}
use lluma.Broker.Counters.{counts_of}
use lluma.Broker.Trial.{granted_on}
use lluma.Broker.Ledger.Books.{row_of}
use lluma.Broker.Ledger.Conservation.{Balances}

-- A host is active only after its `M` steps of admission.
abbrev pub IsAdmitted : BrokerConfig → Option HostRow → Type 0
IsAdmitted cfg none = Unit
IsAdmitted cfg (some row) =
    (row.admit_progress ≤ u32_max)
    × ((row.status ≢ host_active) ⊎ (cfg.admission_m ≤ row.admit_progress))

abbrev pub IsWithin : CounterRow → Type 0
IsWithin row = (row.redeemed ≤ row.issued) × (row.issued ≤ u64_max)

-- A receipt on record stands for a spend that was bound to the host it credits.
abbrev pub IsBacked : Option ReceiptRow → Option Array32 → Type 0
IsBacked none host = Unit
IsBacked (some row) host = host ≡ some row.host_account

-- A bound spend is burned.
abbrev pub IsBurned : Option Array32 → Option ℕ → Type 0
IsBurned none epoch = Unit
IsBurned (some host) epoch = is_some epoch ≡ true

pub record IsSound ⦃R : Redb⦄ (cfg : BrokerConfig) (s : Store) : Type 0 where
  -- no epoch has more tokens redeemed than issued
  pub within_issued : (k : ℕ) → IsWithin (counts_of s k)
  pub burned : (j : ℕ) → IsBurned (R.rows Array32 s.spend_host j) (R.rows ℕ s.spent j)
  pub backed : (j : ℕ) → IsBacked (R.rows ReceiptRow s.receipts j) (R.rows Array32 s.spend_host j)
  -- every account holds what it earned less what it spent
  pub books : (a : ℕ) → Balances (row_of s a)
  -- no day grants more trial credits than the budget
  pub within_budget : (d : ℕ) → granted_on s d ≤ cfg.daily_trial_budget
  pub admitted : (j : ℕ) → IsAdmitted cfg (R.rows HostRow s.hosts j)

pub empty_store-IsSound : ⦃R : Redb⦄ → (cfg : BrokerConfig) → IsSound cfg empty_store
unfolding empty_store
empty_store-IsSound ⦃R⦄ cfg = record {
  within_issued = λ k. rw (R.empty_rows _ k) (ground arith);
  burned = λ j. rw (R.empty_rows _ j) tt;
  backed = λ j. rw (R.empty_rows _ j) tt;
  books = λ a. rw (R.empty_rows _ a) (ground arith);
  within_budget = λ d. rw (R.empty_rows _ d) (omega arith);
  admitted = λ j. rw (R.empty_rows _ j) tt;
}
