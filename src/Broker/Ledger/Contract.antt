-- ===== src/Broker/Ledger/Contract.antt =====
-- crates/lluma-broker/src/ledger.rs: `impl CreditLedger for RedbLedger` meets the issuer's contract.
use lluma.Common.{ℕ, ◌-◌, ◌≤◌, ◌≡◌, ◌≢◌, ◌⊎◌, inl, inr, ap, ok, err, arith, saturating_add}
use lluma.Core.Wire.{AccountId}
use lluma.Issuer.Error.{IssuerError, insufficient_credits}
use lluma.Issuer.Ledger.{CreditLedger}
use lluma.Broker.Db.{Redb, IsHealthy}
use lluma.Broker.Store.{Store, LedgerRow, with_write, get_row, put_row}
use lluma.Broker.Ledger.{balance, grant, debit, mutate}
use lluma.Broker.Ledger.Books.{row_of, debit_all_or_nothing, grant_adds_or_drops}

module _ ⦃R : Redb⦄ where
  abbrev pub balance_view : Store → AccountId → ℕ
  balance_view s a = (row_of s a).balance

  pub grant_self :
      (φ : R.Fault) (s : Store) (a : AccountId) (n : ℕ)
      → (balance_view (grant φ s a n) a ≡ saturating_add (balance_view s a) n)
        ⊎ (balance_view (grant φ s a n) a ≡ balance_view s a)
  grant_self φ s a n = elim (grant_adds_or_drops φ s a n) [
    | inl (self, others) ↦ inl (ap (λ r. r.balance) self)
    | inr same ↦ inr (ap (λ t. balance_view t a) same)
  ]

  pub grant_other :
      (φ : R.Fault) (s : Store) (a b : AccountId) (n : ℕ)
      → a ≢ b
      → balance_view (grant φ s a n) b ≡ balance_view s b
  grant_other φ s a b n ne = elim (grant_adds_or_drops φ s a n) [
    | inl (self, others) ↦ ap (λ r. r.balance) (others b ne)
    | inr same ↦ ap (λ t. balance_view t b) same
  ]

  pub debit-ok :
      (φ : R.Fault) (s : Store) (a : AccountId) (n : ℕ)
      → (debit φ s a n).0 ≡ ok tt
      → (n ≤ balance_view s a) × (balance_view (debit φ s a n).1 a ≡ balance_view s a - n)
  debit-ok φ s a n h = ground (arith, debit_all_or_nothing φ s a n)

  pub debit-err :
      (φ : R.Fault) (s : Store) (a : AccountId) (n : ℕ) (e : IssuerError)
      → (debit φ s a n).0 ≡ err e
      → (e ≡ insufficient_credits) × (balance_view (debit φ s a n).1 a ≡ balance_view s a)
  debit-err φ s a n e h = ground (arith, debit_all_or_nothing φ s a n)

  pub debit_other :
      (φ : R.Fault) (s : Store) (a b : AccountId) (n : ℕ)
      → a ≢ b
      → balance_view (debit φ s a n).1 b ≡ balance_view s b
  debit_other φ s a b n ne = elim (debit_all_or_nothing φ s a n) [
    | inl (done, le, self, others) ↦ ap (λ r. r.balance) (others b ne)
    | inr (refused, same) ↦ ap (λ t. balance_view t b) same
  ]

  abbrev pub redb_ledger : CreditLedger
  redb_ledger = record {
    State = Store;
    Env = R.Fault;
    view = balance_view;
    balance = balance;
    grant = grant;
    debit = debit;
    grant_self = grant_self;
    grant_other = grant_other;
    debit-ok = debit-ok;
    debit-err = debit-err;
    debit_other = debit_other;
  }

  -- Where nothing goes wrong, a debit succeeds exactly when the balance covers it.
  pub debit_healthy :
      (φ : R.Fault) (s : Store) (a : AccountId) (n : ℕ)
      → IsHealthy φ
      → n ≤ balance_view s a
      → (debit φ s a n).0 ≡ ok tt
  unfolding debit mutate with_write get_row put_row
  debit_healthy φ s a n well le = ground (
    arith,
    well.begins,
    well.commits,
    well.gets LedgerRow s.ledger a,
    well.inserts LedgerRow s.ledger a (record (row_of s a) {
      balance = (row_of s a).balance - n;
      spent = saturating_add (row_of s a).spent n;
    }),
  )
