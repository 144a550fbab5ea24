-- ===== src/Broker/Ledger.antt =====
-- crates/lluma-broker/src/ledger.rs: the durable credit ledger.
pub mod Books
pub mod Contract
pub mod Conservation
use lluma.Common.{
  ℕ, ◌-◌, Bool, Option, none, some, leb, if◌then◌else◌, Result, ok, err, ◌>>=◌, saturating_add,
}
use lluma.Core.Wire.{AccountId}
use lluma.Issuer.Error.{IssuerError, insufficient_credits}
use lluma.Broker.Config.{BrokerError}
use lluma.Broker.Db.{Redb}
use lluma.Broker.Store.{
  Store, LedgerRow, no_credits, or_default, get_row, put_row, with_write, with_read,
}

-- `RedbLedger::grant` and `debit` on a row; an error leaves the row unwritten.
abbrev pub grant_row : ℕ → LedgerRow → Result IssuerError LedgerRow
grant_row amount row = ok (record row {
  balance = saturating_add row.balance amount;
  earned = saturating_add row.earned amount;
})

abbrev pub debit_row : ℕ → LedgerRow → Result IssuerError LedgerRow
debit_row amount row =
    if leb amount row.balance
    then ok (record row { balance = row.balance - amount; spent = saturating_add row.spent amount })
    else err insufficient_credits

module _ ⦃R : Redb⦄ where
  abbrev stored_balance : Option LedgerRow → ℕ
  stored_balance none = 0
  stored_balance (some row) = row.balance

  read_balance : R.Fault → Store → AccountId → Result BrokerError ℕ
  read_balance φ s account =
      with_read φ (λ s. do got ← get_row φ s.ledger account; ok (stored_balance got)) s

  -- The row is written back only where the caller's function succeeds.
  write_outcome :
      R.Fault
      → Store
      → AccountId
      → Result IssuerError LedgerRow
      → Result BrokerError (Result IssuerError (Unit {0}) × Store)
  write_outcome φ s account (err e) = ok (err e, s)
  write_outcome φ s account (ok row) = do
    t ← put_row φ s.ledger account row
    ok (ok tt, record s { ledger = t })

  -- The closure that `mutate` runs in its transaction.
  mutate_body :
      R.Fault
      → AccountId
      → (LedgerRow → Result IssuerError LedgerRow)
      → Store
      → Result BrokerError (Result IssuerError (Unit {0}) × Store)
  unfolding write_outcome
  mutate_body φ account f s = do
    got ← get_row φ s.ledger account
    write_outcome φ s account (f (or_default got no_credits))

  mutate :
      R.Fault
      → AccountId
      → (LedgerRow → Result IssuerError LedgerRow)
      → Store
      → Result BrokerError (Result IssuerError (Unit {0})) × Store
  unfolding mutate_body
  mutate φ account f s = with_write φ (mutate_body φ account f) s

  -- `unwrap_or_else(|_| 0)`
  pub balance : R.Fault → Store → AccountId → ℕ
  unfolding read_balance
  balance φ s account = elim (read_balance φ s account) [ ok b ↦ b | err e ↦ 0 ]

  pub grant : R.Fault → Store → AccountId → ℕ → Store
  unfolding mutate
  grant φ s account amount = (mutate φ account (grant_row amount) s).1

  -- A storage error is reported as a lack of credits.
  abbrev fail_closed :
      Result BrokerError (Result IssuerError (Unit {0})) → Result IssuerError (Unit {0})
  fail_closed (ok inner) = inner
  fail_closed (err e) = err insufficient_credits

  pub debit : R.Fault → Store → AccountId → ℕ → Result IssuerError (Unit {0}) × Store
  unfolding mutate
  debit φ s account amount =
      let (r, s') = mutate φ account (debit_row amount) s in (fail_closed r, s')
