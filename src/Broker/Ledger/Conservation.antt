-- ===== src/Broker/Ledger/Conservation.antt =====
-- crates/lluma-broker/src/ledger.rs: credits are conserved in every account's row.
use lluma.Common.{
  ℕ, ◌+◌, ◌-◌, ◌≤◌, ◌≢◌, ℕ_discrete, ◌≡◌, ◌⊎◌, inl, inr, arith, u64_max, saturating_add, subst, sym,
}
use lluma.Core.Wire.{AccountId}
use lluma.Broker.Db.{Redb}
use lluma.Broker.Store.{Store, LedgerRow}
use lluma.Broker.Ledger.{grant, debit}
use lluma.Broker.Ledger.Books.{row_of, debit_all_or_nothing, grant_adds_or_drops}

-- What an account holds and has spent is what it has earned, until the counter of what it has
-- earned saturates; and it never holds more than it has earned.
abbrev pub Balances : LedgerRow → Type 0
Balances r =
    (r.earned ≤ u64_max)
    × (r.balance ≤ r.earned)
    × ((r.earned ≡ u64_max) ⊎ (r.balance + r.spent ≡ r.earned))

abbrev pub BooksBalance : ⦃R : Redb⦄ → Store → Type 0
BooksBalance ⦃R⦄ s = (a : AccountId) → Balances (row_of s a)

pub grant_row-Balances :
    (r : LedgerRow) (n : ℕ)
    → Balances r
    → Balances
        (record r { balance = saturating_add r.balance n; earned = saturating_add r.earned n })
grant_row-Balances r n h = ground arith

debit_row-Balances :
    (r : LedgerRow) (n : ℕ)
    → n ≤ r.balance
    → Balances r
    → Balances (record r { balance = r.balance - n; spent = saturating_add r.spent n })
debit_row-Balances r n le h = ground arith

module _ ⦃R : Redb⦄ where
  -- A new row for one account that balances, and the old rows for all others.
  updated-BooksBalance :
      (s s' : Store) (a : AccountId) (row : LedgerRow)
      → BooksBalance s
      → Balances row
      → row_of s' a ≡ row
      → ((b : AccountId) → a ≢ b → row_of s' b ≡ row_of s b)
      → BooksBalance s'
  updated-BooksBalance s s' a row h new self others b = elim (ℕ_discrete a b) [
    | yes e ↦ subst (λ c. Balances (row_of s' c)) e (subst Balances (sym self) new)
    | no ne ↦ subst Balances (sym (others b ne)) (h b)
  ]

  -- Every grant, dropped by a storage fault or not, keeps the books of every account.
  pub grant-BooksBalance :
      (φ : R.Fault) (s : Store) (a : AccountId) (n : ℕ)
      → BooksBalance s
      → BooksBalance (grant φ s a n)
  grant-BooksBalance φ s a n h = elim (grant_adds_or_drops φ s a n) [
    | inl (self, others) ↦
        updated-BooksBalance s (grant φ s a n) a _ h (grant_row-Balances (row_of s a) n (h a)) self
          others
    | inr same ↦ subst BooksBalance (sym same) h
  ]

  -- Every debit, successful, refused or failed, keeps the books of every account.
  pub debit-BooksBalance :
      (φ : R.Fault) (s : Store) (a : AccountId) (n : ℕ)
      → BooksBalance s
      → BooksBalance (debit φ s a n).1
  debit-BooksBalance φ s a n h = elim (debit_all_or_nothing φ s a n) [
    | inl (done, le, self, others) ↦
        updated-BooksBalance s (debit φ s a n).1 a _ h (debit_row-Balances (row_of s a) n le (h a))
          self others
    | inr (refused, same) ↦ subst BooksBalance (sym same) h
  ]
