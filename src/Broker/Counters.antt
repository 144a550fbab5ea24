-- ===== src/Broker/Counters.antt =====
-- crates/lluma-broker/src/counters.rs: the counters of each token epoch, and the tripwire.
use lluma.Common.{
  ℕ, ◌≡◌, Bool, leb, Result, ok, err, ◌>>=◌, saturating_add, arith, ◌==◌, if◌then◌else◌, refl,
}
use lluma.Broker.Config.{BrokerError}
use lluma.Broker.Db.{Redb}
use lluma.Broker.Store.{
  Store, CounterRow, no_counts, or_default, get_row, put_row, with_write, with_read,
  with_write_cases, get_row_cases, put_row_cases,
}

module _ ⦃R : Redb⦄ where
  -- `read_txn` and `read_ro`
  unfoldable pub read_txn : R.Fault → Store → ℕ → Result BrokerError CounterRow
  read_txn φ s epoch = do got ← get_row φ s.counters epoch; ok (or_default got no_counts)

  unfoldable pub write_txn : R.Fault → Store → ℕ → CounterRow → Result BrokerError Store
  write_txn φ s epoch row = do t ← put_row φ s.counters epoch row; ok (record s { counters = t })

  -- Reads a row, changes it, and writes it back.
  abbrev pub update_txn :
      R.Fault → ℕ → (CounterRow → CounterRow) → Store → Result BrokerError (Unit {0} × Store)
  update_txn φ epoch f s = do c ← read_txn φ s epoch; s' ← write_txn φ s epoch (f c); ok (tt, s')

  unfoldable pub bump_issued : R.Fault → Store → ℕ → ℕ → Result BrokerError (Unit {0}) × Store
  unfolding read_txn write_txn
  bump_issued φ s epoch n =
      with_write φ (update_txn φ epoch (λ c. record c { issued = saturating_add c.issued n })) s

  unfoldable pub bump_trial_granted :
      R.Fault → Store → ℕ → ℕ → Result BrokerError (Unit {0}) × Store
  unfolding read_txn write_txn
  bump_trial_granted φ s epoch n =
      with_write φ
        (update_txn φ epoch (λ c. record c { trial_granted = saturating_add c.trial_granted n })) s

  unfoldable pub note_redeem_txn : R.Fault → Store → ℕ → Result BrokerError (Bool × Store)
  unfolding read_txn write_txn
  note_redeem_txn φ s epoch = do
    c ← read_txn φ s epoch
    let c' = record c { redeemed = saturating_add c.redeemed 1 }
    s' ← write_txn φ s epoch c'
    ok (leb c'.redeemed c'.issued, s')

  unfoldable pub read : R.Fault → Store → ℕ → Result BrokerError CounterRow
  unfolding read_txn
  read φ s epoch = with_read φ (λ s. read_txn φ s epoch) s

  pub invariant_holds : R.Fault → Store → ℕ → Result BrokerError Bool
  unfolding read
  invariant_holds φ s epoch = do c ← read φ s epoch; ok (leb c.redeemed c.issued)

  abbrev pub counts_of : Store → ℕ → CounterRow
  counts_of s epoch = or_default (R.rows CounterRow s.counters epoch) no_counts

  -- Both bumps add to one counter of one epoch, up to the largest `u64`, or fail and change
  -- nothing.
  abbrev pub Updates :
      ℕ → ℕ → (CounterRow → CounterRow) → Store → Result BrokerError (Unit {0}) × Store → Type 0
  Updates epoch j f s (err e, s') = s' ≡ s
  Updates epoch j f s (ok u, s') =
      (counts_of s' j ≡ (if epoch == j then f (counts_of s epoch) else counts_of s j))
      × (s' ≡ record s { counters = s'.counters })

  update_txn-Updates :
      (φ : R.Fault) (epoch j : ℕ) (f : CounterRow → CounterRow) (s : Store)
      → Updates epoch j f s (with_write φ (update_txn φ epoch f) s)
  unfolding read_txn write_txn
  update_txn-Updates φ epoch j f s =
      with_write_cases (Updates epoch j f s) φ (update_txn φ epoch f) s (λ e. refl)
        λ u s' h. ground (
          arith,
          get_row_cases φ s.counters epoch,
          put_row_cases φ s.counters epoch (f (counts_of s epoch)) j,
        )

  pub bump_issued-Updates :
      (φ : R.Fault) (s : Store) (epoch n j : ℕ)
      → Updates epoch j
          (λ c. record c { issued = saturating_add c.issued n })
          s
          (bump_issued φ s epoch n)
  unfolding bump_issued
  bump_issued-Updates φ s epoch n j = update_txn-Updates φ epoch j _ s

  pub bump_trial_granted-Updates :
      (φ : R.Fault) (s : Store) (epoch n j : ℕ)
      → Updates epoch j
          (λ c. record c { trial_granted = saturating_add c.trial_granted n })
          s
          (bump_trial_granted φ s epoch n)
  unfolding bump_trial_granted
  bump_trial_granted-Updates φ s epoch n j = update_txn-Updates φ epoch j _ s

  -- A read that succeeds returns the counters of the epoch.
  pub read-counts :
      (φ : R.Fault) (s : Store) (epoch : ℕ) (c : CounterRow)
      → read φ s epoch ≡ ok c
      → c ≡ counts_of s epoch
  unfolding read read_txn with_read
  read-counts φ s epoch c h = ground (arith, get_row_cases φ s.counters epoch)
