-- ===== src/Broker/Ledger/Books.antt =====
-- crates/lluma-broker/src/ledger.rs: the durable ledger keeps the books of every account and fails
-- closed, and so meets the issuer's contract.
use lluma.Common.{
  ℕ_discrete, ℕ, subst, ok-injective, ap, sym, >>=-eq-ok, ◌-◌, ◌≤◌, ◌≡◌, ◌≢◌, refl, ◌⊎◌, inl, inr,
  ◌==◌, if◌then◌else◌, Result, ok, err, arith, saturating_add,
}
use lluma.Core.Wire.{AccountId}
use lluma.Issuer.Error.{IssuerError, insufficient_credits}
use lluma.Broker.Config.{BrokerError}
use lluma.Broker.Db.{Redb}
use lluma.Broker.Store.{
  Store, LedgerRow, no_credits, or_default, get_row, put_row, with_write_cases, get_row-rows,
  put_row-rows,
}
use lluma.Broker.Ledger.{grant_row, debit_row, mutate, mutate_body, write_outcome, grant, debit}

module _ ⦃R : Redb⦄ where
  -- The row of an account, and its balance.
  abbrev pub row_of : Store → AccountId → LedgerRow
  row_of s a = or_default (R.rows LedgerRow s.ledger a) no_credits

  -- What a call of `mutate` has done, by its result.
  abbrev Mutates :
      AccountId
      → (LedgerRow → Result IssuerError LedgerRow)
      → Store
      → Result BrokerError (Result IssuerError (Unit {0})) × Store
      → Type 0
  Mutates a f s (err e, s') = s' ≡ s
  Mutates a f s (ok (err e), s') = (s' ≡ s) × (f (row_of s a) ≡ err e)
  Mutates a f s (ok (ok u), s') =
      (f (row_of s a) ≡ ok (row_of s' a)) × ((b : AccountId) → a ≢ b → row_of s' b ≡ row_of s b)

  write_outcome-Mutates :
      (φ : R.Fault) (a : AccountId) (f : LedgerRow → Result IssuerError LedgerRow) (s : Store)
      (o : Result IssuerError LedgerRow) (r : Result IssuerError (Unit {0})) (s' : Store)
      → f (row_of s a) ≡ o
      → write_outcome φ s a o ≡ ok (r, s')
      → Mutates a f s (ok r, s')
  unfolding write_outcome
  write_outcome-Mutates φ a f s (err e) (err e') s' fe h = ground arith
  write_outcome-Mutates φ a f s (err e) (ok u) s' fe h = cc
  write_outcome-Mutates φ a f s (ok row) r s' fe h =
      let (t, put, same) = >>=-eq-ok (put_row φ s.ledger a row) _ h in
      let rows = put_row-rows φ s.ledger t a row put in
      subst (λ p. Mutates a f s (ok p.0, p.1)) (ok-injective same)
        (ground (arith, rows a), λ b ne. ground (arith, rows b))

  mutate_body-Mutates :
      (φ : R.Fault) (a : AccountId) (f : LedgerRow → Result IssuerError LedgerRow) (s : Store)
      (r : Result IssuerError (Unit {0})) (s' : Store)
      → mutate_body φ a f s ≡ ok (r, s')
      → Mutates a f s (ok r, s')
  unfolding mutate_body
  mutate_body-Mutates φ a f s r s' h =
      let (got, e, h') = >>=-eq-ok (get_row φ s.ledger a) _ h in
      write_outcome-Mutates φ a f s (f (or_default got no_credits)) r s'
        (ap (λ o. f (or_default o no_credits)) (sym (get_row-rows φ s.ledger a got e))) h'

  mutate-Mutates :
      (φ : R.Fault) (a : AccountId) (f : LedgerRow → Result IssuerError LedgerRow) (s : Store)
      → Mutates a f s (mutate φ a f s)
  unfolding mutate
  mutate-Mutates φ a f s =
      with_write_cases (Mutates a f s) φ (mutate_body φ a f) s (λ e. refl)
        (λ r s' h. mutate_body-Mutates φ a f s r s' h)

  pub debit_all_or_nothing :
      (φ : R.Fault) (s : Store) (a : AccountId) (n : ℕ)
      → let (r, s') = debit φ s a n in
        ((r ≡ ok tt)
          × (n ≤ (row_of s a).balance)
          × (row_of s' a ≡ record (row_of s a) {
            balance = (row_of s a).balance - n;
            spent = saturating_add (row_of s a).spent n;
          })
          × ((b : AccountId) → a ≢ b → row_of s' b ≡ row_of s b))
        ⊎ ((r ≡ err insufficient_credits) × (s' ≡ s))
  unfolding debit
  debit_all_or_nothing φ s a n = ground (arith, mutate-Mutates φ a (debit_row n) s)

  -- A debit that succeeds was covered by the balance, takes the amount from it, adds it to what the
  -- account has spent, up to the largest `u64`, and leaves every other account alone. One that fails,
  -- for lack of credits or by a storage fault, is reported as a lack of credits and changes nothing.
  pub debit_rows :
      (φ : R.Fault) (s : Store) (a : AccountId) (n : ℕ) (b : AccountId)
      → let (r, s') = debit φ s a n in
        ((r ≡ ok tt)
          × (n ≤ (row_of s a).balance)
          × (row_of s' b ≡ (
              if a == b
              then record (row_of s a) {
                balance = (row_of s a).balance - n;
                spent = saturating_add (row_of s a).spent n;
              }
              else row_of s b)))
        ⊎ ((r ≡ err insufficient_credits) × (s' ≡ s))
  debit_rows φ s a n b = elim (debit_all_or_nothing φ s a n) [
    | inl (done, covered, self, others) ↦ inl (
      done,
      covered,
      elim (ℕ_discrete a b) [
        | yes e ↦ ground (arith, self, e, ap (λ c. row_of (debit φ s a n).1 c) e)
        | no ne ↦ ground (arith, others b ne, ne)
      ],
    )
    | inr (refused, same) ↦ inr (refused, same)
  ]

  -- A grant adds the amount, up to the largest `u64`, to the balance and to what the account has
  -- earned, and leaves every other account alone; a storage fault drops it whole.
  pub grant_adds_or_drops :
      (φ : R.Fault) (s : Store) (a : AccountId) (n : ℕ)
      → ((row_of (grant φ s a n) a ≡ record (row_of s a) {
        balance = saturating_add (row_of s a).balance n;
        earned = saturating_add (row_of s a).earned n;
      })
          × ((b : AccountId) → a ≢ b → row_of (grant φ s a n) b ≡ row_of s b))
        ⊎ (grant φ s a n ≡ s)
  unfolding grant
  grant_adds_or_drops φ s a n = ground (arith, mutate-Mutates φ a (grant_row n) s)

  mutate_frame :
      (φ : R.Fault) (a : AccountId) (f : LedgerRow → Result IssuerError LedgerRow) (s : Store)
      → (mutate φ a f s).1 ≡ record s { ledger = (mutate φ a f s).1.ledger }
  unfolding mutate mutate_body write_outcome
  mutate_frame φ a f s =
      with_write_cases (λ p. p.1 ≡ record s { ledger = p.1.ledger }) φ (mutate_body φ a f) s
        (λ e. refl) (λ r s' h. ground arith)

  -- The ledger writes no table but its own.
  pub grant_frame :
      (φ : R.Fault) (s : Store) (a : AccountId) (n : ℕ)
      → grant φ s a n ≡ record s { ledger = (grant φ s a n).ledger }
  unfolding grant
  grant_frame φ s a n = mutate_frame φ a (grant_row n) s

  pub debit_frame :
      (φ : R.Fault) (s : Store) (a : AccountId) (n : ℕ)
      → (debit φ s a n).1 ≡ record s { ledger = (debit φ s a n).1.ledger }
  unfolding debit
  debit_frame φ s a n = mutate_frame φ a (debit_row n) s
