-- ===== src/Broker/Spent.antt =====
-- crates/lluma-broker/src/spent.rs: the durable spent-set, the arbiter of double spends.
use lluma.Common.{
  ℕ, ◌≡◌, Bool, true, false, Option, none, some, Result, ok, err, ◌>>=◌, arith, ◌==◌, if◌then◌else◌,
  refl,
}
use lluma.Core.Wire.{SpendId}
use lluma.Issuer.SpentSet.{SpentSet, InsertOutcome, inserted, already_spent}
use lluma.Broker.Config.{BrokerError}
use lluma.Broker.Db.{Redb}
use lluma.Broker.Store.{
  Store, get_row, put_row, with_write, with_write_cases, get_row_cases, put_row_cases,
}

abbrev pub is_some {ℓ} : {A : Type ℓ} → Option A → Bool
is_some none = false
is_some (some a) = true

module _ ⦃R : Redb⦄ where
  insert_if_absent :
      R.Fault → ℕ → SpendId → Store → Option ℕ → Result BrokerError (InsertOutcome × Store)
  insert_if_absent φ epoch id s (some e) = ok (already_spent, s)
  insert_if_absent φ epoch id s none = do
    t ← put_row φ s.spent id epoch
    ok (inserted, record s { spent = t })

  try_insert_body : R.Fault → ℕ → SpendId → Store → Result BrokerError (InsertOutcome × Store)
  unfolding insert_if_absent
  try_insert_body φ epoch id s = do got ← get_row φ s.spent id; insert_if_absent φ epoch id s got

  try_insert : R.Fault → ℕ → Store → SpendId → Result BrokerError InsertOutcome × Store
  unfolding try_insert_body
  try_insert φ epoch s id = with_write φ (try_insert_body φ epoch id) s

  -- A storage error refuses the redeem.
  abbrev refuse : Result BrokerError InsertOutcome → InsertOutcome
  refuse (ok o) = o
  refuse (err e) = already_spent

  unfoldable pub insert : R.Fault → ℕ → Store → SpendId → InsertOutcome × Store
  unfolding try_insert
  insert φ epoch s id = let (r, s') = try_insert φ epoch s id in (refuse r, s')

  abbrev pub is_spent : Store → SpendId → Bool
  is_spent s k = is_some (R.rows ℕ s.spent k)

  abbrev Inserts : ℕ → SpendId → SpendId → Store → Result BrokerError InsertOutcome × Store → Type 0
  Inserts epoch id j s (err e, s') = s' ≡ s
  Inserts epoch id j s (ok already_spent, s') = s' ≡ s
  Inserts epoch id j s (ok inserted, s') =
      (R.rows ℕ s.spent id ≡ none)
      × (R.rows ℕ s'.spent j ≡ (if id == j then some epoch else R.rows ℕ s.spent j))
      × (s' ≡ record s { spent = s'.spent })

  try_insert-Inserts :
      (φ : R.Fault) (epoch : ℕ) (s : Store) (id j : SpendId)
      → Inserts epoch id j s (try_insert φ epoch s id)
  unfolding try_insert
  try_insert-Inserts φ epoch s id j =
      with_write_cases (Inserts epoch id j s) φ (try_insert_body φ epoch id) s (λ e. refl)
        λ o s' h. ground (arith, get_row_cases φ s.spent id, put_row_cases φ s.spent id epoch j)

  -- What an insert into the spent-set has done, seen at an id `j`.
  abbrev pub Spends : ℕ → SpendId → SpendId → Store → InsertOutcome × Store → Type 0
  Spends epoch id j s (already_spent, s') = s' ≡ s
  Spends epoch id j s (inserted, s') =
      (R.rows ℕ s.spent id ≡ none)
      × (R.rows ℕ s'.spent j ≡ (if id == j then some epoch else R.rows ℕ s.spent j))
      × (s' ≡ record s { spent = s'.spent })

  pub insert-Spends :
      (φ : R.Fault) (epoch : ℕ) (s : Store) (id j : SpendId)
      → Spends epoch id j s (insert φ epoch s id)
  unfolding insert
  insert-Spends φ epoch s id j = ground (arith, try_insert-Inserts φ epoch s id j)

  -- An id is accepted only where it was absent, and is then recorded under the epoch.
  pub insert-new :
      (φ : R.Fault) (epoch : ℕ) (s : Store) (k : SpendId)
      → (insert φ epoch s k).0 ≡ inserted
      → (is_spent s k ≡ false) × (is_spent (insert φ epoch s k).1 k ≡ true)
  unfolding insert
  insert-new φ epoch s k h = ground (arith, try_insert-Inserts φ epoch s k k)

  pub insert-refused :
      (φ : R.Fault) (epoch : ℕ) (s : Store) (k j : SpendId)
      → (insert φ epoch s k).0 ≡ already_spent
      → is_spent (insert φ epoch s k).1 j ≡ is_spent s j
  unfolding insert
  insert-refused φ epoch s k j h = ground (arith, try_insert-Inserts φ epoch s k j)

  pub insert-keeps :
      (φ : R.Fault) (epoch : ℕ) (s : Store) (k j : SpendId)
      → is_spent s j ≡ true
      → is_spent (insert φ epoch s k).1 j ≡ true
  unfolding insert
  insert-keeps φ epoch s k j h = ground (arith, try_insert-Inserts φ epoch s k j)

  -- `impl SpentSet for RedbSpentSet` meets the issuer's contract.
  abbrev pub redb_spent_set : ℕ → SpentSet
  redb_spent_set epoch = record {
    State = Store;
    Env = R.Fault;
    is_spent = is_spent;
    insert = λ φ. insert φ epoch;
    insert-new = λ φ. insert-new φ epoch;
    insert-refused = λ φ. insert-refused φ epoch;
    insert-keeps = λ φ. insert-keeps φ epoch;
  }
