-- ===== src/Broker/Store.antt =====
-- crates/lluma-broker/src/store.rs: the rows, the eight tables, and the transactions.
use lluma.Common.{
  ℕ, ◌≡◌, ◌==◌, Option, none, some, String, List, Bytes, Result, ok, err, ok_or, if◌then◌else◌,
  arith, Bool-cases, inl, inr, refl, ap, ◌⊎◌, Option-cases,
}
use lluma.Core.Wire.{Array32, ModelId}
use lluma.Broker.Config.{BrokerError, storage}
use lluma.Broker.Db.{Redb, IsAscending, find_row}

pub record HostRow : Type 0 where
  pub hpke_pk : Bytes
  pub ingress_addr : String
  pub models : List ModelId
  pub status : ℕ
  pub hb_counter : ℕ
  pub last_hb : ℕ
  pub load_bucket : ℕ
  pub admit_progress : ℕ

abbrev pub host_pending : ℕ
host_pending = 0

abbrev pub host_active : ℕ
host_active = 1

pub record ReceiptRow : Type 0 where
  pub host_account : Array32
  pub model_id : ModelId
  pub tier : ℕ
  pub units : ℕ
  pub epoch : ℕ
  pub timestamp_h : ℕ
  pub sig : Bytes

pub record CounterRow : Type 0 where
  pub issued : ℕ
  pub redeemed : ℕ
  pub trial_granted : ℕ

pub record LedgerRow : Type 0 where
  pub balance : ℕ
  pub earned : ℕ
  pub spent : ℕ

-- `CounterRow::default` and `LedgerRow::default`.
abbrev pub no_counts : CounterRow
no_counts = record { issued = 0; redeemed = 0; trial_granted = 0 }

abbrev pub no_credits : LedgerRow
no_credits = record { balance = 0; earned = 0; spent = 0 }

abbrev pub or_default {ℓ} : {A : Type ℓ} → Option A → A → A
or_default none d = d
or_default (some a) d = a

pub record Store ⦃R : Redb⦄ : Type 0 where
  pub spent : R.Table ℕ
  pub ledger : R.Table LedgerRow
  pub receipts : R.Table ReceiptRow
  pub hosts : R.Table HostRow
  pub counters : R.Table CounterRow
  pub trial_accts : R.Table ℕ
  pub trial_budget : R.Table ℕ
  pub spend_host : R.Table ℕ

module _ ⦃R : Redb⦄ where
  -- `Store::open` on a new file: every table exists and is empty.
  unfoldable pub empty_store : Store
  empty_store = record {
    spent = R.empty _;
    ledger = R.empty _;
    receipts = R.empty _;
    hosts = R.empty _;
    counters = R.empty _;
    trial_accts = R.empty _;
    trial_budget = R.empty _;
    spend_host = R.empty _;
  }

  -- A read and a write inside a transaction, with redb's error mapped to `Storage`.
  unfoldable pub get_row : {V : Type 0} → R.Fault → R.Table V → ℕ → Result BrokerError (Option V)
  get_row {V} φ t k = ok_or (R.get V φ t k) storage

  unfoldable pub put_row :
      {V : Type 0} → R.Fault → R.Table V → ℕ → V → Result BrokerError (R.Table V)
  put_row {V} φ t k v = ok_or (R.insert V φ t k v) storage

  unfoldable pub all_rows : {V : Type 0} → R.Fault → R.Table V → Result BrokerError (List (ℕ × V))
  all_rows {V} φ t = ok_or (R.iter V φ t) storage

  -- The end of a write transaction: what an error leaves is the store as it was.
  commit :
      {A : Type 0} → R.Fault → Store → Result BrokerError (A × Store) → Result BrokerError A × Store
  commit φ s (err e) = (err e, s)
  commit φ s (ok (a, s')) = if R.commits φ then (ok a, s') else (err storage, s)

  -- `Store::with_write`
  unfoldable pub with_write :
      {A : Type 0}
      → R.Fault
      → (Store → Result BrokerError (A × Store))
      → Store
      → Result BrokerError A × Store
  unfolding commit
  with_write φ f s = if R.begins φ then commit φ s (f s) else (err storage, s)

  -- `Store::with_read`
  unfoldable pub with_read :
      {A : Type 0} → R.Fault → (Store → Result BrokerError A) → Store → Result BrokerError A
  with_read φ f s = if R.begins φ then f s else err storage

  commit_cases {ℓ} :
      {A : Type 0} (P : Result BrokerError A × Store → Type ℓ) (φ : R.Fault) (s : Store)
      (r : Result BrokerError (A × Store))
      → ((e : BrokerError) → P (err e, s))
      → ((a : A) (s' : Store) → r ≡ ok (a, s') → P (ok a, s'))
      → P (commit φ s r)
  unfolding commit
  commit_cases P φ s (err e) failed done = failed e
  commit_cases P φ s (ok (a, s')) failed done = elim (Bool-cases (R.commits φ)) [
    | inl yes_ ↦ rw yes_ (done a s' refl)
    | inr no_ ↦ rw no_ (failed storage)
  ]

  -- A write transaction is all or nothing: what holds of every error with the store unchanged, and
  -- of what the body returns, holds of the transaction.
  pub with_write_cases {ℓ} :
      {A : Type 0} (P : Result BrokerError A × Store → Type ℓ) (φ : R.Fault)
      (f : Store → Result BrokerError (A × Store)) (s : Store)
      → ((e : BrokerError) → P (err e, s))
      → ((a : A) (s' : Store) → f s ≡ ok (a, s') → P (ok a, s'))
      → P (with_write φ f s)
  unfolding with_write
  with_write_cases P φ f s failed done = elim (Bool-cases (R.begins φ)) [
    | inl yes_ ↦ rw yes_ (commit_cases P φ s (f s) failed done)
    | inr no_ ↦ rw no_ (failed storage)
  ]

  -- What a read and a write that succeed say about the rows.
  pub get_row-rows :
      {V : Type 0} (φ : R.Fault) (t : R.Table V) (k : ℕ) (o : Option V)
      → get_row φ t k ≡ ok o
      → o ≡ R.rows V t k
  unfolding get_row
  get_row-rows {V} φ t k o h = R.get_rows V φ t k o (ground arith)

  pub put_row-rows :
      {V : Type 0} (φ : R.Fault) (t t' : R.Table V) (k : ℕ) (v : V)
      → put_row φ t k v ≡ ok t'
      → (j : ℕ) → R.rows V t' j ≡ (if k == j then some v else R.rows V t j)
  unfolding put_row
  put_row-rows {V} φ t t' k v h j = R.insert_rows V φ t t' k v (ground arith) j

  -- A read gives the row, or an error; a write gives a table with the one row changed, or an error.
  pub get_row_cases :
      {V : Type 0} (φ : R.Fault) (t : R.Table V) (k : ℕ)
      → (get_row φ t k ≡ ok (R.rows V t k)) ⊎ (get_row φ t k ≡ err storage)
  unfolding get_row
  get_row_cases {V} φ t k = elim (Option-cases (R.get V φ t k)) [
    | inl e ↦ inr (rw e)
    | inr (o, e) ↦ inl (rw e (ap ok (R.get_rows V φ t k o e)))
  ]

  pub put_row_cases :
      {V : Type 0} (φ : R.Fault) (t : R.Table V) (k : ℕ) (v : V) (j : ℕ)
      → ((t' : R.Table V) × (put_row φ t k v ≡ ok t')
          × (R.rows V t' j ≡ (if k == j then some v else R.rows V t j)))
        ⊎ (put_row φ t k v ≡ err storage)
  unfolding put_row
  put_row_cases {V} φ t k v j = elim (Option-cases (R.insert V φ t k v)) [
    | inl e ↦ inr (rw e)
    | inr (t', e) ↦ inl (t', rw e, R.insert_rows V φ t t' k v e j)
  ]

  pub all_rows-rows :
      {V : Type 0} (φ : R.Fault) (t : R.Table V) (es : List (ℕ × V))
      → all_rows φ t ≡ ok es
      → IsAscending 0 es × ((j : ℕ) → find_row j es ≡ R.rows V t j)
  unfolding all_rows
  all_rows-rows {V} φ t es h =
      let e : R.iter V φ t ≡ some es = ground arith in
      (R.iter-IsAscending V φ t es e, R.iter_rows V φ t es e)
