-- ===== src/Broker/Redeem.antt =====
-- crates/lluma-broker/src/service.rs: the transaction by which `exec` spends a token, and the host
-- that it resolves.
use lluma.Common.{
  ℕ, ◌≡◌, ◌≤◌, Option, none, some, String, Result, ok, err, ensure, ◌>>=◌, ◌>>◌, ◌==◌,
  if◌then◌else◌, arith, refl, saturating_add,
}
use lluma.Core.Wire.{Array32, SpendId}
use lluma.Broker.Config.{BrokerError, storage}
use lluma.Broker.Db.{Redb}
use lluma.Broker.Store.{
  Store, HostRow, host_active, get_row, put_row, with_write, with_read, with_write_cases,
  get_row_cases, put_row_cases,
}
use lluma.Broker.Counters.{note_redeem_txn, counts_of}

pub data SpendOutcome : Type 0 where
  newly_spent already_spent : SpendOutcome

module _ ⦃R : Redb⦄ where
  -- The writes of the spend: SPENT, SPEND_HOST and the counter of redeemed tokens. A counter that
  -- passes what was issued fails the transaction.
  spend_txn : R.Fault → ℕ → SpendId → Array32 → Store → Result BrokerError (SpendOutcome × Store)
  unfolding note_redeem_txn
  spend_txn φ epoch spend_id host_account s = do
    t ← put_row φ s.spent spend_id epoch
    let s1 = record s { spent = t }
    h ← put_row φ s1.spend_host spend_id host_account
    let s2 = record s1 { spend_host = h }
    noted ← note_redeem_txn φ s2 epoch
    ensure noted.0 storage
    ok (newly_spent, noted.1)

  spend_unless_spent :
      R.Fault → ℕ → SpendId → Array32 → Store → Option ℕ → Result BrokerError (SpendOutcome × Store)
  unfolding spend_txn
  spend_unless_spent φ epoch spend_id host_account s (some e) = ok (already_spent, s)
  spend_unless_spent φ epoch spend_id host_account s none =
      spend_txn φ epoch spend_id host_account s

  redeem_body : R.Fault → ℕ → SpendId → Array32 → Store → Result BrokerError (SpendOutcome × Store)
  unfolding spend_unless_spent
  redeem_body φ epoch spend_id host_account s = do
    got ← get_row φ s.spent spend_id
    spend_unless_spent φ epoch spend_id host_account s got

  -- `st.store.with_write(..)` in `exec`
  unfoldable pub redeem :
      R.Fault → Store → ℕ → SpendId → Array32 → Result BrokerError SpendOutcome × Store
  unfolding redeem_body
  redeem φ s epoch spend_id host_account =
      with_write φ (redeem_body φ epoch spend_id host_account) s

  abbrev active_addr : Option HostRow → Option String
  active_addr none = none
  active_addr (some row) = if row.status == host_active then some row.ingress_addr else none

  unfoldable pub resolve_active_host :
      R.Fault → Store → Array32 → Result BrokerError (Option String)
  resolve_active_host φ s host_account =
      with_read φ (λ s. do got ← get_row φ s.hosts host_account; ok (active_addr got)) s

  -- What a redeem has done, seen at an id `j` and an epoch `k`.
  abbrev pub Redeems :
      ℕ → SpendId → Array32 → SpendId → ℕ → Store → Result BrokerError SpendOutcome × Store → Type 0
  Redeems epoch id host j k s (err e, s') = s' ≡ s
  Redeems epoch id host j k s (ok already_spent, s') = s' ≡ s
  Redeems epoch id host j k s (ok newly_spent, s') =
      (R.rows ℕ s.spent id ≡ none)
      × (R.rows ℕ s'.spent j ≡ (if id == j then some epoch else R.rows ℕ s.spent j))
      × (R.rows Array32 s'.spend_host j
          ≡ (if id == j then some host else R.rows Array32 s.spend_host j))
      × (counts_of s' k ≡ (
          if epoch == k
          then record (counts_of s epoch) {
            redeemed = saturating_add (counts_of s epoch).redeemed 1;
          }
          else counts_of s k))
      × ((counts_of s' epoch).redeemed ≤ (counts_of s' epoch).issued)
      × (s' ≡ record s { spent = s'.spent; spend_host = s'.spend_host; counters = s'.counters })

  pub redeem-Redeems :
      (φ : R.Fault) (s : Store) (epoch : ℕ) (id : SpendId) (host : Array32) (j : SpendId) (k : ℕ)
      → Redeems epoch id host j k s (redeem φ s epoch id host)
  unfolding redeem
  redeem-Redeems φ s epoch id host j k =
      with_write_cases (Redeems epoch id host j k s) φ (redeem_body φ epoch id host) s (λ e. refl)
        λ o s' h. ground (
          arith,
          get_row_cases φ s.spent id,
          put_row_cases φ s.spent id epoch j,
          put_row_cases φ s.spend_host id host j,
          get_row_cases φ s.counters epoch,
          put_row_cases φ s.counters epoch
              (record (counts_of s epoch) {
                redeemed = saturating_add (counts_of s epoch).redeemed 1;
              })
              k,
          put_row_cases φ s.counters epoch
              (record (counts_of s epoch) {
                redeemed = saturating_add (counts_of s epoch).redeemed 1;
              })
              epoch,
        )
