-- ===== src/Broker/Trial.antt =====
-- crates/lluma-broker/src/trial.rs: the one trial grant of an account, under a daily budget.
use lluma.Common.{
  ℕ, ◌≡◌, ◌≤◌, Bool, true, false, none, some, Bytes, length, Result, ok, is_ok, ◌>>=◌, ◌==◌, ltb,
  not, ◌||◌, if◌then◌else◌, arith, refl, saturating_add,
}
use lluma.Core.Wire.{Array32, AccountId, be_bytes}
use lluma.Core.Proto.{TrialRegisterRequest, validate_trial_register_request}
use lluma.Crypto.Primitives.{Primitives}
use lluma.Crypto.Account.{account_fingerprint}
use lluma.Crypto.Pow.{pow_verify, pow_trial_domain}
use lluma.Broker.Config.{BrokerError, BrokerConfig}
use lluma.Broker.Db.{Redb}
use lluma.Broker.Store.{
  Store, LedgerRow, CounterRow, no_credits, no_counts, or_default, get_row, put_row, with_write,
  with_write_cases, get_row_cases, put_row_cases,
}
use lluma.Broker.Ledger.Books.{row_of}
use lluma.Broker.Counters.{counts_of}
use lluma.Broker.Spent.{is_some}

pub data TrialOutcome : Type 0 where
  granted already_granted budget_exhausted bad_pow bad_request : TrialOutcome

module _ ⦃C : Primitives⦄ where
  -- The work is accepted under the salt of this epoch or the one before.
  abbrev pub pow_ok : Bytes → BrokerConfig → Array32 → Bytes → Bool
  pow_ok domain cfg account_pk nonce =
      pow_verify domain account_pk nonce cfg.epoch_salt cfg.pow_difficulty
      || elim cfg.epoch_salt_prev [
        | none ↦ false
        | some prev ↦ pow_verify domain account_pk nonce prev cfg.pow_difficulty
      ]

  unfoldable pub trial_pow_ok : BrokerConfig → Array32 → Bytes → Bool
  trial_pow_ok cfg account_pk nonce = pow_ok pow_trial_domain cfg account_pk nonce

-- What the ledger and the counters gain.
abbrev pub grant_credits : ℕ → LedgerRow → LedgerRow
grant_credits n row = record row {
  balance = saturating_add row.balance n;
  earned = saturating_add row.earned n;
}

abbrev pub count_grant : ℕ → CounterRow → CounterRow
count_grant n row = record row { trial_granted = saturating_add row.trial_granted n }

module _ ⦃R : Redb⦄ where
  -- "Commit all four tables together."
  write_grant :
      R.Fault
      → Array32
      → AccountId
      → BrokerConfig
      → ℕ
      → ℕ
      → Store
      → Result BrokerError (TrialOutcome × Store)
  write_grant φ account account_id cfg day granted_today s = do
    ta ← put_row φ s.trial_accts account day
    tb ← put_row φ s.trial_budget day (saturating_add granted_today cfg.trial_grant)
    lrow ← get_row φ s.ledger account_id
    l ← put_row φ s.ledger account_id (grant_credits cfg.trial_grant (or_default lrow no_credits))
    crow ← get_row φ s.counters cfg.epoch
    c ← put_row φ s.counters cfg.epoch (count_grant cfg.trial_grant (or_default crow no_counts))
    ok (granted, record s { trial_accts = ta; trial_budget = tb; ledger = l; counters = c })

  grant_trial_body :
      R.Fault
      → Array32
      → AccountId
      → BrokerConfig
      → ℕ
      → Store
      → Result BrokerError (TrialOutcome × Store)
  unfolding write_grant
  grant_trial_body φ account account_id cfg day s = do
    had ← get_row φ s.trial_accts account
    if is_some had then ok (already_granted, s) else (do
      got ← get_row φ s.trial_budget day
      let granted_today = or_default got 0
      if ltb cfg.daily_trial_budget (saturating_add granted_today cfg.trial_grant)
          then ok (budget_exhausted, s)
          else write_grant φ account account_id cfg day granted_today s)

  -- The credits granted on a day.
  abbrev pub granted_on : Store → ℕ → ℕ
  granted_on s day = or_default (R.rows ℕ s.trial_budget day) 0

  -- What the transaction of a trial grant has done, seen at an account key `p`, a day `d`, a ledger
  -- account `a` and an epoch `k`.
  abbrev pub Grants :
      Array32
      → AccountId
      → BrokerConfig
      → ℕ
      → ℕ
      → ℕ
      → AccountId
      → ℕ
      → Store
      → Result BrokerError TrialOutcome × Store
      → Type 0
  Grants account id cfg day p d a k s (ok granted, s') =
      (R.rows ℕ s.trial_accts account ≡ none)
      × (R.rows ℕ s'.trial_accts p ≡ (if account == p then some day else R.rows ℕ s.trial_accts p))
      × (granted_on s' d ≡ (
          if day == d then saturating_add (granted_on s day) cfg.trial_grant else granted_on s d))
      × (saturating_add (granted_on s day) cfg.trial_grant ≤ cfg.daily_trial_budget)
      × (row_of s' a
          ≡ (if id == a then grant_credits cfg.trial_grant (row_of s id) else row_of s a))
      × (counts_of s' k ≡ (
          if cfg.epoch == k
          then count_grant cfg.trial_grant (counts_of s cfg.epoch)
          else counts_of s k))
      × (s' ≡ record s {
        trial_accts = s'.trial_accts;
        trial_budget = s'.trial_budget;
        ledger = s'.ledger;
        counters = s'.counters;
      })
  Grants account id cfg day p d a k s (ok already_granted, s') =
      (is_some (R.rows ℕ s.trial_accts account) ≡ true) × (s' ≡ s)
  Grants account id cfg day p d a k s (r, s') = s' ≡ s

  grant_trial_body-Grants :
      (φ : R.Fault) (s : Store) (account : Array32) (id : AccountId) (cfg : BrokerConfig)
      (day p d : ℕ) (a : AccountId) (k : ℕ) (o : TrialOutcome) (s' : Store)
      → grant_trial_body φ account id cfg day s ≡ ok (o, s')
      → Grants account id cfg day p d a k s (ok o, s')
  unfolding grant_trial_body
  grant_trial_body-Grants φ s account id cfg day p d a k o s' h = ground (
    arith,
    get_row_cases φ s.trial_accts account,
    get_row_cases φ s.trial_budget day,
    put_row_cases φ s.trial_accts account day p,
    put_row_cases φ s.trial_budget day (saturating_add (granted_on s day) cfg.trial_grant) d,
    get_row_cases φ s.ledger id,
    put_row_cases φ s.ledger id (grant_credits cfg.trial_grant (row_of s id)) a,
    get_row_cases φ s.counters cfg.epoch,
    put_row_cases φ s.counters cfg.epoch (count_grant cfg.trial_grant (counts_of s cfg.epoch)) k,
  )

  grant_trial_txn-Grants :
      (φ : R.Fault) (s : Store) (account : Array32) (id : AccountId) (cfg : BrokerConfig)
      (day p d : ℕ) (a : AccountId) (k : ℕ)
      → Grants account id cfg day p d a k s (with_write φ (grant_trial_body φ account id cfg day) s)
  grant_trial_txn-Grants φ s account id cfg day p d a k =
      with_write_cases (Grants account id cfg day p d a k s) φ
        (grant_trial_body φ account id cfg day) s (λ e. refl)
        λ o s' h. grant_trial_body-Grants φ s account id cfg day p d a k o s' h

module _ ⦃C : Primitives⦄ ⦃R : Redb⦄ where
  unfoldable pub grant_trial :
      R.Fault
      → Store
      → TrialRegisterRequest
      → BrokerConfig
      → ℕ
      → Result BrokerError TrialOutcome × Store
  unfolding grant_trial_body trial_pow_ok
  grant_trial φ s req cfg day =
      if not (is_ok (validate_trial_register_request req))
      then (ok bad_request, s)
      else if not (length req.pow_nonce == 8)
      then (ok bad_pow, s)
      else if not (trial_pow_ok cfg req.body.account req.pow_nonce)
      then (ok bad_pow, s)
      else with_write φ
          (grant_trial_body φ req.body.account (account_fingerprint (be_bytes 32 req.body.account))
            cfg day)
          s

  abbrev pub trial_account_id : TrialRegisterRequest → AccountId
  trial_account_id req = account_fingerprint (be_bytes 32 req.body.account)

  pub grant_trial-Grants :
      (φ : R.Fault) (s : Store) (req : TrialRegisterRequest) (cfg : BrokerConfig) (day p d : ℕ)
      (a : AccountId) (k : ℕ)
      → Grants req.body.account
          (trial_account_id req)
          cfg
          day
          p
          d
          a
          k
          s
          (grant_trial φ s req cfg day)
  unfolding grant_trial
  grant_trial-Grants φ s req cfg day p d a k =
      ground
        (arith, grant_trial_txn-Grants φ s req.body.account (trial_account_id req) cfg day p d a k)
