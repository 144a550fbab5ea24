-- ===== src/Broker/Receipts.antt =====
-- crates/lluma-broker/src/receipts.rs: the ingest of usage receipts, which credits a host.
use lluma.Common.{
  ℕ, ◌+◌, min, ◌≡◌, ◌≢◌, ◌≤◌, Bool, true, false, Option, none, some, Result, ok, is_ok, ◌>>=◌, ◌==◌,
  ltb, not, if◌then◌else◌, arith, refl, saturating_add,
}
use lluma.Core.Wire.{Array32, AccountId, be_bytes}
use lluma.Core.Proto.{ReceiptSubmit, validate_receipt_submit}
use lluma.Crypto.Primitives.{Primitives}
use lluma.Crypto.Account.{receipt_verify, account_fingerprint}
use lluma.Broker.Config.{BrokerError, BrokerConfig}
use lluma.Broker.Db.{Redb}
use lluma.Broker.Store.{
  Store, HostRow, ReceiptRow, LedgerRow, no_credits, or_default, get_row, put_row, with_write,
  with_write_cases, get_row_cases, put_row_cases,
}
use lluma.Broker.Ledger.Books.{row_of}
use lluma.Broker.Spent.{is_some}

pub data IngestOutcome : Type 0 where
  credited already_credited unknown_host bad_request bad_signature no_burned_spend wrong_host
        over_cap :
      IngestOutcome

-- `bound == Some(host_account)`
abbrev is_bound_to : Option Array32 → Array32 → Bool
is_bound_to none host = false
is_bound_to (some h) host = h == host

-- The row that a receipt leaves.
abbrev pub receipt_row : ReceiptSubmit → ReceiptRow
receipt_row submit = record {
  host_account = submit.body.host_account;
  model_id = submit.body.model_id;
  tier = submit.body.tier;
  units = submit.body.units;
  epoch = submit.body.epoch;
  timestamp_h = submit.body.timestamp_h;
  sig = submit.sig;
}

abbrev pub credit_one : LedgerRow → LedgerRow
credit_one row = record row {
  balance = saturating_add row.balance 1;
  earned = saturating_add row.earned 1;
}

module _ ⦃R : Redb⦄ where
  -- Step (6): the record and the credit, of exactly 1.
  record_and_credit :
      R.Fault → ReceiptSubmit → AccountId → Store → Result BrokerError (IngestOutcome × Store)
  record_and_credit φ submit account_id s = do
    rs ← put_row φ s.receipts submit.body.spend_id (receipt_row submit)
    got ← get_row φ s.ledger account_id
    l ← put_row φ s.ledger account_id (credit_one (or_default got no_credits))
    ok (credited, record s { receipts = rs; ledger = l })

  -- The checks (1), (4), (5) and (6) under the writer, each with its early return.
  ingest_body :
      R.Fault → ReceiptSubmit → AccountId → Store → Result BrokerError (IngestOutcome × Store)
  unfolding record_and_credit
  ingest_body φ submit account_id s = do
    host ← get_row φ s.hosts submit.body.host_account
    if not (is_some host) then ok (unknown_host, s) else (do
      burned ← get_row φ s.spent submit.body.spend_id
      if not (is_some burned) then ok (no_burned_spend, s) else (do
        bound ← get_row φ s.spend_host submit.body.spend_id
        if not (is_bound_to bound submit.body.host_account) then ok (wrong_host, s) else (do
          old ← get_row φ s.receipts submit.body.spend_id
          if is_some old
              then ok (already_credited, s)
              else record_and_credit φ submit account_id s)))

  -- What the transaction of an ingest has done, seen at a spend id `j` and an account `a`.
  abbrev pub Ingests :
      ReceiptSubmit
      → AccountId
      → ℕ
      → AccountId
      → Store
      → Result BrokerError IngestOutcome × Store
      → Type 0
  Ingests submit account j a s (ok credited, s') =
      (is_some (R.rows HostRow s.hosts submit.body.host_account) ≡ true)
      × (is_some (R.rows ℕ s.spent submit.body.spend_id) ≡ true)
      × (R.rows Array32 s.spend_host submit.body.spend_id ≡ some submit.body.host_account)
      × (R.rows ReceiptRow s.receipts submit.body.spend_id ≡ none)
      × (R.rows ReceiptRow s'.receipts j ≡ (
          if submit.body.spend_id == j
          then some (receipt_row submit)
          else R.rows ReceiptRow s.receipts j))
      × (row_of s' a ≡ (if account == a then credit_one (row_of s account) else row_of s a))
      × (s' ≡ record s { receipts = s'.receipts; ledger = s'.ledger })
  Ingests submit account j a s (ok already_credited, s') =
      (is_some (R.rows ReceiptRow s.receipts submit.body.spend_id) ≡ true) × (s' ≡ s)
  Ingests submit account j a s (r, s') = s' ≡ s

  ingest_body-Ingests :
      (φ : R.Fault) (s : Store) (submit : ReceiptSubmit) (account : AccountId) (j : ℕ)
      (a : AccountId) (o : IngestOutcome) (s' : Store)
      → ingest_body φ submit account s ≡ ok (o, s')
      → Ingests submit account j a s (ok o, s')
  unfolding ingest_body
  ingest_body-Ingests φ s submit account j a o s' h = ground (
    arith,
    get_row_cases φ s.hosts submit.body.host_account,
    get_row_cases φ s.spent submit.body.spend_id,
    get_row_cases φ s.spend_host submit.body.spend_id,
    get_row_cases φ s.receipts submit.body.spend_id,
    put_row_cases φ s.receipts submit.body.spend_id (receipt_row submit) j,
    get_row_cases φ s.ledger account,
    put_row_cases φ s.ledger account (credit_one (row_of s account)) a,
  )

  ingest_txn-Ingests :
      (φ : R.Fault) (s : Store) (submit : ReceiptSubmit) (account : AccountId) (j : ℕ)
      (a : AccountId)
      → Ingests submit account j a s (with_write φ (ingest_body φ submit account) s)
  ingest_txn-Ingests φ s submit account j a =
      with_write_cases (Ingests submit account j a s) φ (ingest_body φ submit account) s (λ e. refl)
        λ o s' h. ingest_body-Ingests φ s submit account j a o s' h

module _ ⦃C : Primitives⦄ ⦃R : Redb⦄ where
  -- `account_fingerprint(&host_pk)`
  abbrev pub host_account_id : ReceiptSubmit → AccountId
  host_account_id submit = account_fingerprint (be_bytes 32 submit.body.host_account)

  unfoldable pub ingest :
      R.Fault → Store → ReceiptSubmit → BrokerConfig → Result BrokerError IngestOutcome × Store
  unfolding ingest_body
  ingest φ s submit cfg =
      if not (is_ok (validate_receipt_submit submit))
      then (ok bad_request, s)
      else if not
          (is_ok (receipt_verify (be_bytes 32 submit.body.host_account) submit.body submit.sig))
      then (ok bad_signature, s)
      else if ltb cfg.units_audit_cap submit.body.units
      then (ok over_cap, s)
      else with_write φ (ingest_body φ submit (host_account_id submit)) s

  pub ingest-Ingests :
      (φ : R.Fault) (s : Store) (submit : ReceiptSubmit) (cfg : BrokerConfig) (j : ℕ)
      (a : AccountId)
      → Ingests submit (host_account_id submit) j a s (ingest φ s submit cfg)
  unfolding ingest
  ingest-Ingests φ s submit cfg j a =
      ground (arith, ingest_txn-Ingests φ s submit (host_account_id submit) j a)

  -- A receipt is credited only if its host signed it, its units are within the audit cap, the host is
  -- registered, the spend was burned and was forwarded to this very host, and no receipt for the
  -- spend was credited before. The host's account then gains exactly one credit, whatever the units
  -- (unless its counters are at their largest), every other account keeps its row, and the receipt
  -- is on record.
  pub credited_receipt :
      (φ : R.Fault) (s : Store) (submit : ReceiptSubmit) (cfg : BrokerConfig) (a : AccountId)
      → (ingest φ s submit cfg).0 ≡ ok credited
      → let s' = (ingest φ s submit cfg).1 in
        let host = submit.body.host_account in
        let spend = submit.body.spend_id in
        (receipt_verify (be_bytes 32 host) submit.body submit.sig ≡ ok tt)
        × (submit.body.units ≤ cfg.units_audit_cap)
        × (is_some (R.rows HostRow s.hosts host) ≡ true)
        × (is_some (R.rows ℕ s.spent spend) ≡ true)
        × (R.rows Array32 s.spend_host spend ≡ some host)
        × (R.rows ReceiptRow s.receipts spend ≡ none)
        × (R.rows ReceiptRow s'.receipts spend
            ≡ some (record {
              host_account = host;
              model_id = submit.body.model_id;
              tier = submit.body.tier;
              units = submit.body.units;
              epoch = submit.body.epoch;
              timestamp_h = submit.body.timestamp_h;
              sig = submit.sig;
            }))
        × (row_of s' a ≡ (
            if C.blake3 (be_bytes 32 host) == a
            then record {
              balance = min ((row_of s a).balance + 1) 18446744073709551615;
              earned = min ((row_of s a).earned + 1) 18446744073709551615;
              spent = (row_of s a).spent;
            }
            else row_of s a))
  unfolding ingest account_fingerprint
  credited_receipt φ s submit cfg a h =
      ground (arith, ingest_txn-Ingests φ s submit (host_account_id submit) submit.body.spend_id a)

  -- A receipt that is not credited, whatever the reason, a storage fault included, changes nothing.
  pub uncredited_receipt :
      (φ : R.Fault) (s : Store) (submit : ReceiptSubmit) (cfg : BrokerConfig)
      → (ingest φ s submit cfg).0 ≢ ok credited
      → (ingest φ s submit cfg).1 ≡ s
  uncredited_receipt φ s submit cfg h = ground (arith, ingest-Ingests φ s submit cfg 0 0)
