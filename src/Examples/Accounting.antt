-- ===== src/Examples/Accounting.antt =====
-- Runs of the accounting: the ledger, the spends, the receipts and the trials.
use lluma.Common.{
  ℕ, ◌≡◌, ◌≢◌, ◌⊎◌, refl, true, some, none, ok, err, if◌then◌else◌, ◌==◌, ◌+◌, min, ◌≤◌, arith,
}
use lluma.Core.Wire.{be_bytes}
use lluma.Core.Proto.{
  validate_receipt_submit, validate_trial_register_request, validate_heartbeat_request,
  validate_host_register_request,
}
use lluma.Broker.Address.{ingress_addr_ok}
use lluma.Crypto.Account.{
  host_register_verify, heartbeat_verify, receipt_verify, account_fingerprint, verify_with,
  verifying_key, canonical,
}
use lluma.Crypto.Pow.{pow_verify}
use lluma.Issuer.Error.{insufficient_credits}
use lluma.Broker.Config.{for_test}
use lluma.Broker.Store.{empty_store, HostRow, ReceiptRow, with_write, with_read, get_row, put_row}
use lluma.Broker.Ledger
use lluma.Broker.Ledger.Books.{debit_rows, row_of}
use lluma.Broker.Spent.{is_some}
use lluma.Broker.Redeem.{redeem, newly_spent}
use lluma.Broker.Receipts.{ingest, credited, credited_receipt}
use lluma.Broker.Trial.{grant_trial, granted}
use lluma.Broker.Registry.{register, heartbeat}
use lluma.Broker.Run.{run, step, perform}
use lluma.Broker.Run.Admission.{slow_admission}
use lluma.Broker.Run.Invariant.{IsSound}
use lluma.Broker.Run.Steps.{run-IsSound}
use lluma.Broker.Run.Histories.{no_double_spend, no_second_credit, no_second_trial}
use lluma.Examples.Database.{database}
use lluma.Examples.Instances.{primitives, parsers}
use lluma.Examples.Samples.{
  ready, burned, submit, trial_request, some_events, admission, admitted_row,
}

-- The first run of each operation succeeds.
redeem_fresh : (redeem true ready 1 7 5).0 ≡ ok newly_spent
unfolding redeem with_write get_row put_row
redeem_fresh = refl

ingest_fresh : (ingest true burned submit for_test).0 ≡ ok credited
unfolding ingest with_write get_row put_row validate_receipt_submit receipt_verify verify_with
    verifying_key canonical be_bytes account_fingerprint
ingest_fresh = refl

trial_fresh : (grant_trial true ready trial_request for_test 4).0 ≡ ok granted
unfolding grant_trial with_write get_row put_row validate_trial_register_request pow_verify be_bytes
    account_fingerprint
trial_fresh = refl

run-IsSound_example : IsSound for_test (run for_test empty_store some_events)
run-IsSound_example = run-IsSound for_test some_events

no_double_spend_example :
    (redeem true (run for_test (redeem true ready 1 7 5).1 some_events) 2 7 6).0 ≢ ok newly_spent
no_double_spend_example =
    no_double_spend for_test true true ready 1 2 7 5 6 some_events redeem_fresh

no_second_credit_example :
    (ingest true
      (run for_test (ingest true burned submit for_test).1 some_events)
      submit
      for_test).0
    ≢ ok credited
no_second_credit_example =
    no_second_credit for_test true true burned submit submit some_events refl ingest_fresh

no_second_trial_example :
    (grant_trial true
      (run for_test (grant_trial true ready trial_request for_test 4).1 some_events)
      trial_request
      for_test
      5).0
    ≢ ok granted
no_second_trial_example =
    no_second_trial for_test true true ready trial_request trial_request 4 5 some_events refl
      trial_fresh

credited_receipt_example :
    (receipt_verify (be_bytes 32 5) submit.body submit.sig ≡ ok tt)
    × (2 ≤ 4)
    × (is_some (database.rows HostRow burned.hosts 5) ≡ true)
    × (is_some (database.rows ℕ burned.spent 7) ≡ true)
    × (database.rows ℕ burned.spend_host 7 ≡ some 5)
    × (database.rows ReceiptRow burned.receipts 7 ≡ none)
    × (database.rows ReceiptRow (ingest true burned submit for_test).1.receipts 7
        ≡ some (record {
          host_account = 5;
          model_id = submit.body.model_id;
          tier = submit.body.tier;
          units = 2;
          epoch = submit.body.epoch;
          timestamp_h = submit.body.timestamp_h;
          sig = submit.sig;
        }))
    × (row_of (ingest true burned submit for_test).1 32 ≡ (
        if primitives.blake3 (be_bytes 32 5) == 32
        then record {
          balance = min ((row_of burned 32).balance + 1) 18446744073709551615;
          earned = min ((row_of burned 32).earned + 1) 18446744073709551615;
          spent = (row_of burned 32).spent;
        }
        else row_of burned 32))
credited_receipt_example = credited_receipt true burned submit for_test 32 ingest_fresh

debit_rows_example :
    let (r, s') = Ledger.debit true ready 32 4 in
    ((r ≡ ok tt)
      × (4 ≤ 10)
      × (row_of s' 32 ≡ (
          if 32 == 32
          then record (row_of ready 32) { balance = 6; spent = 4 }
          else row_of ready 32)))
    ⊎ ((r ≡ err insufficient_credits) × (s' ≡ ready))
debit_rows_example = debit_rows true ready 32 4 32

admitted_after_three :
    database.rows HostRow (run for_test empty_store admission).hosts 5 ≡ some admitted_row
unfolding run step perform register heartbeat with_write with_read get_row put_row empty_store
    validate_heartbeat_request validate_host_register_request host_register_verify be_bytes
    pow_verify ingress_addr_ok heartbeat_verify
admitted_after_three = refl

absent_before : database.rows HostRow empty_store.hosts 5 ≡ none
unfolding empty_store
absent_before = refl

slow_admission_example : 90 ≤ 120
slow_admission_example =
    slow_admission for_test 5 0 empty_store admission admitted_row
      (omega arith, (omega arith, (omega arith, (omega arith, tt)))) absent_before
      admitted_after_three refl

-- Spend 7 is not burned in this store.
unburned : (ingest true ready submit for_test).0 ≢ ok credited
unfolding ingest with_write get_row put_row validate_receipt_submit receipt_verify verify_with
    verifying_key canonical be_bytes account_fingerprint
unburned = λ e. cc e
