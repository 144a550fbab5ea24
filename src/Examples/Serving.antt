-- ===== src/Examples/Serving.antt =====
-- Runs of the handlers, the tunnel directory and the snapshot.
use lluma.Common.{
  ℕ, ◌≡◌, ◌/◌, ◌≢◌, refl, true, some, none, List, [], ◌∷◌, Bytes, ok, length, replicate, lookup,
  ct_eq, fold_diff, or, xor, assign,
}
use lluma.Core.Wire.{be_bytes, SnapshotHeader}
use lluma.Core.Proto.{
  ExecRequest, validate_exec_request, SnapshotResponse, validate_trial_register_request,
}
use lluma.Crypto.Tokens.{token_spend_id, token_verify, split_token}
use lluma.Crypto.Account.{
  account_public_from_secret, snapshot_sign, signing_key, sign_with, account_fingerprint,
}
use lluma.Crypto.Pow.{pow_verify}
use lluma.Broker.Config.{for_test}
use lluma.Broker.Store.{
  empty_store, HostRow, with_write, with_read, get_row, put_row, all_rows, Store,
}
use lluma.Broker.Redeem.{redeem, resolve_active_host}
use lluma.Broker.Trial.{grant_trial, already_granted}
use lluma.Broker.Tunnel.{
  TunnelRegistry, new, connect, reserve_tunnel, drop_guard, reserved, open_socket, insert, settle,
  update,
}
use lluma.Broker.Tunnel.Slots.{
  Reaches, starts, connects, reserves, drops, IsCounted, Reaches-IsCounted,
}
use lluma.Broker.Exec.{ExecJson, ExecSetup, Outside, refused, answered, check_exec, exec}
use lluma.Broker.Exec.Spending.{exec_once, exec-Spends, Spends}
use lluma.Broker.Exec.Guards.{exec-IsCounted}
use lluma.Broker.Snapshot.{
  build, publish, verify, seal, encode_and_pad, pad, to_le_bytes, copy_at, zeros, collect, entry_of,
}
use lluma.Broker.Snapshot.Published.{build_lists, publish-verifies, IsSorted, find_entry, published}
use lluma.Broker.Service.{
  ServiceJson, InvariantReport, admin_invariant, trial_register, trial_register_uniform,
}
use lluma.Broker.Counters.{bump_issued, read}
use lluma.Broker.Run.{run, step, perform, Event, issues}
use lluma.Broker.Snapshot
use lluma.Client.Verify.{verify_snapshot}
use lluma.Client.Snapshots.{verify_snapshot-verify, value}
use lluma.Examples.Database.{database}
use lluma.Examples.Instances.{primitives, parsers, blind_rsa}
use lluma.Examples.Samples.{ready, active_row, one_row, trial_request, some_events, event_at}

abbrev exec_request : ExecRequest
exec_request = record { key_id = 3; host_account = 5; token = replicate 320 1; sealed = 1 ∷ 2 ∷ [] }

abbrev exec_json : ExecJson
exec_json = record {
  exec_request = λ b. some exec_request;
  exec_response = λ r. some [];
  host_exec_request = λ r. some [];
}

abbrev setup : ExecSetup
setup = record { issuer_pk = []; key_id = 3; cfg = for_test }

abbrev outside : Outside
outside = record {
  read_fault = true;
  write_fault = true;
  seen = ready;
  tunnel_answer = none;
  post = λ addr b. some (record { is_success = true; bytes = some (7 ∷ []) });
}

checked : check_exec exec_json setup [] ≡ ok exec_request
unfolding check_exec validate_exec_request token_verify split_token
checked = refl

answer : (exec exec_json outside setup ready new []).0 ≡ answered (7 ∷ [])
unfolding exec check_exec validate_exec_request token_verify split_token redeem resolve_active_host
    with_read with_write get_row put_row reserve_tunnel lookup token_spend_id
answer = refl

exec_once_example :
    (exec exec_json outside setup
      (run for_test (exec exec_json outside setup ready new []).1 some_events)
      new
      []).0
    ≢ answered (7 ∷ [])
exec_once_example =
    exec_once exec_json outside outside setup ready new new [] [] (7 ∷ []) (7 ∷ []) exec_request
      exec_request some_events checked checked refl answer

exec-Spends_example :
    Spends outside setup exec_request ready (exec exec_json outside setup ready new [])
exec-Spends_example = exec-Spends exec_json outside setup ready new [] exec_request checked

-- Two hosts connect, a slot is reserved on each, and the first is given back.
abbrev two_hosts : TunnelRegistry
two_hosts = connect (connect new 5) 6

abbrev after_one : TunnelRegistry
after_one = (reserve_tunnel two_hosts 5).1

abbrev after_two : TunnelRegistry
after_two = (reserve_tunnel after_one 6).1

reserved_first : reserve_tunnel two_hosts 5 ≡ (reserved 0, after_one)
unfolding reserve_tunnel connect lookup open_socket insert settle update assign
reserved_first = refl

reserved_second : reserve_tunnel after_one 6 ≡ (reserved 1, after_two)
unfolding reserve_tunnel connect lookup open_socket insert settle update assign
reserved_second = refl

abbrev history : Reaches (drop_guard after_two 0) (1 ∷ [])
history =
    drops (1 ∷ []) [] 0
      (reserves 6 1 (reserves 5 0 (connects 6 (connects 5 starts)) reserved_first) reserved_second)

Reaches-IsCounted_example : IsCounted (drop_guard after_two 0) (1 ∷ [])
Reaches-IsCounted_example = Reaches-IsCounted (drop_guard after_two 0) (1 ∷ []) history

exec-IsCounted_example : IsCounted (exec exec_json outside setup ready new []).2 []
exec-IsCounted_example =
    exec-IsCounted exec_json outside setup ready new [] [] (Reaches-IsCounted new [] starts)

-- Host 5 reconnects, and its old socket is torn down.
abbrev reconnected : TunnelRegistry
reconnected = connect two_hosts 5

newer : lookup reconnected.sockets 5 ≡ some 2
unfolding reserve_tunnel connect lookup open_socket insert settle update assign
newer = refl

abbrev header : SnapshotHeader
header = record { epoch = 1; issued_at_h = 2; issuer_key_id = 3 }

built :
    build true ready header ≡ ok (record { header = header; hosts = entry_of 5 active_row ∷ [] })
unfolding build with_read all_rows collect
built = refl

build_lists_example :
    (header ≡ header)
    × IsSorted 0 (entry_of 5 active_row ∷ [])
    × ((j : ℕ)
        → find_entry j (entry_of 5 active_row ∷ [])
          ≡ published j (database.rows HostRow ready.hosts j))
build_lists_example =
    build_lists true ready header (record { header = header; hosts = entry_of 5 active_row ∷ [] })
      built

abbrev registry_sk : Bytes
registry_sk = replicate 32 9

-- The bucket of the snapshot without hosts, whose encoding has three numbers here.
abbrev sealed_snapshot : SnapshotResponse
sealed_snapshot = record {
  body = copy_at 4 (1 ∷ 2 ∷ 3 ∷ []) (copy_at 0 (to_le_bytes 3) (zeros 65536));
  sig = replicate 64 0;
}

registry_key : account_public_from_secret registry_sk ≡ ok (replicate 32 0)
unfolding account_public_from_secret signing_key
registry_key = refl

sealed_empty : publish true empty_store header registry_sk ≡ ok sealed_snapshot
unfolding publish build with_read all_rows collect seal encode_and_pad pad snapshot_sign sign_with
    signing_key empty_store
sealed_empty = refl

publish-verifies_example :
    (length sealed_snapshot.body ≡ 65536)
    × (verify (replicate 32 0) sealed_snapshot ≡ build true empty_store header)
publish-verifies_example =
    publish-verifies true empty_store header registry_sk (replicate 32 0) sealed_snapshot
      registry_key sealed_empty

abbrev service_json : ServiceJson
service_json = record {
  host_register = λ b. none;
  heartbeat = λ b. none;
  receipt_submit = λ b. none;
  trial_register = λ b. some trial_request;
  snapshot = λ r. none;
}

-- Account 8 had its grant on day 3.
abbrev granted_before : Store
granted_before = record ready { trial_accts = one_row 8 3 }

refused_trial :
    (grant_trial true granted_before trial_request for_test (400000 / 86400)).0 ≡ ok already_granted
unfolding grant_trial with_write get_row put_row validate_trial_register_request pow_verify be_bytes
    account_fingerprint
refused_trial = refl

trial_register_uniform_example :
    trial_register service_json for_test true granted_before 400000 []
    ≡ (refused 429 "unavailable", granted_before)
trial_register_uniform_example =
    trial_register_uniform service_json for_test true granted_before 400000 [] trial_request
      already_granted refl refused_trial (λ e. cc e)

abbrev issue_three : List Event
issue_three = event_at 0 (issues 1 3) ∷ []

abbrev fresh_report : InvariantReport
fresh_report = record {
  epoch = 1;
  issued = 3;
  redeemed = 0;
  trial_granted = 0;
  invariant_holds = true;
}

reported :
    admin_invariant for_test true (7 ∷ []) (run for_test empty_store issue_three) (some (7 ∷ []))
    ≡ ok fresh_report
unfolding admin_invariant run step perform bump_issued with_write with_read get_row put_row read
    empty_store ct_eq fold_diff or xor
reported = refl

verify_snapshot-verify_example :
    value (verify_snapshot (replicate 32 0) sealed_snapshot)
    ≡ value (Snapshot.verify (replicate 32 0) sealed_snapshot)
verify_snapshot-verify_example = verify_snapshot-verify (replicate 32 0) sealed_snapshot
