-- ===== src/Examples/Samples.antt =====
-- Requests, rows and stores for the runs.
use lluma.Common.{ℕ, ◌≤◌, true, false, List, [], ◌∷◌, replicate, arith}
use lluma.Core.Proto.{ReceiptSubmit, HostRegisterRequest, HeartbeatRequest, TrialRegisterRequest}
use lluma.Broker.Store.{Store, HostRow, host_active}
use lluma.Broker.Run.{
  Event, Call, redeems, grants, debits, issues, ingests, registers, beats, evicts, trials,
}
use lluma.Examples.Database.{database, Rows}
use lluma.Examples.Instances.{primitives, parsers}

pub zero_le : (k : ℕ) → 0 ≤ k
zero_le k = omega arith

-- Tables with no row and with one.
abbrev pub no_rows : {V : Type 0} → Rows V
no_rows = ([], tt)

abbrev pub one_row : {V : Type 0} → ℕ → V → Rows V
one_row k v = ((k, v) ∷ [], (zero_le k, tt))

abbrev pub active_row : HostRow
active_row = record {
  hpke_pk = 1 ∷ [];
  ingress_addr = "https://host.example";
  models = "m" ∷ [];
  status = host_active;
  hb_counter = 4;
  last_hb = 100;
  load_bucket = 0;
  admit_progress = 3;
}

-- Host 5 is active, three tokens of epoch 1 are issued, account 32 has ten credits.
abbrev pub ready : Store
ready = record {
  spent = no_rows;
  ledger = one_row 32 (record { balance = 10; earned = 10; spent = 0 });
  receipts = no_rows;
  hosts = one_row 5 active_row;
  counters = one_row 1 (record { issued = 3; redeemed = 0; trial_granted = 0 });
  trial_accts = no_rows;
  trial_budget = no_rows;
  spend_host = no_rows;
}

-- The same, with spend 7 burned towards host 5.
abbrev pub burned : Store
burned = record ready { spent = one_row 7 1; spend_host = one_row 7 5 }

abbrev pub submit : ReceiptSubmit
submit = record {
  body = record {
    version = 1;
    host_account = 5;
    model_id = "m";
    tier = 0;
    units = 2;
    spend_id = 7;
    epoch = 1;
    timestamp_h = 9;
  };
  sig = replicate 64 0;
}

abbrev pub register_request : HostRegisterRequest
register_request = record {
  body = record {
    version = 1;
    host_account = 5;
    hpke_pk = 1 ∷ [];
    ingress_addr = "https://host.example";
    models = "m" ∷ [];
  };
  sig = replicate 64 0;
  pow_nonce = replicate 8 0;
}

abbrev pub heartbeat_request : HeartbeatRequest
heartbeat_request = record {
  body = record {
    version = 1;
    host_account = 5;
    hb_counter = 5;
    load_bucket = 1;
    models = "m" ∷ [];
  };
  sig = replicate 64 0;
}

abbrev pub event_at : ℕ → Call → Event
event_at now call = record { read_fault = true; write_fault = true; now = now; call = call }

-- Heartbeats one after the other, each more than an interval after the last.
abbrev beat_at : ℕ → ℕ → Event
beat_at now n = event_at now (
    beats ready (record {
      body = record {
        version = 1;
        host_account = 5;
        hb_counter = n;
        load_bucket = 1;
        models = "m" ∷ [];
      };
      sig = replicate 64 0;
    }))

abbrev pub admission : List Event
admission =
    event_at 0 (registers register_request) ∷ beat_at 40 1 ∷ beat_at 80 2 ∷ beat_at 120 3 ∷ []

abbrev pub admitted_row : HostRow
admitted_row = record {
  hpke_pk = 1 ∷ [];
  ingress_addr = "https://host.example";
  models = "m" ∷ [];
  status = host_active;
  hb_counter = 3;
  last_hb = 120;
  load_bucket = 1;
  admit_progress = 3;
}

abbrev pub trial_request : TrialRegisterRequest
trial_request = record { body = record { version = 1; account = 8 }; pow_nonce = replicate 8 0 }

-- One operation of each kind, one of them in a transaction that fails.
abbrev pub some_events : List Event
some_events =
    event_at 0 (issues 1 3)
    ∷ event_at 10 (registers register_request)
    ∷ event_at 50 (beats ready heartbeat_request)
    ∷ event_at 60 (trials trial_request)
    ∷ event_at 70 (redeems 9 5)
    ∷ event_at 80 (debits 32 1)
    ∷ record { read_fault = true; write_fault = false; now = 81; call = grants 32 1 }
    ∷ event_at 90 (ingests submit)
    ∷ event_at 900 evicts
    ∷ []
