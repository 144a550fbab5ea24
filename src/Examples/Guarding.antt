-- ===== src/Examples/Guarding.antt =====
-- Runs of the relay, of a host's handshake and socket, and of the clients' checks.
use lluma.Common.{
  ℕ, zero, suc, ◌+◌, ◌*◌, ◌-◌, ◌/◌, min, ltb, leb, ◌==◌, if◌then◌else◌, ◌≡◌, refl, subst, true,
  false, Option, none, some, [], ◌∷◌, Bytes, replicate, ok, arith, lookup,
}
use lluma.Core.Wire.{be_bytes}
use lluma.Core.Proto.{
  TunnelFrame, hello, challenge, auth, auth_ok, job, done, fail, ExecResponse,
  validate_exec_response,
}
use lluma.Crypto.Account.{account_public_from_secret, tunnel_auth_sign}
use lluma.Issuer.Error.{concurrent, code}
use lluma.Issuer.Client.{IssuerJson}
use lluma.Relay.{F64, RateLimitConfig, Buckets, allow, refilled, evict}
use lluma.Relay.Rate.{allow-level, level, IsMap}
use lluma.Broker.Store.{Store, HostRow, with_read, get_row}
use lluma.Broker.Tunnel.{TunnelRegistry, end_job}
use lluma.Broker.Handshake.{text, FrameJson, Peer, handshake, account_registered, on_message}
use lluma.Broker.Handshake.Honest.{handshake-authenticates, handshake_honest, IsAnswered}
use lluma.Broker.Handshake.Delivery.{on_message-delivers, waits}
use lluma.Host.Tunnel.{TunnelConfig, answer_challenge}
use lluma.Examples.Database.{database, some_inj}
use lluma.Examples.Instances.{primitives}
use lluma.Examples.Samples.{ready, one_row, active_row}

not_less : (x c : ℕ) → ltb (min x c) c ≡ false → min x c ≡ c
not_less x c h = grind arith

nothing : (x r : ℕ) → x + 0 * r / 1000000000 ≡ x
nothing x r = omega arith

-- Numbers in billionths.
instance abbrev billionths : F64
billionths = record {
  Num = ℕ;
  of_u32 = λ c. c * 1000000000;
  as_secs = λ t. t;
  add = ◌+◌;
  sub = ◌-◌;
  mul = λ x y. x * y / 1000000000;
  min = min;
  lt = ltb;
  le = leb;
  not_lt-min = λ x c h. not_less x (c * 1000000000) h;
  min_self = λ c. omega arith;
  min-min = λ x c. omega arith;
  min-sub = λ x c. omega arith;
  add-mul_no_time = λ x r. nothing x (r * 1000000000);
}

-- Two tokens, and two more a second. Address 9 has half a token left.
abbrev limits : RateLimitConfig
limits = record { capacity = 2; refill_per_sec = 2 }

abbrev buckets : Buckets
buckets = (9, record { tokens = 500000000; last = 5 }) ∷ []

-- After a quarter of a second it has one, which is taken.
allow-level_example :
    ((allow limits 250000005 buckets 9).0 ≡ leb 1000000000 (level limits 250000005 buckets 9))
    × (level limits 250000005 (allow limits 250000005 buckets 9).1 9 ≡ (
        if 9 == 9
        then (if leb 1000000000 (level limits 250000005 buckets 9)
            then level limits 250000005 buckets 9 - 1000000000
            else level limits 250000005 buckets 9)
        else level limits 250000005 buckets 9))
    × IsMap (allow limits 250000005 buckets 9).1
allow-level_example = allow-level limits 250000005 9 9 buckets (tt, tt)

let_through : (allow limits 250000005 buckets 9).0 ≡ true
unfolding allow refilled evict lookup
let_through = refl

-- Host 0, whose public key is all zeros here.
abbrev host_config : TunnelConfig
host_config = record { host_account = 0; account_sk = replicate 32 4; broker_key_id = 3 }

abbrev with_host : Store
with_host = record ready { hosts = one_row 0 active_row }

-- The three frames of a handshake that come before its end.
abbrev frame_text : TunnelFrame → Option Bytes
frame_text (hello v a) = some (0 ∷ v ∷ a ∷ [])
frame_text (challenge v c) = some (1 ∷ v ∷ c ∷ [])
frame_text (auth v sig) = some (2 ∷ v ∷ sig)
frame_text (auth_ok v) = none
frame_text (job v id spend sealed) = none
frame_text (done v id preamble chunk) = none
frame_text (fail v id) = none

abbrev text_frame : Bytes → Option TunnelFrame
text_frame (zero ∷ v ∷ a ∷ []) = some (hello v a)
text_frame (suc zero ∷ v ∷ c ∷ []) = some (challenge v c)
text_frame (suc (suc k) ∷ v ∷ sig) = some (auth v sig)
text_frame xs = none

abbrev frames : FrameJson
frames = record { to_string = frame_text; from_str = text_frame }

parsed : (f : TunnelFrame) (e : Bytes) → frame_text f ≡ some e → text_frame e ≡ some f
parsed (hello v a) e h = subst (λ b. text_frame b ≡ some (hello v a)) (some_inj _ _ h) refl
parsed (challenge v c) e h = subst (λ b. text_frame b ≡ some (challenge v c)) (some_inj _ _ h) refl
parsed (auth v sig) e h = subst (λ b. text_frame b ≡ some (auth v sig)) (some_inj _ _ h) refl
parsed (auth_ok v) e h = cc
parsed (job v id spend sealed) e h = cc
parsed (done v id preamble chunk) e h = cc
parsed (fail v id) e h = cc

abbrev honest_peer : Peer
honest_peer s = some (text (2 ∷ 1 ∷ replicate 64 0) ∷ [])

public_key : account_public_from_secret (replicate 32 4) ≡ ok (be_bytes 32 0)
unfolding account_public_from_secret be_bytes
public_key = refl

known : account_registered true with_host 0 ≡ true
unfolding account_registered with_read get_row
known = refl

challenge_met : answer_challenge frames host_config 7 ≡ ok (auth 1 (replicate 64 0))
unfolding answer_challenge tunnel_auth_sign
challenge_met = refl

let_in : handshake frames true with_host 3 7 (text (0 ∷ 1 ∷ 0 ∷ []) ∷ []) honest_peer ≡ some 0
let_in =
    handshake_honest frames true with_host 7 host_config (0 ∷ 1 ∷ 0 ∷ []) (1 ∷ 1 ∷ 7 ∷ [])
      (2 ∷ 1 ∷ replicate 64 0) (auth 1 (replicate 64 0)) honest_peer public_key known parsed refl
      refl challenge_met refl refl (omega arith) (omega arith)

handshake_honest_example :
    handshake frames true with_host 3 7 (text (0 ∷ 1 ∷ 0 ∷ []) ∷ []) honest_peer ≡ some 0
handshake_honest_example =
    handshake_honest frames true with_host 7 host_config (0 ∷ 1 ∷ 0 ∷ []) (1 ∷ 1 ∷ 7 ∷ [])
      (2 ∷ 1 ∷ replicate 64 0) (auth 1 (replicate 64 0)) honest_peer public_key known parsed refl
      refl challenge_met refl refl (omega arith) (omega arith)

handshake-authenticates_example :
    ((row : HostRow) × (database.rows HostRow with_host.hosts 0 ≡ some row))
    × IsAnswered frames (text (0 ∷ 1 ∷ 0 ∷ []) ∷ []) honest_peer 3 7 0
handshake-authenticates_example =
    handshake-authenticates frames true with_host 3 7 (text (0 ∷ 1 ∷ 0 ∷ []) ∷ []) honest_peer 0
      let_in

-- A socket with two jobs out, and the answer to the first.
abbrev waiting : TunnelRegistry
waiting = record {
  heap =
      (
        0,
        record {
          generation = 0;
          job_tx_open = true;
          pending = 5 ∷ 6 ∷ [];
          inflight = 2;
          next_request_id = 7;
        },
      )
      ∷ [];
  sockets = (9, 0) ∷ [];
  next_generation = 1;
  next_place = 1;
}

abbrev answer : ExecResponse
answer = record { preamble = 1 ∷ []; chunk = 2 ∷ [] }

abbrev answering : FrameJson
answering = record { to_string = λ f. none; from_str = λ s. some (done 1 5 (1 ∷ []) (2 ∷ [])) }

delivered : on_message answering waiting 0 (text []) ≡ some (some (5, answer), end_job waiting 0 5)
unfolding on_message lookup validate_exec_response
delivered = refl

on_message-delivers_example :
    (validate_exec_response answer ≡ ok tt)
    × (waits waiting 0 5 ≡ true)
    × (waits (end_job waiting 0 5) 0 5 ≡ false)
on_message-delivers_example =
    on_message-delivers answering waiting (end_job waiting 0 5) 0 5 (text []) answer delivered

abbrev busy_json : IssuerJson
busy_json = record {
  key_config_response = λ b. none;
  issue_request = λ r. none;
  issue_response = λ b. none;
  redeem_request = λ r. none;
  redeem_response = λ b. none;
  code_field = λ b. some "concurrent_request";
}

busy_code : busy_json.code_field [] ≡ some (code concurrent)
unfolding code
busy_code = refl
