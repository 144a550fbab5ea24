-- ===== src/Examples/Reaching.antt =====
-- Runs of the client, the host and the gateway.
use lluma.Common.{
  ℕ, ◌==◌, same, ◌≡◌, refl, subst, Bool, true, false, Option, none, some, List, [], ◌∷◌, ◌++◌,
  Bytes, codes, length, take, drop, replicate, All, ok, err, take-length-append,
}
use lluma.Core.Wire.{SnapshotHostEntry, Token, to_array32}
use lluma.Core.Proto.{ExecRequest, ExecResponse}
use lluma.Crypto.Account.{issue_request_sign, chunk_order}
use lluma.Crypto.Tokens.{token_blind, token_unblind}
use lluma.Crypto.Tokens.Slices.{drop-front}
use lluma.Crypto.E2e.{
  session_keygen, e2e_seal, e2e_open, response_setup_host, response_setup_client,
  response_seal_chunk, response_open_chunk,
}
use lluma.Crypto.E2e.Requests.{Agree}
use lluma.Crypto.E2e.Streams.{seal_all, open_all, open_all-seal_all, open_all-IsInOrder, IsInOrder}
use lluma.Crypto.Ohttp.{
  ohttp_keygen, ohttp_encapsulate, ohttp_decapsulate, ohttp_seal_chunk, ohttp_open_chunk,
}
use lluma.Issuer.Service.{KeyConfigResponse}
use lluma.Net.Framing.{InnerRequest, InnerResponse, encode_request, decode_response}
use lluma.Net.Agent.{OhttpAgent, round_trip}
use lluma.Gateway.{
  GatewayConfig, any_, split_at, prefix_matches, strip_prefix, from_utf8, path_allowed, handle,
}
use lluma.Gateway.Paths.{path_allowed-normal, normal, escaped, forbidden_byte, SomeBelow}
use lluma.Gateway.Exchange.{round_trip-forwards, through, Answers}
use lluma.Host.{echo, serve_sealed}
use lluma.Client.Calls.{Client, ClientJson, exec_with_host}
use lluma.Client.Acquire.{acquire, acquire-verifies}
use lluma.Client.Batches.{IsToken, blind_all, unblind_all}
use lluma.Client.Answers.{PeerJson, through_host, exec_with_host-answers}
use lluma.Examples.Database.{some_inj}
use lluma.Examples.Instances.{primitives, blind_rsa}
use lluma.Examples.Channels.{hpke, oblivious, bhttp, origin, put}

-- An answer in two chunks.
abbrev chunks : List (Bytes × Bool)
chunks = (7 ∷ 8 ∷ [], false) ∷ (9 ∷ [], true) ∷ []

abbrev sealed_chunks : List Bytes
sealed_chunks = (0 ∷ (replicate 16 0 ++ (7 ∷ 8 ∷ []))) ∷ (1 ∷ (replicate 16 1 ++ (9 ∷ []))) ∷ []

abbrev ends_agree : Agree 0 0
ends_agree = record { secret = refl; place = refl }

chunks_sealed : seal_all 0 chunks ≡ ok sealed_chunks
unfolding seal_all response_seal_chunk
chunks_sealed = refl

open_all-seal_all_example : open_all 0 sealed_chunks ≡ ok chunks
open_all-seal_all_example = open_all-seal_all 0 0 chunks sealed_chunks ends_agree chunks_sealed

open_all-IsInOrder_example : IsInOrder tt 0 sealed_chunks chunks
open_all-IsInOrder_example =
    open_all-IsInOrder 0 sealed_chunks chunks
      (open_all-seal_all 0 0 chunks sealed_chunks ends_agree chunks_sealed)

-- The second chunk alone is out of order.
swapped : open_all 0 ((1 ∷ (replicate 16 1 ++ (9 ∷ []))) ∷ []) ≡ err chunk_order
unfolding open_all response_open_chunk
swapped = refl

let_in : path_allowed (codes "/v1/issue/x") (codes "/v1/issue" ∷ []) ≡ true
unfolding path_allowed same split_at prefix_matches strip_prefix
let_in = refl

-- A path that climbs is refused, below whatever prefix it starts.
climbing : path_allowed (codes "/v1/issue/../admin") (codes "/v1/issue" ∷ []) ≡ false
unfolding path_allowed same split_at prefix_matches strip_prefix
climbing = refl

-- A set with a quotation mark alone.
abbrev quotes : ℕ → Bool
quotes b = b == 34

path_allowed-normal_example :
    (normal quotes (codes "/v1/issue/x") ≡ escaped quotes (codes "/v1/issue/x"))
    × (any_ forbidden_byte (codes "/v1/issue/x") ≡ false)
    × SomeBelow (codes "/v1/issue" ∷ []) (codes "/v1/issue/x")
path_allowed-normal_example =
    path_allowed-normal quotes (codes "/v1/issue/x") (codes "/v1/issue" ∷ []) refl let_in

-- A client of a gateway that lets its ping through.
abbrev gateway : GatewayConfig
gateway = record {
  secret = 1 ∷ replicate 32 3;
  origin_url = codes "o:";
  allowed_path_prefixes = codes "/ping" ∷ [];
}

abbrev agent : OhttpAgent
agent = record { relay_url = []; key_config = [] }

abbrev a_ping : InnerRequest
a_ping = record { method = codes "get"; path = codes "/ping"; content_type = none; body = [] }

abbrev a_pong : InnerResponse
a_pong = record { status = 200; body = codes "pong" }

generated : (ohttp_keygen tt 1).0 ≡ ok (gateway.secret, agent.key_config)
unfolding ohttp_keygen
generated = refl

ponged : round_trip agent (through gateway tt) tt a_ping ≡ ok a_pong
unfolding round_trip encode_request ohttp_encapsulate handle ohttp_decapsulate from_utf8 same
    path_allowed split_at prefix_matches ohttp_seal_chunk ohttp_open_chunk decode_response
ponged = refl

round_trip-forwards_example :
    (path_allowed (codes "/ping") (codes "/ping" ∷ []) ≡ true)
    × (url : origin.Url) × (origin.parse (codes "o:" ++ codes "/ping") ≡ some url)
    × (path_allowed (origin.path url) (codes "/ping" ∷ []) ≡ true)
    × Answers a_ping url a_pong
round_trip-forwards_example =
    round_trip-forwards tt 1 agent gateway tt tt a_ping a_pong generated ponged

-- A text of two numbers and two texts, and one of two texts.
abbrev parse_exec : Bytes → Option ExecRequest
parse_exec (key_id ∷ host ∷ n ∷ xs) =
    some (record { key_id = key_id; host_account = host; token = take n xs; sealed = drop n xs })
parse_exec xs = none

abbrev parse_answer : Bytes → Option ExecResponse
parse_answer [] = none
parse_answer (n ∷ xs) = some (record { preamble = take n xs; chunk = drop n xs })

abbrev json : ClientJson
json = record {
  key_config_response = λ b. none;
  issue_request = λ r. some [];
  issue_response =
      λ b. some (record { key_id = 0; signatures = replicate 256 1 ∷ replicate 256 2 ∷ [] });
  trial_register_request = λ r. none;
  snapshot_response = λ b. none;
  exec_request = λ r. some (r.key_id ∷ r.host_account ∷ put r.token r.sealed);
  exec_response = parse_answer;
}

abbrev peer : PeerJson
peer = record { exec_request = parse_exec; exec_response = λ r. some (put r.preamble r.chunk) }

there :
    (x : ExecRequest) (e : Bytes)
    → ◌≡◌ {A = Option Bytes} (some (x.key_id ∷ x.host_account ∷ put x.token x.sealed)) (some e)
    → parse_exec e ≡ some x
there x e h =
    subst (λ b. parse_exec b ≡ some x) (some_inj _ _ h)
      (rw (take-length-append x.token x.sealed)
        (rw (drop-front (length x.token) x.token x.sealed refl) refl))

back :
    (x : ExecResponse) (e : Bytes)
    → ◌≡◌ {A = Option Bytes} (some (put x.preamble x.chunk)) (some e)
    → parse_answer e ≡ some x
back x e h =
    subst (λ b. parse_answer b ≡ some x) (some_inj _ _ h)
      (rw (take-length-append x.preamble x.chunk)
        (rw (drop-front (length x.preamble) x.preamble x.chunk refl) refl))

abbrev kc : KeyConfigResponse
kc = record { key_id = 0; issuer_public_key = []; epoch = 1; denomination = 1 }

abbrev host : SnapshotHostEntry
host = record {
  host_account = 5;
  hpke_pk = replicate 32 2;
  models = [];
  tier_flags = 0;
  load_bucket = 0;
  freshness_bucket = 0;
}

asked_and_answered :
    exec_with_host json
      (through_host peer tt (replicate 32 1) (echo (codes "A:")))
      tt
      kc
      (replicate 320 1)
      host
      (codes "hi")
    ≡ ok (codes "A:hi")
unfolding exec_with_host session_keygen e2e_seal serve_sealed e2e_open echo response_setup_host
    response_seal_chunk response_setup_client response_open_chunk
asked_and_answered = refl

exec_with_host-answers_example : echo (codes "A:") (codes "hi") ≡ ok (codes "A:hi")
exec_with_host-answers_example =
    exec_with_host-answers json peer tt tt (replicate 32 1) (echo (codes "A:")) kc (replicate 320 1)
      host (codes "hi") (codes "A:hi") tt there back asked_and_answered

abbrev client : Client
client = record {
  sk = replicate 32 4;
  pk = replicate 32 0;
  host_pk = [];
  host_account = 0;
  expected_issuer_key_id = none;
}

abbrev token : Token
token = replicate 64 0 ++ replicate 256 0

acquired :
    acquire json (λ r. ok (record { status = 200; body = [] })) tt client kc 2 1000
    ≡ ok (token ∷ token ∷ [])
unfolding acquire blind_all token_blind to_array32 issue_request_sign unblind_all token_unblind
acquired = refl

acquire-verifies_example : (length (token ∷ token ∷ []) ≡ 2) × All (IsToken []) (token ∷ token ∷ [])
acquire-verifies_example =
    acquire-verifies json (λ r. ok (record { status = 200; body = [] })) tt client kc 2 1000
      (token ∷ token ∷ []) tt refl refl acquired
