-- ===== src/Examples/Issuing.antt =====
-- Runs of the issuer, the tokens and the signatures.
use lluma.Common.{
  ℕ, ◌≡◌, ◌≢◌, refl, true, false, some, none, [], ◌∷◌, Bytes, ok, err, length, replicate, arith,
  ◌++◌,
}
use lluma.Core.Wire.{be_bytes}
use lluma.Core.Proto.{
  IssueRequest, IssueResponse, RedeemRequest, validate_issue_request, validate_redeem_request,
}
use lluma.Crypto.Tokens.{
  token_verify, token_unblind, token_unblind-verifies, token_spend_id, token_issue, split_token,
}
use lluma.Crypto.Account.{
  issue_request_verify, account_public_from_secret, signing_key, account_fingerprint, sign_with,
  tunnel_auth_sign,
}
use lluma.Crypto.Domains.{sign_message, verify_message, verify_message-sign_message}
use lluma.Crypto.Domains
use lluma.Crypto.Pow.{pow_verify, pow_solve, pow_trial_domain, le_bytes, pow_solve-verifies}
use lluma.Issuer.Error.{insufficient_credits}
use lluma.Issuer.Ledger as IssuerLedger
use lluma.Issuer.Ledger.{in_memory_ledger}
use lluma.Issuer.SpentSet as IssuerSpentSet
use lluma.Issuer.SpentSet.{in_memory_spent_set, contains}
use lluma.Issuer.Idem
use lluma.Issuer.Idem.{Cache, reserved, in_flight, conflict, begin-begin, begin-store, replay}
use lluma.Issuer.Service.{
  Json, Setup, AppState, check_issue, check_redeem, issue, redeem, sign_batch, key_id,
}
use lluma.Issuer.Service.Issuance.{issue-Bills, issue_retry, issue_error-frees, Bills}
use lluma.Issuer.Service.Access.{redeem_burns, redeem_all}
use lluma.Broker.Ledger.Contract.{redb_ledger}
use lluma.Examples.Database.{database}
use lluma.Examples.Samples.{ready}
use lluma.Examples.Instances.{primitives, blind_rsa}

abbrev request : IssueRequest
request = record {
  body = record {
    version = 1;
    account = 8;
    key_id = 0;
    request_id = 77;
    ts_unix_s = 1000;
    blinded_batch_hash = 0;
  };
  blinded = replicate 256 1 ∷ replicate 256 2 ∷ [];
  auth_sig = replicate 64 0;
}

abbrev redeem_request : RedeemRequest
redeem_request = record { key_id = 0; token = replicate 320 1 }

abbrev json : Json
json = record {
  issue_request = λ b. some request;
  redeem_request = λ b. some redeem_request;
  grant_request = λ b. some (record { account_id = 32; amount = 5 });
}

-- An observer that counts the tokens.
abbrev setup : Setup ℕ
setup = record {
  keys = record { epoch = 1; secret = []; public = [] };
  issued_observer = some (λ epoch n o. n);
}

-- Account 32, the fingerprint of every key here, has ten credits.
abbrev rich : AppState in_memory_ledger ℕ
rich = record { ledger = (32, 10) ∷ []; idem = []; rng = tt; observed = 0 }

abbrev poor : AppState in_memory_ledger ℕ
poor = record rich { ledger = (32, 1) ∷ [] }

accepted_at_1000 : check_issue json setup.keys [] 1000 ≡ ok request
unfolding check_issue validate_issue_request issue_request_verify key_id be_bytes
accepted_at_1000 = refl

accepted_at_1600 : check_issue json setup.keys [] 1600 ≡ ok request
unfolding check_issue validate_issue_request issue_request_verify key_id be_bytes
accepted_at_1600 = refl

abbrev two_signatures : IssueResponse
two_signatures = record { key_id = 0; signatures = replicate 256 0 ∷ replicate 256 0 ∷ [] }

issued_two : (issue in_memory_ledger json tt tt setup rich [] 1000).0 ≡ ok two_signatures
unfolding issue Idem.begin Idem.store Idem.release Idem.get account_fingerprint IssuerLedger.debit
    IssuerLedger.balance_of sign_batch token_issue check_issue validate_issue_request
    issue_request_verify key_id be_bytes
issued_two = refl

too_poor : (issue in_memory_ledger json tt tt setup poor [] 1000).0 ≡ err insufficient_credits
unfolding issue Idem.begin Idem.store Idem.release Idem.get account_fingerprint IssuerLedger.debit
    IssuerLedger.balance_of sign_batch token_issue check_issue validate_issue_request
    issue_request_verify key_id be_bytes
too_poor = refl

-- The issuer on the ledger of the broker, where account 32 has ten credits as well.
abbrev colocated : AppState redb_ledger ℕ
colocated = record { ledger = ready; idem = []; rng = tt; observed = 0 }

issue-Bills_example :
    Bills redb_ledger true true request 32 colocated
      (issue redb_ledger json true true setup colocated [] 1000)
issue-Bills_example =
    issue-Bills redb_ledger json true true setup colocated [] 1000 request 32 (omega arith)
      accepted_at_1000

issue_retry_example :
    issue in_memory_ledger json tt tt setup
      (issue in_memory_ledger json tt tt setup rich [] 1000).1
      []
      1600
    ≡ (ok two_signatures, (issue in_memory_ledger json tt tt setup rich [] 1000).1)
issue_retry_example =
    issue_retry in_memory_ledger json tt tt tt tt setup rich [] 1000 1600 request request
      two_signatures accepted_at_1000 accepted_at_1600 issued_two

empty_slot : Idem.get [] 32 77 ≡ none
unfolding Idem.get
empty_slot = refl

issue_error-frees_example :
    Idem.get (issue in_memory_ledger json tt tt setup poor [] 1000).1.idem 32 77 ≡ none
unfolding account_fingerprint be_bytes
issue_error-frees_example =
    issue_error-frees in_memory_ledger json tt tt setup poor [] 1000 request insufficient_credits
      accepted_at_1000 too_poor empty_slot

begin_free : (Idem.begin [] 32 77 5).0 ≡ reserved
unfolding Idem.begin Idem.get
begin_free = refl

abbrev account : ℕ
account = 32

abbrev rid : ℕ
rid = 77

redeemed_once : (redeem in_memory_spent_set json tt setup.keys [] []).0 ≡ ok 320
unfolding redeem check_redeem validate_redeem_request token_verify split_token key_id contains
    token_spend_id IssuerSpentSet.insert
redeemed_once = refl

-- Another request comes between the two.
redeem_burns_example :
    ((req : RedeemRequest) × (json.redeem_request [] ≡ some req)
      × (token_verify [] req.token ≡ ok tt)
      × (320 ≡ token_spend_id req.token))
    × (contains [] 320 ≡ false)
    × (contains
          (redeem_all in_memory_spent_set json setup.keys
            ((tt, 4 ∷ []) ∷ [])
            (redeem in_memory_spent_set json tt setup.keys [] []).1)
          320
        ≡ true)
    × ((redeem in_memory_spent_set json tt setup.keys
          (redeem_all in_memory_spent_set json setup.keys
            ((tt, 4 ∷ []) ∷ [])
            (redeem in_memory_spent_set json tt setup.keys [] []).1)
          (5 ∷ [])).0
        ≢ ok 320)
redeem_burns_example =
    redeem_burns in_memory_spent_set json tt tt setup.keys [] [] (5 ∷ []) ((tt, 4 ∷ []) ∷ []) 320
      redeemed_once

abbrev secret : Bytes
secret = 115 ∷ 51 ∷ []

abbrev token_zero : Bytes
token_zero = replicate 32 0 ++ (replicate 32 0 ++ replicate 256 0)

unblinded : token_unblind [] [] [] ≡ ok token_zero
unfolding token_unblind
unblinded = refl

token_unblind-verifies_example : (length token_zero ≡ 320) × (token_verify [] token_zero ≡ ok tt)
token_unblind-verifies_example = token_unblind-verifies [] [] [] token_zero tt refl refl unblinded

signed_tunnel : sign_message (replicate 32 9) (Domains.tunnel_auth 1 2 3) ≡ ok (replicate 64 0)
unfolding sign_message sign_with signing_key tunnel_auth_sign
signed_tunnel = refl

derived_key : account_public_from_secret (replicate 32 9) ≡ ok (replicate 32 0)
unfolding account_public_from_secret signing_key
derived_key = refl

verify_message-sign_message_example :
    verify_message (replicate 32 0) (Domains.tunnel_auth 1 2 3) (replicate 64 0) ≡ ok tt
verify_message-sign_message_example =
    verify_message-sign_message (replicate 32 9) (replicate 32 0) (Domains.tunnel_auth 1 2 3)
      (replicate 64 0) derived_key signed_tunnel

enough_work : pow_verify pow_trial_domain 8 (le_bytes 8 3) 0 20 ≡ true
unfolding pow_verify be_bytes le_bytes
enough_work = refl

pow_solve-verifies_example :
    (nonce : Bytes) × (pow_solve 4 pow_trial_domain 8 0 20 ≡ some nonce)
    × (pow_verify pow_trial_domain 8 nonce 0 20 ≡ true)
pow_solve-verifies_example = pow_solve-verifies pow_trial_domain 8 0 20 3 (omega arith) enough_work
