-- ===== src/Issuer/Service.antt =====
-- crates/lluma-issuer/src/service.rs and keys.rs: the four handlers. What a handler gets from serde
-- is a parameter, as is the ledger, which is used by its contract.
pub mod Issuance
pub mod Access
use lluma.Common.{
  ℕ, ◌≡◌, refl, Bool, true, false, not, Option, none, some, List, [], ◌∷◌, Bytes, length, ltb, ◌==◌,
  Result, ok, err, ok_or, ensure, ◌>>=◌, ◌>>◌, is_ok, if◌then◌else◌, arith, abs_diff, ct_eq,
}
use lluma.Core.Wire.{Array32, AccountId, SpendId, be_bytes, BlindSignature, BlindedTokenRequest}
use lluma.Core.Proto.{
  IssueRequest, IssueResponse, RedeemRequest, GrantRequest, denomination, validate_issue_request,
  validate_redeem_request,
}
use lluma.Crypto.Primitives.{Primitives}
use lluma.Crypto.Account.{Fallible, account_fingerprint, issue_request_verify}
use lluma.Crypto.Tokens.{BlindRsa, token_issue, token_verify, token_spend_id}
use lluma.Issuer.Error.{
  IssuerError, insufficient_credits, unauthorized, token_invalid, double_spend, request_id_conflict,
  bad_request, internal, concurrent, status,
}
use lluma.Issuer.Ledger.{CreditLedger}
use lluma.Issuer.SpentSet.{SpentSet, InsertOutcome, inserted, already_spent}
use lluma.Issuer.Idem.{
  BeginOutcome, reserved, replay, conflict, in_flight, Cache, begin, store, release,
}

pub record EpochKeys : Type 0 where
  pub epoch : ℕ
  pub secret : Bytes
  pub public : Bytes

-- `serde_json::from_slice` for each request.
pub record Json : Type 0 where
  pub issue_request : Bytes → Option IssueRequest
  pub redeem_request : Bytes → Option RedeemRequest
  pub grant_request : Bytes → Option GrantRequest

module _ ⦃C : Primitives⦄ where
  -- `EpochKeys::key_id`
  unfoldable pub key_id : EpochKeys → Array32
  key_id keys = C.blake3 keys.public

-- What the handlers share: the ledger, the cache, the generator of random numbers, and what the
-- observer of issued tokens has been told.
pub record AppState ⦃B : BlindRsa⦄ (L : CreditLedger) (O : Type 0) : Type 0 where
  pub ledger : L.State
  pub idem : Cache
  pub rng : B.Rng
  pub observed : O

-- The fixed part of the state: the keys, and `issued_observer`.
pub record Setup (O : Type 0) : Type 0 where
  pub keys : EpochKeys
  pub issued_observer : Option (ℕ → ℕ → O → O)

abbrev pub observe : {O : Type 0} → Option (ℕ → ℕ → O → O) → ℕ → ℕ → O → O
observe none epoch amount o = o
observe (some obs) epoch amount o = obs epoch amount o

module _ ⦃C : Primitives⦄ where
  -- Steps 1 to 6 of `issue`: every check before the first effect.
  unfoldable pub check_issue : Json → EpochKeys → Bytes → ℕ → Result IssuerError IssueRequest
  check_issue json keys body now = do
    req ← ok_or (json.issue_request body) bad_request
    ensure (is_ok (validate_issue_request req)) bad_request
    ensure (is_ok (issue_request_verify (be_bytes 32 req.body.account) req.body req.auth_sig))
        unauthorized
    ensure (not (ltb 600 (abs_diff now req.body.ts_unix_s))) bad_request
    ensure (req.body.key_id == key_id keys) bad_request
    bh_bytes ← ok_or (C.encode_blinded req.blinded) internal
    ensure (C.blake3 bh_bytes == req.body.blinded_batch_hash) bad_request
    ok req

  -- Step 7.
  abbrev pub account_of : IssueRequest → AccountId
  account_of req = account_fingerprint (be_bytes 32 req.body.account)

-- Step 10's loop: in order, up to the first failure.
unfoldable pub sign_batch :
    ⦃B : BlindRsa⦄ → B.Rng → Bytes → List BlindedTokenRequest → Option (List BlindSignature) × B.Rng
sign_batch rng sk [] = (some [], rng)
sign_batch rng sk (b ∷ bs) =
    let (made, rng') = token_issue rng sk b in
    let (rest, rng'') = sign_batch rng' sk bs in
    elim made [
      | err e ↦ (none, rng')
      | ok sig ↦ elim rest [ none ↦ (none, rng'') | some sigs ↦ (some (sig ∷ sigs), rng'') ]
    ]

module _ ⦃C : Primitives⦄ ⦃B : BlindRsa⦄ (L : CreditLedger) {O : Type 0} where
  -- Steps 10 and 11, once the debit is made.
  sign_and_store :
      L.Env
      → Setup O
      → IssueRequest
      → AppState L O
      → Option (List BlindSignature)
      → Result IssuerError IssueResponse × AppState L O
  sign_and_store φ cfg req st none = (
    err internal,
    record st {
      ledger = L.grant φ st.ledger (account_of req) (length req.blinded);
      idem = release st.idem (account_of req) req.body.request_id;
    },
  )
  sign_and_store φ cfg req st (some signatures) =
      let resp : IssueResponse = record { key_id = key_id cfg.keys; signatures = signatures } in
      (
        ok resp,
        record st {
          idem =
              store st.idem (account_of req) req.body.request_id req.body.blinded_batch_hash resp;
        },
      )

  -- Step 9's outcome, the observer, and the rest.
  after_debit :
      L.Env
      → Setup O
      → IssueRequest
      → AppState L O
      → Result IssuerError (Unit {0})
      → Result IssuerError IssueResponse × AppState L O
  unfolding sign_and_store
  after_debit φ cfg req st (err e) =
      (err e, record st { idem = release st.idem (account_of req) req.body.request_id })
  after_debit φ cfg req st (ok u) =
      let told = observe cfg.issued_observer cfg.keys.epoch (length req.blinded) st.observed in
      let (sigs, rng') = sign_batch st.rng cfg.keys.secret req.blinded in
      sign_and_store φ cfg req (record st { observed = told; rng = rng' }) sigs

  -- Step 8's outcome, and the debit.
  after_begin :
      L.Env
      → L.Env
      → Setup O
      → IssueRequest
      → AppState L O
      → BeginOutcome
      → Result IssuerError IssueResponse × AppState L O
  unfolding after_debit
  after_begin ψ φ cfg req st (replay r) = (ok r, st)
  after_begin ψ φ cfg req st conflict = (err request_id_conflict, st)
  after_begin ψ φ cfg req st in_flight = (err concurrent, st)
  after_begin ψ φ cfg req st reserved =
      let (r, l) = L.debit ψ st.ledger (account_of req) (length req.blinded) in
      after_debit φ cfg req (record st { ledger = l }) r

  issue_request :
      L.Env
      → L.Env
      → Setup O
      → AppState L O
      → Result IssuerError IssueRequest
      → Result IssuerError IssueResponse × AppState L O
  unfolding after_begin
  issue_request ψ φ cfg st (err e) = (err e, st)
  issue_request ψ φ cfg st (ok req) =
      let (o, m) = begin st.idem (account_of req) req.body.request_id req.body.blinded_batch_hash in
      after_begin ψ φ cfg req (record st { idem = m }) o

  -- `issue`: the debit runs in the environment `ψ`, a refund in `φ`.
  unfoldable pub issue :
      Json
      → L.Env
      → L.Env
      → Setup O
      → AppState L O
      → Bytes
      → ℕ
      → Result IssuerError IssueResponse × AppState L O
  unfolding issue_request
  issue json ψ φ cfg st body now = issue_request ψ φ cfg st (check_issue json cfg.keys body now)

-- `IntoResponse for IssuerError`: the status that goes on the wire.
unfoldable pub response_status : IssuerError → ℕ
unfolding status
response_status e =
    let s = status e in
    if s == 402
    then 402
    else if s == 403
    then 403
    else if s == 409
    then 409
    else if s == 422
    then 422
    else if s == 500
    then 500
    else 500

pub record KeyConfigResponse : Type 0 where
  pub key_id : Array32
  pub issuer_public_key : Bytes
  pub epoch : ℕ
  pub denomination : ℕ

module _ ⦃C : Primitives⦄ where
  pub key_config : EpochKeys → KeyConfigResponse
  key_config keys = record {
    key_id = key_id keys;
    issuer_public_key = keys.public;
    epoch = keys.epoch;
    denomination = denomination;
  }

module _ ⦃C : Primitives⦄ ⦃B : BlindRsa⦄ where
  -- Steps 1 to 4 of `redeem`.
  unfoldable pub check_redeem : Json → EpochKeys → Bytes → Result IssuerError RedeemRequest
  check_redeem json keys body = do
    req ← ok_or (json.redeem_request body) bad_request
    ensure (is_ok (validate_redeem_request req)) token_invalid
    ensure (req.key_id == key_id keys) token_invalid
    ensure (is_ok (token_verify keys.public req.token)) token_invalid
    ok req

module _ ⦃C : Primitives⦄ ⦃B : BlindRsa⦄ (S : SpentSet) where
  abbrev redeemed : SpendId → InsertOutcome → Result IssuerError SpendId
  redeemed spend_id already_spent = err double_spend
  redeemed spend_id inserted = ok spend_id

  unfoldable redeem_checked :
      S.Env → S.State → Result IssuerError RedeemRequest → Result IssuerError SpendId × S.State
  redeem_checked φ s (err e) = (err e, s)
  redeem_checked φ s (ok req) =
      let (o, s') = S.insert φ s (token_spend_id req.token) in
      (redeemed (token_spend_id req.token) o, s')

  unfoldable pub redeem :
      Json → S.Env → EpochKeys → S.State → Bytes → Result IssuerError SpendId × S.State
  unfolding redeem_checked
  redeem json φ keys s body = redeem_checked φ s (check_redeem json keys body)

module _ (L : CreditLedger) where
  abbrev grant_parsed :
      L.Env → L.State → Option GrantRequest → Result IssuerError (Unit {0}) × L.State
  grant_parsed φ s none = (err bad_request, s)
  grant_parsed φ s (some g) = (ok tt, L.grant φ s g.account_id g.amount)

  -- `admin_grant`; a header that is missing or is no text counts as empty.
  unfoldable pub admin_grant :
      Json
      → L.Env
      → Bytes
      → L.State
      → Option Bytes
      → Bytes
      → Result IssuerError (Unit {0}) × L.State
  admin_grant json φ admin_secret s header body =
      if not (ct_eq (elim header [ none ↦ [] | some v ↦ v ]) admin_secret)
      then (err unauthorized, s)
      else grant_parsed φ s (json.grant_request body)
