-- ===== src/Issuer/Service/Issuance.antt =====
-- crates/lluma-issuer/src/service.rs: what an issuance debits, and that a retry is free.
use lluma.Common.{
  ℕ, ◌+◌, ◌-◌, ◌≤◌, ◌≡◌, ◌≢◌, ◌⊎◌, inl, inr, none, some, List, [], ◌∷◌, Bytes, length, Result, ok,
  err, arith, u64_max, ◌==◌, if◌then◌else◌, Result-cases, Option-cases, subst,
}
use lluma.Core.Wire.{AccountId, BlindSignature, BlindedTokenRequest}
use lluma.Core.Proto.{IssueRequest, IssueResponse}
use lluma.Crypto.Primitives.{Primitives}
use lluma.Crypto.Tokens.{BlindRsa, token_issue}
use lluma.Issuer.Error.{IssuerError, internal}
use lluma.Issuer.Ledger.{CreditLedger}
use lluma.Issuer.Idem.{begin, store, release, get-insert, get-remove, get, done, pending, insert}
use lluma.Issuer.Service.{
  Json, Setup, AppState, issue, issue_request, after_begin, after_debit, sign_and_store, sign_batch,
  check_issue, account_of,
}

sign_batch-length :
    ⦃B : BlindRsa⦄
    → (rng : B.Rng) (sk : Bytes) (bs : List BlindedTokenRequest) (sigs : List BlindSignature)
    → (sign_batch rng sk bs).0 ≡ some sigs
    → length sigs ≡ length bs
unfolding sign_batch
sign_batch-length rng sk [] sigs h = ground arith
sign_batch-length rng sk (b ∷ bs) [] h = ground arith
sign_batch-length rng sk (b ∷ bs) (sig ∷ sigs) h =
    ground (arith, sign_batch-length (token_issue rng sk b).1 sk bs sigs)

sign_batch_cases :
    ⦃B : BlindRsa⦄
    → (rng : B.Rng) (sk : Bytes) (bs : List BlindedTokenRequest)
    → ((sign_batch rng sk bs).0 ≡ none)
      ⊎ ((sigs : List BlindSignature) × ((sign_batch rng sk bs).0 ≡ some sigs)
          × (length sigs ≡ length bs))
sign_batch_cases rng sk bs = elim (Option-cases (sign_batch rng sk bs).0) [
  | inl e ↦ inl e
  | inr (sigs, e) ↦ inr (sigs, e, sign_batch-length rng sk bs sigs e)
]

module _ ⦃C : Primitives⦄ ⦃B : BlindRsa⦄ (L : CreditLedger) {O : Type 0} where
  -- The ledger after the debit.
  abbrev pub debited : L.Env → AppState L O → IssueRequest → L.State
  debited ψ st req = (L.debit ψ st.ledger (account_of req) (length req.blinded)).1

  -- What an issuance has done to the balance of an account `a`.
  abbrev pub Bills :
      L.Env
      → L.Env
      → IssueRequest
      → AccountId
      → AppState L O
      → Result IssuerError IssueResponse × AppState L O
      → Type 0
  Bills ψ φ req a st (ok resp, st') =
      ((length resp.signatures ≡ length req.blinded)
        × (length req.blinded ≤ L.view st.ledger (account_of req))
        × (L.view st'.ledger a ≡ (
            if account_of req == a
            then L.view st.ledger a - length req.blinded
            else L.view st.ledger a)))
      ⊎ ((st' ≡ st)
          × (get st.idem (account_of req) req.body.request_id
              ≡ some (done req.body.blinded_batch_hash resp)))
  Bills ψ φ req a st (err e, st') =
      (L.view st'.ledger a ≡ L.view st.ledger a)
      ⊎ ((e ≡ internal)
          × (account_of req ≡ a)
          × (L.view (L.grant φ (debited ψ st req) a (length req.blinded)) a
              ≡ L.view (debited ψ st req) a)
          × (L.view st'.ledger a + length req.blinded ≡ L.view st.ledger a))

  debit_facts :
      (ψ : L.Env) (st : AppState L O) (req : IssueRequest) (a : AccountId)
      → ((L.debit ψ st.ledger (account_of req) (length req.blinded)).0 ≡ ok tt)
          × (length req.blinded ≤ L.view st.ledger (account_of req))
          × (L.view (debited ψ st req) a ≡ (
              if account_of req == a
              then L.view st.ledger a - length req.blinded
              else L.view st.ledger a))
        ⊎ ((e : IssuerError) × ((L.debit ψ st.ledger (account_of req) (length req.blinded)).0
              ≡ err e)
            × (L.view (debited ψ st req) a ≡ L.view st.ledger a)
            × (e ≢ internal))
  debit_facts ψ st req a =
      elim (Result-cases (L.debit ψ st.ledger (account_of req) (length req.blinded)).0) [
        | inl (u, h) ↦
            let (le, self) = L.debit-ok ψ st.ledger (account_of req) (length req.blinded) h in
            inl (
              h,
              le,
              ground
                  (arith, self, L.debit_other ψ st.ledger (account_of req) a (length req.blinded)),
            )
        | inr (e, h) ↦
            let (is, self) = L.debit-err ψ st.ledger (account_of req) (length req.blinded) e h in
            inr (
              e,
              h,
              ground
                  (arith, self, L.debit_other ψ st.ledger (account_of req) a (length req.blinded)),
              ground (arith, is),
            )
      ]

  issue_request-Bills :
      (ψ φ : L.Env) (cfg : Setup O) (st : AppState L O) (req : IssueRequest) (a : AccountId)
      → L.view st.ledger a ≤ u64_max
      → Bills ψ φ req a st (issue_request L ψ φ cfg st (ok req))
  unfolding issue_request after_begin after_debit sign_and_store begin
  issue_request-Bills ψ φ cfg st req a bound = ground (
    arith,
    debit_facts ψ st req a,
    sign_batch_cases st.rng cfg.keys.secret req.blinded,
    L.grant_self φ (debited ψ st req) (account_of req) (length req.blinded),
    L.grant_other φ (debited ψ st req) (account_of req) a (length req.blinded),
  )

  check_issue-parses :
      (json : Json) (cfg : Setup O) (body : Bytes) (now : ℕ) (req : IssueRequest)
      → check_issue json cfg.keys body now ≡ ok req
      → json.issue_request body ≡ some req
  unfolding check_issue
  check_issue-parses json cfg body now req h = ground (arith, h)

  -- What an accepted request costs. If a response comes back, either it has one signature for each
  -- blinded token and the account, which could pay, is debited exactly the size of the batch, or it
  -- is the stored response to the same request and nothing changes. If an error comes back, every
  -- balance is as it was, except that after a failure to sign the refund is lost if the ledger
  -- drops that grant. No other account is touched. The balance looked at is a `u64`.
  pub issue-Bills :
      (json : Json) (ψ φ : L.Env) (cfg : Setup O) (st : AppState L O) (body : Bytes) (now : ℕ)
      (req : IssueRequest) (a : AccountId)
      → L.view st.ledger a ≤ u64_max
      → check_issue json cfg.keys body now ≡ ok req
      → Bills ψ φ req a st (issue L json ψ φ cfg st body now)
  unfolding issue
  issue-Bills json ψ φ cfg st body now req a bound h =
      rw h (issue_request-Bills ψ φ cfg st req a bound)

  issue_request-stores :
      (ψ φ : L.Env) (cfg : Setup O) (st : AppState L O) (req : IssueRequest) (resp : IssueResponse)
      → (issue_request L ψ φ cfg st (ok req)).0 ≡ ok resp
      → get (issue_request L ψ φ cfg st (ok req)).1.idem (account_of req) req.body.request_id
        ≡ some (done req.body.blinded_batch_hash resp)
  unfolding issue_request after_begin after_debit sign_and_store begin store
  issue_request-stores ψ φ cfg st req resp h = ground (
    arith,
    sign_batch_cases st.rng cfg.keys.secret req.blinded,
    get-insert
        (insert st.idem (account_of req) req.body.request_id (pending req.body.blinded_batch_hash))
        (account_of req) req.body.request_id (done req.body.blinded_batch_hash resp)
        (account_of req) req.body.request_id,
  )

  issue_request-replays :
      (ψ φ : L.Env) (cfg : Setup O) (st : AppState L O) (req : IssueRequest) (resp : IssueResponse)
      → get st.idem (account_of req) req.body.request_id
        ≡ some (done req.body.blinded_batch_hash resp)
      → issue_request L ψ φ cfg st (ok req) ≡ (ok resp, st)
  unfolding issue_request after_begin begin
  issue_request-replays ψ φ cfg st req resp h = rw h (ground arith)

  -- A request that was answered and comes again, byte for byte, while it is still acceptable gets the
  -- same answer, is not debited again, and changes nothing, whatever the ledger would do.
  pub issue_retry :
      (json : Json) (ψ φ ψ' φ' : L.Env) (cfg : Setup O) (st : AppState L O) (body : Bytes)
      (now now' : ℕ) (req req' : IssueRequest) (resp : IssueResponse)
      → check_issue json cfg.keys body now ≡ ok req
      → check_issue json cfg.keys body now' ≡ ok req'
      → (issue L json ψ φ cfg st body now).0 ≡ ok resp
      → issue L json ψ' φ' cfg (issue L json ψ φ cfg st body now).1 body now'
        ≡ (ok resp, (issue L json ψ φ cfg st body now).1)
  unfolding issue
  issue_retry json ψ φ ψ' φ' cfg st body now now' req req' resp h h' got =
      let same : req ≡ req' = ground (
        arith,
        check_issue-parses json cfg body now req h,
        check_issue-parses json cfg body now' req' h',
      ) in
      let first = issue_request L ψ φ cfg st (ok req) in
      let got' : first.0 ≡ ok resp =
        subst (λ c. (issue_request L ψ φ cfg st c).0 ≡ ok resp) h got in
      rw h (
        rw h' (
          issue_request-replays ψ' φ' cfg first.1 req' resp (
            subst
              (λ q.
                get first.1.idem (account_of q) q.body.request_id
                ≡ some (done q.body.blinded_batch_hash resp))
              same (issue_request-stores ψ φ cfg st req resp got'))))

  -- An issuance that ends in an error leaves its slot free if it found it free, so that a retry is
  -- not answered with a conflict.
  pub issue_error-frees :
      (json : Json) (ψ φ : L.Env) (cfg : Setup O) (st : AppState L O) (body : Bytes) (now : ℕ)
      (req : IssueRequest) (e : IssuerError)
      → check_issue json cfg.keys body now ≡ ok req
      → (issue L json ψ φ cfg st body now).0 ≡ err e
      → get st.idem (account_of req) req.body.request_id ≡ none
      → get (issue L json ψ φ cfg st body now).1.idem (account_of req) req.body.request_id ≡ none
  unfolding issue issue_request after_begin after_debit sign_and_store begin release
  issue_error-frees json ψ φ cfg st body now req e h got free = ground (
    arith,
    h,
    sign_batch_cases st.rng cfg.keys.secret req.blinded,
    get-remove
        (insert st.idem (account_of req) req.body.request_id (pending req.body.blinded_batch_hash))
        (account_of req) req.body.request_id (account_of req) req.body.request_id,
  )
