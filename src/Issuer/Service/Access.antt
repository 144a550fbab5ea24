-- ===== src/Issuer/Service/Access.antt =====
-- crates/lluma-issuer/src/service.rs: who may redeem a token, who may grant credits, and what status
-- an error has on the wire.
use lluma.Common.{
  ◌≡◌, ◌≢◌, ◌↔◌, ◌⊎◌, inl, inr, refl, true, some, Bytes, ok, err, arith, All, IsByte, ct_eq,
  ct_eq_iff, Bool-cases, Result-cases, sym, subst, List, [], ◌∷◌, Bool, false,
}
use lluma.Core.Wire.{SpendId}
use lluma.Core.Proto.{RedeemRequest, GrantRequest}
use lluma.Crypto.Primitives.{Primitives}
use lluma.Crypto.Tokens.{BlindRsa, token_verify, token_spend_id}
use lluma.Issuer.Error.{
  IssuerError, insufficient_credits, unauthorized, token_invalid, double_spend, request_id_conflict,
  bad_request, internal, concurrent, status,
}
use lluma.Issuer.Ledger.{CreditLedger}
use lluma.Issuer.SpentSet.{SpentSet, InsertOutcome, inserted, already_spent}
use lluma.Issuer.Service.{
  Json, EpochKeys, check_redeem, redeem, redeem_checked, admin_grant, response_status,
}

-- Every error goes on the wire with its own status, except `Concurrent`, whose 503 is no case of the
-- match in `into_response` and is sent as a 500.
pub response_status_iff : (e : IssuerError) → (response_status e ≡ status e) ↔ (e ≢ concurrent)
unfolding response_status status
response_status_iff insufficient_credits = ground arith
response_status_iff unauthorized = ground arith
response_status_iff token_invalid = ground arith
response_status_iff double_spend = ground arith
response_status_iff request_id_conflict = ground arith
response_status_iff bad_request = ground arith
response_status_iff internal = ground arith
response_status_iff concurrent = ground arith

true-ne_false : (b : Bool) → b ≡ true → b ≡ false → ⊥
true-ne_false true h e = absurd (ground (arith, e))
true-ne_false false h e = absurd (ground (arith, h))

outcome_cases : (o : InsertOutcome) → (o ≡ inserted) ⊎ (o ≡ already_spent)
outcome_cases inserted = inl refl
outcome_cases already_spent = inr refl

module _ ⦃C : Primitives⦄ ⦃B : BlindRsa⦄ (S : SpentSet) where
  check_redeem-verifies :
      (json : Json) (keys : EpochKeys) (body : Bytes) (req : RedeemRequest)
      → check_redeem json keys body ≡ ok req
      → token_verify keys.public req.token ≡ ok tt
  unfolding check_redeem
  check_redeem-verifies json keys body req h = ground (arith, h)

  check_redeem-parses :
      (json : Json) (keys : EpochKeys) (body : Bytes) (req : RedeemRequest)
      → check_redeem json keys body ≡ ok req
      → json.redeem_request body ≡ some req
  unfolding check_redeem
  check_redeem-parses json keys body req h = ground (arith, h)

  redeem_checked-once :
      (φ : S.Env) (s : S.State) (req : RedeemRequest) (id : SpendId)
      → (redeem_checked S φ s (ok req)).0 ≡ ok id
      → (id ≡ token_spend_id req.token)
        × ((S.insert φ s (token_spend_id req.token)).0 ≡ inserted)
        × ((redeem_checked S φ s (ok req)).1 ≡ (S.insert φ s (token_spend_id req.token)).1)
  unfolding redeem_checked
  redeem_checked-once φ s req id h = ground arith

  -- Requests to redeem, one after the other, each with what the storage does in it.
  abbrev pub redeem_all : Json → EpochKeys → List (S.Env × Bytes) → S.State → S.State
  redeem_all json keys [] s = s
  redeem_all json keys ((φ, body) ∷ more) s =
      redeem_all json keys more (redeem S json φ keys s body).1

  -- What a redemption that succeeds was of.
  redeem-parts :
      (json : Json) (φ : S.Env) (keys : EpochKeys) (s : S.State) (body : Bytes) (id : SpendId)
      → (redeem S json φ keys s body).0 ≡ ok id
      → (req : RedeemRequest) × (json.redeem_request body ≡ some req)
        × (token_verify keys.public req.token ≡ ok tt)
        × (id ≡ token_spend_id req.token)
        × (S.is_spent s id ≡ false)
        × (S.is_spent (redeem S json φ keys s body).1 id ≡ true)
  unfolding redeem redeem_checked
  redeem-parts json φ keys s body id got = elim (Result-cases (check_redeem json keys body)) [
    | inr (e, h) ↦ absurd (ground (arith, subst (λ c. (redeem_checked S φ s c).0 ≡ ok id) h got))
    | inl (req, h) ↦
        let got' : (redeem_checked S φ s (ok req)).0 ≡ ok id =
          subst (λ c. (redeem_checked S φ s c).0 ≡ ok id) h got in
        let (is, fresh, next) = redeem_checked-once φ s req id got' in
        let (before, after) = S.insert-new φ s (token_spend_id req.token) fresh in
        (
          req,
          check_redeem-parses json keys body req h,
          check_redeem-verifies json keys body req h,
          is,
          subst (λ k. S.is_spent s k ≡ false) (sym is) before,
          rw h (rw next (rw is after)),
        )
  ]

  -- A request keeps what is spent.
  redeem-keeps :
      (json : Json) (φ : S.Env) (keys : EpochKeys) (s : S.State) (body : Bytes) (id : SpendId)
      → S.is_spent s id ≡ true
      → S.is_spent (redeem S json φ keys s body).1 id ≡ true
  unfolding redeem redeem_checked
  redeem-keeps json φ keys s body id h = elim (Result-cases (check_redeem json keys body)) [
    | inr (e, bad) ↦ rw bad h
    | inl (req, good) ↦ rw good (S.insert-keeps φ s (token_spend_id req.token) id h)
  ]

  redeem_all-keeps :
      (json : Json) (keys : EpochKeys) (more : List (S.Env × Bytes)) (s : S.State) (id : SpendId)
      → S.is_spent s id ≡ true
      → S.is_spent (redeem_all json keys more s) id ≡ true
  redeem_all-keeps json keys [] s id h = h
  redeem_all-keeps json keys ((φ, body) ∷ more) s id h =
      redeem_all-keeps json keys more (redeem S json φ keys s body).1 id
        (redeem-keeps json φ keys s body id h)

  -- A redemption that succeeds was of a request whose token verifies under the issuer's key, and
  -- answers with the token's id, which was not spent. After any sequence of further requests, whatever
  -- they hold and whatever the storage does in them, the id is still spent, and no request is ever
  -- answered with it again.
  pub redeem_burns :
      (json : Json) (φ φ' : S.Env) (keys : EpochKeys) (s : S.State) (body later : Bytes)
      (more : List (S.Env × Bytes)) (id : SpendId)
      → (redeem S json φ keys s body).0 ≡ ok id
      → let s' = redeem_all json keys more (redeem S json φ keys s body).1 in
        ((req : RedeemRequest) × (json.redeem_request body ≡ some req)
          × (token_verify keys.public req.token ≡ ok tt)
          × (id ≡ token_spend_id req.token))
        × (S.is_spent s id ≡ false)
        × (S.is_spent s' id ≡ true)
        × ((redeem S json φ' keys s' later).0 ≢ ok id)
  redeem_burns json φ φ' keys s body later more id got =
      let (req, parsed, good, is, before, after) = redeem-parts json φ keys s body id got in
      let s' = redeem_all json keys more (redeem S json φ keys s body).1 in
      let kept = redeem_all-keeps json keys more (redeem S json φ keys s body).1 id after in
      (
        (req, parsed, good, is),
        before,
        kept,
        λ again.
            let (req', parsed', good', is', fresh, after') =
              redeem-parts json φ' keys s' later id again in
            true-ne_false (S.is_spent s' id) kept fresh,
      )

module _ (L : CreditLedger) where
  -- A request that parses has its credits granted if the caller presents exactly the secret; any
  -- other header is refused, and the ledger stays as it is.
  pub admin_grant_guarded :
      (json : Json) (φ : L.Env) (secret header body : Bytes) (s : L.State) (g : GrantRequest)
      → All IsByte secret
      → All IsByte header
      → json.grant_request body ≡ some g
      → ((header ≡ secret)
          × (admin_grant L json φ secret s (some header) body
              ≡ (ok tt, L.grant φ s g.account_id g.amount)))
        ⊎ ((header ≢ secret)
            × (admin_grant L json φ secret s (some header) body ≡ (err unauthorized, s)))
  unfolding admin_grant
  admin_grant_guarded json φ secret header body s g bs bh parsed =
      elim (Bool-cases (ct_eq header secret)) [
        | inl yes_ ↦ inl ((ct_eq_iff header secret bh bs).0 yes_, rw yes_ (rw parsed))
        | inr no_ ↦ inr ((λ e. ground (arith, no_, (ct_eq_iff header secret bh bs).1 e)), rw no_)
      ]
