-- ===== src/Client/Batches.antt =====
-- crates/lluma-client/src/lib.rs and crates/lluma-issuer/src/client.rs: the loops that blind and unblind
-- a batch of tokens, which the two clients write alike.
use lluma.Common.{
  ℕ, zero, suc, ◌≡◌, refl, ap, sym, subst, ◌∙◌, some, List, [], ◌∷◌, Bytes, length, All, ok, ◌>>=◌,
  >>=-eq-ok, ok-injective, arith,
}
use lluma.Core.Wire.{Token, BlindSignature, BlindedTokenRequest}
use lluma.Crypto.Account.{Fallible}
use lluma.Crypto.Tokens.{BlindRsa, token_blind, token_unblind, token_verify, token_unblind-verifies}

module _ ⦃B : BlindRsa⦄ where
  -- The loop that blinds, with the states and the requests in order.
  unfoldable pub blind_all :
      ℕ → B.Rng → Bytes → Fallible (List Bytes × List BlindedTokenRequest) × B.Rng
  blind_all zero rng pk = (ok ([], []), rng)
  blind_all (suc count) rng pk =
      let (made, rng1) = token_blind rng pk in
      let (rest, rng2) = blind_all count rng1 pk in
      ((do one ← made; more ← rest; ok (one.0 ∷ more.0, one.1 ∷ more.1)), rng2)

  -- The loop that unblinds, along the shorter of the two lists.
  unfoldable pub unblind_all : Bytes → List Bytes → List BlindSignature → Fallible (List Token)
  unblind_all pk [] sigs = ok []
  unblind_all pk (st ∷ states) [] = ok []
  unblind_all pk (st ∷ states) (sig ∷ sigs) = do
    token ← token_unblind pk st sig
    tokens ← unblind_all pk states sigs
    ok (token ∷ tokens)

  -- What was blinded has as many states as requests.
  pub blind_all-length :
      (count : ℕ) (rng : B.Rng) (pk : Bytes) (states blinded : List Bytes)
      → (blind_all count rng pk).0 ≡ ok (states, blinded)
      → length states ≡ count
  unfolding blind_all
  blind_all-length zero rng pk states blinded h = ground (arith, h)
  blind_all-length (suc count) rng pk states blinded h =
      let (one, o, h1) = >>=-eq-ok (token_blind rng pk).0 _ h in
      let ((more, reqs), m, h2) =
        >>=-eq-ok (blind_all count (token_blind rng pk).1 pk).0 (λ r. ok (one.0 ∷ r.0, one.1 ∷ r.1))
          h1 in
      let ih = blind_all-length count (token_blind rng pk).1 pk more reqs m in
      ap length (sym (ap (λ (p : List Bytes × List Bytes). p.0) (ok-injective h2))) ∙ ap suc ih

  -- A token under a key.
  abbrev pub IsToken : Bytes → Token → Type 0
  IsToken pk token = (length token ≡ 320) × (token_verify pk token ≡ ok tt)

  pub unblind_all-verifies :
      (pk : Bytes) (states : List Bytes) (sigs : List BlindSignature) (tokens : List Token)
      (rsa_pk : B.PublicKey)
      → B.public_from_der pk ≡ some rsa_pk
      → B.size rsa_pk ≡ 256
      → length sigs ≡ length states
      → unblind_all pk states sigs ≡ ok tokens
      → (length tokens ≡ length states) × All (IsToken pk) tokens
  unfolding unblind_all
  unblind_all-verifies pk [] sigs tokens rsa_pk key size same h =
      subst (λ l. (length l ≡ 0) × All (IsToken pk) l) (ok-injective h) (refl, tt)
  unblind_all-verifies pk (st ∷ states) [] tokens rsa_pk key size same h =
      absurd (omega (arith, same))
  unblind_all-verifies pk (st ∷ states) (sig ∷ sigs) tokens rsa_pk key size same h =
      let (token, t, h1) = >>=-eq-ok (token_unblind pk st sig) _ h in
      let (more, m, h2) = >>=-eq-ok (unblind_all pk states sigs) (λ l. ok (token ∷ l)) h1 in
      let good = token_unblind-verifies pk st sig token rsa_pk key size t in
      let (len, rest) =
        unblind_all-verifies pk states sigs more rsa_pk key size (omega (arith, same)) m in
      subst (λ l. (length l ≡ suc (length states)) × All (IsToken pk) l) (ok-injective h2)
        (ap suc len, (good, rest))
