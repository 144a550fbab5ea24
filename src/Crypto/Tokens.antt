-- ===== src/Crypto/Tokens.antt =====
-- crates/lluma-crypto/src/tokens.rs: blind entitlement tokens. The package blind-rsa-signatures is a
-- parameter; a random number generator is its state, which each draw moves on. A `[u8; 32]` is the
-- list of its 32 bytes here, since a token is cut into such slices.
use lluma.Common.{
  ℕ, ◌≡◌, Bool, true, false, not, Option, none, some, Bytes, length, take, drop, ◌++◌, ◌==◌, Result,
  ok, err, ok_or, ◌>>=◌, if◌then◌else◌, arith, ensure, ◌>>◌, sym, ap, subst, >>=-eq-ok,
  ok-injective, length-append, ◌+◌, refl, List, [], ◌∷◌, ok_or-eq-ok, ◌∙◌,
}
use lluma.Core.Wire.{
  Array32, be_bytes, length-be_bytes, SpendId, Token, BlindSignature, BlindedTokenRequest,
}
use lluma.Crypto.Primitives.{Primitives}
use lluma.Crypto.Account.{CryptoError, Fallible, token_invalid, blind, encoding}
use lluma.Crypto.Tokens.Slices.{append_assoc, take-front, drop-front}
pub mod Slices

-- `BlindingResult`
pub record BlindingResult : Type 0 where
  pub blind_message : Bytes
  pub secret : Bytes
  pub msg_randomizer : Option Bytes

-- `BlindStateTuple`
pub record BlindStateTuple : Type 0 where
  pub nonce : Bytes
  pub blind_message : Bytes
  pub secret : Bytes
  pub randomizer : Bytes

pub record BlindRsa : Type 1 where
  pub Rng : Type 0
  pub PublicKey : Type 0
  pub SecretKey : Type 0
  -- `fill_bytes` on 32 bytes.
  pub draw : Rng → Bytes × Rng
  pub generate : Rng → ℕ → Option (SecretKey × PublicKey) × Rng
  pub secret_to_der : SecretKey → Option Bytes
  pub public_to_der : PublicKey → Option Bytes
  pub secret_from_der : Bytes → Option SecretKey
  pub public_from_der : Bytes → Option PublicKey
  pub blind : PublicKey → Rng → Bytes → Option BlindingResult × Rng
  pub blind_sign : SecretKey → Rng → Bytes → Option Bytes × Rng
  pub finalize : PublicKey → Bytes → BlindingResult → Bytes → Option Bytes
  pub verify : PublicKey → Bytes → Option Bytes → Bytes → Bool
  -- The length of a signature under a key, in bytes.
  pub size : PublicKey → ℕ
  -- RFC 9474, 4.4: `finalize` checks the signature that it returns, which is as long as the modulus.
  pub finalize-verify :
      (pk : PublicKey) (bs : Bytes) (b : BlindingResult) (nonce sig : Bytes)
      → finalize pk bs b nonce ≡ some sig
      → (verify pk sig b.msg_randomizer nonce ≡ true) × (length sig ≡ size pk)
  -- `postcard` on the state that a client keeps, and that decoding undoes encoding.
  pub encode_state : BlindStateTuple → Option Bytes
  pub decode_state : Bytes → Option BlindStateTuple
  pub decode-encode_state :
      (st : BlindStateTuple) (e : Bytes) → encode_state st ≡ some e → decode_state e ≡ some st
  pub decode_state-lengths :
      (e : Bytes) (st : BlindStateTuple)
      → decode_state e ≡ some st
      → (length st.nonce ≡ 32) × (length st.randomizer ≡ 32)

abbrev modulus_bits : ℕ
modulus_bits = 2048

unfoldable pub split_token : Token → Fallible (Bytes × Bytes × Bytes)
split_token token =
    if not (length token == 320)
    then err token_invalid
    else ok (take 32 token, take 32 (drop 32 token), drop 64 token)

module _ ⦃B : BlindRsa⦄ where
  pub issuer_keygen : B.Rng → Fallible (Bytes × Bytes) × B.Rng
  issuer_keygen rng =
      let (made, rng') = B.generate rng modulus_bits in
      (
        (do
          kp ← ok_or made blind
          sk_der ← ok_or (B.secret_to_der kp.0) blind
          pk_der ← ok_or (B.public_to_der kp.1) blind
          ok (sk_der, pk_der)),
        rng',
      )

  -- What a blinding gives the client: its state, and the request.
  unfoldable keep_blinding : Bytes → BlindingResult → Fallible (Bytes × BlindedTokenRequest)
  keep_blinding nonce blinding = do
    randomizer ← ok_or blinding.msg_randomizer blind
    state ←
        ok_or
          (B.encode_state (record {
            nonce = nonce;
            blind_message = blinding.blind_message;
            secret = blinding.secret;
            randomizer = randomizer;
          }))
          encoding
    ok (state, blinding.blind_message)

  unfoldable pub token_blind : B.Rng → Bytes → Fallible (Bytes × BlindedTokenRequest) × B.Rng
  unfolding keep_blinding
  token_blind rng pk =
      let (nonce, rng1) = B.draw rng in
      elim (B.public_from_der pk) [
        | none ↦ (err blind, rng1)
        | some rsa_pk ↦
            let (made, rng2) = B.blind rsa_pk rng1 nonce in
            (ok_or made blind >>= keep_blinding nonce, rng2)
      ]

  unfoldable pub token_issue : B.Rng → Bytes → BlindedTokenRequest → Fallible BlindSignature × B.Rng
  token_issue rng sk req = elim (B.secret_from_der sk) [
    | none ↦ (err blind, rng)
    | some rsa_sk ↦ let (sig, rng') = B.blind_sign rsa_sk rng req in (ok_or sig blind, rng')
  ]

  unfoldable pub token_unblind : Bytes → Bytes → BlindSignature → Fallible Token
  token_unblind pk st sig = do
    kept ← ok_or (B.decode_state st) encoding
    rsa_pk ← ok_or (B.public_from_der pk) blind
    signature ←
        ok_or
          (B.finalize rsa_pk sig
            (record {
              blind_message = kept.blind_message;
              secret = kept.secret;
              msg_randomizer = some kept.randomizer;
            })
            kept.nonce)
          blind
    ok (kept.nonce ++ (kept.randomizer ++ signature))

  unfoldable pub token_verify : Bytes → Token → Fallible (Unit {0})
  unfolding split_token
  token_verify pk token = do
    parts ← split_token token
    ensure (length parts.1 == 32) token_invalid
    rsa_pk ← ok_or (B.public_from_der pk) token_invalid
    ensure (B.verify rsa_pk parts.2 (some parts.1) parts.0) token_invalid

unfoldable pub token_spend_id : ⦃C : Primitives⦄ → Token → SpendId
token_spend_id ⦃C⦄ token = C.blake3 token

length-join :
    (nonce randomizer sig : Bytes)
    → length nonce ≡ 32
    → length randomizer ≡ 32
    → length sig ≡ 256
    → length (nonce ++ (randomizer ++ sig)) ≡ 320
length-join nonce randomizer sig n r s =
    omega (arith, length-append nonce (randomizer ++ sig), length-append randomizer sig)

drop_two-join :
    (nonce randomizer sig : Bytes)
    → length nonce ≡ 32
    → length randomizer ≡ 32
    → drop 64 (nonce ++ (randomizer ++ sig)) ≡ sig
drop_two-join nonce randomizer sig n r =
    subst (λ xs. drop 64 xs ≡ sig) (append_assoc nonce randomizer sig)
      (drop-front 64 (nonce ++ randomizer) sig
        (omega (arith, length-append nonce randomizer, n, r)))

-- The bytes of a token come apart where they were put together.
split_token-join :
    (nonce randomizer sig : Bytes)
    → length nonce ≡ 32
    → length randomizer ≡ 32
    → length sig ≡ 256
    → split_token (nonce ++ (randomizer ++ sig)) ≡ ok (nonce, randomizer, sig)
unfolding split_token
split_token-join nonce randomizer sig n r s = rw (length-join nonce randomizer sig n r s) (
    rw (drop_two-join nonce randomizer sig n r) (
      rw (drop-front 32 nonce (randomizer ++ sig) n)
        (rw (take-front 32 nonce (randomizer ++ sig) n) (rw (take-front 32 randomizer sig r)))))

module _ ⦃B : BlindRsa⦄ where
  -- What `token_verify` comes to on a token that was put together from its parts.
  token_verify-join :
      (pk nonce randomizer sig : Bytes) (rsa_pk : B.PublicKey)
      → B.public_from_der pk ≡ some rsa_pk
      → length nonce ≡ 32
      → length randomizer ≡ 32
      → length sig ≡ 256
      → B.verify rsa_pk sig (some randomizer) nonce ≡ true
      → token_verify pk (nonce ++ (randomizer ++ sig)) ≡ ok tt
  unfolding token_verify
  token_verify-join pk nonce randomizer sig rsa_pk parsed n r s good =
      rw (split_token-join nonce randomizer sig n r s) (rw r (rw parsed (rw good)))

  -- A token that a client unblinds under a key whose signatures have 256 bytes is 320 bytes long and
  -- verifies under that key, whatever state and whatever blind signature it was made from: what does
  -- not verify is never handed out.
  pub token_unblind-verifies :
      (pk st : Bytes) (sig : BlindSignature) (token : Token) (rsa_pk : B.PublicKey)
      → B.public_from_der pk ≡ some rsa_pk
      → B.size rsa_pk ≡ 256
      → token_unblind pk st sig ≡ ok token
      → (length token ≡ 320) × (token_verify pk token ≡ ok tt)
  unfolding token_unblind
  token_unblind-verifies pk st sig token rsa_pk parsed size h =
      let (kept, d, h1) = >>=-eq-ok (ok_or (B.decode_state st) encoding) _ h in
      let (key, k, h2) = >>=-eq-ok (ok_or (B.public_from_der pk) blind) _ h1 in
      let (out, f, h3) = >>=-eq-ok (ok_or (B.finalize key sig _ kept.nonce) blind) _ h2 in
      let same : key ≡ rsa_pk = ground (arith, k, parsed) in
      let lens = B.decode_state-lengths st kept (ok_or-eq-ok _ _ _ d) in
      let good = B.finalize-verify key sig _ kept.nonce out (ok_or-eq-ok _ _ _ f) in
      subst (λ t. (length t ≡ 320) × (token_verify pk t ≡ ok tt)) (ok-injective h3)
        (
          length-join kept.nonce kept.randomizer out lens.0 lens.1
              (good.1 ∙ (ap B.size same ∙ size)),
          token_verify-join pk kept.nonce kept.randomizer out key (ok_or-eq-ok _ _ _ k) lens.0
              lens.1 (good.1 ∙ (ap B.size same ∙ size)) good.0,
        )
