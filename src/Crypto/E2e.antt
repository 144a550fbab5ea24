-- ===== src/Crypto/E2e.antt =====
-- crates/lluma-crypto/src/e2e.rs: the inner seal between a client and its host, and the stream of
-- the answer. A context that a function borrows mutably is returned with the result.
use lluma.Common.{
  ℕ, ◌+◌, ◌≡◌, Bool, true, false, not, Option, none, some, [], ◌∷◌, ◌++◌, Bytes, codes, length,
  take, drop, ltb, ◌==◌, Result, ok, err, ok_or, ensure, ◌>>=◌, ◌>>◌, if◌then◌else◌,
}
use lluma.Core.Wire.{SealedRequest, ResponsePreamble}
use lluma.Crypto.Account.{CryptoError, Fallible, hpke, auth_failed, truncated, chunk_order}
use lluma.Crypto.Hpke.{Hpke}
pub mod Requests
pub mod Streams

-- `INFO` and `RESP_INFO`
abbrev pub info : Bytes
info = codes "lluma/e2e/v1"

abbrev pub resp_info : Bytes
resp_info = codes "lluma/e2e/response/v1"

-- `last as u8`
abbrev pub flag : Bool → ℕ
flag true = 1
flag false = 0

-- The second part of a result that may have failed, and the generator that was used.
abbrev pub Drawn : Type 0 → Type 0 → Type 0
Drawn Rng A = Fallible A × Rng

module _ ⦃H : Hpke⦄ where
  unfoldable pub host_keygen : H.Rng → Drawn H.Rng (Bytes × Bytes)
  host_keygen rng = let (pair, rng') = H.gen_keypair rng in (ok pair, rng')

  unfoldable pub session_keygen : H.Rng → Drawn H.Rng (Bytes × Bytes)
  session_keygen rng = let (pair, rng') = H.gen_keypair rng in (ok pair, rng')

  -- `kem_pk`, `kem_sk` and `EncappedKey::from_bytes`.
  abbrev pub kem_pk : Bytes → Fallible Bytes
  kem_pk bytes = ensure (H.public_ok bytes) hpke >> ok bytes

  abbrev pub kem_sk : Bytes → Fallible Bytes
  kem_sk bytes = ensure (H.secret_ok bytes) hpke >> ok bytes

  abbrev pub encapped : Bytes → Fallible Bytes
  encapped bytes = ensure (H.enc_ok bytes) hpke >> ok bytes

  -- A sender's context for a public key.
  unfoldable pub sender_for : H.Rng → Bytes → Bytes → Drawn H.Rng (Bytes × H.Sender)
  sender_for rng pk label = elim (kem_pk pk) [
    | err e ↦ (err e, rng)
    | ok key ↦ let (made, rng') = H.setup_sender rng key label in (ok_or made hpke, rng')
  ]

  -- A receiver's context, the encapsulated key first and the secret key second.
  unfoldable pub receiver_for : Bytes → Bytes → Bytes → Fallible H.Receiver
  receiver_for sk enc_bytes label = do
    enc ← encapped enc_bytes
    key ← kem_sk sk
    ok_or (H.setup_receiver key enc label) hpke

  abbrev pub seal_to : Bytes → Bytes → Bytes × H.Sender → Fallible SealedRequest
  seal_to aad inner (enc, ctx) = do ct ← ok_or (H.seal ctx inner aad).0 hpke; ok (enc ++ ct)

  unfoldable pub e2e_seal : H.Rng → Bytes → Bytes → Bytes → Bytes → Drawn H.Rng SealedRequest
  unfolding sender_for
  e2e_seal rng host_pk aad prompt reply_to =
      if not (length reply_to == 32)
      then (err hpke, rng)
      else (let (made, rng') = sender_for rng host_pk info in
          (made >>= seal_to aad (reply_to ++ prompt), rng'))

  abbrev pub split_reply : Bytes → Fallible (Bytes × Bytes)
  split_reply pt = if ltb (length pt) 32 then err auth_failed else ok (drop 32 pt, take 32 pt)

  unfoldable pub e2e_open : Bytes → Bytes → SealedRequest → Fallible (Bytes × Bytes)
  unfolding receiver_for
  e2e_open host_sk aad sealed =
      if ltb (length sealed) (H.enc_size + 32) then err auth_failed else (do
        ctx ← receiver_for host_sk (take H.enc_size sealed) info
        pt ← ok_or (H.unseal ctx (drop H.enc_size sealed) aad).0 auth_failed
        split_reply pt)

  unfoldable pub response_setup_host : H.Rng → Bytes → Drawn H.Rng (H.Sender × ResponsePreamble)
  unfolding sender_for
  response_setup_host rng reply_to =
      let (made, rng') = sender_for rng reply_to resp_info in
      (made >>= λ pair. ok (pair.1, pair.0), rng')

  unfoldable pub response_setup_client : Bytes → ResponsePreamble → Fallible H.Receiver
  unfolding receiver_for
  response_setup_client session_sk preamble = receiver_for session_sk preamble resp_info

  unfoldable pub response_seal_chunk : H.Sender → Bytes → Bool → Fallible Bytes × H.Sender
  response_seal_chunk ctx chunk last =
      let (sealed, ctx') = H.seal ctx chunk (flag last ∷ []) in
      ((do ct ← ok_or sealed hpke; ok (flag last ∷ ct)), ctx')

  unfoldable pub response_open_chunk : H.Receiver → Bytes → Fallible (Bytes × Bool) × H.Receiver
  response_open_chunk ctx [] = (err truncated, ctx)
  response_open_chunk ctx (first ∷ rest) =
      let (opened, ctx') = H.unseal ctx rest (first ∷ []) in
      ((do pt ← ok_or opened chunk_order; ok (pt, first == 1)), ctx')
