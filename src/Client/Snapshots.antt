-- ===== src/Client/Snapshots.antt =====
-- crates/lluma-client/src/lib.rs and crates/lluma-broker/src/snapshot.rs: the client's own check of a
-- snapshot against the broker's.
use lluma.Common.{
  ◌+◌, ◌≡◌, refl, Option, none, some, [], ◌∷◌, Bytes, length, take, drop, drop-take, ltb, Result,
  ok, err, ok_or, arith, Bool-cases, Result-cases, inl, inr,
}
use lluma.Core.Wire.{AccountPublicKey}
use lluma.Core.Proto.{SnapshotResponse, validate_snapshot_response}
use lluma.Crypto.Primitives.{Primitives}
use lluma.Crypto.Account.{snapshot_verify, verify_with}
use lluma.Broker.Config.{snapshot_invalid}
use lluma.Broker.Snapshot
use lluma.Broker.Snapshot.{unpad, from_le_bytes, len_prefix, snapshot_bucket}
use lluma.Client.Error.{protocol}
use lluma.Client.Verify.{verify_snapshot, measured}

-- What a check lets through, whichever error it reports.
abbrev pub value : {E A : Type 0} → Result E A → Option A
value (ok a) = some a
value (err e) = none

value-ok_or : {E A : Type 0} (o : Option A) (e : E) → value (ok_or o e) ≡ o
value-ok_or none e = refl
value-ok_or (some a) e = refl

module _ ⦃C : Primitives⦄ where
  measured-unpad : (body : Bytes) → value (measured body body) ≡ value (unpad body)
  unfolding measured unpad
  measured-unpad [] = refl
  measured-unpad (a ∷ []) = refl
  measured-unpad (a ∷ b ∷ []) = refl
  measured-unpad (a ∷ b ∷ c ∷ []) = refl
  measured-unpad (a ∷ b ∷ c ∷ d ∷ rest) =
      let n = from_le_bytes a b c d in
      let cut : drop 4 (take (4 + n) (a ∷ b ∷ c ∷ d ∷ rest)) ≡ take n rest =
        drop-take 4 n (a ∷ b ∷ c ∷ d ∷ rest) in
      elim (Bool-cases (ltb (length rest) n)) [
        | inl short ↦ ground (arith, short)
        | inr fits ↦ ground (
          arith,
          fits,
          cut,
          value-ok_or (C.decode_snapshot (take n rest)) protocol,
          value-ok_or (C.decode_snapshot (take n rest)) snapshot_invalid,
        )
      ]

  snapshot_verify-length :
      (pk : AccountPublicKey) (m sig : Bytes) → snapshot_verify pk m sig ≡ ok tt → length sig ≡ 64
  unfolding snapshot_verify verify_with
  snapshot_verify-length pk m sig h = ground (arith, h)

  -- The client's check of a snapshot and the broker's accept the same responses and read the same
  -- body of them; they differ in the errors that they report only.
  pub verify_snapshot-verify :
      (pk : AccountPublicKey) (sr : SnapshotResponse)
      → value (verify_snapshot pk sr) ≡ value (Snapshot.verify pk sr)
  unfolding verify_snapshot Snapshot.verify validate_snapshot_response
  verify_snapshot-verify pk sr = elim (Result-cases (snapshot_verify pk sr.body sr.sig)) [
    | inl (_, good) ↦
        ground (arith, good, snapshot_verify-length pk sr.body sr.sig good, measured-unpad sr.body)
    | inr (e, bad) ↦ ground (arith, bad)
  ]
