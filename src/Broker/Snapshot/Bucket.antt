-- ===== src/Broker/Snapshot/Bucket.antt =====
-- crates/lluma-broker/src/snapshot.rs: the bucket has one size, and gives back what was put in.
use lluma.Common.{
  ℕ, zero, suc, ◌+◌, ◌-◌, ◌/◌, ◌%◌, ◌≡◌, ◌≤◌, ◌<◌, refl, ap, subst, ◌∙◌, some, List, [], ◌∷◌, ◌++◌,
  Bytes, length, take, drop, ok, ok_or, >>=-eq-ok, ok_or-eq-ok, arith, ◌^◌, length-append,
  take-length-append,
}
use lluma.Core.Wire.{SnapshotBody}
use lluma.Crypto.Primitives.{Primitives}
use lluma.Broker.Config.{storage}
use lluma.Broker.Snapshot.{
  zeros, copy_at, to_le_bytes, from_le_bytes, encode_and_pad, pad, unpad, snapshot_bucket,
}

length-zeros : (n : ℕ) → length (zeros n) ≡ n
unfolding zeros
length-zeros zero = refl
length-zeros (suc n) = ap suc (length-zeros n)

from_le-to_le :
    (n : ℕ)
    → n < 2 ^ 32
    → from_le_bytes (n % 256) ((n / 256) % 256) ((n / 65536) % 256) ((n / 16777216) % 256) ≡ n
unfolding from_le_bytes
from_le-to_le n h = omega arith

length-take {ℓ} : {A : Type ℓ} (n : ℕ) (xs : List A) → n ≤ length xs → length (take n xs) ≡ n
length-take zero xs h = refl
length-take (suc n) [] h = absurd (omega (arith, h))
length-take (suc n) (x ∷ xs) h = ap suc (length-take n xs (omega (arith, h)))

length-drop {ℓ} : {A : Type ℓ} (n : ℕ) (xs : List A) → length (drop n xs) ≡ length xs - n
length-drop zero xs = omega arith
length-drop (suc n) [] = omega arith
length-drop (suc n) (x ∷ xs) = omega (arith, length-drop n xs)

-- A copy that fits keeps the length.
length-copy_at :
    (n : ℕ) (src out : Bytes)
    → n + length src ≤ length out
    → length (copy_at n src out) ≡ length out
unfolding copy_at
length-copy_at n src out h = omega (
  arith,
  length-append (take n out) (src ++ drop (n + length src) out),
  length-append src (drop (n + length src) out),
  length-take n out (omega (arith, h)),
  length-drop (n + length src) out,
)

length-le_bytes : (n : ℕ) → 0 + length (to_le_bytes n) ≤ length (zeros snapshot_bucket)
unfolding to_le_bytes
length-le_bytes n = rw (length-zeros snapshot_bucket) (omega arith)

module _ ⦃C : Primitives⦄ where
  -- What `pad` returns, if it returns anything.
  abbrev first : Bytes → Bytes
  first enc = copy_at 0 (to_le_bytes (length enc % 2 ^ 32)) (zeros snapshot_bucket)

  pad-eq-ok :
      (enc out : Bytes)
      → pad enc ≡ ok out
      → (4 + length enc ≤ 65536) × (copy_at 4 enc (first enc) ≡ out)
  unfolding pad
  pad-eq-ok enc out h = ground arith

  length-first : (enc : Bytes) → length (first enc) ≡ 65536
  length-first enc =
      length-copy_at 0 (to_le_bytes (length enc % 2 ^ 32)) (zeros snapshot_bucket)
        (length-le_bytes (length enc % 2 ^ 32))
      ∙ length-zeros snapshot_bucket

  pad-length : (enc out : Bytes) → pad enc ≡ ok out → length out ≡ 65536
  pad-length enc out h =
      let (fits, is) = pad-eq-ok enc out h in
      subst (λ xs. length xs ≡ 65536) is
        (length-copy_at 4 enc (first enc) (omega (arith, fits, length-first enc))
          ∙ length-first enc)

  -- Whatever the number of hosts, what is published has 65536 bytes.
  pub encode_and_pad-length :
      (body : SnapshotBody) (out : Bytes) → encode_and_pad body ≡ ok out → length out ≡ 65536
  unfolding encode_and_pad
  encode_and_pad-length body out h =
      let (enc, e, h') = >>=-eq-ok (ok_or (C.encode_snapshot body) storage) _ h in
      pad-length enc out h'

  unpad-prefixed :
      (enc rest : Bytes) (body : SnapshotBody)
      → C.decode_snapshot enc ≡ some body
      → length enc < 2 ^ 32
      → unpad (to_le_bytes (length enc % 2 ^ 32) ++ (enc ++ rest)) ≡ ok body
  unfolding unpad to_le_bytes
  unpad-prefixed enc rest body d small =
      let same : length enc % 2 ^ 32 ≡ length enc = omega (arith, small) in
      rw same (
        rw (from_le-to_le (length enc) small)
          (rw (take-length-append enc rest) (rw d (ground (arith, length-append enc rest)))))

  unpad-pad :
      (enc out : Bytes) (body : SnapshotBody)
      → C.decode_snapshot enc ≡ some body
      → pad enc ≡ ok out
      → unpad out ≡ ok body
  unfolding copy_at to_le_bytes
  unpad-pad enc out body d h =
      let (fits, is) = pad-eq-ok enc out h in
      subst (λ xs. unpad xs ≡ ok body) is
        (unpad-prefixed enc (drop (4 + length enc) (first enc)) body d (omega (arith, fits)))

  -- The client reads back the body that the broker encoded.
  pub unpad-encode_and_pad :
      (body : SnapshotBody) (out : Bytes) → encode_and_pad body ≡ ok out → unpad out ≡ ok body
  unfolding encode_and_pad
  unpad-encode_and_pad body out h =
      let (enc, e, h') = >>=-eq-ok (ok_or (C.encode_snapshot body) storage) _ h in
      unpad-pad enc out body (C.decode-encode_snapshot body enc (ok_or-eq-ok _ _ _ e)) h'
