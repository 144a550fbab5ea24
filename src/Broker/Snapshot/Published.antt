-- ===== src/Broker/Snapshot/Published.antt =====
-- crates/lluma-broker/src/snapshot.rs: which hosts a snapshot lists, and that a client which verifies
-- it reads exactly those.
use lluma.Common.{
  ℕ, suc, ◌≤◌, ◌<◌, ◌≡◌, inl, inr, refl, ap, sym, subst, ◌∙◌, Option, none, some, List, [], ◌∷◌,
  Bytes, length, ◌==◌, ok, >>=-eq-ok, arith, if◌then◌else◌, Bool-cases, Result-cases,
}
use lluma.Core.Wire.{
  Array32, AccountPublicKey, AccountSecretKey, ReceiptSignature, SnapshotBody, SnapshotHeader,
  SnapshotHostEntry,
}
use lluma.Core.Proto.{SnapshotResponse, validate_snapshot_response}
use lluma.Crypto.Primitives.{Primitives}
use lluma.Crypto.Account.{
  snapshot_sign, snapshot_verify, account_public_from_secret, snapshot_canonical, sign_with,
  verify_with-sign_with, public_from_secret-public_of, signing_key,
}
use lluma.Broker.Db.{Redb, IsAscending, find_row}
use lluma.Broker.Store.{Store, HostRow, host_active, all_rows, with_read, all_rows-rows}
use lluma.Broker.Snapshot.{collect, build, build_hosts, encode_and_pad, seal, verify, publish}
use lluma.Broker.Snapshot.Bucket.{encode_and_pad-length, unpad-encode_and_pad}

-- The entry of an account in a snapshot.
abbrev pub find_entry : Array32 → List SnapshotHostEntry → Option SnapshotHostEntry
find_entry j [] = none
find_entry j (e ∷ es) = if e.host_account == j then some e else find_entry j es

-- What the snapshot should say of a host.
abbrev pub published : Array32 → Option HostRow → Option SnapshotHostEntry
published j none = none
published j (some row) =
    if row.status == host_active
    then some (record {
      host_account = j;
      hpke_pk = row.hpke_pk;
      models = row.models;
      tier_flags = 0;
      load_bucket = row.load_bucket;
      freshness_bucket = 0;
    })
    else none

-- The accounts rise strictly along the list.
abbrev pub IsSorted : ℕ → List SnapshotHostEntry → Type 0
IsSorted lo [] = Unit
IsSorted lo (e ∷ es) = (lo ≤ e.host_account) × IsSorted (suc e.host_account) es

IsSorted-weaken :
    (lo lo' : ℕ) (es : List SnapshotHostEntry) → lo' ≤ lo → IsSorted lo es → IsSorted lo' es
IsSorted-weaken lo lo' [] h s = tt
IsSorted-weaken lo lo' (e ∷ es) h s = (omega (arith, h, s.0), s.1)

collect-IsSorted : (lo : ℕ) (es : List (ℕ × HostRow)) → IsAscending lo es → IsSorted lo (collect es)
unfolding collect
collect-IsSorted lo [] h = tt
collect-IsSorted lo ((k, row) ∷ es) h = elim (Bool-cases (row.status == host_active)) [
  | inl yes_ ↦ rw yes_ (h.0, collect-IsSorted (suc k) es h.1)
  | inr no_ ↦ rw no_ (
      IsSorted-weaken (suc k) lo (collect es) (omega (arith, h.0))
        (collect-IsSorted (suc k) es h.1))
]

-- A key below the bound is not in the list.
find_row-below :
    (lo j : ℕ) (es : List (ℕ × HostRow)) → IsAscending lo es → j < lo → find_row j es ≡ none
find_row-below lo j [] h lt = refl
find_row-below lo j ((k, row) ∷ es) h lt =
    ground (arith, h.0, lt, find_row-below (suc k) j es h.1 (omega (arith, h.0, lt)))

find_entry-collect :
    (lo : ℕ) (es : List (ℕ × HostRow)) (j : Array32)
    → IsAscending lo es
    → find_entry j (collect es) ≡ published j (find_row j es)
unfolding collect
find_entry-collect lo [] j h = refl
find_entry-collect lo ((k, row) ∷ es) j h =
    ground (arith, find_entry-collect (suc k) es j h.1, find_row-below (suc k) j es h.1)

module _ ⦃R : Redb⦄ where
  build-scan :
      (φ : R.Fault) (s : Store) (header : SnapshotHeader) (body : SnapshotBody)
      → build φ s header ≡ ok body
      → (es : List (ℕ × HostRow)) × (all_rows φ s.hosts ≡ ok es)
        × (record { header = header; hosts = collect es } ≡ body)
  unfolding build build_hosts with_read
  build-scan φ s header body h = elim (Result-cases (all_rows φ s.hosts)) [
    | inl (es, e) ↦ (es, e, ground (arith, h, e))
    | inr (bad, e) ↦ absurd (ground (arith, h, e))
  ]

  -- A snapshot lists every active host once, in the order of the accounts, with the key, the models
  -- and the load of its row, and no other host.
  pub build_lists :
      (φ : R.Fault) (s : Store) (header : SnapshotHeader) (body : SnapshotBody)
      → build φ s header ≡ ok body
      → (body.header ≡ header)
        × IsSorted 0 body.hosts
        × ((j : Array32) → find_entry j body.hosts ≡ published j (R.rows HostRow s.hosts j))
  build_lists φ s header body h =
      let (es, scan, same) = build-scan φ s header body h in
      let (rises, holds) = all_rows-rows φ s.hosts es scan in
      subst
        (λ b.
          (b.header ≡ header)
          × IsSorted 0 b.hosts
          × ((j : Array32) → find_entry j b.hosts ≡ published j (R.rows HostRow s.hosts j)))
        same
        (
          refl,
          collect-IsSorted 0 es rises,
          λ j. find_entry-collect 0 es j rises ∙ ap (published j) (holds j),
        )

module _ ⦃C : Primitives⦄ where
  seal-parts :
      (body : SnapshotBody) (sk : AccountSecretKey) (resp : SnapshotResponse)
      → seal body sk ≡ ok resp
      → (encode_and_pad body ≡ ok resp.body) × (snapshot_sign sk resp.body ≡ ok resp.sig)
  unfolding seal
  seal-parts body sk resp h = ground arith

  length-snapshot_sign :
      (sk : AccountSecretKey) (m : Bytes) (sig : ReceiptSignature)
      → snapshot_sign sk m ≡ ok sig
      → length sig ≡ 64
  unfolding snapshot_sign sign_with signing_key
  length-snapshot_sign sk m sig h = ground (arith, C.length-sign sk (snapshot_canonical m))

  snapshot_verify-snapshot_sign :
      (sk : AccountSecretKey) (pk : AccountPublicKey) (m : Bytes) (sig : ReceiptSignature)
      → account_public_from_secret sk ≡ ok pk
      → snapshot_sign sk m ≡ ok sig
      → snapshot_verify pk m sig ≡ ok tt
  unfolding snapshot_sign snapshot_verify
  snapshot_verify-snapshot_sign sk pk m sig hk h =
      subst (λ k. snapshot_verify k m sig ≡ ok tt) (public_from_secret-public_of sk pk hk)
        (verify_with-sign_with sk (ok (snapshot_canonical m)) sig h)

  verify-seal :
      (body : SnapshotBody) (sk : AccountSecretKey) (pk : AccountPublicKey)
      (resp : SnapshotResponse)
      → account_public_from_secret sk ≡ ok pk
      → seal body sk ≡ ok resp
      → verify pk resp ≡ ok body
  unfolding verify validate_snapshot_response
  verify-seal body sk pk resp hk h =
      let (padded, signed) = seal-parts body sk resp h in
      let good = snapshot_verify-snapshot_sign sk pk resp.body resp.sig hk signed in
      rw (length-snapshot_sign sk resp.body resp.sig signed) (
        rw (encode_and_pad-length body resp.body padded)
          (rw good (unpad-encode_and_pad body resp.body padded)))

module _ ⦃C : Primitives⦄ ⦃R : Redb⦄ where
  -- What the broker publishes has 65536 bytes, verifies under the public key of its registry key, and
  -- gives the client back the very body that was built from the store.
  pub publish-verifies :
      (φ : R.Fault) (s : Store) (header : SnapshotHeader) (sk : AccountSecretKey)
      (pk : AccountPublicKey) (resp : SnapshotResponse)
      → account_public_from_secret sk ≡ ok pk
      → publish φ s header sk ≡ ok resp
      → (length resp.body ≡ 65536) × (verify pk resp ≡ build φ s header)
  unfolding publish
  publish-verifies φ s header sk pk resp hk h =
      let (body, e, h') = >>=-eq-ok (build φ s header) _ h in
      (
        encode_and_pad-length body resp.body (seal-parts body sk resp h').0,
        verify-seal body sk pk resp hk h' ∙ sym e,
      )
