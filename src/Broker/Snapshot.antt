-- ===== src/Broker/Snapshot.antt =====
-- crates/lluma-broker/src/snapshot.rs: the signed registry snapshot, of one fixed size.
pub mod Bucket
pub mod Published
use lluma.Common.{
  ℕ, zero, suc, ◌+◌, ◌*◌, ◌-◌, ◌/◌, ◌%◌, ◌≡◌, Option, none, some, List, [], ◌∷◌, ◌++◌, Bytes,
  length, take, drop, ltb, ◌==◌, not, Result, ok, err, ok_or, is_ok, ◌>>=◌, if◌then◌else◌, ◌^◌,
  ensure, ◌>>◌,
}
use lluma.Core.Wire.{
  Array32, AccountPublicKey, AccountSecretKey, SnapshotBody, SnapshotHeader, SnapshotHostEntry,
}
use lluma.Core.Proto.{SnapshotResponse, validate_snapshot_response}
use lluma.Crypto.Primitives.{Primitives}
use lluma.Crypto.Account.{snapshot_sign, snapshot_verify}
use lluma.Broker.Config.{BrokerError, storage, snapshot_too_large, snapshot_invalid}
use lluma.Broker.Db.{Redb}
use lluma.Broker.Store.{Store, HostRow, host_active, all_rows, with_read}

-- `SNAPSHOT_BUCKET` and `LEN_PREFIX`
abbrev pub snapshot_bucket : ℕ
snapshot_bucket = 65536

abbrev pub len_prefix : ℕ
len_prefix = 4

-- The entry of an active host.
abbrev pub entry_of : Array32 → HostRow → SnapshotHostEntry
entry_of host_account row = record {
  host_account = host_account;
  hpke_pk = row.hpke_pk;
  models = row.models;
  tier_flags = 0;
  load_bucket = row.load_bucket;
  freshness_bucket = 0;
}

-- The loop of `build`: hosts that are not active are skipped. Every key has 32 bytes.
unfoldable pub collect : List (ℕ × HostRow) → List SnapshotHostEntry
collect [] = []
collect ((k, row) ∷ es) =
    if not (row.status == host_active) then collect es else entry_of k row ∷ collect es

module _ ⦃R : Redb⦄ where
  unfoldable build_hosts : R.Fault → Store → Result BrokerError (List SnapshotHostEntry)
  build_hosts φ s = do es ← all_rows φ s.hosts; ok (collect es)

  unfoldable pub build : R.Fault → Store → SnapshotHeader → Result BrokerError SnapshotBody
  unfolding build_hosts
  build φ s header = do
    hosts ← with_read φ (build_hosts φ) s
    ok (record { header = header; hosts = hosts })

-- `vec![0u8; n]`
unfoldable pub zeros : ℕ → Bytes
zeros zero = []
zeros (suc n) = 0 ∷ zeros n

-- `out[at..at + src.len()].copy_from_slice(&src)`
unfoldable pub copy_at : ℕ → Bytes → Bytes → Bytes
copy_at n src out = take n out ++ (src ++ drop (n + length src) out)

-- `u32::to_le_bytes` and `u32::from_le_bytes`
unfoldable pub to_le_bytes : ℕ → Bytes
to_le_bytes n = n % 256 ∷ (n / 256) % 256 ∷ (n / 65536) % 256 ∷ (n / 16777216) % 256 ∷ []

unfoldable pub from_le_bytes : ℕ → ℕ → ℕ → ℕ → ℕ
from_le_bytes a b c d = a + 256 * b + 65536 * c + 16777216 * d

module _ ⦃C : Primitives⦄ where
  unfoldable pub pad : Bytes → Result BrokerError Bytes
  pad enc =
      if ltb snapshot_bucket (len_prefix + length enc)
      then err snapshot_too_large
      else ok (
          copy_at len_prefix enc
            (copy_at 0 (to_le_bytes (length enc % 2 ^ 32)) (zeros snapshot_bucket)))

  unfoldable pub encode_and_pad : SnapshotBody → Result BrokerError Bytes
  unfolding pad
  encode_and_pad body = do enc ← ok_or (C.encode_snapshot body) storage; pad enc

  -- The end of `publish`.
  unfoldable pub seal : SnapshotBody → AccountSecretKey → Result BrokerError SnapshotResponse
  unfolding encode_and_pad
  seal body registry_sk = do
    padded ← encode_and_pad body
    sig ← elim (snapshot_sign registry_sk padded) [ ok sig ↦ ok sig | err e ↦ err storage ]
    ok (record { body = padded; sig = sig })

  -- The end of `verify`: the prefix, and what it measures.
  unfoldable pub unpad : Bytes → Result BrokerError SnapshotBody
  unpad (a ∷ b ∷ c ∷ d ∷ rest) =
      if ltb (length rest) (from_le_bytes a b c d)
      then err snapshot_invalid
      else ok_or (C.decode_snapshot (take (from_le_bytes a b c d) rest)) snapshot_invalid
  unpad xs = err snapshot_invalid

  unfoldable pub verify : AccountPublicKey → SnapshotResponse → Result BrokerError SnapshotBody
  unfolding unpad
  verify registry_pk resp =
      if not (is_ok (validate_snapshot_response resp))
      then err snapshot_invalid
      else if not (is_ok (snapshot_verify registry_pk resp.body resp.sig))
      then err snapshot_invalid
      else unpad resp.body

module _ ⦃C : Primitives⦄ ⦃R : Redb⦄ where
  unfoldable pub publish :
      R.Fault → Store → SnapshotHeader → AccountSecretKey → Result BrokerError SnapshotResponse
  unfolding seal
  publish φ s header registry_sk = do body ← build φ s header; seal body registry_sk
