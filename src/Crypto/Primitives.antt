-- ===== src/Crypto/Primitives.antt =====
-- What lluma-crypto takes from other packages: Ed25519 (ed25519-dalek), BLAKE3 (blake3), and the
-- postcard encoding of each signed body. Nothing here is defined by the repository.
use lluma.Common.{◌<◌, ◌^◌, ◌≡◌, Bool, true, Option, some, Bytes, length}
use lluma.Core.Wire.{
  Array32, UsageReceiptBody, IssueRequestBody, HostRegisterBody, HeartbeatBody, SnapshotBody,
  BlindedTokenRequest,
}
use mathlib.Core.List.{List}

pub record Primitives : Type 0 where
  -- `blake3::hash`, a digest of 32 bytes.
  pub blake3 : Bytes → Array32
  pub blake3_bound : (m : Bytes) → blake3 m < 256 ^ 32
  -- `VerifyingKey::from_bytes` accepts, and `SigningKey::verifying_key().to_bytes()`.
  pub key_ok : Bytes → Bool
  pub public_of : Bytes → Bytes
  -- `SigningKey::sign(msg).to_bytes()` and `VerifyingKey::verify(msg, sig)`.
  pub sign : Bytes → Bytes → Bytes
  pub verify : Bytes → Bytes → Bytes → Bool
  -- RFC 8032: a signature is 64 bytes, and verifies under the public key of its secret key.
  pub length-sign : (sk m : Bytes) → length (sign sk m) ≡ 64
  pub length-public_of : (sk : Bytes) → length (public_of sk) ≡ 32
  pub key_ok-public_of : (sk : Bytes) → key_ok (public_of sk) ≡ true
  pub verify-sign : (sk m : Bytes) → verify (public_of sk) m (sign sk m) ≡ true
  -- `postcard::to_stdvec` on each type; `none` is its error.
  pub encode_receipt : UsageReceiptBody → Option Bytes
  pub encode_issue : IssueRequestBody → Option Bytes
  pub encode_host_register : HostRegisterBody → Option Bytes
  pub encode_heartbeat : HeartbeatBody → Option Bytes
  pub encode_blinded : List BlindedTokenRequest → Option Bytes
  pub encode_snapshot : SnapshotBody → Option Bytes
  -- `postcard::from_bytes`, and that it undoes the encoding.
  pub decode_snapshot : Bytes → Option SnapshotBody
  pub decode-encode_snapshot :
      (b : SnapshotBody) (e : Bytes) → encode_snapshot b ≡ some e → decode_snapshot e ≡ some b
