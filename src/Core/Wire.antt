-- ===== src/Core/Wire.antt =====
-- crates/lluma-core/src/wire.rs and model.rs: the types of the wire protocol. A fixed array
-- `[u8; 32]` is the number that its bytes write, the first byte highest: two arrays are equal, or in
-- the order of their bytes, as their numbers are. A `Vec<u8>` is the list of its bytes.
use lluma.Common.{
  ℕ, zero, suc, ◌/◌, ◌%◌, ◌^◌, ◌+◌, ◌*◌, ◌==◌, ◌≡◌, refl, ap, String, List, [], ◌∷◌, Bytes, length,
  Option, some, none, if◌then◌else◌,
}

-- A `[u8; 32]`.
abbrev pub Array32 : Type 0
Array32 = ℕ

-- The bytes of a fixed array of the given width.
unfoldable pub be_bytes : ℕ → ℕ → Bytes
be_bytes zero x = []
be_bytes (suc n) x = (x / 256 ^ n) % 256 ∷ be_bytes n x

pub length-be_bytes : (n x : ℕ) → length (be_bytes n x) ≡ n
unfolding be_bytes
length-be_bytes zero x = refl
length-be_bytes (suc n) x = ap suc (length-be_bytes n x)

-- The number that bytes write, the first one highest.
abbrev pub written : ℕ → Bytes → ℕ
written acc [] = acc
written acc (b ∷ bs) = written (acc * 256 + b) bs

-- `try_into` an array of 32 bytes.
unfoldable pub to_array32 : Bytes → Option Array32
to_array32 bs = if length bs == 32 then some (written 0 bs) else none

abbrev pub SpendId : Type 0
SpendId = Array32

abbrev pub AccountId : Type 0
AccountId = Array32

abbrev pub AccountPublicKey : Type 0
AccountPublicKey = Bytes

abbrev pub AccountSecretKey : Type 0
AccountSecretKey = Bytes

abbrev pub ReceiptSignature : Type 0
ReceiptSignature = Bytes

abbrev pub IssueSignature : Type 0
IssueSignature = Bytes

abbrev pub BlindedTokenRequest : Type 0
BlindedTokenRequest = Bytes

abbrev pub BlindSignature : Type 0
BlindSignature = Bytes

abbrev pub Token : Type 0
Token = Bytes

abbrev pub SealedRequest : Type 0
SealedRequest = Bytes

abbrev pub ResponsePreamble : Type 0
ResponsePreamble = Bytes

abbrev pub ModelId : Type 0
ModelId = String

pub record UsageReceiptBody : Type 0 where
  pub version : ℕ
  pub host_account : Array32
  pub model_id : ModelId
  pub tier : ℕ
  pub units : ℕ
  pub spend_id : Array32
  pub epoch : ℕ
  pub timestamp_h : ℕ

pub record IssueRequestBody : Type 0 where
  pub version : ℕ
  pub account : Array32
  pub key_id : Array32
  pub request_id : Array32
  pub ts_unix_s : ℕ
  pub blinded_batch_hash : Array32

pub record HostRegisterBody : Type 0 where
  pub version : ℕ
  pub host_account : Array32
  pub hpke_pk : Bytes
  pub ingress_addr : String
  pub models : List ModelId

pub record HeartbeatBody : Type 0 where
  pub version : ℕ
  pub host_account : Array32
  pub hb_counter : ℕ
  pub load_bucket : ℕ
  pub models : List ModelId

pub record TrialRegisterBody : Type 0 where
  pub version : ℕ
  pub account : Array32

pub record SnapshotHostEntry : Type 0 where
  pub host_account : Array32
  pub hpke_pk : Bytes
  pub models : List ModelId
  pub tier_flags : ℕ
  pub load_bucket : ℕ
  pub freshness_bucket : ℕ

pub record SnapshotHeader : Type 0 where
  pub epoch : ℕ
  pub issued_at_h : ℕ
  pub issuer_key_id : Array32

pub record SnapshotBody : Type 0 where
  pub header : SnapshotHeader
  pub hosts : List SnapshotHostEntry

pub record BootstrapDoc : Type 0 where
  pub version : ℕ
  pub relay_url : String
  pub gateway_kc : Bytes
  pub issuer_key_id : Array32
  pub issued_at_s : ℕ
  pub tunnel_url : Option String
  pub pow_difficulty : Option ℕ
  pub epoch_salt : Option Array32
