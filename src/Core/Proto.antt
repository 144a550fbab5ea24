-- ===== src/Core/Proto.antt =====
-- crates/lluma-core/src/proto.rs: the requests and responses, and `validate` on each.
use lluma.Common.{
  ℕ, Bool, ◌||◌, not, String, List, [], ◌∷◌, Bytes, length, is_empty, ltb, ◌==◌, Result, ok, ensure,
  ◌>>◌,
}
use lluma.Core.Wire.{
  Array32, AccountId, SpendId, Token, BlindSignature, BlindedTokenRequest, IssueSignature,
  SealedRequest, ResponsePreamble, UsageReceiptBody, IssueRequestBody, HostRegisterBody,
  HeartbeatBody, TrialRegisterBody,
}

-- The field names that `WrongLength` carries.
pub data Field : Type 0 where
  version sig pow_nonce ingress_addr hpke_pk token sealed preamble chunk body blinded auth_sig
        signatures :
      Field

pub data ProtoError : Type 0 where
  wrong_length : Field → ProtoError
  batch_size : ProtoError

abbrev pub Validation : Type 0
Validation = Result ProtoError (Unit {0})

abbrev pub issue_batch_max : ℕ
issue_batch_max = 64

abbrev pub denomination : ℕ
denomination = 1

abbrev pub max_sealed_len : ℕ
max_sealed_len = 1048576

-- `x.is_empty() || x.len() > MAX_SEALED_LEN`, negated.
abbrev sealed_len_ok : Bytes → Bool
sealed_len_ok xs = not (is_empty xs || ltb max_sealed_len (length xs))

abbrev is_empty_text : String → Bool
is_empty_text String.[] = Bool.true
is_empty_text (String.◌∷◌ c s) = Bool.false

pub record IssueRequest : Type 0 where
  pub body : IssueRequestBody
  pub blinded : List BlindedTokenRequest
  pub auth_sig : IssueSignature

pub record IssueResponse : Type 0 where
  pub key_id : Array32
  pub signatures : List BlindSignature

pub record RedeemRequest : Type 0 where
  pub key_id : Array32
  pub token : Token

pub record GrantRequest : Type 0 where
  pub account_id : AccountId
  pub amount : ℕ

pub record ExecRequest : Type 0 where
  pub key_id : Array32
  pub host_account : Array32
  pub token : Token
  pub sealed : SealedRequest

pub record ExecResponse : Type 0 where
  pub preamble : ResponsePreamble
  pub chunk : Bytes

pub record HostExecRequest : Type 0 where
  pub spend_id : SpendId
  pub sealed : SealedRequest

pub record HostRegisterRequest : Type 0 where
  pub body : HostRegisterBody
  pub sig : Bytes
  pub pow_nonce : Bytes

pub record HeartbeatRequest : Type 0 where
  pub body : HeartbeatBody
  pub sig : Bytes

pub record TrialRegisterRequest : Type 0 where
  pub body : TrialRegisterBody
  pub pow_nonce : Bytes

pub record ReceiptSubmit : Type 0 where
  pub body : UsageReceiptBody
  pub sig : Bytes

pub record SnapshotResponse : Type 0 where
  pub body : Bytes
  pub sig : Bytes

pub record SignedBootstrap : Type 0 where
  pub doc : Bytes
  pub sig : Bytes

pub record RedeemResponse : Type 0 where
  pub spend_id : SpendId

-- The frames of a tunnel, each with its version first.
pub data TunnelFrame : Type 0 where
  hello : ℕ → Array32 → TunnelFrame
  challenge : ℕ → Array32 → TunnelFrame
  auth : ℕ → Bytes → TunnelFrame
  auth_ok : ℕ → TunnelFrame
  job : ℕ → ℕ → SpendId → SealedRequest → TunnelFrame
  done : ℕ → ℕ → ResponsePreamble → Bytes → TunnelFrame
  fail : ℕ → ℕ → TunnelFrame

-- `IssueRequest.validate` and `IssueResponse.validate` go through their lists in order.
all_of_length : ℕ → Field → List Bytes → Validation
all_of_length n f [] = ok tt
all_of_length n f (x ∷ xs) = do ensure (length x == n) (wrong_length f); all_of_length n f xs

unfoldable pub validate_host_exec_request : HostExecRequest → Validation
validate_host_exec_request r = ensure (sealed_len_ok r.sealed) (wrong_length sealed)

unfoldable pub validate_exec_request : ExecRequest → Validation
validate_exec_request r = do
  ensure (length r.token == 320) (wrong_length token)
  ensure (sealed_len_ok r.sealed) (wrong_length sealed)

unfoldable pub validate_exec_response : ExecResponse → Validation
validate_exec_response r = do
  ensure (sealed_len_ok r.preamble) (wrong_length preamble)
  ensure (sealed_len_ok r.chunk) (wrong_length chunk)

unfoldable pub validate_host_register_request : HostRegisterRequest → Validation
validate_host_register_request r = do
  ensure (r.body.version == 1) (wrong_length version)
  ensure (length r.sig == 64) (wrong_length sig)
  ensure (length r.pow_nonce == 8) (wrong_length pow_nonce)
  ensure (not (is_empty_text r.body.ingress_addr)) (wrong_length ingress_addr)
  ensure (not (is_empty r.body.hpke_pk)) (wrong_length hpke_pk)

unfoldable pub validate_heartbeat_request : HeartbeatRequest → Validation
validate_heartbeat_request r = do
  ensure (r.body.version == 1) (wrong_length version)
  ensure (length r.sig == 64) (wrong_length sig)

unfoldable pub validate_trial_register_request : TrialRegisterRequest → Validation
validate_trial_register_request r = do
  ensure (r.body.version == 1) (wrong_length version)
  ensure (length r.pow_nonce == 8) (wrong_length pow_nonce)

unfoldable pub validate_receipt_submit : ReceiptSubmit → Validation
validate_receipt_submit r = do
  ensure (r.body.version == 1) (wrong_length version)
  ensure (length r.sig == 64) (wrong_length sig)

unfoldable pub validate_snapshot_response : SnapshotResponse → Validation
validate_snapshot_response r = do
  ensure (length r.sig == 64) (wrong_length sig)
  ensure (length r.body == 65536) (wrong_length body)

unfoldable pub validate_issue_request : IssueRequest → Validation
unfolding all_of_length
validate_issue_request r = do
  ensure (r.body.version == 1) (wrong_length version)
  ensure (not (is_empty r.blinded || ltb issue_batch_max (length r.blinded))) batch_size
  all_of_length 256 blinded r.blinded
  ensure (length r.auth_sig == 64) (wrong_length auth_sig)

unfoldable pub validate_issue_response : IssueResponse → Validation
unfolding all_of_length
validate_issue_response r = all_of_length 256 signatures r.signatures

unfoldable pub validate_redeem_request : RedeemRequest → Validation
validate_redeem_request r = ensure (length r.token == 320) (wrong_length token)
