-- ===== src/Crypto/Account.antt =====
-- crates/lluma-crypto/src/account.rs: account identities, and signatures over bodies, each under
-- the domain of its purpose.
use lluma.Common.{
  true, ◌≡◌, Option, ◌++◌, Bytes, codes, length, ◌==◌, Result, ok, err, ok_or, arith, ensure, ◌>>=◌,
  ◌>>◌,
}
use lluma.Core.Wire.{
  Array32, be_bytes, AccountId, AccountPublicKey, AccountSecretKey, ReceiptSignature,
  IssueSignature, UsageReceiptBody, IssueRequestBody, HostRegisterBody, HeartbeatBody,
}
use lluma.Crypto.Primitives.{Primitives}

-- The texts that some of the variants carry are left out.
pub data CryptoError : Type 0 where
  token_invalid blind ohttp hpke truncated chunk_order auth_failed bad_signature derivation
        encoding :
      CryptoError

abbrev pub Fallible : Type 0 → Type 0
Fallible A = Result CryptoError A

abbrev pub receipt_domain : Bytes
receipt_domain = codes "lluma-usage-receipt-v1"

abbrev pub issue_request_domain : Bytes
issue_request_domain = codes "lluma-issue-request-v1"

abbrev pub host_register_domain : Bytes
host_register_domain = codes "lluma-host-register-v1"

abbrev pub heartbeat_domain : Bytes
heartbeat_domain = codes "lluma-heartbeat-v1"

abbrev pub snapshot_domain : Bytes
snapshot_domain = codes "lluma-registry-snapshot-v1"

abbrev pub bootstrap_domain : Bytes
bootstrap_domain = codes "lluma-bootstrap-v1"

abbrev pub tunnel_auth_domain : Bytes
tunnel_auth_domain = codes "lluma-host-tunnel-v1"

-- `out = DOMAIN.to_vec(); out.extend(enc)` where the encoding may fail.
abbrev pub prefixed : Bytes → Option Bytes → Fallible Bytes
prefixed domain enc = do e ← ok_or enc encoding; ok (domain ++ e)

module _ ⦃C : Primitives⦄ where
  unfoldable pub account_fingerprint : AccountPublicKey → AccountId
  account_fingerprint pk = C.blake3 pk

  -- The key that signs: a secret key of any other length than 32 is refused.
  unfoldable pub signing_key : AccountSecretKey → Fallible Bytes
  signing_key sk = do ensure (length sk == 32) derivation; ok sk

  unfoldable pub verifying_key : AccountPublicKey → Fallible Bytes
  verifying_key pk = do ensure (length pk == 32) derivation; ensure (C.key_ok pk) derivation; ok pk

  unfoldable pub account_public_from_secret : AccountSecretKey → Fallible AccountPublicKey
  unfolding signing_key
  account_public_from_secret sk = do key ← signing_key sk; ok (C.public_of key)

  unfoldable pub canonical : UsageReceiptBody → Fallible Bytes
  canonical body = prefixed receipt_domain (C.encode_receipt body)

  unfoldable pub issue_canonical : IssueRequestBody → Fallible Bytes
  issue_canonical body = prefixed issue_request_domain (C.encode_issue body)

  unfoldable pub host_register_canonical : HostRegisterBody → Fallible Bytes
  host_register_canonical body = prefixed host_register_domain (C.encode_host_register body)

  unfoldable pub heartbeat_canonical : HeartbeatBody → Fallible Bytes
  heartbeat_canonical body = prefixed heartbeat_domain (C.encode_heartbeat body)

  unfoldable pub snapshot_canonical : Bytes → Bytes
  snapshot_canonical snapshot_bytes = snapshot_domain ++ snapshot_bytes

  unfoldable pub bootstrap_canonical : Bytes → Bytes
  bootstrap_canonical doc_bytes = bootstrap_domain ++ doc_bytes

  unfoldable pub tunnel_auth_canonical : Array32 → Array32 → Array32 → Bytes
  tunnel_auth_canonical challenge host_account broker_key_id =
      tunnel_auth_domain
      ++ (be_bytes 32 challenge ++ (be_bytes 32 host_account ++ be_bytes 32 broker_key_id))

  -- The common body of the `_sign` functions: key first, then the message.
  unfoldable pub sign_with : AccountSecretKey → Fallible Bytes → Fallible Bytes
  unfolding signing_key
  sign_with sk message = do key ← signing_key sk; msg ← message; ok (C.sign key msg)

  -- The common body of the `_verify` functions: key, message, the length of the signature, check.
  unfoldable pub verify_with :
      AccountPublicKey → Fallible Bytes → ReceiptSignature → Fallible (Unit {0})
  unfolding verifying_key
  verify_with pk message sig = do
    key ← verifying_key pk
    msg ← message
    ensure (length sig == 64) bad_signature
    ensure (C.verify key msg sig) bad_signature

  unfoldable pub receipt_sign : AccountSecretKey → UsageReceiptBody → Fallible ReceiptSignature
  unfolding sign_with canonical
  receipt_sign sk body = sign_with sk (canonical body)

  unfoldable pub receipt_verify :
      AccountPublicKey → UsageReceiptBody → ReceiptSignature → Fallible (Unit {0})
  unfolding verify_with canonical
  receipt_verify pk body sig = verify_with pk (canonical body) sig

  unfoldable pub issue_request_sign : AccountSecretKey → IssueRequestBody → Fallible IssueSignature
  unfolding sign_with issue_canonical
  issue_request_sign sk body = sign_with sk (issue_canonical body)

  unfoldable pub issue_request_verify :
      AccountPublicKey → IssueRequestBody → IssueSignature → Fallible (Unit {0})
  unfolding verify_with issue_canonical
  issue_request_verify pk body sig = verify_with pk (issue_canonical body) sig

  unfoldable pub host_register_sign :
      AccountSecretKey → HostRegisterBody → Fallible ReceiptSignature
  unfolding sign_with host_register_canonical
  host_register_sign sk body = sign_with sk (host_register_canonical body)

  unfoldable pub host_register_verify :
      AccountPublicKey → HostRegisterBody → ReceiptSignature → Fallible (Unit {0})
  unfolding verify_with host_register_canonical
  host_register_verify pk body sig = verify_with pk (host_register_canonical body) sig

  unfoldable pub heartbeat_sign : AccountSecretKey → HeartbeatBody → Fallible ReceiptSignature
  unfolding sign_with heartbeat_canonical
  heartbeat_sign sk body = sign_with sk (heartbeat_canonical body)

  unfoldable pub heartbeat_verify :
      AccountPublicKey → HeartbeatBody → ReceiptSignature → Fallible (Unit {0})
  unfolding verify_with heartbeat_canonical
  heartbeat_verify pk body sig = verify_with pk (heartbeat_canonical body) sig

  unfoldable pub bootstrap_sign : AccountSecretKey → Bytes → Fallible ReceiptSignature
  unfolding sign_with bootstrap_canonical
  bootstrap_sign sk doc_bytes = sign_with sk (ok (bootstrap_canonical doc_bytes))

  unfoldable pub bootstrap_verify :
      AccountPublicKey → Bytes → ReceiptSignature → Fallible (Unit {0})
  unfolding verify_with bootstrap_canonical
  bootstrap_verify pk doc_bytes sig = verify_with pk (ok (bootstrap_canonical doc_bytes)) sig

  unfoldable pub tunnel_auth_sign :
      AccountSecretKey → Array32 → Array32 → Array32 → Fallible ReceiptSignature
  unfolding sign_with tunnel_auth_canonical
  tunnel_auth_sign sk challenge host_account broker_key_id =
      sign_with sk (ok (tunnel_auth_canonical challenge host_account broker_key_id))

  unfoldable pub tunnel_auth_verify :
      AccountPublicKey → Array32 → Array32 → Array32 → ReceiptSignature → Fallible (Unit {0})
  unfolding verify_with tunnel_auth_canonical
  tunnel_auth_verify pk challenge host_account broker_key_id sig =
      verify_with pk (ok (tunnel_auth_canonical challenge host_account broker_key_id)) sig

  unfoldable pub snapshot_sign : AccountSecretKey → Bytes → Fallible ReceiptSignature
  unfolding sign_with snapshot_canonical
  snapshot_sign sk snapshot_bytes = sign_with sk (ok (snapshot_canonical snapshot_bytes))

  unfoldable pub snapshot_verify : AccountPublicKey → Bytes → ReceiptSignature → Fallible (Unit {0})
  unfolding verify_with snapshot_canonical
  snapshot_verify pk snapshot_bytes sig =
      verify_with pk (ok (snapshot_canonical snapshot_bytes)) sig

  -- A signature that is accepted has been checked against the message.
  pub verify_with-checks :
      (pk : AccountPublicKey) (m sig : Bytes)
      → verify_with pk (ok m) sig ≡ ok tt
      → C.verify pk m sig ≡ true
  unfolding verify_with verifying_key
  verify_with-checks pk m sig h = ground (arith, h)

  -- What is signed by a 32-byte secret key verifies under its public key.
  pub verify_with-sign_with :
      (sk : AccountSecretKey) (message : Fallible Bytes) (sig : ReceiptSignature)
      → sign_with sk message ≡ ok sig
      → verify_with (C.public_of sk) message sig ≡ ok tt
  unfolding sign_with verify_with
  verify_with-sign_with sk (err e) sig h = ground arith
  verify_with-sign_with sk (ok m) sig h =
      ground (
        arith,
        C.verify-sign sk m,
        C.length-sign sk m,
        C.length-public_of sk,
        C.key_ok-public_of sk,
      )

  pub public_from_secret-public_of :
      (sk : AccountSecretKey) (pk : AccountPublicKey)
      → account_public_from_secret sk ≡ ok pk
      → C.public_of sk ≡ pk
  unfolding account_public_from_secret
  public_from_secret-public_of sk pk h = ground arith
