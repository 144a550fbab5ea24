-- ===== src/Crypto/Domains.antt =====
-- crates/lluma-crypto/src/account.rs: the seven kinds of signed message side by side, that each
-- verifies as it was signed, and that no bytes belong to two kinds.
use lluma.Common.{ℕ, zero, suc, ◌≡◌, refl, subst, [], ◌∷◌, ◌++◌, Bytes, ok, ◌==◌, if◌then◌else◌}
use lluma.Core.Wire.{
  Array32, AccountPublicKey, AccountSecretKey, ReceiptSignature, UsageReceiptBody, IssueRequestBody,
  HostRegisterBody, HeartbeatBody,
}
use lluma.Crypto.Primitives.{Primitives}
use lluma.Net.Sources.{bootstrap_domain as publisher_domain}
use lluma.Crypto.Account.{
  Fallible, canonical, issue_canonical, host_register_canonical, heartbeat_canonical,
  snapshot_canonical, bootstrap_canonical, tunnel_auth_canonical, receipt_sign, receipt_verify,
  issue_request_sign, issue_request_verify, host_register_sign, host_register_verify,
  heartbeat_sign, heartbeat_verify, bootstrap_sign, bootstrap_verify, tunnel_auth_sign,
  tunnel_auth_verify, snapshot_sign, snapshot_verify, account_public_from_secret,
  verify_with-sign_with, public_from_secret-public_of,
}

-- What is signed.
pub data Message : Type 0 where
  receipt : UsageReceiptBody → Message
  issue_request : IssueRequestBody → Message
  host_register : HostRegisterBody → Message
  heartbeat : HeartbeatBody → Message
  snapshot bootstrap : Bytes → Message
  tunnel_auth : Array32 → Array32 → Array32 → Message

pub data Purpose : Type 0 where
  receipts issue_requests host_registers heartbeats snapshots bootstraps tunnel_auths : Purpose

abbrev pub purpose : Message → Purpose
purpose (receipt b) = receipts
purpose (issue_request b) = issue_requests
purpose (host_register b) = host_registers
purpose (heartbeat b) = heartbeats
purpose (snapshot b) = snapshots
purpose (bootstrap b) = bootstraps
purpose (tunnel_auth c h b) = tunnel_auths

-- What the two parts of the program that sign put a domain in front of.
pub data Signed : Type 0 where
  by_account : Message → Signed
  -- `postcard(Bootstrap)` in lluma-net's `sign_bootstrap`.
  by_publisher : Bytes → Signed

abbrev pub signed_purpose : Signed → Purpose
signed_purpose (by_account m) = purpose m
signed_purpose (by_publisher payload) = bootstraps

-- The purpose that the seventh, eighth and twelfth byte of a message tell.
nth : ℕ → Bytes → ℕ
nth i [] = 0
nth zero (x ∷ xs) = x
nth (suc i) (x ∷ xs) = nth i xs

purpose_of : Bytes → Purpose
unfolding nth
purpose_of m =
    if nth 6 m == b'u'
    then receipts
    else if nth 6 m == b'i'
    then issue_requests
    else if nth 6 m == b'r'
    then snapshots
    else if nth 6 m == b'b'
    then bootstraps
    else if nth 7 m == b'e'
    then heartbeats
    else if nth 11 m == b'r'
    then host_registers
    else tunnel_auths

module _ ⦃C : Primitives⦄ where
  -- The bytes that are signed.
  unfoldable pub message_bytes : Message → Fallible Bytes
  message_bytes (receipt b) = canonical b
  message_bytes (issue_request b) = issue_canonical b
  message_bytes (host_register b) = host_register_canonical b
  message_bytes (heartbeat b) = heartbeat_canonical b
  message_bytes (snapshot b) = ok (snapshot_canonical b)
  message_bytes (bootstrap b) = ok (bootstrap_canonical b)
  message_bytes (tunnel_auth c h b) = ok (tunnel_auth_canonical c h b)

  unfoldable pub sign_message : AccountSecretKey → Message → Fallible ReceiptSignature
  sign_message sk (receipt b) = receipt_sign sk b
  sign_message sk (issue_request b) = issue_request_sign sk b
  sign_message sk (host_register b) = host_register_sign sk b
  sign_message sk (heartbeat b) = heartbeat_sign sk b
  sign_message sk (snapshot b) = snapshot_sign sk b
  sign_message sk (bootstrap b) = bootstrap_sign sk b
  sign_message sk (tunnel_auth c h b) = tunnel_auth_sign sk c h b

  unfoldable pub verify_message :
      AccountPublicKey → Message → ReceiptSignature → Fallible (Unit {0})
  verify_message pk (receipt b) s = receipt_verify pk b s
  verify_message pk (issue_request b) s = issue_request_verify pk b s
  verify_message pk (host_register b) s = host_register_verify pk b s
  verify_message pk (heartbeat b) s = heartbeat_verify pk b s
  verify_message pk (snapshot b) s = snapshot_verify pk b s
  verify_message pk (bootstrap b) s = bootstrap_verify pk b s
  verify_message pk (tunnel_auth c h b) s = tunnel_auth_verify pk c h b s

  -- The bytes that are signed, by an account or by the publisher of lluma-net.
  unfoldable pub signed_bytes : Signed → Fallible Bytes
  unfolding message_bytes
  signed_bytes (by_account m) = message_bytes m
  signed_bytes (by_publisher payload) = ok (publisher_domain ++ payload)

  -- Every payload of the publisher is, as the bytes that are signed, a bootstrap document of
  -- account.rs too.
  pub publisher_bootstrap :
      (payload : Bytes)
      → signed_bytes (by_publisher payload) ≡ signed_bytes (by_account (bootstrap payload))
  unfolding signed_bytes message_bytes bootstrap_canonical
  publisher_bootstrap payload = refl

  message_verifies :
      (sk : AccountSecretKey) (m : Message) (s : ReceiptSignature)
      → sign_message sk m ≡ ok s
      → verify_message (C.public_of sk) m s ≡ ok tt
  unfolding sign_message verify_message receipt_sign receipt_verify issue_request_sign
      issue_request_verify host_register_sign host_register_verify heartbeat_sign heartbeat_verify
      bootstrap_sign bootstrap_verify tunnel_auth_sign tunnel_auth_verify snapshot_sign
      snapshot_verify
  message_verifies sk (receipt b) s h = verify_with-sign_with sk _ s h
  message_verifies sk (issue_request b) s h = verify_with-sign_with sk _ s h
  message_verifies sk (host_register b) s h = verify_with-sign_with sk _ s h
  message_verifies sk (heartbeat b) s h = verify_with-sign_with sk _ s h
  message_verifies sk (snapshot b) s h = verify_with-sign_with sk (ok (snapshot_canonical b)) s h
  message_verifies sk (bootstrap b) s h = verify_with-sign_with sk (ok (bootstrap_canonical b)) s h
  message_verifies sk (tunnel_auth c x k) s h =
      verify_with-sign_with sk (ok (tunnel_auth_canonical c x k)) s h

  -- A message of any kind that a secret key signs verifies under the public key derived from it.
  pub verify_message-sign_message :
      (sk : AccountSecretKey) (pk : AccountPublicKey) (m : Message) (s : ReceiptSignature)
      → account_public_from_secret sk ≡ ok pk
      → sign_message sk m ≡ ok s
      → verify_message pk m s ≡ ok tt
  verify_message-sign_message sk pk m s hk hs =
      subst (λ k. verify_message k m s ≡ ok tt) (public_from_secret-public_of sk pk hk)
        (message_verifies sk m s hs)
