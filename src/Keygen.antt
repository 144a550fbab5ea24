-- ===== src/Keygen.antt =====
-- crates/lluma-keygen/src/bin/lluma-bootstrap.rs: the tool with which an operator signs a bootstrap
-- document. The flags are taken as they are parsed, and the file that is written as the document in
-- it.
use lluma.Common.{
  ℕ, ◌≡◌, Bool, true, false, not, Option, none, some, String, Bytes, length, ltb, ◌==◌, Result, ok,
  err, ok_or, ensure, ◌>>=◌, ◌>>◌, if◌then◌else◌,
}
use lluma.Core.Wire.{Array32, AccountSecretKey, AccountPublicKey, BootstrapDoc, to_array32}
use lluma.Core.Proto.{SignedBootstrap}
use lluma.Crypto.Primitives.{Primitives}
use lluma.Crypto.Account.{Fallible, account_public_from_secret, bootstrap_sign, bootstrap_verify}
use lluma.Client.Verify.{BootstrapCodecs, starts_with}
pub mod Accepted

pub data ToolError : Type 0 where
  secret_length tunnel_scheme difficulty_cap salt_length encode crypto self_check : ToolError

-- The values of the flags: what `sign` has parsed before it looks at them.
pub record SignFlags : Type 0 where
  pub relay : String
  pub gateway_kc : Bytes
  pub issuer_key_id : Array32
  pub issued_at : ℕ
  pub tunnel_url : Option String
  pub pow_difficulty : Option ℕ
  pub epoch_salt : Option Bytes

-- `postcard` on a document, both ways.
pub record DocCodec : Type 0 where
  pub codecs : BootstrapCodecs
  pub to_stdvec : BootstrapDoc → Option Bytes
  pub doc-to_stdvec :
      (doc : BootstrapDoc) (bytes : Bytes)
      → to_stdvec doc ≡ some bytes
      → codecs.doc bytes ≡ some doc

abbrev pub tool_ok : {A : Type 0} → ToolError → Fallible A → Result ToolError A
tool_ok e (ok a) = ok a
tool_ok e (err x) = err e

-- `read_sk`, of the bytes of the file.
unfoldable pub read_sk : Bytes → Result ToolError AccountSecretKey
read_sk bytes = do ensure (length bytes == 32) secret_length; ok bytes

abbrev pub checked_tunnel : Option String → Result ToolError (Option String)
checked_tunnel none = ok none
checked_tunnel (some u) = do ensure (starts_with "wss://" u) tunnel_scheme; ok (some u)

abbrev pub checked_difficulty : Option ℕ → Result ToolError (Option ℕ)
checked_difficulty none = ok none
checked_difficulty (some d) = if ltb 30 d then err difficulty_cap else ok (some d)

abbrev pub checked_salt : Option Bytes → Result ToolError (Option Array32)
checked_salt none = ok none
checked_salt (some bytes) = do salt ← ok_or (to_array32 bytes) salt_length; ok (some salt)

-- The document that the flags describe.
unfoldable pub document : SignFlags → Result ToolError BootstrapDoc
document flags = do
  tunnel_url ← checked_tunnel flags.tunnel_url
  pow_difficulty ← checked_difficulty flags.pow_difficulty
  epoch_salt ← checked_salt flags.epoch_salt
  ok (record {
    version = 1;
    relay_url = flags.relay;
    gateway_kc = flags.gateway_kc;
    issuer_key_id = flags.issuer_key_id;
    issued_at_s = flags.issued_at;
    tunnel_url = tunnel_url;
    pow_difficulty = pow_difficulty;
    epoch_salt = epoch_salt;
  })

module _ ⦃C : Primitives⦄ where
  -- Encoding, signing, and the check of what was signed.
  unfoldable pub sign_doc :
      DocCodec
      → AccountSecretKey
      → BootstrapDoc
      → Result ToolError (AccountPublicKey × SignedBootstrap)
  sign_doc codec sk doc = do
    doc_bytes ← ok_or (codec.to_stdvec doc) encode
    sig ← tool_ok crypto (bootstrap_sign sk doc_bytes)
    pk ← tool_ok crypto (account_public_from_secret sk)
    tool_ok self_check (bootstrap_verify pk doc_bytes sig)
    ok (pk, record { doc = doc_bytes; sig = sig })

  -- The command `sign`: the registry's public key and the signed document.
  unfoldable pub sign :
      DocCodec → Bytes → SignFlags → Result ToolError (AccountPublicKey × SignedBootstrap)
  unfolding read_sk document sign_doc
  sign codec sk_file flags = do sk ← read_sk sk_file; doc ← document flags; sign_doc codec sk doc
