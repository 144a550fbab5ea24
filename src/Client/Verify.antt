-- ===== src/Client/Verify.antt =====
-- crates/lluma-client/src/lib.rs: what the client checks of a signed bootstrap and of a snapshot.
use Prim.Native.Char.{code}
use text.Mathlib.Text.{◌==◌ as str_eq}
use lluma.Common.{
  ℕ, ◌+◌, Bool, true, false, not, ◌&&◌, Option, none, some, String, ◌∷◌, Bytes, length, take, drop,
  trim_end, codes, ◌++◌, is_empty, ltb, leb, ◌==◌, Result, ok, err, ok_or, ensure, ◌>>=◌, ◌>>◌,
  if◌then◌else◌,
}
use lluma.Core.Wire.{AccountPublicKey, BootstrapDoc, SnapshotBody}
use lluma.Core.Proto.{SignedBootstrap, SnapshotResponse}
use lluma.Crypto.Primitives.{Primitives}
use lluma.Crypto.Account.{bootstrap_verify, snapshot_verify}
use lluma.Broker.Snapshot.{snapshot_bucket, len_prefix, from_le_bytes}
use lluma.Client.Error.{ClientError, transport, protocol, server, crypto_ok}

-- The package url: what is read of a URL.
pub record TunnelUrl : Type 0 where
  pub scheme : String
  pub host_str : Option String
  pub username : String
  pub password : Option String

-- `postcard::from_bytes::<BootstrapDoc>`, `serde_json` on the signed one, and `Url::parse`.
pub record BootstrapCodecs : Type 0 where
  pub doc : Bytes → Option BootstrapDoc
  pub signed : Bytes → Option SignedBootstrap
  pub parse_url : String → Option TunnelUrl

abbrev pub starts_with : String → String → Bool
starts_with String.[] s = true
starts_with (String.◌∷◌ c cs) String.[] = false
starts_with (String.◌∷◌ c cs) (String.◌∷◌ d ds) = code c == code d && starts_with cs ds

abbrev pub is_empty_str : String → Bool
is_empty_str String.[] = true
is_empty_str (String.◌∷◌ c s) = false

-- A URL with the scheme wss and a host, and without a user or a password.
abbrev pub clean_wss : TunnelUrl → Bool
clean_wss u =
    str_eq u.scheme "wss"
    && ((elim u.host_str [ none ↦ false | some h ↦ not (is_empty_str h) ])
        && (is_empty_str u.username && (elim u.password [ none ↦ true | some p ↦ false ])))

abbrev pub tunnel_ok : BootstrapCodecs → Option String → Result ClientError (Unit {0})
tunnel_ok codecs none = ok tt
tunnel_ok codecs (some url) = do
  u ← ok_or (codecs.parse_url url) protocol
  ensure (clean_wss u) protocol

abbrev pub difficulty_ok : Option ℕ → Result ClientError (Unit {0})
difficulty_ok none = ok tt
difficulty_ok (some d) = ensure (not (ltb 30 d)) protocol

module _ ⦃C : Primitives⦄ where
  unfoldable pub verify_bootstrap :
      BootstrapCodecs → AccountPublicKey → SignedBootstrap → Result ClientError BootstrapDoc
  verify_bootstrap codecs registry_pk sb = do
    crypto_ok (bootstrap_verify registry_pk sb.doc sb.sig)
    doc ← ok_or (codecs.doc sb.doc) protocol
    ensure
        (doc.version == 1
          && (not (is_empty doc.gateway_kc) && starts_with "https://" doc.relay_url))
        protocol
    tunnel_ok codecs doc.tunnel_url
    difficulty_ok doc.pow_difficulty
    ok doc

  -- A GET that may fail in transport: the status, and the body where it arrives.
  unfoldable pub fetch_bootstrap :
      BootstrapCodecs
      → (Bytes → Option (ℕ × Option Bytes))
      → Bytes
      → AccountPublicKey
      → Result ClientError BootstrapDoc
  unfolding verify_bootstrap
  fetch_bootstrap codecs get relay_url registry_pk = do
    resp ← ok_or (get (trim_end b'/' relay_url ++ codes "/v1/bootstrap")) transport
    ensure (resp.0 == 200) (server resp.0)
    bytes ← ok_or resp.1 transport
    sb ← ok_or (codecs.signed bytes) protocol
    verify_bootstrap codecs registry_pk sb

  -- The prefix, and what it measures of the whole body.
  unfoldable pub measured : Bytes → Bytes → Result ClientError SnapshotBody
  measured body (a ∷ b ∷ c ∷ d ∷ rest) =
      if leb (len_prefix + from_le_bytes a b c d) (length body)
      then ok_or
          (C.decode_snapshot (drop len_prefix (take (len_prefix + from_le_bytes a b c d) body)))
          protocol
      else err protocol
  measured body xs = err protocol

  unfoldable pub verify_snapshot :
      AccountPublicKey → SnapshotResponse → Result ClientError SnapshotBody
  unfolding measured
  verify_snapshot registry_pk sr = do
    ensure (length sr.body == snapshot_bucket) protocol
    crypto_ok (snapshot_verify registry_pk sr.body sr.sig)
    measured sr.body sr.body
