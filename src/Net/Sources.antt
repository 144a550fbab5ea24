-- ===== src/Net/Sources.antt =====
-- crates/lluma-net/src/bootstrap.rs: the bootstrap that at least two sources attest.
use lluma.Common.{
  same, ℕ, suc, ◌≡◌, not, Option, some, List, [], ◌∷◌, ◌++◌, Bytes, codes, length, ltb, ◌==◌,
  Result, ok, err, ok_or, ensure, ◌>>=◌, ◌>>◌, if◌then◌else◌,
}
use lluma.Crypto.Primitives.{Primitives}
use lluma.Net.Framing.{NetError, bootstrap}

pub record Bootstrap : Type 0 where
  pub relay_urls : List Bytes
  pub key_config : Bytes
  pub key_id : ℕ
  pub epoch : ℕ
  pub not_after : ℕ

-- `SignedBootstrap` of this file.
pub record SignedPayload : Type 0 where
  pub payload : Bytes
  pub sig : Bytes

-- `postcard` on the two types, and that decoding undoes encoding.
pub record SourceCodecs : Type 0 where
  pub encode_bootstrap : Bootstrap → Option Bytes
  pub decode_bootstrap : Bytes → Option Bootstrap
  pub encode_signed : SignedPayload → Option Bytes
  pub decode_signed : Bytes → Option SignedPayload
  pub decode-encode_bootstrap :
      (b : Bootstrap) (e : Bytes) → encode_bootstrap b ≡ some e → decode_bootstrap e ≡ some b
  pub decode-encode_signed :
      (p : SignedPayload) (e : Bytes) → encode_signed p ≡ some e → decode_signed e ≡ some p

abbrev pub bootstrap_domain : Bytes
bootstrap_domain = codes "lluma-bootstrap-v1"

-- How many payloads are the same as one.
unfoldable pub agreeing : Bytes → List Bytes → ℕ
agreeing first [] = 0
agreeing first (p ∷ ps) = let rest = agreeing first ps in if same p first then suc rest else rest

module _ ⦃C : Primitives⦄ (codecs : SourceCodecs) where
  unfoldable pub sign_bootstrap : Bytes → Bootstrap → Result NetError Bytes
  sign_bootstrap sk b = do
    payload ← ok_or (codecs.encode_bootstrap b) bootstrap
    ok_or
        (codecs.encode_signed
          (record { payload = payload; sig = C.sign sk (bootstrap_domain ++ payload) }))
        bootstrap

  -- The payload of a source whose signature verifies.
  unfoldable pub attested : Bytes → Bytes → Result NetError Bytes
  attested vk src = do
    signed ← ok_or (codecs.decode_signed src) bootstrap
    ensure (length signed.sig == 64) bootstrap
    ensure (C.verify vk (bootstrap_domain ++ signed.payload) signed.sig) bootstrap
    ok signed.payload

  unfoldable pub payloads : Bytes → List Bytes → Result NetError (List Bytes)
  unfolding attested
  payloads vk [] = ok []
  payloads vk (src ∷ srcs) = do p ← attested vk src; ps ← payloads vk srcs; ok (p ∷ ps)

  -- The agreement with the first payload, its decoding, and its freshness.
  unfoldable pub agreed : ℕ → List Bytes → Result NetError Bootstrap
  unfolding agreeing
  agreed now [] = err bootstrap
  agreed now (first ∷ ps) = do
    ensure (not (ltb (agreeing first (first ∷ ps)) 2)) bootstrap
    b ← ok_or (codecs.decode_bootstrap first) bootstrap
    ensure (not (ltb b.not_after now)) bootstrap
    ok b

  unfoldable pub verify_bootstrap : List Bytes → Bytes → ℕ → Result NetError Bootstrap
  unfolding payloads agreed
  verify_bootstrap sources vk now = do
    ensure (not (ltb (length sources) 2)) bootstrap
    ps ← payloads vk sources
    agreed now ps
