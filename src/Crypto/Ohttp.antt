-- ===== src/Crypto/Ohttp.antt =====
-- crates/lluma-crypto/src/ohttp.rs: the outer seal between a client and the gateway. The package
-- ohttp is a parameter; what it draws from its own random numbers is a seed.
use lluma.Common.{
  ℕ, suc, ◌+◌, ◌≡◌, Bool, true, false, not, Option, none, some, [], ◌∷◌, Bytes, length, take, ltb,
  ◌==◌, Result, ok, err, ok_or, ensure, ◌>>=◌, ◌>>◌, if◌then◌else◌,
}
use lluma.Crypto.Account.{CryptoError, Fallible, ohttp, truncated, auth_failed}
use lluma.Crypto.E2e.{flag, Drawn}
pub mod Exchange

-- The variants of `ohttp::Error` that are told apart.
pub data OhttpError : Type 0 where
  short aead hpke_failed other : OhttpError

pub record Oblivious : Type 1 where
  pub Rng : Type 0
  pub Seed : Type 0
  pub KeyConfig : Type 0
  pub ClientRequest : Type 0
  pub ClientResponse : Type 0
  pub Server : Type 0
  pub ServerResponse : Type 0
  -- `fill_bytes` on 32 bytes.
  pub fill_bytes : Rng → Bytes × Rng
  pub length-fill_bytes : (rng : Rng) → length (fill_bytes rng).0 ≡ 32
  -- `KeyConfig::derive` with X25519 and the one suite, `KeyConfig::encode`, `Server::new`.
  pub derive_config : ℕ → Bytes → Option KeyConfig
  pub encode : KeyConfig → Option Bytes
  pub new_server : KeyConfig → Option Server
  pub from_encoded_config : Bytes → Option ClientRequest
  pub encapsulate : ClientRequest → Seed → Bytes → Option (Bytes × ClientResponse)
  pub decapsulate : Server → Bytes → Result OhttpError (Bytes × ServerResponse)
  -- `ServerResponse::encapsulate` and `ClientResponse::decapsulate`.
  pub seal_response : ServerResponse → Seed → Bytes → Result OhttpError Bytes
  pub open_response : ClientResponse → Bytes → Result OhttpError Bytes
  -- The two sides of one exchange.
  pub IsPaired : ClientResponse → ServerResponse → Type 0
  -- RFC 9458: a configuration with its private key serves, and the server opens what is sealed to
  -- its encoding; the client of the exchange opens the response.
  pub decapsulate-encapsulate :
      (key_id : ℕ) (ikm encoded request capsule : Bytes) (cfg : KeyConfig) (client : ClientRequest)
      (seed : Seed) (cr : ClientResponse)
      → derive_config key_id ikm ≡ some cfg
      → encode cfg ≡ some encoded
      → from_encoded_config encoded ≡ some client
      → encapsulate client seed request ≡ some (capsule, cr)
      → (server : Server) × (sr : ServerResponse) × (new_server cfg ≡ some server)
        × (decapsulate server capsule ≡ ok (request, sr))
        × IsPaired cr sr
  pub open-seal_response :
      (cr : ClientResponse) (sr : ServerResponse) (seed : Seed) (m sealed : Bytes)
      → IsPaired cr sr
      → seal_response sr seed m ≡ ok sealed
      → open_response cr sealed ≡ ok m

abbrev pub ikm_len : ℕ
ikm_len = 32

abbrev pub map_ohttp_err : OhttpError → CryptoError
map_ohttp_err short = truncated
map_ohttp_err aead = auth_failed
map_ohttp_err hpke_failed = auth_failed
map_ohttp_err other = ohttp

abbrev pub map_err : {A : Type 0} → Result OhttpError A → Fallible A
map_err (ok a) = ok a
map_err (err e) = err (map_ohttp_err e)

-- `key_id || ikm`: the first byte and what follows it.
abbrev pub head_of : Bytes → ℕ
head_of [] = 0
head_of (x ∷ xs) = x

abbrev pub tail_of : Bytes → Bytes
tail_of [] = []
tail_of (x ∷ xs) = xs

module _ ⦃O : Oblivious⦄ where
  -- `ClientResponseContext` and `ServerResponseContext`, which `take` empties.
  abbrev pub ClientContext : Type 0
  ClientContext = Option O.ClientResponse

  abbrev pub ServerContext : Type 0
  ServerContext = Option O.ServerResponse

  -- The configuration that a key id and its keying material derive.
  abbrev pub derived : ℕ → Bytes → Fallible O.KeyConfig
  derived key_id ikm = ok_or (O.derive_config key_id ikm) ohttp

  unfoldable pub ohttp_keygen : O.Rng → ℕ → Drawn O.Rng (Bytes × Bytes)
  ohttp_keygen rng key_id =
      let (ikm, rng') = O.fill_bytes rng in
      (
        (do
          cfg ← derived key_id ikm
          public ← ok_or (O.encode cfg) ohttp
          ok (key_id ∷ ikm, public)),
        rng',
      )

  unfoldable pub ohttp_public_from_secret : Bytes → Fallible Bytes
  ohttp_public_from_secret sk =
      if not (length sk == 1 + ikm_len)
      then err truncated
      else (do cfg ← derived (head_of sk) (take ikm_len (tail_of sk)); ok_or (O.encode cfg) ohttp)

  unfoldable pub ohttp_encapsulate : O.Seed → Bytes → Bytes → Fallible (Bytes × ClientContext)
  ohttp_encapsulate seed cfg request = do
    client ← ok_or (O.from_encoded_config cfg) ohttp
    made ← ok_or (O.encapsulate client seed request) ohttp
    ok (made.0, some made.1)

  unfoldable pub ohttp_decapsulate : Bytes → Bytes → Fallible (Bytes × ServerContext)
  ohttp_decapsulate sk capsule = if ltb (length sk) (1 + ikm_len) then err truncated else (do
    cfg ← derived (head_of sk) (take ikm_len (tail_of sk))
    server ← ok_or (O.new_server cfg) ohttp
    opened ← map_err (O.decapsulate server capsule)
    ok (opened.0, some opened.1))

  -- `take()` leaves nothing behind, whatever follows.
  unfoldable pub ohttp_seal_chunk :
      ServerContext → O.Seed → Bytes → Bool → Fallible Bytes × ServerContext
  ohttp_seal_chunk ctx seed chunk last =
      ((do sr ← ok_or ctx ohttp; map_err (O.seal_response sr seed (flag last ∷ chunk))), none)

  abbrev pub unframed : Bytes → Fallible (Bytes × Bool)
  unframed [] = err truncated
  unframed (first ∷ rest) = ok (rest, first == 1)

  unfoldable pub ohttp_open_chunk : ClientContext → Bytes → Fallible (Bytes × Bool) × ClientContext
  ohttp_open_chunk ctx chunk = (
    (do cr ← ok_or ctx ohttp; framed ← map_err (O.open_response cr chunk); unframed framed),
    none,
  )
