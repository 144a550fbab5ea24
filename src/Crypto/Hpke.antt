-- ===== src/Crypto/Hpke.antt =====
-- The package hpke, RFC 9180 in base mode with X25519, HKDF-SHA256 and ChaCha20Poly1305, as
-- crates/lluma-crypto/src/e2e.rs uses it. Keys and encapsulated keys are their bytes.
use lluma.Common.{ℕ, suc, ◌+◌, ◌≡◌, Bool, true, Option, none, some, Bytes, length}

pub record Hpke : Type 1 where
  pub Rng : Type 0
  -- The two ends of a stream, and the secret of their key schedule.
  pub Sender : Type 0
  pub Receiver : Type 0
  pub Secret : Type 0
  -- `Kem::gen_keypair`, the secret key first; `PublicKey::from_bytes` and `PrivateKey::from_bytes`.
  pub gen_keypair : Rng → (Bytes × Bytes) × Rng
  pub public_ok : Bytes → Bool
  pub secret_ok : Bytes → Bool
  -- `EncappedKey::size()` and `EncappedKey::from_bytes`.
  pub enc_size : ℕ
  pub enc_ok : Bytes → Bool
  -- `setup_sender` with the recipient's key and the info, `setup_receiver` with the encapsulated key.
  pub setup_sender : Rng → Bytes → Bytes → Option (Bytes × Sender) × Rng
  pub setup_receiver : Bytes → Bytes → Bytes → Option Receiver
  -- `AeadCtxS::seal` and `AeadCtxR::open` with the text and the associated data.
  pub seal : Sender → Bytes → Bytes → Option Bytes × Sender
  pub unseal : Receiver → Bytes → Bytes → Option Bytes × Receiver
  -- RFC 9180, 5.2: a context is a secret and the number of messages so far.
  pub sender_secret : Sender → Secret
  pub sender_seq : Sender → ℕ
  pub receiver_secret : Receiver → Secret
  pub receiver_seq : Receiver → ℕ
  -- The AEAD with the nonce of a place in the stream.
  pub aead : Secret → ℕ → Bytes → Bytes → Bytes
  -- A key pair is usable, and both ends that are set up with it agree.
  pub IsPair : Bytes → Bytes → Type 0
  pub gen_keypair-IsPair :
      (rng : Rng)
      → IsPair (gen_keypair rng).0.0 (gen_keypair rng).0.1 × (length (gen_keypair rng).0.1 ≡ 32)
  pub pair_ok : (sk pk : Bytes) → IsPair sk pk → (secret_ok sk ≡ true) × (public_ok pk ≡ true)
  pub setup_agrees :
      (rng rng' : Rng) (sk pk info enc : Bytes) (s : Sender)
      → IsPair sk pk
      → setup_sender rng pk info ≡ (some (enc, s), rng')
      → (r : Receiver) × (setup_receiver sk enc info ≡ some r)
        × (sender_secret s ≡ receiver_secret r)
        × (sender_seq s ≡ receiver_seq r)
        × (enc_ok enc ≡ true)
        × (length enc ≡ enc_size)
  -- Sealing is the AEAD at the sender's place, and moves on to the next one.
  pub seal-aead :
      (s s' : Sender) (pt aad ct : Bytes)
      → seal s pt aad ≡ (some ct, s')
      → (ct ≡ aead (sender_secret s) (sender_seq s) aad pt)
        × (sender_secret s' ≡ sender_secret s)
        × (sender_seq s' ≡ suc (sender_seq s))
  -- What is sealed is opened at the same place, with the same secret and associated data.
  pub open-seal :
      (s s' : Sender) (r : Receiver) (pt aad ct : Bytes)
      → sender_secret s ≡ receiver_secret r
      → sender_seq s ≡ receiver_seq r
      → seal s pt aad ≡ (some ct, s')
      → (r' : Receiver) × (unseal r ct aad ≡ (some pt, r'))
  -- RFC 5116: encryption with one nonce is a function, and decryption accepts its values only; an
  -- opening moves on, and a failure does not.
  pub open-aead :
      (r r' : Receiver) (ct aad pt : Bytes)
      → unseal r ct aad ≡ (some pt, r')
      → (ct ≡ aead (receiver_secret r) (receiver_seq r) aad pt)
        × (receiver_secret r' ≡ receiver_secret r)
        × (receiver_seq r' ≡ suc (receiver_seq r))
  pub open-none : (r r' : Receiver) (ct aad : Bytes) → unseal r ct aad ≡ (none, r') → r' ≡ r
  -- ChaCha20Poly1305 adds a tag of 16 bytes.
  pub length-aead :
      (k : Secret) (n : ℕ) (aad pt : Bytes) → length (aead k n aad pt) ≡ length pt + 16
