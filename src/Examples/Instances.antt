-- ===== src/Examples/Instances.antt =====
-- Stand-ins for the packages: a hash that counts bytes, signatures that always verify, encodings
-- that write the fields, and parsers that know the requests of the examples.
use lluma.Common.{
  ℕ, ◌%◌, ◌^◌, ◌<◌, ◌≡◌, refl, Bool, true, Option, some, none, List, [], ◌∷◌, Bytes, length,
  replicate, arith, subst, ◌⊎◌, inl, inr,
}
use lluma.Core.Wire.{SnapshotBody, SnapshotHeader, SnapshotHostEntry}
use lluma.Crypto.Primitives.{Primitives}
use lluma.Crypto.Tokens.{BlindRsa, BlindStateTuple}
use lluma.Examples.Database.{some_inj}
use lluma.Broker.Address.{Parsers}
use lluma.Examples.Strip.{strip, strip-inv}

-- The snapshot without hosts has an encoding.
abbrev pub encode_empty : SnapshotHeader → List SnapshotHostEntry → Option Bytes
encode_empty h [] = some (h.epoch ∷ h.issued_at_h ∷ h.issuer_key_id ∷ [])
encode_empty h (e ∷ es) = none

abbrev pub encode_snapshot : SnapshotBody → Option Bytes
encode_snapshot b = encode_empty b.header b.hosts

abbrev pub decode_snapshot : Bytes → Option SnapshotBody
decode_snapshot (a ∷ b ∷ c ∷ []) =
    some (record { header = record { epoch = a; issued_at_h = b; issuer_key_id = c }; hosts = [] })
decode_snapshot m = none

List-cases : {A : Type 0} (xs : List A) → (xs ≡ []) ⊎ ((y : A) × (ys : List A) × (xs ≡ y ∷ ys))
List-cases [] = inl refl
List-cases (x ∷ xs) = inr (x, xs, refl)

pub decode-encode :
    (b : SnapshotBody) (e : Bytes) → encode_snapshot b ≡ some e → decode_snapshot e ≡ some b
decode-encode b e h = elim (List-cases b.hosts) [
  | inl none_ ↦ ground (arith, none_)
  | inr (x, xs, some_) ↦ absurd (ground (arith, h, some_))
]

pub digest_bound : (n : ℕ) → n % 256 ^ 32 < 256 ^ 32
digest_bound n = omega arith

instance abbrev pub primitives : Primitives
primitives = record {
  blake3 = λ m. length m % 256 ^ 32;
  blake3_bound = λ m. digest_bound (length m);
  key_ok = λ pk. true;
  public_of = λ sk. replicate 32 0;
  sign = λ sk m. replicate 64 0;
  verify = λ pk m sig. true;
  length-sign = λ sk m. refl;
  length-public_of = λ sk. refl;
  key_ok-public_of = λ sk. refl;
  verify-sign = λ sk m. refl;
  encode_receipt = λ b. some [];
  encode_issue = λ b. some [];
  encode_host_register = λ b. some [];
  encode_heartbeat = λ b. some [];
  encode_blinded = λ bs. some [];
  encode_snapshot = encode_snapshot;
  decode_snapshot = decode_snapshot;
  decode-encode_snapshot = decode-encode;
}

abbrev pub blind_state : BlindStateTuple
blind_state = record {
  nonce = replicate 32 0;
  blind_message = [];
  secret = [];
  randomizer = replicate 32 0;
}

pub finalized :
    (sig : Bytes)
    → ◌≡◌ {A = Option Bytes} (some (replicate 256 0)) (some sig)
    → (◌≡◌ {A = Bool} true true) × (length sig ≡ 256)
finalized sig h =
    subst (λ s. (◌≡◌ {A = Bool} true true) × (length s ≡ 256)) (some_inj _ _ h) (refl, refl)

pub kept_lengths :
    (st : BlindStateTuple)
    → ◌≡◌ {A = Option BlindStateTuple} (some blind_state) (some st)
    → (length st.nonce ≡ 32) × (length st.randomizer ≡ 32)
kept_lengths st h =
    subst (λ s. (length s.nonce ≡ 32) × (length s.randomizer ≡ 32)) (some_inj _ _ h) (refl, refl)

-- The one state that has an encoding.
abbrev pub encode_parts : Option Bytes → Bytes → Bytes → Option Bytes → Option Bytes
encode_parts (some []) [] [] (some []) = some []
encode_parts a b c d = none

abbrev pub encode_state : BlindStateTuple → Option Bytes
encode_state st =
    encode_parts (strip 32 0 st.nonce) st.blind_message st.secret (strip 32 0 st.randomizer)

encode_parts-eq_some :
    (a : Option Bytes) (b c : Bytes) (d : Option Bytes) (e : Bytes)
    → encode_parts a b c d ≡ some e
    → (a ≡ some []) × (b ≡ []) × (c ≡ []) × (d ≡ some [])
encode_parts-eq_some none b c d e h = absurd (ground (arith, h))
encode_parts-eq_some (some (x ∷ xs)) b c d e h = absurd (ground (arith, h))
encode_parts-eq_some (some []) (x ∷ xs) c d e h = absurd (ground (arith, h))
encode_parts-eq_some (some []) [] (x ∷ xs) d e h = absurd (ground (arith, h))
encode_parts-eq_some (some []) [] [] none e h = absurd (ground (arith, h))
encode_parts-eq_some (some []) [] [] (some (x ∷ xs)) e h = absurd (ground (arith, h))
encode_parts-eq_some (some []) [] [] (some []) e h = (refl, refl, refl, refl)

pub decode-encode_parts :
    (st : BlindStateTuple) (e : Bytes)
    → encode_state st ≡ some e
    → ◌≡◌ {A = Option BlindStateTuple} (some blind_state) (some st)
decode-encode_parts st e h =
    let (n, m, s, r) =
      encode_parts-eq_some (strip 32 0 st.nonce) st.blind_message st.secret
        (strip 32 0 st.randomizer) e h in
    let nonce = strip-inv 32 0 st.nonce [] n in
    let randomizer = strip-inv 32 0 st.randomizer [] r in cc

instance abbrev pub blind_rsa : BlindRsa
blind_rsa = record {
  Rng = Unit;
  PublicKey = Unit;
  SecretKey = Unit;
  draw = λ r. (replicate 32 0, r);
  generate = λ r n. (some (tt, tt), r);
  secret_to_der = λ k. some [];
  public_to_der = λ k. some [];
  secret_from_der = λ e. some tt;
  public_from_der = λ e. some tt;
  blind = λ k r nonce. (
    some (record { blind_message = []; secret = []; msg_randomizer = some (replicate 32 0) }),
    r,
  );
  blind_sign = λ k r m. (some (replicate 256 0), r);
  finalize = λ k s b nonce. some (replicate 256 0);
  verify = λ k s r nonce. true;
  size = λ k. 256;
  finalize-verify = λ k bs b nonce sig h. finalized sig h;
  encode_state = encode_state;
  decode_state = λ e. some blind_state;
  decode_state-lengths = λ e st h. kept_lengths st h;
  decode-encode_state = λ st e h. decode-encode_parts st e h;
}

instance abbrev pub parsers : Parsers
parsers = record {
  parse_url = λ s. some (record { scheme = "https"; host_str = some "host.example" });
  parse_ip = λ s. none;
}
