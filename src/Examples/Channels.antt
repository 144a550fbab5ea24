-- ===== src/Examples/Channels.antt =====
-- Stand-ins for the packages of the channels: an AEAD whose tag is the place of a message, an OHTTP
-- that seals nothing, and a Binary HTTP with every text behind its length.
use lluma.Common.{
  ℕ, zero, suc, ◌+◌, ◌≡◌, refl, sym, subst, ap, true, Option, none, some, [], ◌∷◌, ◌++◌, Bytes,
  codes, length, take, drop, replicate, Result, ok, arith, length-append, length-replicate,
  take-length-append,
}
use lluma.Crypto.Hpke.{Hpke}
use lluma.Crypto.Ohttp.{Oblivious, OhttpError}
use lluma.Crypto.Tokens.Slices.{drop-front}
use lluma.Net.Framing.{Bhttp, Message, Control, request, response}
use lluma.Gateway.{Origin}
use lluma.Examples.Database.{some_inj}
use lluma.Examples.Strip.{strip, strip-tag, strip-inv}

abbrev pub opened : ℕ → Option Bytes → Option Bytes × ℕ
opened r none = (none, r)
opened r (some pt) = (some pt, suc r)

opened-some :
    (r r' : ℕ) (o : Option Bytes) (pt : Bytes)
    → opened r o ≡ (some pt, r')
    → (o ≡ some pt) × (r' ≡ suc r)
opened-some r r' none pt h = absurd (ground (arith, h))
opened-some r r' (some p) pt h = ground (arith, h)

pub opened-none : (r r' : ℕ) (o : Option Bytes) → opened r o ≡ (none, r') → r' ≡ r
opened-none r r' none h = ground (arith, h)
opened-none r r' (some p) h = absurd (ground (arith, h))

pub seal_lem :
    (s s' : ℕ) (pt ct : Bytes)
    → ◌≡◌ {A = Option Bytes × ℕ} (some (replicate 16 s ++ pt), suc s) (some ct, s')
    → (ct ≡ replicate 16 s ++ pt) × (s' ≡ suc s)
seal_lem s s' pt ct h = ground (arith, h)

pub open_lem :
    (s s' r : ℕ) (pt ct : Bytes)
    → s ≡ r
    → ◌≡◌ {A = Option Bytes × ℕ} (some (replicate 16 s ++ pt), suc s) (some ct, s')
    → (r' : ℕ) × (opened r (strip 16 r ct) ≡ (some pt, r'))
open_lem s s' r pt ct same h =
    let is = (seal_lem s s' pt ct h).0 in
    (
      suc r,
      subst (λ c. opened r (strip 16 r c) ≡ (some pt, suc r)) (sym is)
          (subst (λ k. opened r (strip 16 r (replicate 16 k ++ pt)) ≡ (some pt, suc r)) (sym same)
            (ap (opened r) (strip-tag 16 r pt))),
    )

pub aead_lem :
    (r r' : ℕ) (ct pt : Bytes)
    → opened r (strip 16 r ct) ≡ (some pt, r')
    → (ct ≡ replicate 16 r ++ pt) × (r' ≡ suc r)
aead_lem r r' ct pt h =
    let (got, next) = opened-some r r' (strip 16 r ct) pt h in (strip-inv 16 r ct pt got, next)

pub length_lem : (n : ℕ) (pt : Bytes) → length (replicate 16 n ++ pt) ≡ length pt + 16
length_lem n pt = omega (arith, length-append (replicate 16 n) pt, length-replicate 16 n)

pub setup_lem :
    (enc : Bytes) (s : ℕ)
    → ◌≡◌ {A = Option (Bytes × ℕ) × Unit {0}} (some (replicate 32 9, 0), tt) (some (enc, s), tt)
    → (s ≡ 0) × (length enc ≡ 32)
setup_lem enc s h =
    let made =
      some_inj (replicate 32 9, 0) (enc, s) (ap (λ (p : Option (Bytes × ℕ) × Unit {0}). p.0) h) in
    (
      sym (ap (λ (p : Bytes × ℕ). p.1) made),
      subst (λ e. length e ≡ 32) (ap (λ (p : Bytes × ℕ). p.0) made) refl,
    )

instance abbrev pub hpke : Hpke
hpke = record {
  Rng = Unit;
  Sender = ℕ;
  Receiver = ℕ;
  Secret = Unit;
  gen_keypair = λ rng. ((replicate 32 1, replicate 32 2), rng);
  public_ok = λ pk. true;
  secret_ok = λ sk. true;
  enc_size = 32;
  enc_ok = λ enc. true;
  setup_sender = λ rng pk label. (some (replicate 32 9, 0), rng);
  setup_receiver = λ sk enc label. some 0;
  seal = λ s pt aad. (some (replicate 16 s ++ pt), suc s);
  unseal = λ r ct aad. opened r (strip 16 r ct);
  sender_secret = λ s. tt;
  sender_seq = λ s. s;
  receiver_secret = λ r. tt;
  receiver_seq = λ r. r;
  aead = λ k n aad pt. replicate 16 n ++ pt;
  IsPair = λ sk pk. Unit;
  gen_keypair-IsPair = λ rng. (tt, refl);
  pair_ok = λ sk pk h. (refl, refl);
  setup_agrees = λ rng rng' sk pk label enc s pair h.
      (0, refl, refl, (setup_lem enc s h).0, refl, (setup_lem enc s h).1);
  seal-aead = λ s s' pt aad ct h. ((seal_lem s s' pt ct h).0, refl, (seal_lem s s' pt ct h).1);
  open-seal = λ s s' r pt aad ct same at h. open_lem s s' r pt ct at h;
  open-aead = λ r r' ct aad pt h. ((aead_lem r r' ct pt h).0, refl, (aead_lem r r' ct pt h).1);
  open-none = λ r r' ct aad h. opened-none r r' (strip 16 r ct) h;
  length-aead = λ k n aad pt. length_lem n pt;
}

pub decapsulated :
    (m capsule : Bytes)
    → ◌≡◌ {A = Option (Bytes × Unit {0})} (some (m, tt)) (some (capsule, tt))
    → ◌≡◌ {A = Result OhttpError (Bytes × Unit {0})} (ok (capsule, tt)) (ok (m, tt))
decapsulated m capsule h =
    ap (λ (p : Bytes × Unit {0}). ok (p.0, tt)) (sym (some_inj (m, tt) (capsule, tt) h))

instance abbrev pub oblivious : Oblivious
oblivious = record {
  Rng = Unit;
  Seed = Unit;
  KeyConfig = Unit;
  ClientRequest = Unit;
  ClientResponse = Unit;
  Server = Unit;
  ServerResponse = Unit;
  fill_bytes = λ rng. (replicate 32 3, rng);
  length-fill_bytes = λ rng. refl;
  derive_config = λ key_id ikm. some tt;
  encode = λ cfg. some [];
  new_server = λ cfg. some tt;
  from_encoded_config = λ cfg. some tt;
  encapsulate = λ client seed m. some (m, tt);
  decapsulate = λ server capsule. ok (capsule, tt);
  seal_response = λ sr seed m. ok m;
  open_response = λ cr sealed. ok sealed;
  IsPaired = λ cr sr. Unit;
  decapsulate-encapsulate = λ key_id ikm encoded m capsule cfg client seed cr a b c h.
      (tt, tt, refl, decapsulated m capsule h, tt);
  open-seal_response = λ cr sr seed m sealed p h. sym h;
}

-- A text behind its length.
abbrev pub put : Bytes → Bytes → Bytes
put xs rest = length xs ∷ (xs ++ rest)

abbrev pub got : Bytes → Option (Bytes × Bytes)
got [] = none
got (n ∷ xs) = some (take n xs, drop n xs)

drop-length : (xs rest : Bytes) → drop (length xs) (xs ++ rest) ≡ rest
drop-length xs rest = drop-front (length xs) xs rest refl

abbrev pub put_type : Option Bytes → Bytes → Bytes
put_type none rest = 0 ∷ rest
put_type (some ct) rest = 1 ∷ put ct rest

abbrev pub with_type : (Option Bytes → Bytes → Option Message) → Bytes → Option Message
with_type next [] = none
with_type next (zero ∷ xs) = next none xs
with_type next (suc n ∷ xs) = elim (got xs) [ none ↦ none | some p ↦ next (some p.0) p.1 ]

with_type-put_type :
    (next : Option Bytes → Bytes → Option Message) (ct : Option Bytes) (rest : Bytes)
    → with_type next (put_type ct rest) ≡ next ct rest
with_type-put_type next none rest = refl
with_type-put_type next (some ct) rest =
    rw (take-length-append ct rest) (rw (drop-length ct rest) refl)

abbrev pub written : Control → Option Bytes → Bytes → Bytes
written (response n) ct content = 0 ∷ n ∷ put_type ct content
written (request m s a p) ct content = 1 ∷ put m (put s (put a (put p (put_type ct content))))

abbrev pub then_text : (Bytes → Bytes → Option Message) → Option (Bytes × Bytes) → Option Message
then_text next none = none
then_text next (some p) = next p.0 p.1

abbrev pub message_of : Control → Option Bytes → Bytes → Option Message
message_of c ct content = some (record { control = c; content_type = ct; content = content })

abbrev pub read_message : Bytes → Option Message
read_message [] = none
read_message (zero ∷ []) = none
read_message (zero ∷ n ∷ xs) = with_type (message_of (response n)) xs
read_message (suc k ∷ xs) =
    then_text
      (λ m r1.
        then_text
          (λ s r2.
            then_text
              (λ a r3. then_text (λ p r4. with_type (message_of (request m s a p)) r4) (got r3))
              (got r2))
          (got r1))
      (got xs)

read-written :
    (c : Control) (ct : Option Bytes) (content : Bytes)
    → read_message (written c ct content) ≡ message_of c ct content
read-written (response n) ct content = with_type-put_type (message_of (response n)) ct content
read-written (request m s a p) ct content =
    let r4 = put_type ct content in
    let r3 = put p r4 in
    let r2 = put a r3 in
    let r1 = put s r2 in
    rw (take-length-append m r1) (
      rw (drop-length m r1) (
        rw (take-length-append s r2) (
          rw (drop-length s r2) (
            rw (take-length-append a r3) (
              rw (drop-length a r3) (
                rw (take-length-append p r4) (
                  rw (drop-length p r4)
                    (with_type-put_type (message_of (request m s a p)) ct content))))))))

pub read_write :
    (m : Message) (e : Bytes)
    → ◌≡◌ {A = Option Bytes} (some (written m.control m.content_type m.content)) (some e)
    → read_message e ≡ some m
read_write m e h =
    subst (λ b. read_message b ≡ some m) (some_inj _ _ h)
      (read-written m.control m.content_type m.content)

pub some_same : (n s : ℕ) → ◌≡◌ {A = Option ℕ} (some n) (some s) → s ≡ n
some_same n s h = sym (some_inj n s h)

instance abbrev pub bhttp : Bhttp
bhttp = record {
  write = λ m. some (written m.control m.content_type m.content);
  read = read_message;
  status_code = λ n. some n;
  read-write = λ m e h. read_write m e h;
  status_code-same = λ n s h. some_same n s h;
}

-- An origin that answers a GET with a text and a POST with the body that it got.
instance abbrev pub origin : Origin
origin = record {
  Url = Bytes;
  parse = λ url. some url;
  path = λ url. drop 2 url;
  get = λ url ct. some (200, some (codes "pong"));
  post = λ url ct body. some (200, some body);
}
