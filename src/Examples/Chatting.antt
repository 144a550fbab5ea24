-- ===== src/Examples/Chatting.antt =====
-- A network of two hosts, the first of which cannot be reached, and a disk that holds one file.
use lluma.Common.{
  ℕ, zero, suc, String, ◌≡◌, refl, sym, ap, ◌∙◌, true, Option, none, some, List, [], ◌∷◌, Bytes,
  codes, replicate, ok, err,
}
use lluma.Core.Wire.{Token, SnapshotHostEntry}
use lluma.Client.Error.{relay}
use lluma.Desktop.Wallet.{Network, Files, Wallet, load, save, send_message}
use lluma.Crypto.Keystore.{seal_bytes}
use lluma.Desktop.Wallet.Keeping.{load-save}
use lluma.Examples.Keeping.{vault}
use lluma.Examples.Database.{some_inj}

abbrev host_entry : ℕ → List String → SnapshotHostEntry
host_entry account models = record {
  host_account = account;
  hpke_pk = replicate 32 1;
  models = models;
  tier_flags = 0;
  load_bucket = 0;
  freshness_bucket = 0;
}

-- The world counts the messages that were sent.
instance abbrev network : Network
network = record {
  World = ℕ;
  key_config =
      λ x. (ok (record { key_id = 1; issuer_public_key = []; epoch = 1; denomination = 1 }), suc x);
  snapshot = λ pk x.
      (ok (host_entry 1 [] ∷ host_entry 2 ("m" ∷ []) ∷ host_entry 3 ("m" ∷ []) ∷ []), suc x);
  acquire = λ kc n x. (ok (replicate n (codes "t")), suc x);
  exec_with_host = λ kc token host prompt x.
      (elim x [ suc (suc (suc n)) ↦ ok prompt | _ ↦ err (relay 502) ], suc x);
  trial_register = λ salt difficulty x. (ok true, suc x);
}

-- Each token with its bytes raised by one, and a zero behind it.
abbrev pub encode : List Token → Bytes
encode [] = []
encode ([] ∷ ts) = 0 ∷ encode ts
encode ((b ∷ t) ∷ ts) = suc b ∷ encode (t ∷ ts)

abbrev pub push : ℕ → List Token → List Token
push b [] = (b ∷ []) ∷ []
push b (t ∷ ts) = (b ∷ t) ∷ ts

abbrev pub decode : Bytes → List Token
decode [] = []
decode (zero ∷ bs) = [] ∷ decode bs
decode (suc b ∷ bs) = push b (decode bs)

pub decode-encode : (ts : List Token) → decode (encode ts) ≡ ts
decode-encode [] = refl
decode-encode ([] ∷ ts) = ap (◌∷◌ []) (decode-encode ts)
decode-encode ((b ∷ t) ∷ ts) = ap (push b) (decode-encode (t ∷ ts))

instance abbrev pub files : Files
files = record {
  Disk = Option Bytes;
  read = λ d. d;
  create_dir_all = λ d. (true, d);
  write = λ b d. (true, some b);
  read-write = λ b d h. refl;
  to_stdvec = λ ts. some (encode ts);
  from_bytes = λ b. some (decode b);
  from_bytes-to_stdvec =
      λ ts b h. ap some (ap decode (sym (some_inj (encode ts) b h)) ∙ decode-encode ts);
}

abbrev wallet : Wallet
wallet = record { tokens = codes "a" ∷ codes "b" ∷ []; disk = none; rng = tt; world = 0 }

abbrev after : Wallet
after = (send_message (replicate 32 1) (codes "pass") (codes "hello") wallet).1

-- The second host answers, and the last token is gone.
one_left : after.tokens ≡ codes "a" ∷ []
unfolding send_message seal_bytes
one_left = refl

load-save_example :
    load (save (codes "pass") wallet).1.disk (codes "pass") ≡ codes "a" ∷ codes "b" ∷ []
unfolding save seal_bytes
load-save_example = load-save (codes "pass") wallet refl
