-- ===== src/Broker/Handshake/Honest.antt =====
-- crates/lluma-broker/src/tunnel.rs and crates/lluma-host/src/tunnel.rs together: whom the handshake
-- lets in.
use lluma.Common.{
  ◌≡◌, ◌≤◌, ◌∙◌, ap, codes, ◌==◌, refl, sym, subst, true, Option, none, some, List, [], ◌∷◌, ◌++◌,
  Bytes, length, ok, err, arith, Option-cases, Result-cases, Bool-cases, inl, inr, >>=-eq-ok,
  ok-injective,
}
use lluma.Core.Wire.{Array32, be_bytes}
use lluma.Core.Proto.{TunnelFrame, hello, challenge, auth, auth_ok, job, done, fail}
use lluma.Crypto.Primitives.{Primitives}
use lluma.Crypto.Account.{
  Fallible, tunnel_auth_verify, tunnel_auth_sign, tunnel_auth_canonical, account_public_from_secret,
  verify_with-checks, verify_with-sign_with, public_from_secret-public_of,
}
use lluma.Broker.Db.{Redb}
use lluma.Broker.Store.{Store, HostRow, with_read, get_row_cases}
use lluma.Broker.Handshake.{
  WsMessage, text, FrameJson, Peer, recv_frame, send_frame, hello_account, auth_sig,
  account_registered, authorize, and_then, handshake, max_handshake_bytes,
}
use lluma.Host.Tunnel.{TunnelConfig, answer_challenge, signed_or}

signed_or-eq-ok : (r : Fallible Bytes) (sig : Bytes) → signed_or r ≡ ok sig → r ≡ ok sig
signed_or-eq-ok (ok x) sig h = ground (arith, h)
signed_or-eq-ok (err e) sig h = absurd (ground (arith, h))

and_then-step :
    {A B : Type 0} (o : Option A) (f : A → Option B) (b : B)
    → and_then o f ≡ some b
    → (a : A) × (o ≡ some a) × (f a ≡ some b)
and_then-step none f b h = absurd (ground (arith, h))
and_then-step (some a) f b h = (a, refl, h)

hello_account-is :
    (f : TunnelFrame) (account : Array32) → hello_account f ≡ some account → f ≡ hello 1 account
hello_account-is (hello v a) account h = elim (Bool-cases (v == 1)) [
  | inl e ↦ ground (arith, h, e)
  | inr e ↦ absurd (ground (arith, h, e))
]
hello_account-is (challenge v c) account h = absurd (ground (arith, h))
hello_account-is (auth v sig) account h = absurd (ground (arith, h))
hello_account-is (auth_ok v) account h = absurd (ground (arith, h))
hello_account-is (job v id spend sealed) account h = absurd (ground (arith, h))
hello_account-is (done v id preamble chunk) account h = absurd (ground (arith, h))
hello_account-is (fail v id) account h = absurd (ground (arith, h))

auth_sig-is : (f : TunnelFrame) (sig : Bytes) → auth_sig f ≡ some sig → f ≡ auth 1 sig
auth_sig-is (auth v s) sig h = elim (Bool-cases (v == 1)) [
  | inl e ↦ ground (arith, h, e)
  | inr e ↦ absurd (ground (arith, h, e))
]
auth_sig-is (hello v a) sig h = absurd (ground (arith, h))
auth_sig-is (challenge v c) sig h = absurd (ground (arith, h))
auth_sig-is (auth_ok v) sig h = absurd (ground (arith, h))
auth_sig-is (job v id spend sealed) sig h = absurd (ground (arith, h))
auth_sig-is (done v id preamble chunk) sig h = absurd (ground (arith, h))
auth_sig-is (fail v id) sig h = absurd (ground (arith, h))

module _ ⦃R : Redb⦄ where
  -- The broker finds only accounts that have a row.
  registered-row :
      (φ : R.Fault) (s : Store) (account : Array32)
      → account_registered φ s account ≡ true
      → (row : HostRow) × (R.rows HostRow s.hosts account ≡ some row)
  unfolding account_registered with_read
  registered-row φ s account h = elim (Option-cases (R.rows HostRow s.hosts account)) [
    | inr found ↦ found
    | inl none_ ↦ elim (get_row_cases φ s.hosts account) [
      | inl e ↦ absurd (ground (arith, h, none_, e))
      | inr e ↦ absurd (ground (arith, h, e))
    ]
  ]

module _ ⦃C : Primitives⦄ ⦃R : Redb⦄ (json : FrameJson) where
  tunnel_auth_verify-checks :
      (account nonce registry_pk : Array32) (sig : Bytes)
      → tunnel_auth_verify (be_bytes 32 account) nonce account registry_pk sig ≡ ok tt
      → C.verify
          (be_bytes 32 account)
          (codes "lluma-host-tunnel-v1"
            ++ (be_bytes 32 nonce ++ (be_bytes 32 account ++ be_bytes 32 registry_pk)))
          sig
        ≡ true
  unfolding tunnel_auth_verify
  tunnel_auth_verify-checks account nonce registry_pk sig h =
      verify_with-checks (be_bytes 32 account) (tunnel_auth_canonical nonce account registry_pk) sig
        h

  send_frame-parts :
      (peer : Peer) (frame : TunnelFrame) (arrived : List WsMessage)
      → send_frame json peer frame ≡ some arrived
      → (s : Bytes) × (json.to_string frame ≡ some s) × (peer s ≡ some arrived)
  unfolding send_frame
  send_frame-parts peer frame arrived h = elim (Option-cases (json.to_string frame)) [
    | inl none_ ↦ absurd (ground (arith, h, none_))
    | inr (s, written) ↦ (s, written, ground (arith, h, written))
  ]

  authorize-parts :
      (φ : R.Fault) (s : Store) (registry_pk host_account nonce : Array32) (sig : Bytes)
      (a : Array32)
      → authorize json φ s registry_pk host_account nonce sig ≡ some a
      → (a ≡ host_account)
        × (tunnel_auth_verify (be_bytes 32 host_account) nonce host_account registry_pk sig ≡ ok tt)
        × (account_registered φ s host_account ≡ true)
  unfolding authorize
  authorize-parts φ s registry_pk host_account nonce sig a h =
      elim (Result-cases
        (tunnel_auth_verify (be_bytes 32 host_account) nonce host_account registry_pk sig)) [
          | inr (e, bad) ↦ absurd (ground (arith, h, bad))
          | inl (_, good) ↦ elim (Bool-cases (account_registered φ s host_account)) [
            | inl known ↦ (ground (arith, h, good, known), good, known)
            | inr unknown ↦ absurd (ground (arith, h, good, unknown))
          ]
        ]

  -- What came from the peer: the hello with the account, and, after the challenge was sent to it, a
  -- frame with a signature of the challenge for this account and this broker, which verifies under the
  -- account as the public key.
  abbrev pub IsAnswered : List WsMessage → Peer → Array32 → Array32 → Array32 → Type 0
  IsAnswered incoming peer registry_pk nonce account =
      (rest : List WsMessage) × (s : Bytes) × (arrived : List WsMessage) × (sig : Bytes)
      × (over : List WsMessage) × (recv_frame json max_handshake_bytes incoming
          ≡ some (hello 1 account, rest))
      × (json.to_string (challenge 1 nonce) ≡ some s)
      × (peer s ≡ some arrived)
      × (recv_frame json max_handshake_bytes (rest ++ arrived) ≡ some (auth 1 sig, over))
      × (C.verify (be_bytes 32 account)
            (codes "lluma-host-tunnel-v1"
              ++ (be_bytes 32 nonce ++ (be_bytes 32 account ++ be_bytes 32 registry_pk)))
            sig
          ≡ true)

  -- An account that the handshake binds has a row in the registry, and is the one that the peer named
  -- in its first frame. The next frame of the peer after the challenge was sent to it carries an
  -- Ed25519 signature of this very challenge, for this account and this broker, that verifies under
  -- the account as the public key.
  pub handshake-authenticates :
      (φ : R.Fault) (s : Store) (registry_pk nonce : Array32) (incoming : List WsMessage)
      (peer : Peer) (account : Array32)
      → handshake json φ s registry_pk nonce incoming peer ≡ some account
      → ((row : HostRow) × (R.rows HostRow s.hosts account ≡ some row))
        × IsAnswered incoming peer registry_pk nonce account
  unfolding handshake send_frame
  handshake-authenticates φ s registry_pk nonce incoming peer account h =
      let ((first, rest), got, h1) =
        and_then-step (recv_frame json max_handshake_bytes incoming) _ account h in
      let (named, told, h2) = and_then-step (hello_account first) _ account h1 in
      let (arrived, sent, h3) =
        and_then-step (send_frame json peer (challenge 1 nonce)) _ account h2 in
      let ((second, over), then_, h4) =
        and_then-step (recv_frame json max_handshake_bytes (rest ++ arrived)) _ account h3 in
      let (sig, signed, h5) =
        and_then-step (auth_sig second) (authorize json φ s registry_pk named nonce) account h4 in
      let (is, good, known) = authorize-parts φ s registry_pk named nonce sig account h5 in
      let (shown, written, heard) = send_frame-parts peer (challenge 1 nonce) arrived sent in
      subst
        (λ a.
          ((row : HostRow) × (R.rows HostRow s.hosts a ≡ some row))
          × IsAnswered incoming peer registry_pk nonce a)
        (sym is)
        (
          registered-row φ s named known,
          (
            rest,
            shown,
            arrived,
            sig,
            over,
            got ∙ ap (λ f. some (f, rest)) (hello_account-is first named told),
            written,
            heard,
            then_ ∙ ap (λ f. some (f, over)) (auth_sig-is second sig signed),
            tunnel_auth_verify-checks named nonce registry_pk sig good,
          ),
        )

  recv-text :
      (s : Bytes) (frame : TunnelFrame) (ms : List WsMessage)
      → length s ≤ 1024
      → json.from_str s ≡ some frame
      → recv_frame json max_handshake_bytes (text s ∷ ms) ≡ some (frame, ms)
  unfolding recv_frame
  recv-text s frame ms short parsed = ground (arith, short, parsed)

  answer-parts :
      (cfg : TunnelConfig) (nonce : Array32) (frame : TunnelFrame)
      → answer_challenge json cfg nonce ≡ ok frame
      → (sig : Bytes) × (frame ≡ auth 1 sig)
        × (tunnel_auth_sign cfg.account_sk nonce cfg.host_account cfg.broker_key_id ≡ ok sig)
  unfolding answer_challenge
  answer-parts cfg nonce frame h =
      let (sig, e, h1) =
        >>=-eq-ok
          (signed_or (tunnel_auth_sign cfg.account_sk nonce cfg.host_account cfg.broker_key_id)) _
          h in
      (sig, sym (ok-injective h1), signed_or-eq-ok _ sig e)

  -- What an honest host answers a challenge with verifies.
  answer-verifies :
      (cfg : TunnelConfig) (nonce : Array32) (sig : Bytes)
      → account_public_from_secret cfg.account_sk ≡ ok (be_bytes 32 cfg.host_account)
      → tunnel_auth_sign cfg.account_sk nonce cfg.host_account cfg.broker_key_id ≡ ok sig
      → tunnel_auth_verify
          (be_bytes 32 cfg.host_account)
          nonce
          cfg.host_account
          cfg.broker_key_id
          sig
        ≡ ok tt
  unfolding tunnel_auth_sign tunnel_auth_verify
  answer-verifies cfg nonce sig key h =
      subst (λ k. tunnel_auth_verify k nonce cfg.host_account cfg.broker_key_id sig ≡ ok tt)
        (public_from_secret-public_of cfg.account_sk (be_bytes 32 cfg.host_account) key)
        (verify_with-sign_with cfg.account_sk
          (ok (tunnel_auth_canonical nonce cfg.host_account cfg.broker_key_id)) sig h)

  -- A registered host that says hello and answers the challenge as its side of the tunnel does, with
  -- the secret key of its account and the broker's registry key, is let in, if the frames fit into a
  -- kilobyte.
  pub handshake_honest :
      (φ : R.Fault) (s : Store) (nonce : Array32) (cfg : TunnelConfig)
      (greeting asks answer : Bytes) (frame : TunnelFrame) (peer : Peer)
      → account_public_from_secret cfg.account_sk ≡ ok (be_bytes 32 cfg.host_account)
      → account_registered φ s cfg.host_account ≡ true
      → ((f : TunnelFrame) (e : Bytes) → json.to_string f ≡ some e → json.from_str e ≡ some f)
      → json.to_string (hello 1 cfg.host_account) ≡ some greeting
      → json.to_string (challenge 1 nonce) ≡ some asks
      → answer_challenge json cfg nonce ≡ ok frame
      → json.to_string frame ≡ some answer
      → peer asks ≡ some (text answer ∷ [])
      → length greeting ≤ 1024
      → length answer ≤ 1024
      → handshake json φ s cfg.broker_key_id nonce (text greeting ∷ []) peer ≡ some cfg.host_account
  unfolding handshake
  handshake_honest φ s nonce cfg greeting asks answer frame peer key known law g a made w sent
        short1 short2 =
      let (sig, is, signed) = answer-parts cfg nonce frame made in
      let first = recv-text greeting (hello 1 cfg.host_account) [] short1 (law _ greeting g) in
      let second =
        recv-text answer (auth 1 sig) [] short2
          (subst (λ f. json.from_str answer ≡ some f) is (law frame answer w)) in
      let good = answer-verifies cfg nonce sig key signed in
      let posed : send_frame json peer (challenge 1 nonce) ≡ some (text answer ∷ []) =
        unfold send_frame in ground (arith, a, sent) in
      let bound : authorize json φ s cfg.broker_key_id cfg.host_account nonce sig
          ≡ some cfg.host_account =
        unfold authorize in ground (arith, good, known) in
      rw first (rw posed (rw second bound))
