-- ===== src/Desktop/Wallet.antt =====
-- apps/lluma-desktop/src-tauri/src/client.rs: the unspent tokens, how they are kept, and what spends
-- them. The texts of errors are left out, and an answer is its bytes, before `from_utf8_lossy`.
use lluma.Common.{
  ℕ, suc, ◌+◌, ◌%◌, ◌≡◌, Bool, true, false, not, Option, none, some, List, [], ◌∷◌, ◌++◌, Bytes,
  length, is_empty, ◌==◌, Result, ok, err, ok_or, ensure, ◌>>=◌, ◌>>◌, if◌then◌else◌,
}
use lluma.Core.Wire.{Array32, AccountPublicKey, Token, SnapshotHostEntry}
use lluma.Issuer.Service.{KeyConfigResponse}
use lluma.Crypto.Vault.{Vault}
use lluma.Crypto.Keystore.{KeystoreBlob, seal_bytes, open_bytes}
use lluma.Client.Error.{ClientError, server}
pub mod Keeping
pub mod Spending

-- The calls of the client library, with everything behind them as a state.
pub record Network : Type 1 where
  pub World : Type 0
  pub key_config : World → Result ClientError KeyConfigResponse × World
  pub snapshot : AccountPublicKey → World → Result ClientError (List SnapshotHostEntry) × World
  pub acquire : KeyConfigResponse → ℕ → World → Result ClientError (List Token) × World
  pub exec_with_host :
      KeyConfigResponse
      → Token
      → SnapshotHostEntry
      → Bytes
      → World
      → Result ClientError Bytes × World
  pub trial_register : Array32 → ℕ → World → Result ClientError Bool × World

-- `std::fs` on one file and its directory, and postcard on a list of tokens. A call says whether it
-- succeeded.
pub record Files : Type 1 where
  pub Disk : Type 0
  pub read : Disk → Option Bytes
  pub create_dir_all : Disk → Bool × Disk
  pub write : Bytes → Disk → Bool × Disk
  pub read-write : (b : Bytes) (d : Disk) → (write b d).0 ≡ true → read (write b d).1 ≡ some b
  pub to_stdvec : List Token → Option Bytes
  pub from_bytes : Bytes → Option (List Token)
  pub from_bytes-to_stdvec :
      (ts : List Token) (b : Bytes) → to_stdvec ts ≡ some b → from_bytes b ≡ some ts

pub data WalletError : Type 0 where
  zero_count no_credits no_hosts spent unserved unsaved not_offered unavailable : WalletError
  -- The calls of the network that failed: the connection, the directory, the purchase, the claim.
  connect discovery purchase claim : ClientError → WalletError

-- `ChatReply`
pub record ChatReply : Type 0 where
  pub answer : Bytes
  pub spent : ℕ
  pub balance : ℕ

abbrev pub last : List Token → Option Token
last [] = none
last (t ∷ []) = some t
last (t ∷ u ∷ ts) = last (u ∷ ts)

-- `NetworkStatus`, without the message.
pub record NetworkStatus : Type 0 where
  pub reachable : Bool
  pub epoch : ℕ
  pub denomination : ℕ
  pub latency_ms : ℕ

-- `Vec::pop`
abbrev pub pop : List Token → List Token
pop [] = []
pop (t ∷ []) = []
pop (t ∷ u ∷ ts) = t ∷ pop (u ∷ ts)

abbrev pub with_models : Bool → List SnapshotHostEntry → List SnapshotHostEntry
with_models none_ [] = []
with_models true (h ∷ hs) =
    let rest = with_models true hs in if is_empty h.models then h ∷ rest else rest
with_models false (h ∷ hs) =
    let rest = with_models false hs in if is_empty h.models then rest else h ∷ rest

-- `sort_by_key(|h| h.models.is_empty())`: a stable sort by a key of two values.
unfoldable pub prefer_models : List SnapshotHostEntry → List SnapshotHostEntry
prefer_models hs = with_models false hs ++ with_models true hs

-- `Err(ClientError::Server(409))`
abbrev pub is_double_spend : ClientError → Bool
is_double_spend (server s) = s == 409
is_double_spend e = false

abbrev pub map_error :
    {A : Type 0} → (ClientError → WalletError) → Result ClientError A → Result WalletError A
map_error f (ok a) = ok a
map_error f (err e) = err (f e)

module _ ⦃F : Files⦄ where
  -- The two calls that put a blob on the disk.
  unfoldable pub put : KeystoreBlob → F.Disk → Bool × F.Disk
  put blob disk =
      let (made, d) = F.create_dir_all disk in if made then F.write blob d else (false, d)

module _ ⦃N : Network⦄ where
  -- The probe, with the milliseconds that it took, in the 64 bits of `as u64`.
  unfoldable pub network_status : ℕ → N.World → NetworkStatus × N.World
  network_status elapsed x =
      let (kc_result, y) = N.key_config x in
      let latency_ms = elapsed % 18446744073709551616 in
      (
        (elim kc_result [
          | ok kc ↦ record {
            reachable = true;
            epoch = kc.epoch;
            denomination = kc.denomination;
            latency_ms = latency_ms;
          }
          | err e ↦ record {
            reachable = false;
            epoch = 0;
            denomination = 0;
            latency_ms = latency_ms;
          }
        ]),
        y,
      )

module _ ⦃V : Vault⦄ ⦃N : Network⦄ ⦃F : Files⦄ where
  -- What the flows change: the `TokenStore`, and the machine around it.
  pub record Wallet : Type 0 where
    pub tokens : List Token
    pub disk : F.Disk
    pub rng : V.Rng
    pub world : N.World

  -- `TokenStore::load`
  unfoldable pub load : F.Disk → Bytes → List Token
  load disk passphrase = elim (F.read disk) [
    | none ↦ []
    | some b ↦ elim (open_bytes passphrase b) [
      | err e ↦ []
      | ok pt ↦ elim (F.from_bytes pt) [ none ↦ [] | some ts ↦ ts ]
    ]
  ]

  -- `TokenStore::save`
  unfoldable pub save : Bytes → Wallet → Bool × Wallet
  unfolding put
  save passphrase w = elim (F.to_stdvec w.tokens) [
    | none ↦ (false, w)
    | some plain ↦
        let (sealed, rng) = seal_bytes w.rng passphrase plain in
        elim sealed [
          | err e ↦ (false, record w { rng = rng })
          | ok blob ↦
              let (written, d) = put blob w.disk in (written, record w { rng = rng; disk = d })
        ]
  ]

  -- `save(..)?` and then a result.
  abbrev pub saved :
      {A : Type 0} → Bytes → Wallet → (ℕ → Result WalletError A) → Result WalletError A × Wallet
  unfolding save
  saved passphrase w result =
      let (done, w') = save passphrase w in
      (if done then result (length w'.tokens) else err unsaved, w')

  unfoldable pub acquire : Bytes → ℕ → Wallet → Result WalletError ℕ × Wallet
  unfolding save
  acquire passphrase n w =
      if n == 0
      then (err zero_count, w)
      else (let (kc_result, x) = N.key_config w.world in
          elim kc_result [
            | err e ↦ (err (connect e), record w { world = x })
            | ok kc ↦
                let (bought, y) = N.acquire kc n x in
                elim bought [
                  | err e ↦ (err (purchase e), record w { world = y })
                  | ok fresh ↦
                      saved passphrase (record w { tokens = w.tokens ++ fresh; world = y })
                        (λ b. ok b)
                ]
          ])

  -- `claim_trial` with what the signed bootstrap offers.
  unfoldable pub claim_trial :
      Option Array32 → Option ℕ → N.World → Result WalletError (Unit {0}) × N.World
  claim_trial none difficulty x = (err not_offered, x)
  claim_trial (some salt) none x = (err not_offered, x)
  claim_trial (some salt) (some difficulty) x =
      let (granted, y) = N.trial_register salt difficulty x in
      (map_error claim granted >>= (λ g. if g then ok tt else err unavailable), y)

  -- The loop over the hosts, with the token that each of them is offered.
  unfoldable pub try_hosts :
      Bytes
      → KeyConfigResponse
      → Token
      → Bytes
      → List SnapshotHostEntry
      → Wallet
      → Result WalletError ChatReply × Wallet
  unfolding save
  try_hosts passphrase kc token prompt [] w = saved passphrase w (λ b. err unserved)
  try_hosts passphrase kc token prompt (host ∷ hosts) w =
      let (result, x) = N.exec_with_host kc token host prompt w.world in
      let spent_one = record w { tokens = pop w.tokens; world = x } in
      let rest = try_hosts passphrase kc token prompt hosts (record w { world = x }) in
      elim result [
        | ok answer ↦
            saved passphrase spent_one
              (λ b. ok (record { answer = answer; spent = 1; balance = b }))
        | err e ↦ if is_double_spend e then saved passphrase spent_one (λ b. err spent) else rest
      ]

  -- The hosts that the directory lists, with the models first.
  unfoldable pub discover :
      AccountPublicKey
      → N.World
      → Result WalletError (KeyConfigResponse × List SnapshotHostEntry) × N.World
  unfolding prefer_models
  discover registry_pk x0 =
      let (kc_result, x) = N.key_config x0 in
      elim kc_result [
        | err e ↦ (err (connect e), x)
        | ok kc ↦
            let (listed, y) = N.snapshot registry_pk x in
            (
              (do
                hosts ← map_error discovery listed
                ensure (not (is_empty hosts)) no_hosts
                ok (kc, prefer_models hosts)),
              y,
            )
      ]

  unfoldable pub send_message :
      AccountPublicKey → Bytes → Bytes → Wallet → Result WalletError ChatReply × Wallet
  unfolding try_hosts discover
  send_message registry_pk passphrase prompt w = elim (last w.tokens) [
    | none ↦ (err no_credits, w)
    | some token ↦
        let (found, x) = discover registry_pk w.world in
        elim found [
          | err e ↦ (err e, record w { world = x })
          | ok (kc, hosts) ↦ try_hosts passphrase kc token prompt hosts (record w { world = x })
        ]
  ]
