-- ===== src/Desktop/Wallet/Spending.antt =====
-- apps/lluma-desktop/src-tauri/src/client.rs: which tokens leave the wallet, and when.
use lluma.Common.{
  ℕ, ◌≡◌, ◌≢◌, refl, ◌⊎◌, true, false, List, [], ◌∷◌, ◌++◌, All, Bytes, Result, ok, err, arith,
  Bool-cases, Result-cases, inl, inr,
}
use lluma.Core.Wire.{AccountPublicKey, Token, SnapshotHostEntry}
use lluma.Issuer.Service.{KeyConfigResponse}
use lluma.Crypto.Vault.{Vault}
use lluma.Client.Error.{ClientError}
use lluma.Desktop.Wallet.{
  Network, Files, Wallet, WalletError, spent, unserved, ChatReply, pop, is_double_spend, saved,
  try_hosts, send_message,
}

-- How the attempts ended: with an answer, with a host that says that the token is spent already, or
-- with neither of them.
pub data Verdict : Type 0 where
  served : Bytes → Verdict
  double_spent : Verdict
  declined : Verdict

abbrev pub tokens_after : Verdict → List Token → List Token
tokens_after (served a) ts = pop ts
tokens_after double_spent ts = pop ts
tokens_after declined ts = ts

abbrev pub result_after : Verdict → ℕ → Result WalletError ChatReply
result_after (served a) b = ok (record { answer = a; spent = 1; balance = b })
result_after double_spent b = err spent
result_after declined b = err unserved

-- Whether the verdict is that the token was spent.
abbrev pub IsSpent : Verdict → Type 0
IsSpent declined = ⊥
IsSpent v = Unit

-- The third list is the first two, merged, each in its order.
pub data Merges {A : Type 0} : List A → List A → List A → Type 0 where
  none_left : Merges [] [] []
  from_first : (x : A) (xs ys zs : List A) → Merges xs ys zs → Merges (x ∷ xs) ys (x ∷ zs)
  from_second : (y : A) (xs ys zs : List A) → Merges xs ys zs → Merges xs (y ∷ ys) (y ∷ zs)

-- All the hosts that are listed and no others, those with models in front, and otherwise in the order
-- of the list.
abbrev pub IsPreferred : List SnapshotHostEntry → List SnapshotHostEntry → Type 0
IsPreferred listed hosts =
    (front : List SnapshotHostEntry) × (back : List SnapshotHostEntry) × (hosts ≡ front ++ back)
    × Merges front back listed
    × All (λ h. h.models ≢ []) front
    × All (λ h. h.models ≡ []) back

module _ ⦃V : Vault⦄ ⦃N : Network⦄ ⦃F : Files⦄ where
  -- The attempts with one token: each host in turn, until one decides.
  pub data Tries (kc : KeyConfigResponse) (token : Token) (prompt : Bytes)
      : N.World → List SnapshotHostEntry → Verdict → N.World → Type 0 where
    out_of_hosts : (x : N.World) → Tries kc token prompt x [] declined x
    answers :
        (x y : N.World) (host : SnapshotHostEntry) (hosts : List SnapshotHostEntry) (a : Bytes)
        → N.exec_with_host kc token host prompt x ≡ (ok a, y)
        → Tries kc token prompt x (host ∷ hosts) (served a) y
    refuses :
        (x y : N.World) (host : SnapshotHostEntry) (hosts : List SnapshotHostEntry)
        (e : ClientError)
        → N.exec_with_host kc token host prompt x ≡ (err e, y)
        → is_double_spend e ≡ true
        → Tries kc token prompt x (host ∷ hosts) double_spent y
    passes :
        (x y z : N.World) (host : SnapshotHostEntry) (hosts : List SnapshotHostEntry)
        (e : ClientError) (v : Verdict)
        → N.exec_with_host kc token host prompt x ≡ (err e, y)
        → is_double_spend e ≡ false
        → Tries kc token prompt y hosts v z
        → Tries kc token prompt x (host ∷ hosts) v z

  -- The loop ends with a verdict of the attempts, and does what it says.
  pub try_hosts-Tries :
      (passphrase : Bytes) (kc : KeyConfigResponse) (token : Token) (prompt : Bytes)
      (hosts : List SnapshotHostEntry) (w : Wallet)
      → (v : Verdict) × (y : N.World) × Tries kc token prompt w.world hosts v y
        × (try_hosts passphrase kc token prompt hosts w
            ≡ saved passphrase
                (record w { tokens = tokens_after v w.tokens; world = y })
                (result_after v))
  unfolding try_hosts
  try_hosts-Tries passphrase kc token prompt [] w = (declined, w.world, out_of_hosts w.world, refl)
  try_hosts-Tries passphrase kc token prompt (host ∷ hosts) w =
      let y = (N.exec_with_host kc token host prompt w.world).1 in
      elim (Result-cases (N.exec_with_host kc token host prompt w.world).0) [
        | inl (a, got) ↦ (
          served a,
          y,
          answers w.world y host hosts a (ground (arith, got)),
          rw (got, try_hosts) refl,
        )
        | inr (e, got) ↦ elim (Bool-cases (is_double_spend e)) [
          | inl again ↦ (
            double_spent,
            y,
            refuses w.world y host hosts e (ground (arith, got)) again,
            rw (got, try_hosts) (rw again refl),
          )
          | inr else_ ↦
              let (v, z, tries, same) =
                try_hosts-Tries passphrase kc token prompt hosts (record w { world = y }) in
              (
                v,
                z,
                passes w.world y z host hosts e v (ground (arith, got)) else_ tries,
                rw (got, try_hosts) (rw else_ same),
              )
        ]
      ]

  -- What the attempts of a message are, with the last token of the wallet, after the tokens in front
  -- of it, and how they end.
  abbrev pub Attempts : AccountPublicKey → Bytes → Wallet → List Token → Verdict → Type 0
  Attempts registry_pk prompt w front v =
      (token : Token) × (kc : KeyConfigResponse) × (listed : List SnapshotHostEntry) × (hosts : List
        SnapshotHostEntry)
      × (x : N.World) × (y : N.World) × (z : N.World) × (w.tokens ≡ front ++ (token ∷ []))
      × (N.key_config w.world ≡ (ok kc, x))
      × (N.snapshot registry_pk x ≡ (ok listed, y))
      × IsPreferred listed hosts
      × Tries kc token prompt y hosts v z

  -- Why no host was asked: there was no token, one of the two calls before failed, or no host is
  -- listed.
  abbrev pub Unasked : AccountPublicKey → Wallet → Type 0
  Unasked registry_pk w =
      (w.tokens ≡ [])
      ⊎ (((e : ClientError) × ((N.key_config w.world).0 ≡ err e))
          ⊎ (((e : ClientError) × ((N.snapshot registry_pk (N.key_config w.world).1).0 ≡ err e))
              ⊎ ((N.snapshot registry_pk (N.key_config w.world).1).0 ≡ ok [])))

  abbrev pub Spends : AccountPublicKey → Bytes → Bytes → Wallet → Type 0
  Spends registry_pk passphrase prompt w =
      let after = (send_message registry_pk passphrase prompt w).1.tokens in
      ((after ≡ w.tokens)
        × (Unasked registry_pk w
            ⊎ ((front : List Token) × Attempts registry_pk prompt w front declined)))
      ⊎ ((v : Verdict) × IsSpent v × Attempts registry_pk prompt w after v)
