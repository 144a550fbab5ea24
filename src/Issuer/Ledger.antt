-- ===== src/Issuer/Ledger.antt =====
-- crates/lluma-issuer/src/ledger.rs: the credit ledger's trait with its contract, and the ledger in
-- memory that meets it.
use lluma.Common.{
  ℕ, ◌-◌, ◌≤◌, ◌≡◌, ◌≢◌, refl, ◌⊎◌, inl, List, [], ◌∷◌, ◌==◌, leb, if◌then◌else◌, Result, ok, err,
  arith, saturating_add,
}
use lluma.Core.Wire.{AccountId}
use lluma.Issuer.Error.{IssuerError, insufficient_credits}

-- `trait CreditLedger`. The view is the balance that each account has; a call may go wrong in an
-- environment of its own, and what the trait promises is stated for every environment.
pub record CreditLedger : Type 1 where
  pub State : Type 0
  pub Env : Type 0
  pub view : State → AccountId → ℕ
  pub balance : Env → State → AccountId → ℕ
  pub grant : Env → State → AccountId → ℕ → State
  pub debit : Env → State → AccountId → ℕ → Result IssuerError (Unit {0}) × State
  -- A grant adds to one account, or is dropped; no other account changes.
  pub grant_self :
      (φ : Env) (s : State) (a : AccountId) (n : ℕ)
      → (view (grant φ s a n) a ≡ saturating_add (view s a) n) ⊎ (view (grant φ s a n) a ≡ view s a)
  pub grant_other :
      (φ : Env) (s : State) (a b : AccountId) (n : ℕ) → a ≢ b → view (grant φ s a n) b ≡ view s b
  -- A debit that succeeds was covered and takes exactly the amount.
  pub debit-ok :
      (φ : Env) (s : State) (a : AccountId) (n : ℕ)
      → (debit φ s a n).0 ≡ ok tt
      → (n ≤ view s a) × (view (debit φ s a n).1 a ≡ view s a - n)
  -- One that fails takes nothing.
  pub debit-err :
      (φ : Env) (s : State) (a : AccountId) (n : ℕ) (e : IssuerError)
      → (debit φ s a n).0 ≡ err e
      → (e ≡ insufficient_credits) × (view (debit φ s a n).1 a ≡ view s a)
  pub debit_other :
      (φ : Env) (s : State) (a b : AccountId) (n : ℕ) → a ≢ b → view (debit φ s a n).1 b ≡ view s b

-- `HashMap<AccountId, u64>`: `get` and `insert`, each key once.
abbrev pub Balances : Type 0
Balances = List (AccountId × ℕ)

-- `*guard.get(account).unwrap_or(&0)`
unfoldable pub balance_of : Balances → AccountId → ℕ
balance_of [] a = 0
balance_of ((b, n) ∷ m) a = if b == a then n else balance_of m a

-- `*guard.entry(account).or_insert(0) = n`
pub set_balance : Balances → AccountId → ℕ → Balances
set_balance [] a n = (a, n) ∷ []
set_balance ((b, k) ∷ m) a n = if b == a then (b, n) ∷ m else (b, k) ∷ set_balance m a n

unfoldable pub grant : Balances → AccountId → ℕ → Balances
unfolding set_balance balance_of
grant m a amount = set_balance m a (saturating_add (balance_of m a) amount)

-- The entry is made before the test, also where the test fails.
unfoldable pub debit : Balances → AccountId → ℕ → Result IssuerError (Unit {0}) × Balances
unfolding set_balance balance_of
debit m a amount =
    let entry = balance_of m a in
    if leb amount entry
    then (ok tt, set_balance m a (entry - amount))
    else (err insufficient_credits, set_balance m a entry)

pub balance_of-set_balance :
    (m : Balances) (a b n : ℕ)
    → balance_of (set_balance m a n) b ≡ (if a == b then n else balance_of m b)
unfolding balance_of set_balance
balance_of-set_balance [] a b n = refl
balance_of-set_balance ((c, k) ∷ m) a b n = ground (arith, balance_of-set_balance m a b n)

pub granted :
    (m : Balances) (a b n : ℕ)
    → balance_of (grant m a n) b
      ≡ (if a == b then saturating_add (balance_of m a) n else balance_of m b)
unfolding grant
granted m a b n = balance_of-set_balance m a b _

pub debited-ok :
    (m : Balances) (a n : ℕ)
    → (debit m a n).0 ≡ ok tt
    → (n ≤ balance_of m a) × (balance_of (debit m a n).1 a ≡ balance_of m a - n)
unfolding debit
debited-ok m a n h = ground (arith, balance_of-set_balance m a a (balance_of m a - n))

pub debited-err :
    (m : Balances) (a n : ℕ) (e : IssuerError)
    → (debit m a n).0 ≡ err e
    → (e ≡ insufficient_credits) × (balance_of (debit m a n).1 a ≡ balance_of m a)
unfolding debit
debited-err m a n e h = ground (arith, balance_of-set_balance m a a (balance_of m a))

pub debited_other :
    (m : Balances) (a b n : ℕ) → a ≢ b → balance_of (debit m a n).1 b ≡ balance_of m b
unfolding debit
debited_other m a b n h = ground (
  arith,
  balance_of-set_balance m a b (balance_of m a - n),
  balance_of-set_balance m a b (balance_of m a),
)

pub granted_other : (m : Balances) (a b n : ℕ) → a ≢ b → balance_of (grant m a n) b ≡ balance_of m b
granted_other m a b n h = ground (arith, granted m a b n)

pub granted_self :
    (m : Balances) (a n : ℕ) → balance_of (grant m a n) a ≡ saturating_add (balance_of m a) n
granted_self m a n = ground (arith, granted m a a n)

-- `InMemoryLedger` meets the contract; nothing in it can fail.
abbrev pub in_memory_ledger : CreditLedger
in_memory_ledger = record {
  State = Balances;
  Env = Unit {0};
  view = balance_of;
  balance = λ φ. balance_of;
  grant = λ φ. grant;
  debit = λ φ. debit;
  grant_self = λ φ m a n. inl (granted_self m a n);
  grant_other = λ φ. granted_other;
  debit-ok = λ φ. debited-ok;
  debit-err = λ φ. debited-err;
  debit_other = λ φ. debited_other;
}
