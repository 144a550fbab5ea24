-- ===== src/Broker/Db.antt =====
-- What the broker takes from the packages redb and postcard: tables of rows under keys, inside a
-- transaction. A row type stands for the bytes of its postcard encoding, so a read fails if redb
-- fails or the bytes do not decode. The environment decides what fails: each transaction runs
-- under a `Fault` of its own.
use lluma.Common.{
  ℕ, suc, ◌≤◌, ◌≡◌, ◌==◌, Bool, true, Option, none, some, List, [], ◌∷◌, if◌then◌else◌,
}

abbrev pub find_row {ℓ} : {V : Type ℓ} → ℕ → List (ℕ × V) → Option V
find_row k [] = none
find_row k ((j, v) ∷ es) = if j == k then some v else find_row k es

-- Keys rise strictly along the list, and none is below the bound.
abbrev pub IsAscending {ℓ} : {V : Type ℓ} → ℕ → List (ℕ × V) → Type 0
IsAscending lo [] = Unit
IsAscending lo ((k, v) ∷ es) = (lo ≤ k) × IsAscending (suc k) es

pub record Redb : Type 1 where
  pub Fault : Type 0
  -- `begin_write` or `begin_read` succeeds, and `commit` does.
  pub begins : Fault → Bool
  pub commits : Fault → Bool
  -- A table whose values have a type, and the rows that it holds.
  pub Table : Type 0 → Type 0
  pub rows : (V : Type 0) → Table V → ℕ → Option V
  pub empty : (V : Type 0) → Table V
  -- `open_table` with `get`, `insert` or `iter`; `none` is an error, whose content the broker
  -- throws away.
  pub get : (V : Type 0) → Fault → Table V → ℕ → Option (Option V)
  pub insert : (V : Type 0) → Fault → Table V → ℕ → V → Option (Table V)
  pub iter : (V : Type 0) → Fault → Table V → Option (List (ℕ × V))
  -- A read that succeeds returns the row under the key.
  pub get_rows :
      (V : Type 0) (φ : Fault) (t : Table V) (k : ℕ) (o : Option V)
      → get V φ t k ≡ some o
      → o ≡ rows V t k
  -- A write that succeeds sets the row under the key and no other.
  pub insert_rows :
      (V : Type 0) (φ : Fault) (t t' : Table V) (k : ℕ) (v : V)
      → insert V φ t k v ≡ some t'
      → (j : ℕ) → rows V t' j ≡ (if k == j then some v else rows V t j)
  -- A scan that succeeds returns every row once, in the order of the keys.
  pub iter_rows :
      (V : Type 0) (φ : Fault) (t : Table V) (es : List (ℕ × V))
      → iter V φ t ≡ some es
      → (j : ℕ) → find_row j es ≡ rows V t j
  pub iter-IsAscending :
      (V : Type 0) (φ : Fault) (t : Table V) (es : List (ℕ × V))
      → iter V φ t ≡ some es
      → IsAscending 0 es
  pub empty_rows : (V : Type 0) (j : ℕ) → rows V (empty V) j ≡ none

-- An environment in which nothing goes wrong.
pub record IsHealthy ⦃R : Redb⦄ (φ : R.Fault) : Type 1 where
  pub begins : R.begins φ ≡ true
  pub commits : R.commits φ ≡ true
  pub gets : (V : Type 0) (t : R.Table V) (k : ℕ) → R.get V φ t k ≡ some (R.rows V t k)
  pub inserts :
      (V : Type 0) (t : R.Table V) (k : ℕ) (v : V)
      → (t' : R.Table V) × (R.insert V φ t k v ≡ some t')
  pub iters : (V : Type 0) (t : R.Table V) → (es : List (ℕ × V)) × (R.iter V φ t ≡ some es)
