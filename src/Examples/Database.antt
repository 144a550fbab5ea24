-- ===== src/Examples/Database.antt =====
-- A database to run the broker on: each table is its rows in the order of their keys, and a
-- transaction fails as a whole or not at all.
use lluma.Common.{
  ℕ, suc, ◌≤◌, ◌≡◌, refl, Bool, true, Option, some, List, [], ◌∷◌, ◌==◌, ltb, if◌then◌else◌, arith,
  Bool-cases, ==_iff, subst, sym, inl, inr,
}
use lluma.Broker.Db.{Redb, IsHealthy, find_row, IsAscending}

abbrev pub put : {V : Type 0} → ℕ → V → List (ℕ × V) → List (ℕ × V)
put k v [] = (k, v) ∷ []
put k v ((j, u) ∷ es) =
    if k == j then (k, v) ∷ es else if ltb k j then (k, v) ∷ (j, u) ∷ es else (j, u) ∷ put k v es

pub put-IsAscending :
    {V : Type 0} (lo k : ℕ) (v : V) (es : List (ℕ × V))
    → lo ≤ k
    → IsAscending lo es
    → IsAscending lo (put k v es)
put-IsAscending lo k v [] le h = (le, tt)
put-IsAscending lo k v ((j, u) ∷ es) le h = elim (Bool-cases (k == j)) [
  | inl yes_ ↦ rw yes_ (le, subst (λ i. IsAscending (suc i) es) (sym ((==_iff k j).0 yes_)) h.1)
  | inr no_ ↦ elim (Bool-cases (ltb k j)) [
    | inl below ↦ rw no_ (rw below (le, (ground arith, h.1)))
    | inr above ↦ rw no_ (rw above (h.0, put-IsAscending (suc j) k v es (ground arith) h.1))
  ]
]

pub find_row-put :
    {V : Type 0} (k : ℕ) (v : V) (es : List (ℕ × V)) (j : ℕ)
    → find_row j (put k v es) ≡ (if k == j then some v else find_row j es)
find_row-put k v [] j = refl
find_row-put k v ((i, u) ∷ es) j = ground (arith, find_row-put k v es j)

pub some_inj : {A : Type 0} (a b : A) → ◌≡◌ {A = Option A} (some a) (some b) → a ≡ b
some_inj a b h = cc

abbrev pub Rows : Type 0 → Type 0
Rows V = (es : List (ℕ × V)) × IsAscending 0 es

instance abbrev pub database : Redb
database = record {
  Fault = Bool;
  begins = λ φ. φ;
  commits = λ φ. true;
  Table = Rows;
  rows = λ V t k. find_row k t.0;
  empty = λ V. ([], tt);
  get = λ V φ t k. some (find_row k t.0);
  insert = λ V φ t k v. some (put k v t.0, put-IsAscending 0 k v t.0 (omega arith) t.1);
  iter = λ V φ t. some t.0;
  get_rows = λ V φ t k o h. ground (arith, h);
  insert_rows = λ V φ t t' k v h j.
      subst (λ u. find_row j u.0 ≡ (if k == j then some v else find_row j t.0)) (some_inj _ _ h)
        (find_row-put k v t.0 j);
  iter_rows = λ V φ t es h j. subst (λ u. find_row j u ≡ find_row j t.0) (some_inj _ _ h) refl;
  iter-IsAscending = λ V φ t es h. subst (λ u. IsAscending 0 u) (some_inj _ _ h) t.1;
  empty_rows = λ V j. refl;
}

pub database-IsHealthy : IsHealthy true
database-IsHealthy = record {
  begins = refl;
  commits = refl;
  gets = λ V t k. refl;
  inserts = λ V t k v. (_, refl);
  iters = λ V t. (_, refl);
}
