-- ===== src/Issuer/SpentSet.antt =====
-- crates/lluma-issuer/src/spent_set.rs: the trait of the double-spend set, and the set in memory.
use lluma.Common.{Bool, true, false, ◌≡◌, List, [], ◌∷◌, ◌==◌, ◌||◌, if◌then◌else◌, arith}
use lluma.Core.Wire.{SpendId}

pub data InsertOutcome : Type 0 where
  inserted already_spent : InsertOutcome

-- `trait SpentSet` with its contract: an id is accepted only where it is new, and is spent from then
-- on; no other id changes; a failure may refuse a new id, and never accepts a spent one.
pub record SpentSet : Type 1 where
  pub State : Type 0
  pub Env : Type 0
  pub is_spent : State → SpendId → Bool
  pub insert : Env → State → SpendId → InsertOutcome × State
  pub insert-new :
      (φ : Env) (s : State) (k : SpendId)
      → (insert φ s k).0 ≡ inserted
      → (is_spent s k ≡ false) × (is_spent (insert φ s k).1 k ≡ true)
  pub insert-refused :
      (φ : Env) (s : State) (k j : SpendId)
      → (insert φ s k).0 ≡ already_spent
      → is_spent (insert φ s k).1 j ≡ is_spent s j
  pub insert-keeps :
      (φ : Env) (s : State) (k j : SpendId)
      → is_spent s j ≡ true
      → is_spent (insert φ s k).1 j ≡ true

-- `HashSet<SpendId>`
unfoldable pub contains : List SpendId → SpendId → Bool
contains [] k = false
contains (j ∷ ids) k = j == k || contains ids k

-- `HashSet::insert` returns whether the id was new.
unfoldable pub insert : List SpendId → SpendId → InsertOutcome × List SpendId
insert ids k = if contains ids k then (already_spent, ids) else (inserted, k ∷ ids)

pub insert-new :
    (ids : List SpendId) (k : SpendId)
    → (insert ids k).0 ≡ inserted
    → (contains ids k ≡ false) × (contains (insert ids k).1 k ≡ true)
unfolding insert contains
insert-new ids k h = ground arith

pub insert-refused :
    (ids : List SpendId) (k j : SpendId)
    → (insert ids k).0 ≡ already_spent
    → contains (insert ids k).1 j ≡ contains ids j
unfolding insert
insert-refused ids k j h = ground arith

pub insert-keeps :
    (ids : List SpendId) (k j : SpendId)
    → contains ids j ≡ true
    → contains (insert ids k).1 j ≡ true
unfolding insert contains
insert-keeps ids k j h = ground arith

abbrev pub in_memory_spent_set : SpentSet
in_memory_spent_set = record {
  State = List SpendId;
  Env = Unit {0};
  is_spent = contains;
  insert = λ φ. insert;
  insert-new = λ φ. insert-new;
  insert-refused = λ φ. insert-refused;
  insert-keeps = λ φ. insert-keeps;
}
