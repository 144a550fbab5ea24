-- ===== src/Common/Assoc.antt =====
-- Association lists over native numbers: `HashMap::get`, `insert` and `remove`.
use Prim.Native.Nat.{ℕ, suc, ◌≤◌}
use mathlib.Core.Path.{◌≡◌, refl}
use mathlib.Core.Option.{Option, none, some}
use mathlib.Core.List.{List, [], ◌∷◌}
use native.Mathlib.Omega.{arith}
use lluma.Common.Tests.{◌==◌, if◌then◌else◌}
use lluma.Common.Lists.{length}

module _ {ℓ} {V : Type ℓ} where
  unfoldable pub lookup : List (ℕ × V) → ℕ → Option V
  lookup [] k = none
  lookup ((j, v) ∷ m) k = if j == k then some v else lookup m k

  -- The entry of the key is replaced, or added at the end.
  unfoldable pub assign : List (ℕ × V) → ℕ → V → List (ℕ × V)
  assign [] k v = (k, v) ∷ []
  assign ((j, u) ∷ m) k v = if j == k then (j, v) ∷ m else (j, u) ∷ assign m k v

  unfoldable pub erase : List (ℕ × V) → ℕ → List (ℕ × V)
  erase [] k = []
  erase ((j, u) ∷ m) k = if j == k then erase m k else (j, u) ∷ erase m k

  pub lookup-assign :
      (m : List (ℕ × V)) (k : ℕ) (v : V) (j : ℕ)
      → lookup (assign m k v) j ≡ (if k == j then some v else lookup m j)
  unfolding lookup assign
  lookup-assign [] k v j = refl
  lookup-assign ((i, u) ∷ m) k v j = ground (arith, lookup-assign m k v j)

  pub lookup-erase :
      (m : List (ℕ × V)) (k j : ℕ) → lookup (erase m k) j ≡ (if k == j then none else lookup m j)
  unfolding lookup erase
  lookup-erase [] k j = ground arith
  lookup-erase ((i, u) ∷ m) k j = ground (arith, lookup-erase m k j)

  pub length-assign :
      (m : List (ℕ × V)) (k : ℕ) (v : V)
      → length (assign m k v) ≡ elim (lookup m k) [ none ↦ suc (length m) | some u ↦ length m ]
  unfolding lookup assign
  length-assign [] k v = refl
  length-assign ((i, u) ∷ m) k v = ground (arith, length-assign m k v)

  pub length-erase : (m : List (ℕ × V)) (k : ℕ) → length (erase m k) ≤ length m
  unfolding erase
  length-erase [] k = omega arith
  length-erase ((i, u) ∷ m) k = ground (arith, length-erase m k)
