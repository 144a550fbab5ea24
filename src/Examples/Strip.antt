-- ===== src/Examples/Strip.antt =====
-- A tag of equal bytes in front of a text.
use lluma.Common.{
  ℕ, zero, suc, ◌≡◌, refl, Option, none, some, [], ◌∷◌, ◌++◌, Bytes, replicate, ◌==◌, arith,
  if◌then◌else◌,
}

-- The text behind a tag of some bytes, if the tag is right.
abbrev pub strip : ℕ → ℕ → Bytes → Option Bytes
strip zero n xs = some xs
strip (suc k) n [] = none
strip (suc k) n (x ∷ xs) = if x == n then strip k n xs else none

pub strip-tag : (k n : ℕ) (pt : Bytes) → strip k n (replicate k n ++ pt) ≡ some pt
strip-tag zero n pt = refl
strip-tag (suc k) n pt = ground (arith, strip-tag k n pt)

pub strip-inv : (k n : ℕ) (ct pt : Bytes) → strip k n ct ≡ some pt → ct ≡ replicate k n ++ pt
strip-inv zero n ct pt h = ground (arith, h)
strip-inv (suc k) n [] pt h = absurd (ground (arith, h))
strip-inv (suc k) n (x ∷ xs) pt h = ground (arith, h, strip-inv k n xs pt)
