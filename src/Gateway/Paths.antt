-- ===== src/Gateway/Paths.antt =====
-- crates/lluma-gateway/src/lib.rs: what the gateway's test on paths lets through.
use lluma.Common.{
  same, same-≡, ℕ, Bool, map, ltb, ◌+◌, ◌/◌, ◌%◌, ◌≡◌, ◌≢◌, ◌⊎◌, inl, inr, refl, ap, sym, ◌∙◌, true,
  false, ◌||◌, some, List, [], ◌∷◌, ◌++◌, Bytes, codes, ◌==◌, arith, if◌then◌else◌, Bool-cases,
  Option-cases,
}
use lluma.Crypto.Tokens.Slices.{append_assoc}
use lluma.Gateway.{
  strip_prefix, split_at, cons_head, any_, starts_with_slash, ends_with_slash, rewritten,
  bad_segment, prefix_matches, path_allowed,
}

-- What a URL parser does to a path: tabs and line ends are stripped, a backslash is a slash.
abbrev pub cleaned : Bytes → Bytes
cleaned [] = []
cleaned (b ∷ bs) =
    let rest = cleaned bs in
    if b == 9 || (b == 10 || b == 13) then rest else (if b == 92 then b'/' else b) ∷ rest

abbrev pub all_but_last : List Bytes → List Bytes
all_but_last [] = []
all_but_last (s ∷ []) = []
all_but_last (s ∷ t ∷ ss) = s ∷ all_but_last (t ∷ ss)

-- Dot segments are removed: `.` goes, and `..` goes with the segment before it.
abbrev pub resolved : List Bytes → List Bytes → List Bytes
resolved out [] = out
resolved out (s ∷ ss) =
    resolved
      (if same s (codes ".")
        then out
        else if same s (codes "..")
        then all_but_last out
        else out ++ (s ∷ []))
      ss

abbrev pub joined : List Bytes → Bytes
joined [] = []
joined (s ∷ ss) = b'/' ∷ (s ++ joined ss)

-- Percent-encoding of the bytes of a set.
abbrev pub hex_digit : ℕ → ℕ
hex_digit n = if ltb n 10 then 48 + n else 55 + n

abbrev pub escaped : (ℕ → Bool) → Bytes → Bytes
escaped set [] = []
escaped set (b ∷ bs) =
    let rest = escaped set bs in
    if set b then b'%' ∷ hex_digit (b / 16) ∷ hex_digit (b % 16) ∷ rest else b ∷ rest

-- The path that is sent when a URL is made of it: cleaned, its dot segments removed, and the bytes of
-- the package's path percent-encode set encoded.
abbrev pub normal : (ℕ → Bool) → Bytes → Bytes
normal set [] = []
normal set (first ∷ rest) = joined (map (escaped set) (resolved [] (split_at b'/' (cleaned rest))))

-- The path is the prefix, or goes on below it.
abbrev pub IsBelow : Bytes → Bytes → Type 0
IsBelow p path =
    (rest : Bytes) × (path ≡ p ++ rest)
    × ((ends_with_slash p ≡ true) ⊎ ((rest ≡ []) ⊎ (starts_with_slash rest ≡ true)))

-- One of the prefixes is such.
abbrev pub SomeBelow : List Bytes → Bytes → Type 0
SomeBelow [] path = ⊥
SomeBelow (p ∷ ps) path = IsBelow p path ⊎ SomeBelow ps path

strip_prefix-≡ : (p path rest : Bytes) → strip_prefix p path ≡ some rest → path ≡ p ++ rest
unfolding strip_prefix
strip_prefix-≡ [] path rest h = ground (arith, h)
strip_prefix-≡ (x ∷ xs) [] rest h = absurd (ground (arith, h))
strip_prefix-≡ (x ∷ xs) (y ∷ ys) rest h = ground (arith, h, strip_prefix-≡ xs ys rest)

append-nil {ℓ} : {A : Type ℓ} (xs : List A) → xs ≡ xs ++ []
append-nil [] = refl
append-nil (x ∷ xs) = ap (◌∷◌ x) (append-nil xs)

prefix_matches-IsBelow : (path p : Bytes) → prefix_matches path p ≡ true → IsBelow p path
unfolding prefix_matches
prefix_matches-IsBelow path p h = elim (Bool-cases (ends_with_slash p)) [
  | inl slash ↦ elim (Option-cases (strip_prefix p path)) [
    | inl e ↦ absurd (ground (arith, h, slash, e))
    | inr (rest, e) ↦ (rest, strip_prefix-≡ p path rest e, inl slash)
  ]
  | inr bare ↦ elim (Bool-cases (same path p)) [
    | inl e ↦ ([], same-≡ path p e ∙ append-nil p, inr (inl refl))
    | inr ne ↦ elim (Option-cases (strip_prefix p path)) [
      | inl e ↦ absurd (ground (arith, h, bare, ne, e))
      | inr (rest, e) ↦
          (rest, strip_prefix-≡ p path rest e, inr (inr (ground (arith, h, bare, ne, e))))
    ]
  ]
]

SomeBelow-any :
    (path : Bytes) (ps : List Bytes) → any_ (prefix_matches path) ps ≡ true → SomeBelow ps path
SomeBelow-any path [] h = absurd (ground (arith, h))
SomeBelow-any path (p ∷ ps) h = elim (Bool-cases (prefix_matches path p)) [
  | inl yes_ ↦ inl (prefix_matches-IsBelow path p yes_)
  | inr no_ ↦ inr (SomeBelow-any path ps (ground (arith, h, no_)))
]

cleaned-same : (bs : Bytes) → any_ rewritten bs ≡ false → cleaned bs ≡ bs
cleaned-same [] h = refl
cleaned-same (b ∷ bs) h = ground (arith, h, cleaned-same bs)

joined-cons_head :
    (b : ℕ) (ss : List Bytes) (bs : Bytes)
    → ss ≢ []
    → joined ss ≡ b'/' ∷ bs
    → joined (cons_head b ss) ≡ b'/' ∷ b ∷ bs
joined-cons_head b [] bs ne h = absurd (ne refl)
joined-cons_head b (s ∷ ss) bs ne h = ground (arith, h)

cons_head-ne : (b : ℕ) (ss : List Bytes) → cons_head b ss ≢ []
cons_head-ne b [] = λ e. cc
cons_head-ne b (s ∷ ss) = λ e. cc

split_at-ne : (bs : Bytes) → split_at b'/' bs ≢ []
unfolding split_at
split_at-ne [] = λ e. cc
split_at-ne (b ∷ bs) = elim (Bool-cases (b == b'/')) [
  | inl e ↦ rw e (λ h. cc)
  | inr e ↦ rw e (cons_head-ne b (split_at b'/' bs))
]

joined-split_at : (bs : Bytes) → joined (split_at b'/' bs) ≡ b'/' ∷ bs
unfolding split_at
joined-split_at [] = refl
joined-split_at (b ∷ bs) =
    let ih = joined-split_at bs in
    let put = joined-cons_head b (split_at b'/' bs) bs (split_at-ne bs) ih in
    ground (arith, ih, put)

resolved-append : (out ss : List Bytes) → any_ bad_segment ss ≡ false → resolved out ss ≡ out ++ ss
resolved-append out [] h = append-nil out
resolved-append out (s ∷ ss) h =
    let plain : same s (codes ".") ≡ false = ground (arith, h) in
    let not_up : same s (codes "..") ≡ false = ground (arith, h) in
    rw plain (
      rw not_up
        (resolved-append (out ++ (s ∷ [])) ss (ground (arith, h)) ∙ append_assoc out (s ∷ []) ss))

any-tail : (b : ℕ) (bs : Bytes) → any_ rewritten (b ∷ bs) ≡ false → any_ rewritten bs ≡ false
any-tail b bs h = ground (arith, h)

-- A blank or a control byte, or `#`, `%`, `?` or a backslash.
abbrev pub forbidden_byte : ℕ → Bool
forbidden_byte b = ltb b 33 || (b == 35 || (b == 37 || (b == 63 || b == 92)))

forbidden-rewritten : (bs : Bytes) → any_ rewritten bs ≡ false → any_ forbidden_byte bs ≡ false
forbidden-rewritten [] h = refl
forbidden-rewritten (b ∷ bs) h = ground (arith, h, forbidden-rewritten bs)

escaped-append :
    (set : ℕ → Bool) (xs ys : Bytes) → escaped set (xs ++ ys) ≡ escaped set xs ++ escaped set ys
escaped-append set [] ys = refl
escaped-append set (x ∷ xs) ys = ground (arith, escaped-append set xs ys)

joined-escaped :
    (set : ℕ → Bool) (ss : List Bytes)
    → set b'/' ≡ false
    → joined (map (escaped set) ss) ≡ escaped set (joined ss)
joined-escaped set [] h = refl
joined-escaped set (s ∷ ss) h =
    ground (arith, h, joined-escaped set ss h, escaped-append set s (joined ss))

-- Nothing is encoded where no byte is in the set.
pub escaped-same : (set : ℕ → Bool) (bs : Bytes) → any_ set bs ≡ false → escaped set bs ≡ bs
escaped-same set [] h = refl
escaped-same set (b ∷ bs) h = ground (arith, h, escaped-same set bs)

-- A path that is let through is absolute, and making a URL of it does nothing but to percent-encode
-- bytes, of whatever set that has not the slash: stripping tabs and line ends, turning backslashes and
-- removing dot segments change nothing of it. No byte of it starts an escape, a query or a fragment, or
-- is a blank or a control byte. It is one of the listed prefixes, or goes on below one at a slash.
pub path_allowed-normal :
    (set : ℕ → Bool) (path : Bytes) (prefixes : List Bytes)
    → set b'/' ≡ false
    → path_allowed path prefixes ≡ true
    → (normal set path ≡ escaped set path)
      × (any_ forbidden_byte path ≡ false)
      × SomeBelow prefixes path
unfolding path_allowed
path_allowed-normal set [] prefixes no_slash h = absurd (ground (arith, h))
path_allowed-normal set (first ∷ rest) prefixes no_slash h =
    let clean : any_ rewritten (first ∷ rest) ≡ false = ground (arith, h) in
    let dots : any_ bad_segment (split_at b'/' rest) ≡ false = ground (arith, h) in
    let slash : first ≡ b'/' = ground (arith, h) in
    let listed : any_ (prefix_matches (first ∷ rest)) prefixes ≡ true = ground (arith, h) in
    (
      rw (cleaned-same rest (any-tail first rest clean)) (
          rw (resolved-append [] (split_at b'/' rest) dots) (
            joined-escaped set (split_at b'/' rest) no_slash
            ∙ ap (escaped set) (joined-split_at rest ∙ ap (λ (b : ℕ). b ∷ rest) (sym slash)))),
      forbidden-rewritten (first ∷ rest) clean,
      SomeBelow-any (first ∷ rest) prefixes listed,
    )
