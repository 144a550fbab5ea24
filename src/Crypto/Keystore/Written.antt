-- ===== src/Crypto/Keystore/Written.antt =====
-- crates/lluma-crypto/src/account.rs: the header of a blob, put together from its slices.
use lluma.Common.{
  ℕ, zero, suc, ◌+◌, ◌*◌, ◌/◌, ◌%◌, ◌≤◌, ◌≡◌, refl, sym, ap, ◌∙◌, true, [], ◌∷◌, ◌++◌, Bytes,
  length, take, drop, take-nil, All, IsByte, arith,
}
use lluma.Crypto.Pow.{le_bytes}
use lluma.Crypto.Keystore.{ks_magic, slice, le_value, header_of, params_supported}

-- A slice is cut in two.
take-take : (n k l : ℕ) (b : Bytes) → l ≡ n + k → take l b ≡ take n b ++ take k (drop n b)
take-take zero k l b h = let e : l ≡ k = omega (arith, h) in ap (λ (m : ℕ). take m b) e
take-take (suc n) k l [] h = take-nil l ∙ sym (take-nil k)
take-take (suc n) k zero (x ∷ b) h = absurd (omega (arith, h))
take-take (suc n) k (suc l) (x ∷ b) h = ap (◌∷◌ x) (take-take n k l b (omega (arith, h)))

pub take-drop : (n : ℕ) (b : Bytes) → take n b ++ drop n b ≡ b
take-drop zero b = refl
take-drop (suc n) [] = refl
take-drop (suc n) (x ∷ b) = ap (◌∷◌ x) (take-drop n b)

drop-drop : (m n p : ℕ) (b : Bytes) → p ≡ m + n → drop n (drop m b) ≡ drop p b
drop-drop zero n p b h = let e : n ≡ p = omega (arith, h) in ap (λ (k : ℕ). drop k b) e
drop-drop (suc m) n zero b h = absurd (omega (arith, h))
drop-drop (suc m) zero (suc p) [] h = refl
drop-drop (suc m) (suc n) (suc p) [] h = refl
drop-drop (suc m) n (suc p) (x ∷ b) h = drop-drop m n p b (omega (arith, h))

cut : (m n k l p : ℕ) (b : Bytes) → l ≡ n + k → p ≡ m + n → slice m l b ≡ slice m n b ++ slice p k b
cut m n k l p b hl hp =
    take-take n k l (drop m b) hl
    ∙ ap (λ (xs : Bytes). slice m n b ++ take k xs) (drop-drop m n p b hp)

pub length-slice : (m n : ℕ) (b : Bytes) → m + n ≤ length b → length (slice m n b) ≡ n
length-slice zero zero b h = refl
length-slice zero (suc n) [] h = absurd (omega (arith, h))
length-slice zero (suc n) (x ∷ b) h = ap suc (length-slice zero n b (omega (arith, h)))
length-slice (suc m) n [] h = absurd (omega (arith, h))
length-slice (suc m) n (x ∷ b) h = length-slice m n b (omega (arith, h))

slice-All : (m n : ℕ) (b : Bytes) → All IsByte b → All IsByte (slice m n b)
slice-All zero zero b h = tt
slice-All zero (suc n) [] h = tt
slice-All zero (suc n) (x ∷ b) h = (h.0, slice-All zero n b h.1)
slice-All (suc m) zero b h = tt
slice-All (suc m) (suc n) [] h = tt
slice-All (suc m) (suc n) (x ∷ b) h = slice-All m (suc n) b h.1

le_bytes-le_value :
    (k : ℕ) (xs : Bytes) → length xs ≡ k → All IsByte xs → le_bytes k (le_value xs) ≡ xs
unfolding le_bytes le_value
le_bytes-le_value zero [] h bytes = refl
le_bytes-le_value zero (x ∷ xs) h bytes = absurd (omega (arith, h))
le_bytes-le_value (suc k) [] h bytes = absurd (omega (arith, h))
le_bytes-le_value (suc k) (x ∷ xs) h bytes =
    let low : (x + 256 * le_value xs) % 256 ≡ x = omega (arith, bytes.0) in
    let high : (x + 256 * le_value xs) / 256 ≡ le_value xs = omega (arith, bytes.0) in
    rw low (rw high (ap (◌∷◌ x) (le_bytes-le_value k xs (omega (arith, h)) bytes.1)))

-- The field of a header, from its value.
field_is :
    (m k v : ℕ) (b : Bytes)
    → All IsByte b
    → m + k ≤ length b
    → le_value (slice m k b) ≡ v
    → slice m k b ≡ le_bytes k v
field_is m k v b bytes long h =
    sym (le_bytes-le_value k (slice m k b) (length-slice m k b long) (slice-All m k b bytes))
    ∙ ap (le_bytes k) h

fields_are :
    (b : Bytes)
    → params_supported b ≡ true
    → (le_value (slice 4 1 b) ≡ 1)
      × (le_value (slice 5 4 b) ≡ 65536)
      × (le_value (slice 9 4 b) ≡ 3)
      × (le_value (slice 13 4 b) ≡ 1)
fields_are b h = ground (arith, h)

-- The header of a blob that is accepted is the one that is written.
pub written_header :
    (b : Bytes)
    → All IsByte b
    → 73 ≤ length b
    → take 4 b ≡ ks_magic
    → params_supported b ≡ true
    → take 57 b ≡ header_of (slice 17 16 b) (slice 33 24 b)
unfolding header_of le_bytes
written_header b bytes long magic known =
    let (is_version, is_m, is_t, is_p) = fields_are b known in
    let version = field_is 4 1 1 b bytes (omega (arith, long)) is_version in
    let m_cost = field_is 5 4 65536 b bytes (omega (arith, long)) is_m in
    let t_cost = field_is 9 4 3 b bytes (omega (arith, long)) is_t in
    let p = field_is 13 4 1 b bytes (omega (arith, long)) is_p in
    cut 0 4 53 57 4 b refl refl
    ∙ ap (λ (xs : Bytes). xs ++ slice 4 53 b) magic
    ∙ ap (λ (xs : Bytes). ks_magic ++ xs)
        (cut 4 1 52 53 5 b refl refl
          ∙ ap (λ (xs : Bytes). xs ++ slice 5 52 b) version
          ∙ ap (λ (xs : Bytes). 1 ∷ xs)
              (cut 5 4 48 52 9 b refl refl
                ∙ ap (λ (xs : Bytes). xs ++ slice 9 48 b) m_cost
                ∙ ap (λ (xs : Bytes). le_bytes 4 65536 ++ xs)
                    (cut 9 4 44 48 13 b refl refl
                      ∙ ap (λ (xs : Bytes). xs ++ slice 13 44 b) t_cost
                      ∙ ap (λ (xs : Bytes). le_bytes 4 3 ++ xs)
                          (cut 13 4 40 44 17 b refl refl
                            ∙ ap (λ (xs : Bytes). xs ++ slice 17 40 b) p
                            ∙ ap (λ (xs : Bytes). le_bytes 4 1 ++ xs)
                                (cut 17 16 24 40 33 b refl refl)))))
