-- ===== src/Crypto/E2e/Streams.antt =====
-- crates/lluma-crypto/src/e2e.rs: the chunks of an answer in their order, what an opened stream must
-- have been, and what a refused chunk leaves.
use lluma.Common.{
  ℕ, suc, ◌≡◌, refl, ap, sym, subst, ◌∙◌, Bool, true, false, none, some, List, [], ◌∷◌, Bytes, ◌==◌,
  ok-injective, is_empty, if◌then◌else◌, err, ok, ◌>>=◌, >>=-eq-ok, arith, Option-cases, inl, inr,
}
use lluma.Crypto.Hpke.{Hpke}
use lluma.Crypto.Account.{CryptoError, Fallible, truncated, chunk_order}
use lluma.Crypto.E2e.{flag, response_seal_chunk, response_open_chunk}
use lluma.Crypto.E2e.Requests.{Agree}

module _ ⦃H : Hpke⦄ where
  -- `response_seal_chunk` on each chunk in turn, and `response_open_chunk`, up to the first failure.
  unfoldable pub seal_all : H.Sender → List (Bytes × Bool) → Fallible (List Bytes)
  seal_all s [] = ok []
  seal_all s ((chunk, last) ∷ more) = do
    c ← (response_seal_chunk s chunk last).0
    cs ← seal_all (response_seal_chunk s chunk last).1 more
    ok (c ∷ cs)

  unfoldable pub open_all : H.Receiver → List Bytes → Fallible (List (Bytes × Bool))
  open_all r [] = ok []
  open_all r (c ∷ cs) = do
    x ← (response_open_chunk r c).0
    xs ← open_all (response_open_chunk r c).1 cs
    ok (x ∷ xs)

  seal_chunk-parts :
      (s : H.Sender) (chunk : Bytes) (last : Bool) (c : Bytes)
      → (response_seal_chunk s chunk last).0 ≡ ok c
      → (ct : Bytes) × (H.seal s chunk (flag last ∷ [])
          ≡ (some ct, (response_seal_chunk s chunk last).1))
        × (c ≡ flag last ∷ ct)
  unfolding response_seal_chunk
  seal_chunk-parts s chunk last c h = elim (Option-cases (H.seal s chunk (flag last ∷ [])).0) [
    | inl none_ ↦ absurd (ground (arith, h, none_))
    | inr (ct, put) ↦ (ct, ground (arith, put), ground (arith, h, put))
  ]

  open_chunk-parts :
      (r : H.Receiver) (first : ℕ) (rest pt : Bytes) (last : Bool)
      → (response_open_chunk r (first ∷ rest)).0 ≡ ok (pt, last)
      → (H.unseal r rest (first ∷ []) ≡ (some pt, (response_open_chunk r (first ∷ rest)).1))
        × (last ≡ (first == 1))
  unfolding response_open_chunk
  open_chunk-parts r first rest pt last h = elim (Option-cases (H.unseal r rest (first ∷ [])).0) [
    | inl none_ ↦ absurd (ground (arith, h, none_))
    | inr (p, got) ↦ ground (arith, h, got)
  ]

  flag-last : (last : Bool) → (flag last == 1) ≡ last
  flag-last true = refl
  flag-last false = refl

  opened :
      (r r' : H.Receiver) (ct pt : Bytes) (last : Bool)
      → H.unseal r ct (flag last ∷ []) ≡ (some pt, r')
      → response_open_chunk r (flag last ∷ ct) ≡ (ok (pt, last), r')
  unfolding response_open_chunk
  opened r r' ct pt last got = rw got (ap (λ (b : Bool). (ok (pt, b), r')) (flag-last last))

  -- One chunk, there and back.
  pub open_chunk-seal_chunk :
      (s : H.Sender) (r : H.Receiver) (chunk : Bytes) (last : Bool) (c : Bytes)
      → Agree s r
      → (response_seal_chunk s chunk last).0 ≡ ok c
      → (r' : H.Receiver) × (response_open_chunk r c ≡ (ok (chunk, last), r'))
        × Agree (response_seal_chunk s chunk last).1 r'
  open_chunk-seal_chunk s r chunk last c ends h =
      let (ct, put, is) = seal_chunk-parts s chunk last c h in
      let s' = (response_seal_chunk s chunk last).1 in
      let (r', got) = H.open-seal s s' r chunk (flag last ∷ []) ct ends.secret ends.place put in
      let (e, kept, at) = H.seal-aead s s' chunk (flag last ∷ []) ct put in
      let (e', kept', at') = H.open-aead r r' ct (flag last ∷ []) chunk got in
      (
        r',
        subst (λ m. response_open_chunk r m ≡ (ok (chunk, last), r')) (sym is)
            (opened r r' ct chunk last got),
        record {
          secret = kept ∙ ends.secret ∙ sym kept';
          place = at ∙ ap suc ends.place ∙ sym at';
        },
      )

  -- The chunks of an answer that are opened in the order in which they were sealed give the client
  -- the texts and the marks of finality that the host put in.
  pub open_all-seal_all :
      (s : H.Sender) (r : H.Receiver) (xs : List (Bytes × Bool)) (cs : List Bytes)
      → Agree s r
      → seal_all s xs ≡ ok cs
      → open_all r cs ≡ ok xs
  unfolding seal_all open_all
  open_all-seal_all s r [] cs ends h = subst (λ l. open_all r l ≡ ok []) (ok-injective h) refl
  open_all-seal_all s r ((chunk, last) ∷ more) cs ends h =
      let (c, put, h1) = >>=-eq-ok (response_seal_chunk s chunk last).0 _ h in
      let (cs', rest, h2) =
        >>=-eq-ok (seal_all (response_seal_chunk s chunk last).1 more) (λ l. ok (c ∷ l)) h1 in
      let (r', got, ends') = open_chunk-seal_chunk s r chunk last c ends put in
      let ih = open_all-seal_all (response_seal_chunk s chunk last).1 r' more cs' ends' rest in
      subst (λ l. open_all r l ≡ ok ((chunk, last) ∷ more)) (ok-injective h2) (rw got (rw ih refl))

  -- Each chunk is its first byte and the encryption of the text at the chunk's own place, with this
  -- byte as the associated data; it counts as the last one where the byte is 1.
  abbrev pub IsInOrder : H.Secret → ℕ → List Bytes → List (Bytes × Bool) → Type 0
  IsInOrder k n [] [] = Unit
  IsInOrder k n [] (x ∷ xs) = ⊥
  IsInOrder k n (c ∷ cs) [] = ⊥
  IsInOrder k n (c ∷ cs) ((pt, last) ∷ xs) =
      ((first : ℕ) × (c ≡ first ∷ H.aead k n (first ∷ []) pt) × (last ≡ (first == 1)))
      × IsInOrder k (suc n) cs xs

  open_chunk-in_order :
      (r : H.Receiver) (c pt : Bytes) (last : Bool)
      → (response_open_chunk r c).0 ≡ ok (pt, last)
      → ((first : ℕ) × (c ≡ first ∷ H.aead (H.receiver_secret r) (H.receiver_seq r) (first ∷ []) pt)
          × (last ≡ (first == 1)))
        × (H.receiver_secret (response_open_chunk r c).1 ≡ H.receiver_secret r)
        × (H.receiver_seq (response_open_chunk r c).1 ≡ suc (H.receiver_seq r))
  open_chunk-in_order r [] pt last h = absurd (unfold response_open_chunk in ground (arith, h))
  open_chunk-in_order r (first ∷ rest) pt last h =
      let (got, is) = open_chunk-parts r first rest pt last h in
      let (e, kept, at) =
        H.open-aead r (response_open_chunk r (first ∷ rest)).1 rest (first ∷ []) pt got in
      ((first, ap (λ (m : Bytes). first ∷ m) e, is), kept, at)

  -- Of a stream that opens, the chunks are encryptions of what they open to, under the secret of the
  -- client's context and for consecutive places, from the place at which the context stands, each with
  -- its first byte as the associated data; a chunk is marked as the last one exactly if this byte is
  -- 1. The stream may end before a chunk that is so marked.
  pub open_all-IsInOrder :
      (r : H.Receiver) (cs : List Bytes) (xs : List (Bytes × Bool))
      → open_all r cs ≡ ok xs
      → IsInOrder (H.receiver_secret r) (H.receiver_seq r) cs xs
  unfolding open_all
  open_all-IsInOrder r [] [] h = tt
  open_all-IsInOrder r [] (x ∷ xs) h = absurd (ground (arith, h))
  open_all-IsInOrder r (c ∷ cs) xs h =
      let ((pt, last), got, h1) = >>=-eq-ok (response_open_chunk r c).0 _ h in
      let (ys, rest, h2) =
        >>=-eq-ok (open_all (response_open_chunk r c).1 cs) (λ l. ok ((pt, last) ∷ l)) h1 in
      let (here, kept, at) = open_chunk-in_order r c pt last got in
      let ih = open_all-IsInOrder (response_open_chunk r c).1 cs ys rest in
      subst (IsInOrder (H.receiver_secret r) (H.receiver_seq r) (c ∷ cs)) (ok-injective h2) (
        here,
        subst (λ k. IsInOrder k (suc (H.receiver_seq r)) cs ys) kept
            (subst (λ n. IsInOrder (H.receiver_secret (response_open_chunk r c).1) n cs ys) at ih),
      )

  -- A chunk that is refused is empty, and reported as truncated, or reported as out of order; either
  -- way the client's context stays where it was, so that the right chunk still opens.
  pub open_chunk_refused :
      (r r' : H.Receiver) (c : Bytes) (e : CryptoError)
      → response_open_chunk r c ≡ (err e, r')
      → (e ≡ (if is_empty c then truncated else chunk_order)) × (r' ≡ r)
  unfolding response_open_chunk
  open_chunk_refused r r' [] e h = ground (arith, h)
  open_chunk_refused r r' (first ∷ rest) e h =
      elim (Option-cases (H.unseal r rest (first ∷ [])).0) [
        | inl none_ ↦
            let whole : H.unseal r rest (first ∷ []) ≡ (none, r') = ground (arith, h, none_) in
            (ground (arith, h, none_), H.open-none r r' rest (first ∷ []) whole)
        | inr (p, got) ↦ absurd (ground (arith, h, got))
      ]
