-- ===== src/Relay/Rate.antt =====
-- crates/lluma-relay/src/lib.rs: that forgetting full buckets is invisible, and what a call does to the
-- balances.
use lluma.Common.{
  ℕ, ◌-◌, ◌≡◌, refl, sym, subst, ◌∙◌, ap, false, Option, none, some, [], ◌∷◌, length, ltb, ◌==◌,
  if◌then◌else◌, lookup, assign, lookup-assign, arith, Bool-cases, inl, inr,
}
use lluma.Relay.{
  F64, RateLimitConfig, Bucket, Buckets, full, refilled, retain_idle, evict, or_full, take_token,
  allow,
}

module _ ⦃D : F64⦄ where
  -- What a record of an address is worth at a time: its balance with what is refilled since, up to the
  -- capacity, or all of the capacity where there is none.
  abbrev pub worth : RateLimitConfig → ℕ → Option Bucket → D.Num
  worth cfg now none = D.of_u32 cfg.capacity
  worth cfg now (some b) =
      D.min (D.add b.tokens (D.mul (D.as_secs (now - b.last)) (D.of_u32 cfg.refill_per_sec)))
        (D.of_u32 cfg.capacity)

  abbrev pub level : RateLimitConfig → ℕ → Buckets → ℕ → D.Num
  level cfg now g ip = worth cfg now (lookup g ip)

  full_again :
      (cfg : RateLimitConfig) (now : ℕ) (b : Bucket)
      → D.lt (refilled cfg now b) (full cfg) ≡ false
      → refilled cfg now b ≡ full cfg
  unfolding refilled
  full_again cfg now b h =
      D.not_lt-min (D.add b.tokens (D.mul (D.as_secs (now - b.last)) (D.of_u32 cfg.refill_per_sec)))
        cfg.capacity h

  -- No two entries have one key: as for a `HashMap`.
  abbrev pub IsFresh : ℕ → Buckets → Type 0
  IsFresh ip [] = Unit
  IsFresh ip ((j, b) ∷ g) = ((j == ip) ≡ false) × IsFresh ip g

  abbrev pub IsMap : Buckets → Type 0
  IsMap [] = Unit
  IsMap ((j, b) ∷ g) = IsFresh j g × IsMap g

  IsFresh-lookup : (ip : ℕ) (g : Buckets) → IsFresh ip g → lookup g ip ≡ none
  unfolding lookup
  IsFresh-lookup ip [] h = refl
  IsFresh-lookup ip ((j, b) ∷ g) h = ground (arith, h.0, IsFresh-lookup ip g h.1)

  IsFresh-assign :
      (ip j : ℕ) (v : Bucket) (g : Buckets)
      → (ip == j) ≡ false
      → IsFresh j g
      → IsFresh j (assign g ip v)
  unfolding assign
  IsFresh-assign ip j v [] ne h = (ne, tt)
  IsFresh-assign ip j v ((k, b) ∷ g) ne h = elim (Bool-cases (k == ip)) [
    | inl e ↦ rw e (h.0, h.1)
    | inr e ↦ rw e (h.0, IsFresh-assign ip j v g ne h.1)
  ]

  ==-sym-false : (a b : ℕ) → (a == b) ≡ false → (b == a) ≡ false
  ==-sym-false a b h = ground (arith, h)

  IsMap-assign : (ip : ℕ) (v : Bucket) (g : Buckets) → IsMap g → IsMap (assign g ip v)
  unfolding assign
  IsMap-assign ip v [] h = (tt, tt)
  IsMap-assign ip v ((k, b) ∷ g) h = elim (Bool-cases (k == ip)) [
    | inl e ↦ rw e (h.0, h.1)
    | inr e ↦ rw e (IsFresh-assign ip k v g (==-sym-false k ip e) h.0, IsMap-assign ip v g h.1)
  ]

  IsFresh-retain_idle :
      (cfg : RateLimitConfig) (now ip : ℕ) (g : Buckets)
      → IsFresh ip g
      → IsFresh ip (retain_idle cfg now g)
  unfolding retain_idle
  IsFresh-retain_idle cfg now ip [] h = tt
  IsFresh-retain_idle cfg now ip ((j, b) ∷ g) h =
      elim (Bool-cases (D.lt (refilled cfg now b) (full cfg))) [
        | inl e ↦ rw e (h.0, IsFresh-retain_idle cfg now ip g h.1)
        | inr e ↦ rw e (IsFresh-retain_idle cfg now ip g h.1)
      ]

  IsMap-retain_idle :
      (cfg : RateLimitConfig) (now : ℕ) (g : Buckets) → IsMap g → IsMap (retain_idle cfg now g)
  unfolding retain_idle
  IsMap-retain_idle cfg now [] h = tt
  IsMap-retain_idle cfg now ((j, b) ∷ g) h =
      elim (Bool-cases (D.lt (refilled cfg now b) (full cfg))) [
        | inl e ↦ rw e (IsFresh-retain_idle cfg now j g h.0, IsMap-retain_idle cfg now g h.1)
        | inr e ↦ rw e (IsMap-retain_idle cfg now g h.1)
      ]

  level-retain_idle :
      (cfg : RateLimitConfig) (now : ℕ) (g : Buckets) (ip : ℕ)
      → IsMap g
      → worth cfg now (lookup (retain_idle cfg now g) ip) ≡ worth cfg now (lookup g ip)
  unfolding retain_idle lookup
  level-retain_idle cfg now [] ip h = refl
  level-retain_idle cfg now ((j, b) ∷ g) ip h =
      let ih = level-retain_idle cfg now g ip h.1 in
      elim (Bool-cases (D.lt (refilled cfg now b) (full cfg))) [
        | inl e ↦ elim (Bool-cases (j == ip)) [
          | inl at ↦ rw e (rw at refl)
          | inr other ↦ rw e (rw other ih)
        ]
        | inr e ↦ elim (Bool-cases (j == ip)) [
          | inl at ↦
              let is : j ≡ ip = ground (arith, at) in
              let gone = IsFresh-lookup ip (retain_idle cfg now g) (
                subst (λ k. IsFresh k (retain_idle cfg now g)) is
                  (IsFresh-retain_idle cfg now j g h.0)) in
              let whole : full cfg ≡ refilled cfg now b = sym (full_again cfg now b e) in
              rw e (rw at (rw gone (whole ∙ unfold refilled in refl)))
          | inr other ↦ rw e (rw other ih)
        ]
      ]

  -- Forgetting full buckets is invisible: at the time of the eviction every address has what it had.
  pub evict-level :
      (cfg : RateLimitConfig) (now : ℕ) (g : Buckets) (ip : ℕ)
      → IsMap g
      → (level cfg now (evict cfg now g) ip ≡ level cfg now g ip) × IsMap (evict cfg now g)
  unfolding evict
  evict-level cfg now g ip h = elim (Bool-cases (ltb 100000 (length g))) [
    | inl e ↦ rw e (level-retain_idle cfg now g ip h, IsMap-retain_idle cfg now g h)
    | inr e ↦ rw e (refl, h)
  ]

  zero-sub : (n : ℕ) → n - n ≡ 0
  zero-sub n = omega arith

  -- A bucket of this very time has its balance, up to the capacity.
  refilled-now :
      (cfg : RateLimitConfig) (now : ℕ) (x : D.Num)
      → refilled cfg now (record { tokens = x; last = now }) ≡ D.min x (D.of_u32 cfg.capacity)
  unfolding refilled
  refilled-now cfg now x =
      ap
        (λ (d : ℕ).
          D.min (D.add x (D.mul (D.as_secs d) (D.of_u32 cfg.refill_per_sec)))
            (D.of_u32 cfg.capacity))
        (zero-sub now)
      ∙ ap (λ (n : D.Num). D.min n (D.of_u32 cfg.capacity)) (D.add-mul_no_time x cfg.refill_per_sec)

  -- The balance that a call works with is the worth of the record.
  refilled-or_full :
      (cfg : RateLimitConfig) (now : ℕ) (o : Option Bucket)
      → refilled cfg now (or_full cfg now o) ≡ worth cfg now o
  refilled-or_full cfg now none = refilled-now cfg now (full cfg) ∙ D.min_self cfg.capacity
  refilled-or_full cfg now (some b) = unfold refilled in refl

  -- A worth is under the capacity, before and after one is subtracted.
  worth-min :
      (cfg : RateLimitConfig) (now : ℕ) (o : Option Bucket)
      → (D.min (worth cfg now o) (D.of_u32 cfg.capacity) ≡ worth cfg now o)
        × (D.min (D.sub (worth cfg now o) (D.of_u32 1)) (D.of_u32 cfg.capacity)
            ≡ D.sub (worth cfg now o) (D.of_u32 1))
  worth-min cfg now none =
      let whole = D.min_self cfg.capacity in
      (
        whole,
        subst (λ y. D.min (D.sub y (D.of_u32 1)) (D.of_u32 cfg.capacity) ≡ D.sub y (D.of_u32 1))
            whole (D.min-sub (D.of_u32 cfg.capacity) cfg.capacity),
      )
  worth-min cfg now (some b) =
      let x = D.add b.tokens (D.mul (D.as_secs (now - b.last)) (D.of_u32 cfg.refill_per_sec)) in
      (D.min-min x cfg.capacity, D.min-sub x cfg.capacity)

  worth-now :
      (cfg : RateLimitConfig) (now : ℕ) (x : D.Num)
      → D.min x (D.of_u32 cfg.capacity) ≡ x
      → worth cfg now (some (record { tokens = x; last = now })) ≡ x
  worth-now cfg now x h = unfold refilled in (refilled-now cfg now x ∙ h)

  level-assign :
      (cfg : RateLimitConfig) (now ip j : ℕ) (x : D.Num) (g : Buckets)
      → D.min x (D.of_u32 cfg.capacity) ≡ x
      → worth cfg now (lookup (assign g ip (record { tokens = x; last = now })) j)
        ≡ (if ip == j then x else worth cfg now (lookup g j))
  level-assign cfg now ip j x g h =
      rw (lookup-assign g ip (record { tokens = x; last = now }) j)
        (elim (Bool-cases (ip == j)) [ inl e ↦ rw e (worth-now cfg now x h) | inr e ↦ rw e refl ])

  -- What a call does to the buckets that are kept.
  take_token-worth :
      (cfg : RateLimitConfig) (now ip j : ℕ) (g : Buckets) (x : D.Num)
      → worth cfg now (lookup g ip) ≡ x
      → IsMap g
      → ((take_token g ip now x).0 ≡ D.le (D.of_u32 1) x)
        × (worth cfg now (lookup (take_token g ip now x).1 j) ≡ (
            if ip == j
            then (if D.le (D.of_u32 1) x then D.sub x (D.of_u32 1) else x)
            else worth cfg now (lookup g j)))
        × IsMap (take_token g ip now x).1
  take_token-worth cfg now ip j g x h is_map =
      let (low, lower) =
        subst
          (λ y.
            (D.min y (D.of_u32 cfg.capacity) ≡ y)
            × (D.min (D.sub y (D.of_u32 1)) (D.of_u32 cfg.capacity) ≡ D.sub y (D.of_u32 1)))
          h (worth-min cfg now (lookup g ip)) in
      elim (Bool-cases (D.le (D.of_u32 1) x)) [
        | inl e ↦ rw e (
          refl,
          level-assign cfg now ip j (D.sub x (D.of_u32 1)) g lower,
          IsMap-assign ip _ g is_map,
        )
        | inr e ↦ rw e (refl, level-assign cfg now ip j x g low, IsMap-assign ip _ g is_map)
      ]

  -- Where no two records are of one address, the answer of the relay to a call is that of a relay which
  -- never forgets a bucket: the call goes through exactly if what its address has at that time, a full
  -- bucket where it has no record, is a whole token or more, and one is then taken from it. At that
  -- time every other address has what it had before, whichever full buckets were forgotten, and the
  -- addresses stay distinct. This rests on the laws of the arithmetic that `F64` names.
  pub allow-level :
      (cfg : RateLimitConfig) (now ip j : ℕ) (g : Buckets)
      → IsMap g
      → ((allow cfg now g ip).0 ≡ D.le (D.of_u32 1) (level cfg now g ip))
        × (level cfg now (allow cfg now g ip).1 j ≡ (
            if ip == j
            then (if D.le (D.of_u32 1) (level cfg now g ip)
                then D.sub (level cfg now g ip) (D.of_u32 1)
                else level cfg now g ip)
            else level cfg now g j))
        × IsMap (allow cfg now g ip).1
  unfolding allow
  allow-level cfg now ip j g h =
      let kept = evict cfg now g in
      let (here, is_map) = evict-level cfg now g ip h in
      let (there, _) = evict-level cfg now g j h in
      let start = refilled-or_full cfg now (lookup kept ip) in
      subst
        (λ v.
          ((allow cfg now g ip).0 ≡ D.le (D.of_u32 1) (level cfg now g ip))
          × (level cfg now (allow cfg now g ip).1 j ≡ (
              if ip == j
              then (if D.le (D.of_u32 1) (level cfg now g ip)
                  then D.sub (level cfg now g ip) (D.of_u32 1)
                  else level cfg now g ip)
              else v))
          × IsMap (allow cfg now g ip).1)
        there
        (rw (start ∙ here) (take_token-worth cfg now ip j kept (level cfg now g ip) here is_map))
