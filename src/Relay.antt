-- ===== src/Relay.antt =====
-- crates/lluma-relay/src/lib.rs: the relay counts the requests of each address against a token bucket
-- and passes capsules on. An address is the number of its bits, a time the nanoseconds of an
-- `Instant`. The arithmetic of `f64`, in which a balance is held, is a parameter.
use lluma.Common.{
  ◌≡◌, ℕ, ◌+◌, ◌*◌, ◌-◌, min, Bool, true, false, not, Option, none, some, String, List, [], ◌∷◌,
  Bytes, codes, length, ltb, leb, ◌==◌, if◌then◌else◌, lookup, assign,
}
use text.Mathlib.Text.{◌==◌ as str_eq}
pub mod Rate

pub record RateLimitConfig : Type 0 where
  pub capacity : ℕ
  pub refill_per_sec : ℕ

-- `RelayConfig`, less the proof of work that is reserved.
pub record RelayConfig : Type 0 where
  pub max_body_bytes : ℕ
  pub per_ip : RateLimitConfig
  pub bootstrap_blob : Option Bytes

pub data RelayError : Type 0 where
  payload_too_large rate_limited bad_content_type upstream_unavailable : RelayError

unfoldable pub status : RelayError → ℕ
status payload_too_large = 413
status rate_limited = 429
status bad_content_type = 415
status upstream_unavailable = 502

-- `f64`, with the numbers of `u32` and the seconds of a duration in nanoseconds (`as_secs_f64`). What
-- is equal under `==` is equal here, so that there is one zero.
pub record F64 : Type 1 where
  pub Num : Type 0
  pub of_u32 : ℕ → Num
  pub as_secs : ℕ → Num
  pub add : Num → Num → Num
  pub sub : Num → Num → Num
  pub mul : Num → Num → Num
  pub min : Num → Num → Num
  pub lt : Num → Num → Bool
  pub le : Num → Num → Bool
  -- IEEE 754: the smaller of a value and a number is the number unless it is less than it, also where
  -- the value is not a number; taking it again changes nothing, nor does it after one is subtracted.
  pub not_lt-min :
      (x : Num) (c : ℕ) → lt (min x (of_u32 c)) (of_u32 c) ≡ false → min x (of_u32 c) ≡ of_u32 c
  pub min_self : (c : ℕ) → min (of_u32 c) (of_u32 c) ≡ of_u32 c
  pub min-min : (x : Num) (c : ℕ) → min (min x (of_u32 c)) (of_u32 c) ≡ min x (of_u32 c)
  pub min-sub :
      (x : Num) (c : ℕ)
      → min (sub (min x (of_u32 c)) (of_u32 1)) (of_u32 c) ≡ sub (min x (of_u32 c)) (of_u32 1)
  -- No time brings nothing.
  pub add-mul_no_time : (x : Num) (r : ℕ) → add x (mul (as_secs 0) (of_u32 r)) ≡ x

module _ ⦃D : F64⦄ where
  pub record Bucket : Type 0 where
    pub tokens : D.Num
    pub last : ℕ

  abbrev pub Buckets : Type 0
  Buckets = List (ℕ × Bucket)

  -- `state.per_ip.capacity as f64`
  abbrev pub full : RateLimitConfig → D.Num
  full cfg = D.of_u32 cfg.capacity

  -- `(b.tokens + elapsed * refill).min(cap)`; `duration_since` is zero where the clock went back.
  unfoldable pub refilled : RateLimitConfig → ℕ → Bucket → D.Num
  refilled cfg now b =
      D.min (D.add b.tokens (D.mul (D.as_secs (now - b.last)) (D.of_u32 cfg.refill_per_sec)))
        (full cfg)

  -- `retain`: the buckets that are not full again.
  unfoldable pub retain_idle : RateLimitConfig → ℕ → Buckets → Buckets
  unfolding refilled
  retain_idle cfg now [] = []
  retain_idle cfg now ((ip, b) ∷ g) =
      let rest = retain_idle cfg now g in
      if D.lt (refilled cfg now b) (full cfg) then (ip, b) ∷ rest else rest

  unfoldable pub evict : RateLimitConfig → ℕ → Buckets → Buckets
  unfolding retain_idle
  evict cfg now g = if ltb 100000 (length g) then retain_idle cfg now g else g

  abbrev pub or_full : RateLimitConfig → ℕ → Option Bucket → Bucket
  or_full cfg now none = record { tokens = full cfg; last = now }
  or_full cfg now (some b) = b

  -- `allow` from the balance of the address on.
  abbrev pub take_token : Buckets → ℕ → ℕ → D.Num → Bool × Buckets
  take_token g ip now tokens =
      if D.le (D.of_u32 1) tokens
      then (true, assign g ip (record { tokens = D.sub tokens (D.of_u32 1); last = now }))
      else (false, assign g ip (record { tokens = tokens; last = now }))

  unfoldable pub allow : RateLimitConfig → ℕ → Buckets → ℕ → Bool × Buckets
  unfolding refilled evict
  allow cfg now g ip =
      let kept = evict cfg now g in
      take_token kept ip now (refilled cfg now (or_full cfg now (lookup kept ip)))

-- The response of the gateway: status, content type, and the body where it arrives.
pub record Upstream : Type 0 where
  pub status : ℕ
  pub content_type : Option String
  pub bytes : Option Bytes

-- A response: a status alone, that status with `retry-after`, or one that is passed on.
pub data Response : Type 0 where
  refused : ℕ → Response
  retry_after : ℕ → Response
  passed : ℕ → String → Bytes → Response
  blob : Bytes → Response

abbrev pub into_response : RelayError → Response
into_response rate_limited = retry_after (status rate_limited)
into_response payload_too_large = refused (status payload_too_large)
into_response bad_content_type = refused (status bad_content_type)
into_response upstream_unavailable = refused (status upstream_unavailable)

abbrev pub pass_on : Option Upstream → Response
pass_on none = into_response upstream_unavailable
pass_on (some r) = elim r.bytes [
  | none ↦ into_response upstream_unavailable
  | some bytes ↦ elim r.content_type [
    | some ct ↦ passed r.status ct bytes
    | none ↦ passed r.status "message/ohttp-res" bytes
  ]
]

abbrev pub is_ohttp_req : Option String → Bool
is_ohttp_req none = false
is_ohttp_req (some ct) = str_eq ct "message/ohttp-req"

module _ ⦃D : F64⦄ where
  -- The gateway is sent the body and nothing else of the request.
  unfoldable pub ohttp :
      RelayConfig
      → (Bytes → Option Upstream)
      → ℕ
      → Buckets
      → ℕ
      → Option String
      → Bytes
      → Response × Buckets
  unfolding allow
  ohttp cfg forward now g ip content_type body =
      if not (is_ohttp_req content_type)
      then (into_response bad_content_type, g)
      else if ltb cfg.max_body_bytes (length body)
      then (into_response payload_too_large, g)
      else (let (ok_, g') = allow cfg.per_ip now g ip in
          if not ok_ then (into_response rate_limited, g') else (pass_on (forward body), g'))

unfoldable pub bootstrap : RelayConfig → Response
bootstrap cfg = elim cfg.bootstrap_blob [ some bytes ↦ blob bytes | none ↦ refused 404 ]
