-- ===== src/RateLimit/Reach.antt =====
-- src/ratelimit.rs: the states that the limiter reaches from its construction.
use zed_api_server_rs.Prelude.{
  ℕ, ◌≤◌, Bool, true, false, if◌then◌else◌, ltb, not, ◌≡◌, refl, sym, subst, ◌⊎◌, inl, inr,
  Bool-cases, arith,
}
use zed_api_server_rs.Text.{Str}
use zed_api_server_rs.RateLimit.{
  Float, IsFloat, RateLimiter, Decision, allow, deny, retain, safe_to_forget, new_with_limit,
  forget, check_serialized, sweep_serialized,
}
use zed_api_server_rs.RateLimit.Keyed.{Each-retain, length-retain}
use zed_api_server_rs.RateLimit.Bounds.{IsLimited, InBounds, later, check_serialized-IsLimited}

module _ {F : Type 0} (f : Float F) where
  -- What the process does with its limiter, in any order.
  pub data Reached : RateLimiter F → Type 0 where
    started :
        (now burst : ℕ) (per_second : F) (max_buckets : ℕ)
        → Reached (new_with_limit f now burst per_second max_buckets)
    checks :
        (limiter : RateLimiter F) (key : Str) (now : ℕ)
        → Reached limiter
        → Reached (check_serialized f limiter key now).1
    sweeps :
        (limiter : RateLimiter F) (now : ℕ)
        → Reached limiter
        → Reached (sweep_serialized f limiter now)

module _ {F : Type 0} (f : Float F) (law : IsFloat f) where
  at_least_one : (n : ℕ) → 1 ≤ (if ltb n 1 then 1 else n)
  at_least_one n = elim (Bool-cases (ltb n 1)) [
    | inl e ↦ rw e (omega arith)
    | inr e ↦ rw e (ground arith)
  ]

  start-IsLimited :
      (now burst : ℕ) (per_second : F) (max_buckets : ℕ)
      → IsLimited f law
          (if ltb burst 1 then 1 else burst)
          (new_with_limit f now burst per_second max_buckets)
  unfolding new_with_limit
  start-IsLimited now burst per_second max_buckets = record {
    burst_is = refl;
    some_room = at_least_one max_buckets;
    few = omega arith;
    each = tt;
  }

  sweep_lem :
      (limiter : RateLimiter F) (now : ℕ)
      → sweep_serialized f limiter now ≡ (
          if ltb now limiter.clock then limiter else record limiter {
            clock = now;
            buckets = retain (λ bucket. not (safe_to_forget f limiter now bucket)) limiter.buckets;
          })
  unfolding sweep_serialized forget
  sweep_lem limiter now = refl

  sweep-IsLimited :
      (n : ℕ) (limiter : RateLimiter F) (now : ℕ)
      → IsLimited f law n limiter
      → IsLimited f law n (sweep_serialized f limiter now)
  sweep-IsLimited n limiter now limited =
      subst (IsLimited f law n) (sym (sweep_lem limiter now)) (chosen (ltb now limiter.clock) refl)
    where
      passed : ltb now limiter.clock ≡ false → limiter.clock ≤ now
      passed e = ground arith

      chosen :
          (b : Bool)
          → ltb now limiter.clock ≡ b
          → IsLimited f law n (
              if b then limiter else record limiter {
                clock = now;
                buckets =
                    retain (λ bucket. not (safe_to_forget f limiter now bucket)) limiter.buckets;
              })
      chosen true e = limited
      chosen false e = record {
        burst_is = limited.burst_is;
        some_room = limited.some_room;
        few = omega (
          arith,
          limited.few,
          length-retain (λ bucket. not (safe_to_forget f limiter now bucket)) limiter.buckets,
        );
        each =
            Each-retain (InBounds f law limiter.burst now) _ limiter.buckets
              (later f law limiter.burst limiter.clock now limiter.buckets (passed e) limited.each);
      }

  -- In every state that is reached by checks and sweeps at any times, in any order, no balance is above
  -- the burst, no bucket was seen in the future, and the buckets are at most the maximum; and a
  -- check allows its request or asks it to wait a second at least.
  pub Reached-IsLimited :
      (limiter : RateLimiter F) (key : Str) (now : ℕ)
      → Reached f limiter
      → ((n : ℕ) × IsLimited f law n limiter)
        × (((check_serialized f limiter key now).0 ≡ allow)
            ⊎ ((secs : ℕ) × ((check_serialized f limiter key now).0 ≡ deny secs) × (1 ≤ secs)))
  Reached-IsLimited limiter key now reached =
      let (n, limited) = states limiter reached in
      (
        (n, limited),
        decided (check_serialized f limiter key now).0
            (check_serialized-IsLimited f law n limiter key now limited).1,
      )
    where
      states : (limiter : RateLimiter F) → Reached f limiter → (n : ℕ) × IsLimited f law n limiter
      states _ (started now burst per_second max_buckets) =
          (_, start-IsLimited now burst per_second max_buckets)
      states _ (checks limiter key now reached) =
          let (n, limited) = states limiter reached in
          (n, (check_serialized-IsLimited f law n limiter key now limited).0)
      states _ (sweeps limiter now reached) =
          let (n, limited) = states limiter reached in (n, sweep-IsLimited n limiter now limited)

      decided :
          (d : Decision)
          → ((secs : ℕ) → d ≡ deny secs → 1 ≤ secs)
          → (d ≡ allow) ⊎ ((secs : ℕ) × (d ≡ deny secs) × (1 ≤ secs))
      decided allow h = inl refl
      decided (deny secs) h = inr (secs, refl, h secs refl)
