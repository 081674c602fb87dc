-- ===== src/RateLimit/Bursts.antt =====
-- src/ratelimit.rs: how many requests at one instant are let through.
use zed_api_server_rs.Prelude.{
  ℕ, zero, suc, ◌+◌, ◌-◌, ◌≤◌, ◌<◌, ◌^◌, min, Bool, true, false, none, ltb, ◌≡◌, refl, ap, sym,
  subst, ◌∙◌, if◌then◌else◌, arith, not, ◌&&◌, leb, length,
}
use zed_api_server_rs.Text.{Str}
use zed_api_server_rs.RateLimit.{
  Float, IsFloat, Bucket, Buckets, RateLimiter, Decision, allow, deny, find_bucket, contains_key,
  set_bucket, retain, safe_to_forget, or_insert, refilled, charge, fresh_bucket, charge_key,
  make_room, is_full, check_serialized,
}
use zed_api_server_rs.RateLimit.Keyed.{find-set_bucket}
use zed_api_server_rs.RateLimit.Bounds.{
  charged, charge_lem, checked, check_serialized_lem, make_room_lem, is_full_lem, make_room_known,
}

abbrev pub allowed_one : Decision → ℕ
allowed_one allow = 1
allowed_one (deny secs) = 0

module _ {F : Type 0} (f : Float F) (law : IsFloat f) where
  -- How many of `count` requests with one key, all at the same time, are let through.
  abbrev pub allowed : RateLimiter F → Str → ℕ → ℕ → ℕ
  allowed limiter key now zero = 0
  allowed limiter key now (suc count) =
      allowed_one (check_serialized f limiter key now).0
      + allowed (check_serialized f limiter key now).1 key now count

  -- The key has `m` tokens left at this time.
  record Holding (n m : ℕ) (limiter : RateLimiter F) (key : Str) (now : ℕ) : Type 0 where
    pub burst_is : limiter.burst ≡ f.from_u32 n
    pub small : n < 2 ^ 32
    pub finite : f.is_finite limiter.per_second ≡ true
    pub reached : limiter.clock ≤ now
    pub full : is_full f limiter key now ≡ false
    pub within : m ≤ n
    pub balance :
        refilled f limiter now
          (or_insert (find_bucket key (make_room f limiter key now)) (fresh_bucket f limiter now))
        ≡ f.from_u32 m

  refilled_now :
      (limiter : RateLimiter F) (n m now : ℕ)
      → limiter.burst ≡ f.from_u32 n
      → f.is_finite limiter.per_second ≡ true
      → m ≤ n
      → refilled f limiter now (record { tokens = f.from_u32 m; last_seen = now }) ≡ f.from_u32 m
  refilled_now limiter n m now burst_is finite within =
      ap
        (λ d.
          f.min (f.add (f.from_u32 m) (f.mul (f.as_secs_f64 d) limiter.per_second)) limiter.burst)
        (same now)
      ∙ ap (λ a. f.min a limiter.burst) (law.add_zero m limiter.per_second finite)
      ∙ ap (λ b. f.min (f.from_u32 m) b) burst_is
      ∙ law.min_small m n within
    where
      same : (n : ℕ) → n - n ≡ 0
      same n = omega arith

  charge_key_lem :
      (limiter : RateLimiter F) (key : Str) (now : ℕ) (buckets : Buckets F)
      → charge_key f limiter key now buckets ≡ (
        (charge f limiter (
            refilled f limiter now
              (or_insert (find_bucket key buckets) (fresh_bucket f limiter now)))).0,
        set_bucket key
            (record {
              tokens =
                  (charge f limiter (
                    refilled f limiter now
                      (or_insert (find_bucket key buckets) (fresh_bucket f limiter now)))).1;
              last_seen = now;
            })
            buckets,
      )
  unfolding charge_key
  charge_key_lem limiter key now buckets = refl

  -- The check of a key that holds `m` tokens.
  check-Holding :
      (n m : ℕ) (limiter : RateLimiter F) (key : Str) (now : ℕ)
      → Holding n m limiter key now
      → check_serialized f limiter key now ≡ (
        (charged f law limiter (f.from_u32 m) (f.le f.one (f.from_u32 m))).0,
        record limiter {
          clock = now;
          buckets =
              set_bucket key
                (record {
                  tokens = (charged f law limiter (f.from_u32 m) (f.le f.one (f.from_u32 m))).1;
                  last_seen = now;
                })
                (make_room f limiter key now);
        },
      )
  check-Holding n m limiter key now holding =
      check_serialized_lem f law limiter key now
      ∙ ap (λ b. checked f law limiter key now b (is_full f limiter key now))
          (passed limiter.clock now holding.reached)
      ∙ ap (checked f law limiter key now false) holding.full
      ∙ ap (λ (r : Decision × Buckets F). (r.0, record limiter { clock = now; buckets = r.1 }))
          (charge_key_lem limiter key now (make_room f limiter key now)
            ∙ ap
                (λ (r : Decision × F). (
                  r.0,
                  set_bucket key (record { tokens = r.1; last_seen = now })
                      (make_room f limiter key now),
                ))
                (ap (charge f limiter) holding.balance ∙ charge_lem f law limiter (f.from_u32 m)))
    where
      passed : (clock now : ℕ) → clock ≤ now → ltb now clock ≡ false
      passed clock now h = ground arith

  -- The state with a balance for the key, seen at this time.
  Holding-next :
      (n m k : ℕ) (limiter : RateLimiter F) (key : Str) (now : ℕ) (buckets : Buckets F)
      → Holding n m limiter key now
      → k ≤ n
      → Holding n k
          (record limiter {
            clock = now;
            buckets = set_bucket key (record { tokens = f.from_u32 k; last_seen = now }) buckets;
          })
          key
          now
  Holding-next n m k limiter key now buckets holding within =
      let bucket : Bucket F = record { tokens = f.from_u32 k; last_seen = now } in
      let after : RateLimiter F = record limiter {
        clock = now;
        buckets = set_bucket key bucket buckets;
      } in
      let known = ap contains_key (find-set_bucket key bucket buckets) in
      record {
        burst_is = holding.burst_is;
        small = holding.small;
        finite = holding.finite;
        reached = omega arith;
        full =
            is_full_lem f law after key now
            ∙ ap (λ b. not b && leb after.max_buckets (length (make_room f after key now))) known;
        within = within;
        balance =
            ap
              (λ b. refilled f after now (or_insert (find_bucket key b) (fresh_bucket f after now)))
              (make_room_known f law after key now known)
            ∙ ap (λ o. refilled f after now (or_insert o (fresh_bucket f after now)))
                (find-set_bucket key bucket buckets)
            ∙ refilled_now after n k now holding.burst_is holding.finite within;
      }

  -- One more request: `k` is what is left, and `d` whether it was let through.
  check_next :
      (n m k d : ℕ) (limiter : RateLimiter F) (key : Str) (now : ℕ)
      → Holding n m limiter key now
      → (charged f law limiter (f.from_u32 m) (f.le f.one (f.from_u32 m))).1 ≡ f.from_u32 k
      → allowed_one (charged f law limiter (f.from_u32 m) (f.le f.one (f.from_u32 m))).0 ≡ d
      → k ≤ n
      → (allowed_one (check_serialized f limiter key now).0 ≡ d)
        × Holding n k (check_serialized f limiter key now).1 key now
  check_next n m k d limiter key now holding left answer within =
      let step = check-Holding n m limiter key now holding in
      (
        ap (λ (r : Decision × RateLimiter F). allowed_one r.0) step ∙ answer,
        subst (λ (r : Decision × RateLimiter F). Holding n k r.1 key now)
            (sym (
              step
              ∙ ap
                  (λ t. (
                    (charged f law limiter (f.from_u32 m) (f.le f.one (f.from_u32 m))).0,
                    record limiter {
                      clock = now;
                      buckets =
                          set_bucket key (record { tokens = t; last_seen = now })
                            (make_room f limiter key now);
                    },
                  ))
                  left))
            (Holding-next n m k limiter key now (make_room f limiter key now) holding within),
      )

  allowed-Holding :
      (n m count : ℕ) (limiter : RateLimiter F) (key : Str) (now : ℕ)
      → Holding n m limiter key now
      → allowed limiter key now count ≡ min count m
  allowed-Holding n m zero limiter key now holding = omega arith
  allowed-Holding n zero (suc count) limiter key now holding =
      let (answer, next) =
        check_next n 0 0 0 limiter key now holding
          (ap (λ b. (charged f law limiter (f.from_u32 0) b).1) law.zero_lt)
          (ap (λ b. allowed_one (charged f law limiter (f.from_u32 0) b).0) law.zero_lt)
          (omega arith) in
      omega (
        arith,
        answer,
        allowed-Holding n 0 count (check_serialized f limiter key now).1 key now next,
      )
  allowed-Holding n (suc m) (suc count) limiter key now holding =
      let (answer, next) =
        check_next n (suc m) m 1 limiter key now holding
          (ap (λ b. (charged f law limiter (f.from_u32 (suc m)) b).1) (law.one_le m)
            ∙ law.sub_one m (omega (arith, holding.within, holding.small)))
          (ap (λ b. allowed_one (charged f law limiter (f.from_u32 (suc m)) b).0) (law.one_le m))
          (omega (arith, holding.within)) in
      omega (
        arith,
        answer,
        allowed-Holding n m count (check_serialized f limiter key now).1 key now next,
      )

  -- A key that the limiter does not know gets exactly its burst: of any number of requests at one
  -- instant, the first `n` are let through and the rest refused, where `n` is the burst, below 2^32,
  -- the rate is finite, the clock has not passed the instant, and there is room for the key.
  pub allowed-fresh :
      (n count : ℕ) (limiter : RateLimiter F) (key : Str) (now : ℕ)
      → limiter.burst ≡ f.from_u32 n
      → n < 2 ^ 32
      → f.is_finite limiter.per_second ≡ true
      → limiter.clock ≤ now
      → find_bucket key limiter.buckets ≡ none
      → length limiter.buckets < limiter.max_buckets
      → allowed limiter key now count ≡ min count n
  allowed-fresh n count limiter key now burst_is small finite reached unknown room =
      let roomy : leb limiter.max_buckets (length limiter.buckets) ≡ false = ground arith in
      let same : make_room f limiter key now ≡ limiter.buckets =
        make_room_lem f law limiter key now
        ∙ ap
            (λ b.
              if b
              then retain (λ bucket. not (safe_to_forget f limiter now bucket)) limiter.buckets
              else limiter.buckets)
            (ap (λ b. not (contains_key (find_bucket key limiter.buckets)) && b) roomy
              ∙ and_false (not (contains_key (find_bucket key limiter.buckets)))) in
      allowed-Holding n n count limiter key now (record {
        burst_is = burst_is;
        small = small;
        finite = finite;
        reached = reached;
        full =
            is_full_lem f law limiter key now
            ∙ ap
                (λ b.
                  not (contains_key (find_bucket key limiter.buckets))
                  && leb limiter.max_buckets (length b))
                same
            ∙ ap (λ b. not (contains_key (find_bucket key limiter.buckets)) && b) roomy
            ∙ and_false (not (contains_key (find_bucket key limiter.buckets)));
        within = omega arith;
        balance =
            ap
              (λ b.
                refilled f limiter now (or_insert (find_bucket key b) (fresh_bucket f limiter now)))
              same
            ∙ ap (λ o. refilled f limiter now (or_insert o (fresh_bucket f limiter now))) unknown
            ∙ ap (λ b. refilled f limiter now (record { tokens = b; last_seen = now })) burst_is
            ∙ refilled_now limiter n n now burst_is finite (omega arith);
      })
    where
      and_false : (b : Bool) → (b && false) ≡ false
      and_false true = refl
      and_false false = refl
