-- ===== src/RateLimit/Bounds.antt =====
-- src/ratelimit.rs: the limits that every reachable state of the limiter keeps.
use zed_api_server_rs.Prelude.{
  ℕ, ◌≤◌, ◌<◌, ◌-◌, suc, Bool, true, false, not, ◌&&◌, [], ◌∷◌, if◌then◌else◌, ltb, leb, length,
  ◌≡◌, refl, ap, sym, subst, ◌∙◌, inl, inr, Bool-cases, arith,
}
use zed_api_server_rs.Text.{Str}
use zed_api_server_rs.RateLimit.{
  Float, IsFloat, Bucket, Buckets, RateLimiter, Decision, allow, deny, find_bucket, contains_key,
  retain, or_insert, forget, make_room, is_full, refilled, retry_after_secs, charge, fresh_bucket,
  safe_to_forget, charge_key, check_serialized,
}
use zed_api_server_rs.RateLimit.Keyed.{
  Each, Each-retain, length-retain, Each-set_bucket, length-set_bucket,
}

module _ {F : Type 0} (f : Float F) (law : IsFloat f) where
  -- A balance within the burst, seen at a time that has passed.
  abbrev pub InBounds : F → ℕ → Bucket F → Type 0
  InBounds burst clock bucket = (f.le bucket.tokens burst ≡ true) × (bucket.last_seen ≤ clock)

  -- Every state that the limiter can be in: `n` is its burst.
  pub record IsLimited (n : ℕ) (limiter : RateLimiter F) : Type 0 where
    pub burst_is : limiter.burst ≡ f.from_u32 n
    pub some_room : 1 ≤ limiter.max_buckets
    pub few : length limiter.buckets ≤ limiter.max_buckets
    pub each : Each (InBounds limiter.burst limiter.clock) limiter.buckets

  pub later :
      (burst : F) (clock now : ℕ) (buckets : Buckets F)
      → clock ≤ now
      → Each (InBounds burst clock) buckets
      → Each (InBounds burst now) buckets
  later burst clock now [] h k = tt
  later burst clock now ((key, bucket) ∷ buckets) h ((p, q), k) =
      ((p, omega (arith, q)), later burst clock now buckets h k)

  pub make_room_lem :
      (limiter : RateLimiter F) (key : Str) (now : ℕ)
      → make_room f limiter key now ≡ (
          if not (contains_key (find_bucket key limiter.buckets))
            && leb limiter.max_buckets (length limiter.buckets)
          then retain (λ bucket. not (safe_to_forget f limiter now bucket)) limiter.buckets
          else limiter.buckets)
  unfolding make_room forget
  make_room_lem limiter key now = refl

  -- Making room adds nothing.
  make_room-smaller :
      (P : Bucket F → Type 0) (limiter : RateLimiter F) (key : Str) (now : ℕ)
      → Each P limiter.buckets
      → Each P (make_room f limiter key now)
        × (length (make_room f limiter key now) ≤ length limiter.buckets)
  make_room-smaller P limiter key now h = rw (make_room_lem limiter key now) (
      chosen (
        not (contains_key (find_bucket key limiter.buckets))
        && leb limiter.max_buckets (length limiter.buckets)))
    where
      chosen :
          (b : Bool)
          → let kept =
              if b
              then retain (λ bucket. not (safe_to_forget f limiter now bucket)) limiter.buckets
              else limiter.buckets in
            Each P kept × (length kept ≤ length limiter.buckets)
      chosen true = (Each-retain P _ limiter.buckets h, length-retain _ limiter.buckets)
      chosen false = (h, omega arith)

  -- The charge, by the answer of its test.
  abbrev pub charged : RateLimiter F → F → Bool → Decision × F
  charged limiter tokens true = (allow, f.sub tokens f.one)
  charged limiter tokens false = (deny (retry_after_secs f limiter tokens), tokens)

  pub charge_lem :
      (limiter : RateLimiter F) (tokens : F)
      → charge f limiter tokens ≡ charged limiter tokens (f.le f.one tokens)
  unfolding charge
  charge_lem limiter tokens = elim (Bool-cases (f.le f.one tokens)) [ inl e ↦ rw e | inr e ↦ rw e ]

  -- A charge never raises the balance, and a refusal asks for a second at least.
  charge-bounds :
      (limiter : RateLimiter F) (tokens burst : F)
      → f.le tokens burst ≡ true
      → (f.le (charge f limiter tokens).1 burst ≡ true)
        × ((secs : ℕ) → (charge f limiter tokens).0 ≡ deny secs → 1 ≤ secs)
  charge-bounds limiter tokens burst h = rw (charge_lem limiter tokens) (chosen (f.le f.one tokens))
    where
      deny_inj : {a b : ℕ} → deny a ≡ deny b → a ≡ b
      deny_inj e = cc

      chosen :
          (b : Bool)
          → (f.le (charged limiter tokens b).1 burst ≡ true)
            × ((secs : ℕ) → (charged limiter tokens b).0 ≡ deny secs → 1 ≤ secs)
      chosen true = (law.sub_le tokens burst h, (λ secs e. elim (no_secs secs e) [ ]))
        where
          no_secs : (secs : ℕ) → allow ≡ deny secs → ⊥
          no_secs secs e = cc
      chosen false = (
        h,
        (λ secs e.
            subst (λ n. 1 ≤ n) (deny_inj e)
              (law.max_one (f.ceil (f.div (f.sub f.one tokens) limiter.per_second)))),
      )

  -- The check, by the answers of its two tests.
  abbrev pub checked : RateLimiter F → Str → ℕ → Bool → Bool → Decision × RateLimiter F
  checked limiter key now true full = (deny 1, limiter)
  checked limiter key now false true =
      (deny 1, record limiter { clock = now; buckets = make_room f limiter key now })
  checked limiter key now false false = (
    (charge_key f limiter key now (make_room f limiter key now)).0,
    record limiter {
      clock = now;
      buckets = (charge_key f limiter key now (make_room f limiter key now)).1;
    },
  )

  if_elim : {A : Type 0} (g : Bool → A) (b : Bool) → (if b then g true else g false) ≡ g b
  if_elim g true = refl
  if_elim g false = refl

  pub check_serialized_lem :
      (limiter : RateLimiter F) (key : Str) (now : ℕ)
      → check_serialized f limiter key now
        ≡ checked limiter key now (ltb now limiter.clock) (is_full f limiter key now)
  unfolding check_serialized
  check_serialized_lem limiter key now =
      ap (λ r. if ltb now limiter.clock then (deny 1, limiter) else r)
        (if_elim (checked limiter key now false) (is_full f limiter key now))
      ∙ if_elim (λ b. checked limiter key now b (is_full f limiter key now)) (ltb now limiter.clock)

  -- What a charge of a key leaves, when the buckets are within the bounds.
  charge_key-bounds :
      (limiter : RateLimiter F) (n : ℕ) (key : Str) (now : ℕ) (buckets : Buckets F)
      → limiter.burst ≡ f.from_u32 n
      → Each (InBounds limiter.burst now) buckets
      → Each (InBounds limiter.burst now) (charge_key f limiter key now buckets).1
        × (length (charge_key f limiter key now buckets).1 ≤ suc (length buckets))
        × (contains_key (find_bucket key buckets) ≡ true
            → length (charge_key f limiter key now buckets).1 ≡ length buckets)
        × ((secs : ℕ) → (charge_key f limiter key now buckets).0 ≡ deny secs → 1 ≤ secs)
  unfolding charge_key
  charge_key-bounds limiter n key now buckets burst_is each =
      let bucket = or_insert (find_bucket key buckets) (fresh_bucket f limiter now) in
      let balance = refilled f limiter now bucket in
      let within =
        subst
          (λ b.
            f.le
              (f.min
                (f.add bucket.tokens
                  (f.mul (f.as_secs_f64 (now - bucket.last_seen)) limiter.per_second))
                b)
              b
            ≡ true)
          (sym burst_is) (law.min_le _ n) in
      let (low, secs) = charge-bounds limiter balance limiter.burst within in
      let new : Bucket F = record { tokens = (charge f limiter balance).1; last_seen = now } in
      let (same, most) = length-set_bucket key new buckets in
      (
        Each-set_bucket (InBounds limiter.burst now) key new buckets (low, omega arith) each,
        most,
        same,
        secs,
      )

  pub is_full_lem :
      (limiter : RateLimiter F) (key : Str) (now : ℕ)
      → is_full f limiter key now ≡ (
          not (contains_key (find_bucket key limiter.buckets))
          && leb limiter.max_buckets (length (make_room f limiter key now)))
  unfolding is_full
  is_full_lem limiter key now = refl

  pub make_room_known :
      (limiter : RateLimiter F) (key : Str) (now : ℕ)
      → contains_key (find_bucket key limiter.buckets) ≡ true
      → make_room f limiter key now ≡ limiter.buckets
  make_room_known limiter key now h =
      make_room_lem limiter key now
      ∙ ap
          (λ b.
            if not b && leb limiter.max_buckets (length limiter.buckets)
            then retain (λ bucket. not (safe_to_forget f limiter now bucket)) limiter.buckets
            else limiter.buckets)
          h

  -- A charge that is not refused for want of room stays within the maximum.
  fits :
      (n : ℕ) (limiter : RateLimiter F) (key : Str) (now : ℕ)
      → IsLimited n limiter
      → is_full f limiter key now ≡ false
      → length (make_room f limiter key now) ≤ limiter.max_buckets
      → (contains_key (find_bucket key (make_room f limiter key now)) ≡ true
          → length (charge_key f limiter key now (make_room f limiter key now)).1
            ≡ length (make_room f limiter key now))
      → length (charge_key f limiter key now (make_room f limiter key now)).1
        ≤ suc (length (make_room f limiter key now))
      → length (charge_key f limiter key now (make_room f limiter key now)).1 ≤ limiter.max_buckets
  fits n limiter key now limited room few same most =
      elim (Bool-cases (contains_key (find_bucket key limiter.buckets))) [
        | inl known ↦ omega (
          arith,
          few,
          same (
              ap (λ b. contains_key (find_bucket key b)) (make_room_known limiter key now known)
              ∙ known),
        )
        | inr new ↦
            let open_ : leb limiter.max_buckets (length (make_room f limiter key now)) ≡ false =
              sym (
                ap (λ b. not b && leb limiter.max_buckets (length (make_room f limiter key now)))
                  new)
              ∙ sym (is_full_lem limiter key now)
              ∙ room in
            omega (arith, most, leb→lt _ _ open_)
      ]
    where
      leb→lt : (a b : ℕ) → leb a b ≡ false → b < a
      leb→lt a b h = ground arith

  -- A check keeps the limits, whatever it decides: no balance above the burst, none seen in the
  -- future, and never more buckets than the maximum; a refusal asks for a second at least.
  pub check_serialized-IsLimited :
      (n : ℕ) (limiter : RateLimiter F) (key : Str) (now : ℕ)
      → IsLimited n limiter
      → IsLimited n (check_serialized f limiter key now).1
        × ((secs : ℕ) → (check_serialized f limiter key now).0 ≡ deny secs → 1 ≤ secs)
  check_serialized-IsLimited n limiter key now limited =
      rw (check_serialized_lem limiter key now)
        (settle (ltb now limiter.clock) (is_full f limiter key now) refl refl)
    where
      one_second : (secs : ℕ) → deny 1 ≡ deny secs → 1 ≤ secs
      one_second secs e = subst (λ n. 1 ≤ n) (inj e) (omega arith)
        where
          inj : {a b : ℕ} → deny a ≡ deny b → a ≡ b
          inj e = cc

      passed : ltb now limiter.clock ≡ false → limiter.clock ≤ now
      passed e = ground arith

      settle :
          (past full : Bool)
          → ltb now limiter.clock ≡ past
          → is_full f limiter key now ≡ full
          → IsLimited n (checked limiter key now past full).1
            × ((secs : ℕ) → (checked limiter key now past full).0 ≡ deny secs → 1 ≤ secs)
      settle true full e e' = (limited, one_second)
      settle false true e e' =
          let (each, shorter) = make_room-smaller (InBounds limiter.burst now) limiter key now (
            later limiter.burst limiter.clock now limiter.buckets (omega (arith, passed e))
              limited.each) in
          (
            record {
              burst_is = limited.burst_is;
              some_room = limited.some_room;
              few = omega (arith, shorter, limited.few);
              each = each;
            },
            one_second,
          )
      settle false false e e' =
          let (each, shorter) = make_room-smaller (InBounds limiter.burst now) limiter key now (
            later limiter.burst limiter.clock now limiter.buckets (omega (arith, passed e))
              limited.each) in
          let (each', most, same, secs) =
            charge_key-bounds limiter n key now (make_room f limiter key now) limited.burst_is
              each in
          (
            record {
              burst_is = limited.burst_is;
              some_room = limited.some_room;
              few =
                  fits n limiter key now limited e' (omega (arith, shorter, limited.few)) same most;
              each = each';
            },
            secs,
          )
