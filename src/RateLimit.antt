-- ===== src/RateLimit.antt =====
-- src/ratelimit.rs: the token bucket of each credential, and the middleware that charges it.
pub mod Keyed
pub mod Distinct
pub mod Bounds
pub mod Reach
pub mod Isolation
pub mod Bursts
mod Tests
use zed_api_server_rs.Prelude.{
  ℕ, ◌-◌, ◌*◌, ◌≤◌, ◌<◌, ◌^◌, suc, Bool, true, false, not, ◌&&◌, Option, none, some, List, [], ◌∷◌,
  if◌then◌else◌, ltb, leb, length, ◌≡◌,
}
use zed_api_server_rs.Text.{Str, str, str_eq}
use zed_api_server_rs.Access.{bearer_token}

-- The operations of `f64` that the limiter uses; they are not defined here.
pub record Float (F : Type 0) : Type 0 where
  pub from_u32 : ℕ → F
  pub as_secs_f64 : ℕ → F
  pub one : F
  pub add : F → F → F
  pub sub : F → F → F
  pub mul : F → F → F
  pub div : F → F → F
  pub min : F → F → F
  pub max : F → F → F
  pub ceil : F → F
  pub to_u64 : F → ℕ
  pub le : F → F → Bool
  pub is_finite : F → Bool
  pub is_positive : F → Bool

-- What IEEE 754 promises of them: conversions from integers are exact and ordered, `min` takes the
-- smaller and `max` the larger operand, and adding a product with zero seconds changes nothing.
pub record IsFloat {F : Type 0} (f : Float F) : Type 0 where
  pub le_refl : (n : ℕ) → f.le (f.from_u32 n) (f.from_u32 n) ≡ true
  pub min_le : (a : F) (n : ℕ) → f.le (f.min a (f.from_u32 n)) (f.from_u32 n) ≡ true
  pub sub_le : (a b : F) → f.le a b ≡ true → f.le (f.sub a f.one) b ≡ true
  pub max_one : (a : F) → 1 ≤ f.to_u64 (f.max a f.one)
  pub min_small : (n m : ℕ) → n ≤ m → f.min (f.from_u32 n) (f.from_u32 m) ≡ f.from_u32 n
  pub add_zero :
      (n : ℕ) (a : F)
      → f.is_finite a ≡ true
      → f.add (f.from_u32 n) (f.mul (f.as_secs_f64 0) a) ≡ f.from_u32 n
  pub one_le : (n : ℕ) → f.le f.one (f.from_u32 (suc n)) ≡ true
  pub zero_lt : f.le f.one (f.from_u32 0) ≡ false
  pub sub_one : (n : ℕ) → suc n < 2 ^ 32 → f.sub (f.from_u32 (suc n)) f.one ≡ f.from_u32 n
  pub one_finite : f.is_finite f.one ≡ true

-- `IDLE_EVICTION`, in nanoseconds, the unit of every time here.
abbrev pub idle_eviction : ℕ
idle_eviction = 600 * 1000000000

abbrev pub max_buckets_default : ℕ
max_buckets_default = 100000

pub record Bucket (F : Type 0) : Type 0 where
  pub tokens : F
  pub last_seen : ℕ

abbrev pub Buckets : Type 0 → Type 0
Buckets F = List (Str × Bucket F)

pub record RateLimiter (F : Type 0) : Type 0 where
  pub buckets : Buckets F
  pub clock : ℕ
  pub burst : F
  pub per_second : F
  pub max_buckets : ℕ

pub data Decision : Type 0 where
  allow : Decision
  deny : ℕ → Decision

module _ {F : Type 0} where
  unfoldable pub find_bucket : Str → Buckets F → Option (Bucket F)
  unfolding str_eq
  find_bucket key [] = none
  find_bucket key ((k, bucket) ∷ buckets) =
      if str_eq k key then some bucket else find_bucket key buckets

  abbrev pub contains_key : Option (Bucket F) → Bool
  contains_key none = false
  contains_key (some bucket) = true

  -- `retain`
  abbrev pub retain : (Bucket F → Bool) → Buckets F → Buckets F
  retain keep [] = []
  retain keep ((k, bucket) ∷ buckets) =
      if keep bucket then (k, bucket) ∷ retain keep buckets else retain keep buckets

  -- The bucket of a key is replaced, or added when there is none.
  unfoldable pub set_bucket : Str → Bucket F → Buckets F → Buckets F
  unfolding str_eq
  set_bucket key new [] = (key, new) ∷ []
  set_bucket key new ((k, bucket) ∷ buckets) =
      if str_eq k key then (k, new) ∷ buckets else (k, bucket) ∷ set_bucket key new buckets

  abbrev pub or_insert : Option (Bucket F) → Bucket F → Bucket F
  or_insert none new = new
  or_insert (some bucket) new = bucket

module _ {F : Type 0} (f : Float F) where
  -- `RateLimiter::new_with_limit`, at the time of the construction.
  unfoldable pub new_with_limit : ℕ → ℕ → F → ℕ → RateLimiter F
  new_with_limit now burst per_second max_buckets = record {
    buckets = [];
    clock = now;
    burst = f.from_u32 (if ltb burst 1 then 1 else burst);
    per_second = if f.is_finite per_second && f.is_positive per_second then per_second else f.one;
    max_buckets = if ltb max_buckets 1 then 1 else max_buckets;
  }

  unfoldable pub new : ℕ → ℕ → F → RateLimiter F
  unfolding new_with_limit
  new now burst per_second = new_with_limit now burst per_second max_buckets_default

  abbrev pub parsed_or {ℓ} : {A : Type ℓ} → (Str → Option A) → Option Str → A → A
  parsed_or parse none default = default
  parsed_or parse (some value) default = elim (parse value) [ none ↦ default | some a ↦ a ]

  -- `from_env`, on the two variables; parsing numbers is the standard library's.
  unfoldable pub from_env :
      (Str → Option ℕ) → (Str → Option F) → F → Option Str → Option Str → ℕ → RateLimiter F
  unfolding new
  from_env parse_u32 parse_f64 ten burst per_second now =
      new now (parsed_or parse_u32 burst 60) (parsed_or parse_f64 per_second ten)

  unfoldable pub safe_to_forget : RateLimiter F → ℕ → Bucket F → Bool
  safe_to_forget limiter now bucket =
      if ltb now bucket.last_seen
      then false
      else if ltb (now - bucket.last_seen) idle_eviction
      then false
      else f.le limiter.burst
          (f.add bucket.tokens (f.mul (f.as_secs_f64 (now - bucket.last_seen)) limiter.per_second))

  unfoldable pub forget : RateLimiter F → ℕ → Buckets F
  unfolding safe_to_forget
  forget limiter now = retain (λ bucket. not (safe_to_forget limiter now bucket)) limiter.buckets

  -- The buckets before the charge: a new key at the limit makes room first.
  unfoldable pub make_room : RateLimiter F → Str → ℕ → Buckets F
  unfolding find_bucket forget
  make_room limiter key now =
      if not (contains_key (find_bucket key limiter.buckets))
        && leb limiter.max_buckets (length limiter.buckets)
      then forget limiter now
      else limiter.buckets

  -- There is no room for a new key even then.
  unfoldable pub is_full : RateLimiter F → Str → ℕ → Bool
  unfolding find_bucket make_room
  is_full limiter key now =
      not (contains_key (find_bucket key limiter.buckets))
      && leb limiter.max_buckets (length (make_room limiter key now))

  -- The balance of a bucket at a time after it was last seen.
  abbrev pub refilled : RateLimiter F → ℕ → Bucket F → F
  refilled limiter now bucket =
      f.min
        (f.add bucket.tokens (f.mul (f.as_secs_f64 (now - bucket.last_seen)) limiter.per_second))
        limiter.burst

  abbrev pub retry_after_secs : RateLimiter F → F → ℕ
  retry_after_secs limiter tokens =
      f.to_u64 (f.max (f.ceil (f.div (f.sub f.one tokens) limiter.per_second)) f.one)

  -- The charge of one token against a balance.
  unfoldable pub charge : RateLimiter F → F → Decision × F
  charge limiter tokens =
      if f.le f.one tokens
      then (allow, f.sub tokens f.one)
      else (deny (retry_after_secs limiter tokens), tokens)

  abbrev pub fresh_bucket : RateLimiter F → ℕ → Bucket F
  fresh_bucket limiter now = record { tokens = limiter.burst; last_seen = now }

  unfoldable pub charge_key : RateLimiter F → Str → ℕ → Buckets F → Decision × Buckets F
  unfolding find_bucket set_bucket charge
  charge_key limiter key now buckets =
      let bucket = or_insert (find_bucket key buckets) (fresh_bucket limiter now) in
      let (decision, tokens) = charge limiter (refilled limiter now bucket) in
      (decision, set_bucket key (record { tokens = tokens; last_seen = now }) buckets)

  unfoldable pub check_serialized : RateLimiter F → Str → ℕ → Decision × RateLimiter F
  unfolding make_room is_full charge_key
  check_serialized limiter key now =
      if ltb now limiter.clock
      then (deny 1, limiter)
      else if is_full limiter key now
      then (deny 1, record limiter { clock = now; buckets = make_room limiter key now })
      else (
        (charge_key limiter key now (make_room limiter key now)).0,
        record limiter {
          clock = now;
          buckets = (charge_key limiter key now (make_room limiter key now)).1;
        },
      )

  unfoldable pub sweep_serialized : RateLimiter F → ℕ → RateLimiter F
  unfolding forget
  sweep_serialized limiter now =
      if ltb now limiter.clock
      then limiter
      else record limiter { clock = now; buckets = forget limiter now }

  -- What the middleware does with a request: it goes on, or is answered with 429.
  pub data Layer : Type 0 where
    next : Layer
    too_many_requests : ℕ → Layer

  unfoldable pub layer :
      (Str → Str) → Option (RateLimiter F) → Option Str → ℕ → Layer × Option (RateLimiter F)
  unfolding bearer_token check_serialized
  layer hash_token none authorization now = (next, none)
  layer hash_token (some limiter) authorization now = elim (bearer_token authorization) [
    | none ↦ (next, some limiter)
    | some token ↦ elim (check_serialized limiter (hash_token token) now).0 [
      | allow ↦ (next, some (check_serialized limiter (hash_token token) now).1)
      | deny secs ↦
          (too_many_requests secs, some (check_serialized limiter (hash_token token) now).1)
    ]
  ]
