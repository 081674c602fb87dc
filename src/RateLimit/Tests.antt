-- ===== src/RateLimit/Tests.antt =====
-- src/ratelimit.rs: runs of the limiter, over natural numbers for `f64`.
use zed_api_server_rs.Prelude.{
  ℕ, ◌+◌, ◌-◌, ◌*◌, ◌/◌, ◌≤◌, min, true, [], ◌∷◌, ltb, leb, if◌then◌else◌, ◌≡◌, refl, ◌⊎◌, ◌≢◌,
  arith,
}
use zed_api_server_rs.Text.{str, str_eq}
use zed_api_server_rs.Text.Equality.{str_eq-false}
use zed_api_server_rs.RateLimit.{
  Float, IsFloat, RateLimiter, allow, deny, find_bucket, new_with_limit, check_serialized,
}
use zed_api_server_rs.RateLimit.Bounds.{IsLimited}
use zed_api_server_rs.RateLimit.Reach.{Reached, Reached-IsLimited}
use zed_api_server_rs.RateLimit.Isolation.{Spared, check_serialized-Spared}
use zed_api_server_rs.RateLimit.Distinct.{IsMap}
use zed_api_server_rs.RateLimit.Bursts.{allowed, allowed-fresh}

abbrev larger : ℕ → ℕ → ℕ
larger a b = if ltb a b then b else a

abbrev smaller : ℕ → ℕ → ℕ
smaller a b = if ltb b a then b else a

abbrev whole : Float ℕ
whole = record {
  from_u32 = λ n. n;
  as_secs_f64 = λ n. n / 1000000000;
  one = 1;
  add = λ a b. a + b;
  sub = λ a b. a - b;
  mul = λ a b. a * b;
  div = λ a b. a / b;
  min = smaller;
  max = larger;
  ceil = λ a. a;
  to_u64 = λ a. a;
  le = leb;
  is_finite = λ a. true;
  is_positive = λ a. ltb 0 a;
}

whole-IsFloat : IsFloat whole
whole-IsFloat = record {
  le_refl = λ n. ground arith;
  min_le = λ a n. ground arith;
  sub_le = λ a b h. ground arith;
  max_one = λ a. ground arith;
  min_small = λ n m h. ground arith;
  add_zero = λ n a h. omega arith;
  one_le = λ n. ground arith;
  zero_lt = refl;
  sub_one = λ n h. omega arith;
  one_finite = refl;
}

-- Three requests at once, then one a second.
abbrev start : RateLimiter ℕ
start = record {
  buckets = (str "b", record { tokens = 2; last_seen = 5 }) ∷ [];
  clock = 7;
  burst = 3;
  per_second = 1;
  max_buckets = 2;
}

test-allowed : allowed whole whole-IsFloat start (str "a") 9 5 ≡ 3
unfolding check_serialized str
test-allowed = refl

test-refill :
    (check_serialized whole
      (record start { buckets = (str "a", record { tokens = 0; last_seen = 7 }) ∷ [] })
      (str "a")
      2000000007).0
    ≡ allow
unfolding check_serialized str
test-refill = refl

test-backwards : check_serialized whole start (str "a") 6 ≡ (deny 1, start)
unfolding check_serialized
test-backwards = refl

allowed-fresh_example : allowed whole whole-IsFloat start (str "a") 9 5 ≡ min 5 3
unfolding find_bucket str
allowed-fresh_example =
    allowed-fresh whole whole-IsFloat 3 5 start (str "a") 9 refl (omega arith) refl (omega arith)
      refl (omega arith)

a-ne-b : str "a" ≢ str "b"
unfolding str str_eq
a-ne-b = str_eq-false (str "a") (str "b") refl

check_serialized-Spared_example :
    Spared whole whole-IsFloat start 9
      (str "b")
      (record { tokens = 2; last_seen = 5 })
      (check_serialized whole start (str "a") 9).1.buckets
    × IsMap (check_serialized whole start (str "a") 9).1.buckets
unfolding find_bucket str
check_serialized-Spared_example =
    check_serialized-Spared whole whole-IsFloat start (str "a") (str "b") 9
      (record { tokens = 2; last_seen = 5 }) a-ne-b (tt, tt) refl

-- At the limit a new key makes room only once the other bucket is idle.
abbrev crowded : RateLimiter ℕ
crowded = record start { max_buckets = 1 }

test-no_room : (check_serialized whole crowded (str "a") 9).0 ≡ deny 1
unfolding check_serialized str
test-no_room = refl

test-forgets : (check_serialized whole crowded (str "a") 600000000005).0 ≡ allow
unfolding check_serialized str
test-forgets = refl

abbrev used_once : RateLimiter ℕ
used_once = (check_serialized whole (new_with_limit whole 5 3 1 2) (str "a") 7).1

Reached-IsLimited_example :
    ((n : ℕ) × IsLimited whole whole-IsFloat n used_once)
    × (((check_serialized whole used_once (str "a") 7).0 ≡ allow)
        ⊎ ((secs : ℕ) × ((check_serialized whole used_once (str "a") 7).0 ≡ deny secs)
            × (1 ≤ secs)))
Reached-IsLimited_example =
    Reached-IsLimited whole whole-IsFloat used_once (str "a") 7
      (Reached.checks (new_with_limit whole 5 3 1 2) (str "a") 7 (Reached.started 5 3 1 2))
