-- ===== src/RateLimit/Isolation.antt =====
-- src/ratelimit.rs: what the check of one credential does to the others.
use zed_api_server_rs.Prelude.{
  ℕ, Bool, true, false, not, ◌&&◌, some, if◌then◌else◌, ltb, leb, length, ◌≡◌, refl, sym, subst,
  ◌∙◌, ◌⊎◌, inl, inr, ◌≢◌, none, ◌+◌, ◌-◌, ◌*◌, ◌≤◌, arith,
}
use zed_api_server_rs.Text.{Str}
use zed_api_server_rs.RateLimit.{
  Float, IsFloat, Bucket, Buckets, RateLimiter, Decision, find_bucket, contains_key, retain,
  safe_to_forget, make_room, is_full, charge_key, check_serialized,
}
use zed_api_server_rs.RateLimit.Keyed.{find-set_bucket_other}
use zed_api_server_rs.RateLimit.Distinct.{IsMap, IsMap-retain, IsMap-set_bucket, find-retain_map}
use zed_api_server_rs.RateLimit.Bounds.{make_room_lem, checked, check_serialized_lem}

module _ {F : Type 0} (f : Float F) (law : IsFloat f) where
  -- Ten minutes, in nanoseconds, have gone by since the bucket was last charged, and with what it
  -- has gained since then it is full.
  abbrev pub IsIdle : RateLimiter F → ℕ → Bucket F → Type 0
  IsIdle limiter now bucket =
      (bucket.last_seen + 600 * 1000000000 ≤ now)
      × (f.le limiter.burst (
            f.add bucket.tokens (f.mul (f.as_secs_f64 (now - bucket.last_seen)) limiter.per_second))
          ≡ true)

  -- A bucket is where it was, or it was idle and its key has none now.
  abbrev pub Spared : RateLimiter F → ℕ → Str → Bucket F → Buckets F → Type 0
  Spared limiter now j bucket after =
      (find_bucket j after ≡ some bucket)
      ⊎ ((find_bucket j after ≡ none) × IsIdle limiter now bucket)

  idle_parts :
      (past fresh full : Bool)
      → (if past then false else if fresh then false else full) ≡ true
      → (past ≡ false) × (fresh ≡ false) × (full ≡ true)
  idle_parts true fresh full h = cc
  idle_parts false true full h = cc
  idle_parts false false full h = (refl, refl, h)

  long_ago :
      (now last : ℕ)
      → ltb now last ≡ false
      → ltb (now - last) (600 * 1000000000) ≡ false
      → last + 600 * 1000000000 ≤ now
  long_ago now last h k = ground arith

  safe_to_forget-IsIdle :
      (limiter : RateLimiter F) (now : ℕ) (bucket : Bucket F)
      → not (safe_to_forget f limiter now bucket) ≡ false
      → IsIdle limiter now bucket
  unfolding safe_to_forget
  safe_to_forget-IsIdle limiter now bucket h =
      let (past, fresh, full) = idle_parts _ _ _ (kept_by _ h) in
      (long_ago now bucket.last_seen past fresh, full)
    where
      kept_by : (b : Bool) → not b ≡ false → b ≡ true
      kept_by true h = refl
      kept_by false h = cc

  make_room-Spared :
      (limiter : RateLimiter F) (key j : Str) (now : ℕ) (bucket : Bucket F)
      → IsMap limiter.buckets
      → find_bucket j limiter.buckets ≡ some bucket
      → Spared limiter now j bucket (make_room f limiter key now)
        × IsMap (make_room f limiter key now)
  make_room-Spared limiter key j now bucket map found =
      subst (λ after. Spared limiter now j bucket after × IsMap after)
        (sym (make_room_lem f law limiter key now))
        (chosen (
          not (contains_key (find_bucket key limiter.buckets))
          && leb limiter.max_buckets (length limiter.buckets)))
    where
      chosen :
          (b : Bool)
          → Spared limiter now j bucket (
              if b
              then retain (λ bucket. not (safe_to_forget f limiter now bucket)) limiter.buckets
              else limiter.buckets)
            × IsMap (
                if b
                then retain (λ bucket. not (safe_to_forget f limiter now bucket)) limiter.buckets
                else limiter.buckets)
      chosen false = (inl found, map)
      chosen true = (
        elim (find-retain_map j (λ bucket. not (safe_to_forget f limiter now bucket)) bucket
            limiter.buckets map found) [
              | inl there ↦ inl there
              | inr (gone, dropped) ↦ inr (gone, safe_to_forget-IsIdle limiter now bucket dropped)
            ],
        IsMap-retain (λ bucket. not (safe_to_forget f limiter now bucket)) limiter.buckets map,
      )

  charge_key-other :
      (limiter : RateLimiter F) (key j : Str) (now : ℕ) (buckets : Buckets F)
      → key ≢ j
      → IsMap buckets
      → (find_bucket j (charge_key f limiter key now buckets).1 ≡ find_bucket j buckets)
        × IsMap (charge_key f limiter key now buckets).1
  unfolding charge_key
  charge_key-other limiter key j now buckets other map =
      (find-set_bucket_other j key _ buckets other, IsMap-set_bucket key _ buckets map)

  -- While the buckets are a map, with one for a key, a check of one key leaves the bucket of every
  -- other key as it was, or forgets it; it forgets one only if ten minutes have gone by since it was
  -- last charged and its balance would be full again. The buckets stay a map.
  pub check_serialized-Spared :
      (limiter : RateLimiter F) (key j : Str) (now : ℕ) (bucket : Bucket F)
      → key ≢ j
      → IsMap limiter.buckets
      → find_bucket j limiter.buckets ≡ some bucket
      → Spared limiter now j bucket (check_serialized f limiter key now).1.buckets
        × IsMap (check_serialized f limiter key now).1.buckets
  check_serialized-Spared limiter key j now bucket other map found =
      subst
        (λ (r : Decision × RateLimiter F).
          Spared limiter now j bucket r.1.buckets × IsMap r.1.buckets)
        (sym (check_serialized_lem f law limiter key now))
        (settle (ltb now limiter.clock) (is_full f limiter key now))
    where
      settle :
          (past full : Bool)
          → Spared limiter now j bucket (checked f law limiter key now past full).1.buckets
            × IsMap (checked f law limiter key now past full).1.buckets
      settle true full = (inl found, map)
      settle false true = make_room-Spared limiter key j now bucket map found
      settle false false =
          let (spared, room) = make_room-Spared limiter key j now bucket map found in
          let (same, after) =
            charge_key-other limiter key j now (make_room f limiter key now) other room in
          (
            elim spared [
              | inr (gone, idle) ↦ inr (same ∙ gone, idle)
              | inl there ↦ inl (same ∙ there)
            ],
            after,
          )
