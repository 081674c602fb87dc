-- ===== src/RateLimit/Keyed.antt =====
-- src/ratelimit.rs: the map of buckets.
use zed_api_server_rs.Prelude.{
  ◌≤◌, suc, Bool, true, none, some, [], ◌∷◌, if◌then◌else◌, length, All, ◌≡◌, refl, ap, sym, subst,
  ◌∙◌, inl, inr, ◌≢◌, Bool-cases, arith,
}
use zed_api_server_rs.Text.{Str, str_eq}
use zed_api_server_rs.Text.Equality.{str_eq_iff, str_eq_refl, str_eq_ne}
use zed_api_server_rs.RateLimit.{Bucket, Buckets, find_bucket, contains_key, retain, set_bucket}

module _ {F : Type 0} where
  pub set_bucket_cons :
      (key k : Str) (new bucket : Bucket F) (buckets : Buckets F)
      → set_bucket key new ((k, bucket) ∷ buckets)
        ≡ (if str_eq k key then (k, new) ∷ buckets else (k, bucket) ∷ set_bucket key new buckets)
  unfolding set_bucket
  set_bucket_cons key k new bucket buckets = refl

  pub set_bucket_nil : (key : Str) (new : Bucket F) → set_bucket key new [] ≡ (key, new) ∷ []
  unfolding set_bucket
  set_bucket_nil key new = refl

  pub find_bucket_cons :
      (key k : Str) (bucket : Bucket F) (buckets : Buckets F)
      → find_bucket key ((k, bucket) ∷ buckets)
        ≡ (if str_eq k key then some bucket else find_bucket key buckets)
  unfolding find_bucket
  find_bucket_cons key k bucket buckets = refl

  pub find_bucket_nil : (key : Str) → find_bucket {F = F} key [] ≡ none
  unfolding find_bucket
  find_bucket_nil key = refl

  -- What holds of every bucket.
  abbrev pub Each : (Bucket F → Type 0) → Buckets F → Type 0
  Each P buckets = All (λ (entry : Str × Bucket F). P entry.1) buckets

  pub Each-retain :
      (P : Bucket F → Type 0) (keep : Bucket F → Bool) (buckets : Buckets F)
      → Each P buckets
      → Each P (retain keep buckets)
  Each-retain P keep [] h = tt
  Each-retain P keep ((k, bucket) ∷ buckets) (p, h) = elim (Bool-cases (keep bucket)) [
    | inl e ↦ rw e (p, Each-retain P keep buckets h)
    | inr e ↦ rw e (Each-retain P keep buckets h)
  ]

  pub length-retain :
      (keep : Bucket F → Bool) (buckets : Buckets F) → length (retain keep buckets) ≤ length buckets
  length-retain keep [] = omega arith
  length-retain keep ((k, bucket) ∷ buckets) = elim (Bool-cases (keep bucket)) [
    | inl e ↦ rw e (omega (arith, length-retain keep buckets))
    | inr e ↦ rw e (omega (arith, length-retain keep buckets))
  ]

  pub Each-set_bucket :
      (P : Bucket F → Type 0) (key : Str) (new : Bucket F) (buckets : Buckets F)
      → P new
      → Each P buckets
      → Each P (set_bucket key new buckets)
  Each-set_bucket P key new [] n h = rw (set_bucket_nil key new) (n, tt)
  Each-set_bucket P key new ((k, bucket) ∷ buckets) n (p, h) = elim (Bool-cases (str_eq k key)) [
    | inl e ↦ rw (set_bucket_cons key k new bucket buckets, e) (n, h)
    | inr e ↦
        rw (set_bucket_cons key k new bucket buckets, e) (p, Each-set_bucket P key new buckets n h)
  ]

  Each-find_bucket :
      (P : Bucket F → Type 0) (key : Str) (buckets : Buckets F) (bucket : Bucket F)
      → Each P buckets
      → find_bucket key buckets ≡ some bucket
      → P bucket
  Each-find_bucket P key [] bucket h e = let absurd = sym (find_bucket_nil key) ∙ e in cc
  Each-find_bucket P key ((k, b) ∷ buckets) bucket (p, h) e = elim (Bool-cases (str_eq k key)) [
    | inl same ↦
        subst P
          (some_inj (
            sym (ap (λ t. if t then some b else find_bucket key buckets) same)
            ∙ sym (find_bucket_cons key k b buckets)
            ∙ e))
          p
    | inr differ ↦ Each-find_bucket P key buckets bucket h (
        sym (ap (λ t. if t then some b else find_bucket key buckets) differ)
        ∙ sym (find_bucket_cons key k b buckets)
        ∙ e)
  ]
    where
      some_inj : {a b : Bucket F} → some a ≡ some b → a ≡ b
      some_inj h = cc

  pub length-set_bucket :
      (key : Str) (new : Bucket F) (buckets : Buckets F)
      → (contains_key (find_bucket key buckets) ≡ true
          → length (set_bucket key new buckets) ≡ length buckets)
        × (length (set_bucket key new buckets) ≤ suc (length buckets))
  length-set_bucket key new [] = (
    (λ h. let absurd = ap contains_key (sym (find_bucket_nil key)) ∙ h in cc),
    rw (set_bucket_nil key new) (omega arith),
  )
  length-set_bucket key new ((k, bucket) ∷ buckets) = elim (Bool-cases (str_eq k key)) [
    | inl e ↦ (
      (λ h. rw (set_bucket_cons key k new bucket buckets, e)),
      rw (set_bucket_cons key k new bucket buckets, e) (omega arith),
    )
    | inr e ↦
        let (same, most) = length-set_bucket key new buckets in
        (
          (λ h.
              rw (set_bucket_cons key k new bucket buckets, e)
                (omega (arith, same (rw (find_bucket_cons key k bucket buckets, e) at h)))),
          rw (set_bucket_cons key k new bucket buckets, e) (omega (arith, most)),
        )
  ]

  pub find-set_bucket :
      (key : Str) (new : Bucket F) (buckets : Buckets F)
      → find_bucket key (set_bucket key new buckets) ≡ some new
  find-set_bucket key new [] =
      rw (set_bucket_nil key new, find_bucket_cons key key new [], str_eq_refl key)
  find-set_bucket key new ((k, bucket) ∷ buckets) = elim (Bool-cases (str_eq k key)) [
    | inl e ↦
        rw (set_bucket_cons key k new bucket buckets, e, find_bucket_cons key k new buckets, e)
    | inr e ↦
        rw
          (
            set_bucket_cons key k new bucket buckets,
            e,
            find_bucket_cons key k bucket (set_bucket key new buckets),
            e,
          )
          (find-set_bucket key new buckets)
  ]

  -- A change of one key's bucket is not seen under another key.
  pub find-set_bucket_other :
      (j key : Str) (new : Bucket F) (buckets : Buckets F)
      → key ≢ j
      → find_bucket j (set_bucket key new buckets) ≡ find_bucket j buckets
  find-set_bucket_other j key new [] h =
      rw (set_bucket_nil key new, find_bucket_cons j key new [], str_eq_ne key j h)
  find-set_bucket_other j key new ((k, bucket) ∷ buckets) h = elim (Bool-cases (str_eq k key)) [
    | inl e ↦ rw (
      set_bucket_cons key k new bucket buckets,
      e,
      find_bucket_cons j k new buckets,
      find_bucket_cons j k bucket buckets,
      str_eq_ne k j (λ same. h (sym ((str_eq_iff k key).0 e) ∙ same)),
    )
    | inr e ↦ rw (
      set_bucket_cons key k new bucket buckets,
      e,
      find_bucket_cons j k bucket (set_bucket key new buckets),
      find_bucket_cons j k bucket buckets,
      find-set_bucket_other j key new buckets h,
    )
  ]
