-- ===== src/RateLimit/Distinct.antt =====
-- src/ratelimit.rs: the map of buckets has one bucket for a key.
use zed_api_server_rs.Prelude.{
  Bool, true, false, none, some, [], ◌∷◌, if◌then◌else◌, All, ◌≡◌, ◌≢◌, sym, subst, ◌∙◌, ◌⊎◌, inl,
  inr, Bool-cases, ap,
}
use zed_api_server_rs.Text.{Str, str_eq}
use zed_api_server_rs.Text.Equality.{str_eq_iff, str_eq_ne}
use zed_api_server_rs.RateLimit.{Bucket, Buckets, find_bucket, retain, set_bucket}
use zed_api_server_rs.RateLimit.Keyed.{
  set_bucket_cons, set_bucket_nil, find_bucket_cons, find_bucket_nil,
}

module _ {F : Type 0} where
  abbrev pub LacksKey : Str → Buckets F → Type 0
  LacksKey key buckets = All (λ (entry : Str × Bucket F). entry.0 ≢ key) buckets

  -- A `HashMap`: no key occurs twice.
  abbrev pub IsMap : Buckets F → Type 0
  IsMap [] = Unit
  IsMap ((k, bucket) ∷ buckets) = LacksKey k buckets × IsMap buckets

  LacksKey-retain :
      (key : Str) (keep : Bucket F → Bool) (buckets : Buckets F)
      → LacksKey key buckets
      → LacksKey key (retain keep buckets)
  LacksKey-retain key keep [] h = tt
  LacksKey-retain key keep ((k, bucket) ∷ buckets) (p, h) = elim (Bool-cases (keep bucket)) [
    | inl e ↦ rw e (p, LacksKey-retain key keep buckets h)
    | inr e ↦ rw e (LacksKey-retain key keep buckets h)
  ]

  pub IsMap-retain :
      (keep : Bucket F → Bool) (buckets : Buckets F) → IsMap buckets → IsMap (retain keep buckets)
  IsMap-retain keep [] h = tt
  IsMap-retain keep ((k, bucket) ∷ buckets) (p, h) = elim (Bool-cases (keep bucket)) [
    | inl e ↦ rw e (LacksKey-retain k keep buckets p, IsMap-retain keep buckets h)
    | inr e ↦ rw e (IsMap-retain keep buckets h)
  ]

  LacksKey-set_bucket :
      (key j : Str) (new : Bucket F) (buckets : Buckets F)
      → j ≢ key
      → LacksKey key buckets
      → LacksKey key (set_bucket j new buckets)
  LacksKey-set_bucket key j new [] other h = rw (set_bucket_nil j new) (other, tt)
  LacksKey-set_bucket key j new ((k, bucket) ∷ buckets) other (p, h) =
      elim (Bool-cases (str_eq k j)) [
        | inl e ↦ rw (set_bucket_cons j k new bucket buckets, e) (p, h)
        | inr e ↦
            rw (set_bucket_cons j k new bucket buckets, e)
              (p, LacksKey-set_bucket key j new buckets other h)
      ]

  pub IsMap-set_bucket :
      (key : Str) (new : Bucket F) (buckets : Buckets F)
      → IsMap buckets
      → IsMap (set_bucket key new buckets)
  IsMap-set_bucket key new [] h = rw (set_bucket_nil key new) (tt, tt)
  IsMap-set_bucket key new ((k, bucket) ∷ buckets) (p, h) = elim (Bool-cases (str_eq k key)) [
    | inl e ↦ rw (set_bucket_cons key k new bucket buckets, e) (p, h)
    | inr e ↦
        rw (set_bucket_cons key k new bucket buckets, e)
          (
            LacksKey-set_bucket k key new buckets
                (λ same. true-ne-false (sym ((str_eq_iff k key).1 (sym same)) ∙ e)) p,
            IsMap-set_bucket key new buckets h,
          )
  ]
    where
      true-ne-false : true ≡ false → ⊥
      true-ne-false h = cc

  LacksKey-find :
      (key : Str) (buckets : Buckets F) → LacksKey key buckets → find_bucket key buckets ≡ none
  LacksKey-find key [] h = find_bucket_nil key
  LacksKey-find key ((k, bucket) ∷ buckets) (p, h) =
      rw (find_bucket_cons key k bucket buckets, str_eq_ne k key p) (LacksKey-find key buckets h)

  -- After `retain`, a bucket that was there is there unchanged, or it failed the test and is gone.
  pub find-retain_map :
      (j : Str) (keep : Bucket F → Bool) (bucket : Bucket F) (buckets : Buckets F)
      → IsMap buckets
      → find_bucket j buckets ≡ some bucket
      → (find_bucket j (retain keep buckets) ≡ some bucket)
        ⊎ ((find_bucket j (retain keep buckets) ≡ none) × (keep bucket ≡ false))
  find-retain_map j keep bucket [] m h = inl h
  find-retain_map j keep bucket ((k, b) ∷ buckets) (lone, m) h = elim (Bool-cases (str_eq k j)) [
    | inl same ↦ elim (Bool-cases (keep b)) [
      | inl e ↦ inl (rw (e, find_bucket_cons j k b (retain keep buckets), same) (is_b same))
      | inr e ↦ inr (
        rw e (
            LacksKey-find j (retain keep buckets) (
              LacksKey-retain j keep buckets
                (subst (λ t. LacksKey t buckets) ((str_eq_iff k j).0 same) lone))),
        subst (λ x. keep x ≡ false) (some_inj (is_b same)) e,
      )
    ]
    | inr differ ↦
        let rest : find_bucket j buckets ≡ some bucket =
          sym (ap (λ t. if t then some b else find_bucket j buckets) differ)
          ∙ sym (find_bucket_cons j k b buckets)
          ∙ h in
        elim (Bool-cases (keep b)) [
          | inl e ↦
              rw (e, find_bucket_cons j k b (retain keep buckets), differ)
                (find-retain_map j keep bucket buckets m rest)
          | inr e ↦ rw e (find-retain_map j keep bucket buckets m rest)
        ]
  ]
    where
      some_inj : {a b : Bucket F} → some a ≡ some b → a ≡ b
      some_inj h = cc

      is_b : str_eq k j ≡ true → some b ≡ some bucket
      is_b same =
          sym (ap (λ t. if t then some b else find_bucket j buckets) same)
          ∙ sym (find_bucket_cons j k b buckets)
          ∙ h
