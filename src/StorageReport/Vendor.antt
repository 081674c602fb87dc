-- ===== src/StorageReport/Vendor.antt =====
-- Which vendor src/storage_report.rs names for an endpoint.
use zed_api_server_rs.Prelude.{
  ◌≡◌, refl, ◌↔◌, ◌⊎◌, inl, inr, Bool, true, false, Option, none, some, ◌∷◌, ◌++◌, arith,
  Bool-cases, Option-cases, ◌||◌,
}
use zed_api_server_rs.Text.{Str, str, str_eq, ends_with, starts_with}
use zed_api_server_rs.Text.Equality.{str_eq_iff}
use zed_api_server_rs.Text.Search.{
  ends_with_parts, ends_with-append, starts_with_parts, starts_with-append_front,
}
use zed_api_server_rs.StorageReport.{
  StorageProvider, cloudflare_r2, amazon_s3, google_cloud_storage, backblaze_b2,
  digital_ocean_spaces, minio, s3_compatible, suffix_matches, vendor, classify_object_store,
  host_of,
}

-- A host is a domain or a name below it.
abbrev pub InDomain : Str → Str → Type 0
InDomain host domain = (host ≡ domain) ⊎ ((front : Str) × (host ≡ front ++ b'.' ∷ domain))

abbrev pub BeginsWith : Str → Str → Type 0
BeginsWith host p = (r : Str) × (host ≡ p ++ r)

suffix_matches_iff :
    (host suffix : Str) → (suffix_matches host suffix ≡ true) ↔ InDomain host suffix
unfolding suffix_matches
suffix_matches_iff host suffix = (matched, matches)
  where
    matched : (str_eq host suffix || ends_with host (b'.' ∷ suffix)) ≡ true → InDomain host suffix
    matched h = elim (Bool-cases (str_eq host suffix)) [
      | inl exact ↦ inl ((str_eq_iff host suffix).0 exact)
      | inr other ↦ inr (ends_with_parts host (b'.' ∷ suffix) (rw other at h))
    ]

    matches : InDomain host suffix → (str_eq host suffix || ends_with host (b'.' ∷ suffix)) ≡ true
    matches (inl e) = rw ((str_eq_iff host suffix).1 e)
    matches (inr (front, e)) = rw (e, ends_with-append front (b'.' ∷ suffix)) (ground arith)

starts_with_iff : (host p : Str) → (starts_with host p ≡ true) ↔ BeginsWith host p
starts_with_iff host p = (starts_with_parts host p, λ h. rw h.1 (starts_with-append_front p h.0))

-- The names of a MinIO server.
abbrev pub IsMinio : Str → Type 0
IsMinio host =
    (host ≡ str "minio") ⊎ (InDomain host (str "min.io") ⊎ BeginsWith host (str "minio."))

-- What the name of a vendor says of the host.
abbrev pub Describes : StorageProvider → Str → Type 0
Describes cloudflare_r2 host = InDomain host (str "r2.cloudflarestorage.com")
Describes google_cloud_storage host = InDomain host (str "storage.googleapis.com")
Describes amazon_s3 host = InDomain host (str "amazonaws.com")
Describes backblaze_b2 host = InDomain host (str "backblazeb2.com")
Describes digital_ocean_spaces host = InDomain host (str "digitaloceanspaces.com")
Describes minio host = IsMinio host
Describes s3_compatible host =
    ¬ InDomain host (str "r2.cloudflarestorage.com")
    × ¬ InDomain host (str "storage.googleapis.com")
    × ¬ InDomain host (str "amazonaws.com")
    × ¬ InDomain host (str "backblazeb2.com")
    × ¬ InDomain host (str "digitaloceanspaces.com")
    × ¬ IsMinio host
Describes _ host = ⊥

IsMinio-iff :
    (host : Str)
    → ((str_eq host (str "minio")
          || suffix_matches host (str "min.io")
          || starts_with host (str "minio."))
        ≡ true)
      ↔ IsMinio host
IsMinio-iff host = ground (
  arith,
  str_eq_iff host (str "minio"),
  suffix_matches_iff host (str "min.io"),
  starts_with_iff host (str "minio."),
)

refuted : {A : Type 0} (b : Bool) → ((b ≡ true) ↔ A) → b ≡ false → ¬ A
refuted b iff h a = cc (iff.1 a, h)

vendor-Describes : (host : Str) → Describes (vendor host) host
unfolding vendor
vendor-Describes host = elim (Bool-cases (suffix_matches host (str "r2.cloudflarestorage.com"))) [
  | inl a ↦ rw a ((suffix_matches_iff host (str "r2.cloudflarestorage.com")).0 a)
  | inr a ↦ elim (Bool-cases (suffix_matches host (str "storage.googleapis.com"))) [
    | inl b ↦ rw (a, b) ((suffix_matches_iff host (str "storage.googleapis.com")).0 b)
    | inr b ↦ elim (Bool-cases (suffix_matches host (str "amazonaws.com"))) [
      | inl c ↦ rw (a, b, c) ((suffix_matches_iff host (str "amazonaws.com")).0 c)
      | inr c ↦ elim (Bool-cases (suffix_matches host (str "backblazeb2.com"))) [
        | inl d ↦ rw (a, b, c, d) ((suffix_matches_iff host (str "backblazeb2.com")).0 d)
        | inr d ↦ elim (Bool-cases (suffix_matches host (str "digitaloceanspaces.com"))) [
          | inl e ↦
              rw (a, b, c, d, e) ((suffix_matches_iff host (str "digitaloceanspaces.com")).0 e)
          | inr e ↦
              elim (Bool-cases (
                str_eq host (str "minio")
                || suffix_matches host (str "min.io")
                || starts_with host (str "minio."))) [
                  | inl f ↦ rw (a, b, c, d, e, f) ((IsMinio-iff host).0 f)
                  | inr f ↦
                      rw (a, b, c, d, e, f)
                        (
                          refuted _ (suffix_matches_iff host (str "r2.cloudflarestorage.com")) a,
                          refuted _ (suffix_matches_iff host (str "storage.googleapis.com")) b,
                          refuted _ (suffix_matches_iff host (str "amazonaws.com")) c,
                          refuted _ (suffix_matches_iff host (str "backblazeb2.com")) d,
                          refuted _ (suffix_matches_iff host (str "digitaloceanspaces.com")) e,
                          refuted _ (IsMinio-iff host) f,
                        )
                ]
        ]
      ]
    ]
  ]
]

classify_lem :
    (endpoint : Option Str)
    → classify_object_store endpoint
      ≡ (elim (host_of endpoint) [ none ↦ amazon_s3 | some host ↦ vendor host ])
unfolding classify_object_store
classify_lem endpoint = refl

-- The vendor that is named is right. Without an endpoint, or without a host in it, it is Amazon S3;
-- otherwise a vendor is named only if the host is that vendor's domain or a name below it, at the
-- border of a label, and no vendor is named only if the host is in none of the known domains.
pub classify_object_store-Describes :
    (endpoint : Option Str)
    → ((host_of endpoint ≡ none) × (classify_object_store endpoint ≡ amazon_s3))
      ⊎ ((host : Str) × (host_of endpoint ≡ some host)
          × Describes (classify_object_store endpoint) host)
classify_object_store-Describes endpoint = elim (Option-cases (host_of endpoint)) [
  | inl missing ↦ inl (missing, rw (classify_lem endpoint, missing))
  | inr (host, e) ↦ inr (host, e, rw (classify_lem endpoint, e) (vendor-Describes host))
]
