-- ===== src/RegistryHost/Segments.antt =====
-- The names in the URLs of src/registry_host.rs: none is empty or holds a slash.
use zed_api_server_rs.Prelude.{
  ◌≡◌, refl, ◌≢◌, inl, inr, true, List, [], ◌∷◌, ◌++◌, arith, ◌==◌, all, All, Option-cases, subst,
}
use zed_api_server_rs.Text.{
  Str, str, bytes, split, strip_prefix, is_ascii_digit, is_ascii_lowercase, is_ascii_alphanumeric,
  len,
}
use zed_api_server_rs.Text.Search.{Lacks, strip_prefix_sound}
use zed_api_server_rs.Text.Bytes.{bytes-Lacks}
use zed_api_server_rs.Text.Split.{join-split, Lacks-join}
use zed_api_server_rs.RegistryHost.{
  slug, slug_part, slug_byte, version_byte, hex_byte, version_segment, sha256, resolution_digest,
  file_segment,
}
use zed_api_server_rs.RegistryHost.Surface.{
  Route, healthz, list_packages, search, semantic_search, claim_org, get_package, embedding,
  version, yank, declared_graph, declared_graph_export, artifact, resolution_graph, audit,
  audit_verify, files, url, IsValid,
}

abbrev pub IsProper : Str → Type 0
IsProper s = (s ≢ []) × Lacks b'/' s

-- The separator of the parts is a hyphen, and no part holds a slash.
parts-Lacks : (parts : List Str) → all slug_part parts ≡ true → All (Lacks b'/') parts
unfolding is_ascii_lowercase is_ascii_digit
parts-Lacks [] h = tt
parts-Lacks (part ∷ parts) h =
    let passed : all slug_byte (bytes part) ≡ true = ground arith in
    (bytes-Lacks slug_byte b'/' (omega arith) refl part passed, parts-Lacks parts (ground arith))

parts_of_slug : (s : Str) → slug s ≡ true → all slug_part (split (λ c. c == b'-') s) ≡ true
parts_of_slug s h = unfold slug in ground arith

slug-IsProper : (s : Str) → slug s ≡ true → IsProper s
unfolding slug
slug-IsProper [] h = cc
slug-IsProper (c ∷ s) h = (
  (λ e. cc),
  subst (Lacks b'/') (join-split b'-' (c ∷ s)) (
      Lacks-join b'/' b'-' (split (λ x. x == b'-') (c ∷ s)) (λ e. omega arith)
        (parts-Lacks (split (λ x. x == b'-') (c ∷ s)) (parts_of_slug (c ∷ s) h))),
)

bytes_of_version : (s : Str) → version_segment s ≡ true → all version_byte (bytes s) ≡ true
unfolding version_segment
bytes_of_version s h = ground arith

version-IsProper : (s : Str) → version_segment s ≡ true → IsProper s
unfolding version_segment is_ascii_alphanumeric
version-IsProper [] h = cc
version-IsProper (c ∷ s) h = (
  (λ e. cc),
  bytes-Lacks version_byte b'/' (omega arith) refl (c ∷ s) (bytes_of_version (c ∷ s) h),
)

bytes_of_sha256 : (s : Str) → sha256 s ≡ true → all hex_byte (bytes s) ≡ true
bytes_of_sha256 s h = unfold sha256 in ground arith

sha256-IsProper : (s : Str) → sha256 s ≡ true → IsProper s
unfolding sha256 is_ascii_digit len
sha256-IsProper [] h = cc
sha256-IsProper (c ∷ s) h =
    ((λ e. cc), bytes-Lacks hex_byte b'/' (omega arith) refl (c ∷ s) (bytes_of_sha256 (c ∷ s) h))

prefix-IsProper : (hex : Str) → IsProper hex → IsProper (str "sha256:" ++ hex)
unfolding str
prefix-IsProper hex (_, h) = ground arith

digest-IsProper : (s : Str) → resolution_digest s ≡ true → IsProper s
unfolding resolution_digest
digest-IsProper s h = elim (Option-cases (strip_prefix s (str "sha256:"))) [
  | inl missing ↦ cc (rw missing at h)
  | inr (hex, e) ↦
      rw (strip_prefix_sound s (str "sha256:") e)
        (prefix-IsProper hex (sha256-IsProper hex (rw e at h)))
]

-- The names in a route's URL are not empty and hold no slash; of a file's path this is asked.
abbrev pub IsPlain : Route → Type 0
IsPlain (files _ _ _ path) = All (Lacks b'/') path
IsPlain _ = Unit

file-ne-nil : (s : Str) → file_segment s ≡ true → s ≢ []
unfolding file_segment
file-ne-nil [] h = cc
file-ne-nil (c ∷ s) h = λ e. cc

path-IsProper :
    (path : List Str)
    → All (λ s. file_segment s ≡ true) path
    → All (Lacks b'/') path
    → All IsProper path
path-IsProper [] h k = tt
path-IsProper (s ∷ path) (p, h) (q, k) = ((file-ne-nil s p, q), path-IsProper path h k)

pub url-IsProper : (r : Route) → IsValid r → IsPlain r → All IsProper (url r)
unfolding str
url-IsProper healthz h k = ground arith
url-IsProper list_packages h k = ground arith
url-IsProper search h k = ground arith
url-IsProper semantic_search h k = ground arith
url-IsProper claim_org h k = ground arith
url-IsProper (get_package o p) (ho, hp) k = ground (arith, slug-IsProper o ho, slug-IsProper p hp)
url-IsProper (embedding o p) (ho, hp) k = ground (arith, slug-IsProper o ho, slug-IsProper p hp)
url-IsProper (version o p v) (ho, hp, hv) k =
    ground (arith, slug-IsProper o ho, slug-IsProper p hp, version-IsProper v hv)
url-IsProper (yank o p v) (ho, hp, hv) k =
    ground (arith, slug-IsProper o ho, slug-IsProper p hp, version-IsProper v hv)
url-IsProper (declared_graph o p v) (ho, hp, hv) k =
    ground (arith, slug-IsProper o ho, slug-IsProper p hp, version-IsProper v hv)
url-IsProper (declared_graph_export o p v x) ((ho, hp, hv), hx) k =
    ground
      (arith, slug-IsProper o ho, slug-IsProper p hp, version-IsProper v hv, slug-IsProper x hx)
url-IsProper (artifact d) h k = ground (arith, sha256-IsProper d h)
url-IsProper (resolution_graph d) h k = ground (arith, digest-IsProper d h)
url-IsProper (audit o) h k = ground (arith, slug-IsProper o h)
url-IsProper (audit_verify o) h k = ground (arith, slug-IsProper o h)
url-IsProper (files o p v path) ((ho, hp, hv), left, passed) k = ground (
  arith,
  slug-IsProper o ho,
  slug-IsProper p hp,
  version-IsProper v hv,
  path-IsProper path passed k,
)
