-- ===== src/RegistryHost/Hosts.antt =====
-- Which Hosts of src/registry_host.rs are the registry.
use zed_api_server_rs.Prelude.{
  ℕ, ◌≡◌, refl, sym, ◌∙◌, ◌⊎◌, inl, inr, true, false, ◌&&◌, ◌||◌, [], ◌∷◌, ◌++◌, arith,
  if◌then◌else◌, ◌==◌, all, Bool-cases, &&_parts,
}
use zed_api_server_rs.Text.{
  Str, str, str_eq, bytes, starts_with, ends_with, is_ascii_digit, rsplit_once_char,
  trim_end_matches,
}
use zed_api_server_rs.Text.Equality.{str_eq_iff}
use zed_api_server_rs.Text.Bytes.{bytes-Lacks}
use zed_api_server_rs.Text.Search.{
  Lacks, rsplit_once_char_lem, rsplit_once_char-none, starts_with_parts, ends_with_parts,
}
use zed_api_server_rs.RegistryHost.{strip_port, without_port, is_registry_host}

strip_port_lem :
    (host : Str)
    → strip_port host ≡ (
        if starts_with host (str "[") then host else without_port host (rsplit_once_char host b':'))
unfolding strip_port
strip_port_lem host = refl

abbrev NotBracketed : Str → Type 0
NotBracketed host = starts_with host (str "[") ≡ false

NotBracketed-append :
    (host tail : Str) (c : ℕ) → NotBracketed (host ++ c ∷ tail) → NotBracketed host
unfolding starts_with str
NotBracketed-append [] tail c h = refl
NotBracketed-append (x ∷ host) tail c h = ground arith

strip_port-port :
    (host port : Str)
    → NotBracketed (host ++ b':' ∷ port)
    → all is_ascii_digit (bytes port) ≡ true
    → strip_port (host ++ b':' ∷ port) ≡ host
unfolding is_ascii_digit
strip_port-port host port plain digits = rw (
  strip_port_lem (host ++ b':' ∷ port),
  plain,
  rsplit_once_char_lem host port b':'
      (bytes-Lacks is_ascii_digit b':' (omega arith) refl port digits),
  digits,
)

strip_port_plain : (host : Str) → NotBracketed host → Lacks b':' host → strip_port host ≡ host
strip_port_plain host plain h = rw (strip_port_lem host, plain, rsplit_once_char-none host b':' h)

-- The name of a host: what is left of it without port and without dots at its end.
abbrev pub host_name : Str → Str
host_name raw = trim_end_matches (λ c. c == b'.') (strip_port raw)

is_registry_host_lem :
    (raw : Str)
    → is_registry_host raw ≡ (
        str_eq (host_name raw) (str "registry.zpkg.net")
        || starts_with (host_name raw) (str "registry.")
          && ends_with (host_name raw) (str ".zpkg.net"))
unfolding is_registry_host
is_registry_host_lem raw = refl

is_registry_host_of :
    (h k : Str) → strip_port h ≡ strip_port k → is_registry_host h ≡ is_registry_host k
is_registry_host_of h k e = rw (is_registry_host_lem h, is_registry_host_lem k, e)

-- A port does not change which host it is: for a host that is no IPv6 literal and has no colon, the
-- host with any port of digits is the registry exactly when the host is.
pub is_registry_host-port :
    (host port : Str)
    → NotBracketed (host ++ b':' ∷ port)
    → Lacks b':' host
    → all is_ascii_digit (bytes port) ≡ true
    → is_registry_host (host ++ b':' ∷ port) ≡ is_registry_host host
is_registry_host-port host port plain no_colon digits =
    is_registry_host_of (host ++ b':' ∷ port) host (
      strip_port-port host port plain digits
      ∙ sym (strip_port_plain host (NotBracketed-append host port b':' plain) no_colon))

-- A host taken for the registry has a name under zpkg.net that begins with the label `registry`.
pub is_registry_host_sound :
    (raw : Str)
    → is_registry_host raw ≡ true
    → (host_name raw ≡ str "registry.zpkg.net")
      ⊎ ((middle : Str) × (front : Str) × (host_name raw ≡ str "registry." ++ middle)
          × (host_name raw ≡ front ++ str ".zpkg.net"))
is_registry_host_sound raw h =
    elim (Bool-cases (str_eq (host_name raw) (str "registry.zpkg.net"))) [
      | inl exact ↦ inl ((str_eq_iff _ _).0 exact)
      | inr other ↦ inr (
          let both : (starts_with (host_name raw) (str "registry.")
                && ends_with (host_name raw) (str ".zpkg.net"))
              ≡ true =
            ground (arith, is_registry_host_lem raw) in
          let (starts, ends) =
            &&_parts (starts_with (host_name raw) (str "registry."))
              (ends_with (host_name raw) (str ".zpkg.net")) both in
          let (middle, e) = starts_with_parts (host_name raw) (str "registry.") starts in
          let (front, d) = ends_with_parts (host_name raw) (str ".zpkg.net") ends in
          (middle, front, e, d))
    ]
