-- ===== src/StorageReport/Endpoint.antt =====
-- What src/storage_report.rs takes out of an endpoint: the host, and nothing of the credentials.
use zed_api_server_rs.Prelude.{
  ℕ, ◌≡◌, ◌≢◌, refl, sym, ap, ◌∙◌, inl, inr, true, false, none, some, [], ◌∷◌, arith, ◌==◌,
  Bool-cases, ◌++◌, All, All-append, Option-cases, subst,
}
use zed_api_server_rs.Text.{
  Str, str, strip_prefix, split_once, trim, to_ascii_lowercase, lower, is_ascii_uppercase,
}
use zed_api_server_rs.Text.Search.{
  Lacks, split_once_char-none, split_once_char_lem, rsplit_once_char_lem, rsplit_once_char-none,
}
use zed_api_server_rs.Text.Trim.{All-trim}
use zed_api_server_rs.Text.Parts.{
  All-first_part, first_part_cut, first_part-All, All-before, All-strip_prefix, All-behind,
}
use zed_api_server_rs.StorageReport.{
  endpoint_host, non_empty, raw_host, without_port, after_userinfo, authority_of, after_scheme,
  is_delimiter,
}

endpoint_host_lem :
    (endpoint : Str)
    → endpoint_host endpoint ≡ non_empty (to_ascii_lowercase (trim (raw_host endpoint)))
unfolding endpoint_host
endpoint_host_lem endpoint = refl

-- A character that can stand in an authority behind its credentials.
abbrev pub IsHostChar : ℕ → Type 0
IsHostChar c = (is_delimiter c ≡ false) × (c ≢ b'@')

raw_host-IsHostChar : (endpoint : Str) → All IsHostChar (raw_host endpoint)
raw_host-IsHostChar endpoint =
    let authority = authority_of (after_scheme endpoint) in
    All-without_port (after_userinfo authority) (
      All-behind (λ c. is_delimiter c ≡ false) authority b'@'
        (All-first_part is_delimiter (after_scheme endpoint)))
  where
    All-without_port : (s : Str) → All IsHostChar s → All IsHostChar (without_port s)
    All-without_port s h = elim (Option-cases (strip_prefix s (str "["))) [
      | inl missing ↦ rw (missing, without_port) (All-before IsHostChar s b':' h)
      | inr (inner, e) ↦
          rw (e, without_port)
            (All-before IsHostChar inner b']' (All-strip_prefix IsHostChar s (str "[") e h))
    ]

-- A character of a host as the console shows it.
abbrev pub IsShown : ℕ → Type 0
IsShown c = (is_delimiter c ≡ false) × (c ≢ b'@') × (is_ascii_uppercase c ≡ false)

lower-IsShown : (c : ℕ) → IsHostChar c → IsShown (lower c)
unfolding lower is_ascii_uppercase
lower-IsShown c (h, k) = ground arith

All-lower : (s : Str) → All IsHostChar s → All IsShown (to_ascii_lowercase s)
unfolding to_ascii_lowercase
All-lower [] h = tt
All-lower (c ∷ s) (k, h) = (lower-IsShown c k, All-lower s h)

non_empty-some : (s h : Str) → non_empty s ≡ some h → (h ≡ s) × (h ≢ [])
non_empty-some [] h e = cc
non_empty-some (c ∷ s) h e = (cc, λ k. cc (e, k))

-- A host taken from an endpoint is never empty, is in lower case, and has no `@`, `/`, `?` or `#`.
pub endpoint_host-IsShown :
    (endpoint host : Str) → endpoint_host endpoint ≡ some host → (host ≢ []) × All IsShown host
endpoint_host-IsShown endpoint host h =
    let (e, ne) =
      non_empty-some (to_ascii_lowercase (trim (raw_host endpoint))) host
        (sym (endpoint_host_lem endpoint) ∙ h) in
    (
      ne,
      subst (λ s. All IsShown s) (sym e)
          (All-lower (trim (raw_host endpoint))
            (All-trim IsHostChar (raw_host endpoint) (raw_host-IsHostChar endpoint))),
    )

apart : (c d : ℕ) → c ≢ d → (c == d) ≡ false
apart c d h = ground arith

-- The separator of the scheme does not occur where there is no colon.
no_scheme : (s : Str) → Lacks b':' s → split_once s (str "://") ≡ none
unfolding split_once strip_prefix str
no_scheme [] h = refl
no_scheme (c ∷ s) (k, h) = rw (apart c b':' k, no_scheme s h, split_once)

cut_scheme :
    (scheme s : Str)
    → Lacks b':' scheme
    → split_once (scheme ++ str "://" ++ s) (str "://") ≡ some (scheme, s)
unfolding split_once strip_prefix str
cut_scheme [] s h = refl
cut_scheme (c ∷ scheme) s (k, h) = rw (apart c b':' k, cut_scheme scheme s h, split_once)

abbrev pub IsAuthority : Str → Type 0
IsAuthority s = All (λ c. is_delimiter c ≡ false) s

-- A host by name: not an IPv6 literal, and without a port.
abbrev pub IsHostName : Str → Type 0
IsHostName s = IsAuthority s × Lacks b'@' s × Lacks b':' s × (strip_prefix s (str "[") ≡ none)

raw_host_of :
    (endpoint scheme_less authority host_and_port host : Str)
    → after_scheme endpoint ≡ scheme_less
    → authority_of scheme_less ≡ authority
    → after_userinfo authority ≡ host_and_port
    → without_port host_and_port ≡ host
    → raw_host endpoint ≡ host
raw_host_of endpoint scheme_less authority host_and_port host e₁ e₂ e₃ e₄ =
    ap (λ s. without_port (after_userinfo (authority_of s))) e₁
    ∙ ap (λ s. without_port (after_userinfo s)) e₂
    ∙ ap without_port e₃
    ∙ e₄

without_port_name : (host : Str) → IsHostName host → without_port host ≡ host
without_port_name host (plain, no_at, no_colon, no_bracket) =
    rw (no_bracket, without_port, split_once_char-none host b':' no_colon)

not_bracketed :
    (host port : Str)
    → strip_prefix host (str "[") ≡ none
    → strip_prefix (host ++ b':' ∷ port) (str "[") ≡ none
unfolding strip_prefix str
not_bracketed [] port h = refl
not_bracketed (c ∷ host) port h = elim (Bool-cases (c == b'[')) [
  | inl bracket ↦ cc (rw bracket at h)
  | inr other ↦ rw other
]

without_port_port : (host port : Str) → IsHostName host → without_port (host ++ b':' ∷ port) ≡ host
without_port_port host port (plain, no_at, no_colon, no_bracket) =
    rw (
      not_bracketed host port no_bracket,
      without_port,
      split_once_char_lem host port b':' no_colon,
    )

raw_host_name : (host : Str) → IsHostName host → raw_host host ≡ host
raw_host_name host (plain, no_at, no_colon, no_bracket) =
    raw_host_of host host host host host (rw (no_scheme host no_colon))
      (first_part-All is_delimiter host plain) (rw (rsplit_once_char-none host b'@' no_at))
      (without_port_name host (plain, no_at, no_colon, no_bracket))

endpoint_host_of : (e f : Str) → raw_host e ≡ raw_host f → endpoint_host e ≡ endpoint_host f
endpoint_host_of e f same =
    endpoint_host_lem e
    ∙ ap (λ s. non_empty (to_ascii_lowercase (trim s))) same
    ∙ sym (endpoint_host_lem f)

Lacks-at : (host port : Str) → Lacks b'@' host → Lacks b'@' port → Lacks b'@' (host ++ b':' ∷ port)
Lacks-at host port h k = All-append (λ c. c ≢ b'@') host (b':' ∷ port) h (omega arith, k)

-- In an endpoint with a scheme, credentials, a host by name, a port, and a path, query or fragment,
-- the host that is found is the one found for the host alone: whatever the scheme without a colon,
-- whatever the credentials (they may hold an `@`, but no `/`, `?` or `#`), whatever the port, and
-- whatever follows.
pub endpoint_host-hidden :
    (scheme userinfo host port tail : Str) (d : ℕ)
    → Lacks b':' scheme
    → IsAuthority userinfo
    → IsHostName host
    → IsAuthority port
    → Lacks b'@' port
    → is_delimiter d ≡ true
    → endpoint_host
        (scheme ++ str "://" ++ ((userinfo ++ b'@' ∷ (host ++ b':' ∷ port)) ++ d ∷ tail))
      ≡ endpoint_host host
endpoint_host-hidden scheme userinfo host port tail d ls au (ah, no_at, no_colon, no_bracket)
      port_plain port_at ed =
    let host_and_port = host ++ b':' ∷ port in
    let authority = userinfo ++ b'@' ∷ host_and_port in
    let endpoint = scheme ++ str "://" ++ (authority ++ d ∷ tail) in
    let plain =
      All-append (λ c. is_delimiter c ≡ false) userinfo (b'@' ∷ host_and_port) au
        (refl, All-append (λ c. is_delimiter c ≡ false) host (b':' ∷ port) ah (refl, port_plain)) in
    let name : IsHostName host = (ah, no_at, no_colon, no_bracket) in
    endpoint_host_of endpoint host (
      raw_host_of endpoint (authority ++ d ∷ tail) authority host_and_port host
        (rw (cut_scheme scheme (authority ++ d ∷ tail) ls))
        (first_part_cut is_delimiter authority tail d plain ed)
        (rw (rsplit_once_char_lem userinfo host_and_port b'@' (Lacks-at host port no_at port_at)))
        (without_port_port host port name)
      ∙ sym (raw_host_name host name))
