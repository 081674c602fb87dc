-- ===== src/Text/Bytes.antt =====
-- Tests on the bytes of a text, read as tests on its characters.
use zed_api_server_rs.Prelude.{
  ℕ, ◌≡◌, refl, subst, Bool, true, false, List, [], ◌∷◌, ◌++◌, arith, ◌<◌, lt→ltb, all, &&_parts,
}
use zed_api_server_rs.Text.{Str, bytes, utf8_char}
use zed_api_server_rs.Text.Search.{Lacks}

all-append :
    (p : ℕ → Bool) (xs ys : List ℕ)
    → all p (xs ++ ys) ≡ true
    → (all p xs ≡ true) × (all p ys ≡ true)
all-append p [] ys h = (refl, h)
all-append p (x ∷ xs) ys h = ground (arith, all-append p xs ys)

pub utf8_char_ascii : (c : ℕ) → c < 128 → utf8_char c ≡ c ∷ []
unfolding utf8_char
utf8_char_ascii c h = rw (lt→ltb c 128 h)

all-utf8_char : (p : ℕ → Bool) (d : ℕ) → d < 128 → all p (utf8_char d) ≡ true → p d ≡ true
all-utf8_char p d h k = (&&_parts _ _ (rw (utf8_char_ascii d h) at k)).0

-- A test on bytes that fails at the ASCII byte `d` keeps `d` out of the text.
pub bytes-Lacks :
    (p : ℕ → Bool) (d : ℕ) → d < 128 → p d ≡ false → (s : Str) → all p (bytes s) ≡ true → Lacks d s
unfolding bytes
bytes-Lacks p d small fails [] h = tt
bytes-Lacks p d small fails (c ∷ s) h =
    let (now, later) = all-append p (utf8_char c) (bytes s) h in
    (
      λ e. cc (all-utf8_char p d small (subst (λ x. all p (utf8_char x) ≡ true) e now), fails),
      bytes-Lacks p d small fails s later,
    )
