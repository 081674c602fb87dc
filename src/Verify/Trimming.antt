-- ===== src/Verify/Trimming.antt =====
-- The fuel of `trim_end_matches_str`, the loop in `trim_end_matches(".git")` of src/verify.rs.
use zed_api_server_rs.Prelude.{
  ℕ, zero, suc, ◌≤◌, ◌+◌, none, some, [], ◌∷◌, ◌++◌, length, ◌≡◌, refl, ap, inl, inr, Option-cases,
  arith, length-append,
}
use zed_api_server_rs.Text.{Str, strip_prefix}
use zed_api_server_rs.Text.Search.{strip_prefix_sound}
use zed_api_server_rs.Verify.{strip_front}

strip_front_lem :
    (fuel : ℕ) (p s : Str)
    → strip_front (suc fuel) p s
      ≡ (elim (strip_prefix s p) [ none ↦ s | some r ↦ strip_front fuel p r ])
unfolding strip_front
strip_front_lem fuel p s = refl

shorter :
    (c : ℕ) (p s r : Str) (fuel : ℕ)
    → strip_prefix s (c ∷ p) ≡ some r
    → length s ≤ suc fuel
    → length r ≤ fuel
shorter c p s r fuel e bound =
    let parts : length s ≡ length ((c ∷ p) ++ r) = ap length (strip_prefix_sound s (c ∷ p) e) in
    let sizes : length ((c ∷ p) ++ r) ≡ length (c ∷ p) + length r = length-append (c ∷ p) r in
    omega arith

-- With a round per character, nothing is left to strip.
strip_front-stops :
    (fuel c : ℕ) (p s : Str)
    → length s ≤ fuel
    → strip_prefix (strip_front fuel (c ∷ p) s) (c ∷ p) ≡ none
unfolding strip_front strip_prefix
strip_front-stops zero c p [] bound = refl
strip_front-stops zero c p (x ∷ s) bound = ground arith
strip_front-stops (suc fuel) c p s bound = elim (Option-cases (strip_prefix s (c ∷ p))) [
  | inl e ↦ rw (strip_front_lem fuel (c ∷ p) s, e) e
  | inr (r, e) ↦
      rw (strip_front_lem fuel (c ∷ p) s, e)
        (strip_front-stops fuel c p r (shorter c p s r fuel e bound))
]
