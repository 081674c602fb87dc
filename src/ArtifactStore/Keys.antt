-- ===== src/ArtifactStore/Keys.antt =====
-- src/storage.rs: the keys that artifacts are stored under.
use zed_api_server_rs.Prelude.{
  Bool, not, ◌&&◌, Option, none, some, List, [], ◌∷◌, ◌++◌, if◌then◌else◌, ◌==◌, all, any, is_empty,
}
use zed_api_server_rs.Text.{Str, str, str_eq, split}
use zed_api_server_rs.Verify.{parse_github}

unfoldable pub artifact_key : Str → Str → Str
unfolding str
artifact_key sha256 extension = str "artifacts/" ++ sha256 ++ str "." ++ extension

abbrev pub safe_segment : Str → Bool
safe_segment segment =
    not (is_empty segment) && (not (str_eq segment (str ".")) && not (str_eq segment (str "..")))

unfoldable pub safe_r2_segments : List Str → Bool
unfolding split str_eq str
safe_r2_segments parts =
    all
      (λ part.
        not (is_empty part)
        && (not (any (λ c. c == 0) part)
            && (not (any (λ c. c == b'\\') part)
                && all safe_segment (split (λ c. c == b'/') part))))
      parts

abbrev pub or_names : Option (Str × Str) → Str → Str → Str × Str
or_names none org name = (org, name)
or_names (some found) org name = found

unfoldable pub guessable_alias_keys : Str → Str → Str → Str → Str → Str → List Str
unfolding safe_r2_segments parse_github str
guessable_alias_keys org name version vcs_tag extension repo_url =
    let (owner, repo) = or_names (parse_github repo_url) org name in
    let file_name = name ++ str "-" ++ version ++ str "." ++ extension in
    (if safe_r2_segments (owner ∷ repo ∷ vcs_tag ∷ name ∷ version ∷ extension ∷ [])
      then (str "github/" ++ owner ++ str "/" ++ repo ++ str "/" ++ vcs_tag ++ str "/" ++ file_name)
        ∷ []
      else [])
    ++ (if safe_r2_segments (org ∷ name ∷ version ∷ extension ∷ [])
        then (str "packages/"
            ++ org
            ++ str "/"
            ++ name
            ++ str "/"
            ++ version
            ++ str "/"
            ++ file_name)
          ∷ []
        else [])
