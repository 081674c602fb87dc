-- ===== src/Publish/Form.antt =====
-- src/routes/publish.rs: the forms that `read_multipart` reads.
use zed_api_server_rs.Prelude.{
  Bool, true, false, Option, none, some, List, [], ◌∷◌, if◌then◌else◌, ◌⊎◌, inl, inr, ◌≡◌, refl,
  sym, ap, ◌∙◌, subst,
}
use zed_api_server_rs.Text.{Str, str, str_eq}
use zed_api_server_rs.Text.Equality.{str_eq_iff}
use zed_api_server_rs.Access.{ApiErr, ApiResult, ok, err, ◌>>=◌, bad_request}
use zed_api_server_rs.Yank.Lookups.{bind_ok, ok-inj}
use zed_api_server_rs.ArtifactStore.{Blob}
use zed_api_server_rs.Publish.{PublishMeta, Part, broken, field}
use zed_api_server_rs.Publish.Multipart.{
  Fields, duplicate, take_meta, take_artifact, take_part, take_parts, both_fields, read_multipart,
}

module _ (meta_field artifact_field : Str) (parse_meta : Str → Str ⊎ PublishMeta) where
  -- A field of the metadata, whose text says what it says.
  abbrev pub IsMeta : Part → PublishMeta → Type 0
  IsMeta part meta =
      (text : Str) × (content : Str ⊎ Blob) × (part ≡ field (some meta_field) (inr text) content)
      × (parse_meta text ≡ inr meta)

  -- A field of the artifact, with its bytes.
  abbrev pub IsArtifact : Part → Blob → Type 0
  IsArtifact part blob = (text : Str ⊎ Str) × (part ≡ field (some artifact_field) text (inr blob))

  -- A form is these two fields, in either order, and nothing else.
  abbrev pub IsForm : List Part → PublishMeta → Blob → Type 0
  IsForm parts meta blob =
      (m : Part) × (a : Part) × IsMeta m meta
      × IsArtifact a blob
      × ((parts ≡ m ∷ a ∷ []) ⊎ (parts ≡ a ∷ m ∷ []))

  failed_ok : {A B : Type 0} {e : ApiErr} {a : A} → ◌≡◌ {A = ApiResult A} (err e) (ok a) → B
  failed_ok h = cc

  -- What a part that is taken was, and what it changed.
  abbrev Taken : Fields → Part → Fields → Type 0
  Taken fields part more =
      ((meta : PublishMeta) × IsMeta part meta
        × (fields.meta ≡ none)
        × (more ≡ record fields { meta = some meta }))
      ⊎ ((blob : Blob) × IsArtifact part blob
          × (fields.artifact ≡ none)
          × (more ≡ record fields { artifact = some blob }))

  duplicate_err : (name : Str) → (e : ApiErr) × (duplicate name ≡ err e)
  unfolding duplicate
  duplicate_err name = (_, refl)

  parsed :
      (fields : Fields) (p : Str ⊎ PublishMeta) (more : Fields)
      → (elim p [
        | inl e ↦ err (bad_request (str "invalid_meta") e)
        | inr meta ↦ ok (record fields { meta = some meta })
      ])
        ≡ ok more
      → (meta : PublishMeta) × (p ≡ inr meta) × (more ≡ record fields { meta = some meta })
  parsed fields (inl e) more h = failed_ok h
  parsed fields (inr meta) more h = (meta, refl, sym (ok-inj h))

  not_duplicate : {B : Type 0} (name : Str) (more : Fields) → duplicate name ≡ ok more → B
  not_duplicate name more h = let (e, d) = duplicate_err name in failed_ok (sym d ∙ h)

  meta-Taken :
      (fields : Fields) (o : Option PublishMeta) (text : Str ⊎ Str) (content : Str ⊎ Blob)
      (more : Fields)
      → fields.meta ≡ o
      → (elim o [
        | some meta ↦ duplicate meta_field
        | none ↦ elim text [
          | inl e ↦ err (bad_request (str "invalid_meta") e)
          | inr t ↦ elim (parse_meta t) [
            | inl e ↦ err (bad_request (str "invalid_meta") e)
            | inr meta ↦ ok (record fields { meta = some meta })
          ]
        ]
      ])
        ≡ ok more
      → Taken fields (field (some meta_field) text content) more
  meta-Taken fields (some old) text content more e h = not_duplicate meta_field more h
  meta-Taken fields none (inl message) content more e h = failed_ok h
  meta-Taken fields none (inr t) content more e h =
      let (meta, read, same) = parsed fields (parse_meta t) more h in
      inl (meta, (t, content, refl, read), e, same)

  artifact-Taken :
      (fields : Fields) (o : Option Blob) (text : Str ⊎ Str) (content : Str ⊎ Blob) (more : Fields)
      → fields.artifact ≡ o
      → (elim o [
        | some artifact ↦ duplicate artifact_field
        | none ↦ elim content [
          | inl e ↦ err (bad_request (str "invalid_artifact") e)
          | inr blob ↦ ok (record fields { artifact = some blob })
        ]
      ])
        ≡ ok more
      → Taken fields (field (some artifact_field) text content) more
  artifact-Taken fields (some old) text content more e h = not_duplicate artifact_field more h
  artifact-Taken fields none text (inl message) more e h = failed_ok h
  artifact-Taken fields none text (inr blob) more e h = inr (blob, (text, refl), e, sym (ok-inj h))

  named-Taken :
      (fields : Fields) (name : Str) (text : Str ⊎ Str) (content : Str ⊎ Blob) (more : Fields)
      (meta artifact : Bool) (unexpected : ApiErr)
      → str_eq name meta_field ≡ meta
      → str_eq name artifact_field ≡ artifact
      → (if meta
          then take_meta meta_field artifact_field parse_meta fields text
          else if artifact
          then take_artifact meta_field artifact_field parse_meta fields content
          else err unexpected)
        ≡ ok more
      → Taken fields (field (some name) text content) more
  unfolding take_meta take_artifact
  named-Taken fields name text content more true artifact unexpected e f h =
      subst (λ n. Taken fields (field (some n) text content) more)
        (sym ((str_eq_iff name meta_field).0 e))
        (meta-Taken fields fields.meta text content more refl h)
  named-Taken fields name text content more false true unexpected e f h =
      subst (λ n. Taken fields (field (some n) text content) more)
        (sym ((str_eq_iff name artifact_field).0 f))
        (artifact-Taken fields fields.artifact text content more refl h)
  named-Taken fields name text content more false false unexpected e f h = failed_ok h

  take_part_ok :
      (fields : Fields) (part : Part) (more : Fields)
      → take_part meta_field artifact_field parse_meta fields part ≡ ok more
      → Taken fields part more
  unfolding take_part
  take_part_ok fields (broken e) more h = failed_ok h
  take_part_ok fields (field none text content) more h = failed_ok h
  take_part_ok fields (field (some name) text content) more h =
      named-Taken fields name text content more _ _ _ refl refl h

  step_ok :
      (fields : Fields) (part : Part) (parts : List Part) (last : Fields)
      → take_parts meta_field artifact_field parse_meta fields (part ∷ parts) ≡ ok last
      → (more : Fields) × Taken fields part more
        × (take_parts meta_field artifact_field parse_meta more parts ≡ ok last)
  unfolding take_parts
  step_ok fields part parts last h =
      next (take_part meta_field artifact_field parse_meta fields part) refl h
    where
      next :
          (o : ApiResult Fields)
          → take_part meta_field artifact_field parse_meta fields part ≡ o
          → (elim o [
            | err e ↦ err e
            | ok more ↦ take_parts meta_field artifact_field parse_meta more parts
          ])
            ≡ ok last
          → (more : Fields) × Taken fields part more
            × (take_parts meta_field artifact_field parse_meta more parts ≡ ok last)
      next (err e) k h = failed_ok h
      next (ok more) k h = (more, take_part_ok fields part more k, h)

  none_left :
      (fields last : Fields)
      → take_parts meta_field artifact_field parse_meta fields [] ≡ ok last
      → fields ≡ last
  unfolding take_parts
  none_left fields last h = ok-inj h

  -- With both fields there is nothing left to take.
  after_both :
      (meta : PublishMeta) (blob : Blob) (parts : List Part) (last : Fields)
      → take_parts meta_field artifact_field parse_meta
          (record { meta = some meta; artifact = some blob })
          parts
        ≡ ok last
      → (parts ≡ []) × (last ≡ record { meta = some meta; artifact = some blob })
  after_both meta blob [] last h = (refl, sym (none_left _ last h))
  after_both meta blob (part ∷ parts) last h =
      let (more, taken, k) = step_ok _ part parts last h in
      elim taken [ inl (m, is, e, same) ↦ cc | inr (b, is, e, same) ↦ cc ]

  -- What the fields that were taken give back.
  both_ok :
      (meta : PublishMeta) (blob : Blob) (last : Fields) (form : PublishMeta × Blob)
      → last ≡ record { meta = some meta; artifact = some blob }
      → both_fields meta_field artifact_field parse_meta last ≡ ok form
      → (meta ≡ form.0) × (blob ≡ form.1)
  both_ok meta blob last form e h =
      let same = form-inj (ap (both_fields meta_field artifact_field parse_meta) (sym e) ∙ h) in
      (ap (λ f. f.0) same, ap (λ f. f.1) same)
    where
      form-inj :
          {a b : PublishMeta × Blob}
          → ◌≡◌ {A = ApiResult (PublishMeta × Blob)} (ok a) (ok b)
          → a ≡ b
      form-inj h = cc

  after_meta :
      (meta : PublishMeta) (parts : List Part) (last : Fields) (form : PublishMeta × Blob)
      → take_parts meta_field artifact_field parse_meta
          (record { meta = some meta; artifact = none })
          parts
        ≡ ok last
      → both_fields meta_field artifact_field parse_meta last ≡ ok form
      → (a : Part) × IsArtifact a form.1 × (meta ≡ form.0) × (parts ≡ a ∷ [])
  after_meta meta [] last form h k =
      failed_ok (ap (both_fields meta_field artifact_field parse_meta) (none_left _ last h) ∙ k)
  after_meta meta (part ∷ parts) last form h k =
      let (more, taken, rest) = step_ok _ part parts last h in
      elim taken [
        | inl (m, is, e, same) ↦ cc
        | inr (b, is, e, same) ↦
            let (ends, lasts) = after_both meta b parts last (
              subst (λ t. take_parts meta_field artifact_field parse_meta t parts ≡ ok last) same
                rest) in
            let (same_meta, same_blob) = both_ok meta b last form lasts k in
            (part, subst (IsArtifact part) same_blob is, same_meta, ap (λ t. part ∷ t) ends)
      ]

  after_artifact :
      (blob : Blob) (parts : List Part) (last : Fields) (form : PublishMeta × Blob)
      → take_parts meta_field artifact_field parse_meta
          (record { meta = none; artifact = some blob })
          parts
        ≡ ok last
      → both_fields meta_field artifact_field parse_meta last ≡ ok form
      → (m : Part) × IsMeta m form.0 × (blob ≡ form.1) × (parts ≡ m ∷ [])
  after_artifact blob [] last form h k =
      failed_ok (ap (both_fields meta_field artifact_field parse_meta) (none_left _ last h) ∙ k)
  after_artifact blob (part ∷ parts) last form h k =
      let (more, taken, rest) = step_ok _ part parts last h in
      elim taken [
        | inr (b, is, e, same) ↦ cc
        | inl (m, is, e, same) ↦
            let (ends, lasts) = after_both m blob parts last (
              subst (λ t. take_parts meta_field artifact_field parse_meta t parts ≡ ok last) same
                rest) in
            let (same_meta, same_blob) = both_ok m blob last form lasts k in
            (part, subst (IsMeta part) same_meta is, same_blob, ap (λ t. part ∷ t) ends)
      ]

  read_multipart_lem :
      (parts : List Part)
      → read_multipart meta_field artifact_field parse_meta parts ≡ (
          take_parts meta_field artifact_field parse_meta
            (record { meta = none; artifact = none })
            parts
          >>= both_fields meta_field artifact_field parse_meta)
  unfolding read_multipart
  read_multipart_lem parts = refl

  pub read_multipart-IsForm :
      (parts : List Part) (form : PublishMeta × Blob)
      → read_multipart meta_field artifact_field parse_meta parts ≡ ok form
      → IsForm parts form.0 form.1
  read_multipart-IsForm parts form h =
      let (last, e, k) = bind_ok _ _ form (sym (read_multipart_lem parts) ∙ h) in
      start parts last e k
    where
      start :
          (parts : List Part) (last : Fields)
          → take_parts meta_field artifact_field parse_meta
              (record { meta = none; artifact = none })
              parts
            ≡ ok last
          → both_fields meta_field artifact_field parse_meta last ≡ ok form
          → IsForm parts form.0 form.1
      start [] last h k =
          failed_ok (ap (both_fields meta_field artifact_field parse_meta) (none_left _ last h) ∙ k)
      start (part ∷ parts) last h k =
          let (more, taken, rest) = step_ok _ part parts last h in
          elim taken [
            | inl (m, is, e, same) ↦
                let (a, is_artifact, same_meta, ends) =
                  after_meta m parts last form
                    (subst (λ t. take_parts meta_field artifact_field parse_meta t parts ≡ ok last)
                      same rest)
                    k in
                (
                  part,
                  a,
                  subst (IsMeta part) same_meta is,
                  is_artifact,
                  inl (ap (λ t. part ∷ t) ends),
                )
            | inr (b, is, e, same) ↦
                let (m, is_meta, same_blob, ends) =
                  after_artifact b parts last form
                    (subst (λ t. take_parts meta_field artifact_field parse_meta t parts ≡ ok last)
                      same rest)
                    k in
                (
                  m,
                  part,
                  is_meta,
                  subst (IsArtifact part) same_blob is,
                  inr (ap (λ t. part ∷ t) ends),
                )
          ]
