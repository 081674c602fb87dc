-- ===== src/Publish/Multipart.antt =====
-- src/routes/publish.rs: `read_multipart`, the two fields of a publication.
use zed_api_server_rs.Prelude.{
  Option, none, some, List, [], ◌∷◌, ◌++◌, if◌then◌else◌, ◌⊎◌, inl, inr,
}
use zed_api_server_rs.Text.{Str, str, str_eq}
use zed_api_server_rs.Access.{ApiResult, ok, err, ◌>>=◌, bad_request}
use zed_api_server_rs.ArtifactStore.{Blob}
use zed_api_server_rs.Publish.{PublishMeta, Part, broken, field}

-- The fields that have been read.
pub record Fields : Type 0 where
  pub meta : Option PublishMeta
  pub artifact : Option Blob

unfoldable pub duplicate : Str → ApiResult Fields
unfolding str
duplicate name =
    err
      (bad_request (str "invalid_multipart") (str "duplicate multipart field `" ++ name ++ str "`"))

module _ (meta_field artifact_field : Str) (parse_meta : Str → Str ⊎ PublishMeta) where
  -- The field of the metadata: its text, and what it parses to.
  unfoldable pub take_meta : Fields → Str ⊎ Str → ApiResult Fields
  unfolding duplicate str
  take_meta fields text = elim fields.meta [
    | some meta ↦ duplicate meta_field
    | none ↦ elim text [
      | inl e ↦ err (bad_request (str "invalid_meta") e)
      | inr t ↦ elim (parse_meta t) [
        | inl e ↦ err (bad_request (str "invalid_meta") e)
        | inr meta ↦ ok (record fields { meta = some meta })
      ]
    ]
  ]

  unfoldable pub take_artifact : Fields → Str ⊎ Blob → ApiResult Fields
  unfolding duplicate str
  take_artifact fields content = elim fields.artifact [
    | some artifact ↦ duplicate artifact_field
    | none ↦ elim content [
      | inl e ↦ err (bad_request (str "invalid_artifact") e)
      | inr blob ↦ ok (record fields { artifact = some blob })
    ]
  ]

  unfoldable pub take_part : Fields → Part → ApiResult Fields
  unfolding take_meta take_artifact str_eq str
  take_part fields (broken e) = err (bad_request (str "invalid_multipart") e)
  take_part fields (field none text content) =
      err (bad_request (str "invalid_multipart") (str "multipart fields must have a name"))
  take_part fields (field (some name) text content) =
      if str_eq name meta_field
      then take_meta fields text
      else if str_eq name artifact_field
      then take_artifact fields content
      else err (
          bad_request (str "invalid_multipart")
            (str "unexpected multipart field `" ++ name ++ str "`"))

  unfoldable pub take_parts : Fields → List Part → ApiResult Fields
  unfolding take_part
  take_parts fields [] = ok fields
  take_parts fields (part ∷ parts) = elim (take_part fields part) [
    | err e ↦ err e
    | ok more ↦ take_parts more parts
  ]

  abbrev pub both_fields : Fields → ApiResult (PublishMeta × Blob)
  both_fields fields = elim fields.meta [
    | none ↦ err (bad_request (str "invalid_meta") (str "missing meta field"))
    | some meta ↦ elim fields.artifact [
      | none ↦ err (bad_request (str "invalid_artifact") (str "missing artifact field"))
      | some artifact ↦ ok (meta, artifact)
    ]
  ]

  unfoldable pub read_multipart : List Part → ApiResult (PublishMeta × Blob)
  unfolding take_parts
  read_multipart parts = take_parts (record { meta = none; artifact = none }) parts >>= both_fields
