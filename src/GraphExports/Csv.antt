-- ===== src/GraphExports/Csv.antt =====
-- src/routes/graph_exports/csv.rs: the CSV of a dependency graph, for spreadsheets. The limit on the
-- output and the JSON of a list of features are parameters; the output so far is passed on.
pub mod Reader
pub mod Cells
mod Tests
use zed_api_server_rs.Prelude.{
  ℕ, zero, suc, ◌+◌, Bool, true, false, ◌&&◌, ◌||◌, Option, none, some, List, [], ◌∷◌, ◌++◌,
  if◌then◌else◌, ◌==◌, ltb, length, any, map,
}
use zed_api_server_rs.Text.{Str, str, bytes, drop_while, is_whitespace}
use zed_api_server_rs.Access.{
  ApiErr, ApiResult, ok, err, ◌>>=◌, internal_error, payload_too_large_413,
}
use zed_api_server_rs.ArtifactStore.{checked_add}
use zed_api_server_rs.GraphExports.Document.{
  dependency_kind_name, completeness_name, bool_name, PackageVersionIdentity, DeclaredDependency,
  ResolvedDependencyNode, ResolvedDependencyEdge, DeclaredGraph, ResolvedGraph, declared, resolved,
  DependencyGraphDocument,
}

unfoldable pub representation_too_large : ApiErr
unfolding str
representation_too_large = record {
  status = payload_too_large_413;
  code = str "graph_representation_too_large";
  message = str "dependency graph representation exceeds the server limit";
}

abbrev pub is_line_start : ℕ → Bool
is_line_start c = c == b'\t' || (c == b'\r' || c == b'\n')

abbrev pub is_formula_start : ℕ → Bool
is_formula_start c = c == b'=' || (c == b'+' || (c == b'-' || c == b'@'))

abbrev pub first_is : (ℕ → Bool) → Str → Bool
first_is p [] = false
first_is p (c ∷ s) = p c

-- A cell that spreadsheet software could take for a formula.
unfoldable pub spreadsheet_unsafe : Str → Bool
unfolding drop_while is_whitespace
spreadsheet_unsafe value =
    first_is is_line_start value || first_is is_formula_start (drop_while is_whitespace value)

abbrev pub is_special : ℕ → Bool
is_special c = c == b',' || (c == b'"' || (c == b'\r' || c == b'\n'))

unfoldable pub needs_quotes : Str → Bool
unfolding spreadsheet_unsafe
needs_quotes value = spreadsheet_unsafe value || any is_special value

abbrev pub count_quotes : Str → ℕ
count_quotes [] = 0
count_quotes (c ∷ s) = (if c == b'"' then 1 else 0) + count_quotes s

-- Each quote is written twice.
abbrev pub escaped : Str → Str
escaped [] = []
escaped (c ∷ s) = if c == b'"' then b'"' ∷ b'"' ∷ escaped s else c ∷ escaped s

-- What the cell says: the value, after an apostrophe when it is unsafe.
unfoldable pub shown : Str → Str
unfolding spreadsheet_unsafe
shown value = if spreadsheet_unsafe value then b'\'' ∷ value else value

unfoldable pub cell : Str → Str
unfolding needs_quotes spreadsheet_unsafe
cell value =
    if needs_quotes value
    then (b'"' ∷ (if spreadsheet_unsafe value then b'\'' ∷ [] else []))
      ++ escaped value
      ++ b'"' ∷ []
    else value

abbrev pub add_to : Option ℕ → ℕ → Option ℕ
add_to none n = none
add_to (some m) n = checked_add m n

unfoldable pub encoded_len : Str → Option ℕ
unfolding bytes checked_add needs_quotes spreadsheet_unsafe
encoded_len value =
    add_to
      (add_to (checked_add (length (bytes value)) (count_quotes value))
        (if spreadsheet_unsafe value then 1 else 0))
      (if needs_quotes value then 2 else 0)

module _ (max_encoded_bytes : ℕ) where
  abbrev pub fits_limit : Option ℕ → ApiResult Unit
  fits_limit none = err representation_too_large
  fits_limit (some length_) =
      if ltb max_encoded_bytes length_ then err representation_too_large else ok tt

  unfoldable pub ensure_room : ℕ → ℕ → ApiResult Unit
  unfolding checked_add representation_too_large
  ensure_room current additional = fits_limit (checked_add current additional)

  unfoldable pub push_bounded : Str → Str → ApiResult Str
  unfolding ensure_room bytes
  push_bounded output value =
      ensure_room (length (bytes output)) (length (bytes value)) >>= (λ room. ok (output ++ value))

  abbrev pub len_or_too_large : Option ℕ → ApiResult ℕ
  len_or_too_large none = err representation_too_large
  len_or_too_large (some n) = ok n

  unfoldable pub csv_field : Str → Str → ApiResult Str
  unfolding encoded_len ensure_room bytes cell
  csv_field output value =
      len_or_too_large (encoded_len value)
      >>= (λ len. ensure_room (length (bytes output)) len >>= (λ room. ok (output ++ cell value)))

  -- The fields after the first one, each behind a comma.
  unfoldable pub csv_fields : Str → List Str → ApiResult Str
  unfolding push_bounded csv_field
  csv_fields output [] = ok output
  csv_fields output (field ∷ fields) =
      push_bounded output (b',' ∷ [])
      >>= (λ more. csv_field more field >>= (λ rest. csv_fields rest fields))

  abbrev pub first_field : Str → List Str → ApiResult Str
  first_field output [] = ok output
  first_field output (field ∷ fields) = csv_field output field >>= (λ rest. csv_fields rest fields)

  unfoldable pub csv_record : Str → List Str → ApiResult Str
  unfolding csv_field csv_fields push_bounded
  csv_record output fields =
      first_field output fields >>= (λ rest. push_bounded rest (b'\r' ∷ b'\n' ∷ []))

  unfoldable pub csv_records : Str → List (List Str) → ApiResult Str
  unfolding csv_record
  csv_records output [] = ok output
  csv_records output (row ∷ rows) = csv_record output row >>= (λ more. csv_records more rows)

abbrev pub empty_identity : PackageVersionIdentity
empty_identity = record { registry_id = []; org = []; name = []; version = [] }

abbrev pub identity_or : Option PackageVersionIdentity → PackageVersionIdentity
identity_or none = empty_identity
identity_or (some identity) = identity

abbrev pub flag : Option Bool → Str
flag none = []
flag (some b) = bool_name b

abbrev pub text_or : Option Str → Str
text_or none = []
text_or (some s) = s

-- The columns of a row that are not the same for a whole view.
pub record RowParts : Type 0 where
  pub record_type : Str
  pub from : Option PackageVersionIdentity
  pub to : Option PackageVersionIdentity
  pub requirement : Str
  pub kind : Str
  pub optional : Option Bool
  pub default_features : Option Bool
  pub target : Str
  pub features_json : Str
  pub artifact_digest : Str

abbrev pub csv_row : Str → Str → Str → Str → RowParts → List Str
csv_row view graph_digest completeness schema row =
    row.record_type
    ∷ view
    ∷ graph_digest
    ∷ (identity_or row.from).registry_id
    ∷ (identity_or row.from).org
    ∷ (identity_or row.from).name
    ∷ (identity_or row.from).version
    ∷ (identity_or row.to).registry_id
    ∷ (identity_or row.to).org
    ∷ (identity_or row.to).name
    ∷ (identity_or row.to).version
    ∷ row.requirement
    ∷ row.kind
    ∷ flag row.optional
    ∷ flag row.default_features
    ∷ row.target
    ∷ row.features_json
    ∷ row.artifact_digest
    ∷ completeness
    ∷ schema
    ∷ []

abbrev pub csv_header : List Str
csv_header =
    str "record_type"
    ∷ str "view"
    ∷ str "graph_digest"
    ∷ str "from_registry"
    ∷ str "from_org"
    ∷ str "from_name"
    ∷ str "from_version"
    ∷ str "to_registry"
    ∷ str "to_org"
    ∷ str "to_name"
    ∷ str "to_version"
    ∷ str "requirement"
    ∷ str "kind"
    ∷ str "optional"
    ∷ str "default_features"
    ∷ str "target"
    ∷ str "features_json"
    ∷ str "artifact_digest"
    ∷ str "completeness"
    ∷ str "schema"
    ∷ []

abbrev pub package_parts : Str → PackageVersionIdentity → RowParts
package_parts record_type identity = record {
  record_type = record_type;
  from = some identity;
  to = none;
  requirement = [];
  kind = [];
  optional = none;
  default_features = none;
  target = [];
  features_json = str "[]";
  artifact_digest = [];
}

module _ (to_json : List Str → Str) where
  abbrev pub dependency_parts : PackageVersionIdentity → DeclaredDependency → RowParts
  dependency_parts root dependency = record {
    record_type = str "edge";
    from = some root;
    to = some (record {
      registry_id = dependency.registry_id;
      org = dependency.org;
      name = dependency.name;
      version = [];
    });
    requirement = dependency.requirement;
    kind = dependency_kind_name dependency.kind;
    optional = some dependency.optional;
    default_features = some dependency.default_features;
    target = text_or dependency.target;
    features_json = to_json dependency.features;
    artifact_digest = [];
  }

  abbrev pub node_parts : ResolvedDependencyNode → RowParts
  node_parts node = record (package_parts (str "node") node.id) {
    features_json = to_json node.features;
    artifact_digest = text_or node.artifact_digest;
  }

  abbrev pub edge_parts : ResolvedDependencyEdge → RowParts
  edge_parts edge = record {
    record_type = str "edge";
    from = some edge.from;
    to = some edge.to;
    requirement = text_or edge.requirement;
    kind = dependency_kind_name edge.kind;
    optional = some edge.optional;
    default_features = none;
    target = text_or edge.target;
    features_json = to_json edge.features;
    artifact_digest = [];
  }

  -- The rows of a document, below the header.
  unfoldable pub rows_of : DependencyGraphDocument → List (List Str)
  unfolding str
  rows_of document = elim document.graph [
    | declared graph ↦
        map (csv_row (str "declared") (text_or document.graph_digest) [] document.schema) (
          package_parts (str "node") graph.root
          ∷ map (dependency_parts graph.root) graph.dependencies)
    | resolved graph ↦
        map
          (csv_row (str "resolved") (text_or document.graph_digest)
            (completeness_name graph.completeness) document.schema)
          (map (package_parts (str "root")) graph.roots
            ++ map node_parts graph.nodes
            ++ map edge_parts graph.edges)
  ]

  -- `encode`, as a text.
  unfoldable pub encode_csv : ℕ → DependencyGraphDocument → ApiResult Str
  unfolding csv_records rows_of str
  encode_csv max_encoded_bytes document =
      csv_records max_encoded_bytes [] (csv_header ∷ rows_of document)
