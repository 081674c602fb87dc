-- ===== src/GraphExports/Document/Codes.antt =====
-- The codes and names of src/routes/graph_exports/mod.rs.
use zed_api_server_rs.Prelude.{◌≡◌, ◌≢◌, Bool, arith}
use zed_api_server_rs.Text.{str}
use zed_api_server_rs.GraphExports.Document.{
  DependencyKind, DependencyGraphCompleteness, dependency_kind_code, dependency_kind_name,
  completeness_code, completeness_name, bool_name,
}

-- The codes and the names of the text exports tell every kind, completeness and flag apart, and no
-- code is the 0 that proto3 keeps for a value that is not given.
pub dependency_kind_code-distinct :
    (a b : DependencyKind) (c d : DependencyGraphCompleteness) (x y : Bool)
    → (dependency_kind_code a ≡ dependency_kind_code b → a ≡ b)
      × (dependency_kind_code a ≢ 0)
      × (dependency_kind_name a ≡ dependency_kind_name b → a ≡ b)
      × (completeness_code c ≡ completeness_code d → c ≡ d)
      × (completeness_code c ≢ 0)
      × (completeness_name c ≡ completeness_name d → c ≡ d)
      × (bool_name x ≡ bool_name y → x ≡ y)
unfolding str
dependency_kind_code-distinct a b c d x y = (
  ground arith,
  ground arith,
  ground arith,
  ground arith,
  ground arith,
  ground arith,
  ground arith,
)
