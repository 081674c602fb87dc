-- ===== src/GraphExports/Document.antt =====
-- src/routes/graph_exports/protobuf.rs: the encoder of dependency graph documents, with the codes of
-- src/routes/graph_exports/mod.rs. The documents have the fields that the encoder reads; zed-interfaces
-- declares them.
pub mod Codes
pub mod Schema
mod Tests
use zed_api_server_rs.Prelude.{if◌then◌else◌, ℕ, Bool, Option, none, some, List, [], ◌∷◌, ◌++◌}
use zed_api_server_rs.Text.{Str, str}
use zed_api_server_rs.GraphExports.Protobuf.{
  proto_u64, proto_enum, proto_bool, proto_message, proto_string,
}

pub data DependencyKind : Type 0 where
  runtime build development peer tooling : DependencyKind

pub data DependencyGraphCompleteness : Type 0 where
  complete projected : DependencyGraphCompleteness

abbrev pub dependency_kind_code : DependencyKind → ℕ
dependency_kind_code runtime = 1
dependency_kind_code build = 2
dependency_kind_code development = 3
dependency_kind_code peer = 4
dependency_kind_code tooling = 5

abbrev pub completeness_code : DependencyGraphCompleteness → ℕ
completeness_code complete = 1
completeness_code projected = 2

abbrev pub dependency_kind_name : DependencyKind → Str
dependency_kind_name runtime = str "runtime"
dependency_kind_name build = str "build"
dependency_kind_name development = str "development"
dependency_kind_name peer = str "peer"
dependency_kind_name tooling = str "tooling"

abbrev pub completeness_name : DependencyGraphCompleteness → Str
completeness_name complete = str "complete"
completeness_name projected = str "projected"

abbrev pub bool_name : Bool → Str
bool_name value = if value then str "true" else str "false"

pub record PackageVersionIdentity : Type 0 where
  pub registry_id : Str
  pub org : Str
  pub name : Str
  pub version : Str

pub record DeclaredDependency : Type 0 where
  pub registry_id : Str
  pub org : Str
  pub name : Str
  pub requirement : Str
  pub kind : DependencyKind
  pub optional : Bool
  pub default_features : Bool
  pub features : List Str
  pub target : Option Str

pub record ResolvedDependencyNode : Type 0 where
  pub id : PackageVersionIdentity
  pub artifact_digest : Option Str
  pub features : List Str

pub record ResolvedDependencyEdge : Type 0 where
  pub from : PackageVersionIdentity
  pub to : PackageVersionIdentity
  pub kind : DependencyKind
  pub requirement : Option Str
  pub target : Option Str
  pub optional : Bool
  pub features : List Str

pub record RegistrySnapshot : Type 0 where
  pub registry_id : Str
  pub checkpoint_digest : Str

pub record ResolutionProvenance : Type 0 where
  pub resolver_version : Str
  pub target : Str
  pub enabled_features : List Str
  pub registry_snapshots : List RegistrySnapshot
  pub lock_digest : Str

pub record DependencyGraphProjection : Type 0 where
  pub target : Option Str
  pub features : List Str
  pub kinds : List DependencyKind
  pub max_depth : Option ℕ

pub record DeclaredGraph : Type 0 where
  pub root : PackageVersionIdentity
  pub dependencies : List DeclaredDependency

pub record ResolvedGraph : Type 0 where
  pub completeness : DependencyGraphCompleteness
  pub roots : List PackageVersionIdentity
  pub nodes : List ResolvedDependencyNode
  pub edges : List ResolvedDependencyEdge
  pub provenance : ResolutionProvenance
  pub parent_graph_digest : Option Str
  pub projection : Option DependencyGraphProjection

pub data DependencyGraphData : Type 0 where
  declared : DeclaredGraph → DependencyGraphData
  resolved : ResolvedGraph → DependencyGraphData

pub record DependencyGraphDocument : Type 0 where
  pub schema : Str
  pub graph_digest : Option Str
  pub graph : DependencyGraphData

-- `if let Some(value) = … { … }`
abbrev pub if_some : {A : Type 0} → (A → List ℕ) → Option A → List ℕ
if_some encode none = []
if_some encode (some a) = encode a

-- `for value in … { … }`
abbrev pub for_each : {A : Type 0} → (A → List ℕ) → List A → List ℕ
for_each encode [] = []
for_each encode (a ∷ as') = encode a ++ for_each encode as'

unfoldable pub proto_identity : PackageVersionIdentity → List ℕ
unfolding proto_string
proto_identity identity =
    proto_string 1 identity.registry_id
    ++ (proto_string 2 identity.org
        ++ (proto_string 3 identity.name ++ (proto_string 4 identity.version)))

unfoldable pub proto_declared_dependency : DeclaredDependency → List ℕ
unfolding proto_bool proto_enum proto_string
proto_declared_dependency dependency =
    proto_string 1 dependency.registry_id
    ++ (proto_string 2 dependency.org
        ++ (proto_string 3 dependency.name
            ++ (proto_string 4 dependency.requirement
                ++ (proto_enum 5 (dependency_kind_code dependency.kind)
                    ++ (proto_bool 6 dependency.optional
                        ++ (proto_bool 7 dependency.default_features
                            ++ (for_each (proto_string 8) dependency.features
                                ++ (if_some (proto_string 9) dependency.target))))))))

unfoldable pub proto_resolved_node : ResolvedDependencyNode → List ℕ
unfolding proto_identity proto_message proto_string
proto_resolved_node node =
    proto_message 1 (proto_identity node.id)
    ++ (if_some (proto_string 2) node.artifact_digest ++ (for_each (proto_string 3) node.features))

unfoldable pub proto_resolved_edge : ResolvedDependencyEdge → List ℕ
unfolding proto_bool proto_enum proto_identity proto_message proto_string
proto_resolved_edge edge =
    proto_message 1 (proto_identity edge.from)
    ++ (proto_message 2 (proto_identity edge.to)
        ++ (proto_enum 3 (dependency_kind_code edge.kind)
            ++ (if_some (proto_string 4) edge.requirement
                ++ (if_some (proto_string 5) edge.target
                    ++ (proto_bool 6 edge.optional ++ (for_each (proto_string 7) edge.features))))))

unfoldable pub proto_snapshot : RegistrySnapshot → List ℕ
unfolding proto_string
proto_snapshot snapshot =
    proto_string 1 snapshot.registry_id ++ (proto_string 2 snapshot.checkpoint_digest)

unfoldable pub proto_provenance : ResolutionProvenance → List ℕ
unfolding proto_message proto_snapshot proto_string
proto_provenance provenance =
    proto_string 1 provenance.resolver_version
    ++ (proto_string 2 provenance.target
        ++ (for_each (proto_string 3) provenance.enabled_features
            ++ (for_each (λ a. proto_message 4 (proto_snapshot a)) provenance.registry_snapshots
                ++ (proto_string 5 provenance.lock_digest))))

unfoldable pub proto_projection : DependencyGraphProjection → List ℕ
unfolding proto_enum proto_string proto_u64
proto_projection projection =
    if_some (proto_string 1) projection.target
    ++ (for_each (proto_string 2) projection.features
        ++ (for_each (λ kind. proto_enum 3 (dependency_kind_code kind)) projection.kinds
            ++ (if_some (proto_u64 4) projection.max_depth)))

-- The graph message of a declared document.
unfoldable pub declared_graph : DeclaredGraph → List ℕ
unfolding proto_declared_dependency proto_identity proto_message
declared_graph graph =
    proto_message 1 (proto_identity graph.root)
    ++ (for_each (λ a. proto_message 2 (proto_declared_dependency a)) graph.dependencies)

-- The graph message of a resolved document.
unfoldable pub resolved_graph : ResolvedGraph → List ℕ
unfolding proto_enum proto_identity proto_message proto_projection proto_provenance
    proto_resolved_edge proto_resolved_node proto_string
resolved_graph graph =
    proto_enum 1 (completeness_code graph.completeness)
    ++ (for_each (λ a. proto_message 2 (proto_identity a)) graph.roots
        ++ (for_each (λ a. proto_message 3 (proto_resolved_node a)) graph.nodes
            ++ (for_each (λ a. proto_message 4 (proto_resolved_edge a)) graph.edges
                ++ (proto_message 5 (proto_provenance graph.provenance)
                    ++ (if_some (proto_string 6) graph.parent_graph_digest
                        ++ (if_some (λ a. proto_message 7 (proto_projection a))
                            graph.projection))))))

-- The graph's field of the document.
unfoldable pub graph_field : DependencyGraphData → List ℕ
unfolding declared_graph resolved_graph proto_message
graph_field (declared graph) = proto_message 10 (declared_graph graph)
graph_field (resolved graph) = proto_message 11 (resolved_graph graph)

unfoldable pub encode : DependencyGraphDocument → List ℕ
unfolding proto_string graph_field
encode document =
    proto_string 1 document.schema
    ++ (if_some (proto_string 2) document.graph_digest ++ graph_field document.graph)
