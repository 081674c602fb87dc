-- ===== src/GraphExports/Document/Schema.antt =====
-- The messages of proto/, as fields, and that the encoder writes exactly these.
use zed_api_server_rs.Prelude.{
  ℕ, ◌≡◌, refl, sym, ap, ◌∙◌, Bool, true, false, Option, none, some, List, [], ◌∷◌, ◌++◌,
  append_assoc, append-nil, length,
}
use zed_api_server_rs.Text.{Str, bytes}
use zed_api_server_rs.GraphExports.Protobuf.{
  proto_u64, proto_enum, proto_bool, proto_message, proto_string,
}
use zed_api_server_rs.GraphExports.Protobuf.Wire.{
  WireValue, number, message, write_field, write_fields, read_fields, read_fields-write_fields,
}
use zed_api_server_rs.GraphExports.Document.{
  PackageVersionIdentity, DeclaredDependency, ResolvedDependencyNode, ResolvedDependencyEdge,
  RegistrySnapshot, ResolutionProvenance, DependencyGraphProjection, DeclaredGraph, ResolvedGraph,
  DependencyGraphData, declared, resolved, DependencyGraphDocument, dependency_kind_code,
  completeness_code, if_some, for_each, graph_field, encode, proto_identity,
  proto_declared_dependency, proto_resolved_node, proto_resolved_edge, proto_snapshot,
  proto_provenance, proto_projection, declared_graph, resolved_graph,
}

abbrev pub Fields : Type 0
Fields = List (ℕ × WireValue)

-- One field of each kind: a text, a nested message, an enum or a number, and a flag, which proto3
-- leaves out when it is not set.
unfoldable pub text : ℕ → Str → Fields
text field s = (field, message (bytes s)) ∷ []

unfoldable pub nested : ℕ → Fields → Fields
nested field fields = (field, message (write_fields fields)) ∷ []

unfoldable pub code : ℕ → ℕ → Fields
code field value = (field, number value) ∷ []

unfoldable pub flag : ℕ → Bool → Fields
flag field true = (field, number 1) ∷ []
flag field false = []

unfoldable pub optionally : {A : Type 0} → (A → Fields) → Option A → Fields
optionally f none = []
optionally f (some a) = f a

unfoldable pub repeated : {A : Type 0} → (A → Fields) → List A → Fields
repeated f [] = []
repeated f (a ∷ as') = f a ++ repeated f as'

unfoldable pub identity_fields : PackageVersionIdentity → Fields
unfolding text
identity_fields identity =
    text 1 identity.registry_id
    ++ (text 2 identity.org ++ (text 3 identity.name ++ (text 4 identity.version)))

unfoldable pub declared_dependency_fields : DeclaredDependency → Fields
unfolding code flag optionally repeated text
declared_dependency_fields dependency =
    text 1 dependency.registry_id
    ++ (text 2 dependency.org
        ++ (text 3 dependency.name
            ++ (text 4 dependency.requirement
                ++ (code 5 (dependency_kind_code dependency.kind)
                    ++ (flag 6 dependency.optional
                        ++ (flag 7 dependency.default_features
                            ++ (repeated (text 8) dependency.features
                                ++ (optionally (text 9) dependency.target))))))))

unfoldable pub resolved_node_fields : ResolvedDependencyNode → Fields
unfolding identity_fields nested optionally repeated text
resolved_node_fields node =
    nested 1 (identity_fields node.id)
    ++ (optionally (text 2) node.artifact_digest ++ (repeated (text 3) node.features))

unfoldable pub resolved_edge_fields : ResolvedDependencyEdge → Fields
unfolding code flag identity_fields nested optionally repeated text
resolved_edge_fields edge =
    nested 1 (identity_fields edge.from)
    ++ (nested 2 (identity_fields edge.to)
        ++ (code 3 (dependency_kind_code edge.kind)
            ++ (optionally (text 4) edge.requirement
                ++ (optionally (text 5) edge.target
                    ++ (flag 6 edge.optional ++ (repeated (text 7) edge.features))))))

unfoldable pub snapshot_fields : RegistrySnapshot → Fields
unfolding text
snapshot_fields snapshot = text 1 snapshot.registry_id ++ (text 2 snapshot.checkpoint_digest)

unfoldable pub provenance_fields : ResolutionProvenance → Fields
unfolding nested repeated snapshot_fields text
provenance_fields provenance =
    text 1 provenance.resolver_version
    ++ (text 2 provenance.target
        ++ (repeated (text 3) provenance.enabled_features
            ++ (repeated (λ a. nested 4 (snapshot_fields a)) provenance.registry_snapshots
                ++ (text 5 provenance.lock_digest))))

unfoldable pub projection_fields : DependencyGraphProjection → Fields
unfolding code optionally repeated text
projection_fields projection =
    optionally (text 1) projection.target
    ++ (repeated (text 2) projection.features
        ++ (repeated (λ kind. code 3 (dependency_kind_code kind)) projection.kinds
            ++ (optionally (code 4) projection.max_depth)))

unfoldable pub declared_graph_fields : DeclaredGraph → Fields
unfolding declared_dependency_fields identity_fields nested repeated
declared_graph_fields graph =
    nested 1 (identity_fields graph.root)
    ++ (repeated (λ a. nested 2 (declared_dependency_fields a)) graph.dependencies)

unfoldable pub resolved_graph_fields : ResolvedGraph → Fields
unfolding code identity_fields nested optionally projection_fields provenance_fields repeated
    resolved_edge_fields resolved_node_fields text
resolved_graph_fields graph =
    code 1 (completeness_code graph.completeness)
    ++ (repeated (λ a. nested 2 (identity_fields a)) graph.roots
        ++ (repeated (λ a. nested 3 (resolved_node_fields a)) graph.nodes
            ++ (repeated (λ a. nested 4 (resolved_edge_fields a)) graph.edges
                ++ (nested 5 (provenance_fields graph.provenance)
                    ++ (optionally (text 6) graph.parent_graph_digest
                        ++ (optionally (λ a. nested 7 (projection_fields a)) graph.projection))))))

unfoldable pub graph_fields : DependencyGraphData → Fields
unfolding declared_graph_fields resolved_graph_fields nested
graph_fields (declared graph) = nested 10 (declared_graph_fields graph)
graph_fields (resolved graph) = nested 11 (resolved_graph_fields graph)

unfoldable pub document_fields : DependencyGraphDocument → Fields
unfolding text optionally graph_fields
document_fields document =
    text 1 document.schema
    ++ (optionally (text 2) document.graph_digest ++ graph_fields document.graph)

write_fields-append :
    (fs gs : Fields) → write_fields (fs ++ gs) ≡ write_fields fs ++ write_fields gs
write_fields-append [] gs = refl
write_fields-append (f ∷ fs) gs =
    rw (write_fields-append fs gs)
      (sym (append_assoc (write_field f) (write_fields fs) (write_fields gs)))

-- Bytes that are written for some fields.
record Writes (fs : Fields) (bs : List ℕ) : Type 0 where
  written : write_fields fs ≡ bs

write_text : (field : ℕ) (s : Str) → Writes (text field s) (proto_string field s)
unfolding text proto_string
write_text field s = record { written = append-nil (proto_message field (bytes s)) }

write_number : (field value : ℕ) → Writes (code field value) (proto_u64 field value)
unfolding code
write_number field value = record { written = append-nil (proto_u64 field value) }

write_code : (field value : ℕ) → Writes (code field value) (proto_enum field value)
unfolding proto_enum
write_code field value = write_number field value

write_flag : (field : ℕ) (b : Bool) → Writes (flag field b) (proto_bool field b)
unfolding flag proto_bool
write_flag field true = record { written = append-nil (proto_u64 field 1) }
write_flag field false = record { written = refl }

write_optionally :
    {A : Type 0} {f : A → Fields} {e : A → List ℕ}
    → ((a : A) → Writes (f a) (e a))
    → (o : Option A) → Writes (optionally f o) (if_some e o)
unfolding optionally
write_optionally h none = record { written = refl }
write_optionally h (some a) = h a

write_pair :
    {fs gs : Fields} {a b : List ℕ} → Writes fs a → Writes gs b → Writes (fs ++ gs) (a ++ b)
write_pair {fs} {gs} h k = record { written = rw (write_fields-append fs gs, h.written, k.written) }

write_repeated :
    {A : Type 0} {f : A → Fields} {e : A → List ℕ}
    → ((a : A) → Writes (f a) (e a))
    → (l : List A) → Writes (repeated f l) (for_each e l)
unfolding repeated
write_repeated h [] = record { written = refl }
write_repeated h (a ∷ l) = write_pair (h a) (write_repeated h l)

write_message :
    (field : ℕ) {fs : Fields} {bs : List ℕ}
    → Writes fs bs
    → Writes (nested field fs) (proto_message field bs)
unfolding nested
write_message field {fs} h = record {
  written = append-nil (proto_message field (write_fields fs)) ∙ ap (proto_message field) h.written;
}

proto_identity-Writes :
    (identity : PackageVersionIdentity)
    → Writes (identity_fields identity) (proto_identity identity)
unfolding identity_fields proto_identity
proto_identity-Writes identity = write_pair (write_text 1 identity.registry_id) (
    write_pair (write_text 2 identity.org)
      (write_pair (write_text 3 identity.name) (write_text 4 identity.version)))

proto_declared_dependency-Writes :
    (dependency : DeclaredDependency)
    → Writes (declared_dependency_fields dependency) (proto_declared_dependency dependency)
unfolding declared_dependency_fields proto_declared_dependency
proto_declared_dependency-Writes dependency = write_pair (write_text 1 dependency.registry_id) (
    write_pair (write_text 2 dependency.org) (
      write_pair (write_text 3 dependency.name) (
        write_pair (write_text 4 dependency.requirement) (
          write_pair (write_code 5 (dependency_kind_code dependency.kind)) (
            write_pair (write_flag 6 dependency.optional) (
              write_pair (write_flag 7 dependency.default_features) (
                write_pair (write_repeated (write_text 8) dependency.features)
                  (write_optionally (write_text 9) dependency.target))))))))

proto_resolved_node-Writes :
    (node : ResolvedDependencyNode) → Writes (resolved_node_fields node) (proto_resolved_node node)
unfolding resolved_node_fields proto_resolved_node
proto_resolved_node-Writes node = write_pair (write_message 1 (proto_identity-Writes node.id)) (
    write_pair (write_optionally (write_text 2) node.artifact_digest)
      (write_repeated (write_text 3) node.features))

proto_resolved_edge-Writes :
    (edge : ResolvedDependencyEdge) → Writes (resolved_edge_fields edge) (proto_resolved_edge edge)
unfolding resolved_edge_fields proto_resolved_edge
proto_resolved_edge-Writes edge = write_pair (write_message 1 (proto_identity-Writes edge.from)) (
    write_pair (write_message 2 (proto_identity-Writes edge.to)) (
      write_pair (write_code 3 (dependency_kind_code edge.kind)) (
        write_pair (write_optionally (write_text 4) edge.requirement) (
          write_pair (write_optionally (write_text 5) edge.target) (
            write_pair (write_flag 6 edge.optional)
              (write_repeated (write_text 7) edge.features))))))

proto_snapshot-Writes :
    (snapshot : RegistrySnapshot) → Writes (snapshot_fields snapshot) (proto_snapshot snapshot)
unfolding snapshot_fields proto_snapshot
proto_snapshot-Writes snapshot =
    write_pair (write_text 1 snapshot.registry_id) (write_text 2 snapshot.checkpoint_digest)

proto_provenance-Writes :
    (provenance : ResolutionProvenance)
    → Writes (provenance_fields provenance) (proto_provenance provenance)
unfolding provenance_fields proto_provenance
proto_provenance-Writes provenance = write_pair (write_text 1 provenance.resolver_version) (
    write_pair (write_text 2 provenance.target) (
      write_pair (write_repeated (write_text 3) provenance.enabled_features) (
        write_pair
          (write_repeated (λ a. write_message 4 (proto_snapshot-Writes a))
            provenance.registry_snapshots)
          (write_text 5 provenance.lock_digest))))

proto_projection-Writes :
    (projection : DependencyGraphProjection)
    → Writes (projection_fields projection) (proto_projection projection)
unfolding projection_fields proto_projection
proto_projection-Writes projection =
    write_pair (write_optionally (write_text 1) projection.target) (
      write_pair (write_repeated (write_text 2) projection.features) (
        write_pair
          (write_repeated (λ kind. write_code 3 (dependency_kind_code kind)) projection.kinds)
          (write_optionally (write_number 4) projection.max_depth)))

declared_graph-Writes :
    (graph : DeclaredGraph) → Writes (declared_graph_fields graph) (declared_graph graph)
unfolding declared_graph_fields declared_graph
declared_graph-Writes graph =
    write_pair (write_message 1 (proto_identity-Writes graph.root)) (
      write_repeated (λ a. write_message 2 (proto_declared_dependency-Writes a)) graph.dependencies)

resolved_graph-Writes :
    (graph : ResolvedGraph) → Writes (resolved_graph_fields graph) (resolved_graph graph)
unfolding resolved_graph_fields resolved_graph
resolved_graph-Writes graph = write_pair (write_code 1 (completeness_code graph.completeness)) (
    write_pair (write_repeated (λ a. write_message 2 (proto_identity-Writes a)) graph.roots) (
      write_pair (write_repeated (λ a. write_message 3 (proto_resolved_node-Writes a)) graph.nodes)
        (write_pair
          (write_repeated (λ a. write_message 4 (proto_resolved_edge-Writes a)) graph.edges)
          (write_pair (write_message 5 (proto_provenance-Writes graph.provenance)) (
            write_pair (write_optionally (write_text 6) graph.parent_graph_digest) (
              write_optionally (λ a. write_message 7 (proto_projection-Writes a))
                graph.projection))))))

write_graph : (graph : DependencyGraphData) → Writes (graph_fields graph) (graph_field graph)
unfolding graph_fields graph_field
write_graph (declared graph) = write_message 10 (declared_graph-Writes graph)
write_graph (resolved graph) = write_message 11 (resolved_graph-Writes graph)

write_document :
    (document : DependencyGraphDocument) → Writes (document_fields document) (encode document)
unfolding document_fields encode
write_document document = write_pair (write_text 1 document.schema) (
    write_pair (write_optionally (write_text 2) document.graph_digest) (write_graph document.graph))

-- An encoded document is the message of the committed schema: read field by field, it has exactly the
-- schema's fields with the schema's numbers, in order, each nested message written the same way, with
-- the optional fields only where there is a value.
pub read_fields-encode :
    (document : DependencyGraphDocument)
    → read_fields (length (document_fields document)) (encode document)
      ≡ some (document_fields document)
read_fields-encode document =
    ap (read_fields (length (document_fields document))) (sym (write_document document).written)
    ∙ read_fields-write_fields (document_fields document)
