-- ===== src/GraphExports/Document/Tests.antt =====
-- A declared document with one dependency, on the wire.
use zed_api_server_rs.Prelude.{◌≡◌, refl, true, false, some, none, [], ◌∷◌, length}
use zed_api_server_rs.Text.{str}
use zed_api_server_rs.GraphExports.Protobuf.Wire.{read_fields}
use zed_api_server_rs.GraphExports.Document.{
  PackageVersionIdentity, DeclaredDependency, DependencyGraphDocument, declared, runtime,
  proto_declared_dependency, encode,
}
use zed_api_server_rs.GraphExports.Document.Schema.{document_fields, read_fields-encode}

abbrev identity : PackageVersionIdentity
identity = record {
  registry_id = str "r";
  org = str "acme";
  name = str "http-kit";
  version = str "1.0.0";
}

abbrev dependency : DeclaredDependency
dependency = record {
  registry_id = str "r";
  org = str "o";
  name = str "n";
  requirement = str "1";
  kind = runtime;
  optional = false;
  default_features = true;
  features = str "f" ∷ [];
  target = none;
}

abbrev document : DependencyGraphDocument
document = record {
  schema = str "s";
  graph_digest = none;
  graph = declared (record { root = identity; dependencies = dependency ∷ [] });
}

test-dependency :
    proto_declared_dependency dependency
    ≡ 0x0a ∷ 1 ∷ b'r' ∷ 0x12 ∷ 1 ∷ b'o' ∷ 0x1a ∷ 1 ∷ b'n' ∷ 0x22 ∷ 1 ∷ b'1' ∷ 0x28 ∷ 1 ∷ 0x38 ∷ 1
      ∷ 0x42 ∷ 1 ∷ b'f' ∷ []
unfolding proto_declared_dependency str
test-dependency = refl

read_fields-encode_example :
    read_fields (length (document_fields document)) (encode document)
    ≡ some (document_fields document)
read_fields-encode_example = read_fields-encode document
