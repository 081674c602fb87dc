-- ===== src/GraphExports.antt =====
-- src/routes/graph_exports: the export formats of dependency graphs.
pub mod Protobuf
pub mod Document
pub mod MessagePack
pub mod Csv
