-- ===== src/Lib.antt =====
-- Verification of zed-api-server.rs, the API server of the Zed package registry.
--
-- Parts, and where they are modelled (paths from the repository's root):
--
-- RegistryHost.antt, src/registry_host.rs: the boundary of the hosts `registry.*.zpkg.net`, which
-- serve only the machine API. `decide`, `registry_route`, `request_host`, `is_registry_host`,
-- `strip_port`, `slug`, `version_segment`, `file_segment`, `sha256`, `resolution_digest` and
-- `allow_header` keep their names; the slice patterns of the route table are the list `arms`, tried
-- in order by `select`. `enforce_registry_host` answers what the middleware does (forward, or a
-- problem with status, code and `Allow` header); the response's other headers are left out.
--
-- PackageIntake.antt, src/package_intake.rs: the admission decision `evaluate` over rebuild, risk and
-- approval evidence, with every enum and record of the file. `Checked` is the file's
-- `Result<_, AdmissionOutcome>`.
--
-- Audit.antt, src/audit.rs: the hash chain of an organisation's audit log. A table is the list of its
-- rows in the order of insertion; `append_chained` is one transaction, `record_entry` the retry loop
-- of `record`, with the rows that other writers commit between the read of the tip and the insert as
-- an explicit part of each attempt; `verify_chain` is the walk. `ChainLibrary` holds what comes from
-- other crates: printing of uuids and times, the canonical preimage of zed-interfaces and SHA-256.
-- The position is the i64 of the column, without its overflow at 2^63 appends.
--
-- StorageReport.antt, src/storage_report.rs: the description of the artifact store, the host taken
-- from an endpoint, the vendor's name, the reconciliation of an object and the redaction of errors.
--
-- Access.antt, src/error.rs, src/rbac.rs and the token check of src/auth.rs: error values, roles, the
-- two authorizers, `bearer_token` and `require_token`. The hash of a credential is a parameter.
--
-- Yank.antt, src/routes/yank.rs with `find_org` and `find_package` of src/routes/mod.rs: the handler
-- from the credential to the audit record, over a `Database` of lists of rows; `Faults` says which of
-- its statements a database error ends. `admitted` is the part of `yank` that can still refuse, the
-- update included; rows have the columns that the handler reads or writes.
--
-- AuditRoutes.antt, src/routes/audit.rs: the route that verifies an organisation's chain, for the first
-- 50000 rows by position, as the source bounds it. AuditRoutes/Listing.antt is the route that lists
-- the log; the database's filters and order are functions on the list of rows.
--
-- ArtifactStore.antt and its children, src/storage.rs: `put_memory` is the `Memory` arm of
-- `put_verified`, over the map as a list of keys and bytes; Local.antt has the local backend, whose
-- directory is a list of paths, with a Boolean for every call that can fail and the files that other
-- processes add before the promotion; Remote.antt has the S3 backend on the service's answers;
-- Operations.antt composes them as `ArtifactStore` does. A stream is the list of its reads.
--
-- RateLimit.antt, src/ratelimit.rs: `RateLimiter` with its buckets in a list, and each time in
-- nanoseconds. `Float` has the operations of `f64` that the code uses and `IsFloat` the laws of IEEE
-- 754 that the theorems need; the tests put natural numbers in their place.
--
-- Verify.antt, src/verify.rs, src/signing.rs and the reading of keys in src/routes/keys.rs: repository
-- addresses, the tag check on GitHub's answer, and `verify_any`. `strip_front` has a round of fuel per
-- character, and each round but the last takes a character away.
--
-- Publish.antt and its children, src/routes/publish.rs: `prepared` is everything that can refuse a
-- publication before a change, in the order of the source; `publish_prepared` stores the object and
-- its aliases, and `release` is the transaction and what follows it. `Events` says which statement a
-- database error ends and which rows other publications commit before the transaction; a commit that
-- fails is taken to have changed nothing. The store is the interface `Storage` with the laws
-- `IsStorage`, which Publish/Memory.antt shows of the process-memory backend. Sizes and sequence
-- numbers are i64 columns that are not negative here.
--
-- GraphExports/Protobuf.antt, src/routes/graph_exports/protobuf.rs: the wire primitives; each function
-- answers the bytes that the source appends. `varint` is the loop of `proto_varint`, with one unit of
-- fuel for each turn and more than the number as fuel, which the round trip shows to be enough.
--
-- GraphExports/Document.antt, the rest of that file, with the codes of src/routes/graph_exports/mod.rs:
-- `encode` and the message of each type. GraphExports/Document/Schema.antt states the messages of
-- proto/ as lists of fields, `package` of a declared graph being `root` here.
--
-- GraphExports/MessagePack.antt, src/routes/graph_exports/messagepack.rs: the encoder of a JSON value, over
-- mutual types for values, arrays and maps.
--
-- GraphExports/Csv.antt, src/routes/graph_exports/csv.rs: `encode` and its helpers; the limit on the output
-- and the JSON of a list of features are parameters. GraphExports/Csv/Reader.antt reads CSV back.
--
-- EdgeFallback.antt, src/edge_fallback.rs: the reader's check, the grant and the capability for a private
-- package. The constants and the validation of zed-interfaces are parameters.
--
-- Text.antt is Rust's `str` (a list of Unicode scalar values, with UTF-8 where bytes count) and the
-- methods of the standard library that these parts call; Prelude.antt passes on library names and
-- holds the shared lemmas. `decimal` divides with one unit of fuel per step and the number itself as
-- fuel, which Text/Decimal.antt shows to be enough. No other part of the program's model runs on
-- fuel, but `strip_front`, whose rounds are enough by Verify/Trimming.antt.
--
-- The parts meet in the handlers: a request that passes the boundary is checked by Access.antt, and
-- one that changes published state appends to the audit log after the change. A publication stores
-- its object before the row that names it, so that the row is never without it.
-- Not modelled: HTTP and database plumbing, logging, the S3 and file system clients, migrations and
-- tooling; the routes of accounts, listings, the dependency graph and the public intake; archives and
-- their files; flags and configuration.
pub mod Prelude
pub mod Text
pub mod RegistryHost
pub mod PackageIntake
pub mod Audit
pub mod ArtifactStore
pub mod StorageReport
pub mod Access
pub mod Verify
pub mod Publish
pub mod RateLimit
pub mod Yank
pub mod GraphExports
pub mod AuditRoutes
pub mod EdgeFallback
