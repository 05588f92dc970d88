-- ===== src/Lib.antt =====
-- flow-stitch: a service that takes events from log forwarders, correlates them into flows by
-- configured rules, and delivers one document for each finished flow. This library models its core
-- in the proof assistant's language and proves what makes it correct.
--
-- The parts and how they interact:
--   * internal/domain is pure. Domain/DocPath models the paths into a document (path/path.go:
--     `Compile`, `Resolve`, `Canonical`), Domain/Rule the rules and `Validate`, `GroupFields`
--     (rule/rule.go), Domain/Flow the aggregate (flow/flow.go: `Open`, `Apply`, `ShouldClose`),
--     its snapshot (finalize.go) and its durable form (codec.go), Domain/IndexName the index
--     patterns (indexname/index.go), Domain/Outbox the hand-off to delivery (outbox/record.go),
--     Domain/Event the documents, Domain/Instant the times and Domain/Projection what a finalized
--     flow is turned into (projection/document.go: `Project`).
--   * internal/application holds the use cases. Application/Ports has the ports that carry state as
--     records of operations, and the laws that the use cases rely on; Finalize is finalize.go,
--     Ingest is ingest/service.go, Expire is expire/service.go, Deliver is deliver/service.go,
--     Alerts is alerts/service.go and Admin is admin/service.go. A use case is a function of the
--     ports and their states.
--   * internal/adapters fill the ports. Adapters/MemoryStore is state/memory/store.go, with the proof
--     of the laws in MemoryStore/Port and MemoryStore/Due, and the delivery use case on this store in
--     MemoryStore/Drain and MemoryStore/Counts; Adapters/Registry is rules/registry.go,
--     Adapters/Passthrough is passthrough/buffer.go. Adapters/OpenSearch is the sink
--     (sink/opensearch/sink.go), one exchange of a bulk request and its answer. Adapters/PebbleStore is
--     the durable store (state/pebble/store.go): Keys its keys and their order, Engine the database as
--     an argument, Flows, Records and Reads its operations, Reached the states that they lead to, and
--     Port the proof of the laws of the port.
--     Adapters/Config is config/config.go: Wire the file's format and defaults, Build the rules that it
--     describes, Check what makes it acceptable.
--   * Reload is cmd/flowstitch/reload.go, which puts a new configuration into the registry, the buffer
--     and the alerts.
--   Base holds what they share: tests on numbers, lists over the native numbers, byte texts, Go maps
--   as association lists, results, stable sorting. Examples runs the theorems at concrete inputs.
--
-- How code becomes definitions. A struct is a record, an enumeration a data type, `(value, error)` a
-- `Result`. A method with a mutex is one step on the state. An instant is the number of nanoseconds
-- since Go's zero time, a duration a signed number; the pass-through counter wraps at 64 bits. A Go map
-- is an association list and `range` visits it in the list's order, so that what holds for every list
-- holds for every order. `sort.Slice` is a stable insertion sort. Copies of slices and maps are the
-- values themselves.
--
-- Fuel: `compile` runs on the length of the expression and the first loop of the index patterns on one
-- more than the pattern's length, since each round takes a character or more; the trimming of dead
-- letters runs on their number, since each round drops one. The timeout sweep runs on one round more
-- than flows are open. The loop that joins wildcards runs on the pattern's length, as each round that
-- changes the text shortens it. The floor of the backoff runs on nine rounds; after eight doublings
-- another reaches the maximum.
--
-- Arguments stand for what is not in the repository or not modelled: the JSON encoders, the digest,
-- Go's time layouts and float parser, HTTP with its URLs, the decoder of YAML, the sink of the delivery
-- use case, the quarantine's log and the backoff's products with a float, which `JitterLaws` bounds. The
-- Pebble database is the record `Engine`, with its documented behaviour, a map whose scans give each
-- entry of a range once, as the hypotheses `EngineLaws`. Counters, latencies and logs are left out, and
-- the number of dropped dead letters is assumed to stay below 2 ^ 63. A timestamp is not before Go's
-- zero time, and a negative limit of a rule is no limit, as zero is. Not modelled: the start of the
-- process, the HTTP API, the index template, metrics and health.
pub mod Base
pub mod Domain
pub mod Application
pub mod Adapters
pub mod Reload
pub mod Examples
