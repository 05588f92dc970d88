-- ===== src/Domain/Flow.antt =====
-- internal/domain/flow/flow.go: the correlation aggregate. A pointer to an invocation is its
-- index in `invocations`; `size` is the length of a document's JSON text (`json.Marshal`), if it
-- has one.
pub mod Defs
pub mod Roles
pub mod Apply
pub mod Close
pub mod Codec
