-- ===== src/Adapters/OpenSearch.antt =====
-- internal/adapters/sink/opensearch/sink.go: the bulk requests and what their answers mean for each
-- record. HTTP, the parser of URLs and JSON are the argument `Http`; contexts and closing of bodies
-- are left out.
pub mod Exchange
pub mod Results
pub mod Deliver
pub mod Settle
