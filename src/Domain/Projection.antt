-- ===== src/Domain/Projection.antt =====
-- internal/domain/projection/document.go: the document that a finalized flow becomes. Go's time
-- layouts and `strconv.ParseFloat` are the argument `Parsers`; a document's JSON is written by
-- encoding/json. Maps of `any` are lists of named items.
pub mod Shape
pub mod Timing
pub mod Views
pub mod Promote
pub mod Project
pub mod Times
pub mod Anomalies
