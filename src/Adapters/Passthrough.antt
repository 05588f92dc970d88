-- ===== src/Adapters/Passthrough.antt =====
-- internal/adapters/passthrough/buffer.go: the bounded queue of unmatched events. Each method is one
-- step, under its mutex; the ready channel of capacity one is a flag, and the metrics are a log.
-- `json.Marshal` of a document and `time.Parse` are arguments.
pub mod Bounded
use flow_stitch.Base.{
  ℕ, zero, suc, ◌+◌, ◌%◌, ◌^◌, min, Bool, true, false, ◌||◌, Option, none, some, List, [], ◌∷◌,
  ◌++◌, Text, nat_eq, ◌==◌, if◌then◌else◌, leb, is_nil, Result, ok, err, ◌>>=◌, from_option, length,
  take, or_else,
}
use flow_stitch.Base.Dict.{Dict, lookup, insert}
use flow_stitch.Domain.Instant.{Instant, Duration}
use flow_stitch.Domain.Event.{Event, Fields}
use flow_stitch.Domain.DocPath.{DocPath, resolve}
use flow_stitch.Domain.IndexName.{resolve_pattern}
use flow_stitch.Domain.Outbox.{Disposition, delivered, permanent}
use flow_stitch.Application.Ports.{
  PassthroughRecord, PassthroughResult, PassthroughError, passthrough_disabled, passthrough_full,
  marshal_document,
}

pub record Options : Type 0 where
  pub index : Text
  pub timestamp : DocPath
  pub buffer_size : ℕ
  pub batch_size : ℕ
  pub flush_interval : Duration

pub data Metric : Type 0 where
  buffer_depth : ℕ → Metric
  event_buffered event_dropped : Metric

pub record Buffer : Type 0 where
  pub opts : Options
  pub records : List PassthroughRecord
  pub next : ℕ
  pub ready : Bool
  pub enabled : Bool
  pub recorded : List Metric

unfoldable pub new_buffer : Options → Buffer
new_buffer opts = record {
  opts = opts;
  records = [];
  next = 0;
  ready = false;
  enabled = true;
  recorded = [];
}

-- The sequence counter is a uint64.
abbrev pub next_sequence : ℕ → ℕ
next_sequence n = (n + 1) % 2 ^ 64

module _ (marshal : Fields → Option Text) (parse_time : Text → Option Instant) where
  -- The producer's bytes, or else the document encoded again.
  unfoldable pub raw_document : Event → Result PassthroughError Text
  raw_document e = if is_nil e.raw then from_option (marshal e.doc) marshal_document else ok e.raw

  unfoldable pub event_time : Options → Instant → Event → Instant
  event_time opts now e = elim (resolve opts.timestamp e.doc) [
    | none ↦ now
    | some text ↦ or_else (parse_time text) now
  ]

  unfoldable pub buffered : Instant → Event → Text → Buffer → Buffer
  buffered now e document b =
      let at = event_time b.opts now e in
      let n = next_sequence b.next in
      let records =
        b.records
        ++ record { sequence = n; index = resolve_pattern b.opts.index at at; document = document }
          ∷ [] in
      record b {
        records = records;
        next = n;
        ready = b.ready || leb b.opts.batch_size (length records);
        recorded = b.recorded ++ buffer_depth (length records) ∷ event_buffered ∷ [];
      }

  unfoldable pub accept_enabled : Instant → Event → Buffer → Result PassthroughError Buffer
  accept_enabled now e b = elim (raw_document e) [
    | err x ↦ err x
    | ok document ↦
        if leb b.opts.buffer_size (length b.records)
        then err passthrough_full
        else ok (buffered now e document b)
  ]

  unfoldable pub accept : Instant → Event → Buffer → Result PassthroughError Buffer
  accept now e b = if b.enabled then accept_enabled now e b else err passthrough_disabled

unfoldable pub reconfigure : Options → Bool → Buffer → Buffer
reconfigure opts enabled b = record b { opts = opts; enabled = enabled }

unfoldable pub pending : Buffer → List PassthroughRecord
pending b = take (min (length b.records) b.opts.batch_size) b.records

unfoldable pub verdicts : List PassthroughResult → Dict ℕ Disposition → Dict ℕ Disposition
verdicts [] m = m
verdicts (r ∷ rs) m = verdicts rs (insert r.sequence r.disposition m)

abbrev pub is_kept : Option Disposition → Bool
is_kept (some delivered) = false
is_kept (some permanent) = false
is_kept other = true

abbrev pub is_dropped : Option Disposition → Bool
is_dropped (some permanent) = true
is_dropped other = false

unfoldable pub kept : Dict ℕ Disposition → List PassthroughRecord → List PassthroughRecord
kept m [] = []
kept m (r ∷ rs) = let rest = kept m rs in if is_kept (lookup r.sequence m) then r ∷ rest else rest

-- `for range dropped`
unfoldable pub drop_metrics : Dict ℕ Disposition → List PassthroughRecord → List Metric
drop_metrics m [] = []
drop_metrics m (r ∷ rs) =
    let rest = drop_metrics m rs in
    if is_dropped (lookup r.sequence m) then event_dropped ∷ rest else rest

unfoldable pub resolve_buffer : List PassthroughResult → Buffer → Buffer
resolve_buffer results b =
    let m = verdicts results [] in
    record b {
      records = kept m b.records;
      recorded = b.recorded ++ buffer_depth (length (kept m b.records)) ∷ drop_metrics m b.records;
    }

unfoldable pub depth : Buffer → ℕ
depth b = length b.records

-- Receiving from `Ready()` empties the channel.
unfoldable pub take_ready : Buffer → Buffer × Bool
take_ready b = (record b { ready = false }, b.ready)

unfoldable pub flush_interval : Buffer → Duration
flush_interval b = b.opts.flush_interval
