-- ===== src/Domain/Flow/Close.antt =====
-- `ShouldClose` of internal/domain/flow/flow.go and `Finalize` of finalize.go.
pub mod Reasons
pub mod Deadline
use flow_stitch.Base.{
  ℕ, Bool, true, false, ◌&&◌, ◌||◌, Option, none, some, List, [], Text, nat_eq, ◌==◌, if◌then◌else◌,
  length, ltb, leb, not,
}
use flow_stitch.Base.Dict.{Dict}
use flow_stitch.Domain.Instant.{Instant, zero_time, is_zero, add, before, not_positive}
use flow_stitch.Domain.Event.{Event}
use flow_stitch.Domain.Rule.{Rule, is_close_all}
use flow_stitch.Domain.Flow.Defs.{
  Flow, FlowKey, Invocation, PlainEntry, Anomaly, Entry, Reason, terminal_event, limit_exceeded,
  invocations_complete, complete_invocations, incomplete_invocations, entries,
}

abbrev pub min_time : Instant → Instant → Instant
min_time a b = if before a b then a else b

-- `f.limitExceeded || (r.Limits.MaxEvents > 0 && len(f.events) >= r.Limits.MaxEvents)`
unfoldable pub at_limit : Flow → Rule → Bool
at_limit f r =
    f.limit_exceeded || (ltb 0 r.limits.max_events && leb r.limits.max_events (length f.events))

-- Every invocation is complete, and there is one.
unfoldable pub all_complete : Flow → Rule → Bool
all_complete f r =
    is_close_all r.lifecycle.close_when
    && ltb 0 (complete_invocations f)
    && incomplete_invocations f == 0

-- A settle window that is running is called off.
unfoldable pub cancel_settle : Flow → Flow
cancel_settle f =
    if is_zero f.settle_until
    then f
    else record f { settle_until = zero_time; expires_at = f.timeout_at }

unfoldable pub start_settle : Flow → Instant → Flow
start_settle f until = record f { settle_until = until; expires_at = min_time f.timeout_at until }

unfoldable pub settle : Flow → Rule → Instant → Flow × Option Reason
unfolding start_settle
settle f r now =
    if not_positive r.lifecycle.settle
    then (f, some invocations_complete)
    else if is_zero f.settle_until
    then (start_settle f (add now r.lifecycle.settle), none)
    else if before now f.settle_until
    then (f, none)
    else (f, some invocations_complete)

unfoldable pub should_close : Flow → Rule → Instant → Flow × Option Reason
should_close f r now =
    if f.terminal_seen
    then (f, some terminal_event)
    else if at_limit f r
    then (f, some limit_exceeded)
    else if all_complete f r
    then settle f r now
    else (cancel_settle f, none)

-- The immutable snapshot. Copies of maps and slices are the values themselves.
pub record Finalized : Type 0 where
  pub key : FlowKey
  pub rule_id : Text
  pub rule_version : Text
  pub reason : Reason
  pub events : List Event
  pub entries : List Entry
  pub invocations : List Invocation
  pub plain_entries : List PlainEntry
  pub anomalies : List Anomaly
  pub duplicate_count : ℕ
  pub duplicates : Dict Text ℕ
  pub incomplete_invocations : ℕ
  pub first_observed_at : Instant
  pub finalized_at : Instant

unfoldable pub finalize : Flow → Reason → Instant → Finalized
finalize f reason now = record {
  key = f.key;
  rule_id = f.key.rule_id;
  rule_version = f.rule_version;
  reason = reason;
  events = f.events;
  entries = entries f;
  invocations = f.invocations;
  plain_entries = f.plain;
  anomalies = f.anomalies;
  duplicate_count = f.duplicate_count;
  duplicates = f.duplicates;
  incomplete_invocations = incomplete_invocations f;
  first_observed_at = f.first_observed_at;
  finalized_at = now;
}
