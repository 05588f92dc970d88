-- ===== src/Domain/Projection/Timing.antt =====
-- The timestamps of a document in internal/domain/projection/document.go.
use flow_stitch.Base.{
  ◌||◌, none, some, List, [], ◌∷◌, map, Text, text_eq, nat_eq, ◌==◌, is_nil, if◌then◌else◌, or_else,
}
use flow_stitch.Base.Dict.{Dict, lookup}
use flow_stitch.Domain.Instant.{Instant, zero_time, is_zero, before, after}
use flow_stitch.Domain.Event.{Event}
use flow_stitch.Domain.DocPath.{resolve}
use flow_stitch.Domain.Rule.{
  Rule, Stitch, no_stitch, TimestampSource, timestamp_last_event, timestamp_finalized,
}
use flow_stitch.Domain.Flow.Defs.{Invocation}
use flow_stitch.Domain.Flow.Close.{Finalized}
use flow_stitch.Domain.Projection.Shape.{Parsers}

unfoldable pub event_timestamp : Parsers → Rule → Event → Instant
event_timestamp parse r e = elim (resolve r.extract.timestamp e.doc) [
  | none ↦ zero_time
  | some raw ↦ or_else (parse.parse_nano raw) zero_time
]

-- `flowTimes`: the earliest and the latest of the timestamps that can be read.
unfoldable pub widen : Instant → Instant × Instant → Instant × Instant
widen stamp (first, last) = if is_zero stamp then (first, last) else (
  if is_zero first || before stamp first then stamp else first,
  if is_zero last || after stamp last then stamp else last,
)

unfoldable pub times_from : Parsers → Rule → List Event → Instant × Instant → Instant × Instant
times_from parse r [] times = times
times_from parse r (e ∷ es) times = times_from parse r es (widen (event_timestamp parse r e) times)

unfoldable pub flow_times : Parsers → Rule → List Event → Instant × Instant
flow_times parse r events = times_from parse r events (zero_time, zero_time)

unfoldable pub timestamp_of : TimestampSource → Finalized → Instant × Instant → Instant
timestamp_of timestamp_finalized f times = f.finalized_at
timestamp_of timestamp_last_event f times = if is_nil f.events then zero_time else times.1
timestamp_of _ f times = if is_nil f.events then zero_time else times.0

unfoldable pub output_timestamp : Parsers → Finalized → Rule → Instant
output_timestamp parse f r = timestamp_of r.output.timestamp_source f (flow_times parse r f.events)

-- `invocationTimes`: the members of some roles, in their order.
unfoldable pub member_times :
    Parsers → Rule → Dict Text Event → List Text → Instant × Instant → Instant × Instant
member_times parse r members [] times = times
member_times parse r members (name ∷ names) times = elim (lookup name members) [
  | none ↦ member_times parse r members names times
  | some member ↦
      let stamp = event_timestamp parse r member in
      member_times parse r members names (if is_zero times.0 then stamp else times.0, stamp)
]

unfoldable pub role_names : Stitch → List Text
role_names stitch = map (λ role. role.name) stitch.roles

unfoldable pub required_names : Stitch → List Text
required_names stitch = if is_nil stitch.requires then role_names stitch else stitch.requires

unfoldable pub invocation_times : Parsers → Rule → Invocation → Stitch → Instant × Instant
invocation_times parse r i stitch =
    let times = member_times parse r i.members (required_names stitch) (zero_time, zero_time) in
    if is_zero times.0 then member_times parse r i.members (role_names stitch) times else times

unfoldable pub stitch_by_id : List Stitch → Text → Stitch
stitch_by_id [] id = no_stitch
stitch_by_id (s ∷ ss) id = if s.id == id then s else stitch_by_id ss id
