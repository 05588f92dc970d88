-- ===== src/Domain/Projection/Views.antt =====
-- The entries of a document in internal/domain/projection/document.go.
use flow_stitch.Base.{
  ℕ, Bool, none, some, List, [], ◌∷◌, ◌++◌, map, Text, codes, text_eq, text_ltb, nat_eq,
  if◌then◌else◌, or_else,
}
use flow_stitch.Base.Int.{ℤ, pos, negsuc, ltb_ℤ}
use flow_stitch.Base.Dict.{Dict, lookup, insert}
use flow_stitch.Base.Sort.{sort_by}
use flow_stitch.Domain.Event.{Event}
use flow_stitch.Domain.DocPath.{resolve}
use flow_stitch.Domain.Rule.{Rule, Role}
use flow_stitch.Domain.Flow.Defs.{
  Anomaly, anomaly_clock_skew, Invocation, Entry, EntryItem, stitched, plain_event,
}
use flow_stitch.Domain.Flow.Close.{Finalized}
use flow_stitch.Domain.Projection.Shape.{
  Parsers, TypeCount, Shown, number_item, shown_item, count_item, text_item, flag_item, time_item,
  doc_item, group_item, View, elapsed, milliseconds,
}
use flow_stitch.Domain.Projection.Timing.{event_timestamp, invocation_times, stitch_by_id}

unfoldable pub shown : Parsers → Rule → Event → Shown
shown parse r e = record {
  type = or_else (resolve r.extract.event_type e.doc) [];
  timestamp = event_timestamp parse r e;
  event = e.doc;
}

-- `invocationView`: the duration is -1 unless the invocation is complete.
unfoldable pub invocation_duration : Parsers → Rule → Invocation → ℤ
invocation_duration parse r i =
    let times = invocation_times parse r i (stitch_by_id r.stitch i.stitch_id) in
    if i.complete then milliseconds (elapsed times.1 times.0) else negsuc 0

unfoldable pub role_items : Parsers → Rule → Dict Text Event → List Role → View → View
role_items parse r members [] view = view
role_items parse r members (role ∷ roles) view = elim (lookup role.name members) [
  | none ↦ role_items parse r members roles view
  | some member ↦
      role_items parse r members roles (insert role.name (shown_item (shown parse r member)) view)
]

unfoldable pub invocation_items : Parsers → Rule → Invocation → View
invocation_items parse r i =
    let times = invocation_times parse r i (stitch_by_id r.stitch i.stitch_id) in
    let view : View =
      (codes "group", group_item i.group)
      ∷ (codes "complete", flag_item i.complete)
      ∷ (codes "started_at", time_item times.0)
      ∷ (codes "duration_ms", number_item (invocation_duration parse r i))
      ∷ [] in
    insert (codes "duplicate_count") (count_item i.duplicate_count)
      (if i.complete then insert (codes "ended_at") (time_item times.1) view else view)

unfoldable pub invocation_view : Parsers → Rule → Invocation → View × Bool
invocation_view parse r i = (
  role_items parse r i.members (stitch_by_id r.stitch i.stitch_id).roles
      (invocation_items parse r i),
  ltb_ℤ (invocation_duration parse r i) (pos 0),
)

unfoldable pub plain_view : Parsers → Rule → Event → View
plain_view parse r e =
    let s = shown parse r e in
    (codes "type", text_item s.type)
    ∷ (codes "timestamp", time_item s.timestamp)
    ∷ (codes "event", doc_item s.event)
    ∷ []

unfoldable pub clock_skew : Finalized → Anomaly
clock_skew f = record {
  kind = anomaly_clock_skew;
  detail = codes "invocation duration is negative";
  at = f.finalized_at;
}

-- The loop over the entries: their views, and the anomalies that it adds.
unfoldable pub entry_view : Parsers → Rule → Finalized → EntryItem → View × List Anomaly
entry_view parse r f (stitched i) =
    let (view, skewed) = invocation_view parse r i in
    (view, if skewed then clock_skew f ∷ [] else [])
entry_view parse r f (plain_event e) = (plain_view parse r e, [])

unfoldable pub entry_views : Parsers → Rule → Finalized → List Entry → List View × List Anomaly
entry_views parse r f [] = ([], [])
entry_views parse r f (x ∷ xs) =
    let (view, added) = entry_view parse r f x.item in
    let (views, more) = entry_views parse r f xs in (view ∷ views, added ++ more)

unfoldable pub duplicate_counts : Dict Text ℕ → List TypeCount
duplicate_counts duplicates =
    map (λ (t : Text). record { type = t; count = or_else (lookup t duplicates) 0 })
      (sort_by text_ltb (map (λ (kv : Text × ℕ). kv.0) duplicates))
