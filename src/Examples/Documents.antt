-- ===== src/Examples/Documents.antt =====
-- The document of a flow whose one event has a timestamp and a number to promote.
use flow_stitch.Base.{◌≡◌, ◌≤◌, ◌||◌, true, some, none, [], ◌∷◌, Text, text_eq, codes, All}
use flow_stitch.Domain.Instant.{is_zero}
use flow_stitch.Domain.Rule.{Rule, Promotion, long}
use flow_stitch.Domain.Flow.Defs.{limit_exceeded, open_flow}
use flow_stitch.Domain.Flow.Apply.{apply}
use flow_stitch.Domain.Flow.Close.{Finalized, finalize}
use flow_stitch.Domain.Projection.Shape.{Parsers}
use flow_stitch.Domain.Projection.Timing.{event_timestamp, flow_times}
use flow_stitch.Domain.Projection.Times.{spans, has_stamp, flow_times-span}
use flow_stitch.Examples.Data.{one_event_rule, id_path, type_path, request, call_key}

abbrev clock : Parsers
clock = record { parse_nano = λ t. some 450; parse_time = λ t. none; parse_float = λ t. none }

abbrev promoting_rule : Rule
promoting_rule = record one_event_rule {
  promote =
      record { name = codes "number"; path = id_path; type = long; from = codes "first" }
      ∷ record { name = codes "kind"; path = type_path; type = long; from = [] }
      ∷ [];
}

abbrev snapshot : Finalized
snapshot =
    finalize
      (apply (λ doc. some 1) (open_flow call_key promoting_rule request) request promoting_rule
        600).0
      limit_exceeded 600

abbrev describe : Promotion → Text → Text
describe p raw = p.name

flow_times-span_example :
    All
      (λ e.
        spans
          (flow_times clock promoting_rule (request ∷ []))
          (event_timestamp clock promoting_rule e)
        ≡ true)
      (request ∷ [])
    × ((flow_times clock promoting_rule (request ∷ [])).0
        ≤ (flow_times clock promoting_rule (request ∷ [])).1)
    × ((is_zero (flow_times clock promoting_rule (request ∷ [])).0
          || has_stamp clock promoting_rule
              (request ∷ [])
              (flow_times clock promoting_rule (request ∷ [])).0)
        ≡ true)
    × ((is_zero (flow_times clock promoting_rule (request ∷ [])).1
          || has_stamp clock promoting_rule
              (request ∷ [])
              (flow_times clock promoting_rule (request ∷ [])).1)
        ≡ true)
flow_times-span_example = flow_times-span clock promoting_rule (request ∷ [])
