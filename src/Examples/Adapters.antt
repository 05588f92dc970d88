-- ===== src/Examples/Adapters.antt =====
-- The registry and the pass-through buffer.
use flow_stitch.Base.{
  ℕ, ◌+◌, ◌^◌, ◌≡◌, ◌≤◌, ◌<◌, refl, true, Option, none, some, List, [], ◌∷◌, ◌++◌, Text, codes,
  nat_eq, if◌then◌else◌, ltb, Result, ok, err, length, arith,
}
use flow_stitch.Base.Int.{pos}
use flow_stitch.Domain.Instant.{Instant}
use flow_stitch.Domain.Event.{Fields}
use flow_stitch.Domain.Rule.{reference_eq}
use flow_stitch.Domain.Outbox.{delivered}
use flow_stitch.Application.Ports.{PassthroughResult}
use flow_stitch.Adapters.Registry.{
  Registry, new_registry, publish, get, opens, match_and_retain, release, reference_of,
}
use flow_stitch.Adapters.Registry.Pinned.{
  created, retained, published, IsConsistent, Reached-IsConsistent, release-match_and_retain,
}
use flow_stitch.Adapters.Passthrough.{Options, Buffer, new_buffer, accept, resolve_buffer}
use flow_stitch.Adapters.Passthrough.Bounded.{Rises, sequences_rise}
use flow_stitch.Examples.Data.{one_event_rule, request, type_path}

abbrev started : Registry
started = new_registry (one_event_rule ∷ [])

-- A flow pins the rule, and the rule leaves the configuration.
abbrev reloaded : Registry
reloaded = publish [] (match_and_retain request started).0

Reached-IsConsistent_example : IsConsistent reloaded
Reached-IsConsistent_example =
    Reached-IsConsistent reloaded (published [] (retained request (created (one_event_rule ∷ []))))

request_matches : (match_and_retain request started).1 ≡ some one_event_rule
unfolding match_and_retain flow_stitch.Adapters.Registry.first_match new_registry
    flow_stitch.Adapters.Registry.next_snapshot flow_stitch.Adapters.Registry.owns
    flow_stitch.Domain.DocPath.resolve flow_stitch.Domain.Event.field? flow_stitch.Base.text_beq
request_matches = refl

release-match_and_retain_example :
    opens
      (reference_of one_event_rule)
      (release (reference_of one_event_rule) (match_and_retain request started).0).open_count
    ≡ opens (reference_of one_event_rule) started.open_count
release-match_and_retain_example =
    release-match_and_retain request started one_event_rule (reference_of one_event_rule)
      request_matches

no_json : Fields → Option Text
no_json doc = none

no_time : Text → Option Instant
no_time t = none

abbrev small_buffer : Buffer
small_buffer = new_buffer (record {
  index = codes "rest";
  timestamp = type_path;
  buffer_size = 2;
  batch_size = 1;
  flush_interval = pos 5;
})

abbrev filled : Buffer
filled = elim (accept no_json no_time 600 request small_buffer) [ ok b ↦ b | err e ↦ small_buffer ]

request_accepted : accept no_json no_time 600 request small_buffer ≡ ok filled
unfolding accept new_buffer flow_stitch.Adapters.Passthrough.accept_enabled
    flow_stitch.Adapters.Passthrough.raw_document
request_accepted = refl

buffer_starts : Rises 0 small_buffer.records small_buffer.next
unfolding new_buffer
buffer_starts = omega arith

counter_fits : small_buffer.next + 1 < 2 ^ 64
unfolding new_buffer
counter_fits = omega arith

abbrev verdicts_given : List PassthroughResult
verdicts_given = record { sequence = 1; disposition = delivered } ∷ []

sequences_rise_example :
    Rises 0 filled.records filled.next
    × Rises 0
        (resolve_buffer verdicts_given filled).records
        (resolve_buffer verdicts_given filled).next
sequences_rise_example =
    sequences_rise no_json no_time 600 request verdicts_given small_buffer filled buffer_starts
      counter_fits request_accepted
