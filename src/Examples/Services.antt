-- ===== src/Examples/Services.antt =====
-- Ingestion, delivery and alerts.
use flow_stitch.Base.{
  ℕ, ◌+◌, ◌≡◌, refl, Bool, true, false, Option, none, some, List, [], ◌∷◌, map, Text, codes,
  text_eq, Result, ok, err, is_some,
}
use flow_stitch.Base.Int.{pos, ltb_ℤ}
use flow_stitch.Base.Dict.{Dict, lookup}
use flow_stitch.Domain.Instant.{Duration, sub}
use flow_stitch.Domain.Rule.{Rule, Reference}
use flow_stitch.Domain.Flow.Apply.{Size}
use flow_stitch.Domain.Flow.Defs.{Flow, limit_exceeded, open_flow}
use flow_stitch.Domain.Flow.Codec.{Json}
use flow_stitch.Domain.Outbox.{delivered, Record}
use flow_stitch.Application.Ports.{Tx, TxLaws, StoreError, PassthroughPort, passthrough_full}
use flow_stitch.Application.Finalize.{Encoders, finalize_flow, finalize_flow-lem, new_output_id}
use flow_stitch.Application.Ingest.{
  World, accept_event, unavailable, capacity, Outcome, correlate, quarantined, no_reason,
}
use flow_stitch.Application.Ingest.Exclusive.{Settled, correlate-Settled}
use flow_stitch.Application.Ingest.References.{accept_event-references}
use flow_stitch.Application.Deliver.{complete_results}
use flow_stitch.Application.Deliver.Classify.{complete_results-output_ids}
use flow_stitch.Application.Alerts.{
  Service, AlertOptions, AlertCounts, dlq, new_service, transition, state_of,
}
use flow_stitch.Application.Alerts.Phases.{transition-active, transition-quiet}
use flow_stitch.Adapters.Registry.{new_registry, opens, reference_of}
use flow_stitch.Adapters.Registry.Port.{registry_port}
use flow_stitch.Adapters.MemoryStore.State.{Store}
use flow_stitch.Adapters.MemoryStore.Port.{memory_tx, memory_laws, IsFaithful}
use flow_stitch.Examples.Data.{one_event_rule, call_key, request, small_store, waiting, verdict}

-- The memory store without an encoder: flows that close at once need none.
abbrev no_encoder : Json
no_encoder = record { marshal = λ x. none; unmarshal = λ raw. none }

no_encoder-IsFaithful : IsFaithful no_encoder
no_encoder-IsFaithful x raw h = cc

abbrev store_tx : Tx
store_tx = memory_tx no_encoder

abbrev store_laws : TxLaws store_tx
store_laws = memory_laws no_encoder no_encoder-IsFaithful

abbrev no_buffer : PassthroughPort
no_buffer = record { State = Unit {0}; accept = λ now e s. err passthrough_full }

abbrev encoders : Encoders
encoders = record {
  project = λ snapshot configured. ok (record { timestamp = 600; raw = codes "document" });
  digest = λ t. t;
  format_time = λ t. codes "t";
}

abbrev unit_size : Size
unit_size doc = some 1

abbrev settled : Result StoreError (Store × Outcome)
settled =
    correlate store_tx registry_port no_buffer encoders unit_size one_event_rule call_key request
      600 (new_registry (one_event_rule ∷ [])) small_store

abbrev nothing : Outcome
nothing = record {
  result = record { disposition = quarantined; reason = no_reason };
  opened = false;
  finalized_reference = none;
}

abbrev settled_pair : Store × Outcome
settled_pair = elim settled [ ok p ↦ p | err e ↦ (small_store, nothing) ]

request_settles : settled ≡ ok (settled_pair.0, settled_pair.1)
unfolding flow_stitch.Application.Ingest.loaded_from flow_stitch.Application.Ingest.load_or_open
    flow_stitch.Application.Ingest.settle_flow flow_stitch.Application.Ingest.correlate
    flow_stitch.Application.Finalize.finalize_flow flow_stitch.Domain.Flow.Apply.apply
    flow_stitch.Domain.Flow.Roles.role_of_type flow_stitch.Domain.Flow.Roles.role_in_stitches
    flow_stitch.Domain.Flow.Roles.matching_role flow_stitch.Domain.Flow.Roles.resolve_group
    flow_stitch.Domain.Flow.Close.at_limit flow_stitch.Domain.Flow.Close.should_close
    flow_stitch.Domain.Flow.Defs.open_flow flow_stitch.Domain.Rule.group_fields_from
    flow_stitch.Domain.Rule.group_fields flow_stitch.Domain.Rule.is_terminal
    flow_stitch.Domain.DocPath.resolve flow_stitch.Domain.Event.same_doc
    flow_stitch.Base.Dict.lookup flow_stitch.Adapters.MemoryStore.State.load_flow
    flow_stitch.Base.text_beq
request_settles = refl

small_store-keyed : store_laws.valid small_store
unfolding lookup
small_store-keyed k f h = cc

correlate-Settled_example :
    Settled store_tx registry_port no_buffer encoders unit_size store_laws call_key
      settled_pair.1.finalized_reference settled_pair.0
correlate-Settled_example =
    correlate-Settled store_tx registry_port no_buffer encoders unit_size store_laws one_event_rule
      call_key request 600 (new_registry (one_event_rule ∷ [])) small_store settled_pair.0
      settled_pair.1 small_store-keyed request_settles

abbrev fresh : Flow
fresh = open_flow call_key one_event_rule request

abbrev finalized_run : Result StoreError (Store × Text)
finalized_run = finalize_flow store_tx encoders fresh one_event_rule limit_exceeded 600 small_store

abbrev finalized_pair : Store × Text
finalized_pair = elim finalized_run [ ok p ↦ p | err e ↦ (small_store, []) ]

flow_finalizes : finalized_run ≡ ok (finalized_pair.0, finalized_pair.1)
unfolding finalize_flow
flow_finalizes = refl

finalize_flow-lem_example :
    (store_laws.holds_flow fresh.key finalized_pair.0 ≡ false)
    × (store_laws.holds_output finalized_pair.1 finalized_pair.0 ≡ true)
    × (finalized_pair.1
        ≡ new_output_id encoders one_event_rule.id fresh.key.correlation_key
            fresh.first_observed_at)
finalize_flow-lem_example =
    finalize_flow-lem store_tx encoders store_laws fresh one_event_rule limit_exceeded 600
      small_store finalized_pair.0 finalized_pair.1 flow_finalizes

abbrev batch : List Record
batch = waiting (codes "a") 10 ∷ waiting (codes "b") 5 ∷ []

-- The sink answers for one record of two.
complete_results-output_ids_example :
    map
      (λ r. r.output_id)
      (complete_results batch (verdict (codes "b") delivered ∷ []) (some (codes "EOF")))
    ≡ map (λ r. r.output_id) batch
complete_results-output_ids_example =
    complete_results-output_ids batch (verdict (codes "b") delivered ∷ []) (some (codes "EOF"))

abbrev one_second : Text → ℕ → Duration
one_second id attempt = pos 1000000000

abbrev alerting : Service
alerting =
    new_service
      (record {
        enabled = true;
        index = codes "alerts";
        min_interval = pos 100;
        outbox_age_threshold = pos 50;
      })
      (record { records = 1; dropped = 0; reasons = []; indices = [] })

abbrev counted : AlertCounts
counted = record { dead_letter_records = 1; dead_letter_dropped = 0; outbox_records = 0 }

transition-active_example :
    (state_of dlq (transition dlq true 1000 counted [] [] (pos 0) alerting).0.states).active ≡ true
transition-active_example = transition-active dlq true 1000 counted [] [] (pos 0) alerting

alert_emitted : is_some (transition dlq true 1000 counted [] [] (pos 0) alerting).1 ≡ true
unfolding transition flow_stitch.Application.Alerts.phase_of state_of new_service
alert_emitted = refl

soon : ltb_ℤ (sub 1050 1000) alerting.opts.min_interval ≡ true
unfolding new_service
soon = refl

transition-quiet_example :
    transition dlq true 1050 counted [] []
      (pos 0)
      (transition dlq true 1000 counted [] [] (pos 0) alerting).0
    ≡ ((transition dlq true 1000 counted [] [] (pos 0) alerting).0, none)
transition-quiet_example =
    transition-quiet dlq true 1000 1050 counted counted [] [] [] [] (pos 0) (pos 0) alerting
      alert_emitted soon

abbrev idle : World store_tx registry_port no_buffer encoders unit_size
idle = record { store = small_store; registry = new_registry (one_event_rule ∷ []); buffer = none }

-- A store that is past its high-water mark.
full : Store → Bool × Text
full s = (false, codes "outbox full")

request_refused :
    (accept_event store_tx registry_port no_buffer encoders unit_size full 600 request idle).1
    ≡ err (unavailable (capacity (codes "outbox full")))
unfolding accept_event full flow_stitch.Adapters.Registry.match_and_retain
    flow_stitch.Adapters.Registry.first_match new_registry
    flow_stitch.Adapters.Registry.next_snapshot flow_stitch.Adapters.Registry.owns
    flow_stitch.Domain.DocPath.resolve flow_stitch.Domain.Event.field? flow_stitch.Base.text_beq
    flow_stitch.Application.Ingest.accept_matched
request_refused = refl

accept_event-references_example :
    opens
      (reference_of one_event_rule)
      (accept_event store_tx registry_port no_buffer encoders unit_size full 600 request
        idle).0.registry.open_count
    ≡ opens (reference_of one_event_rule) idle.registry.open_count
accept_event-references_example =
    accept_event-references store_tx no_buffer encoders unit_size full 600 request idle
      (unavailable (capacity (codes "outbox full"))) (reference_of one_event_rule) request_refused
