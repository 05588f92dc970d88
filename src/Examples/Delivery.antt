-- ===== src/Examples/Delivery.antt =====
-- The delivery use case: a delay, and a drain whose sink delivers one record and rejects the other.
use flow_stitch.Base.{
  ℕ, ◌*◌, ◌≤◌, ◌≡◌, refl, true, Bool, ◌||◌, Option, none, some, List, [], ◌∷◌, Text, codes, text_eq,
  arith,
}
use flow_stitch.Base.Int.{pos}
use flow_stitch.Domain.Instant.{Duration}
use flow_stitch.Domain.Outbox.{Record, DeliveryResult, delivered, permanent}
use flow_stitch.Domain.Flow.Codec.{Json}
use flow_stitch.Application.Deliver.Backoff.{Jitter, JitterLaws}
use flow_stitch.Application.Deliver.Drain.{Backlog, drain}
use flow_stitch.Adapters.MemoryStore.State.{pending_outbox}
use flow_stitch.Adapters.MemoryStore.DeadLetters.Results.{held, delivered_in}
use flow_stitch.Adapters.MemoryStore.Port.{memory_tx}
use flow_stitch.Adapters.MemoryStore.Drain.{drained, drops_none, drain-held}
use flow_stitch.Adapters.MemoryStore.Counts.{Tracks, drained_backlog, drain-counts}
use flow_stitch.Application.Alerts.{new_service}
use flow_stitch.Examples.Data.{roomy_store, verdict}

abbrev steady : Jitter
steady = record { sample = λ t. 0; fraction_of = λ n d. 0; upper_quarter = λ n d. d }

abbrev steady_laws : JitterLaws steady
steady_laws = record {
  fraction-le = λ t d. omega arith;
  quarter-le = λ t d. omega arith;
  quarter-ge = λ t d. omega arith;
}

abbrev no_json : Json
no_json = record { marshal = λ x. none; unmarshal = λ raw. none }

abbrev answer : List Record → List DeliveryResult × Option Text
answer records = (verdict (codes "a") delivered ∷ verdict (codes "b") permanent ∷ [], none)

abbrev constant_delay : Text → ℕ → Duration
constant_delay id attempt = pos 1000

abbrev backlog : Backlog (memory_tx no_json)
backlog = record { store = roomy_store; alerts = none; reported = []; passthrough = none }

nothing_dropped :
    drops_none (drained no_json answer (λ r t. none) constant_delay 2 8 20 roomy_store).1 ≡ true
unfolding flow_stitch.Adapters.MemoryStore.DeadLetters.over_limit
    flow_stitch.Adapters.MemoryStore.DeadLetters.trim
    flow_stitch.Adapters.MemoryStore.DeadLetters.trim_dead_letters
    flow_stitch.Adapters.MemoryStore.DeadLetters.report_trimmed
    flow_stitch.Adapters.MemoryStore.DeadLetters.finish_resolve flow_stitch.Base.Dict.erase
    flow_stitch.Adapters.MemoryStore.DeadLetters.dead_letter
    flow_stitch.Adapters.MemoryStore.DeadLetters.resolve_found
    flow_stitch.Adapters.MemoryStore.DeadLetters.resolve_one
    flow_stitch.Adapters.MemoryStore.DeadLetters.resolve_results
    flow_stitch.Adapters.MemoryStore.DeadLetters.resolve_outbox flow_stitch.Base.select
    flow_stitch.Base.Sort.sort_by flow_stitch.Adapters.MemoryStore.State.limited
    flow_stitch.Application.Deliver.drain_outbox pending_outbox
    flow_stitch.Adapters.MemoryStore.State.values flow_stitch.Domain.Outbox.ready
    flow_stitch.Adapters.MemoryStore.State.pending_less
    flow_stitch.Application.Deliver.resolve_batch flow_stitch.Application.Deliver.capture_all
    flow_stitch.Application.Deliver.classify_all flow_stitch.Application.Deliver.complete_results
    flow_stitch.Application.Deliver.complete_from flow_stitch.Application.Deliver.is_permanent
    flow_stitch.Application.Deliver.classify flow_stitch.Base.Dict.lookup
    flow_stitch.Application.Deliver.results_by_id flow_stitch.Base.Dict.insert
    flow_stitch.Base.text_beq flow_stitch.Application.Deliver.bury_permanent
    flow_stitch.Application.Deliver.bury
nothing_dropped = refl

drain-held_example :
    (held
        (codes "b")
        (drain (memory_tx no_json) answer none (λ r t. none) constant_delay 2 8 20 backlog).0.store
      || delivered_in (codes "b") (answer (pending_outbox 20 2 roomy_store)).0)
    ≡ true
unfolding flow_stitch.Base.Dict.lookup flow_stitch.Base.text_beq
drain-held_example =
    drain-held no_json answer (λ r t. none) constant_delay 2 8 none 20 backlog (codes "b")
      (refl, tt) refl nothing_dropped

abbrev watched : Backlog (memory_tx no_json)
watched = record backlog {
  alerts = some (
      new_service
        (record {
          enabled = true;
          index = codes "w";
          min_interval = pos 5;
          outbox_age_threshold = pos 5;
        })
        (record { records = 1; dropped = 0; reasons = []; indices = [] }));
}

drain-counts_example :
    Tracks no_json answer none
      (λ r t. none)
      constant_delay
      2
      8
      (drained_backlog no_json answer none (λ r t. none) constant_delay 2 8 20 watched)
unfolding new_service flow_stitch.Base.Dict.lookup
drain-counts_example =
    drain-counts no_json answer none (λ r t. none) constant_delay 2 8 20 watched ((refl, tt), refl)
