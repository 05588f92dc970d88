-- ===== src/Application/Ingest.antt =====
-- internal/application/ingest/service.go: accepting one event, and a batch. The ports are arguments:
-- the store's transactions, the registry, the pass-through buffer (absent when none is attached) and
-- the capacity check. The recorder's counters are left out.
pub mod Exclusive
pub mod References
use flow_stitch.Base.{
  ◌≡◌, Bool, true, false, ◌&&◌, not, Option, none, some, List, [], ◌∷◌, ◌++◌, Text, codes, is_nil,
  is_some, or_else, if◌then◌else◌, Result, ok, err, ◌>>=◌,
}
use flow_stitch.Domain.Instant.{Instant}
use flow_stitch.Domain.Event.{Event}
use flow_stitch.Domain.DocPath.{resolve}
use flow_stitch.Domain.Rule.{Rule, Reference}
use flow_stitch.Domain.Flow.Defs.{Flow, FlowKey, Reason, open_flow}
use flow_stitch.Domain.Flow.Apply.{Size, apply}
use flow_stitch.Domain.Flow.Close.{should_close}
use flow_stitch.Application.Ports.{
  Tx, StoreError, RuleRegistry, PassthroughPort, PassthroughError, passthrough_disabled,
  passthrough_full, with_tx,
}
use flow_stitch.Application.Finalize.{Encoders, finalize_flow}

pub data IngestDisposition : Type 0 where
  correlated finalized duplicate passed_through quarantined : IngestDisposition

-- The reason is the closing reason, or the text of a rejection.
pub data IngestReason : Type 0 where
  no_reason no_matching_rule : IngestReason
  closed : Reason → IngestReason

pub record IngestResult : Type 0 where
  pub disposition : IngestDisposition
  pub reason : IngestReason

-- `ErrRejected`, or `ErrUnavailable` joined with its cause.
pub data Cause : Type 0 where
  capacity : Text → Cause
  passthrough : PassthroughError → Cause
  store : StoreError → Cause

pub data IngestError : Type 0 where
  rejected : IngestError
  unavailable : Cause → IngestError

-- What the transaction's function leaves in the variables around it.
pub record Outcome : Type 0 where
  pub result : IngestResult
  pub opened : Bool
  pub finalized_reference : Option Reference

pub record Loaded : Type 0 where
  pub current : Flow
  pub opened : Bool
  pub rule : Rule

abbrev pub reference_of : Rule → Reference
reference_of r = record { id = r.id; version = r.version }

unfoldable pub closed_with : Loaded → Reason → Outcome
closed_with loaded reason = record {
  result = record { disposition = finalized; reason = closed reason };
  opened = loaded.opened;
  finalized_reference = some (reference_of loaded.rule);
}

unfoldable pub kept_open : Loaded → Bool → Outcome
kept_open loaded is_duplicate = record {
  result = record {
    disposition = if is_duplicate then duplicate else correlated;
    reason = no_reason;
  };
  opened = loaded.opened;
  finalized_reference = none;
}

module _ (tx : Tx) (rules : RuleRegistry) (buffers : PassthroughPort) (enc : Encoders)
    (size : Size) where
  -- The service's ports with their states.
  pub record World : Type 0 where
    pub store : tx.State
    pub registry : rules.State
    pub buffer : Option buffers.State

  unfoldable pub loaded_from : Rule → FlowKey → Event → rules.State → Option Flow → Loaded
  loaded_from configured key e registry none = record {
    current = open_flow key configured e;
    opened = true;
    rule = configured;
  }
  loaded_from configured key e registry (some f) = record {
    current = f;
    opened = false;
    rule =
        or_else (rules.get (record { id = key.rule_id; version = f.rule_version }) registry)
          f.pinned_rule;
  }

  unfoldable pub load_or_open :
      Rule → FlowKey → Event → rules.State → tx.State → Result StoreError Loaded
  load_or_open configured key e registry s = do
    found ← tx.load_flow key s
    ok (loaded_from configured key e registry found)

  -- The end of the transaction: `ShouldClose` decides between the outbox and the open flow.
  unfoldable pub settle_flow :
      Loaded
      → Bool
      → Instant
      → Flow × Option Reason
      → tx.State
      → Result StoreError (tx.State × Outcome)
  settle_flow loaded is_duplicate now (f, some reason) s = do
    (s', id) ← finalize_flow tx enc f loaded.rule reason now s
    ok (s', closed_with loaded reason)
  settle_flow loaded is_duplicate now (f, none) s = do
    s' ← tx.save_flow f s
    ok (s', kept_open loaded is_duplicate)

  unfoldable pub correlate :
      Rule
      → FlowKey
      → Event
      → Instant
      → rules.State
      → tx.State
      → Result StoreError (tx.State × Outcome)
  correlate configured key e now registry s = do
    loaded ← load_or_open configured key e registry s
    let (f, is_duplicate) = apply size loaded.current e loaded.rule now
    settle_flow loaded is_duplicate now (should_close f loaded.rule now) s

  -- The releases behind the transaction: the flow that closed gives up the version it pinned, and
  -- the candidate is kept only for a flow that it opened and that stays open.
  unfoldable pub release_closed : Outcome → rules.State → rules.State
  release_closed out registry = elim out.finalized_reference [
    | none ↦ registry
    | some reference ↦ if out.opened then registry else rules.release reference registry
  ]

  unfoldable pub release_after : Reference → Outcome → rules.State → rules.State
  release_after candidate out registry =
      let after_flow = release_closed out registry in
      if out.opened && not (is_some out.finalized_reference)
      then after_flow
      else rules.release candidate after_flow

  unfoldable pub publish_outcome :
      Reference
      → World
      → tx.State × Result StoreError Outcome
      → World × Result IngestError IngestResult
  publish_outcome candidate w (s, err x) = (
    record w { store = s; registry = rules.release candidate w.registry },
    err (unavailable (store x)),
  )
  publish_outcome candidate w (s, ok out) =
      (record w { store = s; registry = release_after candidate out w.registry }, ok out.result)

  unfoldable pub accept_keyed :
      Rule → Text → Event → Instant → World → World × Result IngestError IngestResult
  accept_keyed configured correlation_key e now w = publish_outcome (reference_of configured) w (
      with_tx
        (correlate configured
          (record { rule_id = configured.id; correlation_key = correlation_key }) e now w.registry)
        w.store)

  unfoldable pub accept_matched :
      Rule → Bool × Text → Event → Instant → World → World × Result IngestError IngestResult
  accept_matched configured (accepting, why) e now w =
      let give_back = record w { registry = rules.release (reference_of configured) w.registry } in
      if accepting
      then elim (resolve configured.key e.doc) [
        | none ↦ (give_back, err rejected)
        | some correlation_key ↦
            if is_nil correlation_key
            then (give_back, err rejected)
            else accept_keyed configured correlation_key e now w
      ]
      else (give_back, err (unavailable (capacity why)))

  unfoldable pub refused : IngestResult
  refused = record { disposition = quarantined; reason = no_matching_rule }

  unfoldable pub passthrough_refused : PassthroughError → Result IngestError IngestResult
  passthrough_refused passthrough_disabled = ok refused
  passthrough_refused e = err (unavailable (passthrough e))

  unfoldable pub accept_unmatched :
      Event → Instant → World → World × Result IngestError IngestResult
  accept_unmatched e now w = elim w.buffer [
    | none ↦ (w, ok refused)
    | some b ↦ elim (buffers.accept now e b) [
      | err x ↦ (w, passthrough_refused x)
      | ok b' ↦ (
        record w { buffer = some b' },
        ok (record { disposition = passed_through; reason = no_reason }),
      )
    ]
  ]

  unfoldable pub accept_event :
      (tx.State → Bool × Text) → Instant → Event → World → World × Result IngestError IngestResult
  accept_event accepting now e w =
      let (registry, matched) = rules.match_and_retain e w.registry in
      let retained = record w { registry = registry } in
      elim matched [
        | none ↦ accept_unmatched e now retained
        | some configured ↦ accept_matched configured (accepting w.store) e now retained
      ]

  -- A full buffer asks for a retry, and the batch goes on.
  unfoldable pub is_backpressure : IngestError → Bool
  is_backpressure (unavailable (passthrough passthrough_full)) = true
  is_backpressure x = false

  -- `AcceptBatch`, each event with the time at which the clock is read: a full buffer is remembered
  -- and skipped, any other error ends the batch.
  unfoldable pub accept_batch :
      (tx.State → Bool × Text)
      → List (Instant × Event)
      → World
      → World × List IngestResult × Option IngestError
  accept_batch accepting [] w = (w, [], none)
  accept_batch accepting ((now, e) ∷ es) w =
      let (w', r) = accept_event accepting now e w in
      let (w'', results, problem) = accept_batch accepting es w' in
      elim r [
        | ok res ↦ (w'', res ∷ results, problem)
        | err x ↦
            if is_backpressure x then (w'', results, some (or_else problem x)) else (w', [], some x)
      ]
