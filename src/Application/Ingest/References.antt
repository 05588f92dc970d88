-- ===== src/Application/Ingest/References.antt =====
-- internal/application/ingest/service.go with the registry of internal/adapters/rules/registry.go: an
-- event that is not accepted leaves no reference to a rule version behind.
use flow_stitch.Base.{
  ◌≡◌, ◌≢◌, refl, sym, ap, ◌∙◌, Bool, true, false, Option, none, some, Text, is_nil, Result, ok,
  err, err-ne-ok, Option-cases, Bool-cases, Result-cases, inl, inr,
}
use flow_stitch.Domain.Instant.{Instant}
use flow_stitch.Domain.Event.{Event}
use flow_stitch.Domain.DocPath.{resolve}
use flow_stitch.Domain.Rule.{Rule, Reference, reference_eq}
use flow_stitch.Domain.Flow.Apply.{Size}
use flow_stitch.Application.Ports.{Tx, PassthroughPort, StoreError}
use flow_stitch.Application.Finalize.{Encoders}
use flow_stitch.Application.Ingest.{
  World, Outcome, IngestError, IngestResult, accept_event, accept_matched, accept_unmatched,
  accept_keyed, publish_outcome,
}
use flow_stitch.Adapters.Registry.{
  Registry, match_and_retain, first_match, release, opens, reference_of,
}
use flow_stitch.Adapters.Registry.Pinned.{release-match_and_retain}
use flow_stitch.Adapters.Registry.Port.{registry_port}

module _ (tx : Tx) (buffers : PassthroughPort) (enc : Encoders) (size : Size) where
  -- The registry after an error: the candidate is given back.
  abbrev GivesBack :
      Rule
      → World tx registry_port buffers enc size
      → World tx registry_port buffers enc size × Result IngestError IngestResult
      → Type 0
  GivesBack c w (w', ok r) = Unit {0}
  GivesBack c w (w', err x) = w'.registry ≡ release (reference_of c) w.registry

  publish_outcome-GivesBack :
      (c : Rule) (w : World tx registry_port buffers enc size)
      (out : tx.State × Result StoreError Outcome)
      → GivesBack c w (publish_outcome tx registry_port buffers enc size (reference_of c) w out)
  unfolding publish_outcome
  publish_outcome-GivesBack c w (s, err x) = refl
  publish_outcome-GivesBack c w (s, ok out) = tt

  accept_matched-GivesBack :
      (c : Rule) (capacity : Bool × Text) (e : Event) (now : Instant)
      (w : World tx registry_port buffers enc size)
      → GivesBack c w (accept_matched tx registry_port buffers enc size c capacity e now w)
  unfolding accept_matched accept_keyed
  accept_matched-GivesBack c (false, why) e now w = refl
  accept_matched-GivesBack c (true, why) e now w = elim (Option-cases (resolve c.key e.doc)) [
    | inl n ↦ rw (n, accept_matched) refl
    | inr (k, n) ↦ elim (Bool-cases (is_nil k)) [
      | inl m ↦ rw (n, m, accept_matched) refl
      | inr m ↦ rw (n, m, accept_matched) (publish_outcome-GivesBack c w _)
    ]
  ]

  given_back :
      (c : Rule) (w : World tx registry_port buffers enc size)
      (out : World tx registry_port buffers enc size × Result IngestError IngestResult)
      (x : IngestError)
      → GivesBack c w out
      → out.1 ≡ err x
      → out.0.registry ≡ release (reference_of c) w.registry
  given_back c w (w', ok r) x g h = absurd (err-ne-ok x r (sym h))
  given_back c w (w', err y) x g h = g

  unmatched_registry :
      (e : Event) (now : Instant) (s : tx.State) (r : Registry) (b : Option buffers.State)
      → (accept_unmatched tx registry_port buffers enc size e now
          (record { store = s; registry = r; buffer = b })).0.registry
        ≡ r
  unfolding accept_unmatched
  unmatched_registry e now s r none = refl
  unmatched_registry e now s r (some b) = elim (Result-cases (buffers.accept now e b)) [
    | inl (b', h) ↦ rw (h, accept_unmatched) refl
    | inr (x, h) ↦ rw (h, accept_unmatched) refl
  ]

  unretained :
      (e : Event) (r : Registry) → (match_and_retain e r).1 ≡ none → (match_and_retain e r).0 ≡ r
  unfolding match_and_retain
  unretained e r h = elim (Option-cases (first_match e r.snapshot.ordered)) [
    | inl n ↦ rw (n, match_and_retain) refl
    | inr (c, n) ↦ absurd (found c (rw (n, match_and_retain) at h))
  ]
    where
      found : (c : Rule) → ◌≢◌ {A = Option Rule} (some c) none
      found c x = cc

  -- An event that is answered with an error leaves every count of open flows of the registry as it
  -- was: what the match retained is released on every error.
  pub accept_event-references :
      (accepting : tx.State → Bool × Text) (now : Instant) (e : Event)
      (w : World tx registry_port buffers enc size) (x : IngestError) (k : Reference)
      → (accept_event tx registry_port buffers enc size accepting now e w).1 ≡ err x
      → opens k
          (accept_event tx registry_port buffers enc size accepting now e w).0.registry.open_count
        ≡ opens k w.registry.open_count
  unfolding accept_event
  accept_event-references accepting now e w x k h =
      let registry = (match_and_retain e w.registry).0 in
      let retained : World tx registry_port buffers enc size = record w { registry = registry } in
      elim (Option-cases (match_and_retain e w.registry).1) [
        | inl n ↦
            let same : (accept_event tx registry_port buffers enc size accepting now e w).0.registry
                ≡ registry =
              rw (n, accept_event) (unmatched_registry e now w.store registry w.buffer) in
            ap (λ r. opens k r.open_count) (same ∙ unretained e w.registry n)
        | inr (c, n) ↦
            let back : GivesBack c retained
                (accept_event tx registry_port buffers enc size accepting now e w) =
              rw (n, accept_event)
                (accept_matched-GivesBack c (accepting w.store) e now retained) in
            ap (λ r. opens k r.open_count)
              (given_back c retained
                (accept_event tx registry_port buffers enc size accepting now e w) x back h)
            ∙ release-match_and_retain e w.registry c k n
      ]
