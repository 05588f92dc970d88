-- ===== src/Application/Ingest/Exclusive.antt =====
-- internal/application/ingest/service.go: after a transaction that succeeds, the event's flow is
-- either open or in the outbox, and never both.
use flow_stitch.Base.{
  ◌≡◌, refl, ap, subst, ◌∙◌, Bool, true, false, Option, none, some, ok, >>=-eq-ok, ok-injective,
}
use flow_stitch.Domain.Instant.{Instant}
use flow_stitch.Domain.Event.{Event}
use flow_stitch.Domain.Rule.{Rule, Reference}
use flow_stitch.Domain.Flow.Defs.{Flow, FlowKey, Reason, open_flow}
use flow_stitch.Domain.Flow.Apply.{Size, apply}
use flow_stitch.Domain.Flow.Apply.Header.{header-apply}
use flow_stitch.Domain.Flow.Close.{should_close}
use flow_stitch.Domain.Flow.Close.Deadline.{should_close_cases}
use flow_stitch.Application.Ports.{Tx, TxLaws, RuleRegistry, PassthroughPort}
use flow_stitch.Application.Finalize.{Encoders, finalize_flow, finalize_flow-lem, new_output_id}
use flow_stitch.Application.Ingest.{
  Loaded, Outcome, loaded_from, closed_with, kept_open, load_or_open, settle_flow, correlate,
}

module _ (tx : Tx) (rules : RuleRegistry) (buffers : PassthroughPort) (enc : Encoders) (size : Size)
    (laws : TxLaws tx) where
  -- Where the flow of a key is, by the outcome: in the outbox under an ID of its rule and key and
  -- not open, or open.
  abbrev pub Settled : FlowKey → Option Reference → tx.State → Type 0
  Settled key none s = laws.holds_flow key s ≡ true
  Settled key (some reference) s =
      (laws.holds_flow key s ≡ false)
      × ((first : Instant) × (laws.holds_output
              (new_output_id enc reference.id key.correlation_key first) s
            ≡ true))

  settle_flow-Settled :
      (key : FlowKey) (loaded : Loaded) (d : Bool) (now : Instant) (f : Flow)
      (closing : Option Reason) (s s' : tx.State) (out : Outcome)
      → f.key ≡ key
      → settle_flow tx rules buffers enc size loaded d now (f, closing) s ≡ ok (s', out)
      → Settled key out.finalized_reference s'
  unfolding settle_flow closed_with kept_open
  settle_flow-Settled key loaded d now f (some reason) s s' out k h =
      let rule = loaded.rule in
      let ((t, id), done, h1) =
        >>=-eq-ok (finalize_flow tx enc f rule reason now s)
          (λ p. ok (p.0, closed_with loaded reason)) (s', out) h in
      let (gone, waits, same) = finalize_flow-lem tx enc laws f rule reason now s t id done in
      subst (λ p. Settled key p.1.finalized_reference p.0)
        (ok-injective (t, closed_with loaded reason) (s', out) h1)
        (
          subst (λ x. laws.holds_flow x t ≡ false) k gone,
          (
            f.first_observed_at,
            subst
                (λ x.
                  laws.holds_output
                    (new_output_id enc rule.id x.correlation_key f.first_observed_at) t
                  ≡ true)
                k (subst (λ x. laws.holds_output x t ≡ true) same waits),
          ),
        )
  settle_flow-Settled key loaded d now f none s s' out k h =
      let (t, saved, h1) =
        >>=-eq-ok (tx.save_flow f s) (λ t. ok (t, kept_open loaded d)) (s', out) h in
      subst (λ p. Settled key p.1.finalized_reference p.0)
        (ok-injective (t, kept_open loaded d) (s', out) h1)
        (subst (λ x. laws.holds_flow x t ≡ true) k (laws.save-holds f s t saved))

  loaded_from-key :
      (configured : Rule) (key : FlowKey) (e : Event) (registry : rules.State) (s : tx.State)
      (found : Option Flow)
      → laws.valid s
      → tx.load_flow key s ≡ ok found
      → (loaded_from tx rules buffers enc size configured key e registry found).current.key ≡ key
  unfolding loaded_from open_flow
  loaded_from-key configured key e registry s none v got = refl
  loaded_from-key configured key e registry s (some f) v got = laws.load-key key s f v got

  loaded-key :
      (configured : Rule) (key : FlowKey) (e : Event) (registry : rules.State) (s : tx.State)
      (l : Loaded)
      → laws.valid s
      → load_or_open tx rules buffers enc size configured key e registry s ≡ ok l
      → l.current.key ≡ key
  unfolding load_or_open
  loaded-key configured key e registry s l v h =
      let (found, got, h1) =
        >>=-eq-ok (tx.load_flow key s)
          (λ o. ok (loaded_from tx rules buffers enc size configured key e registry o)) l h in
      subst (λ x. x.current.key ≡ key)
        (ok-injective (loaded_from tx rules buffers enc size configured key e registry found) l h1)
        (loaded_from-key configured key e registry s found v got)

  -- A transaction that accepts an event and succeeds, on a store that files each flow under its own
  -- key, leaves the event's flow either open, or not open and with its output in the outbox.
  pub correlate-Settled :
      (configured : Rule) (key : FlowKey) (e : Event) (now : Instant) (registry : rules.State)
      (s s' : tx.State) (out : Outcome)
      → laws.valid s
      → correlate tx rules buffers enc size configured key e now registry s ≡ ok (s', out)
      → Settled key out.finalized_reference s'
  unfolding correlate
  correlate-Settled configured key e now registry s s' out v h =
      let (l, loaded, h1) =
        >>=-eq-ok (load_or_open tx rules buffers enc size configured key e registry s)
          (λ l.
            settle_flow tx rules buffers enc size l (apply size l.current e l.rule now).1 now
              (should_close (apply size l.current e l.rule now).0 l.rule now) s)
          (s', out) h in
      let f = (apply size l.current e l.rule now).0 in
      let k : f.key ≡ key =
        ap (λ x. x.key) (header-apply size l.current e l.rule now)
        ∙ loaded-key configured key e registry s l v loaded in
      settle_flow-Settled key l (apply size l.current e l.rule now).1 now
        (should_close f l.rule now).0 (should_close f l.rule now).1 s s' out
        (should_close_cases (λ g. g.key ≡ key) f l.rule now (λ u d. k)) h1
