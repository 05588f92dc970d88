-- ===== src/Adapters/MemoryStore/Counts.antt =====
-- The number of dead letters that internal/application/alerts/service.go keeps beside the store of
-- internal/adapters/state/memory/store.go, through `Drain` of internal/application/deliver/service.go.
use mathlib.Core.Option.{some-injective}
use flow_stitch.Base.{
  ℕ, ◌≡◌, refl, sym, ap, subst, ◌∙◌, list-cases, Bool, true, Option, none, some, List, [], ◌∷◌,
  Text, text_eq, nat_eq, ◌==◌, length, if◌then◌else◌, arith, Bool-cases, Option-cases, Result-cases,
  inl, inr, Result, ok, err,
}
use flow_stitch.Base.Dict.{IsMap}
use flow_stitch.Domain.Instant.{Instant, Duration}
use flow_stitch.Domain.Outbox.{Record, DeliveryResult}
use flow_stitch.Domain.Flow.Codec.{Json}
use flow_stitch.Application.Ports.{DeadLetterChange, PassthroughRecord, PassthroughResult}
use flow_stitch.Application.Alerts
use flow_stitch.Application.Alerts.{
  Kind, AlertCounts, ReasonCount, apply_dead_letter_change, transition, phase_of, state_of, observe,
}
use flow_stitch.Application.Deliver.{
  complete_results, records_by_id, classify_all, capture_all, DrainError, Drained, resolve_batch,
}
use flow_stitch.Application.Deliver.Drain.{
  Backlog, all_pending_deadline, tell_change, tell_depth, refresh_depth, drain_passthrough,
  finish_drain, finish_drain-store, tell_change-store, drain,
}
use flow_stitch.Adapters.Passthrough.{pending}
use flow_stitch.Adapters.MemoryStore.State.{Store, pending_outbox}
use flow_stitch.Adapters.MemoryStore.DeadLetters.{resolve_outbox}
use flow_stitch.Adapters.MemoryStore.DeadLetters.Resolve.{resolve_outbox-counted}
use flow_stitch.Adapters.MemoryStore.Port.{memory_tx}

-- The count that the alerts keep, where they are on.
abbrev pub records_of : Option Alerts.Service → Option ℕ
records_of none = none
records_of (some a) = some a.summary.records

abbrev pub counts : Option Alerts.Service → ℕ → Bool
counts none n = true
counts (some a) n = a.summary.records == n

transition-summary :
    (kind : Kind) (active : Bool) (now : Instant) (c : AlertCounts) (reasons : List ReasonCount)
    (indices : List Text) (oldest : Duration) (s : Alerts.Service)
    → (transition kind active now c reasons indices oldest s).0.summary ≡ s.summary
unfolding transition
transition-summary kind active now c reasons indices oldest s =
    elim (Option-cases (phase_of s.opts active now (state_of kind s.states))) [
      | inl e ↦ rw (e, transition) refl
      | inr (phase, e) ↦ rw (e, transition) refl
    ]

observe-summary :
    (records : List Record) (now : Instant) (s : Alerts.Service)
    → (observe records now s).0.summary ≡ s.summary
unfolding observe
observe-summary records now s = elim (Bool-cases s.opts.enabled) [
  | inl e ↦
      rw (e, observe) (transition-summary _ _ _ _ _ _ _ _ ∙ transition-summary _ _ _ _ _ _ _ _)
  | inr e ↦ rw (e, observe) refl
]

module _ (json : Json) (sink : List Record → List DeliveryResult × Option Text)
    (passthrough_sink : Option (List PassthroughRecord → List PassthroughResult × Option Text))
    (capture : Record → Text → Option Text) (backoff : Text → ℕ → Duration)
    (batch max_retries : ℕ) where
  abbrev pub drained_backlog : Instant → Backlog (memory_tx json) → Backlog (memory_tx json)
  drained_backlog now s =
      (drain (memory_tx json) sink passthrough_sink capture backoff batch max_retries now s).0

  abbrev finished : Instant → ℕ → Backlog (memory_tx json) → Backlog (memory_tx json)
  finished now n s =
      (finish_drain (memory_tx json) sink passthrough_sink capture backoff batch max_retries now n
        s).0

  abbrev told : DeadLetterChange → Backlog (memory_tx json) → Backlog (memory_tx json)
  told = tell_change (memory_tx json) sink passthrough_sink capture backoff batch max_retries

  drain_passthrough-alerts :
      (s : Backlog (memory_tx json))
      → (drain_passthrough
          (memory_tx json)
          sink
          passthrough_sink
          capture
          backoff
          batch
          max_retries
          s).0.alerts
        ≡ s.alerts
  unfolding drain_passthrough
  drain_passthrough-alerts s = elim (Option-cases s.passthrough) [
    | inl e ↦ rw (e, drain_passthrough) refl
    | inr (b, e) ↦ elim (list-cases (pending b)) [
      | inl n ↦ rw (e, n, drain_passthrough) refl
      | inr (p, ps, n) ↦ elim (Option-cases passthrough_sink) [
        | inl o ↦ rw (e, n, o, drain_passthrough) refl
        | inr (send, o) ↦ rw (e, n, o, drain_passthrough) refl
      ]
    ]
  ]

  tell_depth-records :
      (records : List Record) (now : Instant) (s : Backlog (memory_tx json))
      → records_of
          (tell_depth
            (memory_tx json)
            sink
            passthrough_sink
            capture
            backoff
            batch
            max_retries
            records
            now
            s).alerts
        ≡ records_of s.alerts
  unfolding tell_depth
  tell_depth-records records now s = elim (Option-cases s.alerts) [
    | inl e ↦ rw (e, tell_depth) (ap records_of e)
    | inr (a, e) ↦ rw (e, tell_depth) (ap (λ d. some d.records) (observe-summary records now a))
  ]

  finish_drain-records :
      (now : Instant) (n : ℕ) (s : Backlog (memory_tx json))
      → records_of (finished now n s).alerts ≡ records_of s.alerts
  unfolding finish_drain refresh_depth
  finish_drain-records now n s =
      let observed =
        tell_depth (memory_tx json) sink passthrough_sink capture backoff batch max_retries
          (pending_outbox all_pending_deadline 0 s.store) now s in
      ap records_of (drain_passthrough-alerts observed)
      ∙ tell_depth-records (pending_outbox all_pending_deadline 0 s.store) now s

  tell_change-records :
      (change : DeadLetterChange) (s : Backlog (memory_tx json)) (n : ℕ)
      → counts s.alerts n ≡ true
      → counts (told change s).alerts (if change.changed then change.records else n) ≡ true
  unfolding tell_change apply_dead_letter_change
  tell_change-records change s n h = elim (Option-cases s.alerts) [
    | inl e ↦
        rw (e, tell_change) (ap (λ o. counts o (if change.changed then change.records else n)) e)
    | inr (a, e) ↦ elim (Bool-cases change.changed) [
      | inl c ↦ rw (e, c, tell_change, apply_dead_letter_change) (ground arith)
      | inr c ↦ rw (e, c, tell_change, apply_dead_letter_change) (rw e at h)
    ]
  ]

  -- The dead letters are a map, and the alerts count them.
  abbrev pub Tracks : Backlog (memory_tx json) → Type 0
  Tracks s = IsMap s.store.dead × (counts s.alerts (length s.store.dead) ≡ true)

  counts-records :
      (o o' : Option Alerts.Service) (n : ℕ)
      → records_of o' ≡ records_of o
      → counts o n ≡ true
      → counts o' n ≡ true
  counts-records none none n e h = refl
  counts-records none (some a) n e h = cc
  counts-records (some a) none n e h = refl
  counts-records (some a) (some b) n e h =
      subst (λ m. (m == n) ≡ true) (sym (some-injective b.summary.records a.summary.records e)) h

  finish_drain-Tracks :
      (now : Instant) (n : ℕ) (s : Backlog (memory_tx json)) → Tracks s → Tracks (finished now n s)
  finish_drain-Tracks now n s (v, h) =
      let same = sym (
        finish_drain-store (memory_tx json) sink passthrough_sink capture backoff batch max_retries
          now n s) in
      (
        subst (λ t. IsMap t.dead) same v,
        subst (λ t. counts (finished now n s).alerts (length t.dead) ≡ true) same
            (counts-records s.alerts (finished now n s).alerts (length s.store.dead)
              (finish_drain-records now n s) h),
      )

  abbrev resolved : Instant → List Record → Store → Store × Result DrainError Drained
  resolved = resolve_batch (memory_tx json) sink capture backoff batch max_retries

  -- What a batch does to the dead letters.
  abbrev Counted : Store → Store × Result DrainError Drained → Type 0
  Counted s (s', err x) = s' ≡ s
  Counted s (s', ok done) =
      IsMap s'.dead
      × (length s'.dead ≡ (if done.change.changed then done.change.records else length s.dead))

  resolve_batch-Counted :
      (now : Instant) (rs : List Record) (s : Store) → IsMap s.dead → Counted s (resolved now rs s)
  unfolding resolve_batch
  resolve_batch-Counted now rs s v =
      let by_id = records_by_id rs [] in
      let results =
        classify_all backoff max_retries now by_id (complete_results rs (sink rs).0 (sink rs).1) in
      elim (Result-cases (capture_all capture by_id results)) [
        | inr (x, e) ↦ rw (e, resolve_batch) refl
        | inl (captured, e) ↦ elim (Result-cases (resolve_outbox results s)) [
          | inr (x, f) ↦ rw (e, f, resolve_batch) refl
          | inl (done, f) ↦
              let (count, still) = resolve_outbox-counted results s done.0 done.1 v f in
              rw (e, f, resolve_batch) (still, count)
        ]
      ]

  batch-Tracks :
      (now : Instant) (s : Backlog (memory_tx json)) (o : Store × Result DrainError Drained)
      → Counted s.store o
      → Tracks s
      → Tracks (elim o.1 [
        | err x ↦ record s { store = o.0 }
        | ok done ↦ finished now done.delivered_count (told done.change (record s { store = o.0 }))
      ])
  batch-Tracks now s (s', err x) c (v, h) = (
    subst (λ t. IsMap t.dead) (sym c) v,
    subst (λ t. counts s.alerts (length t.dead) ≡ true) (sym c) h,
  )
  batch-Tracks now s (s', ok done) (still, count) (v, h) =
      let after : Backlog (memory_tx json) = record s { store = s' } in
      let same = sym (
        tell_change-store (memory_tx json) sink passthrough_sink capture backoff batch max_retries
          done.change after) in
      let counted =
        subst (λ n. counts (told done.change after).alerts n ≡ true) (sym count)
          (tell_change-records done.change after (length s.store.dead) h) in
      finish_drain-Tracks now done.delivered_count (told done.change after) (
        subst (λ t. IsMap t.dead) same still,
        subst (λ t. counts (told done.change after).alerts (length t.dead) ≡ true) same counted,
      )

  idle :
      (now : Instant) (s : Backlog (memory_tx json))
      → pending_outbox now batch s.store ≡ []
      → drained_backlog now s ≡ finished now 0 s
  unfolding drain
  idle now s n = rw (n, drained_backlog, drain) refl

  refused :
      (now : Instant) (s : Backlog (memory_tx json)) (r : Record) (rs : List Record)
      (x : DrainError)
      → pending_outbox now batch s.store ≡ r ∷ rs
      → (resolved now (r ∷ rs) s.store).1 ≡ err x
      → drained_backlog now s ≡ record s { store = (resolved now (r ∷ rs) s.store).0 }
  unfolding drain
  refused now s r rs x n f = rw (n, f, drained_backlog, drain) refl

  applied :
      (now : Instant) (s : Backlog (memory_tx json)) (r : Record) (rs : List Record)
      (done : Drained)
      → pending_outbox now batch s.store ≡ r ∷ rs
      → (resolved now (r ∷ rs) s.store).1 ≡ ok done
      → drained_backlog now s
        ≡ finished now done.delivered_count
            (told done.change (record s { store = (resolved now (r ∷ rs) s.store).0 }))
  unfolding drain
  applied now s r rs done n f = rw (n, f, drained_backlog, drain) refl

  -- From dead letters that are a map, and alerts, where there are any, whose number of dead letters is
  -- the store's: after a drain, whatever comes of it, the dead letters are a map and the alerts' number
  -- is the store's again.
  pub drain-counts :
      (now : Instant) (s : Backlog (memory_tx json)) → Tracks s → Tracks (drained_backlog now s)
  drain-counts now s t = elim (list-cases (pending_outbox now batch s.store)) [
    | inl n ↦ subst Tracks (sym (idle now s n)) (finish_drain-Tracks now 0 s t)
    | inr (r, rs, n) ↦
        let o = resolved now (r ∷ rs) s.store in
        let tracked = batch-Tracks now s o (resolve_batch-Counted now (r ∷ rs) s.store t.0) t in
        elim (Result-cases o.1) [
          | inr (x, f) ↦ subst Tracks (sym (refused now s r rs x n f)) (rw f at tracked)
          | inl (done, f) ↦ subst Tracks (sym (applied now s r rs done n f)) (rw f at tracked)
        ]
  ]
