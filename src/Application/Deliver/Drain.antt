-- ===== src/Application/Deliver/Drain.antt =====
-- `Drain` of internal/application/deliver/service.go as a whole: the outbox, the refresh of its depth,
-- which the alerts observe, and the pass-through records. Metrics are left out.
use flow_stitch.Base.{
  ℕ, ◌+◌, ◌*◌, ◌^◌, Option, none, some, List, [], ◌∷◌, ◌++◌, Text, Result, ok, err, ◌≡◌, refl, ap,
  ◌∙◌, list-cases, Option-cases, Result-cases, inl, inr, if◌then◌else◌,
}
use flow_stitch.Domain.Instant.{Instant, Duration}
use flow_stitch.Domain.Outbox.{Record, DeliveryResult}
use flow_stitch.Application.Ports.{
  Tx, StoreError, DeadLetterChange, PassthroughRecord, PassthroughResult,
}
use flow_stitch.Application.Alerts
use flow_stitch.Application.Alerts.{Document, apply_dead_letter_change, observe}
use flow_stitch.Application.Deliver.{
  DrainError, load_pending, resolve_batch, drain_outbox, complete_passthrough, is_delivered,
}
use flow_stitch.Adapters.Passthrough.{Buffer, pending, resolve_buffer}

-- `time.Unix(allPendingDeadline, 0)`: the seconds to the epoch and from it.
unfoldable pub all_pending_deadline : Instant
all_pending_deadline = (62135596800 + 253402300799) * 10 ^ 9

pub data ServiceError : Type 0 where
  drain_failed : DrainError → ServiceError
  refresh_failed : StoreError → ServiceError
  unsupported : ServiceError
  sink_failed : Text → ServiceError

unfoldable pub count_passed : List PassthroughResult → ℕ
count_passed [] = 0
count_passed (r ∷ rs) =
    let rest = count_passed rs in (if is_delivered r.disposition then rest + 1 else rest)

-- What a drain works on. `reported` holds the alert documents that are handed to delivery.
pub record Backlog (tx : Tx) : Type 0 where
  pub store : tx.State
  pub alerts : Option Alerts.Service
  pub reported : List Document
  pub passthrough : Option Buffer

module _ (tx : Tx) (sink : List Record → List DeliveryResult × Option Text)
    (passthrough_sink : Option (List PassthroughRecord → List PassthroughResult × Option Text))
    (capture : Record → Text → Option Text) (backoff : Text → ℕ → Duration)
    (batch max_retries : ℕ) where
  unfoldable pub tell_change : DeadLetterChange → Backlog tx → Backlog tx
  tell_change change s = elim s.alerts [
    | none ↦ s
    | some a ↦ record s { alerts = some (apply_dead_letter_change change a) }
  ]

  unfoldable pub tell_depth : List Record → Instant → Backlog tx → Backlog tx
  tell_depth records now s = elim s.alerts [
    | none ↦ s
    | some a ↦
        let (told, documents) = observe records now a in
        record s { alerts = some told; reported = s.reported ++ documents }
  ]

  unfoldable pub refresh_depth : Instant → Backlog tx → Result ServiceError (Backlog tx)
  refresh_depth now s = elim (tx.pending_outbox all_pending_deadline 0 s.store) [
    | err e ↦ err (refresh_failed e)
    | ok records ↦ ok (tell_depth records now s)
  ]

  -- A count and an error, as in Go.
  unfoldable pub drain_passthrough : Backlog tx → Backlog tx × ℕ × Option ServiceError
  drain_passthrough s = elim s.passthrough [
    | none ↦ (s, 0, none)
    | some b ↦ elim (pending b) [
      | [] ↦ (s, 0, none)
      | p ∷ ps ↦ elim passthrough_sink [
        | none ↦ (s, 0, some unsupported)
        | some send ↦
            let (answers, failed) = send (p ∷ ps) in
            let completed = complete_passthrough answers (p ∷ ps) in
            (
              record s { passthrough = some (resolve_buffer completed b) },
              count_passed completed,
              elim failed [ none ↦ none | some cause ↦ some (sink_failed cause) ],
            )
      ]
    ]
  ]

  -- The refresh and the pass-through records, after `delivered` documents.
  unfoldable pub finish_drain : Instant → ℕ → Backlog tx → Backlog tx × ℕ × Option ServiceError
  finish_drain now delivered s = elim (refresh_depth now s) [
    | err e ↦ (s, delivered, some e)
    | ok s' ↦ let (s'', passed, failed) = drain_passthrough s' in (s'', delivered + passed, failed)
  ]

  unfoldable pub drain : Instant → Backlog tx → Backlog tx × ℕ × Option ServiceError
  drain now s = elim (tx.pending_outbox now batch s.store) [
    | err e ↦ (s, 0, some (drain_failed (load_pending e)))
    | ok [] ↦ finish_drain now 0 s
    | ok (r ∷ rs) ↦
        let (store, outcome) =
          resolve_batch tx sink capture backoff batch max_retries now (r ∷ rs) s.store in
        elim outcome [
          | err e ↦ (record s { store = store }, 0, some (drain_failed e))
          | ok done ↦
              finish_drain now done.delivered_count
                (tell_change done.change (record s { store = store }))
        ]
  ]

  tell_depth-store :
      (records : List Record) (now : Instant) (s : Backlog tx)
      → (tell_depth records now s).store ≡ s.store
  unfolding tell_depth
  tell_depth-store records now s = elim (Option-cases s.alerts) [
    | inl e ↦ rw (e, tell_depth) refl
    | inr (a, e) ↦ rw (e, tell_depth) refl
  ]

  pub tell_change-store :
      (change : DeadLetterChange) (s : Backlog tx) → (tell_change change s).store ≡ s.store
  unfolding tell_change
  tell_change-store change s = elim (Option-cases s.alerts) [
    | inl e ↦ rw (e, tell_change) refl
    | inr (a, e) ↦ rw (e, tell_change) refl
  ]

  drain_passthrough-store : (s : Backlog tx) → (drain_passthrough s).0.store ≡ s.store
  unfolding drain_passthrough
  drain_passthrough-store s = elim (Option-cases s.passthrough) [
    | inl e ↦ rw (e, drain_passthrough) refl
    | inr (b, e) ↦ elim (list-cases (pending b)) [
      | inl n ↦ rw (e, n, drain_passthrough) refl
      | inr (p, ps, n) ↦ elim (Option-cases passthrough_sink) [
        | inl o ↦ rw (e, n, o, drain_passthrough) refl
        | inr (send, o) ↦ rw (e, n, o, drain_passthrough) refl
      ]
    ]
  ]

  pub finish_drain-store :
      (now : Instant) (n : ℕ) (s : Backlog tx) → (finish_drain now n s).0.store ≡ s.store
  unfolding finish_drain refresh_depth
  finish_drain-store now n s =
      elim (Result-cases (tx.pending_outbox all_pending_deadline 0 s.store)) [
        | inr (x, e) ↦ rw (e, finish_drain, refresh_depth) refl
        | inl (records, e) ↦
            rw (e, finish_drain, refresh_depth)
              (drain_passthrough-store (tell_depth records now s) ∙ tell_depth-store records now s)
      ]

  drain_ready :
      (now : Instant) (s : Backlog tx) (r : Record) (rs : List Record)
      → tx.pending_outbox now batch s.store ≡ ok (r ∷ rs)
      → (drain now s).0.store
        ≡ (drain_outbox tx sink capture backoff batch max_retries now s.store).0
  unfolding drain drain_outbox
  drain_ready now s r rs e =
      let resolved = resolve_batch tx sink capture backoff batch max_retries now (r ∷ rs) s.store in
      let after : Backlog tx = record s { store = resolved.0 } in
      elim (Result-cases resolved.1) [
        | inr (x, f) ↦ rw (e, f, drain, drain_outbox) refl
        | inl (done, f) ↦
            rw (e, f, drain, drain_outbox)
              (finish_drain-store now done.delivered_count (tell_change done.change after)
                ∙ tell_change-store done.change after)
      ]

  -- Alerts and pass-through records leave the outbox alone.
  pub drain-store :
      (now : Instant) (s : Backlog tx)
      → (drain now s).0.store
        ≡ (drain_outbox tx sink capture backoff batch max_retries now s.store).0
  unfolding drain drain_outbox
  drain-store now s = elim (Result-cases (tx.pending_outbox now batch s.store)) [
    | inr (x, e) ↦ rw (e, drain, drain_outbox) refl
    | inl (records, e) ↦ elim (list-cases records) [
      | inl n ↦ rw (e ∙ ap ok n, drain, drain_outbox) (finish_drain-store now 0 s)
      | inr (r, rs, n) ↦ drain_ready now s r rs (e ∙ ap ok n)
    ]
  ]
