-- ===== src/Application/Admin.antt =====
-- internal/application/admin/service.go: replaying dead letters, or showing what would be replayed.
-- The store's reads are those of the memory store; counters are left out.
use flow_stitch.Base.{Bool, Option, none, some, List, Text, [], Result, ok, err, if◌then◌else◌}
use flow_stitch.Domain.Instant.{Instant}
use flow_stitch.Domain.Outbox.{
  Record, DeadLetterFilter, DeadLetterMetadata, DeadLetterSummary, DeadLetterPage,
}
use flow_stitch.Application.Ports.{Tx, StoreError, DeadLetterChange}
use flow_stitch.Application.Alerts.{Service, apply_dead_letter_change}

-- The reads outside a transaction.
pub record Reads (tx : Tx) : Type 0 where
  pub dead_letters : tx.State → Result StoreError DeadLetterSummary
  pub list_dead_letters : DeadLetterFilter → Text → tx.State → Result StoreError DeadLetterPage
  pub dead_letter : Text → tx.State → Result StoreError (Record × Bool)

module _ (tx : Tx) (reads : Reads tx) where
  unfoldable pub list :
      DeadLetterFilter → Text → tx.State → Result StoreError (DeadLetterSummary × DeadLetterPage)
  list filter cursor s = elim (reads.dead_letters s) [
    | err e ↦ err e
    | ok summary ↦ elim (reads.list_dead_letters filter cursor s) [
      | err e ↦ err e
      | ok page ↦ ok (summary, page)
    ]
  ]

  unfoldable pub get_dead_letter : Text → tx.State → Result StoreError (Record × Bool)
  get_dead_letter id s = reads.dead_letter id s

  -- What the reporter, if there is one, learns of a replay.
  unfoldable pub report : DeadLetterChange → Option Service → Option Service
  report change none = none
  report change (some alerts) = some (apply_dead_letter_change change alerts)

  unfoldable pub replay_now :
      DeadLetterFilter
      → Instant
      → tx.State × Option Service
      → (tx.State × Option Service) × Result StoreError (List DeadLetterMetadata)
  replay_now filter now (s, alerts) = elim (tx.replay_dead_letters filter now s) [
    | err e ↦ ((s, alerts), err e)
    | ok (s', records, change) ↦
        ((s', if change.changed then report change alerts else alerts), ok records)
  ]

  unfoldable pub replay :
      DeadLetterFilter
      → Bool
      → Instant
      → tx.State × Option Service
      → (tx.State × Option Service) × Result StoreError (List DeadLetterMetadata)
  replay filter dry_run now (s, alerts) =
      if dry_run
      then (
        (s, alerts),
        elim (reads.list_dead_letters filter [] s) [ err e ↦ err e | ok page ↦ ok page.records ],
      )
      else replay_now filter now (s, alerts)
