-- ===== src/Application/Alerts/Emit.antt =====
-- The delivery of alert documents in `Observe` of internal/application/alerts/service.go, and their
-- summaries. The JSON of a document, the sink and the text of a number of seconds without decimals are
-- arguments; a document that fails is logged and dropped.
use flow_stitch.Base.{Option, none, some, List, [], ◌∷◌, ◌++◌, Text, codes}
use flow_stitch.Base.Decimal.{itoa}
use flow_stitch.Base.Int.{pos}
use flow_stitch.Domain.Instant.{Instant, Duration}
use flow_stitch.Domain.IndexName.{resolve_pattern}
use flow_stitch.Domain.Outbox.{Record}
use flow_stitch.Application.Ports.{AlertRecord}
use flow_stitch.Application.Alerts.{
  Kind, dlq, outbox_backlog, Phase, starting, ongoing, clearing, AlertCounts, Document, Service,
  observe,
}

unfoldable pub phase_name : Phase → Text
phase_name starting = codes "starting"
phase_name ongoing = codes "ongoing"
phase_name clearing = codes "clearing"

unfoldable pub summary : (Duration → Text) → Kind → Phase → AlertCounts → Duration → Text
summary seconds dlq phase counts oldest =
    codes "dead-letter condition "
    ++ (phase_name phase
        ++ (codes ": "
            ++ (itoa (pos counts.dead_letter_records)
                ++ (codes " retained, "
                    ++ (itoa (pos counts.dead_letter_dropped) ++ codes " dropped")))))
summary seconds outbox_backlog phase counts oldest =
    codes "outbox backlog condition "
    ++ (phase_name phase
        ++ (codes ": "
            ++ (itoa (pos counts.outbox_records)
                ++ (codes " records, oldest " ++ (seconds oldest ++ codes "s")))))

-- `marshal` has the document and its summary.
module _ (marshal : Document → Text → Option Text) (seconds : Duration → Text) where
  unfoldable pub alert_record : Text → Instant → Document → Option AlertRecord
  alert_record index now d =
      elim (marshal d (summary seconds d.kind d.state d.counts d.oldest_outbox_age)) [
        | none ↦ none
        | some raw ↦ some (record { index = resolve_pattern index now now; document = raw })
      ]

  -- The records that the sink is handed, in order, whatever it answers.
  unfoldable pub alert_records : Text → Instant → List Document → List AlertRecord
  alert_records index now [] = []
  alert_records index now (d ∷ ds) = elim (alert_record index now d) [
    | none ↦ alert_records index now ds
    | some r ↦ r ∷ alert_records index now ds
  ]

  unfoldable pub emit : List Record → Instant → Service → Service × List AlertRecord
  emit records now s =
      let (told, documents) = observe records now s in
      (told, alert_records s.opts.index now documents)
