-- ===== src/Adapters/PebbleStore/Reads.antt =====
-- The reads of internal/adapters/state/pebble/store.go outside a transaction, and the store as the
-- port that the use cases know.
use flow_stitch.Base.{
  ℕ, ◌+◌, true, false, ◌&&◌, ◌||◌, not, Option, List, [], ◌∷◌, ◌++◌, Text, text_eq, text_ltb,
  nat_eq, ◌==◌, ltb, length, Result, ok, ◌>>=◌, from_option, or_else,
}
use flow_stitch.Base.Int.{ℤ, pos}
use flow_stitch.Base.Dict.{Dict}
use flow_stitch.Domain.Rule.{Reference, reference_eq}
use flow_stitch.Domain.Flow.Codec.{Json}
use flow_stitch.Domain.Outbox.{
  Record, DeadLetterSummary, metadata, DeadLetterFilter, matches, DeadLetterPage,
}
use flow_stitch.Application.Ports.{Tx, StoreError, malformed_key}
use flow_stitch.Adapters.MemoryStore.Reads.{increment}
use flow_stitch.Adapters.PebbleStore.Keys.{
  flow_prefix, outbox_prefix, dead_prefix, dead_key, prefix_end, parse_flow_key,
}
use flow_stitch.Adapters.PebbleStore.Engine.{Engine}
use flow_stitch.Adapters.PebbleStore.Flows.{
  decode_flow, load_flow, save_flow, delete_flow, due_flows,
}
use flow_stitch.Adapters.PebbleStore.Records.{
  RecordJson, read_record, count_prefix, dropped_total, dead_letter, enqueue_outbox, pending_outbox,
  resolve_outbox, replay_dead_letters,
}

-- `OpenFlows`: how many flows are open under each version of a rule.
unfoldable pub count_flows :
    Json → List (Text × Text) → Dict Reference ℕ → Result StoreError (Dict Reference ℕ)
count_flows json [] counts = ok counts
count_flows json ((raw, v) ∷ es) counts = do
  key ← from_option (parse_flow_key raw) malformed_key
  current ← decode_flow json v
  count_flows json es
      (increment (record { id = key.rule_id; version = current.rule_version }) counts)

-- `DeadLetters`: one record after another into the summary.
unfoldable pub add_to_summary : Record → DeadLetterSummary → DeadLetterSummary
add_to_summary r summary = record summary {
  records = summary.records + 1;
  reasons = increment r.rejection_type summary.reasons;
  indices = increment r.index summary.indices;
}

unfoldable pub summarize :
    RecordJson → List (Text × Text) → DeadLetterSummary → Result StoreError DeadLetterSummary
summarize json [] summary = ok summary
summarize json ((key, raw) ∷ es) summary = do
  r ← read_record json raw
  summarize json es (add_to_summary r summary)

-- The loop of `ListDeadLetters`: a page that is full ends at the next match, and says where it ended.
unfoldable pub page_from :
    RecordJson
    → DeadLetterFilter
    → Text
    → List (Text × Text)
    → DeadLetterPage
    → Text
    → Result StoreError DeadLetterPage
page_from json filter cursor [] page last = ok page
page_from json filter cursor ((key, raw) ∷ es) page last = do
  r ← read_record json raw
  elim (not (text_ltb cursor r.output_id) || not (matches filter r)) [
    | true ↦ page_from json filter cursor es page last
    | false ↦ elim (ltb 0 filter.limit && length page.records == filter.limit) [
      | true ↦ ok (record page { next_cursor = last })
      | false ↦
          page_from json filter cursor es
            (record page { records = page.records ++ metadata r ∷ [] }) r.output_id
    ]
  ]

-- The limit that `Open` keeps.
unfoldable pub limit_or_default : Option ℤ → ℤ
limit_or_default limit = or_else limit (pos 10000)

module _ (e : Engine) (flows : Json) (records : RecordJson) where
  unfoldable pub open_flows : e.State → Result StoreError (Dict Reference ℕ)
  open_flows s = do es ← e.scan flow_prefix (prefix_end flow_prefix) s; count_flows flows es []

  unfoldable pub outbox_records : e.State → Result StoreError ℕ
  outbox_records s = count_prefix e outbox_prefix s

  unfoldable pub dead_letter_records : e.State → Result StoreError ℕ
  dead_letter_records s = count_prefix e dead_prefix s

  unfoldable pub dead_letters : e.State → Result StoreError DeadLetterSummary
  dead_letters s = do
    es ← e.scan dead_prefix (prefix_end dead_prefix) s
    summary ← summarize records es (record { records = 0; dropped = 0; reasons = []; indices = [] })
    total ← dropped_total e s
    ok (record summary { dropped = total })

  unfoldable pub list_dead_letters :
      DeadLetterFilter → Text → e.State → Result StoreError DeadLetterPage
  list_dead_letters filter cursor s = do
    es ← e.scan (dead_key cursor) (prefix_end dead_prefix) s
    page_from records filter cursor es (record { records = []; next_cursor = [] }) []

  unfoldable pub dead_letter_by_id : Text → e.State → Result StoreError (Option Record)
  dead_letter_by_id id s = dead_letter e records id s

  -- The transaction.
  abbrev pub pebble_tx : ℤ → Tx
  pebble_tx max = record {
    State = e.State;
    load_flow = load_flow e flows;
    save_flow = save_flow e flows;
    delete_flow = delete_flow e flows;
    due_flows = due_flows e flows;
    enqueue_outbox = enqueue_outbox e records;
    pending_outbox = pending_outbox e records;
    resolve_outbox = resolve_outbox e records max;
    replay_dead_letters = replay_dead_letters e records;
  }
