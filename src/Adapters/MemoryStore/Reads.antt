-- ===== src/Adapters/MemoryStore/Reads.antt =====
-- internal/adapters/state/memory/store.go: the reads outside a transaction. A `context` that is
-- cancelled before the read is the Boolean `cancelled`.
use flow_stitch.Base.{
  ℕ, ◌+◌, Bool, ◌&&◌, List, [], ◌∷◌, map, Text, text_eq, text_ltb, nat_eq, Comparable,
  if◌then◌else◌, Result, ok, err, length, ltb, or_else, is_some,
}
use flow_stitch.Base.Dict.{Dict, lookup, insert}
use flow_stitch.Base.Sort.{sort_by}
use flow_stitch.Domain.Rule.{Reference, reference_eq}
use flow_stitch.Domain.Flow.Defs.{Flow, FlowKey, key_eq}
use flow_stitch.Domain.Outbox.{
  Record, DeadLetterSummary, metadata, DeadLetterFilter, matches, DeadLetterPage,
}
use flow_stitch.Application.Ports.{StoreError, cancelled_read}
use flow_stitch.Adapters.MemoryStore.State.{Store, limited, dead_at, matching_ids}

-- `m[k]++`
unfoldable pub increment {ℓ} : {K : Type ℓ} ⦃e : Comparable K⦄ → K → Dict K ℕ → Dict K ℕ
increment k m = insert k (or_else (lookup k m) 0 + 1) m

unfoldable pub count_flows : Dict FlowKey Flow → Dict Reference ℕ → Dict Reference ℕ
count_flows [] counts = counts
count_flows ((k, f) ∷ m) counts =
    count_flows m (increment (record { id = k.rule_id; version = f.rule_version }) counts)

unfoldable pub open_flows : Bool → Store → Result StoreError (Dict Reference ℕ)
open_flows cancelled s = if cancelled then err cancelled_read else ok (count_flows s.flows [])

unfoldable pub outbox_records : Bool → Store → Result StoreError ℕ
outbox_records cancelled s = if cancelled then err cancelled_read else ok (length s.records)

unfoldable pub dead_letter_records : Bool → Store → Result StoreError ℕ
dead_letter_records cancelled s = if cancelled then err cancelled_read else ok (length s.dead)

unfoldable pub count_by : (Record → Text) → Dict Text Record → Dict Text ℕ → Dict Text ℕ
count_by field [] counts = counts
count_by field ((id, r) ∷ m) counts = count_by field m (increment (field r) counts)

unfoldable pub dead_letters : Bool → Store → Result StoreError DeadLetterSummary
dead_letters cancelled s =
    if cancelled
    then err cancelled_read
    else ok (record {
      records = length s.dead;
      dropped = s.dropped;
      reasons = count_by (λ r. r.rejection_type) s.dead [];
      indices = count_by (λ r. r.index) s.dead [];
    })

-- The last element, or the zero value of an empty list.
unfoldable pub last_id : List Text → Text
last_id [] = []
last_id (x ∷ []) = x
last_id (x ∷ y ∷ ys) = last_id (y ∷ ys)

unfoldable pub page_ids : DeadLetterFilter → Text → Store → List Text
page_ids filter cursor s =
    sort_by text_ltb (matching_ids (λ id r. text_ltb cursor id && matches filter r) s.dead)

unfoldable pub list_dead_letters :
    Bool → DeadLetterFilter → Text → Store → Result StoreError DeadLetterPage
list_dead_letters cancelled filter cursor s =
    let ids = page_ids filter cursor s in
    let has_more = ltb 0 filter.limit && ltb filter.limit (length ids) in
    let page = limited filter.limit ids in
    if cancelled
    then err cancelled_read
    else ok (record {
      records = map (λ id. metadata (dead_at s id)) page;
      next_cursor = if has_more then last_id page else [];
    })

unfoldable pub dead_letter_by_id : Bool → Text → Store → Result StoreError (Record × Bool)
dead_letter_by_id cancelled id s =
    if cancelled then err cancelled_read else ok (dead_at s id, is_some (lookup id s.dead))
