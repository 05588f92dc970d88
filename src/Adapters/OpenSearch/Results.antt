-- ===== src/Adapters/OpenSearch/Results.antt =====
-- What a status means for a record in internal/adapters/sink/opensearch/sink.go.
use flow_stitch.Base.{
  ℕ, Bool, true, false, ◌&&◌, ◌||◌, not, Option, none, some, List, [], ◌∷◌, ◌++◌, map, Text, codes,
  text_eq, nat_eq, ◌==◌, is_nil, if◌then◌else◌, Result, ok, err,
}
use flow_stitch.Base.Int.{ℤ, pos, negsuc, ltb_ℤ}
use flow_stitch.Base.Decimal.{itoa}
use flow_stitch.Base.Dict.{Dict, lookup, insert}
use flow_stitch.Domain.Instant.{zero_time}
use flow_stitch.Domain.Outbox.{Record, Disposition, delivered, retryable, permanent, DeliveryResult}
use flow_stitch.Adapters.OpenSearch.Exchange.{
  BulkItem, BulkResponse, Http, unreadable, invalid_address, Failure, no_address, invalid_request,
  malformed, index_out_of_range, not_sent, refused, panicked, SinkError, is_success,
}

unfoldable pub is_status : ℕ → ℤ → Bool
is_status n (pos m) = m == n
is_status n (negsuc m) = false

unfoldable pub classify_status : ℤ → Disposition
classify_status status =
    if is_success status
    then delivered
    else if is_status 429 status
        || is_status 503 status
        || is_status 408 status
        || not (ltb_ℤ status (pos 500))
    then retryable
    else if not (ltb_ℤ status (pos 400)) && ltb_ℤ status (pos 500)
    then permanent
    else retryable

unfoldable pub classify_item : ℤ → Text → Disposition
classify_item status rejection_type =
    if rejection_type == codes "cluster_block_exception" then retryable else classify_status status

unfoldable pub item_failure : ℤ → Text → Text
item_failure status rejection_type =
    let head = codes "opensearch bulk item status " ++ itoa status in
    if is_nil rejection_type then head else head ++ (codes " type " ++ rejection_type)

unfoldable pub result_for : Record → Disposition → Option Text → Text → DeliveryResult
result_for r disposition error rejection_type = record {
  output_id = r.output_id;
  disposition = disposition;
  error = error;
  rejection_type = rejection_type;
  dead_lettered_at = zero_time;
  attempts = 0;
  next_attempt_at = zero_time;
}

-- `retryAll`, `classifyAll`
unfoldable pub retry_all : List Record → Text → List DeliveryResult
retry_all records e = map (λ r. result_for r retryable (some e) []) records

unfoldable pub classify_all : List Record → ℤ → Text → List DeliveryResult
classify_all records status e = map (λ r. result_for r (classify_status status) (some e) []) records

-- The first item of each action that has an ID, the last one of an ID winning.
unfoldable pub items_by_id : BulkResponse → Dict Text BulkItem → Dict Text BulkItem
items_by_id [] m = m
items_by_id ([] ∷ actions) m = items_by_id actions m
items_by_id (((name, i) ∷ others) ∷ actions) m =
    items_by_id actions (if is_nil i.id then m else insert i.id i m)

unfoldable pub is_delivered : Disposition → Bool
is_delivered delivered = true
is_delivered _ = false

unfoldable pub item_result : Http → Record → BulkItem → DeliveryResult
item_result http r i =
    let rejection_type = http.unmarshal_type i.error in
    let disposition = classify_item i.status rejection_type in
    result_for r disposition
      (if is_delivered disposition then none else some (item_failure i.status rejection_type))
      rejection_type

unfoldable pub result_of : Http → Dict Text BulkItem → Record → DeliveryResult
result_of http items r = elim (lookup r.output_id items) [
  | none ↦ result_for r retryable (some (codes "opensearch bulk response omitted record")) []
  | some i ↦ item_result http r i
]

unfoldable pub results_for : Http → List Record → BulkResponse → List DeliveryResult
results_for http records response = map (result_of http (items_by_id response [])) records

unfoldable pub transport_error : Bool → Text
transport_error true = codes "opensearch transport timeout"
transport_error false = codes "opensearch transport failure"

-- What `Deliver` returns where the exchange ends early; an index that is out of range panics.
unfoldable pub failed_results : List Record → Failure → Result SinkError (List DeliveryResult)
failed_results records no_address =
    ok (retry_all records (codes "opensearch transport: no address configured"))
failed_results records index_out_of_range = err panicked
failed_results records invalid_address =
    ok (retry_all records (codes "opensearch transport: invalid address"))
failed_results records (invalid_request e) =
    ok (retry_all records (codes "opensearch transport: " ++ e))
failed_results records (not_sent timeout) = ok (retry_all records (transport_error timeout))
failed_results records (refused status) =
    ok (classify_all records status (codes "opensearch bulk request status " ++ itoa status))
failed_results records (unreadable e) =
    ok (retry_all records (codes "opensearch transport: read bulk response: " ++ e))
failed_results records malformed =
    ok (retry_all records (codes "opensearch transport: malformed bulk response"))
