-- ===== src/Adapters/OpenSearch/Deliver.antt =====
-- `Deliver`, `DeliverPassthrough` and `DeliverAlert` of internal/adapters/sink/opensearch/sink.go.
use flow_stitch.Base.{
  ℕ, Option, none, some, List, [], ◌∷◌, ◌++◌, map, Text, codes, text_eq, nat_eq, is_nil,
  if◌then◌else◌, Result, ok, err, ◌>>=◌,
}
use flow_stitch.Base.Decimal.{itoa}
use flow_stitch.Base.Dict.{Dict}
use flow_stitch.Domain.Outbox.{Record, Disposition, retryable, DeliveryResult}
use flow_stitch.Application.Ports.{AlertRecord, PassthroughRecord, PassthroughResult}
use flow_stitch.Adapters.OpenSearch.Exchange.{
  Sink, BulkItem, BulkResponse, Http, unreadable, invalid_address, Failure, no_address,
  invalid_request, malformed, index_out_of_range, not_sent, refused, panicked, encode_error,
  SinkError, is_success, exchange,
}
use flow_stitch.Adapters.OpenSearch.Results.{
  classify_status, item_failure, results_for, transport_error, failed_results,
}

-- The body of a bulk request: an action and a document for each record, one line each.
unfoldable pub bulk_line : Http → Option Text → Text → Text → Result Text Text
bulk_line http id index document = elim (http.encode_action id index) [
  | err e ↦ err e
  | ok action ↦ ok (action ++ (document ++ 10 ∷ []))
]

unfoldable pub bulk_body : Http → List Record → Result Text Text
bulk_body http [] = ok []
bulk_body http (r ∷ rs) = do
  line ← bulk_line http (some r.output_id) r.index r.document
  rest ← bulk_body http rs
  ok (line ++ rest)

unfoldable pub max_response : ℕ
max_response = 16777216

unfoldable pub answer_results :
    Http → List Record → Result Failure BulkResponse → Result SinkError (List DeliveryResult)
answer_results http records (err f) = failed_results records f
answer_results http records (ok response) = ok (results_for http records response)

unfoldable pub deliver : Http → List Record → Sink → Sink × Result SinkError (List DeliveryResult)
deliver http records s =
    if is_nil records
    then (s, ok [])
    else if is_nil s.opts.addresses
    then (s, failed_results records no_address)
    else elim (bulk_body http records) [
      | err e ↦ (s, err (encode_error e))
      | ok body ↦
          let (s', answer) = exchange http max_response body s in
          (s', answer_results http records answer)
    ]

-- `DeliverPassthrough`: no ID, and the answer's items stand in the order of the records.
unfoldable pub passthrough_results : List PassthroughRecord → Disposition → List PassthroughResult
passthrough_results records d =
    map (λ (r : PassthroughRecord). record { sequence = r.sequence; disposition = d }) records

unfoldable pub failed_disposition : Failure → Disposition
failed_disposition (refused status) = classify_status status
failed_disposition _ = retryable

unfoldable pub passthrough_body : Http → List PassthroughRecord → Result Text Text
passthrough_body http [] = ok []
passthrough_body http (r ∷ rs) = do
  line ← bulk_line http none r.index r.document
  rest ← passthrough_body http rs
  ok (line ++ rest)

unfoldable pub action_disposition : Dict Text BulkItem → Disposition
action_disposition [] = retryable
action_disposition ((name, i) ∷ others) = classify_status i.status

unfoldable pub pair_results : List PassthroughRecord → BulkResponse → List PassthroughResult
pair_results [] actions = []
pair_results (r ∷ rs) [] =
    record { sequence = r.sequence; disposition = retryable } ∷ pair_results rs []
pair_results (r ∷ rs) (action ∷ actions) =
    record { sequence = r.sequence; disposition = action_disposition action }
    ∷ pair_results rs actions

unfoldable pub failed_passthrough :
    List PassthroughRecord → Failure → Result SinkError (List PassthroughResult)
failed_passthrough records index_out_of_range = err panicked
failed_passthrough records f = ok (passthrough_results records (failed_disposition f))

unfoldable pub deliver_passthrough :
    Http → List PassthroughRecord → Sink → Sink × Result SinkError (List PassthroughResult)
deliver_passthrough http records s =
    if is_nil records
    then (s, ok [])
    else if is_nil s.opts.addresses
    then (s, failed_passthrough records no_address)
    else elim (passthrough_body http records) [
      | err e ↦ (s, err (encode_error e))
      | ok body ↦
          let (s', answer) = exchange http max_response body s in
          (
            s',
            elim answer [
              | err f ↦ failed_passthrough records f
              | ok response ↦ ok (pair_results records response)
            ],
          )
    ]

-- `DeliverAlert`: one document, and an error unless its item has a status of success.
unfoldable pub alert_failure : Failure → Result SinkError (Option Text)
alert_failure no_address = ok (some (codes "opensearch alert: no address configured"))
alert_failure index_out_of_range = err panicked
alert_failure invalid_address = ok (some (codes "opensearch alert: invalid address"))
alert_failure (invalid_request e) = ok (some (codes "opensearch alert: request: " ++ e))
alert_failure (not_sent timeout) = ok (some (transport_error timeout))
alert_failure (refused status) = ok (some (codes "opensearch alert bulk status " ++ itoa status))
alert_failure (unreadable e) = ok (some (codes "opensearch alert: response read failed"))
alert_failure malformed = ok (some (codes "opensearch alert: malformed bulk response"))

unfoldable pub alert_answer : Http → BulkResponse → Option Text
alert_answer http [] = some (codes "opensearch alert: malformed bulk response")
alert_answer http ([] ∷ actions) = some (codes "opensearch alert: bulk response omitted item")
alert_answer http (((name, i) ∷ others) ∷ actions) =
    if is_success i.status then none else some (item_failure i.status (http.unmarshal_type i.error))

unfoldable pub deliver_alert : Http → AlertRecord → Sink → Sink × Result SinkError (Option Text)
deliver_alert http r s =
    if is_nil s.opts.addresses
    then (s, alert_failure no_address)
    else elim (bulk_line http none r.index r.document) [
      | err e ↦ (s, ok (some (codes "opensearch alert: encode bulk action: " ++ e)))
      | ok body ↦
          let (s', answer) = exchange http 1048576 body s in
          (
            s',
            elim answer [ err f ↦ alert_failure f | ok response ↦ ok (alert_answer http response) ],
          )
    ]
