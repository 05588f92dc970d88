-- ===== src/Adapters/OpenSearch/Settle.antt =====
-- `Deliver` of internal/adapters/sink/opensearch/sink.go: one result for each record, in order, and
-- no record delivered that the response does not confirm.
use flow_stitch.Base.{
  ◌≡◌, refl, sym, ap, subst, ◌∙◌, ◌⊎◌, inl, inr, Bool, true, false, ◌&&◌, ◌||◌, not, Option, none,
  some, List, [], ◌∷◌, map, Text, text_eq, ◌==◌, is_nil, if◌then◌else◌, arith, take, All, Result,
  ok, err, ok-injective, err-ne-ok, Bool-cases, Option-cases,
}
use mathlib.Core.Path.{fun_ext}
use flow_stitch.Base.Dict.{Dict, lookup, insert, lookup-insert}
use flow_stitch.Base.Int.{ℤ}
use flow_stitch.Domain.Outbox.{Record, retryable, DeliveryResult}
use flow_stitch.Adapters.OpenSearch.Exchange.{
  Sink, Http, Reply, no_reply, replied, Failure, BulkItem, BulkResponse, pick, bulk_url,
  request_for, is_success, read_reply, post, exchange, no_address, index_out_of_range,
  invalid_address, malformed, invalid_request, unreadable, not_sent, refused,
}
use flow_stitch.Adapters.OpenSearch.Results.{
  classify_status, classify_item, result_for, retry_all, classify_all, items_by_id, is_delivered,
  item_result, result_of, results_for, failed_results,
}
use flow_stitch.Adapters.OpenSearch.Deliver.{bulk_body, max_response, answer_results, deliver}

-- The reply to a bulk request, if one is sent.
unfoldable pub reply_to : Http → Text → Sink → Option Reply
reply_to http body s = elim (pick s.next s.opts.addresses) [
  | none ↦ none
  | some address ↦ elim (bulk_url http address) [
    | none ↦ none
    | some endpoint ↦ elim (http.request_error endpoint) [
      | some e ↦ none
      | none ↦ some (http.send (request_for s.opts endpoint body))
    ]
  ]
]

-- The response has an item for the ID with a status of success.
unfoldable pub lists_success : Text → BulkResponse → Bool
lists_success id [] = false
lists_success id ([] ∷ actions) = lists_success id actions
lists_success id (((name, i) ∷ others) ∷ actions) =
    (i.id == id && is_success i.status) || lists_success id actions

unfoldable pub is_confirmed : Http → Option Reply → Text → Bool
is_confirmed http none id = false
is_confirmed http (some (no_reply timeout)) id = false
is_confirmed http (some (replied status (err e))) id = false
is_confirmed http (some (replied status (ok raw))) id =
    is_success status && elim (http.unmarshal_response (take max_response raw)) [
      | none ↦ false
      | some response ↦ lists_success id response
    ]

-- Reported as delivered only if it is confirmed.
abbrev pub is_sound : (Text → Bool) → DeliveryResult → Bool
is_sound confirmed d = not (is_delivered d.disposition) || confirmed d.output_id

items_by_id-lists :
    (id : Text) (response : BulkResponse) (m : Dict Text BulkItem) (i : BulkItem)
    → lookup id (items_by_id response m) ≡ some i
    → is_success i.status ≡ true
    → (lists_success id response ≡ true) ⊎ (lookup id m ≡ some i)
unfolding items_by_id lists_success
items_by_id-lists id [] m i h p = inr h
items_by_id-lists id ([] ∷ actions) m i h p = items_by_id-lists id actions m i h p
items_by_id-lists id (((name, j) ∷ others) ∷ actions) m i h p =
    elim (items_by_id-lists id actions (if is_nil j.id then m else insert j.id j m) i h p) [
      | inl e ↦ inl (ground arith)
      | inr e ↦ ground (arith, lookup-insert j.id id j m)
    ]

classify_item-delivered :
    (status : ℤ) (t : Text)
    → is_delivered (classify_item status t) ≡ true
    → is_success status ≡ true
unfolding classify_item classify_status is_delivered
classify_item-delivered status t h = ground arith

result_of_sound :
    (http : Http) (response : BulkResponse) (r : Record)
    → is_sound (λ id. lists_success id response) (result_of http (items_by_id response []) r) ≡ true
unfolding result_of item_result result_for is_delivered lookup
result_of_sound http response r =
    elim (Option-cases (lookup r.output_id (items_by_id response []))) [
      | inl e ↦ rw (e, result_of) refl
      | inr (i, e) ↦
          elim (Bool-cases (is_delivered (classify_item i.status (http.unmarshal_type i.error)))) [
            | inr d ↦ rw (e, d, result_of) refl
            | inl d ↦
                rw (e, d, result_of)
                  (listed i (
                    items_by_id-lists r.output_id response [] i e
                      (classify_item-delivered i.status (http.unmarshal_type i.error) d)))
          ]
    ]
  where
    listed :
        (i : BulkItem)
        → (lists_success r.output_id response ≡ true) ⊎ (lookup r.output_id [] ≡ some i)
        → lists_success r.output_id response ≡ true
    listed i (inl q) = q
    listed i (inr q) = cc

-- One result for each record, in order, and sound.
abbrev pub Settled : (Text → Bool) → List Record → List DeliveryResult → Type 0
Settled confirmed records results =
    (map (λ d. d.output_id) results ≡ map (λ r. r.output_id) records)
    × All (λ d. is_sound confirmed d ≡ true) results

map-Settled :
    (confirmed : Text → Bool) (f : Record → DeliveryResult) (records : List Record)
    → ((r : Record) → ((f r).output_id ≡ r.output_id) × (is_sound confirmed (f r) ≡ true))
    → Settled confirmed records (map f records)
map-Settled confirmed f [] each = (refl, tt)
map-Settled confirmed f (r ∷ rs) each =
    let (ids, sound) = map-Settled confirmed f rs each in
    (λ i. (each r).0 i ∷ ids i, ((each r).1, sound))

retry_all-Settled :
    (confirmed : Text → Bool) (records : List Record) (e : Text)
    → Settled confirmed records (retry_all records e)
unfolding retry_all result_for is_delivered
retry_all-Settled confirmed records e =
    map-Settled confirmed (λ r. result_for r retryable (some e) []) records (λ r. (refl, refl))

results_for-Settled :
    (http : Http) (records : List Record) (response : BulkResponse)
    → Settled (λ id. lists_success id response) records (results_for http records response)
unfolding results_for result_of item_result result_for
results_for-Settled http records response =
    map-Settled (λ id. lists_success id response) (result_of http (items_by_id response [])) records
      (λ r. (result_of-output_id r, result_of_sound http response r))
  where
    result_of-output_id :
        (r : Record) → (result_of http (items_by_id response []) r).output_id ≡ r.output_id
    result_of-output_id r = elim (Option-cases (lookup r.output_id (items_by_id response []))) [
      | inl e ↦ rw (e, result_of) refl
      | inr (i, e) ↦ rw (e, result_of) refl
    ]

classify_all-Settled :
    (confirmed : Text → Bool) (records : List Record) (status : ℤ) (e : Text)
    → is_success status ≡ false
    → Settled confirmed records (classify_all records status e)
unfolding classify_all result_for is_delivered classify_status
classify_all-Settled confirmed records status e h =
    map-Settled confirmed (λ r. result_for r (classify_status status) (some e) []) records
      (λ r. (refl, ground arith))

-- An exchange that ends early confirms nothing.
failed_results-Settled :
    (confirmed : Text → Bool) (records : List Record) (f : Failure) (results : List DeliveryResult)
    → ((status : ℤ) → f ≡ refused status → is_success status ≡ false)
    → failed_results records f ≡ ok results
    → Settled confirmed records results
unfolding failed_results
failed_results-Settled confirmed records no_address results n h =
    subst (Settled confirmed records) (ok-injective _ results h)
      (retry_all-Settled confirmed records _)
failed_results-Settled confirmed records index_out_of_range results n h =
    absurd (err-ne-ok _ results h)
failed_results-Settled confirmed records invalid_address results n h =
    subst (Settled confirmed records) (ok-injective _ results h)
      (retry_all-Settled confirmed records _)
failed_results-Settled confirmed records malformed results n h =
    subst (Settled confirmed records) (ok-injective _ results h)
      (retry_all-Settled confirmed records _)
failed_results-Settled confirmed records (invalid_request e) results n h =
    subst (Settled confirmed records) (ok-injective _ results h)
      (retry_all-Settled confirmed records _)
failed_results-Settled confirmed records (unreadable e) results n h =
    subst (Settled confirmed records) (ok-injective _ results h)
      (retry_all-Settled confirmed records _)
failed_results-Settled confirmed records (not_sent timeout) results n h =
    subst (Settled confirmed records) (ok-injective _ results h)
      (retry_all-Settled confirmed records _)
failed_results-Settled confirmed records (refused status) results n h =
    subst (Settled confirmed records) (ok-injective _ results h)
      (classify_all-Settled confirmed records status _ (n status refl))

-- How an exchange ends: early, not with a status of success that is refused, or with the response
-- that the reply carries.
abbrev Ends : Http → Option Reply → Result Failure BulkResponse → Type 0
Ends http reply answer =
    ((f : Failure) × (answer ≡ err f)
      × ((status : ℤ) → f ≡ refused status → is_success status ≡ false))
    ⊎ ((response : BulkResponse) × (answer ≡ ok response)
        × ((id : Text) → lists_success id response ≡ is_confirmed http reply id))

ended :
    (http : Http) (reply : Option Reply) (f : Failure)
    → ((status : ℤ) → f ≡ refused status → is_success status ≡ false)
    → Ends http reply (err f)
ended http reply f h = inl (f, refl, h)

read_reply-Ends :
    (http : Http) (reply : Reply) → Ends http (some reply) (read_reply http max_response reply)
unfolding read_reply is_confirmed
read_reply-Ends http (no_reply timeout) =
    ended http (some (no_reply timeout)) (not_sent timeout) (λ status e. cc)
read_reply-Ends http (replied status body) = elim (Bool-cases (is_success status)) [
  | inr e ↦ rw (e) (
      ended http (some (replied status body)) (refused status)
        (λ other q. subst (λ x. is_success x ≡ false) (refused-injective status other q) e))
  | inl e ↦ read_body body e
]
  where
    refused-injective : (x y : ℤ) → refused x ≡ refused y → x ≡ y
    refused-injective x y q = ap (λ f. elim f [ refused z ↦ z | _ ↦ x ]) q

    read_body :
        (body : Result Text Text)
        → is_success status ≡ true
        → Ends http
            (some (replied status body))
            (read_reply http max_response (replied status body))
    read_body (err t) e = rw (e) (inl (unreadable t, refl, λ other q. cc))
    read_body (ok raw) e = elim (Option-cases (http.unmarshal_response (take max_response raw))) [
      | inl n ↦ rw (e, n) (inl (malformed, refl, λ other q. cc))
      | inr (response, r) ↦ rw (e, r) (inr (response, refl, λ id. refl))
    ]

exchange-Ends :
    (http : Http) (body : Text) (s : Sink)
    → Ends http (reply_to http body s) (exchange http max_response body s).1
unfolding exchange reply_to post
exchange-Ends http body s = elim (Option-cases (pick s.next s.opts.addresses)) [
  | inl e ↦ rw (e, exchange, reply_to) (ended http none index_out_of_range (λ status q. cc))
  | inr (address, e) ↦ elim (Option-cases (bulk_url http address)) [
    | inl u ↦ rw (e, u, exchange, reply_to, post) (ended http none invalid_address (λ status q. cc))
    | inr (endpoint, u) ↦ elim (Option-cases (http.request_error endpoint)) [
      | inr (t, x) ↦
          rw (e, u, x, exchange, reply_to, post)
            (ended http none (invalid_request t) (λ status q. cc))
      | inl x ↦
          rw (e, u, x, exchange, reply_to, post)
            (read_reply-Ends http (http.send (request_for s.opts endpoint body)))
    ]
  ]
]

answer_results-Settled :
    (http : Http) (reply : Option Reply) (records : List Record)
    (answer : Result Failure BulkResponse) (results : List DeliveryResult)
    → Ends http reply answer
    → answer_results http records answer ≡ ok results
    → Settled (is_confirmed http reply) records results
unfolding answer_results
answer_results-Settled http reply records answer results (inl (f, e, n)) h =
    failed_results-Settled (is_confirmed http reply) records f results n
      (sym (ap (answer_results http records) e) ∙ h)
answer_results-Settled http reply records answer results (inr (response, e, same)) h =
    subst (Settled (is_confirmed http reply) records)
      (ok-injective (results_for http records response) results
        (sym (ap (answer_results http records) e) ∙ h))
      (subst (λ (c : Text → Bool). Settled c records (results_for http records response))
        (fun_ext same) (results_for-Settled http records response))

-- Whatever OpenSearch answers, a delivery that returns no error has one result for each record, in
-- the records' order, and reports a record as delivered only if the reply to its request has a status
-- of success and an item with the record's ID and a status of success.
pub deliver-Settled :
    (http : Http) (records : List Record) (s s' : Sink) (body : Text)
    (results : List DeliveryResult)
    → bulk_body http records ≡ ok body
    → deliver http records s ≡ (s', ok results)
    → Settled (is_confirmed http (reply_to http body s)) records results
unfolding deliver
deliver-Settled http [] s s' body results b h =
    subst (Settled (is_confirmed http (reply_to http body s)) [])
      (ok-injective [] results (ap (λ p. p.1) h)) (refl, tt)
deliver-Settled http (r ∷ rs) s s' body results b h = elim (Bool-cases (is_nil s.opts.addresses)) [
  | inl e ↦
      failed_results-Settled (is_confirmed http (reply_to http body s)) (r ∷ rs) no_address results
        (λ status q. cc) (ap (λ p. p.1) (rw (e, deliver) at h))
  | inr e ↦
      answer_results-Settled http (reply_to http body s) (r ∷ rs)
        (exchange http max_response body s).1 results (exchange-Ends http body s)
        (ap (λ p. p.1) (rw (e, b, deliver) at h))
]
