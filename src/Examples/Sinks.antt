-- ===== src/Examples/Sinks.antt =====
-- The sink of documents.
use flow_stitch.Base.{◌≡◌, refl, none, some, List, [], ◌∷◌, ◌++◌, Text, codes, Result, ok, err}
use flow_stitch.Base.Int.{pos}
use flow_stitch.Domain.Outbox.{Record, DeliveryResult}
use flow_stitch.Adapters.OpenSearch.Exchange.{
  Options, Sink, new_sink, Http, Url, replied, BulkItem, SinkError,
}
use flow_stitch.Adapters.OpenSearch.Deliver.{bulk_body, deliver}
use flow_stitch.Adapters.OpenSearch.Settle.{Settled, is_confirmed, reply_to, deliver-Settled}
use flow_stitch.Examples.Data.{waiting}

abbrev item : Text → BulkItem
item id = record { id = id; status = pos 201; error = [] }

-- A cluster that stores the first record and rejects the second.
abbrev cluster : Http
cluster = record {
  encode_action = λ id index. ok index;
  parse_url = λ address.
      some (record { scheme = codes "https"; host = address; path = codes "/"; rest = [] });
  print_url = λ url. url.host ++ url.path;
  request_error = λ endpoint. none;
  send = λ request. replied (pos 200) (ok (codes "items"));
  unmarshal_response = λ raw. some (
      ((codes "index", item (codes "a")) ∷ [])
      ∷ ((codes "index", record { id = codes "b"; status = pos 400; error = codes "mapping" }) ∷ [])
      ∷ []);
  unmarshal_type = λ raw. raw;
}

abbrev sink : Sink
sink = new_sink (record {
  addresses = codes "search" ∷ [];
  username = [];
  password = [];
  bulk_size = pos 0;
  flush_interval = pos 0;
})

abbrev batch : List Record
batch = waiting (codes "a") 10 ∷ waiting (codes "b") 5 ∷ []

abbrev body_run : Result Text Text
body_run = bulk_body cluster batch

abbrev body : Text
body = elim body_run [ ok t ↦ t | err e ↦ [] ]

body_written : body_run ≡ ok body
unfolding flow_stitch.Adapters.OpenSearch.Deliver.bulk_line bulk_body
body_written = refl

abbrev delivery : Sink × Result SinkError (List DeliveryResult)
delivery = deliver cluster batch sink

abbrev results : List DeliveryResult
results = elim (delivery.1) [ ok rs ↦ rs | err e ↦ [] ]

batch_delivered : delivery ≡ (delivery.0, ok results)
unfolding flow_stitch.Adapters.OpenSearch.Exchange.is_success
    flow_stitch.Adapters.OpenSearch.Exchange.read_reply
    flow_stitch.Adapters.OpenSearch.Exchange.bulk_url flow_stitch.Adapters.OpenSearch.Exchange.post
    flow_stitch.Adapters.OpenSearch.Exchange.pick flow_stitch.Adapters.OpenSearch.Exchange.exchange
    flow_stitch.Adapters.OpenSearch.Deliver.answer_results
    flow_stitch.Adapters.OpenSearch.Deliver.bulk_line bulk_body new_sink deliver
batch_delivered = refl

deliver-Settled_example : Settled (is_confirmed cluster (reply_to cluster body sink)) batch results
deliver-Settled_example =
    deliver-Settled cluster batch sink delivery.0 body results body_written batch_delivered
