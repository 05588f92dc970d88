-- ===== src/Adapters/OpenSearch/Exchange.antt =====
-- One bulk request of internal/adapters/sink/opensearch/sink.go and its answer, up to the decoded items.
use flow_stitch.Base.{
  ℕ, ◌+◌, ◌-◌, ◌%◌, ◌^◌, Bool, ◌&&◌, ◌||◌, not, Option, none, some, List, [], ◌∷◌, ◌++◌, Text,
  codes, text_eq, nat_eq, ◌==◌, is_nil, if◌then◌else◌, ltb, length, get_elem?, take, Result, ok,
  err,
}
use flow_stitch.Base.Int.{ℤ, pos, ltb_ℤ}
use flow_stitch.Base.Dict.{Dict}
use flow_stitch.Domain.Instant.{Duration, not_positive}

pub record Options : Type 0 where
  pub addresses : List Text
  pub username : Text
  pub password : Text
  pub bulk_size : ℤ
  pub flush_interval : Duration

-- `next` is the counter of requests, 64 bits wide.
pub record Sink : Type 0 where
  pub opts : Options
  pub next : ℕ

unfoldable pub new_sink : Options → Sink
new_sink opts = record {
  opts = record opts {
    bulk_size = if not_positive opts.bulk_size then pos 64 else opts.bulk_size;
    flush_interval =
        if not_positive opts.flush_interval then pos 1000000000 else opts.flush_interval;
  };
  next = 0;
}

pub record BulkItem : Type 0 where
  pub id : Text
  pub status : ℤ
  pub error : Text

-- One map for each item, from the action's name to its outcome.
abbrev pub BulkResponse : Type 0
BulkResponse = List (Dict Text BulkItem)

pub record Url : Type 0 where
  pub scheme : Text
  pub host : Text
  pub path : Text
  pub rest : Text

pub record Request : Type 0 where
  pub endpoint : Text
  pub content_type : Text
  pub basic_auth : Option (Text × Text)
  pub body : Text

-- `client.Do`: an error, with whether it is a timeout, or a status and a body that can be read or not.
pub data Reply : Type 0 where
  no_reply : Bool → Reply
  replied : ℤ → Result Text Text → Reply

-- What net/http, net/url and encoding/json do: the action line for an ID and an index, `url.Parse` and
-- `URL.String`, the error of `http.NewRequest`, one exchange, and two decoders.
pub record Http : Type 0 where
  pub encode_action : Option Text → Text → Result Text Text
  pub parse_url : Text → Option Url
  pub print_url : Url → Text
  pub request_error : Text → Option Text
  pub send : Request → Reply
  pub unmarshal_response : Text → Option BulkResponse
  pub unmarshal_type : Text → Text

-- The paths on which an exchange ends early.
pub data Failure : Type 0 where
  no_address index_out_of_range invalid_address malformed : Failure
  invalid_request unreadable : Text → Failure
  not_sent : Bool → Failure
  refused : ℤ → Failure

-- `len(records) - 1 < i`, the panic of an index that is out of range, is no error of the sink.
pub data SinkError : Type 0 where
  encode_error : Text → SinkError
  panicked : SinkError

unfoldable pub trim_right : ℕ → Text → Text
trim_right c [] = []
trim_right c (x ∷ xs) = let rest = trim_right c xs in if is_nil rest && x == c then [] else x ∷ rest

unfoldable pub bulk_url : Http → Text → Option Text
bulk_url http address = elim (http.parse_url address) [
  | none ↦ none
  | some parsed ↦
      if is_nil parsed.scheme || is_nil parsed.host
      then none
      else some
          (http.print_url (record parsed { path = trim_right b'/' parsed.path ++ codes "/_bulk" }))
]

-- `int(n) % len(addresses)` of an unsigned 64-bit number: from 2^63 on it is not positive.
unfoldable pub pick : ℕ → List Text → Option Text
pick n addresses =
    if ltb n (2 ^ 63)
    then get_elem? addresses (n % length addresses)
    else if (2 ^ 64 - n) % length addresses == 0
    then get_elem? addresses 0
    else none

unfoldable pub request_for : Options → Text → Text → Request
request_for opts endpoint body = record {
  endpoint = endpoint;
  content_type = codes "application/x-ndjson";
  basic_auth =
      if not (is_nil opts.username) || not (is_nil opts.password)
      then some (opts.username, opts.password)
      else none;
  body = body;
}

unfoldable pub is_success : ℤ → Bool
is_success status = not (ltb_ℤ status (pos 200)) && ltb_ℤ status (pos 300)

-- From the reply to the decoded response; `limit` bounds how much of the body is read.
unfoldable pub read_reply : Http → ℕ → Reply → Result Failure BulkResponse
read_reply http limit (no_reply timeout) = err (not_sent timeout)
read_reply http limit (replied status body) =
    if not (is_success status) then err (refused status) else elim body [
      | err e ↦ err (unreadable e)
      | ok raw ↦ elim (http.unmarshal_response (take limit raw)) [
        | none ↦ err malformed
        | some decoded ↦ ok decoded
      ]
    ]

unfoldable pub post : Http → Options → ℕ → Text → Text → Result Failure BulkResponse
post http opts limit body address = elim (bulk_url http address) [
  | none ↦ err invalid_address
  | some endpoint ↦ elim (http.request_error endpoint) [
    | some e ↦ err (invalid_request e)
    | none ↦ read_reply http limit (http.send (request_for opts endpoint body))
  ]
]

-- One bulk request to the next address.
unfoldable pub exchange : Http → ℕ → Text → Sink → Sink × Result Failure BulkResponse
exchange http limit body s = (
  record s { next = (s.next + 1) % 2 ^ 64 },
  elim (pick s.next s.opts.addresses) [
    | none ↦ err index_out_of_range
    | some address ↦ post http s.opts limit body address
  ],
)
