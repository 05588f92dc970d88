-- ===== src/Domain/Flow/Codec.antt =====
-- internal/domain/flow/codec.go: the durable representation of the aggregate, and the JSON methods
-- of internal/domain/path/path.go that it goes through. The JSON encoder itself (encoding/json) is
-- the argument `json`; it drops the `Raw` field of events (`json:"-"`).
pub mod RoundTrip
use flow_stitch.Base.{
  ℕ, zero, suc, ◌+◌, ◌≡◌, Bool, true, false, Option, none, some, List, [], ◌∷◌, ◌++◌, map, Text,
  nat_eq, text_eq, ◌==◌, if◌then◌else◌, Result, ok, err, ◌>>=◌, length, or_else, from_option,
}
use flow_stitch.Base.Dict.{Dict, lookup, insert}
use flow_stitch.Domain.Instant.{Instant}
use flow_stitch.Domain.Event.{Event}
use flow_stitch.Domain.DocPath.{DocPath, CompileError, compile, empty_path}
use flow_stitch.Domain.DocPath.Canonical.{canonical}
use flow_stitch.Domain.Rule.{Rule, Stitch, Promotion, Extract}
use flow_stitch.Domain.Flow.Defs.{Flow, FlowKey, Invocation, PlainEntry, Anomaly}

abbrev pub format_version : ℕ
format_version = 2

pub record EncodedInvocation : Type 0 where
  pub identity : Text
  pub stitch_id : Text
  pub group : Dict Text Text
  pub members : Dict Text Event
  pub complete : Bool
  pub duplicate_count : ℕ
  pub first_observed_at : Instant
  pub order : ℕ

pub record EncodedFlow : Type 0 where
  pub key : FlowKey
  pub rule_version : Text
  pub pinned_rule : Rule
  pub events : List Event
  pub invocations : List EncodedInvocation
  pub plain : List PlainEntry
  pub first_observed_at : Instant
  pub updated_at : Instant
  pub timeout_at : Instant
  pub expires_at : Instant
  pub settle_until : Instant
  pub duplicate_count : ℕ
  pub duplicates : Dict Text ℕ
  pub anomalies : List Anomaly
  pub terminal_seen : Bool
  pub limit_exceeded : Bool
  pub bytes : ℕ
  pub next_order : ℕ

pub record Json : Type 0 where
  pub marshal : EncodedFlow → Option Text
  pub unmarshal : Text → Option EncodedFlow

pub data CodecError : Type 0 where
  encode_failed missing_version unmarshal_failed : CodecError
  unknown_version : ℕ → CodecError

-- What the encoder leaves out.
unfoldable pub strip_raw : Event → Event
strip_raw e = record e { raw = [] }

unfoldable pub strip_members : Dict Text Event → Dict Text Event
unfolding strip_raw
strip_members [] = []
strip_members ((role, e) ∷ ms) = (role, strip_raw e) ∷ strip_members ms

unfoldable pub strip_plain : PlainEntry → PlainEntry
unfolding strip_raw
strip_plain p = record p { event = strip_raw p.event }

-- `MarshalJSON` writes the canonical spelling, and `UnmarshalJSON` compiles it.
unfoldable pub restore_path : DocPath → Result CompileError DocPath
restore_path p = elim (canonical p) [ [] ↦ ok empty_path | c ∷ s ↦ compile (c ∷ s) ]

unfoldable pub restore_paths : List DocPath → Result CompileError (List DocPath)
restore_paths [] = ok []
restore_paths (p ∷ ps) = do q ← restore_path p; qs ← restore_paths ps; ok (q ∷ qs)

unfoldable pub restore_stitches : List Stitch → Result CompileError (List Stitch)
restore_stitches [] = ok []
restore_stitches (s ∷ ss) = do
  ps ← restore_paths s.group_by
  rest ← restore_stitches ss
  ok (record s { group_by = ps } ∷ rest)

unfoldable pub restore_promotions : List Promotion → Result CompileError (List Promotion)
restore_promotions [] = ok []
restore_promotions (p ∷ ps) = do
  q ← restore_path p.path
  rest ← restore_promotions ps
  ok (record p { path = q } ∷ rest)

unfoldable pub restore_rule : Rule → Result CompileError Rule
restore_rule r = do
  event_type ← restore_path r.extract.event_type
  timestamp ← restore_path r.extract.timestamp
  key ← restore_path r.key
  stitch ← restore_stitches r.stitch
  promote ← restore_promotions r.promote
  ok (record r {
    extract = record { event_type = event_type; timestamp = timestamp };
    key = key;
    stitch = stitch;
    promote = promote;
  })

-- `identities[invocation]`: the key of the map that points to the index.
unfoldable pub identity_of : Dict Text ℕ → ℕ → Text
identity_of [] i = []
identity_of ((k, j) ∷ m) i = if j == i then k else identity_of m i

unfoldable pub encode_invocation : Dict Text ℕ → ℕ → Invocation → EncodedInvocation
unfolding strip_members identity_of
encode_invocation m i inv = record {
  identity = identity_of m i;
  stitch_id = inv.stitch_id;
  group = inv.group;
  members = strip_members inv.members;
  complete = inv.complete;
  duplicate_count = inv.duplicate_count;
  first_observed_at = inv.first_observed_at;
  order = inv.order;
}

unfoldable pub encode_invocations : Dict Text ℕ → ℕ → List Invocation → List EncodedInvocation
encode_invocations m i [] = []
encode_invocations m i (inv ∷ rest) = encode_invocation m i inv ∷ encode_invocations m (i + 1) rest

unfoldable pub encoded : Flow → EncodedFlow
unfolding encode_invocations strip_plain strip_raw
encoded f = record {
  key = f.key;
  rule_version = f.rule_version;
  pinned_rule = f.pinned_rule;
  events = map strip_raw f.events;
  invocations = encode_invocations f.invocation_by_key 0 f.invocations;
  plain = map strip_plain f.plain;
  first_observed_at = f.first_observed_at;
  updated_at = f.updated_at;
  timeout_at = f.timeout_at;
  expires_at = f.expires_at;
  settle_until = f.settle_until;
  duplicate_count = f.duplicate_count;
  duplicates = f.duplicates;
  anomalies = f.anomalies;
  terminal_seen = f.terminal_seen;
  limit_exceeded = f.limit_exceeded;
  bytes = f.bytes;
  next_order = f.next_order;
}

unfoldable pub encode : Json → Flow → Result CodecError Text
encode json f = do
  raw ← from_option (json.marshal (encoded f)) encode_failed
  ok (format_version ∷ raw)

unfoldable pub decode_invocation : EncodedInvocation → Invocation
decode_invocation e = record {
  stitch_id = e.stitch_id;
  group = e.group;
  members = e.members;
  complete = e.complete;
  duplicate_count = e.duplicate_count;
  first_observed_at = e.first_observed_at;
  order = e.order;
}

-- The rebuilt map: each identity points to the index at which its invocation is appended.
unfoldable pub index_identities : ℕ → List EncodedInvocation → Dict Text ℕ → Dict Text ℕ
index_identities i [] m = m
index_identities i (e ∷ rest) m = index_identities (i + 1) rest (insert e.identity i m)

unfoldable pub decoded : EncodedFlow → Rule → Flow
unfolding decode_invocation
decoded b r = record {
  key = b.key;
  rule_version = b.rule_version;
  pinned_rule = r;
  events = b.events;
  invocations = map decode_invocation b.invocations;
  invocation_by_key = index_identities 0 b.invocations [];
  plain = b.plain;
  first_observed_at = b.first_observed_at;
  updated_at = b.updated_at;
  timeout_at = b.timeout_at;
  expires_at = b.expires_at;
  settle_until = b.settle_until;
  duplicate_count = b.duplicate_count;
  duplicates = b.duplicates;
  anomalies = b.anomalies;
  terminal_seen = b.terminal_seen;
  limit_exceeded = b.limit_exceeded;
  bytes = b.bytes;
  next_order = b.next_order;
}

unfoldable pub decode : Json → Text → Result CodecError Flow
decode json [] = err missing_version
decode json (v ∷ raw) =
    if v == format_version
    then elim (json.unmarshal raw) [
      | none ↦ err unmarshal_failed
      | some b ↦ elim (restore_rule b.pinned_rule) [
        | err e ↦ err unmarshal_failed
        | ok r ↦ ok (decoded b r)
      ]
    ]
    else err (unknown_version v)
