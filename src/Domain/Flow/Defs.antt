-- ===== src/Domain/Flow/Defs.antt =====
-- The types of flow.go, and `Open` and the read-only methods.
use flow_stitch.Base.{
  ℕ, Bool, true, false, List, [], ◌++◌, map, Text, nat_eq, if◌then◌else◌, Comparable, text_beq,
  text_beq_iff, text_eq, ◌&&◌, ◌≡◌, ◌↔◌, arith, not, count_if, ltb,
}
use flow_stitch.Base.Dict.{Dict}
use flow_stitch.Base.Sort.{sort_by}
use flow_stitch.Domain.Instant.{Instant, zero_time, add, before, same_instant}
use flow_stitch.Domain.Event.{Event}
use flow_stitch.Domain.Rule.{Rule}

pub record FlowKey : Type 0 where
  pub rule_id : Text
  pub correlation_key : Text

pub data AnomalyKind : Type 0 where
  anomaly_cardinality anomaly_clock_skew anomaly_promotion : AnomalyKind

pub record Anomaly : Type 0 where
  pub kind : AnomalyKind
  pub detail : Text
  pub at : Instant

pub record Invocation : Type 0 where
  pub stitch_id : Text
  pub group : Dict Text Text
  pub members : Dict Text Event
  pub complete : Bool
  pub duplicate_count : ℕ
  pub first_observed_at : Instant
  pub order : ℕ

pub record PlainEntry : Type 0 where
  pub event : Event
  pub order : ℕ

pub record Flow : Type 0 where
  pub key : FlowKey
  pub rule_version : Text
  pub pinned_rule : Rule
  pub events : List Event
  pub invocations : List Invocation
  pub invocation_by_key : Dict Text ℕ
  pub plain : List PlainEntry
  pub first_observed_at : Instant
  pub updated_at : Instant
  pub timeout_at : Instant
  pub expires_at : Instant
  pub settle_until : Instant
  pub duplicate_count : ℕ
  pub duplicates : Dict Text ℕ
  pub anomalies : List Anomaly
  pub terminal_seen : Bool
  pub limit_exceeded : Bool
  pub bytes : ℕ
  pub next_order : ℕ

pub data Reason : Type 0 where
  invocations_complete terminal_event timeout limit_exceeded rule_unavailable : Reason

unfoldable pub open_flow : FlowKey → Rule → Event → Flow
open_flow k r first =
    let timeout_at = add first.observed_at r.lifecycle.timeout in
    record {
      key = k;
      rule_version = r.version;
      pinned_rule = r;
      events = [];
      invocations = [];
      invocation_by_key = [];
      plain = [];
      first_observed_at = first.observed_at;
      updated_at = first.observed_at;
      timeout_at = timeout_at;
      expires_at = timeout_at;
      settle_until = zero_time;
      duplicate_count = 0;
      duplicates = [];
      anomalies = [];
      terminal_seen = false;
      limit_exceeded = false;
      bytes = 0;
      next_order = 0;
    }

-- `IncompleteInvocations`, `CompleteInvocations`
unfoldable pub incomplete_invocations : Flow → ℕ
incomplete_invocations f = count_if (λ i. not i.complete) f.invocations

unfoldable pub complete_invocations : Flow → ℕ
complete_invocations f = count_if (λ i. i.complete) f.invocations

-- A timeline position: an invocation or a plain event.
pub data EntryItem : Type 0 where
  stitched : Invocation → EntryItem
  plain_event : Event → EntryItem

pub record Entry : Type 0 where
  pub item : EntryItem
  pub observed_at : Instant
  pub order : ℕ

unfoldable pub invocation_entry : Invocation → Entry
invocation_entry i = record {
  item = stitched i;
  observed_at = i.first_observed_at;
  order = i.order;
}

unfoldable pub plain_entry : PlainEntry → Entry
plain_entry p = record {
  item = plain_event p.event;
  observed_at = p.event.observed_at;
  order = p.order;
}

unfoldable pub entry_less : Entry → Entry → Bool
entry_less a b =
    if same_instant a.observed_at b.observed_at
    then ltb a.order b.order
    else before a.observed_at b.observed_at

unfoldable pub unsorted_entries : Flow → List Entry
unsorted_entries f = map invocation_entry f.invocations ++ map plain_entry f.plain

unfoldable pub entries : Flow → List Entry
entries f = sort_by entry_less (unsorted_entries f)

unfoldable pub key_beq : FlowKey → FlowKey → Bool
key_beq a b = text_beq a.rule_id b.rule_id && text_beq a.correlation_key b.correlation_key

pub key_beq_iff : (a b : FlowKey) → (key_beq a b ≡ true) ↔ (a ≡ b)
unfolding key_beq
key_beq_iff a b =
    ground
      (arith, text_beq_iff a.rule_id b.rule_id, text_beq_iff a.correlation_key b.correlation_key)

instance abbrev pub key_eq : Comparable FlowKey
key_eq = record { equals = key_beq; equals_iff = key_beq_iff }
