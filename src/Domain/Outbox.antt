-- ===== src/Domain/Outbox.antt =====
-- internal/domain/outbox/record.go: the hand-off between correlation and delivery. An output ID
-- and an error are texts.
use flow_stitch.Base.{
  ℕ, Bool, ◌&&◌, ◌||◌, not, Option, List, [], Text, text_eq, ◌==◌, length, is_nil,
}
use flow_stitch.Base.Dict.{Dict}
use flow_stitch.Domain.Instant.{Instant, Duration, zero_time, is_zero, before, sub}

pub record Record : Type 0 where
  pub output_id : Text
  pub index : Text
  pub document : Text
  pub created_at : Instant
  pub dead_lettered_at : Instant
  pub replay_count : ℕ
  pub attempts : ℕ
  pub last_error : Text
  pub rejection_type : Text
  pub next_attempt_at : Instant

-- A record with the zero value of every field, as a missing map entry gives it.
abbrev pub zero_record : Record
zero_record = record {
  output_id = [];
  index = [];
  document = [];
  created_at = zero_time;
  dead_lettered_at = zero_time;
  replay_count = 0;
  attempts = 0;
  last_error = [];
  rejection_type = [];
  next_attempt_at = zero_time;
}

unfoldable pub age : Record → Instant → Duration
age r now = sub now r.created_at

unfoldable pub ready : Record → Instant → Bool
ready r now = is_zero r.next_attempt_at || not (before now r.next_attempt_at)

pub data Disposition : Type 0 where
  delivered retryable permanent : Disposition
  other_disposition : Text → Disposition

-- The outcome of one attempt; `error` is the message of a non-nil `Err`.
pub record DeliveryResult : Type 0 where
  pub output_id : Text
  pub disposition : Disposition
  pub error : Option Text
  pub rejection_type : Text
  pub dead_lettered_at : Instant
  pub attempts : ℕ
  pub next_attempt_at : Instant

pub record DeadLetterRef : Type 0 where
  pub type : Text
  pub index : Text

pub record DeadLetterSummary : Type 0 where
  pub records : ℕ
  pub dropped : ℕ
  pub reasons : Dict Text ℕ
  pub indices : Dict Text ℕ

pub record DeadLetterMetadata : Type 0 where
  pub output_id : Text
  pub index : Text
  pub rejection_type : Text
  pub byte_size : ℕ
  pub created_at : Instant
  pub dead_lettered_at : Instant
  pub attempts : ℕ
  pub replay_count : ℕ

unfoldable pub metadata : Record → DeadLetterMetadata
metadata r = record {
  output_id = r.output_id;
  index = r.index;
  rejection_type = r.rejection_type;
  byte_size = length r.document;
  created_at = r.created_at;
  dead_lettered_at = r.dead_lettered_at;
  attempts = r.attempts;
  replay_count = r.replay_count;
}

-- Zero values do not constrain the selection; a limit of zero is no limit.
pub record DeadLetterFilter : Type 0 where
  pub output_id : Text
  pub reason_type : Text
  pub index : Text
  pub older_than : Instant
  pub limit : ℕ

unfoldable pub matches : DeadLetterFilter → Record → Bool
matches f r =
    (is_nil f.output_id || r.output_id == f.output_id)
    && (is_nil f.reason_type || r.rejection_type == f.reason_type)
    && (is_nil f.index || r.index == f.index)
    && (is_zero f.older_than || before r.dead_lettered_at f.older_than)

pub record DeadLetterPage : Type 0 where
  pub records : List DeadLetterMetadata
  pub next_cursor : Text
