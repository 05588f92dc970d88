-- ===== src/Domain/Projection/Shape.antt =====
-- The shape of a document of internal/domain/projection/document.go.
use flow_stitch.Base.{
  ℕ, suc, ◌-◌, ◌/◌, ◌^◌, Bool, Option, List, Text, text_eq, nat_eq, if◌then◌else◌, ltb,
}
use flow_stitch.Base.Int.{ℤ, pos, negsuc}
use flow_stitch.Base.Dict.{Dict}
use flow_stitch.Domain.Instant.{Instant, Duration, sub}
use flow_stitch.Domain.Event.{Fields, Float}
use flow_stitch.Domain.Flow.Defs.{Anomaly, Reason}

-- `time.Parse` for RFC 3339, with nanoseconds in the layout and without, and `strconv.ParseFloat`.
pub record Parsers : Type 0 where
  pub parse_nano : Text → Option Instant
  pub parse_time : Text → Option Instant
  pub parse_float : Text → Option Float

pub record TypeCount : Type 0 where
  pub type : Text
  pub count : ℕ

pub record Meta : Type 0 where
  pub id : Text
  pub rule_id : Text
  pub rule_version : Text
  pub reason : Reason
  pub started_at : Instant
  pub ended_at : Instant
  pub duration_ms : ℤ
  pub age_ms : ℤ
  pub event_count : ℕ
  pub entry_count : ℕ
  pub duplicate_count : ℕ
  pub incomplete_invocations : ℕ
  pub duplicates : List TypeCount

pub data FieldValue : Type 0 where
  keyword_value : Text → FieldValue
  long_value : ℤ → FieldValue
  double_value : Float → FieldValue
  boolean_value : Bool → FieldValue
  date_value : Instant → FieldValue

-- An event as a view shows it, and the items of a view.
pub record Shown : Type 0 where
  pub type : Text
  pub timestamp : Instant
  pub event : Fields

pub data ViewItem : Type 0 where
  group_item : Dict Text Text → ViewItem
  flag_item : Bool → ViewItem
  time_item : Instant → ViewItem
  number_item : ℤ → ViewItem
  count_item : ℕ → ViewItem
  text_item : Text → ViewItem
  doc_item : Fields → ViewItem
  shown_item : Shown → ViewItem

abbrev pub View : Type 0
View = Dict Text ViewItem

pub record Document : Type 0 where
  pub timestamp : Instant
  pub flow : Meta
  pub fields : Dict Text FieldValue
  pub events : List View
  pub anomalies : List Anomaly

-- `t.Sub(u)` with the bounds of a 64-bit duration, and `Milliseconds`, which rounds towards zero.
unfoldable pub elapsed : Instant → Instant → Duration
elapsed t u = elim (sub t u) [
  | pos n ↦ pos (if ltb n (2 ^ 63) then n else 2 ^ 63 - 1)
  | negsuc n ↦ negsuc (if ltb n (2 ^ 63) then n else 2 ^ 63 - 1)
]

unfoldable pub milliseconds : Duration → ℤ
milliseconds (pos n) = pos (n / 1000000)
milliseconds (negsuc n) = if ltb (suc n) 1000000 then pos 0 else negsuc (suc n / 1000000 - 1)
