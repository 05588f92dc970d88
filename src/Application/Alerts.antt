-- ===== src/Application/Alerts.antt =====
-- internal/application/alerts/service.go: the process-local view of the dead letters, and the alert
-- conditions with the documents that are due. Emit has their summaries and their delivery. The age in
-- seconds (a float) is computed from the duration that a document holds here; the counter and the log
-- around the delivery are left out.
pub mod Phases
pub mod Emit
use flow_stitch.Base.{
  ℕ, zero, suc, ◌+◌, ◌-◌, Bool, true, false, ◌&&◌, ◌||◌, not, Option, none, some, List, [], ◌∷◌,
  ◌++◌, Text, codes, text_eq, text_ltb, nat_eq, ◌==◌, is_nil, or_else, if◌then◌else◌, ltb, length,
}
use flow_stitch.Base.Decimal.{itoa}
use flow_stitch.Base.Int.{ℤ, pos, negsuc, pos_part, ltb_ℤ}
use flow_stitch.Base.Dict.{Dict, lookup, insert, erase}
use flow_stitch.Base.Sort.{sort_by}
use flow_stitch.Domain.Instant.{Instant, Duration, zero_time, sub}
use flow_stitch.Domain.Outbox.{Record, DeadLetterRef, DeadLetterSummary, age}
use flow_stitch.Application.Ports.{DeadLetterChange}

-- `KindDLQ` and `KindOutboxBacklog`
pub data Kind : Type 0 where
  dlq outbox_backlog : Kind

pub record AlertOptions : Type 0 where
  pub enabled : Bool
  pub index : Text
  pub min_interval : Duration
  pub outbox_age_threshold : Duration

pub record Condition : Type 0 where
  pub active : Bool
  pub last_emitted : Instant

abbrev pub inactive : Condition
inactive = record { active = false; last_emitted = zero_time }

-- The map of conditions has the two kinds as its keys; a missing entry is `inactive`.
pub record Conditions : Type 0 where
  pub dlq_condition : Condition
  pub backlog_condition : Condition

pub record Service : Type 0 where
  pub opts : AlertOptions
  pub summary : DeadLetterSummary
  pub states : Conditions

unfoldable pub state_of : Kind → Conditions → Condition
state_of dlq c = c.dlq_condition
state_of outbox_backlog c = c.backlog_condition

unfoldable pub set_state : Kind → Condition → Conditions → Conditions
set_state dlq x c = record c { dlq_condition = x }
set_state outbox_backlog x c = record c { backlog_condition = x }

abbrev pub no_conditions : Conditions
no_conditions = record { dlq_condition = inactive; backlog_condition = inactive }

unfoldable pub reason_type : Text → Text
reason_type t = if is_nil t then codes "unknown" else t

unfoldable pub count : Dict Text ℕ → Text → ℕ
count m k = or_else (lookup k m) 0

-- `normalizedReasons[reasonType(reason)] += count`
unfoldable pub normalize : Dict Text ℕ → Dict Text ℕ → Dict Text ℕ
normalize [] out = out
normalize ((reason, n) ∷ m) out =
    normalize m (insert (reason_type reason) (count out (reason_type reason) + n) out)

unfoldable pub new_service : AlertOptions → DeadLetterSummary → Service
new_service opts seed = record {
  opts = opts;
  summary = record seed { reasons = normalize seed.reasons [] };
  states = no_conditions;
}

unfoldable pub same_output : AlertOptions → AlertOptions → Bool
same_output a b =
    ((a.enabled && b.enabled) || (not a.enabled && not b.enabled)) && a.index == b.index

unfoldable pub reconfigure : AlertOptions → Service → Service
reconfigure opts s = record s {
  states = if same_output s.opts opts then s.states else no_conditions;
  opts = opts;
}

unfoldable pub decrement : Dict Text ℕ → Text → Dict Text ℕ
decrement m k = if ltb 1 (count m k) then insert k (count m k - 1) m else erase k m

unfoldable pub increment_count : Dict Text ℕ → Text → Dict Text ℕ
increment_count m k = insert k (count m k + 1) m

unfoldable pub forget : List DeadLetterRef → DeadLetterSummary → DeadLetterSummary
forget [] d = d
forget (r ∷ rs) d = forget rs (record d {
  reasons = decrement d.reasons (reason_type r.type);
  indices = decrement d.indices r.index;
})

unfoldable pub learn : List DeadLetterRef → DeadLetterSummary → DeadLetterSummary
learn [] d = d
learn (r ∷ rs) d = learn rs (record d {
  reasons = increment_count d.reasons (reason_type r.type);
  indices = increment_count d.indices r.index;
})

unfoldable pub apply_dead_letter_change : DeadLetterChange → Service → Service
apply_dead_letter_change change s =
    let moved = learn change.added (forget change.removed s.summary) in
    if change.changed
    then record s {
      summary = record moved { records = change.records; dropped = moved.dropped + change.dropped };
    }
    else s

pub data Phase : Type 0 where
  starting ongoing clearing : Phase

pub record AlertCounts : Type 0 where
  pub dead_letter_records : ℕ
  pub dead_letter_dropped : ℕ
  pub outbox_records : ℕ

pub record ReasonCount : Type 0 where
  pub type : Text
  pub count : ℕ

unfoldable pub positive_keys : Dict Text ℕ → List Text
positive_keys [] = []
positive_keys ((k, n) ∷ m) = let rest = positive_keys m in if ltb 0 n then k ∷ rest else rest

unfoldable pub sorted_positive_keys : Dict Text ℕ → List Text
sorted_positive_keys m = sort_by text_ltb (positive_keys m)

unfoldable pub reason_counts : Dict Text ℕ → List Text → List ReasonCount
reason_counts m [] = []
reason_counts m (k ∷ ks) = record { type = k; count = count m k } ∷ reason_counts m ks

unfoldable pub sorted_reasons : Dict Text ℕ → List ReasonCount
sorted_reasons m = reason_counts m (sorted_positive_keys m)

unfoldable pub index_counts : List Record → Dict Text ℕ → Dict Text ℕ
index_counts [] m = m
index_counts (r ∷ rs) m = index_counts rs (increment_count m r.index)

unfoldable pub record_indices : List Record → List Text
record_indices records = sorted_positive_keys (index_counts records [])

-- A document; its age field and summary text are computed from the age.
pub record Document : Type 0 where
  pub timestamp : Instant
  pub kind : Kind
  pub state : Phase
  pub counts : AlertCounts
  pub reasons : List ReasonCount
  pub indices : List Text
  pub oldest_outbox_age : Duration

-- `d >= e`
abbrev pub at_least : Duration → Duration → Bool
at_least d e = not (ltb_ℤ d e)

-- Which phase a transition reports, if any.
unfoldable pub phase_of : AlertOptions → Bool → Instant → Condition → Option Phase
phase_of opts active now c =
    if active && not c.active
    then some starting
    else if active && at_least (sub now c.last_emitted) opts.min_interval
    then some ongoing
    else if not active && c.active
    then some clearing
    else none

unfoldable pub transition :
    Kind
    → Bool
    → Instant
    → AlertCounts
    → List ReasonCount
    → List Text
    → Duration
    → Service
    → Service × Option Document
transition kind active now counts reasons indices oldest s =
    elim (phase_of s.opts active now (state_of kind s.states)) [
      | none ↦ (s, none)
      | some phase ↦ (
        record s {
          states = set_state kind (record { active = active; last_emitted = now }) s.states;
        },
        some (record {
          timestamp = now;
          kind = kind;
          state = phase;
          counts = counts;
          reasons = reasons;
          indices = indices;
          oldest_outbox_age = oldest;
        }),
      )
    ]

unfoldable pub oldest_age : List Record → Instant → Duration
oldest_age [] now = pos 0
oldest_age (r ∷ rs) now = if ltb_ℤ (age r now) (pos 0) then pos 0 else age r now

unfoldable pub to_list : Option Document → List Document
to_list none = []
to_list (some d) = d ∷ []

-- `Observe`, up to the delivery: the documents that are due.
unfoldable pub observe : List Record → Instant → Service → Service × List Document
observe records now s =
    let oldest = oldest_age records now in
    let counts : AlertCounts = record {
      dead_letter_records = s.summary.records;
      dead_letter_dropped = s.summary.dropped;
      outbox_records = length records;
    } in
    let reasons = sorted_reasons s.summary.reasons in
    let (s1, first) =
      transition dlq (ltb 0 s.summary.records) now counts reasons
        (sorted_positive_keys s.summary.indices) oldest s in
    let (s2, second) =
      transition outbox_backlog (ltb_ℤ s.opts.outbox_age_threshold oldest) now counts reasons
        (record_indices records) oldest s1 in
    if s.opts.enabled then (s2, to_list first ++ to_list second) else (s, [])
