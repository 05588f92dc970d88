-- ===== src/Application/Deliver.antt =====
-- internal/application/deliver/service.go: the sink's answers are completed, classified and applied.
-- The sink, the quarantine's log and the backoff's jittered delay (floating-point arithmetic on a
-- digest) are arguments; counters are left out.
pub mod Classify
pub mod Backoff
pub mod Drain
use flow_stitch.Base.{
  ℕ, zero, suc, ◌+◌, Bool, true, false, ◌&&◌, ◌||◌, not, Option, none, some, List, [], ◌∷◌, Text,
  codes, text_eq, nat_eq, ◌==◌, is_nil, or_else, if◌then◌else◌, ltb, Result, ok, err, ◌>>=◌, ◌++◌,
  map,
}
use flow_stitch.Base.Decimal.{itoa}
use flow_stitch.Base.Int.{ℤ, pos, pos_part, ltb_ℤ}
use flow_stitch.Base.Dict.{Dict, lookup, insert}
use flow_stitch.Domain.Instant.{Instant, Duration, zero_time, add}
use flow_stitch.Domain.Outbox.{
  Record, zero_record, Disposition, delivered, retryable, permanent, other_disposition,
  DeliveryResult,
}
use flow_stitch.Application.Ports.{
  Tx, StoreError, DeadLetterChange, PassthroughRecord, PassthroughResult, with_tx,
}

-- The defaults of `New`.
unfoldable pub batch_or_default : ℤ → ℕ
batch_or_default n = if pos_part n == 0 then 64 else pos_part n

unfoldable pub retries_or_default : ℤ → ℕ
retries_or_default n = if pos_part n == 0 then 8 else pos_part n

-- `completeResults`
unfoldable pub results_by_id :
    List DeliveryResult → Dict Text DeliveryResult → Dict Text DeliveryResult
results_by_id [] m = m
results_by_id (r ∷ rs) m = results_by_id rs (insert r.output_id r m)

unfoldable pub omitted : Option Text → Text
omitted none = codes "sink omitted delivery result"
omitted (some cause) = codes "sink delivery failed: " ++ cause

unfoldable pub missing_result : Option Text → Record → DeliveryResult
missing_result sink_error r = record {
  output_id = r.output_id;
  disposition = retryable;
  error = some (omitted sink_error);
  rejection_type = [];
  dead_lettered_at = zero_time;
  attempts = 0;
  next_attempt_at = zero_time;
}

unfoldable pub complete_from :
    Dict Text DeliveryResult → Option Text → List Record → List DeliveryResult
complete_from by_id sink_error [] = []
complete_from by_id sink_error (r ∷ rs) =
    or_else (lookup r.output_id by_id) (missing_result sink_error r)
    ∷ complete_from by_id sink_error rs

unfoldable pub complete_results :
    List Record → List DeliveryResult → Option Text → List DeliveryResult
complete_results records results sink_error =
    complete_from (results_by_id results []) sink_error records

-- `safeError`
unfoldable pub safe_error : Option Text → Text
safe_error e = or_else e (codes "sink permanently rejected record")

unfoldable pub is_permanent : Disposition → Bool
is_permanent permanent = true
is_permanent d = false

unfoldable pub is_retryable : Disposition → Bool
is_retryable retryable = true
is_retryable d = false

unfoldable pub is_delivered : Disposition → Bool
is_delivered delivered = true
is_delivered d = false

unfoldable pub give_up : ℕ → DeliveryResult → DeliveryResult
give_up attempt r = record r {
  disposition = permanent;
  rejection_type =
      if is_nil r.rejection_type then codes "retry_limit_exceeded" else r.rejection_type;
  error = some (
      codes "retry limit exceeded after "
      ++ (itoa (pos attempt) ++ (codes " attempts: " ++ safe_error r.error)));
}

-- What the loop does to a permanent result.
unfoldable pub bury : Instant → DeliveryResult → DeliveryResult
bury now r = record r {
  rejection_type = if is_nil r.rejection_type then codes "unknown" else r.rejection_type;
  dead_lettered_at = now;
}

unfoldable pub records_by_id : List Record → Dict Text Record → Dict Text Record
records_by_id [] m = m
records_by_id (r ∷ rs) m = records_by_id rs (insert r.output_id r m)

unfoldable pub bury_permanent : Instant → DeliveryResult → DeliveryResult
bury_permanent now r = if is_permanent r.disposition then bury now r else r

module _ (backoff : Text → ℕ → Duration) (max_retries : ℕ) where
  unfoldable pub retry_or_give_up : Instant → ℕ → DeliveryResult → DeliveryResult
  retry_or_give_up now attempt r =
      if ltb max_retries attempt
      then give_up attempt r
      else record r { next_attempt_at = add now (backoff r.output_id attempt) }

  unfoldable pub classify : Instant → Record → DeliveryResult → DeliveryResult
  classify now stored r =
      let attempt = stored.attempts + 1 in
      let counted = record r { attempts = attempt } in
      elim r.disposition [
        | retryable ↦ bury_permanent now (retry_or_give_up now attempt counted)
        | d ↦ bury_permanent now counted
      ]

  unfoldable pub classify_all :
      Instant → Dict Text Record → List DeliveryResult → List DeliveryResult
  classify_all now by_id [] = []
  classify_all now by_id (r ∷ rs) =
      classify now (or_else (lookup r.output_id by_id) zero_record) r ∷ classify_all now by_id rs

unfoldable pub count_delivered : List DeliveryResult → ℕ
count_delivered [] = 0
count_delivered (r ∷ rs) = (if is_delivered r.disposition then 1 else 0) + count_delivered rs

-- The record as the quarantine is handed it.
unfoldable pub captured_record : Record → DeliveryResult → Record
captured_record stored r = record stored {
  attempts = r.attempts;
  last_error = safe_error r.error;
  rejection_type = r.rejection_type;
}

pub data DrainError : Type 0 where
  load_pending resolve_failed : StoreError → DrainError
  capture_failed : Text → Text → DrainError

-- `capture` returns an error or nothing; the loop stops at the first error, before the outbox is
-- touched.
unfoldable pub capture_all :
    (Record → Text → Option Text)
    → Dict Text Record
    → List DeliveryResult
    → Result DrainError (List Record)
capture_all capture by_id [] = ok []
capture_all capture by_id (r ∷ rs) =
    let stored = captured_record (or_else (lookup r.output_id by_id) zero_record) r in
    if is_permanent r.disposition
    then elim (capture stored stored.last_error) [
      | some x ↦ err (capture_failed r.output_id x)
      | none ↦ elim (capture_all capture by_id rs) [
        | err x ↦ err x
        | ok captured ↦ ok (stored ∷ captured)
      ]
    ]
    else capture_all capture by_id rs

-- What one drain of the outbox comes to: the number of delivered records, the change of the dead
-- letters and the records that the quarantine holds.
pub record Drained : Type 0 where
  pub delivered_count : ℕ
  pub change : DeadLetterChange
  pub captured : List Record

module _ (tx : Tx) (sink : List Record → List DeliveryResult × Option Text)
    (capture : Record → Text → Option Text) (backoff : Text → ℕ → Duration)
    (batch max_retries : ℕ) where
  unfoldable pub resolve_batch :
      Instant → List Record → tx.State → tx.State × Result DrainError Drained
  resolve_batch now records s =
      let (answers, sink_error) = sink records in
      let by_id = records_by_id records [] in
      let results =
        classify_all backoff max_retries now by_id (complete_results records answers sink_error) in
      elim (capture_all capture by_id results) [
        | err x ↦ (s, err x)
        | ok captured ↦ elim (tx.resolve_outbox results s) [
          | err x ↦ (s, err (resolve_failed x))
          | ok (s', change) ↦ (
            s',
            ok (record {
              delivered_count = count_delivered results;
              change = change;
              captured = captured;
            }),
          )
        ]
      ]

  -- `Drain` up to the refresh of the depth: none when no record is ready.
  unfoldable pub drain_outbox : Instant → tx.State → tx.State × Result DrainError (Option Drained)
  drain_outbox now s = elim (tx.pending_outbox now batch s) [
    | err x ↦ (s, err (load_pending x))
    | ok [] ↦ (s, ok none)
    | ok (r ∷ rs) ↦
        let (s', d) = resolve_batch now (r ∷ rs) s in
        (s', elim d [ err x ↦ err x | ok done ↦ ok (some done) ])
  ]

-- `drainPassthrough` on the pending records: the completed verdicts and how many were delivered.
unfoldable pub verdict_of :
    List PassthroughResult → ℕ → Option PassthroughResult → Option PassthroughResult
verdict_of [] n found = found
verdict_of (r ∷ rs) n found = verdict_of rs n (if r.sequence == n then some r else found)

unfoldable pub complete_passthrough :
    List PassthroughResult → List PassthroughRecord → List PassthroughResult
complete_passthrough results [] = []
complete_passthrough results (p ∷ ps) =
    or_else (verdict_of results p.sequence none)
      (record { sequence = p.sequence; disposition = retryable })
    ∷ complete_passthrough results ps

unfoldable pub next_interval : Option Duration → Duration → Duration
next_interval none sink_interval = sink_interval
next_interval (some flush) sink_interval =
    if pos_part sink_interval == 0 || ltb_ℤ flush sink_interval then flush else sink_interval
