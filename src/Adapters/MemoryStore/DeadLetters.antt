-- ===== src/Adapters/MemoryStore/DeadLetters.antt =====
-- internal/adapters/state/memory/store.go: the operations that move records between the outbox and
-- the dead letters: `ResolveOutbox` with `trimDeadLetters`, and `ReplayDeadLetters`.
pub mod Trim
pub mod Results
pub mod Resolve
pub mod Replay
pub mod Moved
use flow_stitch.Base.{
  ℕ, zero, suc, ◌+◌, ◌≡◌, Bool, true, false, ◌&&◌, ◌||◌, not, Option, none, some, List, [], ◌∷◌,
  ◌++◌, map, Text, text_eq, text_ltb, nat_eq, Comparable, ◌==◌, if◌then◌else◌, Result, ok, err,
  ◌>>=◌, length, ltb, or_else, take, is_some, select,
}
use flow_stitch.Base.Int.{ℤ, pos, negsuc}
use flow_stitch.Base.Dict.{Dict, lookup, insert, erase}
use flow_stitch.Base.Sort.{sort_by}
use flow_stitch.Domain.Instant.{Instant, zero_time, before, after, same_instant}
use flow_stitch.Domain.Rule.{Reference}
use flow_stitch.Domain.Flow.Defs.{Flow, FlowKey, key_eq}
use flow_stitch.Domain.Flow.Codec.{Json, encode, decode}
use flow_stitch.Domain.Outbox.{
  Record, zero_record, ready, Disposition, delivered, retryable, permanent, other_disposition,
  DeliveryResult, DeadLetterRef, DeadLetterSummary, DeadLetterMetadata, metadata, DeadLetterFilter,
  matches, DeadLetterPage,
}
use flow_stitch.Application.Ports.{
  DeadLetterChange, no_change, StoreError, encode_failed, decode_failed, unknown_disposition,
  cancelled_read,
}
use flow_stitch.Adapters.MemoryStore.State.{Store, limited, dead_at, matching_ids}

unfoldable pub dead_letter_ref : Record → DeadLetterRef
dead_letter_ref r = record { type = r.rejection_type; index = r.index }

-- `trimDeadLetters`: the loop visits the map, and `oldest` starts as the empty ID.
unfoldable pub older : Record → Text → Record → Text → Bool
older r id c oldest =
    before r.created_at c.created_at
    || (same_instant r.created_at c.created_at && text_ltb id oldest)

unfoldable pub next_oldest : Dict Text Record → Text → Text → Record → Text
next_oldest dead oldest id r = elim (lookup oldest dead) [
  | none ↦ id
  | some c ↦ if older r id c oldest then id else oldest
]

unfoldable pub oldest_of : Dict Text Record → Text → Dict Text Record → Text
oldest_of dead oldest [] = oldest
oldest_of dead oldest ((id, r) ∷ rest) = oldest_of dead (next_oldest dead oldest id r) rest

unfoldable pub over_limit : ℤ → ℕ → Bool
over_limit (pos m) n = ltb m n
over_limit (negsuc m) n = false

unfoldable pub drop_oldest : Store → Store × Record
drop_oldest s =
    let id = oldest_of s.dead [] s.dead in
    (
      record s { dead = erase id s.dead; dropped = s.dropped + 1 },
      or_else (lookup id s.dead) zero_record,
    )

-- One round for each unit of fuel; a round removes a record.
unfoldable pub trim : ℕ → Store → Store × List Record
trim zero s = (s, [])
trim (suc fuel) s =
    let (s', r) = drop_oldest s in
    let (s'', rs) = trim fuel s' in
    if over_limit s.max_dlq (length s.dead) then (s'', r ∷ rs) else (s, [])

unfoldable pub trim_dead_letters : Store → Store × List Record
trim_dead_letters s = trim (length s.dead) s

-- `ResolveOutbox`: the loop's variables, and one result.
pub record Resolving : Type 0 where
  pub store : Store
  pub dead_changed : Bool
  pub added : List DeadLetterRef
  pub removed : List DeadLetterRef

unfoldable pub rejected : DeliveryResult → Record → Record
rejected res r = record r {
  attempts = if ltb 0 res.attempts then res.attempts else r.attempts;
  last_error = or_else res.error r.last_error;
  rejection_type = res.rejection_type;
  dead_lettered_at = res.dead_lettered_at;
}

unfoldable pub retried : DeliveryResult → Record → Record
retried res r = record r {
  attempts = if ltb 0 res.attempts then res.attempts else r.attempts + 1;
  next_attempt_at = res.next_attempt_at;
  last_error = or_else res.error r.last_error;
}

unfoldable pub replaced_ref : Text → Dict Text Record → List DeadLetterRef
replaced_ref id dead = elim (lookup id dead) [
  | none ↦ []
  | some previous ↦ dead_letter_ref previous ∷ []
]

unfoldable pub dead_letter : DeliveryResult → Record → Resolving → Resolving
dead_letter res r st = record {
  store = record (st.store) {
    records = erase res.output_id st.store.records;
    dead = insert res.output_id (rejected res r) st.store.dead;
  };
  dead_changed = true;
  added = st.added ++ dead_letter_ref (rejected res r) ∷ [];
  removed = st.removed ++ replaced_ref res.output_id st.store.dead;
}

unfoldable pub resolve_found :
    DeliveryResult → Record → Disposition → Resolving → Result StoreError Resolving
resolve_found res r delivered st =
    ok (record st { store = record (st.store) { records = erase res.output_id st.store.records } })
resolve_found res r permanent st = ok (dead_letter res r st)
resolve_found res r retryable st = ok (record st {
  store = record (st.store) { records = insert res.output_id (retried res r) st.store.records };
})
resolve_found res r (other_disposition d) st = err (unknown_disposition d)

unfoldable pub resolve_one : DeliveryResult → Resolving → Result StoreError Resolving
resolve_one res st = elim (lookup res.output_id st.store.records) [
  | none ↦ ok st
  | some r ↦ resolve_found res r res.disposition st
]

unfoldable pub resolve_results : List DeliveryResult → Resolving → Result StoreError Resolving
resolve_results [] st = ok st
resolve_results (res ∷ rest) st = do st' ← resolve_one res st; resolve_results rest st'

-- What follows the loop when a record was added to the dead letters.
unfoldable pub report_trimmed : Resolving → Store × DeadLetterChange
report_trimmed st =
    let (s', dropped) = trim_dead_letters st.store in
    (
      s',
      record {
        records = length s'.dead;
        dropped = length dropped;
        changed = true;
        added = st.added;
        removed = st.removed ++ map dead_letter_ref dropped;
      },
    )

unfoldable pub finish_resolve : Resolving → Store × DeadLetterChange
finish_resolve st = if st.dead_changed then report_trimmed st else (st.store, no_change)

unfoldable pub resolve_outbox :
    List DeliveryResult → Store → Result StoreError (Store × DeadLetterChange)
resolve_outbox results s = do
  st ←
      resolve_results results (record { store = s; dead_changed = false; added = []; removed = [] })
  ok (finish_resolve st)

-- `ReplayDeadLetters`
unfoldable pub replayed : Instant → Record → Record
replayed now r = record r {
  attempts = 0;
  last_error = [];
  rejection_type = [];
  dead_lettered_at = zero_time;
  next_attempt_at = now;
  replay_count = r.replay_count + 1;
}

unfoldable pub replay_one : Instant → Text → Store → Store
replay_one now id s = record s {
  records = insert id (replayed now (dead_at s id)) s.records;
  dead = erase id s.dead;
}

-- The records in the order of the loop, and the store after it.
unfoldable pub replay_ids : Instant → List Text → Store → Store × List Record
replay_ids now [] s = (s, [])
replay_ids now (id ∷ ids) s =
    let (s', rs) = replay_ids now ids (replay_one now id s) in (s', dead_at s id ∷ rs)

unfoldable pub replay_selection : DeadLetterFilter → Store → List Text
replay_selection filter s =
    limited filter.limit (sort_by text_ltb (matching_ids (λ id r. matches filter r) s.dead))

unfoldable pub replay_dead_letters :
    DeadLetterFilter → Instant → Store → Store × List DeadLetterMetadata × DeadLetterChange
replay_dead_letters filter now s =
    let (s', rs) = replay_ids now (replay_selection filter s) s in
    let some_replayed = ltb 0 (length rs) in
    (
      s',
      map metadata rs,
      record {
        records = if some_replayed then length s'.dead else 0;
        dropped = 0;
        changed = some_replayed;
        added = [];
        removed = map dead_letter_ref rs;
      },
    )
