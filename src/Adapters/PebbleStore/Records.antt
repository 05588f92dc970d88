-- ===== src/Adapters/PebbleStore/Records.antt =====
-- The operations of internal/adapters/state/pebble/store.go on the outbox and the dead letters. The
-- JSON of a record is an argument. What a delivery result and a replay make of a record is what
-- MemoryStore/DeadLetters defines, since both stores spell out the same fields.
pub mod Frame
pub mod Trim
pub mod Untouched
use flow_stitch.Base.{
  ℕ, ◌+◌, ◌-◌, ◌%◌, ◌^◌, Bool, true, false, ◌&&◌, not, Option, none, some, List, [], ◌∷◌, ◌++◌, map,
  Text, text_eq, text_ltb, nat_eq, ◌==◌, if◌then◌else◌, ltb, length, take, select, is_nil, Result,
  ok, err, ◌>>=◌, from_option,
}
use flow_stitch.Base.Int.{ℤ, pos, negsuc, pos_part}
use flow_stitch.Base.Sort.{sort_by}
use flow_stitch.Domain.Instant.{Instant, before, same_instant}
use flow_stitch.Domain.Outbox.{
  Record, ready, Disposition, delivered, retryable, permanent, other_disposition, DeliveryResult,
  DeadLetterRef, DeadLetterMetadata, metadata, DeadLetterFilter, matches,
}
use flow_stitch.Application.Ports.{
  StoreError, encode_failed, decode_failed, invalid_count, unknown_disposition, DeadLetterChange,
  no_change,
}
use flow_stitch.Adapters.MemoryStore.State.{limited, pending_less}
use flow_stitch.Adapters.MemoryStore.DeadLetters.{
  dead_letter_ref, over_limit, rejected, retried, replayed,
}
use flow_stitch.Adapters.PebbleStore.Keys.{
  outbox_prefix, dead_prefix, dropped_key, outbox_key, dead_key, prefix_end, big_endian,
  big_endian_value,
}
use flow_stitch.Adapters.PebbleStore.Engine.{Engine}

pub record RecordJson : Type 0 where
  pub marshal : Record → Option Text
  pub unmarshal : Text → Option Record

unfoldable pub read_record : RecordJson → Text → Result StoreError Record
read_record json raw = from_option (json.unmarshal raw) decode_failed

unfoldable pub write_record : RecordJson → Record → Result StoreError Text
write_record json r = from_option (json.marshal r) encode_failed

-- A record with the key under which it was found.
pub record Retained : Type 0 where
  pub key : Text
  pub value : Record

unfoldable pub read_all : RecordJson → List (Text × Text) → Result StoreError (List Retained)
read_all json [] = ok []
read_all json ((key, raw) ∷ es) = do
  r ← read_record json raw
  rest ← read_all json es
  ok (record { key = key; value = r } ∷ rest)

unfoldable pub retained_less : Retained → Retained → Bool
retained_less a b =
    if same_instant a.value.created_at b.value.created_at
    then text_ltb a.value.output_id b.value.output_id
    else before a.value.created_at b.value.created_at

-- The loop of `ReplayDeadLetters` over the dead letters, which ends at the filter's limit.
unfoldable pub matching :
    RecordJson → DeadLetterFilter → ℕ → List (Text × Text) → Result StoreError (List Retained)
matching json filter count [] = ok []
matching json filter count ((key, raw) ∷ es) = do
  r ← read_record json raw
  elim (matches filter r) [
    | false ↦ matching json filter count es
    | true ↦ elim (ltb 0 filter.limit && count + 1 == filter.limit) [
      | true ↦ ok (record { key = key; value = r } ∷ [])
      | false ↦ do
        rest ← matching json filter (count + 1) es
        ok (record { key = key; value = r } ∷ rest)
    ]
  ]

module _ (e : Engine) where
  unfoldable pub delete_all : List Retained → e.State → Result StoreError e.State
  delete_all [] s = ok s
  delete_all (r ∷ rs) s = do s' ← e.delete r.key s; delete_all rs s'

  unfoldable pub count_prefix : Text → e.State → Result StoreError ℕ
  count_prefix prefix s = do es ← e.scan prefix (prefix_end prefix) s; ok (length es)

  unfoldable pub decode_count : Option Text → Result StoreError ℕ
  decode_count none = ok 0
  decode_count (some raw) =
      if length raw == 8 then ok (big_endian_value 0 raw) else err invalid_count

  unfoldable pub dropped_total : e.State → Result StoreError ℕ
  dropped_total s = do found ← e.get dropped_key s; decode_count found

  -- The counter is written only if something was dropped; it wraps at 64 bits.
  unfoldable pub add_dropped : ℕ → e.State → Result StoreError e.State
  add_dropped n s =
      if n == 0
      then ok s
      else do total ← dropped_total s; e.set dropped_key (big_endian 8 ((total + n) % 2 ^ 64)) s

unfoldable pub to_drop : ℤ → List Retained → List Retained
to_drop max sorted =
    if over_limit max (length sorted) then take (length sorted - pos_part max) sorted else []

module _ (e : Engine) (json : RecordJson) where
  unfoldable pub enqueue_outbox : Record → e.State → Result StoreError e.State
  enqueue_outbox r s = do raw ← write_record json r; e.set (outbox_key r.output_id) raw s

  unfoldable pub pending_outbox : Instant → ℕ → e.State → Result StoreError (List Record)
  pending_outbox now limit s = do
    es ← e.scan outbox_prefix (prefix_end outbox_prefix) s
    rs ← read_all json es
    ok (limited limit (sort_by pending_less (select (λ r. ready r now) (map (λ r. r.value) rs))))

  unfoldable pub trim_dead_letters : ℤ → e.State → Result StoreError (e.State × List Record × ℕ)
  trim_dead_letters max s = do
    es ← e.scan dead_prefix (prefix_end dead_prefix) s
    rs ← read_all json es
    let dropped = to_drop max (sort_by retained_less rs)
    s1 ← delete_all e dropped s
    s2 ← add_dropped e (length dropped) s1
    ok (s2, map (λ r. r.value) dropped, length rs - length dropped)

  unfoldable pub read_found : Option Text → Result StoreError (Option Record)
  read_found none = ok none
  read_found (some raw) = do r ← read_record json raw; ok (some r)

  unfoldable pub dead_letter : Text → e.State → Result StoreError (Option Record)
  dead_letter id s = do found ← e.get (dead_key id) s; read_found found

  -- The variables of `ResolveOutbox`.
  pub record Resolving : Type 0 where
    pub store : e.State
    pub dead_changed : Bool
    pub added : List DeadLetterRef
    pub removed : List DeadLetterRef

  unfoldable pub replaced_ref : Option Record → List DeadLetterRef
  replaced_ref none = []
  replaced_ref (some previous) = dead_letter_ref previous ∷ []

  unfoldable pub resolve_found :
      DeliveryResult → Record → Disposition → Resolving → Result StoreError Resolving
  resolve_found res r delivered st = do
    s ← e.delete (outbox_key res.output_id) st.store
    ok (record st { store = s })
  resolve_found res r permanent st = do
    previous ← dead_letter res.output_id st.store
    raw ← write_record json (rejected res r)
    s1 ← e.set (dead_key res.output_id) raw st.store
    s2 ← e.delete (outbox_key res.output_id) s1
    ok (record {
      store = s2;
      dead_changed = true;
      added = st.added ++ dead_letter_ref (rejected res r) ∷ [];
      removed = st.removed ++ replaced_ref previous;
    })
  resolve_found res r retryable st = do
    raw ← write_record json (retried res r)
    s ← e.set (outbox_key res.output_id) raw st.store
    ok (record st { store = s })
  resolve_found res r (other_disposition d) st = err (unknown_disposition d)

  unfoldable pub resolve_present :
      DeliveryResult → Option Record → Resolving → Result StoreError Resolving
  resolve_present res none st = ok st
  resolve_present res (some r) st = resolve_found res r res.disposition st

  unfoldable pub resolve_one : DeliveryResult → Resolving → Result StoreError Resolving
  resolve_one res st = do
    found ← e.get (outbox_key res.output_id) st.store
    current ← read_found found
    resolve_present res current st

  unfoldable pub resolve_results : List DeliveryResult → Resolving → Result StoreError Resolving
  resolve_results [] st = ok st
  resolve_results (res ∷ rest) st = do st' ← resolve_one res st; resolve_results rest st'

  unfoldable pub finish_resolve : ℤ → Resolving → Result StoreError (e.State × DeadLetterChange)
  finish_resolve max st = if not st.dead_changed then ok (st.store, no_change) else do
    (s, dropped, records) ← trim_dead_letters max st.store
    ok (
      s,
      record {
        records = records;
        dropped = length dropped;
        changed = true;
        added = st.added;
        removed = st.removed ++ map dead_letter_ref dropped;
      },
    )

  unfoldable pub resolve_outbox :
      ℤ → List DeliveryResult → e.State → Result StoreError (e.State × DeadLetterChange)
  resolve_outbox max results s = do
    st ←
        resolve_results results
          (record { store = s; dead_changed = false; added = []; removed = [] })
    finish_resolve max st

  unfoldable pub replay_each : Instant → List Retained → e.State → Result StoreError e.State
  replay_each now [] s = ok s
  replay_each now (r ∷ rs) s = do
    raw ← write_record json (replayed now r.value)
    s1 ← e.set (outbox_key r.value.output_id) raw s
    s2 ← e.delete r.key s1
    replay_each now rs s2

  unfoldable pub replay_dead_letters :
      DeadLetterFilter
      → Instant
      → e.State
      → Result StoreError (e.State × List DeadLetterMetadata × DeadLetterChange)
  replay_dead_letters filter now s = do
    es ← e.scan dead_prefix (prefix_end dead_prefix) s
    selected ← matching json filter 0 es
    s' ← replay_each now selected s
    records ← (if is_nil selected then ok 0 else count_prefix e dead_prefix s')
    ok (
      s',
      map (λ r. metadata r.value) selected,
      record {
        records = records;
        dropped = 0;
        changed = not (is_nil selected);
        added = [];
        removed = map (λ r. dead_letter_ref r.value) selected;
      },
    )
