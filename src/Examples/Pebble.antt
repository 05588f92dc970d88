-- ===== src/Examples/Pebble.antt =====
-- The durable store on an engine that keeps its entries in a list.
use flow_stitch.Base.{
  ℕ, ◌≡◌, refl, sym, ap, ◌∙◌, Bool, true, false, ◌&&◌, ◌||◌, not, Option, none, some, List, [], ◌∷◌,
  Text, codes, text_eq, text_beq, text_beq_iff, ◌==◌, if◌then◌else◌, arith, Bool-cases, inl, inr,
  Result, ok, ok-injective, err, length, subst,
}
use flow_stitch.Base.Dict.{
  Dict, lookup, insert, erase, lookup-insert, lookup-erase, IsMap, insert-IsMap, erase-IsMap,
}
use flow_stitch.Base.Int.{pos}
use flow_stitch.Domain.Flow.Defs.{Flow, open_flow}
use flow_stitch.Domain.Flow.Codec.{Json, encoded}
use flow_stitch.Application.Ports.{StoreError}
use flow_stitch.Adapters.PebbleStore.Engine.{Engine, EngineLaws, is_in_range}
use flow_stitch.Adapters.PebbleStore.Keys.{
  expiry_key, parse_expiry_key, flow_key, dead_key, dead_prefix, prefix_end,
}
use flow_stitch.Adapters.PebbleStore.Keys.RoundTrip.{IsKey, parse_expiry_key-expiry_key}
use flow_stitch.Adapters.PebbleStore.Flows.{encode_flow, decode_flow, save_flow, due_flows}
use flow_stitch.Adapters.PebbleStore.Flows.Index.{IsIndexed}
use flow_stitch.Adapters.PebbleStore.Flows.Due.{due_flows-lists}
use flow_stitch.Adapters.PebbleStore.Flows.Candidates.{is_due, is_later, is_listed}
use flow_stitch.Domain.Outbox.{Record, zero_record}
use flow_stitch.Adapters.MemoryStore.DeadLetters.{over_limit}
use flow_stitch.Adapters.PebbleStore.Records.{
  RecordJson, read_all, retained_less, trim_dead_letters,
}
use flow_stitch.Adapters.PebbleStore.Reached.{Reached, here, next, saved, Reached-IsIndexed}
use flow_stitch.Examples.Data.{one_event_rule, call_key, request}

-- The entries between two keys.
collect : Text → Text → Dict Text Text → Dict Text Text
collect lower upper [] = []
collect lower upper ((k, v) ∷ m) =
    let rest = collect lower upper m in
    if is_in_range lower upper k then insert k v rest else erase k rest

lookup-collect :
    (lower upper : Text) (m : Dict Text Text) (k : Text)
    → lookup k (collect lower upper m) ≡ (if is_in_range lower upper k then lookup k m else none)
unfolding collect lookup
lookup-collect lower upper [] k = ground arith
lookup-collect lower upper ((j, v) ∷ m) k = elim (Bool-cases (is_in_range lower upper j)) [
  | inl y ↦ rw (y) (
      lookup-insert j k v (collect lower upper m)
      ∙ ground
          (arith, lookup-collect lower upper m k, text_beq_iff j k, ap (is_in_range lower upper)))
  | inr n ↦ rw (n) (
      lookup-erase j k (collect lower upper m)
      ∙ ground
          (arith, lookup-collect lower upper m k, text_beq_iff j k, ap (is_in_range lower upper)))
]

collect-IsMap : (lower upper : Text) (m : Dict Text Text) → IsMap (collect lower upper m)
unfolding collect
collect-IsMap lower upper [] = tt
collect-IsMap lower upper ((k, v) ∷ m) = elim (Bool-cases (is_in_range lower upper k)) [
  | inl y ↦ rw (y) (insert-IsMap k v (collect lower upper m) (collect-IsMap lower upper m))
  | inr n ↦ rw (n) (erase-IsMap k (collect lower upper m) (collect-IsMap lower upper m))
]

abbrev list_engine : Engine
list_engine = record {
  State = Dict Text Text;
  get = λ k s. ok (lookup k s);
  set = λ k v s. ok (insert k v s);
  delete = λ k s. ok (erase k s);
  scan = λ lower upper s. ok (collect lower upper s);
  commit = λ s. none;
}

abbrev list_laws : EngineLaws list_engine
list_laws = record {
  entry = lookup;
  get-entry = λ k s o h. sym (ok-injective (lookup k s) o h);
  set-entry = λ k v s s' j h.
      subst (λ t. lookup j t ≡ (if k == j then some v else lookup j s))
        (ok-injective (insert k v s) s' h) (lookup-insert k j v s);
  delete-entry = λ k s s' j h.
      subst (λ t. lookup j t ≡ (if k == j then none else lookup j s))
        (ok-injective (erase k s) s' h) (lookup-erase k j s);
  scan-entry = λ lower upper s es k h.
      subst (λ t. lookup k t ≡ (if is_in_range lower upper k then lookup k s else none))
        (ok-injective (collect lower upper s) es h) (lookup-collect lower upper s k);
  scan-IsMap = λ lower upper s es h.
      subst IsMap (ok-injective (collect lower upper s) es h) (collect-IsMap lower upper s);
}

abbrev open_call : Flow
open_call = open_flow call_key one_event_rule request

-- Encoders for the flow that is open and for no record.
abbrev call_json : Json
call_json = record {
  marshal = λ x. some (codes "flow");
  unmarshal = λ raw. some (encoded open_call);
}

abbrev no_records : RecordJson
no_records = record { marshal = λ r. none; unmarshal = λ raw. none }

call_key-IsKey : IsKey call_key
call_key-IsKey = record { rule_bytes = omega arith; correlation_bytes = omega arith }

parse_expiry_key-expiry_key_example : parse_expiry_key (expiry_key 600 call_key) ≡ some call_key
parse_expiry_key-expiry_key_example =
    parse_expiry_key-expiry_key 600 call_key call_key-IsKey (omega arith)

abbrev raw_call : Text
raw_call = 2 ∷ codes "flow"

abbrev one_call : Dict Text Text
one_call =
    insert (expiry_key open_call.expires_at call_key) [] (insert (flow_key call_key) raw_call [])

call_encodes : encode_flow call_json open_call ≡ ok raw_call
unfolding flow_stitch.Domain.Flow.Codec.encode encode_flow
call_encodes = refl

call_decodes : decode_flow call_json raw_call ≡ ok open_call
unfolding flow_stitch.Domain.Flow.Codec.index_identities decode_flow
    flow_stitch.Domain.Flow.Codec.decode flow_stitch.Domain.Flow.Codec.restore_rule
    flow_stitch.Domain.Flow.Codec.restore_path flow_stitch.Domain.DocPath.Canonical.canonical
    encoded open_flow flow_stitch.Domain.DocPath.compile flow_stitch.Domain.DocPath.segments_from
    flow_stitch.Domain.DocPath.Canonical.print_segments flow_stitch.Domain.DocPath.span_bare
    flow_stitch.Domain.DocPath.brackets flow_stitch.Domain.DocPath.after_brackets
    flow_stitch.Domain.Flow.Codec.restore_stitches flow_stitch.Domain.Flow.Codec.restore_paths
    flow_stitch.Domain.Flow.Codec.restore_promotions flow_stitch.Domain.Flow.Codec.decoded
call_decodes = refl

call_saved : save_flow list_engine call_json open_call [] ≡ ok one_call
unfolding open_flow flow_stitch.Domain.Flow.Codec.encode encode_flow
    flow_stitch.Adapters.PebbleStore.Flows.drop_expiry lookup
    flow_stitch.Adapters.PebbleStore.Flows.decode_found
    flow_stitch.Adapters.PebbleStore.Flows.load_flow save_flow
call_saved = refl

empty : (k : Text) → list_laws.entry k [] ≡ none
unfolding lookup
empty k = refl

call-Reached : Reached list_engine call_json no_records (pos 5) [] one_call
call-Reached =
    next here (saved open_call open_call raw_call call_encodes call_decodes refl refl call_saved)

Reached-IsIndexed_example : IsIndexed list_engine list_laws call_json one_call
Reached-IsIndexed_example =
    Reached-IsIndexed list_engine call_json no_records (pos 5) list_laws [] one_call empty
      call-Reached

call_is_due : due_flows list_engine call_json 2000000000 0 one_call ≡ ok (call_key ∷ [])
unfolding encoded flow_stitch.Adapters.PebbleStore.Keys.parse_expiry_key
    flow_stitch.Adapters.PebbleStore.Keys.epoch_millis open_flow
    flow_stitch.Adapters.PebbleStore.Keys.shifted_millis
    flow_stitch.Adapters.PebbleStore.Keys.prefix_end
    flow_stitch.Adapters.PebbleStore.Keys.big_endian erase
    flow_stitch.Adapters.PebbleStore.Keys.expiry_prefix flow_stitch.Base.text_ltb is_in_range
    flow_stitch.Adapters.PebbleStore.Keys.expiry_time_prefix expiry_key flow_key text_beq insert
    collect flow_stitch.Adapters.PebbleStore.Flows.candidates due_flows
    flow_stitch.Adapters.PebbleStore.Keys.key_path flow_stitch.Adapters.PebbleStore.Keys.path_escape
    flow_stitch.Adapters.PebbleStore.Keys.is_plain flow_stitch.Adapters.PebbleStore.Keys.is_between
    flow_stitch.Adapters.PebbleStore.Keys.has_prefix
    flow_stitch.Adapters.PebbleStore.Keys.parse_path
    flow_stitch.Adapters.PebbleStore.Keys.split_slash flow_stitch.Base.drop
    flow_stitch.Adapters.PebbleStore.Keys.parsed_parts
    flow_stitch.Adapters.PebbleStore.Keys.path_unescape
    flow_stitch.Adapters.PebbleStore.Keys.after_plain
    flow_stitch.Adapters.PebbleStore.Flows.load_flow
    flow_stitch.Adapters.PebbleStore.Flows.decode_found lookup decode_flow
    flow_stitch.Domain.Flow.Codec.decode flow_stitch.Domain.Flow.Codec.restore_rule
    flow_stitch.Adapters.MemoryStore.State.limited
    flow_stitch.Adapters.PebbleStore.Flows.candidate_less
    flow_stitch.Adapters.PebbleStore.Flows.candidate_of
    flow_stitch.Adapters.PebbleStore.Keys.big_endian_value
    flow_stitch.Adapters.PebbleStore.Keys.expiry_deadline
    flow_stitch.Adapters.PebbleStore.Keys.hex_digit flow_stitch.Adapters.PebbleStore.Keys.unescaped
    flow_stitch.Adapters.PebbleStore.Keys.unhex flow_stitch.Base.Decimal.digits
    flow_stitch.Base.Decimal.format_nat flow_stitch.Base.Decimal.is_digit
    flow_stitch.Base.Decimal.itoa flow_stitch.Base.Decimal.value flow_stitch.Base.Sort.insert_sorted
    flow_stitch.Base.Sort.sort_by flow_stitch.Domain.DocPath.Canonical.all_digits
    flow_stitch.Domain.DocPath.Canonical.canonical flow_stitch.Domain.DocPath.Canonical.escape_key
    flow_stitch.Domain.DocPath.Canonical.has_bare_end
    flow_stitch.Domain.DocPath.Canonical.is_bare_canonical_key
    flow_stitch.Domain.DocPath.Canonical.print_segment
    flow_stitch.Domain.DocPath.Canonical.print_segments flow_stitch.Domain.DocPath.after_brackets
    flow_stitch.Domain.DocPath.atoi flow_stitch.Domain.DocPath.bracket
    flow_stitch.Domain.DocPath.bracket_index flow_stitch.Domain.DocPath.bracket_key
    flow_stitch.Domain.DocPath.brackets flow_stitch.Domain.DocPath.closing
    flow_stitch.Domain.DocPath.compile flow_stitch.Domain.DocPath.quoted
    flow_stitch.Domain.DocPath.segments_from flow_stitch.Domain.DocPath.span_bare
    flow_stitch.Domain.DocPath.span_digits flow_stitch.Domain.DocPath.strip_minus
    flow_stitch.Domain.Flow.Codec.decode_invocation flow_stitch.Domain.Flow.Codec.decoded
    flow_stitch.Domain.Flow.Codec.index_identities flow_stitch.Domain.Flow.Codec.restore_path
    flow_stitch.Domain.Flow.Codec.restore_paths flow_stitch.Domain.Flow.Codec.restore_promotions
    flow_stitch.Domain.Flow.Codec.restore_stitches
call_is_due = refl

due_flows-lists_example :
    ((not (is_due call_json 2000000000 call_key (lookup (flow_key call_key) one_call))
        || is_listed call_key (call_key ∷ []))
      ≡ true)
    × ((is_later call_json 2000000000 (lookup (flow_key call_key) one_call)
          && is_listed call_key (call_key ∷ []))
        ≡ false)
due_flows-lists_example =
    due_flows-lists list_engine list_laws call_json 2000000000 one_call (call_key ∷ []) call_key
      (Reached-IsIndexed list_engine call_json no_records (pos 5) list_laws [] one_call empty
        call-Reached)
      (omega arith) call_key-IsKey (omega arith) call_is_due

-- Records whose bytes are their ID and whose age is their length.
abbrev sized_json : RecordJson
sized_json = record {
  marshal = λ r. some r.output_id;
  unmarshal = λ raw. some (record zero_record { output_id = raw; created_at = length raw });
}

abbrev letters : Dict Text Text
letters = (dead_key (codes "aa"), codes "aa") ∷ (dead_key (codes "b"), codes "b") ∷ []

abbrev trim_run : Result StoreError (Dict Text Text × List Record × ℕ)
trim_run = trim_dead_letters list_engine sized_json (pos 1) letters

abbrev trimmed : Dict Text Text × List Record × ℕ
trimmed = elim trim_run [ ok p ↦ p | err e ↦ ([], [], 0) ]

one_dropped : trimmed.1 ≡ record zero_record { output_id = codes "b"; created_at = 1 } ∷ []
unfolding flow_stitch.Adapters.PebbleStore.Keys.dropped_key erase lookup
    flow_stitch.Adapters.PebbleStore.Records.decode_count
    flow_stitch.Adapters.PebbleStore.Records.dropped_total trim_dead_letters read_all collect
    is_in_range flow_stitch.Base.text_ltb dead_key dead_prefix prefix_end insert text_beq
    flow_stitch.Adapters.PebbleStore.Records.read_record
    flow_stitch.Adapters.PebbleStore.Records.delete_all
    flow_stitch.Adapters.PebbleStore.Records.to_drop over_limit flow_stitch.Base.Sort.sort_by
    retained_less flow_stitch.Adapters.PebbleStore.Records.add_dropped
one_dropped = refl
