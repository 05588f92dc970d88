-- ===== src/Application/Ports.antt =====
-- The ports of internal/application/ports.go that carry state: a transaction's operations over an
-- abstract store, `WithTx`, and the laws by which the use cases know them.
use flow_stitch.Base.{
  length, ◌≤◌, ℕ, ◌≡◌, Bool, true, false, Option, some, List, Text, Result, ok, err, text_eq,
}
use flow_stitch.Domain.Instant.{Instant}
use flow_stitch.Domain.Flow.Defs.{Flow, FlowKey, key_eq}
use flow_stitch.Domain.Event.{Event}
use flow_stitch.Domain.Rule.{Rule, Reference}
use flow_stitch.Domain.Outbox.{
  Record, Disposition, DeliveryResult, DeadLetterFilter, DeadLetterMetadata, DeadLetterRef,
}

pub record DeadLetterChange : Type 0 where
  pub records : ℕ
  pub dropped : ℕ
  pub changed : Bool
  pub added : List DeadLetterRef
  pub removed : List DeadLetterRef

abbrev pub no_change : DeadLetterChange
no_change = record { records = 0; dropped = 0; changed = false; added = List.[]; removed = List.[] }

-- What can go wrong below the use cases.
pub data StoreError : Type 0 where
  encode_failed decode_failed cancelled_read engine_failed malformed_key invalid_count : StoreError
  unknown_disposition : Text → StoreError
  project_failed marshal_failed : StoreError

-- A read returns its value; a write returns the state after it.
pub record Tx : Type 1 where
  pub State : Type 0
  pub load_flow : FlowKey → State → Result StoreError (Option Flow)
  pub save_flow : Flow → State → Result StoreError State
  pub delete_flow : FlowKey → State → Result StoreError State
  pub due_flows : Instant → ℕ → State → Result StoreError (List FlowKey)
  pub enqueue_outbox : Record → State → Result StoreError State
  pub pending_outbox : Instant → ℕ → State → Result StoreError (List Record)
  pub resolve_outbox : List DeliveryResult → State → Result StoreError (State × DeadLetterChange)
  pub replay_dead_letters :
      DeadLetterFilter
      → Instant
      → State
      → Result StoreError (State × List DeadLetterMetadata × DeadLetterChange)

-- `WithTx`: the work's state is published if it returns no error, and dropped if it does.
unfoldable pub with_tx {ℓ} :
    {S : Type 0} {A : Type ℓ} → (S → Result StoreError (S × A)) → S → S × Result StoreError A
with_tx work s = elim (work s) [ ok (s', a) ↦ (s', ok a) | err e ↦ (s, err e) ]

-- What the use cases rely on: which flows are open and which outputs wait, after each operation.
-- `valid` is what the store keeps of itself.
pub record TxLaws (tx : Tx) : Type 1 where
  pub valid : tx.State → Type 0
  pub holds_flow : FlowKey → tx.State → Bool
  pub holds_output : Text → tx.State → Bool
  pub load-key :
      (k : FlowKey) (s : tx.State) (f : Flow) → valid s → tx.load_flow k s ≡ ok (some f) → f.key ≡ k
  pub save-holds :
      (f : Flow) (s s' : tx.State) → tx.save_flow f s ≡ ok s' → holds_flow f.key s' ≡ true
  pub delete-holds :
      (k : FlowKey) (s s' : tx.State) → tx.delete_flow k s ≡ ok s' → holds_flow k s' ≡ false
  pub enqueue-holds :
      (r : Record) (s s' : tx.State)
      → tx.enqueue_outbox r s ≡ ok s'
      → holds_output r.output_id s' ≡ true
  pub delete-outputs :
      (k : FlowKey) (id : Text) (s s' : tx.State)
      → tx.delete_flow k s ≡ ok s'
      → holds_output id s' ≡ holds_output id s

-- What the timeout manager relies on besides: the due flows are among the open ones, and neither an
-- output nor a deletion opens a flow.
pub record DueLaws (tx : Tx) : Type 0 where
  pub open_count : tx.State → ℕ
  pub due-bound :
      (now : Instant) (limit : ℕ) (s : tx.State) (keys : List FlowKey)
      → tx.due_flows now limit s ≡ ok keys
      → length keys ≤ open_count s
  pub enqueue-open_count :
      (r : Record) (s s' : tx.State) → tx.enqueue_outbox r s ≡ ok s' → open_count s' ≤ open_count s
  pub delete-open_count :
      (k : FlowKey) (s s' : tx.State) → tx.delete_flow k s ≡ ok s' → open_count s' ≤ open_count s

-- Records of the pass-through buffer, the sink's verdicts on them, and why it refuses an event.
pub record PassthroughRecord : Type 0 where
  pub sequence : ℕ
  pub index : Text
  pub document : Text

pub record PassthroughResult : Type 0 where
  pub sequence : ℕ
  pub disposition : Disposition

pub data PassthroughError : Type 0 where
  passthrough_disabled passthrough_full marshal_document : PassthroughError

-- The registry and the pass-through buffer, as ingestion calls them.
pub record RuleRegistry : Type 1 where
  pub State : Type 0
  pub match_and_retain : Event → State → State × Option Rule
  pub get : Reference → State → Option Rule
  pub release : Reference → State → State

-- A diagnostic document and its index.
pub record AlertRecord : Type 0 where
  pub index : Text
  pub document : Text

pub record PassthroughPort : Type 1 where
  pub State : Type 0
  pub accept : Instant → Event → State → Result PassthroughError State
