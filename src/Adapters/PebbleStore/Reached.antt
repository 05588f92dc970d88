-- ===== src/Adapters/PebbleStore/Reached.antt =====
-- The states of internal/adapters/state/pebble/store.go that its operations lead to.
use flow_stitch.Base.{◌≡◌, sym, ap, ◌∙◌, none, List, Text, is_some, ok}
use flow_stitch.Base.Int.{ℤ}
use flow_stitch.Domain.Instant.{Instant}
use flow_stitch.Domain.Flow.Defs.{Flow, FlowKey}
use flow_stitch.Domain.Flow.Codec.{Json}
use flow_stitch.Domain.Outbox.{Record, DeliveryResult, DeadLetterFilter, DeadLetterMetadata}
use flow_stitch.Application.Ports.{DeadLetterChange}
use flow_stitch.Adapters.PebbleStore.Keys.{flow_key, expiry_key}
use flow_stitch.Adapters.PebbleStore.Engine.{Engine, EngineLaws}
use flow_stitch.Adapters.PebbleStore.Flows.{encode_flow, decode_flow, save_flow, delete_flow}
use flow_stitch.Adapters.PebbleStore.Flows.Index.{
  IsIndexed, is_filed, is_deadline, save_flow-IsIndexed, delete_flow-IsIndexed,
}
use flow_stitch.Adapters.PebbleStore.Records.{
  RecordJson, enqueue_outbox, resolve_outbox, replay_dead_letters,
}
use flow_stitch.Adapters.PebbleStore.Records.Frame.{Framed}
use flow_stitch.Adapters.PebbleStore.Records.Untouched.{
  enqueue_outbox-Framed, resolve_outbox-Framed, replay_dead_letters-Framed,
}

module _ (e : Engine) (json : Json) (records : RecordJson) (max : ℤ) where
  -- One write that succeeds. A flow that is saved reads back with its key and its deadline.
  pub data Step (s : e.State) : e.State → Type 0 where
    saved :
        {s' : e.State} (f g : Flow) (raw : Text)
        → encode_flow json f ≡ ok raw
        → decode_flow json raw ≡ ok g
        → g.key ≡ f.key
        → g.expires_at ≡ f.expires_at
        → save_flow e json f s ≡ ok s'
        → Step s s'
    deleted : {s' : e.State} (k : FlowKey) → delete_flow e json k s ≡ ok s' → Step s s'
    enqueued : {s' : e.State} (r : Record) → enqueue_outbox e records r s ≡ ok s' → Step s s'
    resolved :
        {s' : e.State} (results : List DeliveryResult) (change : DeadLetterChange)
        → resolve_outbox e records max results s ≡ ok (s', change)
        → Step s s'
    replays :
        {s' : e.State} (filter : DeadLetterFilter) (now : Instant)
        (letters : List DeadLetterMetadata) (change : DeadLetterChange)
        → replay_dead_letters e records filter now s ≡ ok (s', letters, change)
        → Step s s'

  pub data Reached (s : e.State) : e.State → Type 0 where
    here : Reached s s
    next : {t u : e.State} → Reached s t → Step t u → Reached s u

  module _ (laws : EngineLaws e) where
    Framed-IsIndexed :
        (s s' : e.State) → Framed e laws s s' → IsIndexed e laws json s → IsIndexed e laws json s'
    Framed-IsIndexed s s' f i = record {
      filed = λ k. ap (is_filed json k) (f.flows k) ∙ i.filed k;
      indexed = λ at k.
          ap is_some (f.expiries at k)
          ∙ i.indexed at k
          ∙ ap (is_deadline json at k) (sym (f.flows k));
    }

    empty-IsIndexed : (s : e.State) → ((k : Text) → laws.entry k s ≡ none) → IsIndexed e laws json s
    unfolding is_filed is_deadline
    empty-IsIndexed s n = record {
      filed = λ k. ap (is_filed json k) (n (flow_key k));
      indexed = λ at k.
          ap is_some (n (expiry_key at k)) ∙ (ap (is_deadline json at k) (sym (n (flow_key k))));
    }

    Step-IsIndexed :
        {s s' : e.State} → Step s s' → IsIndexed e laws json s → IsIndexed e laws json s'
    Step-IsIndexed {s} {s'} (saved f g raw en de k d h) i =
        save_flow-IsIndexed e laws json f g raw s s' i en de k d h
    Step-IsIndexed {s} {s'} (deleted k h) i = delete_flow-IsIndexed e laws json k s s' i h
    Step-IsIndexed {s} {s'} (enqueued r h) i =
        Framed-IsIndexed s s' (enqueue_outbox-Framed e laws records r s s' h) i
    Step-IsIndexed {s} {s'} (resolved results change h) i =
        Framed-IsIndexed s s' (resolve_outbox-Framed e laws records max results s s' change h) i
    Step-IsIndexed {s} {s'} (replays filter now letters change h) i =
        Framed-IsIndexed s s'
          (replay_dead_letters-Framed e laws records filter now s s' letters change h) i

    -- Whatever the operations write to an empty database, one after another, where the encoding of a
    -- saved flow decodes to a flow with its key and its deadline: an index entry for a key and a deadline
    -- is there exactly if the flow that is filed under the key has that deadline, to the millisecond, and
    -- each flow is filed under its own key.
    pub Reached-IsIndexed :
        (s s' : e.State)
        → ((k : Text) → laws.entry k s ≡ none)
        → Reached s s'
        → IsIndexed e laws json s'
    Reached-IsIndexed s s' n here = empty-IsIndexed s n
    Reached-IsIndexed s s' n (next {t} r st) = Step-IsIndexed st (Reached-IsIndexed s t n r)
