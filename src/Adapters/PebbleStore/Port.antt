-- ===== src/Adapters/PebbleStore/Port.antt =====
-- internal/adapters/state/pebble/store.go as the port that the use cases know: its transaction keeps
-- the laws of internal/application/ports.go that they rely on.
use flow_stitch.Base.{
  ◌≡◌, refl, sym, ap, subst, ◌∙◌, true, false, Option, none, some, [], Text, text_eq, text_beq,
  text_beq_iff, is_some, ok, ◌>>=◌, >>=-eq-ok, ok-injective, inl, inr,
}
use mathlib.Core.Option.{some-injective}
use flow_stitch.Base.Int.{ℤ}
use flow_stitch.Domain.Instant.{Instant}
use flow_stitch.Domain.Flow.Defs.{Flow, FlowKey, key_beq_iff}
use flow_stitch.Domain.Flow.Codec.{Json}
use flow_stitch.Domain.Outbox.{Record}
use flow_stitch.Application.Ports.{TxLaws}
use flow_stitch.Adapters.PebbleStore.Keys.{
  flow_key, expiry_key, outbox_key, outbox_prefix, expiry_time_prefix,
}
use flow_stitch.Adapters.PebbleStore.Engine.{Engine, EngineLaws}
use flow_stitch.Adapters.PebbleStore.Flows.{
  encode_flow, load_flow, drop_expiry, previous_key, save_flow, delete_flow,
}
use flow_stitch.Adapters.PebbleStore.Flows.Index.{
  IsIndexed, is_filed, load_flow-found, decode_found-cases,
}
use flow_stitch.Adapters.PebbleStore.Records.{RecordJson, write_record, enqueue_outbox}
use flow_stitch.Adapters.PebbleStore.Reads.{pebble_tx}

expiry-ne-flow : (at : Instant) (j k : FlowKey) → text_beq (expiry_key at j) (flow_key k) ≡ false
unfolding text_beq expiry_key expiry_time_prefix flow_key
expiry-ne-flow at j k = refl

expiry-ne-outbox :
    (at : Instant) (k : FlowKey) (id : Text) → text_beq (expiry_key at k) (outbox_key id) ≡ false
unfolding text_beq expiry_key expiry_time_prefix outbox_key outbox_prefix
expiry-ne-outbox at k id = refl

flow-ne-outbox : (k : FlowKey) (id : Text) → text_beq (flow_key k) (outbox_key id) ≡ false
unfolding text_beq flow_key outbox_key outbox_prefix
flow-ne-outbox k id = refl

itself : (t : Text) → text_beq t t ≡ true
itself t = (text_beq_iff t t).1 refl

module _ (e : Engine) (laws : EngineLaws e) (json : Json) (records : RecordJson) where
  set_self : (x v : Text) (s s' : e.State) → e.set x v s ≡ ok s' → laws.entry x s' ≡ some v
  set_self x v s s' h = laws.set-entry x v s s' x h ∙ (rw (itself x) refl)

  delete_self : (x : Text) (s s' : e.State) → e.delete x s ≡ ok s' → laws.entry x s' ≡ none
  delete_self x s s' h = laws.delete-entry x s s' x h ∙ (rw (itself x) refl)

  pub load_flow-key :
      (k : FlowKey) (s : e.State) (f : Flow)
      → IsIndexed e laws json s
      → load_flow e json k s ≡ ok (some f)
      → f.key ≡ k
  unfolding is_filed
  load_flow-key k s f i h =
      elim (decode_found-cases e laws json (laws.entry (flow_key k) s) (some f)
        (load_flow-found e laws json k s (some f) h)) [
          | inl (n, q) ↦ absurd (some-ne q)
          | inr (raw, g, there, d, q) ↦
              subst (λ x. x.key ≡ k) (sym (some-injective f g q))
                ((key_beq_iff g.key k).0 (rw (there, d, is_filed) at (i.filed k)))
        ]
    where
      some-ne : ◌≡◌ {A = Option Flow} (some f) none → ⊥
      some-ne x = cc

  pub save_flow-holds :
      (f : Flow) (s s' : e.State)
      → save_flow e json f s ≡ ok s'
      → is_some (laws.entry (flow_key f.key) s') ≡ true
  unfolding save_flow
  save_flow-holds f s s' h =
      let k = f.key in
      let (previous, loaded, h1) =
        >>=-eq-ok (load_flow e json k s)
          (λ previous. drop_expiry e json (previous_key k previous) previous s >>= λ s1.
            encode_flow json f >>= λ raw.
            e.set (flow_key k) raw s1 >>= λ s2. e.set (expiry_key f.expires_at k) [] s2)
          s' h in
      let (s1, dropped, h2) =
        >>=-eq-ok (drop_expiry e json (previous_key k previous) previous s)
          (λ s1. encode_flow json f >>= λ raw.
            e.set (flow_key k) raw s1 >>= λ s2. e.set (expiry_key f.expires_at k) [] s2)
          s' h1 in
      let (raw, encoded, h3) =
        >>=-eq-ok (encode_flow json f)
          (λ raw. e.set (flow_key k) raw s1 >>= λ s2. e.set (expiry_key f.expires_at k) [] s2) s'
          h2 in
      let (s2, stored, indexed) =
        >>=-eq-ok (e.set (flow_key k) raw s1) (λ s2. e.set (expiry_key f.expires_at k) [] s2) s'
          h3 in
      ap is_some (
        laws.set-entry (expiry_key f.expires_at k) [] s2 s' (flow_key k) indexed
        ∙ (rw (expiry-ne-flow f.expires_at k k) refl)
        ∙ set_self (flow_key k) raw s1 s2 stored)

  -- The two writes of a deletion.
  delete_flow-steps :
      (k : FlowKey) (s s' : e.State)
      → delete_flow e json k s ≡ ok s'
      → (previous : Option Flow) × (s1 : e.State) × (drop_expiry e json k previous s ≡ ok s1)
        × (e.delete (flow_key k) s1 ≡ ok s')
  unfolding delete_flow
  delete_flow-steps k s s' h =
      let (previous, loaded, h1) =
        >>=-eq-ok (load_flow e json k s)
          (λ previous. drop_expiry e json k previous s >>= λ s1. e.delete (flow_key k) s1) s' h in
      let (s1, dropped, deleted) =
        >>=-eq-ok (drop_expiry e json k previous s) (λ s1. e.delete (flow_key k) s1) s' h1 in
      (previous, s1, dropped, deleted)

  pub delete_flow-holds :
      (k : FlowKey) (s s' : e.State)
      → delete_flow e json k s ≡ ok s'
      → is_some (laws.entry (flow_key k) s') ≡ false
  delete_flow-holds k s s' h =
      let (previous, s1, dropped, deleted) = delete_flow-steps k s s' h in
      ap is_some (delete_self (flow_key k) s1 s' deleted)

  drop_expiry-outputs :
      (k : FlowKey) (previous : Option Flow) (id : Text) (s s' : e.State)
      → drop_expiry e json k previous s ≡ ok s'
      → laws.entry (outbox_key id) s' ≡ laws.entry (outbox_key id) s
  unfolding drop_expiry
  drop_expiry-outputs k none id s s' h = ap (laws.entry (outbox_key id)) (sym (ok-injective s s' h))
  drop_expiry-outputs k (some f) id s s' h =
      laws.delete-entry (expiry_key f.expires_at k) s s' (outbox_key id) h
      ∙ (rw (expiry-ne-outbox f.expires_at k id) refl)

  pub delete_flow-outputs :
      (k : FlowKey) (id : Text) (s s' : e.State)
      → delete_flow e json k s ≡ ok s'
      → is_some (laws.entry (outbox_key id) s') ≡ is_some (laws.entry (outbox_key id) s)
  delete_flow-outputs k id s s' h =
      let (previous, s1, dropped, deleted) = delete_flow-steps k s s' h in
      ap is_some (
        laws.delete-entry (flow_key k) s1 s' (outbox_key id) deleted
        ∙ (rw (flow-ne-outbox k id) refl)
        ∙ drop_expiry-outputs k previous id s s1 dropped)

  pub enqueue_outbox-holds :
      (r : Record) (s s' : e.State)
      → enqueue_outbox e records r s ≡ ok s'
      → is_some (laws.entry (outbox_key r.output_id) s') ≡ true
  unfolding enqueue_outbox
  enqueue_outbox-holds r s s' h =
      let (raw, written, stored) =
        >>=-eq-ok (write_record records r) (λ raw. e.set (outbox_key r.output_id) raw s) s' h in
      ap is_some (set_self (outbox_key r.output_id) raw s s' stored)

  abbrev pub pebble_laws : (max : ℤ) → TxLaws (pebble_tx e json records max)
  pebble_laws max = record {
    valid = IsIndexed e laws json;
    holds_flow = λ k s. is_some (laws.entry (flow_key k) s);
    holds_output = λ id s. is_some (laws.entry (outbox_key id) s);
    load-key = λ k s f v h. load_flow-key k s f v h;
    save-holds = save_flow-holds;
    delete-holds = delete_flow-holds;
    enqueue-holds = enqueue_outbox-holds;
    delete-outputs = delete_flow-outputs;
  }
