-- ===== src/Adapters/MemoryStore/Port.antt =====
-- internal/adapters/state/memory/store.go as the port that the use cases know: its transaction, and
-- the laws of internal/application/ports.go that they rely on.
use mathlib.Core.Option.{some-injective}
use flow_stitch.Base.{
  ◌≡◌, ◌≢◌, refl, ap, subst, ◌∙◌, true, false, Option, none, some, ◌∷◌, Text, text_eq, nat_eq,
  is_some, Result, ok, >>=-eq-ok, ok-injective, err-ne-ok, Option-cases, Result-cases, inl, inr,
}
use flow_stitch.Base.Dict.{lookup, insert, lookup-insert_self, lookup-erase_self}
use flow_stitch.Domain.Rule.{Rule}
use flow_stitch.Domain.Flow.Defs.{Flow, FlowKey, key_eq}
use flow_stitch.Domain.Flow.Codec.{
  Json, EncodedFlow, encode, encoded, decode, decoded, restore_rule, unmarshal_failed,
}
use flow_stitch.Domain.Outbox.{Record}
use flow_stitch.Application.Ports.{Tx, TxLaws, StoreError, encode_failed, decode_failed}
use flow_stitch.Adapters.MemoryStore.State.{
  Store, clone_flow, load_flow, save_flow, delete_flow, due_flows, enqueue_outbox, pending_outbox,
}
use flow_stitch.Adapters.MemoryStore.DeadLetters.{resolve_outbox, replay_dead_letters}

abbrev pub memory_tx : Json → Tx
memory_tx json = record {
  State = Store;
  load_flow = load_flow json;
  save_flow = save_flow json;
  delete_flow = λ k s. ok (delete_flow k s);
  due_flows = λ now limit s. ok (due_flows now limit s);
  enqueue_outbox = λ r s. ok (enqueue_outbox r s);
  pending_outbox = λ now limit s. ok (pending_outbox now limit s);
  resolve_outbox = resolve_outbox;
  replay_dead_letters = λ filter now s. ok (replay_dead_letters filter now s);
}

-- The JSON encoder reads back what it wrote.
abbrev pub IsFaithful : Json → Type 0
IsFaithful json =
    (x : EncodedFlow) (raw : Text) → json.marshal x ≡ some raw → json.unmarshal raw ≡ some x

-- Each flow stands under its own key.
abbrev pub IsKeyed : Store → Type 0
IsKeyed s = (k : FlowKey) (f : Flow) → lookup k s.flows ≡ some f → f.key ≡ k

decoded-key : (f : Flow) (r : Rule) → (decoded (encoded f) r).key ≡ f.key
unfolding decoded encoded
decoded-key f r = refl

decode-key :
    (json : Json) (f g : Flow) (raw : Text)
    → IsFaithful json
    → json.marshal (encoded f) ≡ some raw
    → decode json (2 ∷ raw) ≡ ok g
    → g.key ≡ f.key
unfolding decode
decode-key json f g raw faithful m h = elim (Result-cases (restore_rule (encoded f).pinned_rule)) [
  | inl (r, e) ↦
      let done = rw (faithful (encoded f) raw m, e, decode) at h in
      subst (λ x. x.key ≡ f.key) (ok-injective (decoded (encoded f) r) g done) (decoded-key f r)
  | inr (x, e) ↦
      absurd (err-ne-ok unmarshal_failed g (rw (faithful (encoded f) raw m, e, decode) at h))
]

clone_flow-key :
    (json : Json) (f g : Flow) → IsFaithful json → clone_flow json f ≡ ok g → g.key ≡ f.key
unfolding clone_flow encode
clone_flow-key json f g faithful h = elim (Option-cases (json.marshal (encoded f))) [
  | inl n ↦ absurd (err-ne-ok encode_failed g (rw (n, encode, clone_flow) at h))
  | inr (raw, m) ↦ elim (Result-cases (decode json (2 ∷ raw))) [
    | inl (x, d) ↦
        let same = ok-injective x g (rw (m, d, encode, clone_flow) at h) in
        subst (λ y. y.key ≡ f.key) same (decode-key json f x raw faithful m d)
    | inr (x, d) ↦ absurd (err-ne-ok decode_failed g (rw (m, d, encode, clone_flow) at h))
  ]
]

pub load_flow-key :
    (json : Json) (k : FlowKey) (s : Store) (g : Flow)
    → IsFaithful json
    → IsKeyed s
    → load_flow json k s ≡ ok (some g)
    → g.key ≡ k
unfolding load_flow
load_flow-key json k s g faithful v h = elim (Option-cases (lookup k s.flows)) [
  | inl n ↦ absurd (none_found (ok-injective none (some g) (rw (n, load_flow) at h)))
  | inr (f, e) ↦ elim (Result-cases (clone_flow json f)) [
    | inl (x, c) ↦
        let same =
          some-injective x g (ok-injective (some x) (some g) (rw (e, c, load_flow) at h)) in
        subst (λ y. y.key ≡ k) same (clone_flow-key json f x faithful c ∙ v k f e)
    | inr (x, c) ↦ absurd (err-ne-ok x (some g) (rw (e, c, load_flow) at h))
  ]
]
  where
    none_found : ◌≢◌ {A = Option Flow} none (some g)
    none_found x = cc

pub save_flow-holds :
    (json : Json) (f : Flow) (s s' : Store)
    → save_flow json f s ≡ ok s'
    → is_some (lookup f.key s'.flows) ≡ true
unfolding save_flow
save_flow-holds json f s s' h =
    let (g, c, h1) =
      >>=-eq-ok (clone_flow json f) (λ g. ok (record s { flows = insert f.key g s.flows })) s' h in
    subst (λ t. is_some (lookup f.key t.flows) ≡ true)
      (ok-injective (record s { flows = insert f.key g s.flows }) s' h1)
      (ap is_some (lookup-insert_self f.key g s.flows))

pub delete_flow-holds :
    (k : FlowKey) (s s' : Store)
    → ◌≡◌ {A = Result StoreError Store} (ok (delete_flow k s)) (ok s')
    → is_some (lookup k s'.flows) ≡ false
unfolding delete_flow
delete_flow-holds k s s' h =
    subst (λ t. is_some (lookup k t.flows) ≡ false) (ok-injective (delete_flow k s) s' h)
      (ap is_some (lookup-erase_self k s.flows))

pub enqueue_outbox-holds :
    (r : Record) (s s' : Store)
    → ◌≡◌ {A = Result StoreError Store} (ok (enqueue_outbox r s)) (ok s')
    → is_some (lookup r.output_id s'.records) ≡ true
unfolding enqueue_outbox
enqueue_outbox-holds r s s' h =
    subst (λ t. is_some (lookup r.output_id t.records) ≡ true)
      (ok-injective (enqueue_outbox r s) s' h)
      (ap is_some (lookup-insert_self r.output_id r s.records))

pub delete_flow-outputs :
    (k : FlowKey) (id : Text) (s s' : Store)
    → ◌≡◌ {A = Result StoreError Store} (ok (delete_flow k s)) (ok s')
    → is_some (lookup id s'.records) ≡ is_some (lookup id s.records)
unfolding delete_flow
delete_flow-outputs k id s s' h =
    subst (λ t. is_some (lookup id t.records) ≡ is_some (lookup id s.records))
      (ok-injective (delete_flow k s) s' h) refl

abbrev pub memory_laws : (json : Json) → IsFaithful json → TxLaws (memory_tx json)
memory_laws json faithful = record {
  valid = IsKeyed;
  holds_flow = λ k s. is_some (lookup k s.flows);
  holds_output = λ id s. is_some (lookup id s.records);
  load-key = λ k s f v h. load_flow-key json k s f faithful v h;
  save-holds = save_flow-holds json;
  delete-holds = delete_flow-holds;
  enqueue-holds = enqueue_outbox-holds;
  delete-outputs = delete_flow-outputs;
}
