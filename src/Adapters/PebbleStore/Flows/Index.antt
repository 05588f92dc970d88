-- ===== src/Adapters/PebbleStore/Flows/Index.antt =====
-- The index of deadlines of internal/adapters/state/pebble/store.go: whatever is saved and deleted,
-- each open flow stands in it once, under the deadline it has.
use flow_stitch.Base.{
  ◌≡◌, refl, sym, ap, subst, ◌∙◌, Bool, true, false, ◌&&◌, Option, none, some, [], Text, text_eq,
  text_beq, text_beq_iff, ◌==◌, if◌then◌else◌, is_some, arith, Bool-cases, inl, inr, ◌⊎◌, ok, err,
  ◌>>=◌, >>=-eq-ok, ok-injective,
}
use flow_stitch.Domain.Instant.{Instant}
use flow_stitch.Domain.Flow.Defs.{Flow, FlowKey, key_eq, key_beq, key_beq_iff}
use flow_stitch.Domain.Flow.Codec.{Json}
use flow_stitch.Adapters.PebbleStore.Keys.{flow_key, expiry_key, expiry_time_prefix}
use flow_stitch.Adapters.PebbleStore.Keys.RoundTrip.{flow_key_injective, expiry_key_injective}
use flow_stitch.Adapters.PebbleStore.Engine.{Engine, EngineLaws}
use flow_stitch.Adapters.PebbleStore.Flows.{
  decode_flow, encode_flow, decode_found, load_flow, drop_expiry, previous_key, save_flow,
  delete_flow,
}

-- The stored flow has its own key; and it has the deadline that an index entry at `at` records.
unfoldable pub is_filed : Json → FlowKey → Option Text → Bool
is_filed json k none = true
is_filed json k (some raw) = elim (decode_flow json raw) [ err e ↦ true | ok f ↦ f.key == k ]

unfoldable pub is_deadline : Json → Instant → FlowKey → Option Text → Bool
is_deadline json at k none = false
is_deadline json at k (some raw) = elim (decode_flow json raw) [
  | err e ↦ false
  | ok f ↦ f.key == k && text_beq (expiry_key f.expires_at k) (expiry_key at k)
]

pub filed_lem :
    (json : Json) (k : FlowKey) (raw : Text) (g : Flow)
    → decode_flow json raw ≡ ok g
    → g.key ≡ k
    → is_filed json k (some raw) ≡ true
unfolding is_filed
filed_lem json k raw g d h = rw (d, is_filed) ((key_beq_iff g.key k).1 h)

pub deadline_lem :
    (json : Json) (at : Instant) (k : FlowKey) (raw : Text) (g : Flow)
    → decode_flow json raw ≡ ok g
    → g.key ≡ k
    → is_deadline json at k (some raw) ≡ text_beq (expiry_key g.expires_at k) (expiry_key at k)
unfolding is_deadline
deadline_lem json at k raw g d h = rw (d, (key_beq_iff g.key k).1 h, is_deadline) refl

expiry-ne-flow : (at : Instant) (j k : FlowKey) → text_beq (expiry_key at j) (flow_key k) ≡ false
unfolding text_beq expiry_key expiry_time_prefix flow_key
expiry-ne-flow at j k = refl

flow-ne-expiry : (at : Instant) (j k : FlowKey) → text_beq (flow_key k) (expiry_key at j) ≡ false
unfolding text_beq expiry_key expiry_time_prefix flow_key
flow-ne-expiry at j k = refl

expiry-ne-expiry :
    (at at' : Instant) (j k : FlowKey)
    → key_beq j k ≡ false
    → text_beq (expiry_key at j) (expiry_key at' k) ≡ false
expiry-ne-expiry at at' j k h = elim (Bool-cases (text_beq (expiry_key at j) (expiry_key at' k))) [
  | inr n ↦ n
  | inl y ↦ ground (
    arith,
    key_beq_iff j k,
    expiry_key_injective at at' j k ((text_beq_iff (expiry_key at j) (expiry_key at' k)).0 y),
  )
]

flow-ne-flow : (j k : FlowKey) → key_beq j k ≡ false → text_beq (flow_key j) (flow_key k) ≡ false
flow-ne-flow j k h = elim (Bool-cases (text_beq (flow_key j) (flow_key k))) [
  | inr n ↦ n
  | inl y ↦ ground (
    arith,
    key_beq_iff j k,
    flow_key_injective j k ((text_beq_iff (flow_key j) (flow_key k)).0 y),
  )
]

module _ (e : Engine) (laws : EngineLaws e) (json : Json) where
  -- An index entry stands for the deadline of the flow that is filed under its key, and for no other.
  pub record IsIndexed (s : e.State) : Type 0 where
    pub filed : (k : FlowKey) → is_filed json k (laws.entry (flow_key k) s) ≡ true
    pub indexed :
        (at : Instant) (k : FlowKey)
        → is_some (laws.entry (expiry_key at k) s)
          ≡ is_deadline json at k (laws.entry (flow_key k) s)

  -- What is found under a key, and what it decodes to.
  pub load_flow-found :
      (k : FlowKey) (s : e.State) (o : Option Flow)
      → load_flow e json k s ≡ ok o
      → decode_found json (laws.entry (flow_key k) s) ≡ ok o
  unfolding load_flow
  load_flow-found k s o h =
      let (found, got, decoded) = >>=-eq-ok (e.get (flow_key k) s) (decode_found json) o h in
      subst (λ x. decode_found json x ≡ ok o) (laws.get-entry (flow_key k) s found got) decoded

  pub decode_found-cases :
      (o : Option Text) (r : Option Flow)
      → decode_found json o ≡ ok r
      → ((o ≡ none) × (r ≡ none))
        ⊎ ((raw : Text) × (f : Flow) × (o ≡ some raw)
            × (decode_flow json raw ≡ ok f)
            × (r ≡ some f))
  unfolding decode_found
  decode_found-cases none r h = inl (refl, sym (ok-injective none r h))
  decode_found-cases (some raw) r h =
      let (f, d, q) = >>=-eq-ok (decode_flow json raw) (λ f. ok (some f)) r h in
      inr (raw, f, refl, d, sym (ok-injective (some f) r q))

  -- The index without the entries of one key.
  record Cleared (k : FlowKey) (s s' : e.State) : Type 0 where
    cleared : (at : Instant) → laws.entry (expiry_key at k) s' ≡ none
    others :
        (at : Instant) (j : FlowKey)
        → key_beq k j ≡ false
        → laws.entry (expiry_key at j) s' ≡ laws.entry (expiry_key at j) s
    flows : (j : FlowKey) → laws.entry (flow_key j) s' ≡ laws.entry (flow_key j) s

  drop_expiry-Cleared :
      (k : FlowKey) (previous : Option Flow) (s s' : e.State)
      → IsIndexed s
      → decode_found json (laws.entry (flow_key k) s) ≡ ok previous
      → drop_expiry e json k previous s ≡ ok s'
      → Cleared k s s'
  unfolding drop_expiry is_deadline
  drop_expiry-Cleared k previous s s' i p h =
      elim (decode_found-cases (laws.entry (flow_key k) s) previous p) [
        | inl (n, q) ↦
            subst (Cleared k s) (ok-injective s s' (ap (λ o. drop_expiry e json k o s) (sym q) ∙ h))
              (record {
                cleared = λ at. none_of (i.indexed at k ∙ ap (is_deadline json at k) n);
                others = λ at j d. refl;
                flows = λ j. refl;
              })
        | inr (raw, f, there, d, q) ↦
            let deleted = ap (λ o. drop_expiry e json k o s) (sym q) ∙ h in
            let gone = λ (j : Text). laws.delete-entry (expiry_key f.expires_at k) s s' j deleted in
            record {
              cleared = λ at.
                  elim (Bool-cases (text_beq (expiry_key f.expires_at k) (expiry_key at k))) [
                    | inl same ↦ gone (expiry_key at k) ∙ (rw (same) refl)
                    | inr other ↦
                        gone (expiry_key at k)
                        ∙ (rw (other) (
                            none_of (
                              i.indexed at k
                              ∙ ap (is_deadline json at k) there
                              ∙ no_deadline raw f at d other)))
                  ];
              others = λ at j n.
                  gone (expiry_key at j) ∙ (rw (expiry-ne-expiry f.expires_at at k j n) refl);
              flows = λ j. gone (flow_key j) ∙ (rw (expiry-ne-flow f.expires_at k j) refl);
            }
      ]
    where
      none_of : {o : Option Text} → is_some o ≡ false → o ≡ none
      none_of {o} q = ground arith

      no_deadline :
          (raw : Text) (f : Flow) (at : Instant)
          → decode_flow json raw ≡ ok f
          → text_beq (expiry_key f.expires_at k) (expiry_key at k) ≡ false
          → is_deadline json at k (some raw) ≡ false
      no_deadline raw f at d n = rw (d, n, is_deadline) (ground arith)

  previous_key-eq :
      (k : FlowKey) (previous : Option Flow) (s : e.State)
      → IsIndexed s
      → decode_found json (laws.entry (flow_key k) s) ≡ ok previous
      → previous_key k previous ≡ k
  unfolding previous_key is_filed
  previous_key-eq k previous s i p =
      elim (decode_found-cases (laws.entry (flow_key k) s) previous p) [
        | inl (n, q) ↦ rw (q) refl
        | inr (raw, f, there, d, q) ↦
            rw (q) ((key_beq_iff f.key k).0 (rw (there, d, is_filed) at (i.filed k)))
      ]

  -- A change of one key's flow and of its index entries, which agree.
  record Rebuilt (k : FlowKey) (s s' : e.State) (new : Option Text) : Type 0 where
    flow : laws.entry (flow_key k) s' ≡ new
    other_flows :
        (j : FlowKey) → key_beq k j ≡ false → laws.entry (flow_key j) s' ≡ laws.entry (flow_key j) s
    other_expiries :
        (at : Instant) (j : FlowKey)
        → key_beq k j ≡ false
        → laws.entry (expiry_key at j) s' ≡ laws.entry (expiry_key at j) s
    filed : is_filed json k new ≡ true
    indexed : (at : Instant) → is_some (laws.entry (expiry_key at k) s') ≡ is_deadline json at k new

  Rebuilt-IsIndexed :
      (k : FlowKey) (s s' : e.State) (new : Option Text)
      → IsIndexed s
      → Rebuilt k s s' new
      → IsIndexed s'
  Rebuilt-IsIndexed k s s' new i r = record {
    filed = λ j. elim (Bool-cases (key_beq k j)) [
      | inl y ↦
          subst (λ x. is_filed json x (laws.entry (flow_key x) s') ≡ true) ((key_beq_iff k j).0 y)
            (ap (is_filed json k) r.flow ∙ r.filed)
      | inr n ↦ ap (is_filed json j) (r.other_flows j n) ∙ i.filed j
    ];
    indexed = λ at j. elim (Bool-cases (key_beq k j)) [
      | inl y ↦
          subst
            (λ x.
              is_some (laws.entry (expiry_key at x) s')
              ≡ is_deadline json at x (laws.entry (flow_key x) s'))
            ((key_beq_iff k j).0 y) (r.indexed at ∙ ap (is_deadline json at k) (sym r.flow))
      | inr n ↦
          ap is_some (r.other_expiries at j n)
          ∙ i.indexed at j
          ∙ ap (is_deadline json at j) (sym (r.other_flows j n))
    ];
  }

  -- Removing a flow keeps the index.
  pub delete_flow-IsIndexed :
      (k : FlowKey) (s s' : e.State) → IsIndexed s → delete_flow e json k s ≡ ok s' → IsIndexed s'
  unfolding delete_flow is_filed is_deadline
  delete_flow-IsIndexed k s s' i h =
      let (previous, loaded, h1) =
        >>=-eq-ok (load_flow e json k s)
          (λ previous. drop_expiry e json k previous s >>= λ s1. e.delete (flow_key k) s1) s' h in
      let (s1, dropped, deleted) =
        >>=-eq-ok (drop_expiry e json k previous s) (λ s1. e.delete (flow_key k) s1) s' h1 in
      let c = drop_expiry-Cleared k previous s s1 i (load_flow-found k s previous loaded) dropped in
      let gone = λ (j : Text). laws.delete-entry (flow_key k) s1 s' j deleted in
      Rebuilt-IsIndexed k s s' none i (record {
        flow = gone (flow_key k) ∙ (rw ((text_beq_iff (flow_key k) (flow_key k)).1 refl) refl);
        other_flows = λ j n. gone (flow_key j) ∙ (rw (flow-ne-flow k j n) refl) ∙ c.flows j;
        other_expiries =
            λ at j n. gone (expiry_key at j) ∙ (rw (flow-ne-expiry at j k) refl) ∙ c.others at j n;
        filed = refl;
        indexed = λ at.
            ap is_some (gone (expiry_key at k) ∙ (rw (flow-ne-expiry at k k) refl) ∙ c.cleared at);
      })

  -- Saving a flow keeps the index, if what is stored reads back with the flow's key and deadline.
  pub save_flow-IsIndexed :
      (f g : Flow) (raw : Text) (s s' : e.State)
      → IsIndexed s
      → encode_flow json f ≡ ok raw
      → decode_flow json raw ≡ ok g
      → g.key ≡ f.key
      → g.expires_at ≡ f.expires_at
      → save_flow e json f s ≡ ok s'
      → IsIndexed s'
  unfolding save_flow
  save_flow-IsIndexed f g raw s s' i en de same_key same_deadline h =
      let k = f.key in
      let (previous, loaded, h1) =
        >>=-eq-ok (load_flow e json k s)
          (λ previous. drop_expiry e json (previous_key k previous) previous s >>= λ s1.
            encode_flow json f >>= λ raw.
            e.set (flow_key k) raw s1 >>= λ s2. e.set (expiry_key f.expires_at k) [] s2)
          s' h in
      let found = load_flow-found k s previous loaded in
      let (s1, dropped, h2) =
        >>=-eq-ok (drop_expiry e json (previous_key k previous) previous s)
          (λ s1. encode_flow json f >>= λ raw.
            e.set (flow_key k) raw s1 >>= λ s2. e.set (expiry_key f.expires_at k) [] s2)
          s' h1 in
      let (raw', encoded, h3) =
        >>=-eq-ok (encode_flow json f)
          (λ raw. e.set (flow_key k) raw s1 >>= λ s2. e.set (expiry_key f.expires_at k) [] s2) s'
          h2 in
      let (s2, stored, indexed) =
        >>=-eq-ok (e.set (flow_key k) raw' s1) (λ s2. e.set (expiry_key f.expires_at k) [] s2) s'
          h3 in
      let c = drop_expiry-Cleared k previous s s1 i found (
        ap (λ j. drop_expiry e json j previous s) (sym (previous_key-eq k previous s i found))
        ∙ dropped) in
      let raw_is : raw' ≡ raw = ok-injective raw' raw (sym encoded ∙ en) in
      let flow_set = λ (j : Text). laws.set-entry (flow_key k) raw' s1 s2 j stored in
      let expiry_set =
        λ (j : Text). laws.set-entry (expiry_key f.expires_at k) [] s2 s' j indexed in
      Rebuilt-IsIndexed k s s' (some raw) i (record {
        flow =
            expiry_set (flow_key k)
            ∙ (rw (expiry-ne-flow f.expires_at k k) refl)
            ∙ flow_set (flow_key k)
            ∙ (rw ((text_beq_iff (flow_key k) (flow_key k)).1 refl) refl)
            ∙ ap (λ x. some x) raw_is;
        other_flows = λ j n.
            expiry_set (flow_key j)
            ∙ (rw (expiry-ne-flow f.expires_at k j) refl)
            ∙ flow_set (flow_key j)
            ∙ (rw (flow-ne-flow k j n) refl)
            ∙ c.flows j;
        other_expiries = λ at j n.
            expiry_set (expiry_key at j)
            ∙ (rw (expiry-ne-expiry f.expires_at at k j n) refl)
            ∙ flow_set (expiry_key at j)
            ∙ (rw (flow-ne-expiry at j k) refl)
            ∙ c.others at j n;
        filed = filed_lem json k raw g de same_key;
        indexed = λ at.
            indexed_at at (expiry_set (expiry_key at k))
              (flow_set (expiry_key at k) ∙ (rw (flow-ne-expiry at k k) refl) ∙ c.cleared at)
              (deadline_lem json at k raw g de same_key
                ∙ ap (λ t. text_beq (expiry_key t k) (expiry_key at k)) same_deadline);
      })
    where
      indexed_at :
          (at : Instant) {new old : Option Text} {b : Bool}
          → new ≡ (
              if text_beq (expiry_key f.expires_at f.key) (expiry_key at f.key)
              then some []
              else old)
          → old ≡ none
          → b ≡ text_beq (expiry_key f.expires_at f.key) (expiry_key at f.key)
          → is_some new ≡ b
      indexed_at at p q r = ground arith
