-- ===== src/Application/Expire/Ends.antt =====
-- internal/application/expire/service.go: the sweep ends, finalizes no more than its batch, and
-- releases one reference for each flow that it finalized.
use flow_stitch.Base.{
  ℕ, zero, suc, ◌+◌, ◌≤◌, ◌<◌, ◌≡◌, ◌≢◌, refl, sym, ap, subst, ◌∙◌, Bool, true, false, ◌&&◌, none,
  some, List, [], ◌∷◌, ◌++◌, ◌>>=◌, Text, nat_eq, ◌==◌, if◌then◌else◌, ltb, Result, ok, err,
  ok-injective, err-ne-ok, >>=-eq-ok, length, length-append, arith, Bool-cases, Result-cases, inl,
  inr,
}
use flow_stitch.Domain.Instant.{Instant}
use flow_stitch.Domain.Rule.{Rule, Reference}
use flow_stitch.Domain.Flow.Defs.{Flow, FlowKey, key_eq, Reason}
use flow_stitch.Domain.Flow.Close.{finalize}
use flow_stitch.Application.Ports.{Tx, DueLaws, StoreError, RuleRegistry}
use flow_stitch.Application.Finalize.{Encoders, finalize_flow, new_output_id, output_record}
use flow_stitch.Application.Expire.{
  Sweep, SweepError, sweep_store, out_of_rounds, is_visited, closing, sweep_flow, visit, sweep_key,
  sweep_keys, sweep_rounds, sweep,
}

module _ (tx : Tx) (rules : RuleRegistry) (enc : Encoders) (batch : ℕ) (now : Instant)
    (registry : rules.State) (laws : DueLaws tx) where
  -- What the loops keep.
  record Kept (st st' : Sweep tx.State) : Type 0 where
    paired : length st'.released + st.finalized ≡ length st.released + st'.finalized
    shrinks : laws.open_count st'.store ≤ laws.open_count st.store

  finalize_flow-open_count :
      (f : Flow) (configured : Rule) (reason : Reason) (s s' : tx.State) (id : Text)
      → finalize_flow tx enc f configured reason now s ≡ ok (s', id)
      → laws.open_count s' ≤ laws.open_count s
  unfolding finalize_flow
  finalize_flow-open_count f configured reason s s' id h =
      let id0 = new_output_id enc configured.id f.key.correlation_key f.first_observed_at in
      let (document, projected, h1) =
        >>=-eq-ok (enc.project (finalize f reason now) configured)
          (λ d. tx.enqueue_outbox (output_record enc f configured now d) s >>= λ s1.
            tx.delete_flow f.key s1 >>= λ s2. ok (s2, id0))
          (s', id) h in
      let r = output_record enc f configured now document in
      let (s1, enqueued, h2) =
        >>=-eq-ok (tx.enqueue_outbox r s) (λ s1. tx.delete_flow f.key s1 >>= λ s2. ok (s2, id0))
          (s', id) h1 in
      let (s2, deleted, h3) =
        >>=-eq-ok (tx.delete_flow f.key s1) (λ s2. ok (s2, id0)) (s', id) h2 in
      subst (λ p. laws.open_count p.0 ≤ laws.open_count s) (ok-injective (s2, id0) (s', id) h3)
        (omega (
          arith,
          laws.enqueue-open_count r s s1 enqueued,
          laws.delete-open_count f.key s1 s2 deleted,
        ))

  sweep_flow-Kept :
      (key : FlowKey) (f : Flow) (st st' : Sweep tx.State)
      → sweep_flow tx rules enc batch now registry key f st ≡ ok st'
      → Kept st st' × (st'.finalized ≡ st.finalized + 1)
  unfolding sweep_flow
  sweep_flow-Kept key f st st' h =
      let c = closing tx rules enc batch now registry key f in
      let k : Reference = record { id = key.rule_id; version = f.rule_version } in
      elim (Result-cases (finalize_flow tx enc c.0 c.1 c.2 now st.store)) [
        | inr (x, e) ↦ absurd (err-ne-ok x st' (rw (e, sweep_flow) at h))
        | inl ((s, id), e) ↦
            let done : Sweep tx.State = record st {
              store = s;
              finalized = st.finalized + 1;
              released = st.released ++ k ∷ [];
            } in
            subst (λ t. Kept st t × (t.finalized ≡ st.finalized + 1))
              (ok-injective done st' (rw (e, sweep_flow) at h))
              (
                record {
                  paired = omega (arith, length-append st.released (k ∷ []));
                  shrinks = finalize_flow-open_count c.0 c.1 c.2 st.store s id e;
                },
                refl,
              )
      ]

  -- One key finalizes one flow or none.
  sweep_key-Kept :
      (key : FlowKey) (st st' : Sweep tx.State) (did : Bool)
      → sweep_key tx rules enc batch now registry key st ≡ ok (st', did)
      → Kept st st' × (st'.finalized ≡ (if did then st.finalized + 1 else st.finalized))
  unfolding sweep_key visit
  sweep_key-Kept key st st' did h = elim (Bool-cases (is_visited key st.visited)) [
    | inl e ↦ unchanged st (rw (e, sweep_key) at h) same
    | inr e ↦ elim (Result-cases (tx.load_flow key st.store)) [
      | inr (x, l) ↦ absurd (err-ne-ok x (st', did) (rw (e, l, sweep_key) at h))
      | inl (none, l) ↦
          unchanged (visit tx rules enc batch now registry key st) (rw (e, l, sweep_key) at h)
            same_visited
      | inl (some f, l) ↦
          elim (Result-cases (
            sweep_flow tx rules enc batch now registry key f
              (visit tx rules enc batch now registry key st))) [
                | inr (x, d) ↦ absurd (err-ne-ok x (st', did) (rw (e, l, d, sweep_key) at h))
                | inl (done, d) ↦
                    subst
                      (λ p.
                        Kept st p.0
                        × (p.0.finalized ≡ (if p.1 then st.finalized + 1 else st.finalized)))
                      (ok-injective (done, true) (st', did) (rw (e, l, d, sweep_key) at h))
                      (visited (
                        sweep_flow-Kept key f (visit tx rules enc batch now registry key st) done
                          d))
              ]
    ]
  ]
    where
      same : Kept st st × (st.finalized ≡ st.finalized)
      same = (record { paired = refl; shrinks = omega arith }, refl)

      same_visited :
          Kept st (visit tx rules enc batch now registry key st)
          × ((visit tx rules enc batch now registry key st).finalized ≡ st.finalized)
      same_visited = (record { paired = refl; shrinks = omega arith }, refl)

      visited :
          {t : Sweep tx.State}
          → Kept (visit tx rules enc batch now registry key st) t
            × (t.finalized ≡ (visit tx rules enc batch now registry key st).finalized + 1)
          → Kept st t × (t.finalized ≡ st.finalized + 1)
      visited x = (record { paired = x.0.paired; shrinks = x.0.shrinks }, x.1)

      unchanged :
          (t : Sweep tx.State)
          → ◌≡◌ {A = Result StoreError (Sweep tx.State × Bool)} (ok (t, false)) (ok (st', did))
          → Kept st t × (t.finalized ≡ st.finalized)
          → Kept st st' × (st'.finalized ≡ (if did then st.finalized + 1 else st.finalized))
      unchanged t x k =
          subst
            (λ p. Kept st p.0 × (p.0.finalized ≡ (if p.1 then st.finalized + 1 else st.finalized)))
            (ok-injective (t, false) (st', did) x) k

  -- The inner loop, started below the batch.
  sweep_keys-Kept :
      (keys : List FlowKey) (st st' : Sweep tx.State)
      → st.finalized < batch
      → sweep_keys tx rules enc batch now registry keys st ≡ ok st'
      → Kept st st' × (st'.finalized ≤ batch)
  unfolding sweep_keys
  sweep_keys-Kept [] st st' l h =
      subst (λ t. Kept st t × (t.finalized ≤ batch)) (ok-injective st st' h)
        (record { paired = refl; shrinks = omega arith }, omega arith)
  sweep_keys-Kept (key ∷ keys) st st' l h =
      elim (Result-cases (sweep_key tx rules enc batch now registry key st)) [
        | inr (x, e) ↦ absurd (err-ne-ok x st' (rw (e, sweep_keys) at h))
        | inl ((t, did), e) ↦
            let (k, count) = sweep_key-Kept key st t did e in
            elim (Bool-cases (did && t.finalized == batch)) [
              | inl f ↦
                  subst (λ u. Kept st u × (u.finalized ≤ batch))
                    (ok-injective t st' (rw (e, f, sweep_keys) at h)) (k, ground (arith, count))
              | inr f ↦
                  let (k', bound) =
                    sweep_keys-Kept keys t st' (ground (arith, count))
                      (rw (e, f, sweep_keys) at h) in
                  (
                    record {
                      paired = omega (arith, k.paired, k'.paired);
                      shrinks = omega (arith, k.shrinks, k'.shrinks);
                    },
                    bound,
                  )
            ]
      ]

  unchanged :
      (st st' : Sweep tx.State)
      → st.finalized ≤ batch
      → ◌≡◌ {A = Result SweepError (Sweep tx.State)} (ok st) (ok st')
      → Kept st st' × (st'.finalized ≤ batch)
  unchanged st st' b x =
      subst (λ t. Kept st t × (t.finalized ≤ batch)) (ok-injective st st' x)
        (record { paired = refl; shrinks = omega arith }, b)

  -- A round that is followed by another has fetched `limit` flows.
  sweep_rounds-again :
      (fuel limit : ℕ) (st : Sweep tx.State)
      → ((t : Sweep tx.State)
          → limit ≤ laws.open_count st.store
          → laws.open_count t.store ≤ laws.open_count st.store
          → sweep_rounds tx rules enc batch now registry fuel (limit + batch) t ≢ err out_of_rounds)
      → sweep_rounds tx rules enc batch now registry (suc fuel) limit st ≢ err out_of_rounds
  unfolding sweep_rounds
  sweep_rounds-again fuel limit st next h = elim (Bool-cases (ltb st.finalized batch)) [
    | inr e ↦ err-ne-ok out_of_rounds st (sym (rw (e, sweep_rounds) at h))
    | inl e ↦ elim (Result-cases (tx.due_flows now limit st.store)) [
      | inr (x, d) ↦ store-ne x (rw (e, d, sweep_rounds) at h)
      | inl (keys, d) ↦ elim (Result-cases (sweep_keys tx rules enc batch now registry keys st)) [
        | inr (x, k) ↦ store-ne x (rw (e, d, k, sweep_rounds) at h)
        | inl (t, k) ↦
            let (kt, bt) = sweep_keys-Kept keys st t (ground arith) k in
            elim (Bool-cases (ltb (length keys) limit)) [
              | inl f ↦ err-ne-ok out_of_rounds t (sym (rw (e, d, k, f, sweep_rounds) at h))
              | inr f ↦
                  next t (ground (arith, laws.due-bound now limit st.store keys d)) kt.shrinks
                    (rw (e, d, k, f, sweep_rounds) at h)
            ]
      ]
    ]
  ]
    where
      store-ne :
          (x : StoreError)
          → ◌≡◌ {A = Result SweepError (Sweep tx.State)} (err (sweep_store x)) (err out_of_rounds)
          → ⊥
      store-ne x q = cc

  -- Rounds for the flows that are open are enough, since `limit` grows with each.
  sweep_rounds-fuel :
      (fuel limit : ℕ) (st : Sweep tx.State)
      → 0 < batch
      → laws.open_count st.store < limit + fuel
      → sweep_rounds tx rules enc batch now registry (suc fuel) limit st ≢ err out_of_rounds
  sweep_rounds-fuel zero limit st p l =
      sweep_rounds-again zero limit st λ t a c. absurd (omega arith)
  sweep_rounds-fuel (suc n) limit st p l =
      sweep_rounds-again (suc n) limit st
        λ t a c. sweep_rounds-fuel n (limit + batch) t p (omega arith)

  abbrev start : tx.State → Sweep tx.State
  start s = record { store = s; visited = []; finalized = 0; released = [] }

  -- With a positive batch, one round more than flows are open is enough: the sweep succeeds or
  -- returns an error of the store.
  pub sweep-ends :
      (s : tx.State)
      → 0 < batch
      → (sweep tx rules enc batch now registry (suc (laws.open_count s)) s).1 ≢ err out_of_rounds
  unfolding sweep
  sweep-ends s p h =
      elim (Result-cases
        (sweep_rounds tx rules enc batch now registry (suc (laws.open_count s)) batch (start s))) [
          | inr (x, e) ↦
              sweep_rounds-fuel (laws.open_count s) batch (start s) p (omega arith) (
                e
                ∙ ap (λ y. err y) (ap (λ r. elim r [ ok n ↦ x | err y ↦ y ]) (rw (e, sweep) at h)))
          | inl (st, e) ↦ err-ne-ok out_of_rounds st.finalized (sym (rw (e, sweep) at h))
        ]
