-- ===== src/Adapters/MemoryStore/Drain.antt =====
-- `Drain` of internal/application/deliver/service.go on the store of
-- internal/adapters/state/memory/store.go: what a delivery may remove.
use mathlib.Core.Option.{some-injective}
use flow_stitch.Base.{
  ℕ, ◌+◌, ◌≡◌, refl, list-cases, sym, ap, subst, ◌∙◌, Bool, true, ◌||◌, not, Option, none, some,
  List, [], ◌∷◌, Text, text_eq, text_beq_iff, nat_eq, ◌==◌, or_else, if◌then◌else◌, ltb, All, arith,
  Bool-cases, Option-cases, Result-cases, inl, inr, Result, ok, err,
}
use flow_stitch.Base.Dict.{Dict, lookup, insert, lookup-insert, IsMap}
use flow_stitch.Domain.Instant.{Instant, Duration}
use flow_stitch.Domain.Outbox.{
  Record, zero_record, Disposition, delivered, retryable, permanent, other_disposition,
  DeliveryResult,
}
use flow_stitch.Domain.Flow.Codec.{Json}
use flow_stitch.Application.Ports.{PassthroughRecord, PassthroughResult}
use flow_stitch.Application.Deliver.{
  results_by_id, missing_result, complete_from, complete_results, give_up, bury, bury_permanent,
  retry_or_give_up, classify, classify_all, is_permanent, records_by_id, capture_all, DrainError,
  Drained, resolve_batch, drain_outbox,
}
use flow_stitch.Application.Deliver.Drain.{Backlog, drain, drain-store}
use flow_stitch.Adapters.MemoryStore.State.{Store, pending_outbox}
use flow_stitch.Adapters.MemoryStore.DeadLetters.{resolve_outbox}
use flow_stitch.Adapters.MemoryStore.DeadLetters.Results.{is_delivered, held, delivered_in}
use flow_stitch.Adapters.MemoryStore.DeadLetters.Resolve.{resolve_outbox-held}
use flow_stitch.Adapters.MemoryStore.Port.{memory_tx}

-- A result that calls its record delivered repeats one of the sink's answers.
abbrev backed : List DeliveryResult → DeliveryResult → Bool
backed answers r = not (is_delivered r.disposition) || delivered_in r.output_id answers

abbrev AllBacked : List DeliveryResult → Dict Text DeliveryResult → Type 0
AllBacked answers m =
    (id : Text) (r : DeliveryResult) → lookup id m ≡ some r → backed answers r ≡ true

insert-AllBacked :
    (answers : List DeliveryResult) (r : DeliveryResult) (m : Dict Text DeliveryResult)
    → backed answers r ≡ true
    → AllBacked answers m
    → AllBacked answers (insert r.output_id r m)
insert-AllBacked answers r m b a id x h =
    let found : (if r.output_id == id then some r else lookup id m) ≡ some x =
      sym (lookup-insert r.output_id id r m) ∙ h in
    elim (Bool-cases (r.output_id == id)) [
      | inl e ↦ subst (λ y. backed answers y ≡ true) (some-injective r x (rw e at found)) b
      | inr e ↦ a id x (rw e at found)
    ]

results_by_id-AllBacked :
    (answers rs : List DeliveryResult) (m : Dict Text DeliveryResult)
    → ((id : Text) → delivered_in id rs ≡ true → delivered_in id answers ≡ true)
    → AllBacked answers m
    → AllBacked answers (results_by_id rs m)
unfolding results_by_id
results_by_id-AllBacked answers [] m k a = a
results_by_id-AllBacked answers (r ∷ rs) m k a =
    results_by_id-AllBacked answers rs (insert r.output_id r m) (λ id h. k id (ground arith))
      (insert-AllBacked answers r m
        (ground (arith, k r.output_id, text_beq_iff r.output_id r.output_id)) a)

complete_from-backed :
    (answers : List DeliveryResult) (m : Dict Text DeliveryResult) (cause : Option Text)
    (rs : List Record)
    → AllBacked answers m
    → All (λ r. backed answers r ≡ true) (complete_from m cause rs)
unfolding complete_from missing_result
complete_from-backed answers m cause [] a = tt
complete_from-backed answers m cause (r ∷ rs) a = elim (Option-cases (lookup r.output_id m)) [
  | inl e ↦ (rw (e, missing_result) refl, complete_from-backed answers m cause rs a)
  | inr (x, e) ↦ (rw e (a r.output_id x e), complete_from-backed answers m cause rs a)
]

-- Classification makes no result a delivered one.
classify-delivered :
    (backoff : Text → ℕ → Duration) (max_retries : ℕ) (now : Instant) (stored : Record)
    (r : DeliveryResult) (d : Disposition)
    → ((classify backoff max_retries now stored (record r { disposition = d })).output_id
        ≡ r.output_id)
      × (is_delivered
            (classify backoff max_retries now stored (record r { disposition = d })).disposition
          ≡ is_delivered d)
unfolding classify retry_or_give_up give_up bury bury_permanent is_permanent
classify-delivered backoff max_retries now stored r delivered = (refl, refl)
classify-delivered backoff max_retries now stored r permanent = (refl, refl)
classify-delivered backoff max_retries now stored r (other_disposition x) = (refl, refl)
classify-delivered backoff max_retries now stored r retryable =
    elim (Bool-cases (ltb max_retries (stored.attempts + 1))) [
      | inl e ↦ rw e (refl, refl)
      | inr e ↦ rw e (refl, refl)
    ]

classify_all-backed :
    (backoff : Text → ℕ → Duration) (max_retries : ℕ) (now : Instant) (by_id : Dict Text Record)
    (answers rs : List DeliveryResult) (id : Text)
    → All (λ r. backed answers r ≡ true) rs
    → delivered_in id (classify_all backoff max_retries now by_id rs) ≡ true
    → delivered_in id answers ≡ true
unfolding classify_all
classify_all-backed backoff max_retries now by_id answers [] id a h = cc
classify_all-backed backoff max_retries now by_id answers (r ∷ rs) id (b, a) h =
    let stored = or_else (lookup r.output_id by_id) zero_record in
    let (ids, dels) = classify-delivered backoff max_retries now stored r r.disposition in
    let here = ap (λ i. i == id) ids in
    let later = classify_all-backed backoff max_retries now by_id answers rs id a in
    elim (Bool-cases (r.output_id == id)) [
      | inl e ↦
          let backed_here =
            subst (λ i. (not (is_delivered r.disposition) || delivered_in i answers) ≡ true)
              ((text_beq_iff r.output_id id).0 e) b in
          ground (arith, here, dels, backed_here, later)
      | inr e ↦ ground (arith, here, later)
    ]

completed-backed :
    (records : List Record) (answers : List DeliveryResult) (cause : Option Text)
    → All (λ r. backed answers r ≡ true) (complete_results records answers cause)
unfolding complete_results lookup
completed-backed records answers cause =
    complete_from-backed answers (results_by_id answers []) cause records
      (results_by_id-AllBacked answers answers [] (λ id h. h) (λ id r h. cc))

-- What a drain of the outbox reports as dropped for the limit on dead letters.
abbrev pub drops_none : Result DrainError (Option Drained) → Bool
drops_none (err e) = true
drops_none (ok none) = true
drops_none (ok (some done)) = done.change.dropped == 0

module _ (json : Json) (sink : List Record → List DeliveryResult × Option Text)
    (capture : Record → Text → Option Text) (backoff : Text → ℕ → Duration)
    (batch max_retries : ℕ) where
  abbrev pub drained : Instant → Store → Store × Result DrainError (Option Drained)
  drained = drain_outbox (memory_tx json) sink capture backoff batch max_retries

  resolve_batch-held :
      (now : Instant) (r : Record) (rs : List Record) (s : Store) (id : Text)
      → IsMap s.dead
      → held id s ≡ true
      → drops_none
          (elim (resolve_batch
            (memory_tx json)
            sink
            capture
            backoff
            batch
            max_retries
            now
            (r ∷ rs)
            s).1 [ err x ↦ err x | ok done ↦ ok (some done) ])
        ≡ true
      → (held id
            (resolve_batch (memory_tx json) sink capture backoff batch max_retries now (r ∷ rs) s).0
          || delivered_in id (sink (r ∷ rs)).0)
        ≡ true
  unfolding resolve_batch
  resolve_batch-held now r rs s id v k z =
      let by_id = records_by_id (r ∷ rs) [] in
      let answers = (sink (r ∷ rs)).0 in
      let completed = complete_results (r ∷ rs) answers (sink (r ∷ rs)).1 in
      let results = classify_all backoff max_retries now by_id completed in
      elim (Result-cases (capture_all capture by_id results)) [
        | inr (x, e) ↦ rw (e, resolve_batch) (ground (arith, k))
        | inl (captured, e) ↦ elim (Result-cases (resolve_outbox results s)) [
          | inr (x, f) ↦ rw (e, f, resolve_batch) (ground (arith, k))
          | inl (done, f) ↦
              let none_dropped : done.1.dropped ≡ 0 =
                ground (arith, rw (e, f, resolve_batch) at z) in
              let kept = resolve_outbox-held results s done.0 done.1 id v f none_dropped k in
              rw (e, f, resolve_batch)
                (ground (
                  arith,
                  kept,
                  classify_all-backed backoff max_retries now by_id answers completed id
                      (completed-backed (r ∷ rs) answers (sink (r ∷ rs)).1),
                ))
        ]
      ]

  drain_outbox-held :
      (now : Instant) (s : Store) (id : Text)
      → IsMap s.dead
      → held id s ≡ true
      → drops_none (drained now s).1 ≡ true
      → (held id (drained now s).0 || delivered_in id (sink (pending_outbox now batch s)).0) ≡ true
  unfolding drain_outbox
  drain_outbox-held now s id v k z = elim (list-cases (pending_outbox now batch s)) [
    | inl e ↦ rw (e, drain_outbox) (ground (arith, k))
    | inr (r, rs, e) ↦
        rw (e, drain_outbox) (resolve_batch-held now r rs s id v k (rw (e, drain_outbox) at z))
  ]

  -- A drain, whatever comes of it, removes a record from the outbox and the dead letters only if the
  -- sink answered that it was delivered, as long as it drops no dead letter for their limit: errors of
  -- the sink, of the quarantine and of the store, permanent rejections and retries keep every record.
  pub drain-held :
      (passthrough_sink : Option (List PassthroughRecord → List PassthroughResult × Option Text))
      (now : Instant) (s : Backlog (memory_tx json)) (id : Text)
      → IsMap s.store.dead
      → held id s.store ≡ true
      → drops_none (drained now s.store).1 ≡ true
      → (held id
            (drain
              (memory_tx json)
              sink
              passthrough_sink
              capture
              backoff
              batch
              max_retries
              now
              s).0.store
          || delivered_in id (sink (pending_outbox now batch s.store)).0)
        ≡ true
  drain-held passthrough_sink now s id v k z =
      rw
        (drain-store (memory_tx json) sink passthrough_sink capture backoff batch max_retries now s)
        (drain_outbox-held now s.store id v k z)
