-- ===== src/Adapters/MemoryStore/DeadLetters/Resolve.antt =====
-- `ResolveOutbox` of internal/adapters/state/memory/store.go: no record is lost, and the reported
-- change says how the dead letters changed.
use flow_stitch.Base.{
  suc, ◌+◌, ◌≡◌, refl, sym, ap, subst, Bool, true, false, ◌||◌, List, [], ◌∷◌, map, Text, text_eq,
  if◌then◌else◌, length, length-append, arith, Bool-cases, inl, inr, ok, >>=-eq-ok, ok-injective,
}
use flow_stitch.Base.Dict.{IsMap}
use flow_stitch.Domain.Outbox.{Record, DeliveryResult}
use flow_stitch.Application.Ports.{DeadLetterChange, no_change}
use flow_stitch.Adapters.MemoryStore.State.{Store}
use flow_stitch.Adapters.MemoryStore.DeadLetters.{
  Resolving, dead_letter_ref, resolve_results, over_limit, trim_dead_letters, report_trimmed,
  finish_resolve, resolve_outbox,
}
use flow_stitch.Adapters.MemoryStore.DeadLetters.Trim.{trim_dead_letters-Trimmed}
use flow_stitch.Adapters.MemoryStore.DeadLetters.Results.{
  held, delivered_in, Moved, resolve_results-held, resolve_results-Moved,
}

length-map_ref : (rs : List Record) → length (map dead_letter_ref rs) ≡ length rs
length-map_ref [] = refl
length-map_ref (r ∷ rs) = ap suc (length-map_ref rs)

-- What `ResolveOutbox` reports, and what it leaves.
record Resolved (s s' : Store) (change : DeadLetterChange) : Type 0 where
  balance : length s'.dead + length change.removed ≡ length s.dead + length change.added
  reported : change.changed ≡ true → change.records ≡ length s'.dead
  within : change.changed ≡ true → over_limit s'.max_dlq (length s'.dead) ≡ false
  quiet : change.changed ≡ false → length s'.dead ≡ length s.dead
  still_IsMap : IsMap s'.dead

finish_resolve-changed :
    (st : Resolving) (b : Bool)
    → st.dead_changed ≡ b
    → finish_resolve st ≡ (if b then report_trimmed st else (st.store, no_change))
unfolding finish_resolve
finish_resolve-changed st b e = ap (λ c. if c then report_trimmed st else (st.store, no_change)) e

start : Store → Resolving
start s = record { store = s; dead_changed = false; added = []; removed = [] }

report_trimmed-lem :
    (s : Store) (st : Resolving)
    → Moved (start s) st
    → Resolved s (report_trimmed st).0 (report_trimmed st).1
unfolding report_trimmed start
report_trimmed-lem s st m =
    let w = trim_dead_letters-Trimmed st.store m.still_IsMap in
    let dropped = (trim_dead_letters st.store).1 in
    record {
      balance = omega (
        arith,
        m.balance,
        w.balance,
        length-append st.removed (map dead_letter_ref dropped),
        length-map_ref dropped,
      );
      reported = λ h. refl;
      within = λ h.
          subst (λ t. over_limit t.max_dlq (length (trim_dead_letters st.store).0.dead) ≡ false)
            (sym w.frame) w.within;
      quiet = λ h. cc;
      still_IsMap = w.still_IsMap;
    }

finish_resolve-lem :
    (s : Store) (st : Resolving)
    → Moved (start s) st
    → Resolved s (finish_resolve st).0 (finish_resolve st).1
unfolding start
finish_resolve-lem s st m = elim (Bool-cases st.dead_changed) [
  | inl e ↦
      subst (λ p. Resolved s p.0 p.1) (sym (finish_resolve-changed st true e))
        (report_trimmed-lem s st m)
  | inr e ↦
      subst (λ p. Resolved s p.0 p.1) (sym (finish_resolve-changed st false e))
        (record {
          balance = ap (λ d. length d + 0) (m.quiet e).1;
          reported = λ h. cc;
          within = λ h. cc;
          quiet = λ h. ap length (m.quiet e).1;
          still_IsMap = m.still_IsMap;
        })
]

resolve_outbox-Resolved :
    (results : List DeliveryResult) (s s' : Store) (change : DeadLetterChange)
    → IsMap s.dead
    → resolve_outbox results s ≡ ok (s', change)
    → Resolved s s' change
unfolding resolve_outbox start
resolve_outbox-Resolved results s s' change v h =
    let (st, loop, done) =
      >>=-eq-ok (resolve_results results (start s)) (λ t. ok (finish_resolve t)) (s', change) h in
    subst (λ p. Resolved s p.0 p.1) (ok-injective (finish_resolve st) (s', change) done)
      (finish_resolve-lem s st (resolve_results-Moved results (start s) st loop v))

-- The dead letters grow by exactly what a successful `ResolveOutbox` reports as added and shrink by
-- what it reports as removed, from a store whose dead letters are a map.
pub resolve_outbox-balance :
    (results : List DeliveryResult) (s s' : Store) (change : DeadLetterChange)
    → IsMap s.dead
    → resolve_outbox results s ≡ ok (s', change)
    → length s'.dead + length change.removed ≡ length s.dead + length change.added
resolve_outbox-balance results s s' change v h =
    (resolve_outbox-Resolved results s s' change v h).balance

-- After a `ResolveOutbox` that reports a change of the dead letters, the change gives their number
-- and their limit is not exceeded.
pub resolve_outbox-within :
    (results : List DeliveryResult) (s s' : Store) (change : DeadLetterChange)
    → IsMap s.dead
    → resolve_outbox results s ≡ ok (s', change)
    → change.changed ≡ true
    → (change.records ≡ length s'.dead) × (over_limit s'.max_dlq (length s'.dead) ≡ false)
resolve_outbox-within results s s' change v h c =
    let w = resolve_outbox-Resolved results s s' change v h in (w.reported c, w.within c)

-- The number of dead letters after a `ResolveOutbox` is the one that it reports, if it reports a change.
pub resolve_outbox-counted :
    (results : List DeliveryResult) (s s' : Store) (change : DeadLetterChange)
    → IsMap s.dead
    → resolve_outbox results s ≡ ok (s', change)
    → (length s'.dead ≡ (if change.changed then change.records else length s.dead)) × IsMap s'.dead
resolve_outbox-counted results s s' change v h =
    let w = resolve_outbox-Resolved results s s' change v h in
    (
      elim (Bool-cases change.changed) [
        | inl e ↦ rw e (sym (w.reported e))
        | inr e ↦ rw e (w.quiet e)
      ],
      w.still_IsMap,
    )

no_records : (rs : List Record) → length rs ≡ 0 → rs ≡ []
no_records [] z = refl
no_records (r ∷ rs) z = absurd (omega arith)

report_trimmed-held :
    (st : Resolving) (id : Text)
    → IsMap st.store.dead
    → (report_trimmed st).1.dropped ≡ 0
    → held id (report_trimmed st).0 ≡ held id st.store
unfolding report_trimmed
report_trimmed-held st id v z =
    let w = trim_dead_letters-Trimmed st.store v in
    ap (held id) (w.unchanged (no_records (trim_dead_letters st.store).1 z))

finish_resolve-held :
    (st : Resolving) (id : Text)
    → IsMap st.store.dead
    → (finish_resolve st).1.dropped ≡ 0
    → held id (finish_resolve st).0 ≡ held id st.store
finish_resolve-held st id v = elim (Bool-cases st.dead_changed) [
  | inl e ↦
      subst (λ p. p.1.dropped ≡ 0 → held id p.0 ≡ held id st.store)
        (sym (finish_resolve-changed st true e)) (report_trimmed-held st id v)
  | inr e ↦
      subst (λ p. p.1.dropped ≡ 0 → held id p.0 ≡ held id st.store)
        (sym (finish_resolve-changed st false e)) (λ z. refl)
]

-- A record that is in the outbox or among the dead letters is still in one of them after a
-- successful `ResolveOutbox` that drops nothing for the limit, unless a result reports it delivered.
pub resolve_outbox-held :
    (results : List DeliveryResult) (s s' : Store) (change : DeadLetterChange) (id : Text)
    → IsMap s.dead
    → resolve_outbox results s ≡ ok (s', change)
    → change.dropped ≡ 0
    → held id s ≡ true
    → (held id s' || delivered_in id results) ≡ true
unfolding resolve_outbox start
resolve_outbox-held results s s' change id v h z k =
    let (st, loop, done) =
      >>=-eq-ok (resolve_results results (start s)) (λ t. ok (finish_resolve t)) (s', change) h in
    let p = ok-injective (finish_resolve st) (s', change) done in
    let m = resolve_results-Moved results (start s) st loop v in
    let all_held = resolve_results-held results (start s) st id loop k in
    let after_trim =
      finish_resolve-held st id m.still_IsMap (subst (λ q. q.1.dropped ≡ 0) (sym p) z) in
    subst (λ q. (held id q.0 || delivered_in id results) ≡ true) p
      (subst (λ b. (b || delivered_in id results) ≡ true) (sym after_trim) all_held)
