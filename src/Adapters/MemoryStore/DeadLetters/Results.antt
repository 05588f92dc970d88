-- ===== src/Adapters/MemoryStore/DeadLetters/Results.antt =====
-- The loop of `ResolveOutbox` in internal/adapters/state/memory/store.go, one result at a time.
use flow_stitch.Base.{
  ◌+◌, ◌≡◌, refl, ◌∙◌, subst, Bool, true, false, ◌||◌, ◌&&◌, List, [], ◌∷◌, Text, text_eq, ◌==◌,
  length, length-append, arith, Option-cases, Bool-cases, inl, inr, is_some, ok, >>=-eq-ok,
  ok-injective,
}
use flow_stitch.Base.Dict.{lookup, IsMap, lookup-insert, lookup-erase, length-insert, insert-IsMap}
use flow_stitch.Domain.Outbox.{
  Record, Disposition, delivered, retryable, permanent, other_disposition, DeliveryResult,
}
use flow_stitch.Adapters.MemoryStore.State.{Store}
use flow_stitch.Adapters.MemoryStore.DeadLetters.{
  Resolving, dead_letter, dead_letter_ref, replaced_ref, rejected, retried, resolve_found,
  resolve_one, resolve_results,
}

abbrev pub is_delivered : Disposition → Bool
is_delivered delivered = true
is_delivered d = false

-- The record is in the outbox or among the dead letters.
abbrev pub held : Text → Store → Bool
held id s = is_some (lookup id s.records) || is_some (lookup id s.dead)

-- A result reports the record as delivered.
abbrev pub delivered_in : Text → List DeliveryResult → Bool
delivered_in id [] = false
delivered_in id (res ∷ rest) =
    (is_delivered res.disposition && res.output_id == id) || delivered_in id rest

-- How a list of references and the map have moved together.
pub record Moved (st st' : Resolving) : Type 0 where
  pub balance :
      length st'.store.dead + length st'.removed + length st.added
      ≡ length st.store.dead + length st.removed + length st'.added
  pub still_IsMap : IsMap st'.store.dead
  pub quiet :
      st'.dead_changed ≡ false → (st.dead_changed ≡ false) × (st'.store.dead ≡ st.store.dead)

dead_letter-Moved :
    (res : DeliveryResult) (r : Record) (st : Resolving)
    → IsMap st.store.dead
    → Moved st (dead_letter res r st)
unfolding dead_letter replaced_ref
dead_letter-Moved res r st v =
    let id = res.output_id in
    let d = rejected res r in
    record {
      balance = ground (
        arith,
        length-insert id d st.store.dead,
        length-append st.removed (replaced_ref id st.store.dead),
        length-append st.added (dead_letter_ref d ∷ []),
      );
      still_IsMap = insert-IsMap id d st.store.dead v;
      quiet = λ e. cc;
    }

resolve_found-held :
    (res : DeliveryResult) (r : Record) (d : Disposition) (st st' : Resolving) (id : Text)
    → resolve_found res r d st ≡ ok st'
    → held id st.store ≡ true
    → (held id st'.store || (is_delivered d && res.output_id == id)) ≡ true
unfolding resolve_found dead_letter
resolve_found-held res r delivered st st' id h k =
    subst (λ t. (held id t.store || (res.output_id == id)) ≡ true) (ok-injective _ st' h)
      (ground (arith, lookup-erase res.output_id id st.store.records))
resolve_found-held res r permanent st st' id h k =
    subst (λ t. (held id t.store || false) ≡ true) (ok-injective _ st' h)
      (ground (
        arith,
        lookup-erase res.output_id id st.store.records,
        lookup-insert res.output_id id (rejected res r) st.store.dead,
      ))
resolve_found-held res r retryable st st' id h k =
    subst (λ t. (held id t.store || false) ≡ true) (ok-injective _ st' h)
      (ground (arith, lookup-insert res.output_id id (retried res r) st.store.records))
resolve_found-held res r (other_disposition x) st st' id h k = cc

resolve_found-Moved :
    (res : DeliveryResult) (r : Record) (d : Disposition) (st st' : Resolving)
    → resolve_found res r d st ≡ ok st'
    → IsMap st.store.dead
    → Moved st st'
unfolding resolve_found
resolve_found-Moved res r delivered st st' h v =
    subst (Moved st) (ok-injective _ st' h)
      (record { balance = refl; still_IsMap = v; quiet = λ e. (e, refl) })
resolve_found-Moved res r permanent st st' h v =
    subst (Moved st) (ok-injective _ st' h) (dead_letter-Moved res r st v)
resolve_found-Moved res r retryable st st' h v =
    subst (Moved st) (ok-injective _ st' h)
      (record { balance = refl; still_IsMap = v; quiet = λ e. (e, refl) })
resolve_found-Moved res r (other_disposition x) st st' h v = cc

-- One result leaves alone, moves, or refuses.
resolve_one-held :
    (res : DeliveryResult) (st st' : Resolving) (id : Text)
    → resolve_one res st ≡ ok st'
    → held id st.store ≡ true
    → (held id st'.store || (is_delivered res.disposition && res.output_id == id)) ≡ true
unfolding resolve_one
resolve_one-held res st st' id h k = elim (Option-cases (lookup res.output_id st.store.records)) [
  | inl e ↦
      let same : st ≡ st' = ok-injective st st' (rw (e, resolve_one) at h) in
      ground (arith, subst (λ t. held id t.store ≡ true) same k)
  | inr (r, e) ↦ resolve_found-held res r res.disposition st st' id (rw (e, resolve_one) at h) k
]

resolve_one-Moved :
    (res : DeliveryResult) (st st' : Resolving)
    → resolve_one res st ≡ ok st'
    → IsMap st.store.dead
    → Moved st st'
unfolding resolve_one
resolve_one-Moved res st st' h v = elim (Option-cases (lookup res.output_id st.store.records)) [
  | inl e ↦
      subst (Moved st) (ok-injective st st' (rw (e, resolve_one) at h))
        (record { balance = refl; still_IsMap = v; quiet = λ e. (e, refl) })
  | inr (r, e) ↦ resolve_found-Moved res r res.disposition st st' (rw (e, resolve_one) at h) v
]

pub resolve_results-held :
    (results : List DeliveryResult) (st st' : Resolving) (id : Text)
    → resolve_results results st ≡ ok st'
    → held id st.store ≡ true
    → (held id st'.store || delivered_in id results) ≡ true
unfolding resolve_results
resolve_results-held [] st st' id h k =
    ground (arith, subst (λ t. held id t.store ≡ true) (ok-injective st st' h) k)
resolve_results-held (res ∷ rest) st st' id h k =
    let (mid, first, then_rest) =
      >>=-eq-ok (resolve_one res st) (λ t. resolve_results rest t) st' h in
    elim (Bool-cases (held id mid.store)) [
      | inl e ↦ ground (arith, resolve_results-held rest mid st' id then_rest e)
      | inr e ↦ ground (arith, resolve_one-held res st mid id first k)
    ]

pub resolve_results-Moved :
    (results : List DeliveryResult) (st st' : Resolving)
    → resolve_results results st ≡ ok st'
    → IsMap st.store.dead
    → Moved st st'
unfolding resolve_results
resolve_results-Moved [] st st' h v =
    subst (Moved st) (ok-injective st st' h)
      (record { balance = refl; still_IsMap = v; quiet = λ e. (e, refl) })
resolve_results-Moved (res ∷ rest) st st' h v =
    let (mid, first, then_rest) =
      >>=-eq-ok (resolve_one res st) (λ t. resolve_results rest t) st' h in
    let a = resolve_one-Moved res st mid first v in
    let b = resolve_results-Moved rest mid st' then_rest a.still_IsMap in
    record {
      balance = omega (arith, a.balance, b.balance);
      still_IsMap = b.still_IsMap;
      quiet = λ e. let (c, same) = b.quiet e in let (c', same') = a.quiet c in (c', same ∙ same');
    }
