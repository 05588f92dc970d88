-- ===== src/Adapters/MemoryStore/Summary.antt =====
-- What the counts of internal/adapters/state/memory/store.go add up to.
use flow_stitch.Base.{
  ℕ, ◌+◌, ◌≡◌, sym, ap, subst, ok-injective, false, [], ◌∷◌, Text, text_eq, Comparable, arith,
  length, or_else, ok,
}
use flow_stitch.Base.Dict.{Dict, lookup, insert}
use flow_stitch.Domain.Outbox.{Record, DeadLetterSummary}
use flow_stitch.Adapters.MemoryStore.State.{Store}
use flow_stitch.Adapters.MemoryStore.Reads.{increment, count_by, dead_letters}

abbrev pub total {ℓ} : {K : Type ℓ} → Dict K ℕ → ℕ
total [] = 0
total ((k, n) ∷ m) = n + total m

total-insert {ℓ} :
    {K : Type ℓ} ⦃e : Comparable K⦄ (k : K) (n : ℕ) (m : Dict K ℕ)
    → total (insert k n m) + or_else (lookup k m) 0 ≡ total m + n
unfolding insert lookup
total-insert k n [] = omega arith
total-insert k n ((j, v) ∷ m) = ground (arith, total-insert k n m)

total-increment {ℓ} :
    {K : Type ℓ} ⦃e : Comparable K⦄ (k : K) (m : Dict K ℕ) → total (increment k m) ≡ total m + 1
unfolding increment
total-increment k m = omega (arith, total-insert k (or_else (lookup k m) 0 + 1) m)

total-count_by :
    (field : Record → Text) (m : Dict Text Record) (counts : Dict Text ℕ)
    → total (count_by field m counts) ≡ total counts + length m
unfolding count_by
total-count_by field [] counts = omega arith
total-count_by field ((id, r) ∷ m) counts =
    omega
      (arith, total-count_by field m (increment (field r) counts), total-increment (field r) counts)

-- A summary of the dead letters that is not cancelled counts each record under one reason and
-- under one index.
pub dead_letters-total :
    (s : Store) (summary : DeadLetterSummary)
    → dead_letters false s ≡ ok summary
    → (summary.records ≡ length s.dead)
      × (total summary.reasons ≡ summary.records)
      × (total summary.indices ≡ summary.records)
unfolding dead_letters
dead_letters-total s summary h =
    let e = ok-injective _ summary h in
    (
      sym (ap (λ x. x.records) e),
      subst (λ x. total x.reasons ≡ x.records) e
          (omega (arith, total-count_by (λ r. r.rejection_type) s.dead [])),
      subst (λ x. total x.indices ≡ x.records) e
          (omega (arith, total-count_by (λ r. r.index) s.dead [])),
    )
