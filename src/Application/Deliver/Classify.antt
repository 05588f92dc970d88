-- ===== src/Application/Deliver/Classify.antt =====
-- internal/application/deliver/service.go: every record of a batch gets one verdict, and a verdict is
-- final, in the future or a success.
use mathlib.Core.Option.{some-injective}
use mathlib.Core.Path.{ap₂}
use flow_stitch.Base.{
  ℕ, ◌≡◌, ◌≢◌, ◌≤◌, refl, sym, subst, ◌∙◌, true, false, ◌||◌, Option, some, List, [], ◌∷◌, map,
  Text, text_eq, text_beq_iff, ◌==◌, is_nil, if◌then◌else◌, or_else, arith, ◌⊎◌, Option-cases,
  Bool-cases, inl, inr,
}
use flow_stitch.Base.Dict.{Dict, lookup, insert, lookup-insert}
use flow_stitch.Domain.Instant.{Instant, Duration, add}
use flow_stitch.Domain.Outbox.{Record, DeliveryResult}
use flow_stitch.Application.Deliver.{
  results_by_id, missing_result, complete_from, complete_results, is_permanent, is_retryable,
}

-- Results are filed under their own IDs.
abbrev Filed : Dict Text DeliveryResult → Type 0
Filed m = (id : Text) (r : DeliveryResult) → lookup id m ≡ some r → r.output_id ≡ id

insert-Filed :
    (r : DeliveryResult) (m : Dict Text DeliveryResult) → Filed m → Filed (insert r.output_id r m)
insert-Filed r m f id x h =
    let found : (if r.output_id == id then some r else lookup id m) ≡ some x =
      sym (lookup-insert r.output_id id r m) ∙ h in
    elim (Bool-cases (r.output_id == id)) [
      | inl e ↦
          let same : r ≡ x = some-injective r x (rw e at found) in
          subst (λ y. y.output_id ≡ id) same (ground (arith, e, text_beq_iff r.output_id id))
      | inr e ↦ f id x (rw e at found)
    ]

missing : (id : Text) (r : DeliveryResult) → lookup id [] ≢ some r
unfolding lookup
missing id r h = cc

results_by_id-Filed :
    (rs : List DeliveryResult) (m : Dict Text DeliveryResult) → Filed m → Filed (results_by_id rs m)
unfolding results_by_id
results_by_id-Filed [] m f = f
results_by_id-Filed (r ∷ rs) m f =
    results_by_id-Filed rs (insert r.output_id r m) (insert-Filed r m f)

answer-output_id :
    (m : Dict Text DeliveryResult) (sink_error : Option Text) (r : Record)
    → Filed m
    → (or_else (lookup r.output_id m) (missing_result sink_error r)).output_id ≡ r.output_id
unfolding missing_result
answer-output_id m sink_error r f = elim (Option-cases (lookup r.output_id m)) [
  | inl e ↦ rw e refl
  | inr (x, e) ↦ rw e (f r.output_id x e)
]

complete_from-output_ids :
    (m : Dict Text DeliveryResult) (sink_error : Option Text) (rs : List Record)
    → Filed m
    → map (λ r. r.output_id) (complete_from m sink_error rs) ≡ map (λ r. r.output_id) rs
unfolding complete_from
complete_from-output_ids m sink_error [] f = refl
complete_from-output_ids m sink_error (r ∷ rs) f =
    ap₂ (λ x xs. x ∷ xs) (answer-output_id m sink_error r f)
      (complete_from-output_ids m sink_error rs f)

-- Whatever the sink answers, each record of the batch gets exactly one result, in the batch's order.
pub complete_results-output_ids :
    (records : List Record) (answers : List DeliveryResult) (sink_error : Option Text)
    → map (λ r. r.output_id) (complete_results records answers sink_error)
      ≡ map (λ r. r.output_id) records
unfolding complete_results
complete_results-output_ids records answers sink_error =
    complete_from-output_ids (results_by_id answers []) sink_error records
      (results_by_id-Filed answers [] nothing_filed)
  where
    nothing_filed : Filed []
    nothing_filed id r h = absurd (missing id r h)

-- What a result `c` of the result `r` is: a retry within the limit, permanent with a reason, or
-- what the sink said.
abbrev pub Judged :
    (Text → ℕ → Duration) → ℕ → Instant → ℕ → DeliveryResult → DeliveryResult → Type 0
Judged backoff max_retries now attempt r c =
    (c.attempts ≡ attempt)
    × (((is_retryable c.disposition ≡ true)
          × (attempt ≤ max_retries)
          × (c.next_attempt_at ≡ add now (backoff r.output_id attempt)))
        ⊎ ((is_permanent c.disposition ≡ true)
            × (is_nil c.rejection_type ≡ false)
            × (c.dead_lettered_at ≡ now))
        ⊎ ((c.disposition ≡ r.disposition)
            × ((is_retryable r.disposition || is_permanent r.disposition) ≡ false)))
