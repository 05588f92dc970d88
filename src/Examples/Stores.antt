-- ===== src/Examples/Stores.antt =====
-- The memory store.
use flow_stitch.Base.{
  ℕ, ◌+◌, ◌≡◌, ◌⊎◌, refl, Bool, true, false, ◌||◌, Option, none, some, List, [], ◌∷◌, Text, codes,
  text_eq, Result, ok, err, length, All,
}
use flow_stitch.Base.Dict.{Dict, lookup, IsMap}
use flow_stitch.Domain.Instant.{before}
use flow_stitch.Domain.Outbox.{delivered, permanent, DeliveryResult}
use flow_stitch.Application.Ports.{DeadLetterChange, no_change}
use flow_stitch.Adapters.MemoryStore.State.{Store}
use flow_stitch.Adapters.MemoryStore.DeadLetters.{resolve_outbox, over_limit, trim_dead_letters}
use flow_stitch.Adapters.MemoryStore.DeadLetters.Trim.{
  trim_dead_letters-within, trim_dead_letters-oldest,
}
use flow_stitch.Adapters.MemoryStore.DeadLetters.Results.{held}
use flow_stitch.Adapters.MemoryStore.DeadLetters.Resolve.{
  resolve_outbox-balance, resolve_outbox-within,
}
use flow_stitch.Examples.Data.{small_store, roomy_store, verdict, waiting}

abbrev results : List DeliveryResult
results = verdict (codes "a") permanent ∷ verdict (codes "b") delivered ∷ []

-- What the results make of a store.
abbrev after : Store → Store × DeadLetterChange
after s = elim (resolve_outbox results s) [ ok p ↦ p | err e ↦ (s, no_change) ]

small_resolved :
    resolve_outbox results small_store ≡ ok ((after small_store).0, (after small_store).1)
unfolding resolve_outbox flow_stitch.Adapters.MemoryStore.DeadLetters.resolve_results
    flow_stitch.Adapters.MemoryStore.DeadLetters.resolve_one lookup flow_stitch.Base.text_beq
    flow_stitch.Adapters.MemoryStore.DeadLetters.resolve_found
    flow_stitch.Adapters.MemoryStore.DeadLetters.dead_letter flow_stitch.Base.Dict.erase
small_resolved = refl

roomy_resolved :
    resolve_outbox results roomy_store ≡ ok ((after roomy_store).0, (after roomy_store).1)
unfolding resolve_outbox flow_stitch.Adapters.MemoryStore.DeadLetters.resolve_results
    flow_stitch.Adapters.MemoryStore.DeadLetters.resolve_one lookup flow_stitch.Base.text_beq
    flow_stitch.Adapters.MemoryStore.DeadLetters.resolve_found
    flow_stitch.Adapters.MemoryStore.DeadLetters.dead_letter flow_stitch.Base.Dict.erase
roomy_resolved = refl

small_store-IsMap : IsMap small_store.dead
unfolding lookup
small_store-IsMap = (refl, tt)

resolve_outbox-balance_example :
    length (after small_store).0.dead + length (after small_store).1.removed
    ≡ length small_store.dead + length (after small_store).1.added
resolve_outbox-balance_example =
    resolve_outbox-balance results small_store (after small_store).0 (after small_store).1
      small_store-IsMap small_resolved

small_changed : (after small_store).1.changed ≡ true
unfolding resolve_outbox flow_stitch.Adapters.MemoryStore.DeadLetters.resolve_results
    flow_stitch.Adapters.MemoryStore.DeadLetters.resolve_one lookup flow_stitch.Base.text_beq
    flow_stitch.Adapters.MemoryStore.DeadLetters.resolve_found
    flow_stitch.Adapters.MemoryStore.DeadLetters.dead_letter flow_stitch.Base.Dict.erase
    flow_stitch.Adapters.MemoryStore.DeadLetters.finish_resolve
    flow_stitch.Adapters.MemoryStore.DeadLetters.report_trimmed
small_changed = refl

resolve_outbox-within_example :
    ((after small_store).1.records ≡ length (after small_store).0.dead)
    × (over_limit (after small_store).0.max_dlq (length (after small_store).0.dead) ≡ false)
resolve_outbox-within_example =
    resolve_outbox-within results small_store (after small_store).0 (after small_store).1
      small_store-IsMap small_resolved small_changed

roomy_kept : (after roomy_store).1.dropped ≡ 0
unfolding resolve_outbox flow_stitch.Adapters.MemoryStore.DeadLetters.resolve_results
    flow_stitch.Adapters.MemoryStore.DeadLetters.resolve_one lookup flow_stitch.Base.text_beq
    flow_stitch.Adapters.MemoryStore.DeadLetters.resolve_found
    flow_stitch.Adapters.MemoryStore.DeadLetters.dead_letter flow_stitch.Base.Dict.erase
    flow_stitch.Adapters.MemoryStore.DeadLetters.finish_resolve
    flow_stitch.Adapters.MemoryStore.DeadLetters.report_trimmed trim_dead_letters
    flow_stitch.Adapters.MemoryStore.DeadLetters.trim flow_stitch.Base.Dict.insert over_limit
roomy_kept = refl

a_held : held (codes "a") roomy_store ≡ true
unfolding lookup flow_stitch.Base.text_beq
a_held = refl

-- Two dead letters where one is allowed.
abbrev crowded : Store
crowded = record small_store {
  dead = (codes "c", waiting (codes "c") 1) ∷ (codes "d", waiting (codes "d") 2) ∷ [];
}

crowded-IsMap : IsMap crowded.dead
unfolding lookup flow_stitch.Base.text_beq
crowded-IsMap = (refl, (refl, tt))

trim_dead_letters-within_example :
    (over_limit crowded.max_dlq (length (trim_dead_letters crowded).0.dead) ≡ false)
    × (((trim_dead_letters crowded).1 ≡ [])
        ⊎ (over_limit crowded.max_dlq (length (trim_dead_letters crowded).0.dead + 1) ≡ true))
    × ((trim_dead_letters crowded).0.dropped
        ≡ crowded.dropped + length (trim_dead_letters crowded).1)
    × (length (trim_dead_letters crowded).0.dead + length (trim_dead_letters crowded).1
        ≡ length crowded.dead)
trim_dead_letters-within_example = trim_dead_letters-within crowded crowded-IsMap

d_stays : lookup (codes "d") (trim_dead_letters crowded).0.dead ≡ some (waiting (codes "d") 2)
unfolding trim_dead_letters lookup flow_stitch.Adapters.MemoryStore.DeadLetters.trim over_limit
    flow_stitch.Adapters.MemoryStore.DeadLetters.drop_oldest flow_stitch.Base.Dict.erase
    flow_stitch.Base.text_beq flow_stitch.Adapters.MemoryStore.DeadLetters.oldest_of
    flow_stitch.Adapters.MemoryStore.DeadLetters.next_oldest
    flow_stitch.Adapters.MemoryStore.DeadLetters.older
d_stays = refl

trim_dead_letters-oldest_example :
    (lookup (codes "d") crowded.dead ≡ some (waiting (codes "d") 2))
    × All (λ d. before 2 d.created_at ≡ false) (trim_dead_letters crowded).1
trim_dead_letters-oldest_example =
    trim_dead_letters-oldest crowded (codes "d") (waiting (codes "d") 2) crowded-IsMap d_stays

c_held : held (codes "c") small_store ≡ true
unfolding lookup flow_stitch.Base.text_beq
c_held = refl
