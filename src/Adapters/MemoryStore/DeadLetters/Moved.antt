-- ===== src/Adapters/MemoryStore/DeadLetters/Moved.antt =====
-- `ReplayDeadLetters` of internal/adapters/state/memory/store.go: what becomes of the records that
-- it selects, and of the others.
use flow_stitch.Base.{◌≡◌, Bool, true, false, ◌||◌, ◌==◌, some, none, List, [], ◌∷◌, Text, text_eq}
use flow_stitch.Base.Dict.{lookup}
use flow_stitch.Domain.Instant.{Instant}
use flow_stitch.Domain.Outbox.{Record, ready}
use flow_stitch.Adapters.MemoryStore.State.{Store}

unfoldable pub is_listed : Text → List Text → Bool
is_listed id [] = false
is_listed id (j ∷ ids) = j == id || is_listed id ids

-- No dead letter any more, but a record of the outbox that is ready for its first attempt.
abbrev pub Moved : Instant → Text → Store → Type 0
Moved now id s =
    (lookup id s.dead ≡ none)
    × (r : Record) × (lookup id s.records ≡ some r)
    × (ready r now ≡ true)
    × (r.attempts ≡ 0)

abbrev pub Untouched : Text → Store → Store → Type 0
Untouched id s s' =
    (lookup id s'.dead ≡ lookup id s.dead) × (lookup id s'.records ≡ lookup id s.records)

-- What becomes of a record, by whether it is selected.
unfoldable pub Fate : Bool → Instant → Text → Store → Store → Type 0
Fate true now id s s' = Moved now id s'
Fate false now id s s' = Untouched id s s'
