-- ===== src/Adapters/MemoryStore/DeadLetters/Replay.antt =====
-- `ReplayDeadLetters` of internal/adapters/state/memory/store.go: records go back to the outbox.
use flow_stitch.Base.{◌≡◌, true, List, [], ◌∷◌, Text, text_eq, text_beq_iff, arith}
use flow_stitch.Base.Dict.{lookup-insert, lookup-erase}
use flow_stitch.Domain.Instant.{Instant}
use flow_stitch.Domain.Outbox.{DeadLetterFilter}
use flow_stitch.Adapters.MemoryStore.State.{Store, dead_at}
use flow_stitch.Adapters.MemoryStore.DeadLetters.{
  replayed, replay_one, replay_ids, replay_selection, replay_dead_letters,
}
use flow_stitch.Adapters.MemoryStore.DeadLetters.Results.{held}

replay_one-held :
    (now : Instant) (j id : Text) (s : Store)
    → held id s ≡ true
    → held id (replay_one now j s) ≡ true
unfolding replay_one
replay_one-held now j id s h = ground (
  arith,
  lookup-insert j id (replayed now (dead_at s j)) s.records,
  lookup-erase j id s.dead,
  text_beq_iff j id,
)

replay_ids-held :
    (now : Instant) (ids : List Text) (id : Text) (s : Store)
    → held id s ≡ true
    → held id (replay_ids now ids s).0 ≡ true
unfolding replay_ids
replay_ids-held now [] id s h = h
replay_ids-held now (j ∷ ids) id s h =
    replay_ids-held now ids id (replay_one now j s) (replay_one-held now j id s h)

-- Whatever is replayed, a record that is in the outbox or among the dead letters is still in one
-- of them after `ReplayDeadLetters`.
pub replay_dead_letters-held :
    (filter : DeadLetterFilter) (now : Instant) (id : Text) (s : Store)
    → held id s ≡ true
    → held id (replay_dead_letters filter now s).0 ≡ true
unfolding replay_dead_letters
replay_dead_letters-held filter now id s h = replay_ids-held now (replay_selection filter s) id s h
