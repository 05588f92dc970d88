-- ===== src/Adapters/PebbleStore/Flows/Candidates.antt =====
-- The candidates of `DueFlows` in internal/adapters/state/pebble/store.go, entry by entry.
use flow_stitch.Base.{
  ◌≡◌, refl, ap, ◌∙◌, Bool, true, false, ◌&&◌, ◌||◌, not, Option, none, some, List, [], ◌∷◌, map,
  Text, text_eq, ◌==◌, arith, ok, err,
}
use flow_stitch.Base.Sort.{sort_by, insert_sorted}
use flow_stitch.Domain.Instant.{Instant, after}
use flow_stitch.Domain.Flow.Defs.{Flow, FlowKey, key_eq, key_beq, key_beq_iff}
use flow_stitch.Domain.Flow.Codec.{Json}
use flow_stitch.Adapters.PebbleStore.Flows.{Candidate, candidate_less, candidate_of, decode_flow}

-- The stored flow has its own key and its deadline has passed; its deadline is still to come.
unfoldable pub is_due : Json → Instant → FlowKey → Option Text → Bool
is_due json now k none = false
is_due json now k (some raw) = elim (decode_flow json raw) [
  | err e ↦ false
  | ok f ↦ f.key == k && not (after f.expires_at now)
]

unfoldable pub is_later : Json → Instant → Option Text → Bool
is_later json now none = false
is_later json now (some raw) = elim (decode_flow json raw) [
  | err e ↦ false
  | ok f ↦ after f.expires_at now
]

unfoldable pub is_listed : FlowKey → List FlowKey → Bool
is_listed k [] = false
is_listed k (j ∷ js) = key_beq j k || is_listed k js

unfoldable pub is_candidate : FlowKey → List Candidate → Bool
is_candidate k [] = false
is_candidate k (c ∷ cs) = key_beq c.key k || is_candidate k cs

pub insert_sorted-candidate :
    (k : FlowKey) (c : Candidate) (cs : List Candidate)
    → is_candidate k (insert_sorted candidate_less c cs) ≡ (key_beq c.key k || is_candidate k cs)
unfolding is_candidate insert_sorted
insert_sorted-candidate k c [] = refl
insert_sorted-candidate k c (d ∷ ds) = ground (arith, insert_sorted-candidate k c ds)

pub sort_by-candidate :
    (k : FlowKey) (cs : List Candidate)
    → is_candidate k (sort_by candidate_less cs) ≡ is_candidate k cs
unfolding is_candidate sort_by
sort_by-candidate k [] = refl
sort_by-candidate k (c ∷ cs) =
    insert_sorted-candidate k c (sort_by candidate_less cs)
    ∙ ap (λ b. key_beq c.key k || b) (sort_by-candidate k cs)

pub is_listed-candidate :
    (k : FlowKey) (cs : List Candidate) → is_listed k (map (λ c. c.key) cs) ≡ is_candidate k cs
unfolding is_listed is_candidate
is_listed-candidate k [] = refl
is_listed-candidate k (c ∷ cs) = ap (λ b. key_beq c.key k || b) (is_listed-candidate k cs)

-- A candidate adds its own key, unless the flow found is not due.
pub candidate_of-kept :
    (now : Instant) (raw : Text) (j k : FlowKey) (o : Option Flow) (cs : List Candidate)
    → is_candidate k cs ≡ true
    → is_candidate k (candidate_of now raw j o cs) ≡ true
unfolding candidate_of is_candidate
candidate_of-kept now raw j k none cs h = ground arith
candidate_of-kept now raw j k (some f) cs h = ground arith

pub candidate_of-other :
    (now : Instant) (raw : Text) (j k : FlowKey) (o : Option Flow) (cs : List Candidate)
    → key_beq j k ≡ false
    → is_candidate k (candidate_of now raw j o cs) ≡ is_candidate k cs
unfolding candidate_of is_candidate
candidate_of-other now raw j k none cs h = ground arith
candidate_of-other now raw j k (some f) cs h = ground arith

pub candidate_of-due :
    (now : Instant) (raw : Text) (k : FlowKey) (f : Flow) (cs : List Candidate)
    → after f.expires_at now ≡ false
    → is_candidate k (candidate_of now raw k (some f) cs) ≡ true
unfolding candidate_of is_candidate
candidate_of-due now raw k f cs h = ground (arith, (key_beq_iff k k).1 refl)

pub candidate_of-later :
    (now : Instant) (raw : Text) (k : FlowKey) (f : Flow) (cs : List Candidate)
    → after f.expires_at now ≡ true
    → candidate_of now raw k (some f) cs ≡ cs
unfolding candidate_of
candidate_of-later now raw k f cs h = ground arith

pub later_lem :
    (json : Json) (now : Instant) (raw : Text) (f : Flow)
    → decode_flow json raw ≡ ok f
    → is_later json now (some raw) ≡ after f.expires_at now
unfolding is_later
later_lem json now raw f d = rw (d, is_later) refl

pub due_lem :
    (json : Json) (now : Instant) (k : FlowKey) (raw : Text) (f : Flow)
    → decode_flow json raw ≡ ok f
    → is_due json now k (some raw) ≡ (key_beq f.key k && not (after f.expires_at now))
unfolding is_due
due_lem json now k raw f d = rw (d, is_due) refl
