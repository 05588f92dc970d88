-- ===== src/Adapters/MemoryStore/DeadLetters/Trim.antt =====
-- `trimDeadLetters` of internal/adapters/state/memory/store.go: the limit holds afterwards, only the
-- oldest records go, and the counters say how many.
use flow_stitch.Base.{
  ℕ, zero, suc, ◌+◌, ◌≤◌, ◌<◌, ◌≡◌, refl, sym, ap, subst, ◌⊎◌, true, false, none, some, List, [],
  ◌∷◌, Text, text_eq, nat_eq, length, or_else, arith, All, Option-cases, Bool-cases, inl, inr,
}
use flow_stitch.Base.Int.{ℤ, pos, negsuc}
use flow_stitch.Base.Dict.{
  Dict, lookup, erase, IsMap, entry-lookup, All-lookup, length-erase, lookup-erase, erase-IsMap,
}
use flow_stitch.Domain.Instant.{before}
use flow_stitch.Domain.Outbox.{Record, zero_record}
use flow_stitch.Adapters.MemoryStore.State.{Store}
use flow_stitch.Adapters.MemoryStore.DeadLetters.{
  older, next_oldest, oldest_of, over_limit, drop_oldest, trim, trim_dead_letters,
}

-- `oldest` names a record of the map that no record of a list comes before in time.
abbrev Candidate : Dict Text Record → Text → Record → Dict Text Record → Type 0
Candidate dead o c seen =
    (lookup o dead ≡ some c) × All (λ e. before e.1.created_at c.created_at ≡ false) seen

next_oldest-found :
    (dead : Dict Text Record) (o id : Text) (r c : Record)
    → lookup id dead ≡ some r
    → lookup o dead ≡ some c
    → (c' : Record) × (lookup (next_oldest dead o id r) dead ≡ some c')
      × (before r.created_at c'.created_at ≡ false)
      × (before c.created_at c'.created_at ≡ false)
unfolding next_oldest older
next_oldest-found dead o id r c h g = elim (Bool-cases (older r id c o)) [
  | inl e ↦ rw (next_oldest, g, e) (r, h, ground arith, ground arith)
  | inr e ↦ rw (next_oldest, g, e) (c, g, ground arith, ground arith)
]

next_oldest-absent :
    (dead : Dict Text Record) (o id : Text) (r : Record)
    → lookup o dead ≡ none
    → next_oldest dead o id r ≡ id
unfolding next_oldest
next_oldest-absent dead o id r h = rw (h, next_oldest) refl

oldest_of-found :
    (dead : Dict Text Record) (o : Text) (c : Record) (rest : Dict Text Record)
    → lookup o dead ≡ some c
    → All (λ e. lookup e.0 dead ≡ some e.1) rest
    → (c' : Record) × (before c.created_at c'.created_at ≡ false)
      × Candidate dead (oldest_of dead o rest) c' rest
unfolding oldest_of
oldest_of-found dead o c [] g a = (c, ground arith, (g, tt))
oldest_of-found dead o c ((id, r) ∷ rest) g a =
    let (c1, g1, r1, o1) = next_oldest-found dead o id r c a.0 g in
    let (c2, o2, found) = oldest_of-found dead (next_oldest dead o id r) c1 rest g1 a.1 in
    (c2, ground arith, (found.0, (ground arith, found.1)))

-- Of a map that is not empty the loop finds a record that none comes before.
oldest_of-IsOldest :
    (dead : Dict Text Record)
    → IsMap dead
    → 0 < length dead
    → (c : Record) × Candidate dead (oldest_of dead [] dead) c dead
unfolding oldest_of
oldest_of-IsOldest [] v h = absurd (omega arith)
oldest_of-IsOldest ((id, r) ∷ rest) v h =
    let dead = (id, r) ∷ rest in
    let entries = entry-lookup dead v in
    elim (Option-cases (lookup [] dead)) [
      | inl e ↦
          let (c, o, found) = oldest_of-found dead id r rest entries.0 entries.1 in
          (
            c,
            subst (λ t. Candidate dead (oldest_of dead t rest) c dead)
                (sym (next_oldest-absent dead [] id r e)) (found.0, (o, found.1)),
          )
      | inr (c0, e) ↦ let (c, o, found) = oldest_of-found dead [] c0 dead e entries in (c, found)
    ]

-- One round: a record that none comes before leaves, and is counted.
pub drop_oldest-lem :
    (s : Store)
    → IsMap s.dead
    → 0 < length s.dead
    → (id : Text) × (lookup id s.dead ≡ some (drop_oldest s).1)
      × ((drop_oldest s).0 ≡ record s { dead = erase id s.dead; dropped = s.dropped + 1 })
      × (length s.dead ≡ length (erase id s.dead) + 1)
      × All (λ e. before e.1.created_at (drop_oldest s).1.created_at ≡ false) s.dead
unfolding drop_oldest
drop_oldest-lem s v h =
    let id = oldest_of s.dead [] s.dead in
    let (c, found) = oldest_of-IsOldest s.dead v h in
    let g = found.0 in
    let is_c : or_else (lookup id s.dead) zero_record ≡ c = rw g refl in
    (
      id,
      rw (g) refl,
      refl,
      ground (arith, g, length-erase id s.dead v),
      subst (λ x. All (λ e. before e.1.created_at x.created_at ≡ false) s.dead) (sym is_c) found.1,
    )

-- What the loop has done: the store before, the store after and the dropped records.
pub record Trimmed (s t : Store) (ds : List Record) : Type 0 where
  pub within : over_limit s.max_dlq (length t.dead) ≡ false
  pub needed : (ds ≡ []) ⊎ (over_limit s.max_dlq (length t.dead + 1) ≡ true)
  pub unchanged : ds ≡ [] → t ≡ s
  pub counted : t.dropped ≡ s.dropped + length ds
  pub balance : length t.dead + length ds ≡ length s.dead
  pub kept : (id : Text) (r : Record) → lookup id t.dead ≡ some r → lookup id s.dead ≡ some r
  pub oldest :
      (id : Text) (r : Record)
      → lookup id t.dead ≡ some r
      → All (λ d. before r.created_at d.created_at ≡ false) ds
  pub frame : t ≡ record s { dead = t.dead; dropped = t.dropped }
  pub still_IsMap : IsMap t.dead

over_limit-positive : (m : ℤ) (n : ℕ) → over_limit m n ≡ true → 0 < n
unfolding over_limit
over_limit-positive (pos m) n h = ground arith
over_limit-positive (negsuc m) n h = cc

over_limit-zero : (m : ℤ) → over_limit m 0 ≡ false
unfolding over_limit
over_limit-zero (pos m) = ground arith
over_limit-zero (negsuc m) = refl

nothing_dropped :
    (s : Store) → IsMap s.dead → over_limit s.max_dlq (length s.dead) ≡ false → Trimmed s s []
nothing_dropped s v h = record {
  within = h;
  needed = inl refl;
  unchanged = λ e. refl;
  counted = omega arith;
  balance = omega arith;
  kept = λ id r g. g;
  oldest = λ id r g. tt;
  frame = refl;
  still_IsMap = v;
}

one_more :
    (s t : Store) (ds : List Record) (d : Record) (id : Text)
    → over_limit s.max_dlq (length s.dead) ≡ true
    → length s.dead ≡ length (erase id s.dead) + 1
    → All (λ e. before e.1.created_at d.created_at ≡ false) s.dead
    → Trimmed (record s { dead = erase id s.dead; dropped = s.dropped + 1 }) t ds
    → Trimmed s t (d ∷ ds)
one_more s t ds d id over len a w = record {
  within = w.within;
  needed = elim w.needed [
    | inl e ↦
        let n : length s.dead ≡ length t.dead + 1 = omega (arith, w.balance, ap length e) in
        inr (subst (λ n. over_limit s.max_dlq n ≡ true) n over)
    | inr e ↦ inr e
  ];
  unchanged = λ e. cc;
  counted = omega (arith, w.counted);
  balance = omega (arith, w.balance);
  kept = before_erase;
  oldest = λ j r g. (
    All-lookup (λ x. before x.created_at d.created_at ≡ false) j r s.dead (before_erase j r g) a,
    w.oldest j r g,
  );
  frame = w.frame;
  still_IsMap = w.still_IsMap;
}
  where
    before_erase : (j : Text) (r : Record) → lookup j t.dead ≡ some r → lookup j s.dead ≡ some r
    before_erase j r g = ground (arith, w.kept j r g, lookup-erase id j s.dead)

dropping :
    (fuel : ℕ) (s : Store)
    → IsMap s.dead
    → length s.dead ≤ suc fuel
    → over_limit s.max_dlq (length s.dead) ≡ true
    → ((t : Store)
        → IsMap t.dead
        → length t.dead ≤ fuel
        → Trimmed t (trim fuel t).0 (trim fuel t).1)
    → Trimmed s
        (trim fuel (drop_oldest s).0).0
        ((drop_oldest s).1 ∷ (trim fuel (drop_oldest s).0).1)
dropping fuel s v h e rest =
    let (id, g, fr, len, a) =
      drop_oldest-lem s v (over_limit-positive s.max_dlq (length s.dead) e) in
    let t = (drop_oldest s).0 in
    let ih =
      rest t (subst (λ q. IsMap q.dead) (sym fr) (erase-IsMap id s.dead v))
        (subst (λ q. length q.dead ≤ fuel) (sym fr) (omega (arith, len))) in
    one_more s (trim fuel t).0 (trim fuel t).1 (drop_oldest s).1 id e len a
      (subst (λ q. Trimmed q (trim fuel t).0 (trim fuel t).1) fr ih)

trim-Trimmed :
    (fuel : ℕ) (s : Store)
    → IsMap s.dead
    → length s.dead ≤ fuel
    → Trimmed s (trim fuel s).0 (trim fuel s).1
unfolding trim
trim-Trimmed zero s v h =
    let n : 0 ≡ length s.dead = omega arith in
    nothing_dropped s v (subst (λ n. over_limit s.max_dlq n ≡ false) n (over_limit-zero s.max_dlq))
trim-Trimmed (suc fuel) s v h = elim (Bool-cases (over_limit s.max_dlq (length s.dead))) [
  | inr e ↦ rw (e, trim) (nothing_dropped s v e)
  | inl e ↦ rw (e, trim) (dropping fuel s v h e (trim-Trimmed fuel))
]

pub trim_dead_letters-Trimmed :
    (s : Store) → IsMap s.dead → Trimmed s (trim_dead_letters s).0 (trim_dead_letters s).1
unfolding trim_dead_letters
trim_dead_letters-Trimmed s v = trim-Trimmed (length s.dead) s v (omega arith)

-- `trimDeadLetters` stops within the limit, drops no more than that takes, and counts what it
-- drops, from a store whose dead letters are a map.
pub trim_dead_letters-within :
    (s : Store)
    → IsMap s.dead
    → (over_limit s.max_dlq (length (trim_dead_letters s).0.dead) ≡ false)
      × (((trim_dead_letters s).1 ≡ [])
          ⊎ (over_limit s.max_dlq (length (trim_dead_letters s).0.dead + 1) ≡ true))
      × ((trim_dead_letters s).0.dropped ≡ s.dropped + length (trim_dead_letters s).1)
      × (length (trim_dead_letters s).0.dead + length (trim_dead_letters s).1 ≡ length s.dead)
trim_dead_letters-within s v =
    let w = trim_dead_letters-Trimmed s v in (w.within, w.needed, w.counted, w.balance)

-- A dead letter that `trimDeadLetters` retains was there before, unchanged, and was not created
-- before any record that it drops, from a store whose dead letters are a map.
pub trim_dead_letters-oldest :
    (s : Store) (id : Text) (r : Record)
    → IsMap s.dead
    → lookup id (trim_dead_letters s).0.dead ≡ some r
    → (lookup id s.dead ≡ some r)
      × All (λ d. before r.created_at d.created_at ≡ false) (trim_dead_letters s).1
trim_dead_letters-oldest s id r v h =
    let w = trim_dead_letters-Trimmed s v in (w.kept id r h, w.oldest id r h)
