-- ===== src/Adapters/Registry/Pinned.antt =====
-- internal/adapters/rules/registry.go: a version that an open flow pins stays available through
-- reloads and releases, and references are counted exactly.
use mathlib.Core.Option.{some-injective}
use flow_stitch.Base.{
  ℕ, ◌+◌, ◌-◌, ◌≡◌, refl, sym, subst, true, ◌||◌, not, Option, none, some, List, [], ◌∷◌, text_eq,
  text_beq_iff, ◌==◌, if◌then◌else◌, ltb, is_some, arith, Bool-cases, Option-cases, inl, inr,
}
use flow_stitch.Base.Dict.{Dict, lookup, insert, lookup-insert, lookup-erase}
use flow_stitch.Domain.Event.{Event}
use flow_stitch.Domain.Rule.{Rule, Reference, reference_eq, reference_beq, reference_beq_iff}
use flow_stitch.Adapters.Registry.{
  Registry, reference_of, opens, still_open, add_versions, next_snapshot, new_registry, publish,
  first_match, retain, match_and_retain, is_current, release, get,
}

-- Which rule of a published list a reference names: the last, as later ones overwrite.
abbrev pub configured : Reference → List Rule → Option Rule → Option Rule
configured k [] old = old
configured k (r ∷ rs) old = configured k rs (if reference_of r == k then some r else old)

lookup-add_versions :
    (k : Reference) (rs : List Rule) (m : Dict Reference Rule)
    → lookup k (add_versions rs m) ≡ configured k rs (lookup k m)
unfolding add_versions
lookup-add_versions k [] m = refl
lookup-add_versions k (r ∷ rs) m =
    subst (λ o. lookup k (add_versions rs (insert (reference_of r) r m)) ≡ configured k rs o)
      (lookup-insert (reference_of r) k r m)
      (lookup-add_versions k rs (insert (reference_of r) r m))

lookup-still_open :
    (k : Reference) (open_count : Dict Reference ℕ) (m : Dict Reference Rule)
    → lookup k (still_open open_count m) ≡ (if ltb 0 (opens k open_count) then lookup k m else none)
unfolding still_open lookup
lookup-still_open k open_count [] = ground arith
lookup-still_open k open_count ((j, r) ∷ m) = ground (
  arith,
  lookup-still_open k open_count m,
  lookup-insert j k r (still_open open_count m),
  reference_beq_iff j k,
)

-- After a reload a reference resolves to the rule that the new list gives it, or else, while a flow
-- that pins it is open, to the rule it resolved to before, and otherwise to none.
pub get-publish :
    (k : Reference) (rs : List Rule) (r : Registry)
    → get k (publish rs r)
      ≡ configured k rs (if ltb 0 (opens k r.open_count) then get k r else none)
unfolding publish get next_snapshot
get-publish k rs r =
    subst
      (λ o.
        lookup k (add_versions rs (still_open r.open_count r.snapshot.versions))
        ≡ configured k rs o)
      (lookup-still_open k r.open_count r.snapshot.versions)
      (lookup-add_versions k rs (still_open r.open_count r.snapshot.versions))

-- Every pinned reference, and every current rule's, resolves.
pub record IsConsistent (r : Registry) : Type 0 where
  pub pinned : (k : Reference) → (not (ltb 0 (opens k r.open_count)) || is_some (get k r)) ≡ true
  pub current :
      (k : Reference) → (not (is_current k r.snapshot.ordered) || is_some (get k r)) ≡ true

-- The registry's life from `NewRegistry` on. (`SeedOpenFlows` may count references whose version
-- is no longer configured; the flows then use the rule they carry.)
pub data Reached : Registry → Type 0 where
  created : (rs : List Rule) → Reached (new_registry rs)
  published : {r : Registry} (rs : List Rule) → Reached r → Reached (publish rs r)
  retained : {r : Registry} (e : Event) → Reached r → Reached (match_and_retain e r).0
  released : {r : Registry} (k : Reference) → Reached r → Reached (release k r)

configured-is_some :
    (k : Reference) (rs : List Rule) (o : Option Rule)
    → is_some o ≡ true
    → is_some (configured k rs o) ≡ true
configured-is_some k [] o h = h
configured-is_some k (r ∷ rs) o h =
    configured-is_some k rs (if reference_of r == k then some r else o) (ground (arith, h))

is_current-configured :
    (k : Reference) (rs : List Rule) (o : Option Rule)
    → (not (is_current k rs) || is_some (configured k rs o)) ≡ true
unfolding is_current reference_beq
is_current-configured k [] o = refl
is_current-configured k (r ∷ rs) o = elim (Bool-cases (reference_of r == k)) [
  | inl e ↦ ground (arith, configured-is_some k rs (some r) refl)
  | inr e ↦ ground (arith, is_current-configured k rs o)
]

publish-IsConsistent :
    (rs : List Rule) (r : Registry) → IsConsistent r → IsConsistent (publish rs r)
unfolding publish next_snapshot
publish-IsConsistent rs r v = record {
  pinned = λ k. elim (Bool-cases (ltb 0 (opens k r.open_count))) [
    | inl e ↦
        let found : is_some (get k r) ≡ true = ground (arith, v.pinned k) in
        let same : get k (publish rs r) ≡ configured k rs (get k r) =
          subst (λ b. get k (publish rs r) ≡ configured k rs (if b then get k r else none)) e
            (get-publish k rs r) in
        ground (arith, same, configured-is_some k rs (get k r) found)
    | inr e ↦ ground arith
  ];
  current = λ k.
      subst (λ o. (not (is_current k rs) || is_some o) ≡ true) (sym (get-publish k rs r))
        (is_current-configured k rs (if ltb 0 (opens k r.open_count) then get k r else none));
}

new_registry-IsConsistent : (rs : List Rule) → IsConsistent (new_registry rs)
unfolding new_registry lookup is_current publish
new_registry-IsConsistent rs =
    publish-IsConsistent rs
      (record { snapshot = record { ordered = []; versions = [] }; open_count = [] })
      (record { pinned = λ k. refl; current = λ k. refl })

-- The open references of a release, and what stays resolvable.
release-IsConsistent : (k : Reference) (r : Registry) → IsConsistent r → IsConsistent (release k r)
unfolding release get
release-IsConsistent k r v = elim (Bool-cases (ltb 1 (opens k r.open_count))) [
  | inl e ↦
      rw (e, release)
        (record {
          pinned = λ j. ground (
            arith,
            e,
            v.pinned j,
            lookup-insert k j (opens k r.open_count - 1) r.open_count,
            reference_beq_iff k j,
          );
          current = v.current;
        })
  | inr e ↦ elim (Bool-cases (is_current k r.snapshot.ordered)) [
    | inl c ↦
        rw (e, c, release)
          (record {
            pinned = λ j. ground (arith, v.pinned j, lookup-erase k j r.open_count);
            current = v.current;
          })
    | inr c ↦
        rw (e, c, release)
          (record {
            pinned = λ j. ground (
              arith,
              v.pinned j,
              lookup-erase k j r.open_count,
              lookup-erase k j r.snapshot.versions,
            );
            current = λ j. ground (
              arith,
              c,
              v.current j,
              lookup-erase k j r.snapshot.versions,
              reference_beq_iff k j,
            );
          })
  ]
]

first_match-is_current :
    (e : Event) (rs : List Rule) (c : Rule)
    → first_match e rs ≡ some c
    → is_current (reference_of c) rs ≡ true
unfolding first_match is_current
first_match-is_current e [] c h = cc
first_match-is_current e (r ∷ rs) c h =
    ground (
      arith,
      first_match-is_current e rs c,
      text_beq_iff r.id c.id,
      text_beq_iff r.version c.version,
    )

match_and_retain-IsConsistent :
    (e : Event) (r : Registry) → IsConsistent r → IsConsistent (match_and_retain e r).0
unfolding match_and_retain get retain
match_and_retain-IsConsistent e r v = elim (Option-cases (first_match e r.snapshot.ordered)) [
  | inl h ↦ rw (h, match_and_retain) v
  | inr (c, h) ↦
      let now = first_match-is_current e r.snapshot.ordered c h in
      let k = reference_of c in
      rw (h, match_and_retain)
        (record {
          pinned = λ j. ground (
            arith,
            now,
            v.current k,
            v.pinned j,
            lookup-insert k j (opens k r.open_count + 1) r.open_count,
            reference_beq_iff k j,
          );
          current = v.current;
        })
]

-- From `NewRegistry` on, through reloads, matches and releases, every reference that a flow still
-- holds resolves to a rule, and so does every current rule's.
pub Reached-IsConsistent : (r : Registry) → Reached r → IsConsistent r
Reached-IsConsistent r (created rs) = new_registry-IsConsistent rs
Reached-IsConsistent r (published rs s) = publish-IsConsistent rs _ (Reached-IsConsistent _ s)
Reached-IsConsistent r (retained e s) = match_and_retain-IsConsistent e _ (Reached-IsConsistent _ s)
Reached-IsConsistent r (released k s) = release-IsConsistent k _ (Reached-IsConsistent _ s)

release-opens :
    (j k : Reference) (r : Registry)
    → opens k (release j r).open_count
      ≡ (if j == k then opens k r.open_count - 1 else opens k r.open_count)
unfolding release
release-opens j k r = elim (Bool-cases (ltb 1 (opens j r.open_count))) [
  | inl e ↦
      rw (e, release)
        (ground
          (arith, lookup-insert j k (opens j r.open_count - 1) r.open_count, reference_beq_iff j k))
  | inr e ↦ elim (Bool-cases (is_current j r.snapshot.ordered)) [
    | inl c ↦
        rw (e, c, release) (ground (arith, e, lookup-erase j k r.open_count, reference_beq_iff j k))
    | inr c ↦
        rw (e, c, release) (ground (arith, e, lookup-erase j k r.open_count, reference_beq_iff j k))
  ]
]

retain-opens :
    (j k : Reference) (counts : Dict Reference ℕ)
    → opens k (retain j counts) ≡ (if j == k then opens k counts + 1 else opens k counts)
unfolding retain
retain-opens j k counts =
    ground (arith, lookup-insert j k (opens j counts + 1) counts, reference_beq_iff j k)

-- A match retains the version of the rule that it returns, which a release gives back: no count
-- has changed after the two.
pub release-match_and_retain :
    (e : Event) (r : Registry) (c : Rule) (k : Reference)
    → (match_and_retain e r).1 ≡ some c
    → opens k (release (reference_of c) (match_and_retain e r).0).open_count ≡ opens k r.open_count
unfolding match_and_retain
release-match_and_retain e r c k h = elim (Option-cases (first_match e r.snapshot.ordered)) [
  | inl n ↦ absurd (ground (arith, n, (rw (n, match_and_retain) at h)))
  | inr (d, n) ↦
      let same : d ≡ c = some-injective d c (rw (n, match_and_retain) at h) in
      let held = record r { open_count = retain (reference_of d) r.open_count } in
      rw (n, match_and_retain)
        (subst (λ x. opens k (release (reference_of x) held).open_count ≡ opens k r.open_count) same
          (ground (
            arith,
            release-opens (reference_of d) k held,
            retain-opens (reference_of d) k r.open_count,
          )))
]
