-- ===== src/Adapters/PebbleStore/Flows/Due.antt =====
-- `DueFlows` of internal/adapters/state/pebble/store.go: the scan of the index finds the flows whose
-- deadline has passed.
use flow_stitch.Base.{
  ◌<◌, ◌≤◌, ◌≡◌, refl, sym, ap, subst, ◌∙◌, Bool, true, false, ◌&&◌, ◌||◌, not, Option, none, some,
  List, [], ◌∷◌, map, Text, text_eq, text_beq, text_beq_iff, is_some, arith, Bool-cases,
  Option-cases, Result-cases, inl, inr, length, ok, err, ◌>>=◌, >>=-eq-ok, ok-injective,
  from_option,
}
use mathlib.Core.Option.{some-injective}
use flow_stitch.Base.Dict.{lookup}
use flow_stitch.Base.Sort.{sort_by}
use flow_stitch.Domain.Instant.{Instant, after}
use flow_stitch.Domain.Flow.Defs.{Flow, FlowKey, key_eq, key_beq, key_beq_iff}
use flow_stitch.Domain.Flow.Codec.{Json}
use flow_stitch.Application.Ports.{StoreError, malformed_key}
use flow_stitch.Adapters.MemoryStore.State.{limited}
use flow_stitch.Adapters.PebbleStore.Keys.{
  flow_key, expiry_key, expiry_prefix, expiry_time_prefix, prefix_end, parse_expiry_key,
}
use flow_stitch.Adapters.PebbleStore.Keys.RoundTrip.{IsKey, parse_expiry_key-expiry_key}
use flow_stitch.Adapters.PebbleStore.Keys.Order.{
  IsInRange, expiry_key-lt_bound, expiry_key-ge_prefix,
}
use flow_stitch.Adapters.PebbleStore.Engine.{Engine, EngineLaws, is_in_range}
use flow_stitch.Adapters.PebbleStore.Flows.{
  Candidate, candidate_less, candidate_of, decode_flow, decode_found, load_flow, candidates,
  due_flows,
}
use flow_stitch.Adapters.PebbleStore.Flows.Index.{
  IsIndexed, load_flow-found, decode_found-cases, deadline_lem, is_deadline,
}
use flow_stitch.Adapters.PebbleStore.Flows.Candidates.{
  is_due, is_later, is_listed, is_candidate, sort_by-candidate, is_listed-candidate,
  candidate_of-kept, candidate_of-other, candidate_of-due, candidate_of-later, later_lem, due_lem,
}

module _ (e : Engine) (laws : EngineLaws e) (json : Json) (now : Instant) (s : e.State) where
  later_found :
      (o : Option Text) (r : Option Flow)
      → decode_found json o ≡ ok r
      → is_later json now o ≡ true
      → (f : Flow) × (r ≡ some f) × (after f.expires_at now ≡ true)
  unfolding is_later
  later_found o r h l = elim (decode_found-cases e laws json o r h) [
    | inl (n, q) ↦ absurd (never (ap (is_later json now) (sym n) ∙ l))
    | inr (raw, f, there, d, q) ↦
        (f, q, sym (later_lem json now raw f d) ∙ ap (is_later json now) (sym there) ∙ l)
  ]
    where
      never : ◌≡◌ {A = Bool} false true → ⊥
      never x = cc

  due_found :
      (k : FlowKey) (o : Option Text) (r : Option Flow)
      → decode_found json o ≡ ok r
      → is_due json now k o ≡ true
      → (f : Flow) × (r ≡ some f) × (after f.expires_at now ≡ false)
  unfolding is_due
  due_found k o r h l = elim (decode_found-cases e laws json o r h) [
    | inl (n, q) ↦ absurd (never (ap (is_due json now k) (sym n) ∙ l))
    | inr (raw, f, there, d, q) ↦ (
      f,
      q,
      passed (key_beq f.key k) (after f.expires_at now)
          (sym (due_lem json now k raw f d) ∙ ap (is_due json now k) (sym there) ∙ l),
    )
  ]
    where
      never : ◌≡◌ {A = Bool} false true → ⊥
      never x = cc

      passed : (a b : Bool) → (a && not b) ≡ true → b ≡ false
      passed a b x = ground arith

  -- One round of the loop over the index.
  candidates-cons :
      (raw v : Text) (es : List (Text × Text)) (cs : List Candidate)
      → candidates e json now ((raw, v) ∷ es) s ≡ ok cs
      → (key : FlowKey) × (current : Option Flow) × (rest : List Candidate) × (parse_expiry_key raw
          ≡ some key)
        × (decode_found json (laws.entry (flow_key key) s) ≡ ok current)
        × (candidates e json now es s ≡ ok rest)
        × (candidate_of now raw key current rest ≡ cs)
  unfolding candidates
  candidates-cons raw v es cs h =
      let (key, parsed, h1) =
        >>=-eq-ok (from_option (parse_expiry_key raw) malformed_key)
          (λ key. load_flow e json key s >>= λ current.
            candidates e json now es s >>= λ rest. ok (candidate_of now raw key current rest))
          cs h in
      let (current, loaded, h2) =
        >>=-eq-ok (load_flow e json key s)
          (λ current.
            candidates e json now es s >>= λ rest. ok (candidate_of now raw key current rest))
          cs h1 in
      let (rest, others, h3) =
        >>=-eq-ok (candidates e json now es s) (λ rest. ok (candidate_of now raw key current rest))
          cs h2 in
      (
        key,
        current,
        rest,
        from_option-some (parse_expiry_key raw) key parsed,
        load_flow-found e laws json key s current loaded,
        others,
        ok-injective (candidate_of now raw key current rest) cs h3,
      )
    where
      from_option-some :
          (o : Option FlowKey) (k : FlowKey) → from_option o malformed_key ≡ ok k → o ≡ some k
      from_option-some none k q = cc
      from_option-some (some j) k q = ap (λ x. some x) (ok-injective j k q)

  candidates-later :
      (k : FlowKey) (es : List (Text × Text)) (cs : List Candidate)
      → is_later json now (laws.entry (flow_key k) s) ≡ true
      → candidates e json now es s ≡ ok cs
      → is_candidate k cs ≡ false
  unfolding candidates is_candidate
  candidates-later k [] cs l h = subst (λ x. is_candidate k x ≡ false) (ok-injective [] cs h) refl
  candidates-later k ((raw, v) ∷ es) cs l h =
      let (key, current, rest, parsed, found, others, same) = candidates-cons raw v es cs h in
      let ih = candidates-later k es rest l others in
      subst (λ x. is_candidate k x ≡ false) same
        (elim (Bool-cases (key_beq key k)) [
          | inr n ↦ candidate_of-other now raw key k current rest n ∙ ih
          | inl y ↦
              let key_is = (key_beq_iff key k).0 y in
              let (f, current_is, late) = later_found (laws.entry (flow_key key) s) current found (
                subst (λ x. is_later json now (laws.entry (flow_key x) s) ≡ true) (sym key_is) l) in
              ap (λ o. is_candidate k (candidate_of now raw key o rest)) current_is
              ∙ ap (is_candidate k) (candidate_of-later now raw key f rest late)
              ∙ ih
        ])

  candidates-due :
      (k : FlowKey) (raw v : Text) (es : List (Text × Text)) (cs : List Candidate)
      → is_due json now k (laws.entry (flow_key k) s) ≡ true
      → parse_expiry_key raw ≡ some k
      → lookup raw es ≡ some v
      → candidates e json now es s ≡ ok cs
      → is_candidate k cs ≡ true
  unfolding lookup
  candidates-due k raw v [] cs d p m h = cc
  candidates-due k raw v ((raw', v') ∷ es) cs d p m h =
      let (key, current, rest, parsed, found, others, same) = candidates-cons raw' v' es cs h in
      subst (λ x. is_candidate k x ≡ true) same
        (elim (Bool-cases (text_beq raw' raw)) [
          | inr n ↦
              candidate_of-kept now raw' key k current rest
                (candidates-due k raw v es rest d p (rw (n, lookup) at m) others)
          | inl y ↦
              let key_is : key ≡ k =
                some-injective key k
                  (sym parsed ∙ ap parse_expiry_key ((text_beq_iff raw' raw).0 y) ∙ p) in
              let (f, current_is, passed) =
                due_found k (laws.entry (flow_key key) s) current found (
                  subst (λ x. is_due json now k (laws.entry (flow_key x) s) ≡ true) (sym key_is)
                    d) in
              ap (λ o. is_candidate k (candidate_of now raw' key o rest)) current_is
              ∙ ap (λ x. is_candidate k (candidate_of now raw' x (some f) rest)) key_is
              ∙ candidate_of-due now raw' k f rest passed
        ])

  -- A flow that is due has an index entry.
  due_entry :
      (k : FlowKey)
      → IsIndexed e laws json s
      → is_due json now k (laws.entry (flow_key k) s) ≡ true
      → (f : Flow) × (f.expires_at ≤ now)
        × (is_some (laws.entry (expiry_key f.expires_at k) s) ≡ true)
  unfolding is_due
  due_entry k i d = elim (Option-cases (laws.entry (flow_key k) s)) [
    | inl n ↦ absurd (never (ap (is_due json now k) (sym n) ∙ d))
    | inr (raw, there) ↦ elim (Result-cases (decode_flow json raw)) [
      | inr (x, u) ↦
          absurd (never (sym (undecoded raw x u) ∙ ap (is_due json now k) (sym there) ∙ d))
      | inl (f, u) ↦
          let (own, passed) =
            both (key_beq f.key k) (after f.expires_at now)
              (sym (due_lem json now k raw f u) ∙ ap (is_due json now k) (sym there) ∙ d) in
          (
            f,
            ground arith,
            i.indexed f.expires_at k
                ∙ ap (is_deadline json f.expires_at k) there
                ∙ deadline_lem json f.expires_at k raw f u ((key_beq_iff f.key k).0 own)
                ∙ (text_beq_iff (expiry_key f.expires_at k) (expiry_key f.expires_at k)).1 refl,
          )
    ]
  ]
    where
      never : ◌≡◌ {A = Bool} false true → ⊥
      never x = cc

      undecoded :
          (raw : Text) (x : StoreError)
          → decode_flow json raw ≡ err x
          → is_due json now k (some raw) ≡ false
      undecoded raw x u = rw (u, is_due) refl

      both : (a b : Bool) → (a && not b) ≡ true → (a ≡ true) × (b ≡ false)
      both a b x = ground arith

  scanned-due :
      (es : List (Text × Text)) (found : List Candidate) (k : FlowKey)
      → IsIndexed e laws json s
      → IsInRange now
      → IsKey k
      → 0 < length k.rule_id
      → e.scan expiry_prefix (prefix_end (expiry_time_prefix now)) s ≡ ok es
      → candidates e json now es s ≡ ok found
      → is_due json now k (laws.entry (flow_key k) s) ≡ true
      → is_candidate k found ≡ true
  unfolding is_in_range
  scanned-due es found k i r b n scanned looped d =
      let (f, passed, there) = due_entry k i d in
      let raw = expiry_key f.expires_at k in
      let upper = prefix_end (expiry_time_prefix now) in
      let seen : lookup raw es ≡ laws.entry raw s =
        laws.scan-entry expiry_prefix upper s es raw scanned
        ∙ (rw (expiry_key-ge_prefix f.expires_at k, expiry_key-lt_bound f.expires_at now k passed r)
            refl) in
      elim (Option-cases (laws.entry raw s)) [
        | inl q ↦ absurd (never (ap is_some (sym q) ∙ there))
        | inr (v, q) ↦
            candidates-due k raw v es found d (parse_expiry_key-expiry_key f.expires_at k b n)
              (seen ∙ q) looped
      ]
    where
      never : ◌≡◌ {A = Bool} false true → ⊥
      never x = cc

  -- On an indexed store, with no limit: every flow under a usable key whose deadline has passed is
  -- listed, and no flow whose deadline is still to come is.
  pub due_flows-lists :
      (keys : List FlowKey) (k : FlowKey)
      → IsIndexed e laws json s
      → IsInRange now
      → IsKey k
      → 0 < length k.rule_id
      → due_flows e json now 0 s ≡ ok keys
      → ((not (is_due json now k (laws.entry (flow_key k) s)) || is_listed k keys) ≡ true)
        × ((is_later json now (laws.entry (flow_key k) s) && is_listed k keys) ≡ false)
  unfolding due_flows limited
  due_flows-lists keys k i r b n h =
      let upper = prefix_end (expiry_time_prefix now) in
      let (es, scanned, h1) =
        >>=-eq-ok (e.scan expiry_prefix upper s)
          (λ es. candidates e json now es s >>= λ found.
            ok (map (λ c. c.key) (limited 0 (sort_by candidate_less found))))
          keys h in
      let (found, looped, h2) =
        >>=-eq-ok (candidates e json now es s)
          (λ found. ok (map (λ c. c.key) (limited 0 (sort_by candidate_less found)))) keys h1 in
      let listed : is_listed k keys ≡ is_candidate k found =
        ap (is_listed k)
          (sym (ok-injective (map (λ c. c.key) (sort_by candidate_less found)) keys h2))
        ∙ is_listed-candidate k (sort_by candidate_less found)
        ∙ sort_by-candidate k found in
      (
        elim (Bool-cases (is_due json now k (laws.entry (flow_key k) s))) [
          | inr q ↦ rw (q) refl
          | inl q ↦ rw (q, listed, scanned-due es found k i r b n scanned looped q) refl
        ],
        elim (Bool-cases (is_later json now (laws.entry (flow_key k) s))) [
          | inr q ↦ rw (q) refl
          | inl q ↦ rw (q, listed, candidates-later k es found q looped) refl
        ],
      )
