-- ===== src/Adapters/Config/Sound/Rounds.antt =====
-- One round of the loop over the rules in `Validate` of internal/adapters/config/config.go.
use flow_stitch.Base.{
  ◌≡◌, refl, sym, ap, subst, err-ne-ok, ◌∙◌, Bool, true, false, ◌&&◌, ◌||◌, not, some, [], ◌∷◌,
  Text, text_eq, text_beq_iff, ◌==◌, or_else, if◌then◌else◌, is_some, arith, Bool-cases,
  Option-cases, inl, inr, Result, ok, err, ◌>>=◌, guard, >>=-eq-ok, ok-injective,
}
use flow_stitch.Base.Dict.{Dict, lookup, insert, lookup-insert, lookup-insert_self}
use flow_stitch.Domain.DocPath.Canonical.{canonical}
use flow_stitch.Domain.Rule.{Rule, has, validate}
use flow_stitch.Domain.IndexName.{validate_pattern}
use flow_stitch.Adapters.Config.Wire
use flow_stitch.Adapters.Config.Wire.{Config, Alerts}
use flow_stitch.Adapters.Config.Build.{
  bad_index, alerts_index, duplicate_id, invalid_rule, wrap, event_type_field, timestamp_field,
  key_field, compile_field, build_stitches, build_promotions, compiled_rule, promoted_names,
  to_domain,
}
use flow_stitch.Adapters.Config.Check.{Seen, PromotionOwner, own_promotions, own_key, check_rule}
use flow_stitch.Adapters.Config.Sound.Promotions.{held, owned_type, Owned, own_promotions-Owned}
use flow_stitch.Adapters.Config.Sound.Compatible.{type_at, owners_of, Fresh, Marked, Kept}

-- What the domain's rule takes from the configured one.
pub record IsBuilt (raw : Wire.Rule) (b : Rule) : Type 0 where
  pub id : b.id ≡ raw.id
  pub enabled : b.enabled ≡ raw.enabled
  pub index : b.output.index ≡ raw.output.index

wrap-ok : {E F A : Type 0} (f : E → F) (m : Result E A) (a : A) → wrap f m ≡ ok a → m ≡ ok a
wrap-ok f (ok x) a h = ap ok (ok-injective x a h)
wrap-ok f (err e) a h = cc

guard-ok : {E : Type 0} (test : Bool) (e : E) → guard test e ≡ ok tt → test ≡ true
guard-ok true e h = refl
guard-ok false e h = cc

-- The steps of `toDomain` do not depend on each other.
assembled :
    {E A B C : Type 0} (P : Rule → Type 0) (assemble : A → A → A → B → C → Rule)
    (e t k : Result E A) (ss : Result E B) (ps : Result E C) (b : Rule)
    → ((x y z : A) (v : B) (w : C) → P (assemble x y z v w))
    → (e >>= λ x. t >>= λ y. k >>= λ z. ss >>= λ v. ps >>= λ w. ok (assemble x y z v w)) ≡ ok b
    → P b
assembled P f (err e) t k ss ps b p h = cc
assembled P f (ok x) (err e) k ss ps b p h = cc
assembled P f (ok x) (ok y) (err e) ss ps b p h = cc
assembled P f (ok x) (ok y) (ok z) (err e) ps b p h = cc
assembled P f (ok x) (ok y) (ok z) (ok v) (err e) b p h = cc
assembled P f (ok x) (ok y) (ok z) (ok v) (ok w) b p h = subst P (ok-injective _ b h) (p x y z v w)

pub to_domain-IsBuilt : (raw : Wire.Rule) (b : Rule) → to_domain [] raw ≡ ok b → IsBuilt raw b
unfolding to_domain compiled_rule
to_domain-IsBuilt raw b h =
    assembled (IsBuilt raw) (compiled_rule [] raw)
      (compile_field raw.id event_type_field raw.extract.event_type true)
      (compile_field raw.id timestamp_field raw.extract.timestamp true)
      (compile_field raw.id key_field raw.correlation.key false) (build_stitches raw.id raw.stitch)
      (build_promotions raw.id raw.promote (promoted_names raw)) b
      (λ x y z v w. record { id = refl; enabled = refl; index = refl }) h

own_key-lem :
    (raw : Wire.Rule) (b : Rule) (keys keys' : Dict Text Text)
    → IsBuilt raw b
    → own_key raw b keys ≡ ok keys'
    → ((b.enabled && is_some (lookup (canonical b.key) keys)) ≡ false)
      × ((not b.enabled || is_some (lookup (canonical b.key) keys')) ≡ true)
      × ((k : Text) → is_some (lookup k keys) ≡ true → is_some (lookup k keys') ≡ true)
unfolding own_key
own_key-lem raw b keys keys' i h = elim (Bool-cases raw.enabled) [
  | inl on ↦ elim (Option-cases (lookup (canonical b.key) keys)) [
    | inl n ↦
        let changed = ok-injective _ keys' (rw (on, n, own_key) at h) in
        let now : (k : Text)
            → lookup k keys' ≡ (if canonical b.key == k then some raw.id else lookup k keys) =
          λ k. ap (lookup k) (sym changed) ∙ lookup-insert (canonical b.key) k raw.id keys in
        (
          rw n (ground arith),
          ground (arith, now (canonical b.key), text_beq_iff (canonical b.key) (canonical b.key)),
          λ k kept. ground (arith, now k),
        )
    | inr (owner, e) ↦ absurd (err-ne-ok _ keys' (rw (on, e, own_key) at h))
  ]
  | inr off ↦
      let same = ok-injective keys keys' (rw (off, own_key) at h) in
      let disabled = i.enabled ∙ off in
      (
        rw disabled refl,
        rw disabled refl,
        λ k kept. subst (λ m. is_some (lookup k m) ≡ true) same kept,
      )
]

pub record Checked (raw : Wire.Rule) (seen seen' : Seen) (b : Rule) : Type 0 where
  pub built : to_domain [] raw ≡ ok b
  pub valid : validate b ≡ ok tt
  pub fresh : Fresh seen b
  pub marked : Marked seen' b
  pub kept : Kept seen seen'

owned_after :
    (index j n t : Text) (owners : Dict Text PromotionOwner) (seen : Seen)
    → ((m u : Text) → owned_type m (owners_of seen index) ≡ some u → owned_type m owners ≡ some u)
    → type_at seen j n ≡ some t
    → owned_type n (or_else (lookup j (insert index owners seen.promoted)) []) ≡ some t
owned_after index j n t owners seen kept h = elim (Bool-cases (index == j)) [
  | inl same ↦
      let here = sym ((text_beq_iff index j).0 same) in
      rw (lookup-insert index j owners seen.promoted, same)
        (kept n t (subst (λ i. type_at seen i n ≡ some t) here h))
  | inr other ↦ rw (lookup-insert index j owners seen.promoted, other) h
]

-- The state after a round, from what its steps are known to do.
seen-Checked :
    (raw : Wire.Rule) (seen : Seen) (b : Rule) (owners : Dict Text PromotionOwner)
    (keys : Dict Text Text)
    → to_domain [] raw ≡ ok b
    → validate b ≡ ok tt
    → IsBuilt raw b
    → not (has raw.id seen.ids) ≡ true
    → Owned b.promote (owners_of seen raw.output.index) owners
    → ((b.enabled && is_some (lookup (canonical b.key) seen.keys)) ≡ false)
      × ((not b.enabled || is_some (lookup (canonical b.key) keys)) ≡ true)
      × ((k : Text) → is_some (lookup k seen.keys) ≡ true → is_some (lookup k keys) ≡ true)
    → Checked raw seen
        (record {
          ids = raw.id ∷ seen.ids;
          keys = keys;
          promoted = insert raw.output.index owners seen.promoted;
        })
        b
unfolding has
seen-Checked raw seen b owners keys built valid i new owned (free, taken, kept) = record {
  built = built;
  valid = valid;
  fresh = record { id = rw i.id (ground arith); key = free; promoted = rw i.index owned.fits };
  marked = record {
    id = rw i.id (ground (arith, text_beq_iff raw.id raw.id));
    key = taken;
    promoted =
        subst (λ o. held (λ n. owned_type n (or_else o [])) b.promote ≡ true)
          (sym (
            ap (λ j. lookup j (insert raw.output.index owners seen.promoted)) i.index
            ∙ lookup-insert_self raw.output.index owners seen.promoted))
          owned.made;
  };
  kept = record {
    ids = λ t h. ground arith;
    keys = kept;
    types = λ j n t h. owned_after raw.output.index j n t owners seen owned.kept h;
  };
}

pub check_rule-Checked :
    (a : Alerts) (raw : Wire.Rule) (seen seen' : Seen)
    → check_rule a raw seen ≡ ok seen'
    → (b : Rule) × Checked raw seen seen' b
unfolding check_rule
check_rule-Checked a raw seen seen' h =
    let (u1, e1, h1) =
      >>=-eq-ok (wrap (bad_index raw.id) (validate_pattern raw.output.index)) _ seen' h in
    let (u2, e2, h2) =
      >>=-eq-ok (guard (not (a.enabled && raw.output.index == a.index)) (alerts_index raw.id)) _
        seen' h1 in
    let (u3, e3, h3) =
      >>=-eq-ok (guard (not (has raw.id seen.ids)) (duplicate_id raw.id)) _ seen' h2 in
    let (b, e4, h4) = >>=-eq-ok (to_domain [] raw) _ seen' h3 in
    let (u5, e5, h5) = >>=-eq-ok (wrap invalid_rule (validate b)) _ seen' h4 in
    let (owners, e6, h6) =
      >>=-eq-ok
        (own_promotions raw.id b.promote (or_else (lookup raw.output.index seen.promoted) [])) _
        seen' h5 in
    let (keys, e7, h7) = >>=-eq-ok (own_key raw b seen.keys) _ seen' h6 in
    let i = to_domain-IsBuilt raw b e4 in
    let new = guard-ok (not (has raw.id seen.ids)) (duplicate_id raw.id) e3 in
    (
      b,
      subst (λ s. Checked raw seen s b) (ok-injective _ seen' h7)
          (seen-Checked raw seen b owners keys e4 (wrap-ok invalid_rule (validate b) tt e5) i new
            (own_promotions-Owned raw.id b.promote (owners_of seen raw.output.index) owners e6)
            (own_key-lem raw b seen.keys keys i e7)),
    )
