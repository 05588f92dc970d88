-- ===== src/Adapters/Config/Sound.antt =====
-- What an accepted configuration of internal/adapters/config/config.go guarantees of its rules.
pub mod Promotions
pub mod Compatible
pub mod Rounds
use flow_stitch.Base.{
  ◌≡◌, refl, sym, ap, subst, err-ne-ok, ◌∙◌, Bool, true, false, ◌&&◌, ◌||◌, not, Option, none, some,
  List, [], ◌∷◌, map, Text, text_eq, text_beq_iff, ◌==◌, or_else, if◌then◌else◌, is_some, is_nil,
  arith, All, Pairwise, Bool-cases, Option-cases, Result-cases, inl, inr, Result, ok, err, ◌>>=◌,
  ◌>>◌, guard, >>=-eq-ok, ok-injective,
}
use flow_stitch.Base.Int.{pos, ltb_ℤ}
use flow_stitch.Base.Dict.{Dict, lookup, insert, lookup-insert, lookup-insert_self}
use flow_stitch.Domain.DocPath.Canonical.{canonical}
use flow_stitch.Domain.Rule.{Rule, has, validate}
use flow_stitch.Domain.IndexName.{validate_pattern}
use flow_stitch.Adapters.Config.Wire
use flow_stitch.Adapters.Config.Wire.{Config, Alerts}
use flow_stitch.Adapters.Config.Build.{
  no_rules, dlq_limit, bad_index, alerts_index, duplicate_id, invalid_rule, ConfigError, wrap,
  event_type_field, timestamp_field, key_field, compile_field, build_stitches, build_promotions,
  compiled_rule, promoted_names, to_domain, build_rules, domain_rules,
}
use flow_stitch.Adapters.Config.Check.{
  Seen, PromotionOwner, own_promotions, own_key, check_rule, check_passthrough, check_alerts,
  check_state, check_rules, nothing_seen, validate_config,
}
use flow_stitch.Adapters.Config.Sound.Promotions.{
  all_agree, held, fitting, owned_type, Owned, own_promotions-Owned, all_agree-held, fitting_before,
}
use flow_stitch.Adapters.Config.Sound.Compatible.{
  are_compatible, type_at, owners_of, Fresh, Marked, Kept, Marked-are_compatible, Kept-Fresh,
}
use flow_stitch.Adapters.Config.Sound.Rounds.{Checked, to_domain-IsBuilt, check_rule-Checked}

is_some-value : {A : Type 0} (o : Option A) → is_some o ≡ true → (a : A) × (o ≡ some a)
is_some-value none h = cc
is_some-value (some a) h = (a, refl)

-- The version of a rule plays no part in its checks.
validate-versioned :
    (b : Rule) (v : Text) → validate b ≡ ok tt → validate (record b { version = v }) ≡ ok tt
unfolding validate
validate-versioned b v h = h

Fresh-versioned :
    (seen : Seen) (b : Rule) (v : Text) → Fresh seen b → Fresh seen (record b { version = v })
Fresh-versioned seen b v f = record { id = f.id; key = f.key; promoted = f.promoted }

Marked-versioned :
    (seen : Seen) (b : Rule) (v : Text) → Marked seen b → Marked seen (record b { version = v })
Marked-versioned seen b v m = record { id = m.id; key = m.key; promoted = m.promoted }

-- `ContentVersion` names every rule.
module _ (version : Rule → Option Text) (named : (r : Rule) → is_some (version r) ≡ true) where
  record Accepted (raws : List Wire.Rule) (seen : Seen) (rules : List Rule) : Type 0 where
    built : build_rules version raws ≡ ok rules
    ids : map (λ (r : Rule). r.id) rules ≡ map (λ (r : Wire.Rule). r.id) raws
    valid : All (λ r. validate r ≡ ok tt) rules
    fresh : All (Fresh seen) rules
    compatible : Pairwise (λ a b. are_compatible a b ≡ true) rules

  All-Marked :
      (before after : Seen) (b : Rule) (rules : List Rule)
      → Kept before after
      → Marked after b
      → All (Fresh after) rules
      → All (Fresh before) rules × All (λ r. are_compatible b r ≡ true) rules
  All-Marked before after b [] k m h = (tt, tt)
  All-Marked before after b (r ∷ rules) k m (f, fs) =
      let (fresh, compatible) = All-Marked before after b rules k m fs in
      ((Kept-Fresh before after r k f, fresh), (Marked-are_compatible after b r m f, compatible))

  check_rules-Accepted :
      (a : Alerts) (raws : List Wire.Rule) (seen : Seen)
      → check_rules a raws seen ≡ ok tt
      → (rules : List Rule) × Accepted raws seen rules
  unfolding check_rules build_rules
  check_rules-Accepted a [] seen h =
      ([], record { built = refl; ids = refl; valid = tt; fresh = tt; compatible = tt })
  check_rules-Accepted a (raw ∷ raws) seen h =
      let (seen', first, rest) = >>=-eq-ok (check_rule a raw seen) (check_rules a raws) tt h in
      let (b, c) = check_rule-Checked a raw seen seen' first in
      let (rules, accepted) = check_rules-Accepted a raws seen' rest in
      let (v, e) = is_some-value (version b) (named b) in
      let versioned = record b { version = v } in
      let (fresh, compatible) =
        All-Marked seen seen' versioned rules c.kept (Marked-versioned seen' b v c.marked)
          accepted.fresh in
      (
        versioned ∷ rules,
        record {
          built = rw (c.built, e, accepted.built) refl;
          ids = rw ((to_domain-IsBuilt raw b c.built).id, accepted.ids) refl;
          valid = (validate-versioned b v c.valid, accepted.valid);
          fresh = (Fresh-versioned seen b v c.fresh, fresh);
          compatible = (compatible, accepted.compatible);
        },
      )

  -- A configuration that `Validate` accepts builds: `DomainRules` returns one rule for each configured
  -- one, in order and with its ID, provided that every rule can be given a version. Each passes
  -- `rule.Validate`, no two have one ID, no two enabled ones have paths to the correlation key with one
  -- canonical spelling, and no two that write to one index promote a field of one name to two types.
  pub validate_config-domain_rules :
      (c : Config)
      → validate_config c ≡ ok tt
      → (rules : List Rule) × (domain_rules version c ≡ ok rules)
        × (map (λ (r : Rule). r.id) rules ≡ map (λ (r : Wire.Rule). r.id) c.rules)
        × All (λ r. validate r ≡ ok tt) rules
        × Pairwise (λ a b. are_compatible a b ≡ true) rules
  unfolding validate_config domain_rules
  validate_config-domain_rules c h =
      let (u1, e1, h1) = >>=-eq-ok (guard (not (is_nil c.rules)) no_rules) _ tt h in
      let (u2, e2, h2) =
        >>=-eq-ok (guard (not (ltb_ℤ c.limits.max_dlq_records (pos 1))) dlq_limit) _ tt h1 in
      let (u3, e3, h3) = >>=-eq-ok (check_passthrough c.passthrough) _ tt h2 in
      let (u4, e4, h4) = >>=-eq-ok (check_alerts c.passthrough c.alerts) _ tt h3 in
      let (u5, e5, h5) = >>=-eq-ok (check_state c.state) _ tt h4 in
      let (rules, accepted) = check_rules-Accepted c.alerts c.rules nothing_seen h5 in
      (rules, accepted.built, accepted.ids, accepted.valid, accepted.compatible)
