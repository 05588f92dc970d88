-- ===== src/Adapters/Config/Sound/Compatible.antt =====
-- What the loop over the rules in `Validate` of internal/adapters/config/config.go has seen, and how it
-- stands to a rule.
use flow_stitch.Base.{
  ◌≡◌, subst, Bool, true, false, ◌&&◌, ◌||◌, not, Option, some, List, [], ◌∷◌, Text, text_eq,
  text_beq_iff, ◌==◌, or_else, is_some, arith, Bool-cases, inl, inr,
}
use flow_stitch.Base.Dict.{Dict, lookup}
use flow_stitch.Domain.DocPath.Canonical.{canonical}
use flow_stitch.Domain.Rule.{Rule, has}
use flow_stitch.Adapters.Config.Check.{Seen, PromotionOwner}
use flow_stitch.Adapters.Config.Sound.Promotions.{
  all_agree, held, fitting, owned_type, all_agree-held, fitting_before,
}

-- Two rules that may stand in one configuration: another ID, another correlation key if both are
-- enabled, and promotions of the same name to the same type if they write to one index.
unfoldable pub are_compatible : Rule → Rule → Bool
are_compatible a b =
    not (a.id == b.id)
    && not (a.enabled && b.enabled && canonical a.key == canonical b.key)
    && (not (a.output.index == b.output.index) || all_agree a.promote b.promote)

abbrev pub owners_of : Seen → Text → Dict Text PromotionOwner
owners_of seen index = or_else (lookup index seen.promoted) []

abbrev pub type_at : Seen → Text → Text → Option Text
type_at seen index name = owned_type name (or_else (lookup index seen.promoted) [])

-- A rule that what was seen does not stand against, and one that was seen.
pub record Fresh (seen : Seen) (b : Rule) : Type 0 where
  pub id : has b.id seen.ids ≡ false
  pub key : (b.enabled && is_some (lookup (canonical b.key) seen.keys)) ≡ false
  pub promoted : fitting (type_at seen b.output.index) b.promote ≡ true

pub record Marked (seen : Seen) (b : Rule) : Type 0 where
  pub id : has b.id seen.ids ≡ true
  pub key : (not b.enabled || is_some (lookup (canonical b.key) seen.keys)) ≡ true
  pub promoted : held (type_at seen b.output.index) b.promote ≡ true

pub record Kept (before after : Seen) : Type 0 where
  pub ids : (t : Text) → has t before.ids ≡ true → has t after.ids ≡ true
  pub keys :
      (k : Text) → is_some (lookup k before.keys) ≡ true → is_some (lookup k after.keys) ≡ true
  pub types : (i n t : Text) → type_at before i n ≡ some t → type_at after i n ≡ some t

has_other : (t u : Text) (ts : List Text) → has t ts ≡ true → has u ts ≡ false → (t == u) ≡ false
unfolding has
has_other t u [] h k = cc
has_other t u (x ∷ xs) h k =
    ground (arith, has_other t u xs, text_beq_iff t u, text_beq_iff x t, text_beq_iff x u)

Marked-keys :
    (seen : Seen) (a b : Rule)
    → Marked seen a
    → Fresh seen b
    → (a.enabled && b.enabled && canonical a.key == canonical b.key) ≡ false
Marked-keys seen a b m f = elim (Bool-cases (canonical a.key == canonical b.key)) [
  | inl same ↦
      let keyed = rw ((text_beq_iff (canonical a.key) (canonical b.key)).0 same) at m.key in
      ground (arith, f.key, keyed, same)
  | inr other ↦ ground (arith, other)
]

Marked-promotions :
    (seen : Seen) (a b : Rule)
    → Marked seen a
    → Fresh seen b
    → (not (a.output.index == b.output.index) || all_agree a.promote b.promote) ≡ true
Marked-promotions seen a b m f = elim (Bool-cases (a.output.index == b.output.index)) [
  | inl same ↦
      let holds =
        subst (λ i. held (type_at seen i) a.promote ≡ true)
          ((text_beq_iff a.output.index b.output.index).0 same) m.promoted in
      ground
        (arith, all_agree-held (type_at seen b.output.index) a.promote b.promote holds f.promoted)
  | inr other ↦ ground (arith, other)
]

pub Marked-are_compatible :
    (seen : Seen) (a b : Rule) → Marked seen a → Fresh seen b → are_compatible a b ≡ true
unfolding are_compatible
Marked-are_compatible seen a b m f = ground (
  arith,
  has_other a.id b.id seen.ids m.id f.id,
  Marked-keys seen a b m f,
  Marked-promotions seen a b m f,
)

pub Kept-Fresh :
    (before after : Seen) (b : Rule) → Kept before after → Fresh after b → Fresh before b
Kept-Fresh before after b k f = record {
  id = ground (arith, k.ids b.id, f.id);
  key = ground (arith, k.keys (canonical b.key), f.key);
  promoted =
      fitting_before (type_at before b.output.index) (type_at after b.output.index) b.promote
        (k.types b.output.index) f.promoted;
}
