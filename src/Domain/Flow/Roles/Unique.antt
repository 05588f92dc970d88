-- ===== src/Domain/Flow/Roles/Unique.antt =====
-- In a validated rule an event type fills one role of one stitch rule, so the order in which
-- `matchingRole` looks does not matter.
use flow_stitch.Base.{
  ℕ, zero, suc, ◌≡◌, refl, Bool, true, false, none, some, List, [], ◌∷◌, Text, arith, get_elem?, ok,
  subst, sym,
}
use flow_stitch.Domain.Rule.{Role, Stitch, Rule, has, validate}
use flow_stitch.Domain.Rule.Claims.{
  in_roles, in_stitches, DisjointRoles, DisjointStitches, validate-DisjointStitches,
}
use flow_stitch.Domain.Flow.Roles.{role_of_type, role_in_stitches, matching_role}

in_roles_at :
    (rs : List Role) (j : ℕ) (ro : Role) (t : Text)
    → get_elem? rs j ≡ some ro
    → has t ro.types ≡ true
    → in_roles rs t ≡ true
unfolding in_roles
in_roles_at [] j ro t e h = cc
in_roles_at (r ∷ rs) zero ro t e h = ground arith
in_roles_at (r ∷ rs) (suc j) ro t e h = ground (arith, in_roles_at rs j ro t e h)

role_of_type_at :
    (rs : List Role) (j : ℕ) (ro : Role) (t : Text)
    → DisjointRoles rs
    → get_elem? rs j ≡ some ro
    → has t ro.types ≡ true
    → role_of_type rs t ≡ some ro.name
unfolding role_of_type
role_of_type_at [] j ro t d e h = cc
role_of_type_at (r ∷ rs) zero ro t d e h = ground arith
role_of_type_at (r ∷ rs) (suc j) ro t d e h =
    ground (arith, d.0 t, in_roles_at rs j ro t e h, role_of_type_at rs j ro t d.1 e h)

in_stitches_at :
    (ss : List Stitch) (i : ℕ) (s : Stitch) (t : Text)
    → get_elem? ss i ≡ some s
    → in_roles s.roles t ≡ true
    → in_stitches ss t ≡ true
unfolding in_stitches
in_stitches_at [] i s t e h = cc
in_stitches_at (x ∷ ss) zero s t e h = ground arith
in_stitches_at (x ∷ ss) (suc i) s t e h = ground (arith, in_stitches_at ss i s t e h)

role_of_type-none : (rs : List Role) (t : Text) → in_roles rs t ≡ false → role_of_type rs t ≡ none
unfolding role_of_type in_roles
role_of_type-none [] t h = refl
role_of_type-none (r ∷ rs) t h = ground (arith, role_of_type-none rs t)

role_in_stitches_at :
    (ss : List Stitch) (i j : ℕ) (s : Stitch) (ro : Role) (t : Text)
    → DisjointStitches ss
    → get_elem? ss i ≡ some s
    → get_elem? s.roles j ≡ some ro
    → has t ro.types ≡ true
    → role_in_stitches ss t ≡ some (s, ro.name)
unfolding role_in_stitches
role_in_stitches_at [] i j s ro t d e f h = cc
role_in_stitches_at (x ∷ ss) zero j s ro t d e f h =
    subst (λ y. role_in_stitches (y ∷ ss) t ≡ some (s, ro.name)) (sym same)
      (rw (
        role_of_type_at s.roles j ro t (subst (λ y. DisjointRoles y.roles) same d.0) f h,
        role_in_stitches,
      ))
  where
    same : x ≡ s
    same = ground arith
role_in_stitches_at (x ∷ ss) (suc i) j s ro t d e f h =
    rw (role_of_type-none x.roles t (absent (in_roles x.roles t) refl), role_in_stitches)
      (role_in_stitches_at ss i j s ro t d.2 e f h)
  where
    absent : (b : Bool) → in_roles x.roles t ≡ b → in_roles x.roles t ≡ false
    absent false p = p
    absent true p = cc (d.1 t p, in_stitches_at ss i s t e (in_roles_at s.roles j ro t f h))

-- Wherever a role of a validated rule has the event's type, that role of that stitch rule is the
-- one that the event is matched with.
pub matching_role_unique :
    (r : Rule) (i j : ℕ) (s : Stitch) (ro : Role) (t : Text)
    → validate r ≡ ok tt
    → get_elem? r.stitch i ≡ some s
    → get_elem? s.roles j ≡ some ro
    → has t ro.types ≡ true
    → matching_role r.stitch (some t) ≡ some (s, ro.name)
unfolding matching_role
matching_role_unique r i j s ro t v e f h =
    role_in_stitches_at r.stitch i j s ro t (validate-DisjointStitches r v) e f h
