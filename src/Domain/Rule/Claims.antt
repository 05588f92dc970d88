-- ===== src/Domain/Rule/Claims.antt =====
-- What a successful validation says of the event types that the roles claim.
use flow_stitch.Domain.Instant.{not_positive}
use flow_stitch.Base.{
  is_nil, not, guard, ◌≡◌, refl, Bool, true, false, ◌||◌, List, [], ◌∷◌, ◌++◌, Text, arith, is_some,
  Option-cases, inl, inr, Result, ok, err, ◌>>◌, >>=-eq-ok, text_eq, text_beq_iff,
}
use flow_stitch.Base.Dict.{Dict, lookup, insert, lookup-insert}
use flow_stitch.Domain.Rule.{
  Role, Stitch, Rule, RuleError, role_names, has, missing_id, no_correlation_key, no_timeout,
  no_index, claim_types, claim_roles, check_required, check_stitches, check_promotions, validate,
}

-- Some role of the list has the type.
unfoldable pub in_roles : List Role → Text → Bool
in_roles [] t = false
in_roles (r ∷ rs) t = has t r.types || in_roles rs t

unfoldable pub in_stitches : List Stitch → Text → Bool
in_stitches [] t = false
in_stitches (s ∷ ss) t = in_roles s.roles t || in_stitches ss t

-- After the claims: what was claimed stays claimed, and the types of the list are claimed and
-- were not before.
record Claims (has_it : Text → Bool) (before after : Dict Text Text) : Type 0 where
  kept : (t : Text) → is_some (lookup t before) ≡ true → is_some (lookup t after) ≡ true
  made : (t : Text) → has_it t ≡ true → is_some (lookup t after) ≡ true
  fresh : (t : Text) → has_it t ≡ true → is_some (lookup t before) ≡ false

claim_types-Claims :
    (s : Text) (ts : List Text) (c c' : Dict Text Text)
    → claim_types s ts c ≡ ok c'
    → Claims (λ t. has t ts) c c'
unfolding claim_types has
claim_types-Claims s [] c c' h = record {
  kept = λ t k. ground arith;
  made = λ t k. cc;
  fresh = λ t k. cc;
}
claim_types-Claims s (u ∷ ts) c c' h = elim (Option-cases (lookup u c)) [
  | inr (owner, e) ↦ absurd (refused (rw (e, claim_types) at h))
  | inl e ↦
      let k = claim_types-Claims s ts (insert u s c) c' (rw (e, claim_types) at h) in
      record {
        kept = λ t x. k.kept t (ground (arith, lookup-insert u t s c));
        made = λ t x. ground (arith, k.made t, k.kept t, lookup-insert u t s c, text_beq_iff u t);
        fresh = λ t x. ground (arith, k.fresh t, lookup-insert u t s c, text_beq_iff u t);
      }
]
  where
    refused : {e : RuleError} → err e ≡ ok c' → ⊥
    refused p = cc

Claims-compose :
    {p q r : Text → Bool} {a b c : Dict Text Text}
    → ((t : Text) → r t ≡ (p t || q t))
    → Claims p a b
    → Claims q b c
    → Claims r a c
Claims-compose {p} {q} {r} e x y = record {
  kept = λ t k. y.kept t (x.kept t k);
  made = λ t k. ground (arith, e t, y.made t, y.kept t, x.made t);
  fresh = λ t k. ground (arith, e t, x.fresh t, y.fresh t, x.kept t);
}

claim_roles-Claims :
    (s : Text) (rs : List Role) (c c' : Dict Text Text)
    → claim_roles s rs c ≡ ok c'
    → Claims (in_roles rs) c c'
unfolding claim_roles in_roles
claim_roles-Claims s [] c c' h = record {
  kept = λ t k. ground arith;
  made = λ t k. cc;
  fresh = λ t k. cc;
}
claim_roles-Claims s (r ∷ rs) c c' h =
    let (b, first, rest) = >>=-eq-ok (claim_types s r.types c) (claim_roles s rs) c' h in
    Claims-compose (λ t. refl) (claim_types-Claims s r.types c b first)
      (claim_roles-Claims s rs b c' rest)

-- No type of a stitch rule stands twice in it, nor in a later stitch rule.
abbrev pub DisjointRoles : List Role → Type 0
DisjointRoles [] = Unit
DisjointRoles (r ∷ rs) =
    ((t : Text) → has t r.types ≡ true → in_roles rs t ≡ false) × DisjointRoles rs

abbrev pub DisjointStitches : List Stitch → Type 0
DisjointStitches [] = Unit
DisjointStitches (s ∷ ss) =
    DisjointRoles s.roles
    × ((t : Text) → in_roles s.roles t ≡ true → in_stitches ss t ≡ false)
    × DisjointStitches ss

claim_roles-DisjointRoles :
    (s : Text) (rs : List Role) (c c' : Dict Text Text)
    → claim_roles s rs c ≡ ok c'
    → DisjointRoles rs
unfolding claim_roles
claim_roles-DisjointRoles s [] c c' h = tt
claim_roles-DisjointRoles s (r ∷ rs) c c' h =
    let (b, first, rest) = >>=-eq-ok (claim_types s r.types c) (claim_roles s rs) c' h in
    let x = claim_types-Claims s r.types c b first in
    let y = claim_roles-Claims s rs b c' rest in
    ((λ t k. ground (arith, x.made t k, y.fresh t)), claim_roles-DisjointRoles s rs b c' rest)

-- The stitches' loop threads the claims through.
StitchesClaimed : List Stitch → Dict Text Text → Type 0
StitchesClaimed ss c =
    DisjointStitches ss × ((t : Text) → in_stitches ss t ≡ true → is_some (lookup t c) ≡ false)

check_stitches-Claimed :
    (ss : List Stitch) (c : Dict Text Text) (declared out : List Text)
    → check_stitches ss c declared ≡ ok out
    → StitchesClaimed ss c
unfolding check_stitches StitchesClaimed in_stitches
check_stitches-Claimed [] c declared out h = (tt, λ t k. cc)
check_stitches-Claimed (s ∷ ss) c declared out h =
    let (c', first, rest) =
      >>=-eq-ok (claim_roles s.id s.roles c)
        (λ c'. check_required s s.requires >> check_stitches ss c' (declared ++ role_names s.roles))
        out h in
    let (_, _, later) =
      >>=-eq-ok (check_required s s.requires)
        (λ _. check_stitches ss c' (declared ++ role_names s.roles)) out rest in
    let x = claim_roles-Claims s.id s.roles c c' first in
    let (d, y) = check_stitches-Claimed ss c' (declared ++ role_names s.roles) out later in
    (
      (
        claim_roles-DisjointRoles s.id s.roles c c' first,
        (λ t k. ground (arith, x.made t k, y t)),
        d,
      ),
      λ t k. ground (arith, x.fresh t, x.kept t, y t),
    )

guard_passed {ℓ} :
    {A : Type ℓ} (b : Bool) (e : RuleError) (m : Result RuleError A) (a : A)
    → (guard b e >> m) ≡ ok a
    → m ≡ ok a
guard_passed true e m a h = h
guard_passed false e m a h = cc

-- What `validate` has checked when it accepts: the stitch rules are among it.
stitches_checked :
    (r : Rule) → validate r ≡ ok tt → (d : List Text) × (check_stitches r.stitch [] [] ≡ ok d)
unfolding validate
stitches_checked r h =
    let a = guard_passed (not (is_nil r.id)) missing_id _ tt h in
    let b = guard_passed (not (is_nil r.key.expr)) no_correlation_key _ tt a in
    let c = guard_passed (not (not_positive r.lifecycle.timeout)) no_timeout _ tt b in
    let d = guard_passed (not (is_nil r.output.index)) no_index _ tt c in
    let (declared, e, _) =
      >>=-eq-ok (check_stitches r.stitch [] []) (λ x. check_promotions x r.promote) tt d in
    (declared, e)

-- In an accepted rule no event type is claimed twice.
pub validate-DisjointStitches : (r : Rule) → validate r ≡ ok tt → DisjointStitches r.stitch
unfolding StitchesClaimed
validate-DisjointStitches r h =
    let (d, e) = stitches_checked r h in (check_stitches-Claimed r.stitch [] [] d e).0
