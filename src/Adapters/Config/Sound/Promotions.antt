-- ===== src/Adapters/Config/Sound/Promotions.antt =====
-- The owners of promoted fields in `Validate` of internal/adapters/config/config.go.
use flow_stitch.Base.{
  ◌≡◌, refl, sym, ap, ◌∙◌, Bool, true, false, ◌&&◌, ◌||◌, not, Option, none, some, List, [], ◌∷◌,
  Text, text_eq, text_beq_iff, ◌==◌, if◌then◌else◌, arith, Bool-cases, Option-cases, inl, inr, ok,
  ◌>>=◌, guard, err-ne-ok, subst, >>=-eq-ok, ok-injective,
}
use flow_stitch.Base.Dict.{Dict, lookup, insert, lookup-insert}
use flow_stitch.Domain.Rule.{Promotion}
use flow_stitch.Adapters.Config.Check.{type_name, PromotionOwner, own_promotion, own_promotions}

unfoldable pub agrees : Promotion → List Promotion → Bool
agrees p [] = true
agrees p (q ∷ qs) = (not (p.name == q.name) || type_name p.type == type_name q.type) && agrees p qs

-- Promotions of one name in the two lists have one type.
unfoldable pub all_agree : List Promotion → List Promotion → Bool
all_agree [] qs = true
all_agree (p ∷ ps) qs = agrees p qs && all_agree ps qs

abbrev pub is_type : Option Text → Bool → Text → Bool
is_type none absent t = absent
is_type (some u) absent t = u == t

-- Each promotion has the type that its name is bound to; in the second, if it is bound.
unfoldable pub held : (Text → Option Text) → List Promotion → Bool
held f [] = true
held f (p ∷ ps) = is_type (f p.name) false (type_name p.type) && held f ps

unfoldable pub fitting : (Text → Option Text) → List Promotion → Bool
fitting f [] = true
fitting f (p ∷ ps) = is_type (f p.name) true (type_name p.type) && fitting f ps

unfoldable pub owned_type : Text → Dict Text PromotionOwner → Option Text
owned_type name owners = elim (lookup name owners) [
  | none ↦ none
  | some o ↦ some (type_name o.type)
]

is_type-eq : (o : Option Text) (t : Text) → is_type o false t ≡ true → o ≡ some t
is_type-eq none t h = cc
is_type-eq (some u) t h = ap some ((text_beq_iff u t).0 h)

some-is_type : (o : Option Text) (t : Text) → o ≡ some t → is_type o false t ≡ true
some-is_type o t h = rw h ((text_beq_iff t t).1 refl)

agrees-held :
    (f : Text → Option Text) (p : Promotion) (qs : List Promotion)
    → f p.name ≡ some (type_name p.type)
    → fitting f qs ≡ true
    → agrees p qs ≡ true
unfolding agrees fitting
agrees-held f p [] h k = refl
agrees-held f p (q ∷ qs) h k = elim (Bool-cases (p.name == q.name)) [
  | inl same ↦
      let bound = ap f (sym ((text_beq_iff p.name q.name).0 same)) ∙ h in
      let fits : is_type (f q.name) true (type_name q.type) ≡ true = ground arith in
      let typed : (type_name p.type == type_name q.type) ≡ true = rw bound at fits in
      ground (arith, typed, agrees-held f p qs h)
  | inr other ↦ ground (arith, other, agrees-held f p qs h)
]

pub all_agree-held :
    (f : Text → Option Text) (ps qs : List Promotion)
    → held f ps ≡ true
    → fitting f qs ≡ true
    → all_agree ps qs ≡ true
unfolding all_agree held
all_agree-held f [] qs h k = refl
all_agree-held f (p ∷ ps) qs h k =
    let bound : is_type (f p.name) false (type_name p.type) ≡ true = ground arith in
    ground (
      arith,
      agrees-held f p qs (is_type-eq (f p.name) (type_name p.type) bound),
      all_agree-held f ps qs,
    )

pub fitting_before :
    (f g : Text → Option Text) (ps : List Promotion)
    → ((n t : Text) → f n ≡ some t → g n ≡ some t)
    → fitting g ps ≡ true
    → fitting f ps ≡ true
unfolding fitting
fitting_before f g [] k h = refl
fitting_before f g (p ∷ ps) k h = elim (Option-cases (f p.name)) [
  | inl n ↦ rw n (fitting_before f g ps k (ground arith))
  | inr (t, e) ↦
      let fits : is_type (g p.name) true (type_name p.type) ≡ true = ground arith in
      let typed : (t == type_name p.type) ≡ true = rw (k p.name t e) at fits in
      rw e (ground (arith, typed, fitting_before f g ps k))
]

-- What a successful round over the promotions of one rule does to the owners.
pub record Owned (ps : List Promotion) (before after : Dict Text PromotionOwner) : Type 0 where
  pub kept : (n t : Text) → owned_type n before ≡ some t → owned_type n after ≡ some t
  pub made : held (λ n. owned_type n after) ps ≡ true
  pub fits : fitting (λ n. owned_type n before) ps ≡ true

owned_type-insert :
    (n rule : Text) (p : Promotion) (owners : Dict Text PromotionOwner)
    → owned_type n (insert p.name (record { rule_id = rule; type = p.type }) owners)
      ≡ (if p.name == n then some (type_name p.type) else owned_type n owners)
unfolding owned_type
owned_type-insert n rule p owners =
    ground (arith, lookup-insert p.name n (record { rule_id = rule; type = p.type }) owners)

-- An entry that fits is overwritten by one of its type.
overwritten_type :
    (n t : Text) (p : Promotion) (f : Text → Option Text)
    → is_type (f p.name) true (type_name p.type) ≡ true
    → f n ≡ some t
    → (if p.name == n then some (type_name p.type) else f n) ≡ some t
overwritten_type n t p f fits k = elim (Bool-cases (p.name == n)) [
  | inl same ↦
      let bound : f p.name ≡ some t = ap f ((text_beq_iff p.name n).0 same) ∙ k in
      let typed : (t == type_name p.type) ≡ true = rw bound at fits in
      rw same (ap some (sym ((text_beq_iff t (type_name p.type)).0 typed)))
  | inr other ↦ rw other k
]

own_promotion-lem :
    (rule : Text) (p : Promotion) (owners owners' : Dict Text PromotionOwner)
    → own_promotion rule p owners ≡ ok owners'
    → (is_type (owned_type p.name owners) true (type_name p.type) ≡ true)
      × (owners' ≡ insert p.name (record { rule_id = rule; type = p.type }) owners)
unfolding own_promotion owned_type
own_promotion-lem rule p owners owners' h = elim (Option-cases (lookup p.name owners)) [
  | inl n ↦ rw (n, owned_type) (refl, sym (ok-injective _ _ (rw (n, own_promotion, ◌>>=◌) at h)))
  | inr (o, e) ↦ elim (Bool-cases (type_name o.type == type_name p.type)) [
    | inl same ↦
        rw (e, owned_type)
          (same, sym (ok-injective _ _ (rw (e, same, own_promotion, ◌>>=◌, guard) at h)))
    | inr other ↦ absurd (err-ne-ok _ owners' (rw (e, other, own_promotion, ◌>>=◌, guard) at h))
  ]
]

pub own_promotions-Owned :
    (rule : Text) (ps : List Promotion) (owners owners' : Dict Text PromotionOwner)
    → own_promotions rule ps owners ≡ ok owners'
    → Owned ps owners owners'
unfolding own_promotions held fitting
own_promotions-Owned rule [] owners owners' h = record {
  kept = λ n t k. subst (λ o. owned_type n o ≡ some t) (ok-injective owners owners' h) k;
  made = refl;
  fits = refl;
}
own_promotions-Owned rule (p ∷ ps) owners owners' h =
    let (middle, first, rest) =
      >>=-eq-ok (own_promotion rule p owners) (own_promotions rule ps) owners' h in
    let (fits, changed) = own_promotion-lem rule p owners middle first in
    let later = own_promotions-Owned rule ps middle owners' rest in
    let middle_types : (n : Text)
        → owned_type n middle
          ≡ (if p.name == n then some (type_name p.type) else owned_type n owners) =
      λ n. ap (owned_type n) changed ∙ owned_type-insert n rule p owners in
    let step : (n t : Text) → owned_type n owners ≡ some t → owned_type n middle ≡ some t =
      λ n t k. middle_types n ∙ overwritten_type n t p (λ m. owned_type m owners) fits k in
    let owned : owned_type p.name owners' ≡ some (type_name p.type) =
      later.kept p.name (type_name p.type)
        (ground (arith, middle_types p.name, text_beq_iff p.name p.name)) in
    record {
      kept = λ n t k. later.kept n t (step n t k);
      made =
          ground
            (arith, some-is_type (owned_type p.name owners') (type_name p.type) owned, later.made);
      fits = ground (
        arith,
        fits,
        fitting_before (λ n. owned_type n owners) (λ n. owned_type n middle) ps step later.fits,
      );
    }
