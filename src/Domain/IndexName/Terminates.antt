-- ===== src/Domain/IndexName/Terminates.antt =====
-- The first loop of `Validate` in internal/domain/indexname/index.go ends: each round moves the
-- offset forward.
use mathlib.Core.Option.{some-injective}
use flow_stitch.Base.{
  ℕ, zero, suc, ◌+◌, ◌<◌, ◌≡◌, ◌≢◌, Bool, true, false, Option, none, some, [], ◌∷◌, Text, nat_eq,
  ◌==◌, Result, ok, err, length, arith, subst, ap, ◌∙◌, guard, Bool-cases, Option-cases, inl, inr,
  Result-cases,
}
use flow_stitch.Domain.IndexName.{
  opening_brace, closing_brace, PatternError, pattern_fuel, unterminated, unknown_placeholder,
  unmatched_closing, is_placeholder, cut_at, check_placeholders, validate_pattern,
}

length-cut_at :
    (c : ℕ) (s front back : Text) → cut_at c s ≡ some (front, back) → length back < length s
unfolding cut_at
length-cut_at c [] front back h = cc
length-cut_at c (d ∷ s) front back h = elim (Bool-cases (d == c)) [
  | inl e ↦ shorter ([], s) (front, back) (omega arith) (some-injective _ _ (rw (e, cut_at) at h))
  | inr e ↦ elim (Option-cases (cut_at c s)) [
    | inl n ↦ absurd (no_cut (rw (e, n, cut_at) at h))
    | inr ((f, b), g) ↦
        let cut = length-cut_at c s f b g in
        shorter (d ∷ f, b) (front, back) (omega arith) (some-injective _ _ (rw (e, g, cut_at) at h))
  ]
]
  where
    shorter :
        (p q : Text × Text) → length p.1 < suc (length s) → p ≡ q → length q.1 < suc (length s)
    shorter p q l e = subst (λ x. length x.1 < suc (length s)) e l

    no_cut : ◌≢◌ {A = Option (Text × Text)} none (some (front, back))
    no_cut x = cc

check_placeholders-fuel :
    (fuel : ℕ) (s : Text) → length s < fuel → check_placeholders fuel s ≢ err pattern_fuel
unfolding check_placeholders
check_placeholders-fuel zero s h e = absurd (omega arith)
check_placeholders-fuel (suc fuel) s h e = elim (Option-cases (cut_at opening_brace s)) [
  | inl n ↦ cc_ok (rw (n, check_placeholders) at e)
  | inr ((front, back), g) ↦ elim (Option-cases (cut_at closing_brace back)) [
    | inl n ↦ absurd (not_terminated (rw (g, n, check_placeholders) at e))
    | inr ((name, rest), g') ↦
        let a = length-cut_at opening_brace s front back g in
        let b = length-cut_at closing_brace back name rest g' in
        elim (Bool-cases (is_placeholder name)) [
          | inl p ↦
              check_placeholders-fuel fuel rest (omega arith)
                (rw (g, g', p, check_placeholders) at e)
          | inr p ↦ absurd (not_known name (rw (g, g', p, check_placeholders) at e))
        ]
  ]
]
  where
    cc_ok : ◌≢◌ {A = Result PatternError (Unit {0})} (ok tt) (err pattern_fuel)
    cc_ok x = cc

    not_terminated : ◌≢◌ {A = Result PatternError (Unit {0})} (err unterminated) (err pattern_fuel)
    not_terminated x = cc

    not_known :
        (n : Text)
        → ◌≢◌ {A = Result PatternError (Unit {0})} (err (unknown_placeholder n)) (err pattern_fuel)
    not_known n x = cc

-- `Validate` returns a verdict on every pattern: the fuel of its loop is enough.
pub validate_pattern-ne-fuel : (pattern : Text) → validate_pattern pattern ≢ err pattern_fuel
unfolding validate_pattern
validate_pattern-ne-fuel pattern e =
    elim (Result-cases (check_placeholders (length pattern + 1) pattern)) [
      | inr (x, h) ↦
          check_placeholders-fuel (length pattern + 1) pattern (omega arith)
            (h ∙ ap err (same_error x (rw (h, validate_pattern) at e)))
      | inl (u, h) ↦ absurd (guarded _ (rw (h, validate_pattern) at e))
    ]
  where
    same_error :
        (x : PatternError)
        → ◌≡◌ {A = Result PatternError (Unit {0})} (err x) (err pattern_fuel)
        → x ≡ pattern_fuel
    same_error x p = ap (λ r. elim r [ ok u ↦ x | err y ↦ y ]) p

    guarded : (b : Bool) → guard b unmatched_closing ≢ err pattern_fuel
    guarded true p = cc
    guarded false p = cc
