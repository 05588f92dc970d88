-- ===== src/Domain/Flow/Roles/Identity.antt =====
-- The identity text of an invocation names one stitch rule and one list of group values.
use mathlib.Core.Path.{ap₂}
use flow_stitch.Base.{◌≡◌, refl, sym, ap, ◌∙◌, List, [], ◌∷◌, ◌++◌, Text, length, arith, All}
use flow_stitch.Base.Decimal.{IsDigit, value, format_nat, format_nat-IsDigit, value-format_nat}
use flow_stitch.Domain.Flow.Roles.{invocation_key, keyed_values}

-- Digits up to a colon are the same digits, with the same text behind the colon.
split_at_colon :
    (ds es s t : Text)
    → All IsDigit ds
    → All IsDigit es
    → ds ++ b':' ∷ s ≡ es ++ b':' ∷ t
    → (ds ≡ es) × (s ≡ t)
split_at_colon [] [] s t hd he h = (refl, cc)
split_at_colon [] (e ∷ es) s t hd he h = ground arith
split_at_colon (d ∷ ds) [] s t hd he h = ground arith
split_at_colon (d ∷ ds) (e ∷ es) s t hd he h =
    let (p, q) = split_at_colon ds es s t hd.1 he.1 (cc) in (ground (arith, p), q)

split_at_length : (a b s t : Text) → length a ≡ length b → a ++ s ≡ b ++ t → (a ≡ b) × (s ≡ t)
split_at_length [] [] s t l h = (refl, h)
split_at_length [] (y ∷ b) s t l h = absurd (omega arith)
split_at_length (x ∷ a) [] s t l h = absurd (omega arith)
split_at_length (x ∷ a) (y ∷ b) s t l h =
    let (p, q) = split_at_length a b s t (omega arith) (cc) in (ground (arith, p), q)

-- A length-prefixed text in front of anything is read back.
split_prefixed :
    (a b s t : Text)
    → format_nat (length a) ++ b':' ∷ (a ++ s) ≡ format_nat (length b) ++ b':' ∷ (b ++ t)
    → (a ≡ b) × (s ≡ t)
split_prefixed a b s t h =
    let (p, q) =
      split_at_colon (format_nat (length a)) (format_nat (length b)) (a ++ s) (b ++ t)
        (format_nat-IsDigit (length a)) (format_nat-IsDigit (length b)) h in
    split_at_length a b s t
      (sym (value-format_nat (length a)) ∙ ap (value 0) p ∙ value-format_nat (length b)) q

keyed_values-injective : (vs ws : List Text) → keyed_values vs ≡ keyed_values ws → vs ≡ ws
unfolding keyed_values
keyed_values-injective [] [] h = refl
keyed_values-injective [] (w ∷ ws) h = cc
keyed_values-injective (v ∷ vs) [] h = cc
keyed_values-injective (v ∷ vs) (w ∷ ws) h =
    let (p, q) = split_prefixed v w (keyed_values vs) (keyed_values ws) (cc) in
    ap₂ ◌∷◌ p (keyed_values-injective vs ws q)

-- Two invocations share an identity only if they are of one stitch rule and one group: no choice
-- of ids or values, colons and digits included, makes two groups collide.
pub invocation_key-injective :
    (a b : Text) (vs ws : List Text)
    → invocation_key a vs ≡ invocation_key b ws
    → (a ≡ b) × (vs ≡ ws)
unfolding invocation_key
invocation_key-injective a b vs ws h =
    let (p, q) = split_prefixed a b (keyed_values vs) (keyed_values ws) h in
    (p, keyed_values-injective vs ws q)
