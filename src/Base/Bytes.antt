-- ===== src/Base/Bytes.antt =====
-- Go strings and byte slices: lists of bytes, with `==` and the byte order.
use Prim.Native.Nat.{ℕ}
use Prim.Native.Char.{code}
use Prim.Native.String.{String}
use mathlib.Core.Path.{◌≡◌, refl, subst}
use mathlib.Core.Logic.{◌↔◌, inl, inr}
use mathlib.Core.Bool.{Bool, true, false, ◌&&◌, ◌||◌}
use mathlib.Core.List.{List, [], ◌∷◌}
use native.Mathlib.Omega.{arith}
use flow_stitch.Base.Tests.{ltb, nat_beq, Bool-cases}
use flow_stitch.Base.Classes.{Comparable}

abbrev pub Text : Type 0
Text = List ℕ

-- A constant: the bytes of an ASCII literal.
abbrev pub codes : String → Text
codes String.[] = []
codes (String.◌∷◌ c s) = code c ∷ codes s

unfoldable pub text_beq : Text → Text → Bool
text_beq [] [] = true
text_beq [] (y ∷ ys) = false
text_beq (x ∷ xs) [] = false
text_beq (x ∷ xs) (y ∷ ys) = nat_beq x y && text_beq xs ys

pub text_beq_iff : (s t : Text) → (text_beq s t ≡ true) ↔ (s ≡ t)
unfolding text_beq
text_beq_iff [] [] = ground arith
text_beq_iff [] (y ∷ ys) = ground arith
text_beq_iff (x ∷ xs) [] = ground arith
text_beq_iff (x ∷ xs) (y ∷ ys) = ground (arith, text_beq_iff xs ys)

instance abbrev pub text_eq : Comparable Text
text_eq = record { equals = text_beq; equals_iff = text_beq_iff }

-- `s < t` on Go strings.
unfoldable pub text_ltb : Text → Text → Bool
text_ltb [] [] = false
text_ltb [] (y ∷ ys) = true
text_ltb (x ∷ xs) [] = false
text_ltb (x ∷ xs) (y ∷ ys) = ltb x y || (nat_beq x y && text_ltb xs ys)

pub text_ltb_irrefl : (s : Text) → text_ltb s s ≡ false
unfolding text_ltb
text_ltb_irrefl [] = refl
text_ltb_irrefl (x ∷ xs) = ground (arith, text_ltb_irrefl xs)

pub text_ltb_trans :
    (s t u : Text) → text_ltb s t ≡ true → text_ltb t u ≡ true → text_ltb s u ≡ true
unfolding text_ltb
text_ltb_trans [] [] u p q = cc
text_ltb_trans [] (y ∷ t) [] p q = cc
text_ltb_trans [] (y ∷ t) (z ∷ u) p q = refl
text_ltb_trans (x ∷ s) [] u p q = cc
text_ltb_trans (x ∷ s) (y ∷ t) [] p q = cc
text_ltb_trans (x ∷ s) (y ∷ t) (z ∷ u) p q = ground (arith, text_ltb_trans s t u)

-- Of two different texts one comes first.
pub text_ltb_connex : (s t : Text) → text_ltb s t ≡ false → text_ltb t s ≡ false → s ≡ t
unfolding text_ltb
text_ltb_connex [] [] p q = refl
text_ltb_connex [] (y ∷ t) p q = cc
text_ltb_connex (x ∷ s) [] p q = cc
text_ltb_connex (x ∷ s) (y ∷ t) p q = ground (arith, text_ltb_connex s t)

pub text_ltb_asym : (s t : Text) → text_ltb s t ≡ true → text_ltb t s ≡ false
text_ltb_asym s t h = ground (arith, text_ltb_trans s t s h, text_ltb_irrefl s)

pub text_ltb_neg_trans :
    (s t u : Text) → text_ltb s t ≡ false → text_ltb t u ≡ false → text_ltb s u ≡ false
text_ltb_neg_trans s t u p q = elim (Bool-cases (text_ltb u t)) [
  | inl e ↦ elim (Bool-cases (text_ltb s u)) [
    | inl h ↦ ground (arith, text_ltb_trans s u t h e)
    | inr h ↦ h
  ]
  | inr e ↦ subst (λ x. text_ltb s x ≡ false) (text_ltb_connex t u q e) p
]
