-- ===== src/Domain/Rule/GroupFields.antt =====
-- `GroupFields` names the group paths without collision: the search for a free suffix ends.
use flow_stitch.Base.{
  ℕ, zero, suc, ◌+◌, ◌≤◌, ◌<◌, ◌≡◌, ◌≢◌, refl, sym, ap, subst, ◌∙◌, true, false, List, [], ◌∷◌,
  ◌++◌, Text, arith, length, text_eq, text_beq_iff, ◌==◌, if◌then◌else◌, Bool-cases, inl, inr,
  get_elem?, some,
}
use flow_stitch.Base.Int.{pos}
use flow_stitch.Base.Decimal.{itoa, format_nat, value, value-format_nat, format_nat-ne-nil}
use flow_stitch.Domain.DocPath.{DocPath, last_segment}
use flow_stitch.Domain.Rule.{Stitch, has, free_name, group_fields_from, group_fields}

-- The n-th name that is tried behind `base`, counting from suffix `k`.
drop_member : Text → List Text → List Text
drop_member t [] = []
drop_member t (u ∷ us) = let rest = drop_member t us in if u == t then us else u ∷ rest

length-drop_member :
    (t : Text) (us : List Text) → has t us ≡ true → length us ≡ suc (length (drop_member t us))
unfolding has drop_member
length-drop_member t [] h = cc
length-drop_member t (u ∷ us) h = ground (arith, length-drop_member t us)

has-drop_member :
    (t u : Text) (us : List Text) → t ≢ u → has u us ≡ true → has u (drop_member t us) ≡ true
unfolding has drop_member
has-drop_member t u [] n h = cc
has-drop_member t u (x ∷ us) n h =
    ground (arith, has-drop_member t u us n, text_beq_iff x t, text_beq_iff x u)

-- All of `n` suffixed names from `k` on are used.
AllUsed : ℕ → List Text → Text → ℕ → Type 0
AllUsed n used base k = (i : ℕ) → i < n → has (base ++ itoa (pos (k + i))) used ≡ true

append-cancel : (a s t : Text) → a ++ s ≡ a ++ t → s ≡ t
append-cancel [] s t h = h
append-cancel (x ∷ a) s t h = append-cancel a s t (cc)

suffixed-injective : (base : Text) (m n : ℕ) → base ++ itoa (pos m) ≡ base ++ itoa (pos n) → m ≡ n
unfolding itoa
suffixed-injective base m n h =
    sym (value-format_nat m)
    ∙ ap (value 0) (append-cancel base (format_nat m) (format_nat n) h)
    ∙ value-format_nat n

-- Distinct names that are all in a list are no more than the list has members.
AllUsed-le :
    (n : ℕ) (used : List Text) (base : Text) (k : ℕ) → AllUsed n used base k → n ≤ length used
unfolding AllUsed
AllUsed-le zero used base k h = omega arith
AllUsed-le (suc n) used base k h =
    let t = base ++ itoa (pos (k + n)) in
    omega (
      arith,
      length-drop_member t used (h n (omega arith)),
      AllUsed-le n (drop_member t used) base k (λ i lt.
          has-drop_member t (base ++ itoa (pos (k + i))) used
            (λ e. absurd (omega (arith, suffixed-injective base (k + n) (k + i) e)))
            (h i (omega arith))),
    )

-- A name that is used after all means that every candidate before it was used.
free_name_used :
    (fuel : ℕ) (used : List Text) (base : Text) (k : ℕ) (name : Text)
    → has (free_name fuel used base k name) used ≡ true
    → (has name used ≡ true) × AllUsed fuel used base k
unfolding free_name AllUsed
free_name_used zero used base k name h = (h, λ i lt. elim lt [ ])
free_name_used (suc fuel) used base k name h = elim (Bool-cases (has name used)) [
  | inr free ↦ cc (rw (free, free_name) at h)
  | inl taken ↦
      let (next, rest) =
        free_name_used fuel used base (k + 1) (base ++ itoa (pos k)) (rw (taken, free_name) at h) in
      (taken, λ i lt. at_index next rest i lt)
]
  where
    at_index :
        has (base ++ itoa (pos k)) used ≡ true
        → AllUsed fuel used base (k + 1)
        → (i : ℕ) → i < suc fuel
        → has (base ++ itoa (pos (k + i))) used ≡ true
    at_index next rest zero lt =
        subst (λ n. has (base ++ itoa (pos n)) used ≡ true) (omega arith) next
    at_index next rest (suc i) lt =
        subst (λ n. has (base ++ itoa (pos n)) used ≡ true) (omega arith) (rest i (omega arith))

base-ne-suffixed : (base : Text) (n : ℕ) → base ≢ base ++ itoa (pos n)
unfolding itoa
base-ne-suffixed [] n h = format_nat-ne-nil n (sym h)
base-ne-suffixed (x ∷ base) n h = base-ne-suffixed base n (cc)

-- The search ends with a free name: among as many suffixes as there are used names, and the bare
-- name, one is free.
free_name_free :
    (used : List Text) (base : Text) → has (free_name (length used) used base 2 base) used ≡ false
unfolding AllUsed
free_name_free used base = elim (Bool-cases (has (free_name (length used) used base 2 base) used)) [
  | inr free ↦ free
  | inl taken ↦ absurd (crowded (free_name_used (length used) used base 2 base taken))
]
  where
    crowded : (has base used ≡ true) × AllUsed (length used) used base 2 → ⊥
    crowded (b, all) = omega (
      arith,
      length-drop_member base used b,
      AllUsed-le (length used) (drop_member base used) base 2 (λ i lt.
          has-drop_member base (base ++ itoa (pos (2 + i))) used (base-ne-suffixed base (2 + i))
            (all i lt)),
    )

Fresh : List Text → List Text → Type 0
Fresh used [] = Unit
Fresh used (n ∷ ns) = (has n used ≡ false) × Fresh (n ∷ used) ns

group_fields_from-Fresh :
    (used : List Text) (ps : List DocPath) → Fresh used (group_fields_from used ps)
unfolding Fresh group_fields_from
group_fields_from-Fresh used [] = tt
group_fields_from-Fresh used (p ∷ ps) = (
  free_name_free used (last_segment p),
  group_fields_from-Fresh (free_name (length used) used (last_segment p) 2 (last_segment p) ∷ used)
      ps,
)

length-group_fields_from :
    (used : List Text) (ps : List DocPath) → length (group_fields_from used ps) ≡ length ps
unfolding group_fields_from
length-group_fields_from used [] = refl
length-group_fields_from used (p ∷ ps) = ap suc (
    length-group_fields_from
      (free_name (length used) used (last_segment p) 2 (last_segment p) ∷ used) ps)

Fresh-has :
    (used ns : List Text) (i : ℕ) (n : Text)
    → Fresh used ns
    → has n used ≡ true
    → get_elem? ns i ≢ some n
unfolding Fresh has
Fresh-has used [] i n f h e = cc
Fresh-has used (x ∷ ns) zero n f h e = ground (arith, f.0)
Fresh-has used (x ∷ ns) (suc i) n f h e = Fresh-has (x ∷ used) ns i n f.1 (ground arith) e

Fresh-distinct :
    (used ns : List Text) (i j : ℕ) (n : Text)
    → Fresh used ns
    → get_elem? ns i ≡ some n
    → get_elem? ns j ≡ some n
    → i ≡ j
unfolding Fresh has
Fresh-distinct used [] i j n f p q = cc
Fresh-distinct used (x ∷ ns) zero zero n f p q = refl
Fresh-distinct used (x ∷ ns) zero (suc j) n f p q =
    absurd (Fresh-has (x ∷ used) ns j n f.1 (ground (arith, text_beq_iff x n)) q)
Fresh-distinct used (x ∷ ns) (suc i) zero n f p q =
    absurd (Fresh-has (x ∷ used) ns i n f.1 (ground (arith, text_beq_iff x n)) p)
Fresh-distinct used (x ∷ ns) (suc i) (suc j) n f p q =
    ap suc (Fresh-distinct (x ∷ used) ns i j n f.1 p q)

-- A stitch rule has one output field for each group path, and no two paths share a field, however
-- the paths' last segments repeat or end in digits.
pub group_fields_distinct :
    (s : Stitch) (i j : ℕ) (n : Text)
    → get_elem? (group_fields s) i ≡ some n
    → get_elem? (group_fields s) j ≡ some n
    → (length (group_fields s) ≡ length s.group_by) × (i ≡ j)
unfolding group_fields
group_fields_distinct s i j n p q = (
  length-group_fields_from [] s.group_by,
  Fresh-distinct [] (group_fields_from [] s.group_by) i j n (group_fields_from-Fresh [] s.group_by)
      p q,
)
