-- ===== src/Domain/IndexName.antt =====
-- internal/domain/indexname/index.go: output-index patterns with date placeholders. The map of
-- placeholders is visited in one order; no replacement holds a brace, so that others agree.
pub mod Terminates
use flow_stitch.Base.{
  ℕ, zero, suc, ◌+◌, ◌-◌, ◌*◌, ◌/◌, ◌%◌, min, Bool, true, false, ◌&&◌, ◌||◌, not, Option, none,
  some, List, [], ◌∷◌, ◌++◌, Text, codes, text_eq, nat_eq, ◌==◌, if◌then◌else◌, ltb, Result, ok,
  err, ◌>>◌, guard, length,
}
use flow_stitch.Base.Decimal.{format_nat}
use flow_stitch.Domain.Instant.{Instant, is_zero}

pub data PatternError : Type 0 where
  unterminated unmatched_closing pattern_fuel : PatternError
  unknown_placeholder : Text → PatternError

abbrev pub opening_brace : ℕ
opening_brace = 123

abbrev pub closing_brace : ℕ
closing_brace = 125

-- The names that `placeholders` holds.
unfoldable pub is_placeholder : Text → Bool
is_placeholder name = name == codes "yyyy" || name == codes "MM" || name == codes "dd"

-- `strings.IndexByte(s, c)`, with the text before the byte and the text behind it.
unfoldable pub cut_at : ℕ → Text → Option (Text × Text)
cut_at c [] = none
cut_at c (d ∷ s) = elim (d == c) [
  | true ↦ some ([], s)
  | false ↦ elim (cut_at c s) [ none ↦ none | some (front, back) ↦ some (d ∷ front, back) ]
]

unfoldable pub contains : ℕ → Text → Bool
contains c [] = false
contains c (d ∷ s) = d == c || contains c s

-- The first loop: a round for each placeholder, from `pattern[offset:]`.
unfoldable pub check_placeholders : ℕ → Text → Result PatternError (Unit {0})
check_placeholders zero s = err pattern_fuel
check_placeholders (suc fuel) s = elim (cut_at opening_brace s) [
  | none ↦ ok tt
  | some (front, back) ↦ elim (cut_at closing_brace back) [
    | none ↦ err unterminated
    | some (name, rest) ↦ elim (is_placeholder name) [
      | true ↦ check_placeholders fuel rest
      | false ↦ err (unknown_placeholder name)
    ]
  ]
]

-- The second loop: `pattern` without its placeholders.
unfoldable pub without_placeholders : ℕ → Text → Text
without_placeholders zero s = s
without_placeholders (suc fuel) s = elim (cut_at opening_brace s) [
  | none ↦ s
  | some (front, back) ↦ elim (cut_at closing_brace back) [
    | none ↦ s
    | some (name, rest) ↦ without_placeholders fuel (front ++ rest)
  ]
]

unfoldable pub validate_pattern : Text → Result PatternError (Unit {0})
validate_pattern pattern =
    check_placeholders (length pattern + 1) pattern
    >> guard
        (not (
          contains closing_brace pattern
          && contains closing_brace (without_placeholders (length pattern) pattern)))
        unmatched_closing

unfoldable pub has_prefix : Text → Text → Bool
has_prefix [] s = true
has_prefix (p ∷ ps) [] = false
has_prefix (p ∷ ps) (c ∷ s) = p == c && has_prefix ps s

-- `strings.ReplaceAll` for an `old` that is not empty; `skip` bytes belong to the last match.
unfoldable pub replace_from : Text → Text → ℕ → Text → Text
replace_from old new skip [] = []
replace_from old new (suc skip) (c ∷ s) = replace_from old new skip s
replace_from old new zero (c ∷ s) = elim (has_prefix old (c ∷ s)) [
  | true ↦ new ++ replace_from old new (length old - 1) s
  | false ↦ c ∷ replace_from old new 0 s
]

unfoldable pub replace_all : Text → Text → Text → Text
replace_all s old new = replace_from old new 0 s

-- The civil date of an instant (`UTC`): whole days since 1 January of year 1, split by the
-- 400-year cycle of the calendar.
abbrev day_count : Instant → ℕ
day_count t = t / 86400000000000

-- The year, and the day in it counted from 0.
unfoldable pub year_and_day : Instant → ℕ × ℕ
year_and_day t =
    let d = day_count t in
    let n400 = d / 146097 in
    let d400 = d % 146097 in
    let n100 = min 3 (d400 / 36524) in
    let d100 = d400 - n100 * 36524 in
    let n4 = d100 / 1461 in
    let d4 = d100 % 1461 in
    let n1 = min 3 (d4 / 365) in (400 * n400 + 100 * n100 + 4 * n4 + n1 + 1, d4 - n1 * 365)

unfoldable pub is_leap : ℕ → Bool
is_leap y = y % 4 == 0 && (not (y % 100 == 0) || y % 400 == 0)

unfoldable pub month_lengths : ℕ → List ℕ
month_lengths y =
    31 ∷ (if is_leap y then 29 else 28) ∷ 31 ∷ 30 ∷ 31 ∷ 30 ∷ 31 ∷ 31 ∷ 30 ∷ 31 ∷ 30 ∷ 31 ∷ []

-- The month counted from `m`, and the day in it counted from 1.
unfoldable pub month_and_day : ℕ → List ℕ → ℕ → ℕ × ℕ
month_and_day m [] d = (m, d + 1)
month_and_day m (n ∷ ns) d = elim (ltb d n) [
  | true ↦ (m, d + 1)
  | false ↦ month_and_day (m + 1) ns (d - n)
]

unfoldable pub pad_to : ℕ → Text → Text
pad_to zero s = s
pad_to (suc width) s = elim (ltb (length s) (suc width)) [ true ↦ 48 ∷ pad_to width s | false ↦ s ]

-- `at.Format("2006")`, `at.Format("01")` and `at.Format("02")`
unfoldable pub format_year : Instant → Text
format_year t = pad_to 4 (format_nat (year_and_day t).0)

unfoldable pub month_of : Instant → ℕ × ℕ
month_of t = let (y, d) = year_and_day t in month_and_day 1 (month_lengths y) d

unfoldable pub format_month : Instant → Text
format_month t = pad_to 2 (format_nat (month_of t).0)

unfoldable pub format_day : Instant → Text
format_day t = pad_to 2 (format_nat (month_of t).1)

unfoldable pub resolve_pattern : Text → Instant → Instant → Text
resolve_pattern pattern document_timestamp finalized_at =
    let at = if is_zero document_timestamp then finalized_at else document_timestamp in
    replace_all
      (replace_all (replace_all pattern (codes "{yyyy}") (format_year at)) (codes "{MM}")
        (format_month at))
      (codes "{dd}") (format_day at)

-- `WildcardPattern`: a round that changes the text shortens it.
unfoldable pub join_wildcards : Text → Text
join_wildcards s =
    replace_all (replace_all (replace_all s (codes "*.*") (codes "*")) (codes "*-*") (codes "*"))
      (codes "*_*") (codes "*")

unfoldable pub settle_wildcards : ℕ → Text → Text
settle_wildcards zero s = s
settle_wildcards (suc fuel) s = elim (join_wildcards s == s) [
  | true ↦ s
  | false ↦ settle_wildcards fuel (join_wildcards s)
]

unfoldable pub wildcard_pattern : Text → Text
wildcard_pattern pattern = settle_wildcards (length pattern + 1) (
    replace_all
      (replace_all (replace_all pattern (codes "{yyyy}") (codes "*")) (codes "{MM}") (codes "*"))
      (codes "{dd}") (codes "*"))
