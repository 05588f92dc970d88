-- ===== src/Domain/DocPath/Parts.antt =====
-- The parser's parts: what each reads back of what `canonical` prints, and what it accepts.
use mathlib.Core.List.{append_assoc, append-nil}
use flow_stitch.Base.{
  ℕ, ◌+◌, ◌≤◌, ◌≡◌, ◌≢◌, refl, Bool, true, false, ◌||◌, [], ◌∷◌, ◌++◌, arith, Text, nat_eq, ◌==◌,
  ok, is_nil, All, Bool-cases, inl, inr, not,
}
use flow_stitch.Base.Int.{ℤ, pos, negsuc}
use flow_stitch.Base.Decimal.{
  itoa, is_digit, IsDigit, format_nat, format_nat-IsDigit, value-format_nat, format_nat-ne-nil,
}
use flow_stitch.Domain.DocPath.Canonical.{has_bare_end, escape_key}
use flow_stitch.Domain.DocPath.{
  key_segment, index_segment, CompileError, unterminated_key, bad_index, span_bare, quoted,
  span_digits, max_int, atoi, strip_minus, closing, bracket_index, bracket_key, bracket,
}

-- The text is at the end of a bare key.
abbrev pub at_bare_end : Text → Bool
at_bare_end [] = true
at_bare_end (c ∷ s) = c == b'.' || c == b'['

pub span_bare-append :
    (k rest : Text)
    → has_bare_end k ≡ false
    → at_bare_end rest ≡ true
    → span_bare (k ++ rest) ≡ (k, rest)
unfolding span_bare has_bare_end
span_bare-append [] [] h e = refl
span_bare-append [] (c ∷ s) h e = ground arith
span_bare-append (c ∷ k) rest h e = ground (arith, span_bare-append k rest)

-- A byte that is neither a quote nor a backslash goes into the key.
quoted_plain :
    (acc : Text) (c : ℕ) (s : Text)
    → (c == b'"') ≡ false
    → (c == b'\\') ≡ false
    → quoted acc (c ∷ s) ≡ quoted (acc ++ c ∷ []) s
unfolding quoted
quoted_plain acc c [] p q = ground arith
quoted_plain acc c (d ∷ s) p q = ground arith

quoted_escaped :
    (acc : Text) (c : ℕ) (s : Text)
    → (c == b'\\' || c == b'"') ≡ true
    → quoted acc (b'\\' ∷ c ∷ s) ≡ quoted (acc ++ c ∷ []) s
unfolding quoted
quoted_escaped acc c s p = ground arith

quoted_end : (acc rest : Text) → quoted acc (b'"' ∷ rest) ≡ ok (acc, rest)
unfolding quoted
quoted_end acc [] = refl
quoted_end acc (d ∷ rest) = refl

pub quoted-escape_key :
    (acc k rest : Text) → quoted acc (escape_key k ++ b'"' ∷ rest) ≡ ok (acc ++ k, rest)
unfolding escape_key
quoted-escape_key acc [] rest = simp (append-nil, quoted_end)
quoted-escape_key acc (c ∷ k) rest = elim (Bool-cases (c == b'\\' || c == b'"')) [
  | inl e ↦
      rw
        (
          e,
          quoted_escaped acc c (escape_key k ++ b'"' ∷ rest) e,
          quoted-escape_key (acc ++ c ∷ []) k rest,
        )
        (simp append_assoc)
  | inr e ↦
      rw
        (
          e,
          quoted_plain acc c (escape_key k ++ b'"' ∷ rest) (ground arith) (ground arith),
          quoted-escape_key (acc ++ c ∷ []) k rest,
        )
        (simp append_assoc)
]

abbrev pub no_digit_first : Text → Bool
no_digit_first [] = true
no_digit_first (c ∷ s) = not (is_digit c)

pub span_digits-append :
    (ds rest : Text)
    → All IsDigit ds
    → no_digit_first rest ≡ true
    → span_digits (ds ++ rest) ≡ (ds, rest)
unfolding span_digits is_digit
span_digits-append [] [] h e = refl
span_digits-append [] (c ∷ s) h e = ground arith
span_digits-append (c ∷ ds) rest h e = ground (arith, span_digits-append ds rest h.1)

-- The range of a 64-bit `int`.
abbrev pub IsInt : ℤ → Type 0
IsInt (pos n) = n ≤ max_int
IsInt (negsuc n) = n ≤ max_int

strip_minus_digits :
    (ds rest : Text) → All IsDigit ds → ds ≢ [] → strip_minus (ds ++ rest) ≡ (false, ds ++ rest)
unfolding strip_minus
strip_minus_digits [] rest h e = absurd (e refl)
strip_minus_digits (c ∷ ds) rest h e = ground arith

strip_minus_minus : (s : Text) → strip_minus (b'-' ∷ s) ≡ (true, s)
unfolding strip_minus
strip_minus_minus s = refl

closing_bracket : (e : CompileError) (s : Text) → closing e (b']' ∷ s) ≡ ok s
unfolding closing
closing_bracket e s = refl

bracket_no_digit : (s : Text) → no_digit_first (b']' ∷ s) ≡ true
unfolding is_digit
bracket_no_digit s = refl

is_nil-false : (s : Text) → s ≢ [] → is_nil s ≡ false
is_nil-false [] h = absurd (h refl)
is_nil-false (c ∷ s) h = refl

scanned :
    (m : ℕ) (rest : Text) → span_digits (format_nat m ++ b']' ∷ rest) ≡ (format_nat m, b']' ∷ rest)
scanned m rest =
    span_digits-append (format_nat m) (b']' ∷ rest) (format_nat-IsDigit m) (bracket_no_digit rest)

-- A printed index is read back, with the text behind it.
pub bracket_index-itoa :
    (n : ℤ) (rest : Text)
    → IsInt n
    → bracket_index (itoa n ++ b']' ∷ rest) ≡ ok (index_segment n, rest)
unfolding bracket_index itoa atoi
bracket_index-itoa (pos n) rest h =
    rw
      (
        strip_minus_digits (format_nat n) (b']' ∷ rest) (format_nat-IsDigit n)
            (format_nat-ne-nil n),
        scanned n rest,
        is_nil-false (format_nat n) (format_nat-ne-nil n),
        closing_bracket bad_index rest,
        value-format_nat n,
      )
      (ground arith)
bracket_index-itoa (negsuc n) rest h =
    rw
      (
        strip_minus_minus (format_nat (n + 1) ++ b']' ∷ rest),
        scanned (n + 1) rest,
        is_nil-false (format_nat (n + 1)) (format_nat-ne-nil (n + 1)),
        closing_bracket bad_index rest,
        value-format_nat (n + 1),
      )
      (ground arith)

-- A printed key is read back, whatever bytes it holds.
pub bracket_key-escape_key :
    (k rest : Text) → bracket_key (escape_key k ++ b'"' ∷ b']' ∷ rest) ≡ ok (key_segment k, rest)
unfolding bracket_key
bracket_key-escape_key k rest =
    rw (quoted-escape_key [] k (b']' ∷ rest), closing_bracket unterminated_key rest)

itoa-head :
    (n : ℤ) (rest : Text) → (c : ℕ) × (s : Text) × (itoa n ++ rest ≡ c ∷ s) × ((c == b'"') ≡ false)
unfolding itoa
itoa-head (negsuc n) rest = (b'-', format_nat (n + 1) ++ rest, refl, refl)
itoa-head (pos n) rest = head_of (format_nat n) (format_nat-ne-nil n) (format_nat-IsDigit n)
  where
    head_of :
        (s : Text)
        → s ≢ []
        → All IsDigit s
        → (c : ℕ) × (t : Text) × (s ++ rest ≡ c ∷ t) × ((c == b'"') ≡ false)
    head_of [] h d = absurd (h refl)
    head_of (c ∷ s) h d = (c, s ++ rest, refl, ground arith)

-- One printed bracket is read back, behind its `[`.
pub bracket-index :
    (n : ℤ) (rest : Text) → IsInt n → bracket (itoa n ++ b']' ∷ rest) ≡ ok (index_segment n, rest)
unfolding bracket
bracket-index n rest h =
    let (c, s, e, q) = itoa-head n (b']' ∷ rest) in
    rw (e, bracket) (rw q (rw (← e) (bracket_index-itoa n rest h)))

pub bracket-key :
    (k rest : Text) → bracket (b'"' ∷ escape_key k ++ b'"' ∷ b']' ∷ rest) ≡ ok (key_segment k, rest)
unfolding bracket
bracket-key k rest = bracket_key-escape_key k rest
