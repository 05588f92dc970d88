-- ===== src/Base/Decimal.antt =====
-- `strconv.Itoa`, and the reading of a run of decimal digits.
use flow_stitch.Base.{
  ℕ, zero, suc, ◌+◌, ◌-◌, ◌*◌, ◌/◌, ◌%◌, ◌≤◌, ◌<◌, ◌≡◌, refl, ◌≢◌, Bool, ◌&&◌, [], ◌∷◌, ◌++◌, arith,
  ltb, leb, if◌then◌else◌, Text, codes, All, All-append, Bool-cases, inl, inr,
}
use flow_stitch.Base.Int.{ℤ, pos, negsuc}

unfoldable pub digits : ℕ → ℕ → Text
digits zero n = []
digits (suc fuel) n =
    let front = digits fuel (n / 10) in
    if ltb n 10 then (b'0' + n) ∷ [] else front ++ (b'0' + n % 10) ∷ []

-- The decimal text of a natural number: each round divides it by ten, so `n + 1` rounds suffice.
unfoldable pub format_nat : ℕ → Text
unfolding digits
format_nat n = digits (n + 1) n

unfoldable pub itoa : ℤ → Text
unfolding format_nat
itoa (pos n) = format_nat n
itoa (negsuc n) = b'-' ∷ format_nat (n + 1)

unfoldable pub is_digit : ℕ → Bool
is_digit c = leb b'0' c && leb c b'9'

abbrev pub IsDigit : ℕ → Type 0
IsDigit c = (b'0' ≤ c) × (c ≤ b'9')

-- The number that digits spell behind `n`.
unfoldable pub value : ℕ → Text → ℕ
value n [] = n
value n (c ∷ s) = value (n * 10 + (c - b'0')) s

value-append : (n : ℕ) (s t : Text) → value n (s ++ t) ≡ value (value n s) t
unfolding value
value-append n [] t = refl
value-append n (c ∷ s) t = value-append (n * 10 + (c - b'0')) s t

-- Every digit of a decimal text is a digit.
digits-IsDigit : (fuel n : ℕ) → All IsDigit (digits fuel n)
unfolding digits
digits-IsDigit zero n = tt
digits-IsDigit (suc fuel) n = elim (Bool-cases (ltb n 10)) [
  | inl e ↦ rw e ((omega arith, ground arith), tt)
  | inr e ↦ rw e (
      All-append IsDigit (digits fuel (n / 10)) _ (digits-IsDigit fuel (n / 10))
        ((omega arith, omega arith), tt))
]

value-digits : (fuel n : ℕ) → n < fuel → value 0 (digits fuel n) ≡ n
unfolding digits value
value-digits zero n h = elim h [ ]
value-digits (suc fuel) n h = elim (Bool-cases (ltb n 10)) [
  | inl e ↦ rw e (omega arith)
  | inr e ↦ rw e (
      ground (
        arith,
        value-append 0 (digits fuel (n / 10)) ((b'0' + n % 10) ∷ []),
        value-digits fuel (n / 10),
      ))
]

digits-ne-nil : (fuel n : ℕ) → n < fuel → digits fuel n ≢ []
unfolding digits
digits-ne-nil zero n h = elim h [ ]
digits-ne-nil (suc fuel) n h = elim (Bool-cases (ltb n 10)) [
  | inl e ↦ rw e (λ p. cc)
  | inr e ↦ rw e (snoc-ne-nil (digits fuel (n / 10)))
]
  where
    snoc-ne-nil : (s : Text) → s ++ (b'0' + n % 10) ∷ [] ≢ []
    snoc-ne-nil [] p = cc
    snoc-ne-nil (c ∷ s) p = cc

pub format_nat-IsDigit : (n : ℕ) → All IsDigit (format_nat n)
unfolding format_nat
format_nat-IsDigit n = digits-IsDigit (n + 1) n

pub value-format_nat : (n : ℕ) → value 0 (format_nat n) ≡ n
unfolding format_nat
value-format_nat n = value-digits (n + 1) n (omega arith)

pub format_nat-ne-nil : (n : ℕ) → format_nat n ≢ []
unfolding format_nat
format_nat-ne-nil n = digits-ne-nil (n + 1) n (omega arith)

itoa_test : itoa (negsuc 1233) ≡ codes "-1234"
unfolding itoa
itoa_test = refl
