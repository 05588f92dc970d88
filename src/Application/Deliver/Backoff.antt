-- ===== src/Application/Deliver/Backoff.antt =====
-- `backoff` of internal/application/deliver/service.go: a delay that doubles up to five minutes. The
-- digest and the products with a float are the argument `Jitter`. Durations are numbers of nanoseconds.
use flow_stitch.Base.{
  ℕ, zero, suc, ◌+◌, ◌-◌, ◌*◌, ◌^◌, ◌≤◌, ◌≡◌, min, true, if◌then◌else◌, ltb, leb, ◌||◌, Text, codes,
  ◌++◌,
}
use flow_stitch.Base.Decimal.{itoa}
use flow_stitch.Base.Int.{pos}

unfoldable pub base_backoff : ℕ
base_backoff = 10 ^ 9

unfoldable pub maximum_backoff : ℕ
maximum_backoff = 300 * 10 ^ 9

-- `sample t` is the number of the first two bytes of the SHA-256 of a text; `fraction_of n d` is
-- `Duration(float64(d) * (float64(n) / 65535))` and `upper_quarter n d` is
-- `Duration(float64(d) * (0.75 + float64(n)/65535*0.25))`.
pub record Jitter : Type 0 where
  pub sample : Text → ℕ
  pub fraction_of : ℕ → ℕ → ℕ
  pub upper_quarter : ℕ → ℕ → ℕ

-- What the products are known to be: between none and all, and between three quarters and all.
pub record JitterLaws (j : Jitter) : Type 0 where
  pub fraction-le : (t : Text) (d : ℕ) → j.fraction_of (j.sample t) d ≤ d
  pub quarter-le : (t : Text) (d : ℕ) → j.upper_quarter (j.sample t) d ≤ d
  pub quarter-ge : (t : Text) (d : ℕ) → 3 * d ≤ 4 * j.upper_quarter (j.sample t) d

-- `baseBackoff * time.Duration(1<<shift)`, the shift at most 30.
unfoldable pub raw_backoff : ℕ → ℕ
raw_backoff attempt = base_backoff * 2 ^ min (attempt - 1) 30

-- `for floor*2 < maximumBackoff { floor *= 2 }`
unfoldable pub raise_floor : ℕ → ℕ → ℕ
raise_floor zero floor = floor
raise_floor (suc fuel) floor =
    let raised = raise_floor fuel (floor * 2) in
    if ltb (floor * 2) maximum_backoff then raised else floor

unfoldable pub backoff_floor : ℕ
backoff_floor = raise_floor 9 base_backoff

unfoldable pub backoff : Jitter → Text → ℕ → ℕ
backoff j id attempt =
    if leb maximum_backoff (raw_backoff attempt)
    then backoff_floor
      + j.fraction_of (j.sample (id ++ codes ":cap")) (maximum_backoff - backoff_floor)
    else j.upper_quarter (j.sample (id ++ (codes ":" ++ itoa (pos attempt)))) (raw_backoff attempt)

module _ (j : Jitter) (laws : JitterLaws j) where
  -- What is claimed of the delays of an attempt and the next.
  abbrev pub Grows : Text → ℕ → Type 0
  Grows id n =
      (3 * base_backoff ≤ 4 * backoff j id n)
      × (backoff j id n ≤ maximum_backoff)
      × (backoff j id n ≤ backoff j id (suc n))
      × ((leb maximum_backoff (raw_backoff (suc n)) || ltb (backoff j id n) (backoff j id (suc n)))
          ≡ true)
