-- ===== src/Domain/Instant.antt =====
-- Go's `time.Time` and `time.Duration` as the domain uses them. An instant counts nanoseconds
-- since Go's zero time (1 January of year 1), so the zero time is 0; a duration is signed.
use flow_stitch.Base.{ℕ, ◌+◌, ◌-◌, Bool, ltb, nat_beq}
use flow_stitch.Base.Int.{ℤ, pos_part, neg_part, sub_ℕ}

abbrev pub Instant : Type 0
Instant = ℕ

abbrev pub Duration : Type 0
Duration = ℤ

abbrev pub zero_time : Instant
zero_time = 0

-- `t.IsZero()`
abbrev pub is_zero : Instant → Bool
is_zero t = nat_beq t 0

-- `t.Before(u)`, `t.After(u)`, `t.Equal(u)`
abbrev pub before : Instant → Instant → Bool
before t u = ltb t u

abbrev pub after : Instant → Instant → Bool
after t u = ltb u t

abbrev pub same_instant : Instant → Instant → Bool
same_instant t u = nat_beq t u

-- `t.Add(d)`
abbrev pub add : Instant → Duration → Instant
add t d = t + pos_part d - neg_part d

-- `t.Sub(u)`
abbrev pub sub : Instant → Instant → Duration
sub t u = sub_ℕ t u

-- `d <= 0`
abbrev pub not_positive : Duration → Bool
not_positive d = nat_beq (pos_part d) 0
