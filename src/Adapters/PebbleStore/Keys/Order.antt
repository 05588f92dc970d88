-- ===== src/Adapters/PebbleStore/Keys/Order.antt =====
-- The expiry keys of internal/adapters/state/pebble/store.go sort by deadline, so that a scan up to
-- an instant meets every deadline that has passed.
use mathlib.Core.List.{append_assoc}
use flow_stitch.Base.{
  ℕ, zero, suc, ◌+◌, ◌*◌, ◌/◌, ◌%◌, ◌^◌, ◌<◌, ◌≤◌, ◌≡◌, refl, true, false, ◌&&◌, ◌||◌, [], ◌∷◌,
  ◌++◌, Text, text_ltb, nat_eq, ◌==◌, ltb, arith,
}
use flow_stitch.Domain.Instant.{Instant}
use flow_stitch.Domain.Flow.Defs.{FlowKey}
use flow_stitch.Adapters.PebbleStore.Keys.{
  big_endian, shifted_millis, epoch_millis, expiry_time_prefix, expiry_key, expiry_prefix, key_path,
  prefix_end,
}

-- 256 ^ n
abbrev bytes_bound : ℕ → ℕ
bytes_bound zero = 1
bytes_bound (suc n) = 256 * bytes_bound n

big_endian-ltb :
    (n a b : ℕ) (s t : Text)
    → a < bytes_bound n
    → b < bytes_bound n
    → text_ltb (big_endian n a ++ s) (big_endian n b ++ t) ≡ (ltb a b || (a == b && text_ltb s t))
unfolding big_endian
big_endian-ltb zero a b s t p q = ground arith
big_endian-ltb (suc n) a b s t p q =
    rw
      (
        append_assoc (big_endian n (a / 256)) ((a % 256) ∷ []) s,
        append_assoc (big_endian n (b / 256)) ((b % 256) ∷ []) t,
        big_endian-ltb n (a / 256) (b / 256) ((a % 256) ∷ s) ((b % 256) ∷ t) (omega arith)
            (omega arith),
      )
      (step a b s t)
  where
    step :
        (a b : ℕ) (s t : Text)
        → (ltb (a / 256) (b / 256)
            || (a / 256 == b / 256 && text_ltb ((a % 256) ∷ s) ((b % 256) ∷ t)))
          ≡ (ltb a b || (a == b && text_ltb s t))
    step a b s t = unfold text_ltb in ground arith

-- The instants whose milliseconds do not wrap.
abbrev pub IsInRange : Instant → Type 0
IsInRange at = at / 1000000 < 2 ^ 63 + 62135596800000

shifted_millis-le :
    (at now : Instant) → at ≤ now → IsInRange now → shifted_millis at ≤ shifted_millis now
unfolding shifted_millis epoch_millis
shifted_millis-le at now l r = omega arith

shifted_millis-lt : (at : Instant) → shifted_millis at < bytes_bound 8
unfolding shifted_millis
shifted_millis-lt at = omega arith

-- The bounds of the scan for what is due at `now`.
pub expiry_key-lt_bound :
    (at now : Instant) (k : FlowKey)
    → at ≤ now
    → IsInRange now
    → text_ltb (expiry_key at k) (prefix_end (expiry_time_prefix now)) ≡ true
unfolding expiry_key expiry_time_prefix prefix_end text_ltb
expiry_key-lt_bound at now k l r = ground (
  arith,
  big_endian-ltb 8 (shifted_millis at) (shifted_millis now) (b'/' ∷ key_path k) (255 ∷ [])
      (shifted_millis-lt at) (shifted_millis-lt now),
  shifted_millis-le at now l r,
)

pub expiry_key-ge_prefix :
    (at : Instant) (k : FlowKey) → text_ltb (expiry_key at k) expiry_prefix ≡ false
unfolding expiry_key expiry_time_prefix expiry_prefix text_ltb big_endian
expiry_key-ge_prefix at k = refl
