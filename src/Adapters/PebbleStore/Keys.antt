-- ===== src/Adapters/PebbleStore/Keys.antt =====
-- The keys of internal/adapters/state/pebble/store.go, with `url.PathEscape` and
-- `url.PathUnescape` of Go's library, which they use.
pub mod RoundTrip
pub mod Order
use flow_stitch.Base.{
  ℕ, zero, suc, ◌+◌, ◌-◌, ◌*◌, ◌/◌, ◌%◌, ◌^◌, Bool, true, false, ◌&&◌, ◌||◌, not, Option, none,
  some, List, [], ◌∷◌, ◌++◌, Text, codes, text_eq, nat_eq, ◌==◌, if◌then◌else◌, ltb, leb, take,
  drop, length, get_elem?, or_else,
}
use flow_stitch.Domain.Instant.{Instant}
use flow_stitch.Domain.Flow.Defs.{FlowKey}

unfoldable pub is_between : ℕ → ℕ → ℕ → Bool
is_between lo hi c = leb lo c && leb c hi

-- The bytes that a path segment holds as they are.
unfoldable pub is_plain : ℕ → Bool
is_plain c =
    is_between b'a' b'z' c
    || is_between b'A' b'Z' c
    || is_between b'0' b'9' c
    || c == b'-'
    || c == b'_'
    || c == b'.'
    || c == b'~'
    || c == b'$'
    || c == b'&'
    || c == b'+'
    || c == b':'
    || c == b'='
    || c == b'@'

unfoldable pub hex_digit : ℕ → ℕ
hex_digit d = if ltb d 10 then d + 48 else d + 55

unfoldable pub path_escape : Text → Text
path_escape [] = []
path_escape (c ∷ cs) =
    let rest = path_escape cs in
    if is_plain c then c ∷ rest else b'%' ∷ hex_digit (c / 16) ∷ hex_digit (c % 16) ∷ rest

unfoldable pub unhex : ℕ → Option ℕ
unhex c =
    if is_between b'0' b'9' c
    then some (c - 48)
    else if is_between b'a' b'f' c
    then some (c - 87)
    else if is_between b'A' b'F' c
    then some (c - 55)
    else none

-- What follows a percent sign, before the rest.
unfoldable pub unescaped : Option ℕ → Option ℕ → Option Text → Option Text
unescaped (some hi) (some lo) (some rest) = some ((hi * 16 + lo) ∷ rest)
unescaped _ _ _ = none

unfoldable pub after_plain : ℕ → Option Text → Option Text
after_plain c none = none
after_plain c (some rest) = some (c ∷ rest)

unfoldable pub path_unescape : Text → Option Text
path_unescape [] = some []
path_unescape (c ∷ []) = if c == b'%' then none else some (c ∷ [])
path_unescape (c ∷ d ∷ []) =
    let rest = path_unescape (d ∷ []) in if c == b'%' then none else after_plain c rest
path_unescape (c ∷ d ∷ e ∷ cs) = elim (c == b'%') [
  | true ↦ unescaped (unhex d) (unhex e) (path_unescape cs)
  | false ↦ after_plain c (path_unescape (d ∷ e ∷ cs))
]

unfoldable pub flow_prefix : Text
flow_prefix = codes "f/"

unfoldable pub expiry_prefix : Text
expiry_prefix = codes "x/"

unfoldable pub outbox_prefix : Text
outbox_prefix = codes "o/"

unfoldable pub dead_prefix : Text
dead_prefix = codes "d/"

unfoldable pub dropped_key : Text
dropped_key = codes "m/dlq-dropped"

-- A rule and a correlation key, escaped, with a slash between.
unfoldable pub key_path : FlowKey → Text
key_path k = path_escape k.rule_id ++ (b'/' ∷ path_escape k.correlation_key)

unfoldable pub flow_key : FlowKey → Text
flow_key k = b'f' ∷ b'/' ∷ key_path k

-- `bytes.SplitN(raw, "/", 2)` in two parts.
unfoldable pub split_slash : Text → Option (Text × Text)
split_slash [] = none
split_slash (c ∷ cs) = elim (c == b'/') [
  | true ↦ some ([], cs)
  | false ↦ elim (split_slash cs) [ none ↦ none | some (left, right) ↦ some (c ∷ left, right) ]
]

unfoldable pub parsed_parts : Option Text → Option Text → Option FlowKey
parsed_parts (some r) (some c) = some (record { rule_id = r; correlation_key = c })
parsed_parts _ _ = none

unfoldable pub parse_path : Text → Option FlowKey
parse_path raw = elim (split_slash raw) [
  | none ↦ none
  | some (left, right) ↦ parsed_parts (path_unescape left) (path_unescape right)
]

unfoldable pub has_prefix : Text → Text → Bool
has_prefix [] t = true
has_prefix (c ∷ cs) [] = false
has_prefix (c ∷ cs) (d ∷ ds) = c == d && has_prefix cs ds

unfoldable pub parse_flow_key : Text → Option FlowKey
parse_flow_key raw = if has_prefix flow_prefix raw then parse_path (drop 2 raw) else none

unfoldable pub outbox_key : Text → Text
outbox_key id = outbox_prefix ++ id

unfoldable pub dead_key : Text → Text
dead_key id = dead_prefix ++ id

-- `binary.BigEndian.PutUint64`: the low `n` bytes of a number, the highest first.
unfoldable pub big_endian : ℕ → ℕ → Text
big_endian zero v = []
big_endian (suc n) v = big_endian n (v / 256) ++ (v % 256) ∷ []

-- `binary.BigEndian.Uint64`
unfoldable pub big_endian_value : ℕ → Text → ℕ
big_endian_value acc [] = acc
big_endian_value acc (c ∷ cs) = big_endian_value (acc * 256 + c) cs

-- Milliseconds from Go's zero time to the Unix epoch.
unfoldable pub epoch_millis : ℕ
epoch_millis = 62135596800000

-- `uint64(at.UnixMilli()) ^ (1 << 63)`: the signed number of milliseconds, shifted by 2 ^ 63.
unfoldable pub shifted_millis : Instant → ℕ
shifted_millis at = (at / 1000000 + (2 ^ 63 - epoch_millis)) % 2 ^ 64

unfoldable pub expiry_time_prefix : Instant → Text
expiry_time_prefix at = b'x' ∷ b'/' ∷ big_endian 8 (shifted_millis at)

unfoldable pub expiry_key : Instant → FlowKey → Text
expiry_key at k = expiry_time_prefix at ++ (b'/' ∷ key_path k)

unfoldable pub parse_expiry_key : Text → Option FlowKey
parse_expiry_key raw =
    if ltb (length raw) 13
      || not (has_prefix expiry_prefix raw)
      || not (or_else (get_elem? raw 10) 0 == b'/')
    then none
    else parse_path (drop 11 raw)

-- `time.UnixMilli` of the encoded deadline.
unfoldable pub expiry_deadline : Text → Instant
expiry_deadline raw = (big_endian_value 0 (take 8 (drop 2 raw)) + epoch_millis - 2 ^ 63) * 1000000

-- The upper bound of a scan over a prefix.
unfoldable pub prefix_end : Text → Text
prefix_end p = p ++ 255 ∷ []
