-- ===== src/Adapters/PebbleStore/Keys/RoundTrip.antt =====
-- The keys of internal/adapters/state/pebble/store.go lead back to what they are made of.
use mathlib.Core.List.{append_assoc}
use mathlib.Core.Option.{some-injective}
use mathlib.Core.Path.{ap₂}
use flow_stitch.Base.{
  ℕ, zero, suc, ◌/◌, ◌%◌, ◌<◌, ◌≤◌, ◌≡◌, ◌≢◌, refl, sym, ap, subst, ◌∙◌, true, false, some, List,
  [], ◌∷◌, ◌++◌, Text, nat_eq, ◌==◌, arith, All, drop, length, length-append, Bool-cases, inl, inr,
  get_elem?,
}
use flow_stitch.Domain.Instant.{Instant}
use flow_stitch.Domain.Flow.Defs.{FlowKey}
use flow_stitch.Adapters.PebbleStore.Keys.{
  is_between, is_plain, hex_digit, path_escape, unhex, unescaped, after_plain, path_unescape,
  key_path, flow_key, split_slash, parsed_parts, parse_path, has_prefix, parse_flow_key, big_endian,
  expiry_time_prefix, expiry_key, parse_expiry_key, shifted_millis, flow_prefix, expiry_prefix,
}

abbrev pub IsBytes : Text → Type 0
IsBytes t = All (λ c. c < 256) t

-- The texts of a key, as Go's strings hold them.
pub record IsKey (k : FlowKey) : Type 0 where
  pub rule_bytes : IsBytes k.rule_id
  pub correlation_bytes : IsBytes k.correlation_key

unhex-hex_digit : (d : ℕ) → d < 16 → unhex (hex_digit d) ≡ some d
unfolding unhex hex_digit is_between
unhex-hex_digit d h = ground arith

plain-ne : (c : ℕ) → is_plain c ≡ true → ((c == b'%') ≡ false) × ((c == b'/') ≡ false)
unfolding is_plain is_between
plain-ne c h = ground arith

path_unescape-plain :
    (c : ℕ) (t : Text)
    → (c == b'%') ≡ false
    → path_unescape (c ∷ t) ≡ after_plain c (path_unescape t)
unfolding path_unescape after_plain
path_unescape-plain c [] h = rw (h) refl
path_unescape-plain c (d ∷ []) h = rw (h) refl
path_unescape-plain c (d ∷ e ∷ t) h = rw (h, path_unescape) refl

path_unescape-percent :
    (d e : ℕ) (t : Text)
    → path_unescape (b'%' ∷ d ∷ e ∷ t) ≡ unescaped (unhex d) (unhex e) (path_unescape t)
unfolding path_unescape
path_unescape-percent d e t = refl

path_escape-plain :
    (c : ℕ) (cs : Text) → is_plain c ≡ true → path_escape (c ∷ cs) ≡ c ∷ path_escape cs
unfolding path_escape
path_escape-plain c cs h = rw (h) refl

path_escape-hex :
    (c : ℕ) (cs : Text)
    → is_plain c ≡ false
    → path_escape (c ∷ cs) ≡ b'%' ∷ hex_digit (c / 16) ∷ hex_digit (c % 16) ∷ path_escape cs
unfolding path_escape
path_escape-hex c cs h = rw (h) refl

split_slash-skip :
    (c : ℕ) (t left right : Text)
    → (c == b'/') ≡ false
    → split_slash t ≡ some (left, right)
    → split_slash (c ∷ t) ≡ some (c ∷ left, right)
unfolding split_slash
split_slash-skip c t left right n h = rw (n, h, split_slash) refl

hex_digit-ne : (d : ℕ) → (hex_digit d == b'/') ≡ false
unfolding hex_digit
hex_digit-ne d = ground arith

hex_digit_injective : (d e : ℕ) → hex_digit d ≡ hex_digit e → d ≡ e
unfolding hex_digit
hex_digit_injective d e h = ground arith

bytes_injective : (c d : ℕ) → c / 16 ≡ d / 16 → c % 16 ≡ d % 16 → c ≡ d
bytes_injective c d p q = omega arith

path_unescape-escape : (t : Text) → IsBytes t → path_unescape (path_escape t) ≡ some t
unfolding unescaped after_plain
path_unescape-escape [] b = unfold path_escape path_unescape in refl
path_unescape-escape (c ∷ cs) b = elim (Bool-cases (is_plain c)) [
  | inl p ↦
      rw
        (
          path_escape-plain c cs p,
          path_unescape-plain c (path_escape cs) (plain-ne c p).0,
          path_unescape-escape cs b.1,
        )
        refl
  | inr p ↦
      rw
        (
          path_escape-hex c cs p,
          path_unescape-percent (hex_digit (c / 16)) (hex_digit (c % 16)) (path_escape cs),
          unhex-hex_digit (c / 16) (omega arith),
          unhex-hex_digit (c % 16) (omega arith),
          path_unescape-escape cs b.1,
        )
        (ap (λ x. some (x ∷ cs)) (omega arith))
]

split_slash-escape :
    (t u : Text) → split_slash (path_escape t ++ (b'/' ∷ u)) ≡ some (path_escape t, u)
split_slash-escape [] u = unfold split_slash path_escape in refl
split_slash-escape (c ∷ cs) u = elim (Bool-cases (is_plain c)) [
  | inl p ↦ rw (path_escape-plain c cs p) (
      split_slash-skip c (path_escape cs ++ (b'/' ∷ u)) (path_escape cs) u (plain-ne c p).1
        (split_slash-escape cs u))
  | inr p ↦
      let hi = hex_digit (c / 16) in
      let lo = hex_digit (c % 16) in
      rw (path_escape-hex c cs p) (
        split_slash-skip b'%' (hi ∷ lo ∷ path_escape cs ++ (b'/' ∷ u)) (hi ∷ lo ∷ path_escape cs) u
          refl
          (split_slash-skip hi (lo ∷ path_escape cs ++ (b'/' ∷ u)) (lo ∷ path_escape cs) u
            (hex_digit-ne (c / 16))
            (split_slash-skip lo (path_escape cs ++ (b'/' ∷ u)) (path_escape cs) u
              (hex_digit-ne (c % 16)) (split_slash-escape cs u))))
]

-- How an escaped text begins.
path_escape-head : (c : ℕ) (cs : Text) → path_escape (c ∷ cs) ≢ []
path_escape-head c cs h = elim (Bool-cases (is_plain c)) [
  | inl p ↦ cc (path_escape-plain c cs p)
  | inr p ↦ cc (path_escape-hex c cs p)
]

path_escape_injective : (s t : Text) → path_escape s ≡ path_escape t → s ≡ t
path_escape_injective [] [] h = refl
path_escape_injective [] (d ∷ ds) h =
    absurd (path_escape-head d ds (sym h ∙ (unfold path_escape in refl)))
path_escape_injective (c ∷ cs) [] h =
    absurd (path_escape-head c cs (h ∙ (unfold path_escape in refl)))
path_escape_injective (c ∷ cs) (d ∷ ds) h = elim (Bool-cases (is_plain c)) [
  | inl p ↦ elim (Bool-cases (is_plain d)) [
    | inl q ↦
        let same = sym (path_escape-plain c cs p) ∙ h ∙ path_escape-plain d ds q in
        ap₂ (λ x xs. x ∷ xs) (cc) (path_escape_injective cs ds (cc))
    | inr q ↦
        let same = sym (path_escape-plain c cs p) ∙ h ∙ path_escape-hex d ds q in
        absurd (mixed c p (cc))
  ]
  | inr p ↦ elim (Bool-cases (is_plain d)) [
    | inl q ↦
        let same = sym (path_escape-hex c cs p) ∙ h ∙ path_escape-plain d ds q in
        absurd (mixed d q (cc))
    | inr q ↦
        let same = sym (path_escape-hex c cs p) ∙ h ∙ path_escape-hex d ds q in
        let hi : c / 16 ≡ d / 16 = hex_digit_injective (c / 16) (d / 16) (cc) in
        let lo : c % 16 ≡ d % 16 = hex_digit_injective (c % 16) (d % 16) (cc) in
        ap₂ (λ x xs. x ∷ xs) (bytes_injective c d hi lo) (path_escape_injective cs ds (cc))
  ]
]
  where
    mixed : (x : ℕ) → is_plain x ≡ true → x ≡ b'%' → ⊥
    mixed x p e = ground (arith, plain-ne x p)

split_slash-key_path :
    (k : FlowKey)
    → split_slash (key_path k) ≡ some (path_escape k.rule_id, path_escape k.correlation_key)
unfolding key_path
split_slash-key_path k = split_slash-escape k.rule_id (path_escape k.correlation_key)

pub key_path_injective : (a b : FlowKey) → key_path a ≡ key_path b → a ≡ b
key_path_injective a b h =
    let same =
      some-injective (path_escape a.rule_id, path_escape a.correlation_key)
        (path_escape b.rule_id, path_escape b.correlation_key)
        (sym (split_slash-key_path a) ∙ ap split_slash h ∙ split_slash-key_path b) in
    let ids = path_escape_injective a.rule_id b.rule_id (ap (λ p. p.0) same) in
    let keys = path_escape_injective a.correlation_key b.correlation_key (ap (λ p. p.1) same) in
    λ i. record { rule_id = ids i; correlation_key = keys i }

parse_path-key_path : (k : FlowKey) → IsKey k → parse_path (key_path k) ≡ some k
unfolding parse_path parsed_parts
parse_path-key_path k b =
    rw
      (
        split_slash-key_path k,
        path_unescape-escape k.rule_id b.rule_bytes,
        path_unescape-escape k.correlation_key b.correlation_bytes,
        parse_path,
      )
      refl

length-big_endian : (n v : ℕ) → length (big_endian n v) ≡ n
unfolding big_endian
length-big_endian zero v = refl
length-big_endian (suc n) v =
    omega (
      arith,
      length-big_endian n (v / 256),
      length-append (big_endian n (v / 256)) ((v % 256) ∷ []),
    )

drop-append {ℓ} : {A : Type ℓ} (xs ys : List A) → drop (length xs) (xs ++ ys) ≡ ys
unfolding drop
drop-append [] ys = refl
drop-append (x ∷ xs) ys = drop-append xs ys

drop-expiry_key : (at : Instant) (k : FlowKey) → drop 11 (expiry_key at k) ≡ key_path k
unfolding expiry_key expiry_time_prefix
drop-expiry_key at k =
    let time = big_endian 8 (shifted_millis at) in
    let front = b'x' ∷ b'/' ∷ time ++ b'/' ∷ [] in
    let eleven : length front ≡ 11 =
      omega (arith, length-append time (b'/' ∷ []), length-big_endian 8 (shifted_millis at)) in
    ap (drop 11) (ap (λ t. b'x' ∷ b'/' ∷ t) (sym (append_assoc time (b'/' ∷ []) (key_path k))))
    ∙ subst (λ n. drop n (front ++ key_path k) ≡ key_path k) eleven (drop-append front (key_path k))

pub expiry_key_injective :
    (at at' : Instant) (a b : FlowKey) → expiry_key at a ≡ expiry_key at' b → a ≡ b
expiry_key_injective at at' a b h =
    key_path_injective a b (sym (drop-expiry_key at a) ∙ ap (drop 11) h ∙ drop-expiry_key at' b)

pub flow_key_injective : (a b : FlowKey) → flow_key a ≡ flow_key b → a ≡ b
unfolding flow_key
flow_key_injective a b h = key_path_injective a b (cc)

pub parse_flow_key-flow_key : (k : FlowKey) → IsKey k → parse_flow_key (flow_key k) ≡ some k
unfolding parse_flow_key flow_key has_prefix flow_prefix drop
parse_flow_key-flow_key k b = parse_path-key_path k b

length-path_escape-le : (t : Text) → length t ≤ length (path_escape t)
length-path_escape-le [] = omega arith
length-path_escape-le (c ∷ cs) = elim (Bool-cases (is_plain c)) [
  | inl p ↦ rw (path_escape-plain c cs p) (omega (arith, length-path_escape-le cs))
  | inr p ↦ rw (path_escape-hex c cs p) (omega (arith, length-path_escape-le cs))
]

length-expiry_key :
    (at : Instant) (k : FlowKey) → 0 < length k.rule_id → 13 ≤ length (expiry_key at k)
unfolding expiry_key expiry_time_prefix key_path big_endian
length-expiry_key at k h = omega (
  arith,
  length-append (path_escape k.rule_id) (b'/' ∷ path_escape k.correlation_key),
  length-path_escape-le k.rule_id,
)

expiry_key-slash : (at : Instant) (k : FlowKey) → get_elem? (expiry_key at k) 10 ≡ some b'/'
unfolding expiry_key expiry_time_prefix big_endian
expiry_key-slash at k = refl

expiry_key-prefix : (at : Instant) (k : FlowKey) → has_prefix expiry_prefix (expiry_key at k) ≡ true
unfolding expiry_key expiry_time_prefix has_prefix expiry_prefix
expiry_key-prefix at k = refl

-- An index entry's key reads back as the flow's key that it was made of, whatever bytes the rule and the
-- correlation key hold, slashes and percent signs included, for a rule with a name.
pub parse_expiry_key-expiry_key :
    (at : Instant) (k : FlowKey)
    → IsKey k
    → 0 < length k.rule_id
    → parse_expiry_key (expiry_key at k) ≡ some k
unfolding parse_expiry_key
parse_expiry_key-expiry_key at k b h =
    rw
      (expiry_key-prefix at k, expiry_key-slash at k, drop-expiry_key at k, parse_path-key_path k b)
      (ground (arith, length-expiry_key at k h))
