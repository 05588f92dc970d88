-- ===== src/Domain/Rule.antt =====
-- internal/domain/rule/rule.go: correlation rules and their validation. A Go set is the list of
-- its members.
pub mod GroupFields
pub mod Claims
pub mod Version
use flow_stitch.Base.{
  ℕ, zero, suc, ◌+◌, Bool, true, false, ◌&&◌, ◌||◌, Option, none, some, List, [], ◌∷◌, ◌++◌, map,
  Text, codes, text_eq, ◌==◌, if◌then◌else◌, Result, ok, err, ◌>>=◌, ◌>>◌, guard, is_nil, length,
  not, text_beq, text_beq_iff, Comparable, ◌≡◌, ◌↔◌, arith,
}
use flow_stitch.Base.Decimal.{itoa}
use flow_stitch.Base.Int.{ℤ, pos}
use flow_stitch.Base.Dict.{Dict, lookup, insert}
use flow_stitch.Domain.Instant.{Duration, not_positive}
use flow_stitch.Domain.DocPath.{DocPath, last_segment}

pub record Role : Type 0 where
  pub name : Text
  pub types : List Text

pub record Stitch : Type 0 where
  pub id : Text
  pub group_by : List DocPath
  pub roles : List Role
  pub requires : List Text

abbrev pub no_stitch : Stitch
no_stitch = record { id = []; group_by = []; roles = []; requires = [] }

pub data PromotionType : Type 0 where
  long double keyword boolean date : PromotionType
  unknown_type : Text → PromotionType

pub record Promotion : Type 0 where
  pub name : Text
  pub path : DocPath
  pub type : PromotionType
  pub from : Text

pub record Extract : Type 0 where
  pub event_type : DocPath
  pub timestamp : DocPath

pub data CloseCondition : Type 0 where
  close_all_invocations_complete : CloseCondition
  other_condition : Text → CloseCondition

abbrev pub is_close_all : CloseCondition → Bool
is_close_all close_all_invocations_complete = true
is_close_all (other_condition t) = false

pub record Lifecycle : Type 0 where
  pub timeout : Duration
  pub close_when : CloseCondition
  pub settle : Duration
  pub terminal_events : List Text

-- Limits of an open flow; zero is no limit.
pub record Limits : Type 0 where
  pub max_events : ℕ
  pub max_event_bytes : ℕ
  pub max_flow_bytes : ℕ

pub data TimestampSource : Type 0 where
  timestamp_first_event timestamp_last_event timestamp_finalized : TimestampSource
  other_source : Text → TimestampSource

pub record Output : Type 0 where
  pub index : Text
  pub timestamp_source : TimestampSource

pub record Rule : Type 0 where
  pub id : Text
  pub version : Text
  pub enabled : Bool
  pub extract : Extract
  pub key : DocPath
  pub stitch : List Stitch
  pub promote : List Promotion
  pub lifecycle : Lifecycle
  pub limits : Limits
  pub output : Output

pub record Reference : Type 0 where
  pub id : Text
  pub version : Text

unfoldable pub reference_beq : Reference → Reference → Bool
reference_beq a b = text_beq a.id b.id && text_beq a.version b.version

pub reference_beq_iff : (a b : Reference) → (reference_beq a b ≡ true) ↔ (a ≡ b)
unfolding reference_beq
reference_beq_iff a b = ground (arith, text_beq_iff a.id b.id, text_beq_iff a.version b.version)

instance abbrev pub reference_eq : Comparable Reference
reference_eq = record { equals = reference_beq; equals_iff = reference_beq_iff }

-- Whether a set has a member.
unfoldable pub has : Text → List Text → Bool
has t [] = false
has t (u ∷ us) = u == t || has t us

-- `for suffix := 2; ; suffix++`, with the names that may be tried.
unfoldable pub free_name : ℕ → List Text → Text → ℕ → Text → Text
unfolding has
free_name zero used base suffix name = name
free_name (suc fuel) used base suffix name =
    let other = free_name fuel used base (suffix + 1) (base ++ itoa (pos suffix)) in
    if has name used then other else name

unfoldable pub group_fields_from : List Text → List DocPath → List Text
group_fields_from used [] = []
group_fields_from used (p ∷ ps) =
    let base = last_segment p in
    let name = free_name (length used) used base 2 base in name ∷ group_fields_from (name ∷ used) ps

unfoldable pub group_fields : Stitch → List Text
group_fields s = group_fields_from [] s.group_by

unfoldable pub is_terminal : Rule → Text → Bool
unfolding has
is_terminal r event_type = has event_type r.lifecycle.terminal_events

pub data RuleError : Type 0 where
  missing_id no_correlation_key no_timeout no_index : RuleError
  claimed_twice : Text → Text → Text → RuleError
  undeclared_required : Text → Text → RuleError
  unknown_promotion : Text → Text → RuleError
  undeclared_promoted : Text → Text → RuleError

-- `for _, typ := range role.Types`: each type is claimed once.
unfoldable pub claim_types : Text → List Text → Dict Text Text → Result RuleError (Dict Text Text)
claim_types stitch [] claimed = ok claimed
claim_types stitch (t ∷ ts) claimed = elim (lookup t claimed) [
  | some owner ↦ err (claimed_twice t owner stitch)
  | none ↦ claim_types stitch ts (insert t stitch claimed)
]

unfoldable pub claim_roles : Text → List Role → Dict Text Text → Result RuleError (Dict Text Text)
claim_roles stitch [] claimed = ok claimed
claim_roles stitch (r ∷ rs) claimed = claim_types stitch r.types claimed >>= claim_roles stitch rs

abbrev pub role_names : List Role → List Text
role_names = map (λ r. r.name)

-- `for _, required := range stitch.Requires`
unfoldable pub check_required : Stitch → List Text → Result RuleError (Unit {0})
check_required s [] = ok tt
check_required s (required ∷ rest) =
    guard (has required (role_names s.roles)) (undeclared_required s.id required)
    >> check_required s rest

-- The loop over the stitches; it returns the declared roles.
unfoldable pub check_stitches :
    List Stitch → Dict Text Text → List Text → Result RuleError (List Text)
check_stitches [] claimed declared = ok declared
check_stitches (s ∷ ss) claimed declared = do
  claimed' ← claim_roles s.id s.roles claimed
  check_required s s.requires
  check_stitches ss claimed' (declared ++ role_names s.roles)

abbrev pub unknown_name : PromotionType → Option Text
unknown_name (unknown_type t) = some t
unknown_name _ = none

unfoldable pub check_promoted : List Text → Promotion → Result RuleError (Unit {0})
check_promoted declared p = elim (unknown_name p.type) [
  | some t ↦ err (unknown_promotion p.name t)
  | none ↦
      if is_nil p.from || p.from == codes "first" || p.from == codes "last"
      then ok tt
      else guard (has p.from declared) (undeclared_promoted p.name p.from)
]

unfoldable pub check_promotions : List Text → List Promotion → Result RuleError (Unit {0})
check_promotions declared [] = ok tt
check_promotions declared (p ∷ ps) = check_promoted declared p >> check_promotions declared ps

unfoldable pub validate : Rule → Result RuleError (Unit {0})
validate r = do
  guard (not (is_nil r.id)) missing_id
  guard (not (is_nil r.key.expr)) no_correlation_key
  guard (not (not_positive r.lifecycle.timeout)) no_timeout
  guard (not (is_nil r.output.index)) no_index
  declared ← check_stitches r.stitch [] []
  check_promotions declared r.promote
