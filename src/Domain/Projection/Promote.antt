-- ===== src/Domain/Projection/Promote.antt =====
-- Promoted fields in internal/domain/projection/document.go. `strconv.ParseInt` and `ParseBool` are
-- modelled, `ParseFloat` and `time.Parse` are arguments.
use flow_stitch.Base.{
  ℕ, zero, suc, ◌^◌, Bool, true, false, ◌&&◌, ◌||◌, not, Option, none, some, List, [], ◌∷◌, ◌++◌,
  Text, codes, text_eq, text_ltb, nat_eq, ◌==◌, is_nil, if◌then◌else◌, ltb,
}
use flow_stitch.Base.Int.{ℤ, pos, negsuc}
use flow_stitch.Base.Decimal.{is_digit, value}
use flow_stitch.Base.Dict.{lookup, insert}
use flow_stitch.Domain.Instant.{same_instant}
use flow_stitch.Domain.Event.{Event, Fields, Float, finite, same_doc}
use flow_stitch.Domain.DocPath.{DocPath, resolve}
use flow_stitch.Domain.Rule.{
  Promotion, PromotionType, long, double, keyword, boolean, date, unknown_type,
}
use flow_stitch.Domain.Flow.Defs.{Anomaly, anomaly_promotion, Invocation}
use flow_stitch.Domain.Flow.Close.{Finalized}
use flow_stitch.Domain.Projection.Shape.{
  Parsers, keyword_value, FieldValue, double_value, long_value, date_value, boolean_value, Document,
}

-- `eventOccupiesRole`
unfoldable pub occupies_role : Event → List Invocation → Text → Bool
occupies_role e [] role = false
occupies_role e (i ∷ is) role = elim (lookup role i.members) [
  | none ↦ occupies_role e is role
  | some member ↦
      if same_instant member.observed_at e.observed_at && same_doc member.doc e.doc
      then true
      else occupies_role e is role
]

unfoldable pub first_resolved : DocPath → List Event → Option Text
first_resolved p [] = none
first_resolved p (e ∷ es) = elim (resolve p e.doc) [ none ↦ first_resolved p es | some t ↦ some t ]

unfoldable pub last_doc : Event → List Event → Fields
last_doc e [] = e.doc
last_doc e (f ∷ fs) = last_doc f fs

unfoldable pub role_value : DocPath → List Invocation → Text → List Event → Option Text
role_value p invocations role [] = none
role_value p invocations role (e ∷ es) =
    if occupies_role e invocations role then resolve p e.doc else role_value p invocations role es

unfoldable pub value_from : Promotion → List Invocation → Event → List Event → Option Text
value_from p invocations e es =
    if p.from == codes "first"
    then resolve p.path e.doc
    else if p.from == codes "last"
    then resolve p.path (last_doc e es)
    else if is_nil p.from
    then first_resolved p.path (e ∷ es)
    else role_value p.path invocations p.from (e ∷ es)

unfoldable pub promotion_value : Finalized → Promotion → Option Text
promotion_value f p = elim f.events [ [] ↦ none | e ∷ es ↦ value_from p f.invocations e es ]

-- `strconv.ParseInt(raw, 10, 64)` and `strconv.ParseBool(raw)`.
unfoldable pub all_digits : Text → Bool
all_digits [] = true
all_digits (c ∷ cs) = is_digit c && all_digits cs

unfoldable pub parse_unsigned : Text → Option ℕ
parse_unsigned digits =
    if is_nil digits || not (all_digits digits) then none else some (value 0 digits)

unfoldable pub positive_long : Option ℕ → Option ℤ
positive_long none = none
positive_long (some n) = if ltb n (2 ^ 63) then some (pos n) else none

unfoldable pub negative_long : Option ℕ → Option ℤ
negative_long none = none
negative_long (some zero) = some (pos 0)
negative_long (some (suc n)) = if ltb n (2 ^ 63) then some (negsuc n) else none

unfoldable pub parse_int : Text → Option ℤ
parse_int [] = none
parse_int (c ∷ cs) =
    if c == b'-'
    then negative_long (parse_unsigned cs)
    else if c == b'+'
    then positive_long (parse_unsigned cs)
    else positive_long (parse_unsigned (c ∷ cs))

unfoldable pub parse_bool : Text → Option Bool
parse_bool t =
    if t == codes "1"
      || t == codes "t"
      || t == codes "T"
      || t == codes "TRUE"
      || t == codes "true"
      || t == codes "True"
    then some true
    else if t == codes "0"
        || t == codes "f"
        || t == codes "F"
        || t == codes "FALSE"
        || t == codes "false"
        || t == codes "False"
    then some false
    else none

unfoldable pub finite_value : Option Float → Option FieldValue
finite_value (some (finite t)) = some (double_value (finite t))
finite_value _ = none

-- `coerce`; its error carries nothing that the caller uses.
unfoldable pub coerce : Parsers → Text → PromotionType → Option FieldValue
coerce parse raw keyword = some (keyword_value raw)
coerce parse raw long = elim (parse_int raw) [ none ↦ none | some n ↦ some (long_value n) ]
coerce parse raw double = finite_value (parse.parse_float raw)
coerce parse raw boolean = elim (parse_bool raw) [ none ↦ none | some b ↦ some (boolean_value b) ]
coerce parse raw date = elim (parse.parse_time raw) [ none ↦ none | some t ↦ some (date_value t) ]
coerce parse raw (unknown_type t) = none

-- `projectPromotions`; `describe` is the text of `fmt.Sprintf` with its quotes.
unfoldable pub promotion_failed : (Promotion → Text → Text) → Finalized → Promotion → Text → Anomaly
promotion_failed describe f p raw = record {
  kind = anomaly_promotion;
  detail = describe p raw;
  at = f.finalized_at;
}

unfoldable pub promote_one :
    Parsers → (Promotion → Text → Text) → Finalized → Promotion → Document → Document
promote_one parse describe f p document = elim (promotion_value f p) [
  | none ↦ document
  | some raw ↦ elim (coerce parse raw p.type) [
    | none ↦ record document {
      anomalies = document.anomalies ++ promotion_failed describe f p raw ∷ [];
    }
    | some v ↦ record document { fields = insert p.name v document.fields }
  ]
]

unfoldable pub promote_all :
    Parsers → (Promotion → Text → Text) → Finalized → List Promotion → Document → Document
promote_all parse describe f [] document = document
promote_all parse describe f (p ∷ ps) document =
    promote_all parse describe f ps (promote_one parse describe f p document)

unfoldable pub promotion_less : Promotion → Promotion → Bool
promotion_less a b = text_ltb a.name b.name
