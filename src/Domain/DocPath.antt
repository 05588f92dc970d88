-- ===== src/Domain/DocPath.antt =====
-- internal/domain/path/path.go: compiling, resolving and printing the single-value path language.
-- The parser's index `i` into the expression is the text that is left from there on.
pub mod Parts
pub mod Canonical
pub mod Sound
pub mod RoundTrip
use flow_stitch.Base.{
  ℕ, zero, suc, ◌+◌, ◌-◌, ◌≤◌, ◌^◌, ◌≡◌, refl, Bool, true, false, ◌&&◌, ◌||◌, Option, none, some,
  List, [], ◌∷◌, ◌++◌, arith, Text, codes, nat_eq, text_eq, ◌==◌, leb, ltb, if◌then◌else◌, Result,
  ok, err, ◌>>=◌, ◌>>◌, guard, length, is_nil, not,
}
use flow_stitch.Base.Int.{ℤ, pos, negsuc}
use flow_stitch.Base.Decimal.{itoa, is_digit, value}
use flow_stitch.Domain.Event.{
  Float, finite, not_a_number, positive_infinity, negative_infinity, Value, null, string, boolean,
  float64, float32, integer, array, object, Fields, field?, item?, length_values,
}

pub record Segment : Type 0 where
  pub key : Text
  pub index : ℤ
  pub is_key : Bool

abbrev pub key_segment : Text → Segment
key_segment k = record { key = k; index = pos 0; is_key = true }

abbrev pub index_segment : ℤ → Segment
index_segment n = record { key = []; index = n; is_key = false }

pub record DocPath : Type 0 where
  pub expr : Text
  pub segments : List Segment

abbrev pub empty_path : DocPath
empty_path = record { expr = []; segments = [] }

abbrev last_of : Segment → List Segment → Segment
last_of s [] = s
last_of s (t ∷ ts) = last_of t ts

segment_name : Segment → Text
segment_name s = if s.is_key then s.key else itoa s.index

unfoldable pub last_segment : DocPath → Text
unfolding segment_name
last_segment p = elim p.segments [ [] ↦ [] | s ∷ ss ↦ segment_name (last_of s ss) ]

-- The details of `fail`. `out_of_fuel` is the model's own; `compile-ne-out_of_fuel` excludes it.
pub data CompileError : Type 0 where
  must_start missing_segment empty_key unterminated_bracket bad_escape unterminated_key :
      CompileError
  bad_index index_out_of_range unexpected_character trailing_dot out_of_fuel : CompileError

abbrev pub Parsed : Type 0 → Type 0
Parsed A = Result CompileError (A × Text)

-- The loop over a bare key: up to a `.` or a `[`.
unfoldable pub span_bare : Text → Text × Text
span_bare [] = ([], [])
span_bare (c ∷ s) =
    let (k, rest) = span_bare s in if c == b'.' || c == b'[' then ([], c ∷ s) else (c ∷ k, rest)

-- The loop over a quoted key, behind its opening quote, up to and with its closing quote.
unfoldable pub quoted : Text → Text → Parsed Text
quoted key [] = err unterminated_key
quoted key (c ∷ []) =
    if c == b'"' then ok (key, []) else if c == b'\\' then err bad_escape else err unterminated_key
quoted key (c ∷ d ∷ s) =
    let plain = quoted (key ++ c ∷ []) (d ∷ s) in
    let escaped = quoted (key ++ d ∷ []) s in
    if c == b'"'
    then ok (key, d ∷ s)
    else if c == b'\\'
    then (if d == b'"' || d == b'\\' then escaped else err bad_escape)
    else plain

unfoldable pub span_digits : Text → Text × Text
span_digits [] = ([], [])
span_digits (c ∷ s) =
    let (ds, rest) = span_digits s in if is_digit c then (c ∷ ds, rest) else ([], c ∷ s)

abbrev pub max_int : ℕ
max_int = 2 ^ 63 - 1

-- `strconv.Atoi` on digits behind an optional minus: the range of a 64-bit `int`.
unfoldable pub atoi : Bool → Text → Result CompileError ℤ
atoi false ds = let n = value 0 ds in if leb n max_int then ok (pos n) else err index_out_of_range
atoi true ds =
    let n = value 0 ds in
    if n == 0
    then ok (pos 0)
    else if leb n (max_int + 1)
    then ok (negsuc (n - 1))
    else err index_out_of_range

unfoldable pub strip_minus : Text → Bool × Text
strip_minus [] = (false, [])
strip_minus (c ∷ s) = if c == b'-' then (true, s) else (false, c ∷ s)

-- `expr[i] == ']'`, and the text behind it.
unfoldable pub closing : CompileError → Text → Result CompileError Text
closing e [] = err e
closing e (c ∷ s) = if c == b']' then ok s else err e

unfoldable pub bracket_index : Text → Parsed Segment
bracket_index s = do
  let (negative, t) = strip_minus s
  let (ds, u) = span_digits t
  guard (not (is_nil ds)) bad_index
  rest ← closing bad_index u
  n ← atoi negative ds
  ok (index_segment n, rest)

unfoldable pub bracket_key : Text → Parsed Segment
bracket_key s = do
  (key, t) ← quoted [] s
  rest ← closing unterminated_key t
  ok (key_segment key, rest)

-- One bracket, behind its `[`.
unfoldable pub bracket : Text → Parsed Segment
bracket [] = err unterminated_bracket
bracket (c ∷ s) = if c == b'"' then bracket_key s else bracket_index (c ∷ s)

-- `for expr[i] == '['`
unfoldable pub brackets : ℕ → List Segment → Text → Parsed (List Segment)
brackets zero ss s = err out_of_fuel
brackets (suc fuel) ss [] = ok (ss, [])
brackets (suc fuel) ss (c ∷ s) =
    let more = do (seg, rest) ← bracket s; brackets fuel (ss ++ seg ∷ []) rest
    in if c == b'[' then more else ok (ss, c ∷ s)

-- Behind a key and its brackets: the end, or a dot that another key follows.
unfoldable pub after_brackets :
    (Text → Result CompileError (List Segment))
    → List Segment
    → Text
    → Result CompileError (List Segment)
after_brackets next done [] = ok done
after_brackets next done (c ∷ []) = if c == b'.' then err trailing_dot else err unexpected_character
after_brackets next done (c ∷ d ∷ r) = if c == b'.' then next (d ∷ r) else err unexpected_character

-- The outer loop: a bare key and its brackets, up to the end or the next dot.
unfoldable pub segments_from : ℕ → List Segment → Text → Result CompileError (List Segment)
segments_from zero ss s = err out_of_fuel
segments_from (suc fuel) ss s = do
  let (key, t) = span_bare s
  guard (not (is_nil key)) empty_key
  (ss', u) ← brackets (length t + 1) (ss ++ key_segment key ∷ []) t
  after_brackets (segments_from fuel ss') ss' u

unfoldable pub compile : Text → Result CompileError DocPath
compile (c ∷ d ∷ s) =
    if c == b'$' && d == b'.'
    then (if is_nil s then err missing_segment else do
      ss ← segments_from (length s + 1) [] s
      ok (record { expr = c ∷ d ∷ s; segments = ss }))
    else err must_start
compile _ = err must_start

compile_test :
    compile (codes "$.items[-1][\"a.b\"].id")
    ≡ ok (record {
      expr = codes "$.items[-1][\"a.b\"].id";
      segments =
          key_segment (codes "items")
          ∷ index_segment (negsuc 0)
          ∷ key_segment (codes "a.b")
          ∷ key_segment (codes "id")
          ∷ [];
    })
unfolding compile segments_from after_brackets brackets bracket bracket_key bracket_index closing
    strip_minus atoi span_digits quoted span_bare is_digit value
compile_test = refl

-- One step of `Resolve`: a key of an object, or an index of an array, negative from the end.
unfoldable pub array_index : ℤ → ℕ → Option ℕ
array_index (pos n) size = if ltb n size then some n else none
array_index (negsuc n) size = if ltb n size then some (size - suc n) else none

unfoldable pub step_into : Value → Segment → Option Value
unfolding array_index
step_into (object fs) s = if s.is_key then field? fs s.key else none
step_into (array vs) s =
    if s.is_key
    then none
    else elim (array_index s.index (length_values vs)) [ none ↦ none | some i ↦ item? vs i ]
step_into _ s = none

unfoldable pub walk : Value → List Segment → Option Value
unfolding step_into
walk v [] = some v
walk v (s ∷ ss) = elim (step_into v s) [ none ↦ none | some w ↦ walk w ss ]

-- The type switch: the text of a scalar.
unfoldable pub scalar_text : Value → Option Text
scalar_text (string t) = some t
scalar_text (boolean true) = some (codes "true")
scalar_text (boolean false) = some (codes "false")
scalar_text (float64 (finite t)) = some t
scalar_text (float32 (finite t)) = some t
scalar_text (float32 not_a_number) = some (codes "NaN")
scalar_text (float32 positive_infinity) = some (codes "+Inf")
scalar_text (float32 negative_infinity) = some (codes "-Inf")
scalar_text (integer _ n) = some (itoa n)
scalar_text _ = none

unfoldable pub resolve : DocPath → Fields → Option Text
unfolding walk scalar_text
resolve p doc = elim (walk (object doc) p.segments) [ none ↦ none | some v ↦ scalar_text v ]
