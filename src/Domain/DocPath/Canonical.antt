-- ===== src/Domain/DocPath/Canonical.antt =====
-- `Canonical` of internal/domain/path/path.go: one stable spelling for a compiled path.
use flow_stitch.Base.{
  Bool, true, false, ◌&&◌, ◌||◌, List, [], ◌∷◌, ◌++◌, Text, codes, nat_eq, ◌==◌, if◌then◌else◌,
}
use flow_stitch.Base.Decimal.{itoa, is_digit}
use flow_stitch.Domain.DocPath.{Segment, DocPath}

-- Every byte is a digit; so it is of the empty key, which the caller excludes.
unfoldable pub all_digits : Text → Bool
all_digits [] = true
all_digits (c ∷ s) = is_digit c && all_digits s

unfoldable pub has_bare_end : Text → Bool
has_bare_end [] = false
has_bare_end (c ∷ s) = (c == b'.' || c == b'[') || has_bare_end s

unfoldable pub is_bare_canonical_key : Text → Bool
is_bare_canonical_key [] = false
is_bare_canonical_key (c ∷ s) =
    if has_bare_end (c ∷ s) then false else (if all_digits (c ∷ s) then false else true)

-- `NewReplacer(`\`, `\\`, `"`, `\"`)`
unfoldable pub escape_key : Text → Text
escape_key [] = []
escape_key (c ∷ s) = if c == b'\\' || c == b'"' then b'\\' ∷ c ∷ escape_key s else c ∷ escape_key s

unfoldable pub print_segment : Segment → Text
print_segment s =
    if s.is_key
    then (if is_bare_canonical_key s.key
        then b'.' ∷ s.key
        else b'[' ∷ b'"' ∷ escape_key s.key ++ b'"' ∷ b']' ∷ [])
    else b'[' ∷ itoa s.index ++ b']' ∷ []

unfoldable pub print_segments : List Segment → Text
print_segments [] = []
print_segments (s ∷ ss) = print_segment s ++ print_segments ss

unfoldable pub canonical : DocPath → Text
canonical p = elim p.segments [ [] ↦ [] | s ∷ ss ↦ codes "$." ++ (s.key ++ print_segments ss) ]
