-- ===== src/Examples/Paths.antt =====
-- Paths, index patterns, identities and group fields.
use flow_stitch.Base.{
  ℕ, ◌≡◌, ◌≢◌, refl, Option, some, List, [], ◌∷◌, Text, codes, Result, ok, err, get_elem?, length,
  text_beq,
}
use flow_stitch.Base.Decimal.{format_nat}
use flow_stitch.Domain.DocPath.{DocPath, compile, out_of_fuel}
use flow_stitch.Domain.DocPath.Canonical.{canonical}
use flow_stitch.Domain.DocPath.RoundTrip.{compile-canonical}
use flow_stitch.Domain.Rule.{Stitch, group_fields}
use flow_stitch.Domain.Flow.Roles.Identity.{invocation_key-injective}
use flow_stitch.Examples.Data.{call_stitch, items_path}

items_compile : compile (codes "$.items[0]") ≡ ok items_path
unfolding compile flow_stitch.Domain.DocPath.segments_from flow_stitch.Domain.DocPath.span_bare
    flow_stitch.Domain.DocPath.brackets flow_stitch.Domain.DocPath.bracket
    flow_stitch.Domain.DocPath.bracket_index flow_stitch.Domain.DocPath.span_digits
    flow_stitch.Domain.DocPath.strip_minus flow_stitch.Base.Decimal.is_digit
    flow_stitch.Domain.DocPath.closing flow_stitch.Domain.DocPath.atoi
    flow_stitch.Base.Decimal.value flow_stitch.Domain.DocPath.after_brackets
items_compile = refl

compile-canonical_example :
    compile (canonical items_path)
    ≡ ok (record { expr = canonical items_path; segments = items_path.segments })
compile-canonical_example = compile-canonical (codes "$.items[0]") items_path items_compile

invocation_key-injective_example : (codes "call" ≡ codes "call") × (codes "7" ∷ [] ≡ codes "7" ∷ [])
invocation_key-injective_example =
    invocation_key-injective (codes "call") (codes "call") (codes "7" ∷ []) (codes "7" ∷ []) refl

id_field : get_elem? (group_fields call_stitch) 0 ≡ some (codes "id")
unfolding group_fields flow_stitch.Domain.Rule.group_fields_from flow_stitch.Domain.Rule.free_name
    flow_stitch.Domain.DocPath.last_segment
id_field = refl
