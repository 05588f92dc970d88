-- ===== src/Domain/Flow/Roles.antt =====
-- Which role an event type fills, and the identity of an invocation.
pub mod Identity
pub mod Unique
use flow_stitch.Base.{
  Bool, true, ◌&&◌, Option, none, some, List, [], ◌∷◌, ◌++◌, Text, text_eq, if◌then◌else◌, length,
  is_some, is_nil,
}
use flow_stitch.Base.Decimal.{format_nat}
use flow_stitch.Base.Dict.{Dict, lookup, insert}
use flow_stitch.Domain.Event.{Event, Fields}
use flow_stitch.Domain.DocPath.{DocPath, resolve}
use flow_stitch.Domain.Rule.{Role, Stitch, has, role_names}
use flow_stitch.Domain.Flow.Defs.{Invocation}

-- The inner two loops of `matchingRole`.
unfoldable pub role_of_type : List Role → Text → Option Text
role_of_type [] t = none
role_of_type (r ∷ rs) t = if has t r.types then some r.name else role_of_type rs t

unfoldable pub role_in_stitches : List Stitch → Text → Option (Stitch × Text)
role_in_stitches [] t = none
role_in_stitches (s ∷ ss) t = elim (role_of_type s.roles t) [
  | some name ↦ some (s, name)
  | none ↦ role_in_stitches ss t
]

unfoldable pub matching_role : List Stitch → Option Text → Option (Stitch × Text)
matching_role ss none = none
matching_role ss (some t) = role_in_stitches ss t

unfoldable pub required_roles : Stitch → List Text
required_roles s = if is_nil s.requires then role_names s.roles else s.requires

unfoldable pub has_members : Dict Text Event → List Text → Bool
has_members ms [] = true
has_members ms (role ∷ rest) = is_some (lookup role ms) && has_members ms rest

unfoldable pub invocation_complete : Invocation → List Text → Bool
invocation_complete i required = has_members i.members required

unfoldable pub keyed_values : List Text → Text
keyed_values [] = []
keyed_values (v ∷ vs) = b':' ∷ (format_nat (length v) ++ b':' ∷ (v ++ keyed_values vs))

unfoldable pub invocation_key : Text → List Text → Text
invocation_key stitch_id values =
    format_nat (length stitch_id) ++ b':' ∷ (stitch_id ++ keyed_values values)

-- The loop over `GroupBy`: the group and its values, unless a path does not resolve.
unfoldable pub resolve_group :
    List DocPath
    → List Text
    → Fields
    → Dict Text Text
    → List Text
    → Option (Dict Text Text × List Text)
resolve_group (p ∷ ps) (name ∷ names) doc group values = elim (resolve p doc) [
  | none ↦ none
  | some v ↦ resolve_group ps names doc (insert name v group) (values ++ v ∷ [])
]
resolve_group _ _ doc group values = some (group, values)
