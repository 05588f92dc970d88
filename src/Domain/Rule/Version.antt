-- ===== src/Domain/Rule/Version.antt =====
-- `ContentVersion` of internal/domain/rule/rule.go. The JSON encoder and SHA-256 in hexadecimal are
-- arguments.
use flow_stitch.Base.{Bool, Option, none, some, [], map, Text, text_ltb}
use flow_stitch.Base.Sort.{sort_by}
use flow_stitch.Domain.Rule.{Rule, Role, Stitch, Promotion}

unfoldable pub role_less : Role → Role → Bool
role_less a b = text_ltb a.name b.name

unfoldable pub promotion_less : Promotion → Promotion → Bool
promotion_less a b = text_ltb a.name b.name

unfoldable pub normalized_role : Role → Role
normalized_role r = record r { types = sort_by text_ltb r.types }

unfoldable pub normalized_stitch : Stitch → Stitch
normalized_stitch s = record s {
  roles = sort_by role_less (map normalized_role s.roles);
  requires = sort_by text_ltb s.requires;
}

unfoldable pub normalized : Rule → Rule
normalized r = record r {
  version = [];
  stitch = map normalized_stitch r.stitch;
  promote = sort_by promotion_less r.promote;
  lifecycle = record r.lifecycle { terminal_events = sort_by text_ltb r.lifecycle.terminal_events };
}

unfoldable pub content_version : (Rule → Option Text) → (Text → Text) → Rule → Option Text
content_version marshal digest r = elim (marshal (normalized r)) [
  | none ↦ none
  | some raw ↦ some (digest raw)
]
