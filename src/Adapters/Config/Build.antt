-- ===== src/Adapters/Config/Build.antt =====
-- `toDomain`, `DomainRules` and `PassthroughTimestamp` of internal/adapters/config/config.go: from
-- the wire format to the rules of the domain. Where an error names a field, it is a data type in
-- place of the text. A negative limit of a rule is no limit, as zero is.
use flow_stitch.Base.{
  ℕ, ◌+◌, Bool, true, false, ◌&&◌, Option, none, some, List, [], ◌∷◌, map, Text, codes, text_eq,
  text_ltb, ◌==◌, is_nil, or_else, if◌then◌else◌, Result, ok, err, ◌>>=◌,
}
use flow_stitch.Base.Int.{pos_part}
use flow_stitch.Base.Dict.{Dict, lookup}
use flow_stitch.Base.Sort.{sort_by}
use flow_stitch.Domain.DocPath.{DocPath, CompileError, compile}
use flow_stitch.Domain.Rule.{
  Rule, Role, RuleError, Stitch, Promotion, PromotionType, long, double, keyword, boolean, date,
  unknown_type, CloseCondition, close_all_invocations_complete, other_condition, TimestampSource,
  timestamp_first_event, timestamp_last_event, timestamp_finalized, other_source,
}
use flow_stitch.Domain.IndexName.{PatternError}
use flow_stitch.Adapters.Config.Wire
use flow_stitch.Adapters.Config.Wire.{
  RoleNode, scalar_node, sequence_node, other_role_node, RolesNode, no_node, other_node,
  mapping_node,
}

-- The fields of a rule that hold a path.
pub data Field : Type 0 where
  event_type_field timestamp_field key_field : Field
  group_by_field : Text → ℕ → Field
  promote_field : Text → Field

pub data RolesError : Type 0 where
  not_a_mapping not_texts : RolesError
  bad_role : Text → RolesError

pub data ConfigError : Type 0 where
  no_rules dlq_limit no_passthrough_index bad_buffer no_alerts_index bad_intervals same_index
        no_state_path :
      ConfigError
  unreadable no_version : Text → ConfigError
  bad_passthrough_index bad_alerts_index : PatternError → ConfigError
  bad_timestamp : CompileError → ConfigError
  unsupported_driver : Text → ConfigError
  bad_index : Text → PatternError → ConfigError
  alerts_index duplicate_id : Text → ConfigError
  bad_path : Text → Field → CompileError → ConfigError
  bad_roles : Text → Text → RolesError → ConfigError
  invalid_rule : RuleError → ConfigError
  promoted_differently : Text → Text → Text → ConfigError
  shared_key : Text → Text → Text → ConfigError

-- `fmt.Errorf("...: %w", err)`
abbrev pub wrap {ℓ} : {E F : Type 0} {A : Type ℓ} → (E → F) → Result E A → Result F A
wrap f (ok a) = ok a
wrap f (err e) = err (f e)

abbrev pub no_path : DocPath
no_path = record { expr = []; segments = [] }

unfoldable pub compile_field : Text → Field → Text → Bool → Result ConfigError DocPath
compile_field rule field expression optional =
    if optional && is_nil expression
    then ok no_path
    else wrap (bad_path rule field) (compile expression)

unfoldable pub compile_group : Text → Text → ℕ → List Text → Result ConfigError (List DocPath)
compile_group rule stitch i [] = ok []
compile_group rule stitch i (expression ∷ rest) = do
  compiled ← compile_field rule (group_by_field stitch i) expression false
  others ← compile_group rule stitch (i + 1) rest
  ok (compiled ∷ others)

unfoldable pub role_types : Text → RoleNode → Result RolesError (List Text)
role_types name (scalar_node t) = ok (t ∷ [])
role_types name (sequence_node (some types)) = ok types
role_types name (sequence_node none) = err not_texts
role_types name other_role_node = err (bad_role name)

unfoldable pub decode_mapping : List (Text × RoleNode) → Result RolesError (List Role)
decode_mapping [] = ok []
decode_mapping ((name, value) ∷ rest) = do
  types ← role_types name value
  roles ← decode_mapping rest
  ok (record { name = name; types = types } ∷ roles)

unfoldable pub decode_roles : RolesNode → Result RolesError (List Role)
decode_roles no_node = ok []
decode_roles other_node = err not_a_mapping
decode_roles (mapping_node content) = decode_mapping content

unfoldable pub build_stitch : Text → Wire.Stitch → Result ConfigError Stitch
build_stitch rule raw = do
  group_by ← compile_group rule raw.id 0 raw.group_by
  roles ← wrap (bad_roles rule raw.id) (decode_roles raw.roles)
  ok (record {
    id = raw.id;
    group_by = group_by;
    roles = roles;
    requires = if is_nil raw.requires then map (λ (role : Role). role.name) roles else raw.requires;
  })

unfoldable pub build_stitches : Text → List Wire.Stitch → Result ConfigError (List Stitch)
build_stitches rule [] = ok []
build_stitches rule (raw ∷ rest) = do
  stitch ← build_stitch rule raw
  stitches ← build_stitches rule rest
  ok (stitch ∷ stitches)

-- `rule.PromotionType(...)`, `rule.CloseCondition(...)` and `rule.TimestampSource(...)` of a text.
unfoldable pub promotion_type_of : Text → PromotionType
promotion_type_of t =
    if t == codes "long"
    then long
    else if t == codes "double"
    then double
    else if t == codes "keyword"
    then keyword
    else if t == codes "boolean"
    then boolean
    else if t == codes "date"
    then date
    else unknown_type t

unfoldable pub close_condition_of : Text → CloseCondition
close_condition_of t =
    if t == codes "all_invocations_complete"
    then close_all_invocations_complete
    else other_condition t

unfoldable pub timestamp_source_of : Text → TimestampSource
timestamp_source_of t =
    if t == codes "first_event.timestamp"
    then timestamp_first_event
    else if t == codes "last_event.timestamp"
    then timestamp_last_event
    else if t == codes "finalized_at"
    then timestamp_finalized
    else other_source t

abbrev zero_promotion : Wire.Promotion
zero_promotion = record { path = []; type = []; from = [] }

unfoldable pub build_promotions :
    Text → Dict Text Wire.Promotion → List Text → Result ConfigError (List Promotion)
build_promotions rule raws [] = ok []
build_promotions rule raws (name ∷ names) =
    let raw = or_else (lookup name raws) zero_promotion in
    do
      compiled ← compile_field rule (promote_field name) raw.path false
      promotions ← build_promotions rule raws names
      ok (
          record {
            name = name;
            path = compiled;
            type = promotion_type_of raw.type;
            from = raw.from;
          }
          ∷ promotions)

unfoldable pub compiled_rule :
    Text → Wire.Rule → DocPath → DocPath → DocPath → List Stitch → List Promotion → Rule
compiled_rule version r event_type timestamp key stitches promotions = record {
  id = r.id;
  version = version;
  enabled = r.enabled;
  extract = record { event_type = event_type; timestamp = timestamp };
  key = key;
  stitch = stitches;
  promote = promotions;
  lifecycle = record {
    timeout = r.lifecycle.timeout;
    close_when = close_condition_of r.lifecycle.close_when;
    settle = r.lifecycle.settle;
    terminal_events = r.lifecycle.terminal_events;
  };
  limits = record {
    max_events = pos_part r.limits.max_events;
    max_event_bytes = pos_part r.limits.max_event_bytes;
    max_flow_bytes = pos_part r.limits.max_flow_bytes;
  };
  output = record {
    index = r.output.index;
    timestamp_source = timestamp_source_of r.output.timestamp;
  };
}

unfoldable pub promoted_names : Wire.Rule → List Text
promoted_names r = sort_by text_ltb (map (λ (kv : Text × Wire.Promotion). kv.0) r.promote)

unfoldable pub to_domain : Text → Wire.Rule → Result ConfigError Rule
to_domain version r = do
  event_type ← compile_field r.id event_type_field r.extract.event_type true
  timestamp ← compile_field r.id timestamp_field r.extract.timestamp true
  key ← compile_field r.id key_field r.correlation.key false
  stitches ← build_stitches r.id r.stitch
  promotions ← build_promotions r.id r.promote (promoted_names r)
  ok (compiled_rule version r event_type timestamp key stitches promotions)

-- `version` is `rule.ContentVersion`.
unfoldable pub build_rules : (Rule → Option Text) → List Wire.Rule → Result ConfigError (List Rule)
build_rules version [] = ok []
build_rules version (raw ∷ rest) = do
  converted ← to_domain [] raw
  named ← elim (version converted) [
    | none ↦ err (no_version raw.id)
    | some v ↦ ok (record converted { version = v })
  ]
  rules ← build_rules version rest
  ok (named ∷ rules)

unfoldable pub domain_rules : (Rule → Option Text) → Wire.Config → Result ConfigError (List Rule)
domain_rules version c = build_rules version c.rules

unfoldable pub passthrough_timestamp : Wire.Config → Result ConfigError DocPath
passthrough_timestamp c =
    if is_nil c.passthrough.timestamp
    then ok no_path
    else wrap bad_timestamp (compile c.passthrough.timestamp)
