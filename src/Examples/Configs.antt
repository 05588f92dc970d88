-- ===== src/Examples/Configs.antt =====
-- A configuration with two rules, as a file decodes to it, and its reload.
use flow_stitch.Base.{
  ℕ, ◌*◌, ◌^◌, ◌≡◌, refl, true, false, Option, none, some, List, [], ◌∷◌, map, Text, codes, Result,
  ok, err, All, Pairwise, is_some,
}
use flow_stitch.Base.Int.{pos}
use flow_stitch.Domain.Rule.{Rule, validate}
use flow_stitch.Domain.Rule.Version.{content_version}
use flow_stitch.Adapters.Registry.{new_registry}
use flow_stitch.Adapters.Passthrough.{new_buffer}
use flow_stitch.Adapters.Config.Wire
use flow_stitch.Adapters.Config.Wire.{Config, mapping_node, scalar_node, apply_defaults}
use flow_stitch.Adapters.Config.Build.{domain_rules}
use flow_stitch.Adapters.Config.Check.{validate_config}
use flow_stitch.Adapters.Config.Sound.Compatible.{are_compatible}
use flow_stitch.Adapters.Config.Sound.{validate_config-domain_rules}
use flow_stitch.Reload.{ConfigReloader}
use flow_stitch.Examples.Data.{one_event_rule, id_path}

abbrev rule_of : Text → Text → Text → Wire.Rule
rule_of id key type = record {
  id = id;
  enabled = true;
  extract = record { event_type = codes "$.t"; timestamp = [] };
  correlation = record { key = key };
  stitch =
      record {
        id = codes "s";
        group_by = [];
        roles = mapping_node ((codes "a", scalar_node type) ∷ []);
        requires = [];
      }
      ∷ [];
  promote = (codes "n", record { path = codes "$.n"; type = codes "long"; from = codes "a" }) ∷ [];
  lifecycle = record { timeout = pos 9; close_when = []; settle = pos 0; terminal_events = [] };
  limits = record { max_events = pos 0; max_event_bytes = pos 0; max_flow_bytes = pos 0 };
  output = record { index = codes "o"; timestamp = [] };
}

abbrev file : Config
file = record {
  server = record {
    address = [];
    read_timeout = pos 0;
    write_timeout = pos 0;
    shutdown_grace = pos 0;
    max_request_size = pos 0;
    admin_token_env = [];
  };
  state = record { driver = []; path = []; sync_writes = none };
  passthrough = record {
    enabled = false;
    index = [];
    timestamp = [];
    buffer_size = pos 0;
    batch_size = pos 0;
    flush_interval = pos 0;
  };
  alerts = record {
    enabled = true;
    index = codes "w";
    min_interval = pos 0;
    outbox_age_threshold = pos 0;
  };
  rules =
      rule_of (codes "x") (codes "$.k") (codes "b")
      ∷ rule_of (codes "y") (codes "$.l") (codes "c")
      ∷ [];
  sinks = record {
    open_search = record {
      addresses = [];
      username_env = [];
      password_env = [];
      tls_skip_verify = false;
      bulk_size = pos 0;
      flush_interval = pos 0;
      max_retries = pos 0;
    };
  };
  observability = record { metrics_path = []; log_level = []; log_format = [] };
  limits = record {
    max_open_flows = pos 0;
    max_state_bytes = pos 0;
    max_outbox_records = pos 0;
    max_dlq_records = pos 0;
    max_event_bytes = pos 0;
  };
}

abbrev configuration : Config
configuration = apply_defaults file

abbrev named_by_id : Rule → Option Text
named_by_id = content_version (λ r. some r.id) (λ t. t)

always_named : (r : Rule) → is_some (named_by_id r) ≡ true
unfolding content_version
always_named r = refl

configuration_accepted : validate_config configuration ≡ ok tt
unfolding flow_stitch.Domain.Rule.claim_types flow_stitch.Domain.Rule.check_required
    flow_stitch.Domain.Rule.check_promotions flow_stitch.Domain.Rule.check_promoted
    flow_stitch.Domain.IndexName.without_placeholders flow_stitch.Domain.IndexName.is_placeholder
    flow_stitch.Domain.DocPath.strip_minus flow_stitch.Domain.DocPath.span_digits
    flow_stitch.Domain.DocPath.quoted flow_stitch.Domain.DocPath.closing
    flow_stitch.Domain.DocPath.bracket_key flow_stitch.Domain.DocPath.bracket_index
    flow_stitch.Domain.DocPath.bracket flow_stitch.Domain.DocPath.atoi
    flow_stitch.Domain.DocPath.Canonical.print_segments
    flow_stitch.Domain.DocPath.Canonical.print_segment
    flow_stitch.Domain.DocPath.Canonical.is_bare_canonical_key
    flow_stitch.Domain.DocPath.Canonical.has_bare_end
    flow_stitch.Domain.DocPath.Canonical.escape_key flow_stitch.Domain.DocPath.Canonical.canonical
    flow_stitch.Domain.DocPath.Canonical.all_digits flow_stitch.Base.Sort.insert_sorted
    flow_stitch.Base.Dict.insert flow_stitch.Base.Decimal.value flow_stitch.Base.Decimal.itoa
    flow_stitch.Base.Decimal.is_digit flow_stitch.Base.Decimal.format_nat
    flow_stitch.Base.Decimal.digits flow_stitch.Base.text_ltb Wire.sync_writes_enabled
    flow_stitch.Adapters.Config.Check.type_name flow_stitch.Adapters.Config.Check.own_promotions
    flow_stitch.Adapters.Config.Check.own_promotion flow_stitch.Adapters.Config.Check.own_key
    flow_stitch.Adapters.Config.Check.check_timestamp
    flow_stitch.Adapters.Config.Build.timestamp_source_of
    flow_stitch.Adapters.Config.Build.promotion_type_of
    flow_stitch.Adapters.Config.Build.close_condition_of flow_stitch.Domain.Rule.claim_roles
    flow_stitch.Domain.Rule.check_stitches flow_stitch.Adapters.Config.Build.compiled_rule validate
    flow_stitch.Base.Dict.lookup flow_stitch.Base.Sort.sort_by
    flow_stitch.Adapters.Config.Build.promoted_names
    flow_stitch.Adapters.Config.Build.build_promotions flow_stitch.Adapters.Config.Build.role_types
    flow_stitch.Adapters.Config.Build.decode_mapping flow_stitch.Adapters.Config.Build.decode_roles
    flow_stitch.Adapters.Config.Build.compile_group flow_stitch.Adapters.Config.Build.build_stitch
    flow_stitch.Adapters.Config.Build.build_stitches flow_stitch.Domain.DocPath.after_brackets
    flow_stitch.Domain.DocPath.brackets flow_stitch.Domain.DocPath.span_bare validate_config
    apply_defaults flow_stitch.Adapters.Config.Check.check_passthrough
    flow_stitch.Adapters.Config.Check.check_alerts flow_stitch.Domain.IndexName.validate_pattern
    flow_stitch.Domain.IndexName.check_placeholders flow_stitch.Domain.IndexName.cut_at
    flow_stitch.Domain.IndexName.contains flow_stitch.Adapters.Config.Check.check_state
    flow_stitch.Base.text_beq flow_stitch.Adapters.Config.Check.check_rules
    flow_stitch.Adapters.Config.Check.check_rule flow_stitch.Domain.Rule.has
    flow_stitch.Adapters.Config.Build.to_domain flow_stitch.Adapters.Config.Build.compile_field
    flow_stitch.Domain.DocPath.compile flow_stitch.Domain.DocPath.segments_from
configuration_accepted = refl

validate_config-domain_rules_example :
    (rules : List Rule) × (domain_rules named_by_id configuration ≡ ok rules)
    × (map (λ (r : Rule). r.id) rules ≡ codes "x" ∷ codes "y" ∷ [])
    × All (λ r. validate r ≡ ok tt) rules
    × Pairwise (λ a b. are_compatible a b ≡ true) rules
unfolding apply_defaults
validate_config-domain_rules_example =
    validate_config-domain_rules named_by_id always_named configuration configuration_accepted

abbrev running : ConfigReloader
running = record {
  registry = new_registry (one_event_rule ∷ []);
  passthrough = new_buffer (record {
    index = codes "p";
    timestamp = id_path;
    buffer_size = 2;
    batch_size = 1;
    flush_interval = pos 1;
  });
  log_level = codes "debug";
  alerts = none;
}
