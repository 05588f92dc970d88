-- ===== src/Adapters/Config/Wire.antt =====
-- The wire format of internal/adapters/config/config.go and its defaults. What the code reads of a
-- `yaml.Node` is a data type, and `int` and `int64` are signed numbers.
use flow_stitch.Base.{
  ℕ, zero, ◌*◌, ◌^◌, Bool, true, Option, none, some, List, Text, codes, is_nil, if◌then◌else◌,
}
use flow_stitch.Base.Int.{ℤ, pos}
use flow_stitch.Base.Dict.{Dict}
use flow_stitch.Domain.Instant.{Duration}

pub record Server : Type 0 where
  pub address : Text
  pub read_timeout : Duration
  pub write_timeout : Duration
  pub shutdown_grace : Duration
  pub max_request_size : ℤ
  pub admin_token_env : Text

pub record State : Type 0 where
  pub driver : Text
  pub path : Text
  pub sync_writes : Option Bool

pub record Passthrough : Type 0 where
  pub enabled : Bool
  pub index : Text
  pub timestamp : Text
  pub buffer_size : ℤ
  pub batch_size : ℤ
  pub flush_interval : Duration

pub record Alerts : Type 0 where
  pub enabled : Bool
  pub index : Text
  pub min_interval : Duration
  pub outbox_age_threshold : Duration

pub record Promotion : Type 0 where
  pub path : Text
  pub type : Text
  pub from : Text

pub record Extract : Type 0 where
  pub event_type : Text
  pub timestamp : Text

pub record Correlation : Type 0 where
  pub key : Text

-- The node of the roles: absent, a mapping, or of another kind. A role's node is a scalar, a sequence
-- with what it decodes to, or of another kind.
pub data RoleNode : Type 0 where
  scalar_node : Text → RoleNode
  sequence_node : Option (List Text) → RoleNode
  other_role_node : RoleNode

pub data RolesNode : Type 0 where
  no_node other_node : RolesNode
  mapping_node : List (Text × RoleNode) → RolesNode

pub record Stitch : Type 0 where
  pub id : Text
  pub group_by : List Text
  pub roles : RolesNode
  pub requires : List Text

pub record Lifecycle : Type 0 where
  pub timeout : Duration
  pub close_when : Text
  pub settle : Duration
  pub terminal_events : List Text

pub record RuleLimits : Type 0 where
  pub max_events : ℤ
  pub max_event_bytes : ℤ
  pub max_flow_bytes : ℤ

pub record Output : Type 0 where
  pub index : Text
  pub timestamp : Text

pub record Rule : Type 0 where
  pub id : Text
  pub enabled : Bool
  pub extract : Extract
  pub correlation : Correlation
  pub stitch : List Stitch
  pub promote : Dict Text Promotion
  pub lifecycle : Lifecycle
  pub limits : RuleLimits
  pub output : Output

pub record OpenSearch : Type 0 where
  pub addresses : List Text
  pub username_env : Text
  pub password_env : Text
  pub tls_skip_verify : Bool
  pub bulk_size : ℤ
  pub flush_interval : Duration
  pub max_retries : ℤ

pub record Sinks : Type 0 where
  pub open_search : OpenSearch

pub record Observability : Type 0 where
  pub metrics_path : Text
  pub log_level : Text
  pub log_format : Text

pub record Limits : Type 0 where
  pub max_open_flows : ℤ
  pub max_state_bytes : ℤ
  pub max_outbox_records : ℤ
  pub max_dlq_records : ℤ
  pub max_event_bytes : ℤ

pub record Config : Type 0 where
  pub server : Server
  pub state : State
  pub passthrough : Passthrough
  pub alerts : Alerts
  pub rules : List Rule
  pub sinks : Sinks
  pub observability : Observability
  pub limits : Limits

-- `if x == "" { x = d }` and `if n == 0 { n = d }`
abbrev text_or : Text → Text → Text
text_or d t = if is_nil t then d else t

abbrev number_or : ℕ → ℤ → ℤ
number_or d (pos zero) = pos d
number_or d n = n

unfoldable pub sync_writes_enabled : State → Bool
sync_writes_enabled s = elim s.sync_writes [ none ↦ true | some b ↦ b ]

unfoldable pub apply_defaults : Config → Config
apply_defaults c = record c {
  server = record c.server {
    address = text_or (codes ":8080") c.server.address;
    shutdown_grace = number_or (15 * 10 ^ 9) c.server.shutdown_grace;
    max_request_size = number_or (4 * 2 ^ 20) c.server.max_request_size;
  };
  state = record c.state {
    driver = text_or (codes "memory") c.state.driver;
    sync_writes = some (sync_writes_enabled c.state);
  };
  passthrough = record c.passthrough {
    buffer_size = number_or 10000 c.passthrough.buffer_size;
    batch_size = number_or 500 c.passthrough.batch_size;
    flush_interval = number_or (10 ^ 9) c.passthrough.flush_interval;
  };
  alerts = record c.alerts {
    min_interval = number_or (300 * 10 ^ 9) c.alerts.min_interval;
    outbox_age_threshold = number_or (300 * 10 ^ 9) c.alerts.outbox_age_threshold;
  };
  observability = record {
    metrics_path = text_or (codes "/metrics") c.observability.metrics_path;
    log_level = text_or (codes "info") c.observability.log_level;
    log_format = text_or (codes "json") c.observability.log_format;
  };
  limits = record c.limits { max_dlq_records = number_or 10000 c.limits.max_dlq_records };
}
