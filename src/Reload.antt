-- ===== src/Reload.antt =====
-- cmd/flowstitch/reload.go: a reload of the configuration, all or nothing. Logs and metrics are left
-- out; `ContentVersion` and the decoder of the file are arguments.
pub mod Atomic
use flow_stitch.Base.{Option, none, some, List, Text, Result, ok, err, ◌>>=◌}
use flow_stitch.Base.Int.{pos_part}
use flow_stitch.Domain.DocPath.{DocPath}
use flow_stitch.Domain.Rule.{Rule}
use flow_stitch.Application.Alerts
use flow_stitch.Application.Alerts.{AlertOptions, Service}
use flow_stitch.Adapters.Registry.{Registry, publish}
use flow_stitch.Adapters.Passthrough
use flow_stitch.Adapters.Passthrough.{Options, Buffer}
use flow_stitch.Adapters.Config.Wire.{Config}
use flow_stitch.Adapters.Config.Build.{ConfigError, domain_rules, passthrough_timestamp}
use flow_stitch.Adapters.Config.Check.{load}

-- What a reload changes: `configReloader` with the parts that it points to. The level is the text
-- that was set.
pub record ConfigReloader : Type 0 where
  pub registry : Registry
  pub passthrough : Buffer
  pub log_level : Text
  pub alerts : Option Service

-- A size that is not positive is no size at all; only a disabled buffer can have it.
unfoldable pub passthrough_options : Config → DocPath → Options
passthrough_options next timestamp = record {
  index = next.passthrough.index;
  timestamp = timestamp;
  buffer_size = pos_part next.passthrough.buffer_size;
  batch_size = pos_part next.passthrough.batch_size;
  flush_interval = next.passthrough.flush_interval;
}

unfoldable pub alert_options : Config → AlertOptions
alert_options next = record {
  enabled = next.alerts.enabled;
  index = next.alerts.index;
  min_interval = next.alerts.min_interval;
  outbox_age_threshold = next.alerts.outbox_age_threshold;
}

unfoldable pub alerts_reloaded : AlertOptions → Option Service → Option Service
alerts_reloaded opts none = none
alerts_reloaded opts (some s) = some (Alerts.reconfigure opts s)

-- The steps that can fail.
pub record Prepared : Type 0 where
  pub next : Config
  pub rules : List Rule
  pub timestamp : DocPath

unfoldable pub apply_config : Prepared → ConfigReloader → ConfigReloader
apply_config p r = record {
  registry = publish p.rules r.registry;
  passthrough =
      Passthrough.reconfigure (passthrough_options p.next p.timestamp) p.next.passthrough.enabled
        r.passthrough;
  log_level = p.next.observability.log_level;
  alerts = alerts_reloaded (alert_options p.next) r.alerts;
}

module _ (version : Rule → Option Text) (decode_file : Text → Result Text Config) where
  unfoldable pub prepare : Text → Result ConfigError Prepared
  prepare path = do
    next ← load decode_file path
    rules ← domain_rules version next
    timestamp ← passthrough_timestamp next
    ok (record { next = next; rules = rules; timestamp = timestamp })

  unfoldable pub reload : Text → ConfigReloader → ConfigReloader × Option ConfigError
  reload path r = elim (prepare path) [ err e ↦ (r, some e) | ok p ↦ (apply_config p r, none) ]
