-- ===== src/Adapters/Registry/Port.antt =====
-- internal/adapters/rules/registry.go as the port that ingestion knows.
use flow_stitch.Application.Ports.{RuleRegistry}
use flow_stitch.Adapters.Registry.{Registry, match_and_retain, get, release}

abbrev pub registry_port : RuleRegistry
registry_port = record {
  State = Registry;
  match_and_retain = match_and_retain;
  get = get;
  release = release;
}
