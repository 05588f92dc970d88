-- ===== src/Adapters/Config/Check.antt =====
-- `Validate` and `Load` of internal/adapters/config/config.go. Reading the file and decoding its YAML,
-- which refuses unknown fields, is an argument.
use flow_stitch.Base.{
  ◌&&◌, ◌||◌, not, none, some, List, [], ◌∷◌, Text, codes, text_eq, ◌==◌, is_nil, or_else,
  if◌then◌else◌, Result, ok, err, ◌>>=◌, ◌>>◌, guard,
}
use flow_stitch.Base.Int.{pos, ltb_ℤ}
use flow_stitch.Base.Dict.{Dict, lookup, insert}
use flow_stitch.Domain.Instant.{not_positive}
use flow_stitch.Domain.DocPath.{compile}
use flow_stitch.Domain.DocPath.Canonical.{canonical}
use flow_stitch.Domain.Rule.{
  Rule, Promotion, PromotionType, long, double, keyword, boolean, date, unknown_type, has, validate,
}
use flow_stitch.Domain.IndexName.{validate_pattern}
use flow_stitch.Adapters.Config.Wire
use flow_stitch.Adapters.Config.Wire.{Config, Passthrough, Alerts, State, apply_defaults}
use flow_stitch.Adapters.Config.Build.{
  ConfigError, no_rules, dlq_limit, no_passthrough_index, bad_buffer, no_alerts_index,
  bad_intervals, same_index, no_state_path, unreadable, bad_passthrough_index, bad_alerts_index,
  bad_timestamp, unsupported_driver, bad_index, alerts_index, duplicate_id, invalid_rule,
  promoted_differently, shared_key, wrap, to_domain,
}

-- `string(promotionType)`
unfoldable pub type_name : PromotionType → Text
type_name long = codes "long"
type_name double = codes "double"
type_name keyword = codes "keyword"
type_name boolean = codes "boolean"
type_name date = codes "date"
type_name (unknown_type t) = t

unfoldable pub check_timestamp : Text → Result ConfigError (Unit {0})
check_timestamp t = if is_nil t then ok tt else (wrap bad_timestamp (compile t) >>= λ p. ok tt)

unfoldable pub check_passthrough : Passthrough → Result ConfigError (Unit {0})
check_passthrough p = if not p.enabled then ok tt else do
  guard (not (is_nil p.index)) no_passthrough_index
  wrap bad_passthrough_index (validate_pattern p.index)
  check_timestamp p.timestamp
  guard
      (not (
        ltb_ℤ p.buffer_size (pos 1)
        || ltb_ℤ p.batch_size (pos 1)
        || ltb_ℤ p.buffer_size p.batch_size
        || not_positive p.flush_interval))
      bad_buffer

unfoldable pub check_alerts : Passthrough → Alerts → Result ConfigError (Unit {0})
check_alerts p a = if not a.enabled then ok tt else do
  guard (not (is_nil a.index)) no_alerts_index
  wrap bad_alerts_index (validate_pattern a.index)
  guard (not (not_positive a.min_interval || not_positive a.outbox_age_threshold)) bad_intervals
  guard (not (p.enabled && a.index == p.index)) same_index

unfoldable pub check_state : State → Result ConfigError (Unit {0})
check_state s =
    if s.driver == codes "memory"
    then ok tt
    else if s.driver == codes "pebble"
    then guard (not (is_nil s.path)) no_state_path
    else err (unsupported_driver s.driver)

-- `promotionOwner`, and what the loop over the rules has seen.
pub record PromotionOwner : Type 0 where
  pub rule_id : Text
  pub type : PromotionType

pub record Seen : Type 0 where
  pub ids : List Text
  pub keys : Dict Text Text
  pub promoted : Dict Text (Dict Text PromotionOwner)

abbrev pub nothing_seen : Seen
nothing_seen = record { ids = []; keys = []; promoted = [] }

unfoldable pub own_promotion :
    Text → Promotion → Dict Text PromotionOwner → Result ConfigError (Dict Text PromotionOwner)
own_promotion rule p owners = do
  elim (lookup p.name owners) [
    | none ↦ ok tt
    | some owner ↦
        guard (type_name owner.type == type_name p.type)
          (promoted_differently owner.rule_id rule p.name)
  ]
  ok (insert p.name (record { rule_id = rule; type = p.type }) owners)

unfoldable pub own_promotions :
    Text → List Promotion → Dict Text PromotionOwner → Result ConfigError (Dict Text PromotionOwner)
own_promotions rule [] owners = ok owners
own_promotions rule (p ∷ ps) owners = own_promotion rule p owners >>= own_promotions rule ps

unfoldable pub own_key : Wire.Rule → Rule → Dict Text Text → Result ConfigError (Dict Text Text)
own_key raw built keys =
    if raw.enabled
    then elim (lookup (canonical built.key) keys) [
      | some owner ↦ err (shared_key (canonical built.key) owner raw.id)
      | none ↦ ok (insert (canonical built.key) raw.id keys)
    ]
    else ok keys

-- One round of the loop.
unfoldable pub check_rule : Alerts → Wire.Rule → Seen → Result ConfigError Seen
check_rule a raw seen = do
  wrap (bad_index raw.id) (validate_pattern raw.output.index)
  guard (not (a.enabled && raw.output.index == a.index)) (alerts_index raw.id)
  guard (not (has raw.id seen.ids)) (duplicate_id raw.id)
  built ← to_domain [] raw
  wrap invalid_rule (validate built)
  owners ← own_promotions raw.id built.promote (or_else (lookup raw.output.index seen.promoted) [])
  keys ← own_key raw built seen.keys
  ok (record {
    ids = raw.id ∷ seen.ids;
    keys = keys;
    promoted = insert raw.output.index owners seen.promoted;
  })

unfoldable pub check_rules : Alerts → List Wire.Rule → Seen → Result ConfigError (Unit {0})
check_rules a [] seen = ok tt
check_rules a (raw ∷ rest) seen = check_rule a raw seen >>= check_rules a rest

unfoldable pub validate_config : Config → Result ConfigError (Unit {0})
validate_config c = do
  guard (not (is_nil c.rules)) no_rules
  guard (not (ltb_ℤ c.limits.max_dlq_records (pos 1))) dlq_limit
  check_passthrough c.passthrough
  check_alerts c.passthrough c.alerts
  check_state c.state
  check_rules c.alerts c.rules nothing_seen

-- `decode_file` is the decoded file, or the text of what is wrong with it.
unfoldable pub load : (Text → Result Text Config) → Text → Result ConfigError Config
load decode_file filename = do
  decoded ← wrap unreadable (decode_file filename)
  validate_config (apply_defaults decoded)
  ok (apply_defaults decoded)
