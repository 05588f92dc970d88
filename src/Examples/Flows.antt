-- ===== src/Examples/Flows.antt =====
-- The flow aggregate and its codec.
use flow_stitch.Base.{
  ℕ, ◌≡◌, ◌≤◌, ◌<◌, ◌⊎◌, refl, sym, ap, subst, ◌∙◌, Option, none, some, List, [], ◌∷◌, Text, codes,
  text_eq, Result, ok, err, get_elem?, true,
}
use flow_stitch.Base.Dict.{Dict, lookup}
use flow_stitch.Domain.Instant.{add}
use flow_stitch.Domain.Rule.{Rule, Role, Stitch, validate, has}
use flow_stitch.Domain.Flow.Defs.{Flow, open_flow}
use flow_stitch.Domain.Flow.Roles.{matching_role}
use flow_stitch.Domain.Flow.Roles.Unique.{matching_role_unique}
use flow_stitch.Domain.Flow.Apply.{Size, apply}
use flow_stitch.Domain.Flow.Apply.Header.{header-apply}
use flow_stitch.Domain.Flow.Apply.Placed.{IsValid}
use flow_stitch.Domain.Flow.Close.Deadline.{
  Reached, opened, applied, deadline_bounded, Reached-IsValid,
}
use flow_stitch.Domain.Flow.Codec.{Json, encode, decode, encoded, restore_rule}
use flow_stitch.Domain.Flow.Codec.RoundTrip.{strip, decode-encode}
use flow_stitch.Examples.Data.{one_event_rule, call_stitch, request, call_key}

abbrev unit_size : Size
unit_size doc = some 1

abbrev fresh : Flow
fresh = open_flow call_key one_event_rule request

abbrev applied_flow : Flow
applied_flow = (apply unit_size fresh request one_event_rule 600).0

applied_flow-Reached : Reached unit_size one_event_rule applied_flow
applied_flow-Reached = applied request 600 (opened call_key request)

deadline_bounded_example :
    (applied_flow.expires_at ≤ applied_flow.timeout_at)
    × (applied_flow.timeout_at
        ≡ add applied_flow.first_observed_at one_event_rule.lifecycle.timeout)
    × ((applied_flow.expires_at ≡ applied_flow.timeout_at)
        ⊎ ((0 < applied_flow.settle_until) × (applied_flow.expires_at ≡ applied_flow.settle_until)))
deadline_bounded_example =
    deadline_bounded unit_size one_event_rule applied_flow applied_flow-Reached

rule_accepted : validate one_event_rule ≡ ok tt
unfolding validate flow_stitch.Domain.Rule.check_stitches flow_stitch.Domain.Rule.claim_roles
    flow_stitch.Domain.Rule.claim_types lookup flow_stitch.Base.Dict.insert
    flow_stitch.Base.text_beq flow_stitch.Domain.Rule.check_required
    flow_stitch.Domain.Rule.check_promotions
rule_accepted = refl

response_claimed : has (codes "res") (codes "res" ∷ []) ≡ true
unfolding has flow_stitch.Base.text_beq
response_claimed = refl

matching_role_unique_example :
    matching_role one_event_rule.stitch (some (codes "res")) ≡ some (call_stitch, codes "response")
matching_role_unique_example =
    matching_role_unique one_event_rule 0 1 call_stitch
      (record { name = codes "response"; types = codes "res" ∷ [] }) (codes "res") rule_accepted
      refl refl response_claimed

-- An encoder that knows one flow.
abbrev one_flow_json : Json
one_flow_json = record {
  marshal = λ x. some (codes "flow");
  unmarshal = λ raw. some (encoded applied_flow);
}

applied_flow-IsValid : IsValid applied_flow
applied_flow-IsValid = Reached-IsValid applied_flow-Reached

opened_rule : fresh.pinned_rule ≡ one_event_rule
unfolding open_flow
opened_rule = refl

rule_respelled : restore_rule one_event_rule ≡ ok one_event_rule
unfolding restore_rule flow_stitch.Domain.Flow.Codec.restore_path
    flow_stitch.Domain.DocPath.Canonical.canonical flow_stitch.Domain.DocPath.compile
    flow_stitch.Domain.DocPath.segments_from flow_stitch.Domain.DocPath.Canonical.print_segments
    flow_stitch.Domain.DocPath.span_bare flow_stitch.Domain.DocPath.brackets
    flow_stitch.Domain.DocPath.after_brackets flow_stitch.Domain.Flow.Codec.restore_stitches
    flow_stitch.Domain.Flow.Codec.restore_paths flow_stitch.Domain.Flow.Codec.restore_promotions
rule_respelled = refl

rule_restored : restore_rule applied_flow.pinned_rule ≡ ok one_event_rule
rule_restored =
    subst (λ r. restore_rule r ≡ ok one_event_rule)
      (sym (
        ap (λ h. h.pinned_rule) (header-apply unit_size fresh request one_event_rule 600)
        ∙ opened_rule))
      rule_respelled

decode-encode_example :
    (encode one_flow_json applied_flow ≡ ok (2 ∷ codes "flow"))
    × (decode one_flow_json (2 ∷ codes "flow") ≡ ok (strip applied_flow one_event_rule))
decode-encode_example =
    decode-encode one_flow_json applied_flow one_event_rule (codes "flow") applied_flow-IsValid refl
      refl rule_restored
