-- ===== src/Domain/Flow/Apply/Header.antt =====
-- The fields that `Apply` leaves alone: identity, pinned rule and deadlines.
use flow_stitch.Base.{
  ℕ, ◌≡◌, Text, Option-cases, Bool-cases, inl, inr, get_elem?, or_else, [], text_eq, ◌∙◌,
}
use flow_stitch.Base.Dict.{Dict, lookup}
use flow_stitch.Domain.Instant.{Instant}
use flow_stitch.Domain.Event.{Event, same_doc}
use flow_stitch.Domain.DocPath.{resolve}
use flow_stitch.Domain.Rule.{Rule, Stitch, group_fields}
use flow_stitch.Domain.Flow.Defs.{Flow, FlowKey, Invocation}
use flow_stitch.Domain.Flow.Roles.{matching_role, resolve_group, invocation_key}
use flow_stitch.Domain.Flow.Apply.{
  Size, ensure_invocation, apply_member, apply_stitched, apply, note_terminal,
}

pub record Header : Type 0 where
  pub key : FlowKey
  pub rule_version : Text
  pub pinned_rule : Rule
  pub first_observed_at : Instant
  pub timeout_at : Instant
  pub expires_at : Instant
  pub settle_until : Instant

abbrev pub header : Flow → Header
header f = record {
  key = f.key;
  rule_version = f.rule_version;
  pinned_rule = f.pinned_rule;
  first_observed_at = f.first_observed_at;
  timeout_at = f.timeout_at;
  expires_at = f.expires_at;
  settle_until = f.settle_until;
}

header-ensure_invocation :
    (f : Flow) (s : Stitch) (group : Dict Text Text) (identity : Text) (e : Event)
    → header (ensure_invocation f s group identity e).0 ≡ header f
unfolding ensure_invocation
header-ensure_invocation f s group identity e =
    elim (Option-cases (lookup identity f.invocation_by_key)) [
      | inl h ↦ rw (h, ensure_invocation)
      | inr (i, h) ↦ rw (h, ensure_invocation)
    ]

header-apply_member :
    (size : Size) (f : Flow) (i : ℕ) (inv : Invocation) (s : Stitch) (role t : Text) (e : Event)
    (r : Rule) (now : Instant)
    → header (apply_member size f i inv s role t e r now).0 ≡ header f
unfolding apply_member
header-apply_member size f i inv s role t e r now = elim (Option-cases (lookup role inv.members)) [
  | inl h ↦ rw (h, apply_member)
  | inr (old, h) ↦ elim (Bool-cases (same_doc old.doc e.doc)) [
    | inl same ↦ rw (h, apply_member) (rw same)
    | inr new ↦ rw (h, apply_member) (rw new)
  ]
]

header-apply_stitched :
    (size : Size) (f : Flow) (s : Stitch) (role t : Text) (group : Dict Text Text) (identity : Text)
    (e : Event) (r : Rule) (now : Instant)
    → header (apply_stitched size f s role t group identity e r now).0 ≡ header f
unfolding apply_stitched
header-apply_stitched size f s role t group identity e r now =
    let g = (ensure_invocation f s group identity e).0 in
    let i = (ensure_invocation f s group identity e).1 in
    elim (Option-cases (get_elem? g.invocations i)) [
      | inl h ↦ rw (h, apply_stitched) (header-ensure_invocation f s group identity e)
      | inr (inv, h) ↦
          rw (h, apply_stitched)
            (header-apply_member size g i inv s role t e r now
              ∙ header-ensure_invocation f s group identity e)
    ]

-- Whatever the event, `Apply` changes neither the flow's identity nor its deadlines.
pub header-apply :
    (size : Size) (f : Flow) (e : Event) (r : Rule) (now : Instant)
    → header (apply size f e r now).0 ≡ header f
unfolding apply
header-apply size f e r now =
    let t = resolve r.extract.event_type e.doc in
    let g = note_terminal f r t in
    elim (Option-cases (matching_role r.stitch t)) [
      | inl h ↦ rw (h, apply)
      | inr ((s, role), h) ↦
          elim (Option-cases (resolve_group s.group_by (group_fields s) e.doc [] [])) [
            | inl k ↦ rw (h, apply) (rw k)
            | inr ((group, values), k) ↦
                rw (h, apply)
                  (rw k (
                    header-apply_stitched size g s role (or_else t []) group
                      (invocation_key s.id values) e r now))
          ]
    ]
