-- ===== src/Domain/Flow/Apply.antt =====
-- `Apply` of internal/domain/flow/flow.go, and the helpers that change the aggregate. `size` is
-- `len(json.Marshal(doc))`, or none where the encoder fails.
pub mod Placed
pub mod Header
pub mod Account
use flow_stitch.Base.{
  ℕ, zero, suc, ◌+◌, Bool, true, false, ◌&&◌, ◌||◌, Option, none, some, List, [], ◌∷◌, ◌++◌, Text,
  text_eq, nat_eq, ◌==◌, if◌then◌else◌, length, is_some, or_else, codes, ltb, get_elem?, set,
}
use flow_stitch.Base.Dict.{Dict, lookup, insert}
use flow_stitch.Domain.Instant.{Instant}
use flow_stitch.Domain.Event.{Event, Fields, same_doc}
use flow_stitch.Domain.DocPath.{resolve}
use flow_stitch.Domain.Rule.{Stitch, Rule, is_terminal, group_fields, Limits}
use flow_stitch.Domain.Flow.Defs.{Flow, Invocation, PlainEntry, Anomaly, anomaly_cardinality}
use flow_stitch.Domain.Flow.Roles.{
  matching_role, required_roles, invocation_complete, invocation_key, resolve_group,
}

abbrev pub Size : Type 0
Size = Fields → Option ℕ

-- A configured limit that is exceeded.
unfoldable pub over : ℕ → ℕ → Bool
over limit n = ltb 0 limit && ltb limit n

-- The byte count and the limit flag of `storeEvent`; a document that does not encode changes neither.
unfoldable pub stored_bytes : Option ℕ → ℕ → ℕ
stored_bytes none bytes = bytes
stored_bytes (some n) bytes = bytes + n

unfoldable pub stored_limit : Option ℕ → Limits → ℕ → Bool → Bool
unfolding over
stored_limit none l bytes flag = flag
stored_limit (some n) l bytes flag =
    flag || over l.max_event_bytes n || over l.max_flow_bytes (bytes + n)

unfoldable pub store_event : Size → Flow → Event → Rule → Flow
unfolding stored_bytes stored_limit
store_event size f e r = record f {
  events = f.events ++ e ∷ [];
  bytes = stored_bytes (size e.doc) f.bytes;
  limit_exceeded = stored_limit (size e.doc) r.limits f.bytes f.limit_exceeded;
}

unfoldable pub append_plain : Size → Flow → Event → Rule → Flow
unfolding store_event
append_plain size f e r =
    let g = store_event size f e r in
    record g {
      plain = g.plain ++ record { event = e; order = g.next_order } ∷ [];
      next_order = g.next_order + 1;
    }

unfoldable pub is_terminal_type : Rule → Option Text → Bool
is_terminal_type r none = false
is_terminal_type r (some t) = is_terminal r t

-- `if hasType && r.IsTerminal(eventType) { f.terminalSeen = true }`
unfoldable pub note_terminal : Flow → Rule → Option Text → Flow
unfolding is_terminal_type
note_terminal f r t = record f { terminal_seen = f.terminal_seen || is_terminal_type r t }

unfoldable pub touch : Flow → Instant → Flow
touch f now = record f { updated_at = now }

-- The invocation of an identity, which is made where there is none.
unfoldable pub ensure_invocation : Flow → Stitch → Dict Text Text → Text → Event → Flow × ℕ
ensure_invocation f s group identity e = elim (lookup identity f.invocation_by_key) [
  | some i ↦ (f, i)
  | none ↦ (
    record f {
      invocations =
          f.invocations
          ++ record {
            stitch_id = s.id;
            group = group;
            members = [];
            complete = false;
            duplicate_count = 0;
            first_observed_at = e.observed_at;
            order = f.next_order;
          }
            ∷ [];
      next_order = f.next_order + 1;
      invocation_by_key = insert identity (length f.invocations) f.invocation_by_key;
    },
    length f.invocations,
  )
]

unfoldable pub occupied_detail : Stitch → Text → Text
occupied_detail s role =
    codes "stitch " ++ s.id ++ codes " role " ++ role ++ codes " is already occupied"

-- The role holds an equal document: the event is counted and not stored.
unfoldable pub count_duplicate : Flow → ℕ → Invocation → Text → Flow
count_duplicate f i inv event_type = record f {
  duplicate_count = f.duplicate_count + 1;
  duplicates = insert event_type (or_else (lookup event_type f.duplicates) 0 + 1) f.duplicates;
  invocations = set f.invocations i (record inv { duplicate_count = inv.duplicate_count + 1 });
}

unfoldable pub note_occupied : Flow → Stitch → Text → Instant → Flow
note_occupied f s role now = record f {
  anomalies =
      f.anomalies
      ++ record { kind = anomaly_cardinality; detail = occupied_detail s role; at = now } ∷ [];
}

-- The role is free: the event fills it.
unfoldable pub fill_role : Size → Flow → ℕ → Invocation → Stitch → Text → Event → Rule → Flow
unfolding store_event
fill_role size f i inv s role e r =
    let filled : Invocation = record inv { members = insert role e inv.members } in
    let done : Invocation = record filled {
      complete = inv.complete || invocation_complete filled (required_roles s);
    } in
    store_event size (record f { invocations = set f.invocations i done }) e r

-- `Apply` on a role of an invocation; `true` reports a duplicate.
unfoldable pub apply_member :
    Size → Flow → ℕ → Invocation → Stitch → Text → Text → Event → Rule → Instant → Flow × Bool
unfolding append_plain touch count_duplicate note_occupied fill_role
apply_member size f i inv s role event_type e r now = elim (lookup role inv.members) [
  | some existing ↦
      if same_doc existing.doc e.doc
      then (touch (count_duplicate f i inv event_type) now, true)
      else (touch (append_plain size (note_occupied f s role now) e r) now, false)
  | none ↦ (touch (fill_role size f i inv s role e r) now, false)
]

-- An index of `invocation_by_key` always stands in `invocations` (`IsValid`), so the last branch
-- is not reached.
unfoldable pub apply_stitched :
    Size
    → Flow
    → Stitch
    → Text
    → Text
    → Dict Text Text
    → Text
    → Event
    → Rule
    → Instant
    → Flow × Bool
unfolding ensure_invocation apply_member
apply_stitched size f s role event_type group identity e r now =
    let (g, i) = ensure_invocation f s group identity e in
    elim (get_elem? g.invocations i) [
      | some inv ↦ apply_member size g i inv s role event_type e r now
      | none ↦ (g, false)
    ]

unfoldable pub apply : Size → Flow → Event → Rule → Instant → Flow × Bool
unfolding note_terminal append_plain touch apply_stitched
apply size f e r now =
    let event_type = resolve r.extract.event_type e.doc in
    let g = note_terminal f r event_type in
    elim (matching_role r.stitch event_type) [
      | none ↦ (touch (append_plain size g e r) now, false)
      | some (s, role) ↦ elim (resolve_group s.group_by (group_fields s) e.doc [] []) [
        | none ↦ (touch (append_plain size g e r) now, false)
        | some (group, values) ↦
            apply_stitched size g s role (or_else event_type []) group (invocation_key s.id values)
              e r now
      ]
    ]
