-- ===== src/Domain/Flow/Apply/Account.antt =====
-- Every event is stored once or counted as a duplicate.
use flow_stitch.Base.{
  Bool-cases, Option-cases, inl, inr, ℕ, ◌+◌, ◌≡◌, refl, Bool, true, false, some, [], ◌∷◌, ◌++◌,
  Text, text_eq, nat_eq, length-append, or_else, get_elem?, arith, get_elem?-some,
}
use flow_stitch.Base.Dict.{Dict, lookup, length-insert}
use flow_stitch.Domain.Instant.{Instant}
use flow_stitch.Domain.Event.{Event, same_doc}
use flow_stitch.Domain.DocPath.{resolve}
use flow_stitch.Domain.Flow.Roles.{matching_role, resolve_group, invocation_key}
use flow_stitch.Domain.Rule.{group_fields, Stitch, Rule}
use flow_stitch.Domain.Flow.Defs.{Flow, Invocation}
use flow_stitch.Domain.Flow.Apply.{
  Size, note_terminal, ensure_invocation, apply_member, apply_stitched, apply, note_occupied,
}
use flow_stitch.Domain.Flow.Apply.Placed.{
  IsValid, append_plain-IsValid, ensure_invocation-IsValid, set-IsPlaced,
}

-- The outcome of `Apply`: the event is stored at the end, or counted as a duplicate.
abbrev pub Accounted : Flow → Event → Flow × Bool → Type 0
Accounted f e (g, false) =
    IsValid g × (g.events ≡ f.events ++ e ∷ []) × (g.duplicate_count ≡ f.duplicate_count)
Accounted f e (g, true) =
    IsValid g × (g.events ≡ f.events) × (g.duplicate_count ≡ f.duplicate_count + 1)

Accounted-frame :
    (f g : Flow) (e : Event) (out : Flow × Bool)
    → (g.events ≡ f.events) × (g.duplicate_count ≡ f.duplicate_count)
    → Accounted g e out
    → Accounted f e out
Accounted-frame f g e (out, false) (es, dc) a = (a.0, rw (← es) a.1, rw (← dc) a.2)
Accounted-frame f g e (out, true) (es, dc) a = (a.0, rw (← es) a.1, rw (← dc) a.2)

ensure_invocation_frame :
    (f : Flow) (s : Stitch) (group : Dict Text Text) (identity : Text) (e : Event)
    → ((ensure_invocation f s group identity e).0.events ≡ f.events)
      × ((ensure_invocation f s group identity e).0.duplicate_count ≡ f.duplicate_count)
unfolding ensure_invocation
ensure_invocation_frame f s group identity e =
    elim (Option-cases (lookup identity f.invocation_by_key)) [
      | inl h ↦ rw (h, ensure_invocation) (refl, refl)
      | inr (i, h) ↦ rw (h, ensure_invocation) (refl, refl)
    ]

module _ (size : Size) (e : Event) (r : Rule) (now : Instant) (s : Stitch)
    (role event_type : Text) where
  apply_member-Accounted :
      (f : Flow) (i : ℕ) (inv : Invocation)
      → get_elem? f.invocations i ≡ some inv
      → IsValid f
      → Accounted f e (apply_member size f i inv s role event_type e r now)
  unfolding apply_member
  apply_member-Accounted f i inv h v = elim (Option-cases (lookup role inv.members)) [
    | inl free ↦
        rw (free, apply_member)
          (
            set-IsPlaced i inv _ h refl
                (ground
                  (arith, length-append f.events (e ∷ []), length-insert role e inv.members, free))
                v,
            refl,
            refl,
          )
    | inr (old, full) ↦ elim (Bool-cases (same_doc old.doc e.doc)) [
      | inl same ↦
          rw (full, apply_member) (rw same (set-IsPlaced i inv _ h refl refl v, refl, refl))
      | inr new ↦
          rw (full, apply_member)
            (rw new (append_plain-IsValid size (note_occupied f s role now) e r v, refl, refl))
    ]
  ]

  apply_stitched-Accounted :
      (f : Flow) (group : Dict Text Text) (identity : Text)
      → IsValid f
      → Accounted f e (apply_stitched size f s role event_type group identity e r now)
  unfolding apply_stitched
  apply_stitched-Accounted f group identity v =
      let (gv, lt) = ensure_invocation-IsValid f s group identity e v in
      let g = (ensure_invocation f s group identity e).0 in
      let i = (ensure_invocation f s group identity e).1 in
      let (inv, h) = get_elem?-some g.invocations i lt in
      rw (h, apply_stitched)
        (Accounted-frame f g e (apply_member size g i inv s role event_type e r now)
          (ensure_invocation_frame f s group identity e) (apply_member-Accounted g i inv h gv))

pub apply-Accounted :
    (size : Size) (f : Flow) (e : Event) (r : Rule) (now : Instant)
    → IsValid f
    → Accounted f e (apply size f e r now)
unfolding apply note_terminal
apply-Accounted size f e r now v =
    elim (Option-cases (matching_role r.stitch (resolve r.extract.event_type e.doc))) [
      | inl h ↦
          rw (h, apply)
            (
              append_plain-IsValid size (note_terminal f r (resolve r.extract.event_type e.doc)) e r
                  v,
              refl,
              refl,
            )
      | inr ((s, role), h) ↦
          elim (Option-cases (resolve_group s.group_by (group_fields s) e.doc [] [])) [
            | inl k ↦
                rw (h, apply)
                  (rw k (
                    append_plain-IsValid size
                        (note_terminal f r (resolve r.extract.event_type e.doc)) e r v,
                    refl,
                    refl,
                  ))
            | inr ((group, values), k) ↦
                rw (h, apply)
                  (rw k (
                    apply_stitched-Accounted size e r now s role
                      (or_else (resolve r.extract.event_type e.doc) [])
                      (note_terminal f r (resolve r.extract.event_type e.doc)) group
                      (invocation_key s.id values) v))
          ]
    ]
