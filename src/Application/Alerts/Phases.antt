-- ===== src/Application/Alerts/Phases.antt =====
-- internal/application/alerts/service.go: an alert condition starts once, repeats no sooner than the
-- interval and clears once.
use flow_stitch.Base.{
  ◌≡◌, ◌≢◌, refl, sym, subst, ap, Bool, true, false, none, List, Text, arith, Option-cases, inl,
  inr, is_some,
}
use flow_stitch.Base.Int.{ltb_ℤ}
use flow_stitch.Domain.Instant.{Instant, Duration, sub}
use flow_stitch.Application.Alerts.{
  Kind, dlq, outbox_backlog, AlertOptions, Condition, Conditions, Service, state_of, set_state,
  AlertCounts, ReasonCount, phase_of, transition,
}

state_of-set_state :
    (kind : Kind) (c : Condition) (s : Conditions) → state_of kind (set_state kind c s) ≡ c
unfolding state_of set_state
state_of-set_state dlq c s = refl
state_of-set_state outbox_backlog c s = refl

phase_of-none :
    (opts : AlertOptions) (active : Bool) (now : Instant) (c : Condition)
    → phase_of opts active now c ≡ none
    → c.active ≡ active
unfolding phase_of
phase_of-none opts active now c h = ground arith

-- After an observation of a condition, an alert for it or none, the condition is what was observed.
pub transition-active :
    (kind : Kind) (active : Bool) (now : Instant) (counts : AlertCounts)
    (reasons : List ReasonCount) (indices : List Text) (oldest : Duration) (s : Service)
    → (state_of kind (transition kind active now counts reasons indices oldest s).0.states).active
      ≡ active
unfolding transition
transition-active kind active now counts reasons indices oldest s =
    elim (Option-cases (phase_of s.opts active now (state_of kind s.states))) [
      | inl e ↦ rw (e, transition) (phase_of-none s.opts active now (state_of kind s.states) e)
      | inr (p, e) ↦
          rw (e, transition)
            (ap (λ c. c.active)
              (state_of-set_state kind (record { active = active; last_emitted = now }) s.states))
    ]

phase_of-quiet :
    (opts : AlertOptions) (active : Bool) (now later : Instant)
    → ltb_ℤ (sub later now) opts.min_interval ≡ true
    → phase_of opts active later (record { active = active; last_emitted = now }) ≡ none
unfolding phase_of
phase_of-quiet opts true now later h = rw h refl
phase_of-quiet opts false now later h = refl

-- An alert is not repeated early: when one was emitted, the same observation sooner than the
-- minimal interval afterwards emits none and changes nothing.
pub transition-quiet :
    (kind : Kind) (active : Bool) (now later : Instant) (counts counts' : AlertCounts)
    (reasons reasons' : List ReasonCount) (indices indices' : List Text) (oldest oldest' : Duration)
    (s : Service)
    → is_some (transition kind active now counts reasons indices oldest s).1 ≡ true
    → ltb_ℤ (sub later now) s.opts.min_interval ≡ true
    → transition kind active later counts' reasons' indices' oldest'
        (transition kind active now counts reasons indices oldest s).0
      ≡ ((transition kind active now counts reasons indices oldest s).0, none)
unfolding transition
transition-quiet kind active now later counts counts' reasons reasons' indices indices' oldest
      oldest' s h soon =
    elim (Option-cases (phase_of s.opts active now (state_of kind s.states))) [
      | inl e ↦ absurd (not_emitted (rw (e, transition) at h))
      | inr (p, e) ↦
          let c : Condition = record { active = active; last_emitted = now } in
          let quiet : phase_of s.opts active later (state_of kind (set_state kind c s.states))
              ≡ none =
            subst (λ x. phase_of s.opts active later x ≡ none)
              (sym (state_of-set_state kind c s.states))
              (phase_of-quiet s.opts active now later soon) in
          let after : Service = record s { states = set_state kind c s.states } in
          let emitted : (transition kind active now counts reasons indices oldest s).0 ≡ after =
            rw (e, transition) refl in
          let silent : transition kind active later counts' reasons' indices' oldest' after
              ≡ (after, none) =
            rw (quiet, transition) refl in
          subst (λ t. transition kind active later counts' reasons' indices' oldest' t ≡ (t, none))
            (sym emitted) silent
    ]
  where
    not_emitted : false ≢ true
    not_emitted x = cc
