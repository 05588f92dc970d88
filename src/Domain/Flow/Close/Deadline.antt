-- ===== src/Domain/Flow/Close/Deadline.antt =====
-- The persisted deadline: the total timeout, or the end of a settle window that comes first.
use flow_stitch.Base.{
  ◌⊎◌, ◌≡◌, ◌≤◌, ◌<◌, refl, Bool, true, false, arith, if◌then◌else◌, Bool-cases, inl, inr, text_eq,
  sym, subst,
}
use flow_stitch.Base.Int.{pos, negsuc}
use flow_stitch.Domain.Instant.{Duration, Instant, zero_time, is_zero, not_positive, add, before}
use flow_stitch.Domain.Event.{Event}
use flow_stitch.Domain.Rule.{Rule}
use flow_stitch.Domain.Flow.Defs.{Flow, FlowKey, open_flow}
use flow_stitch.Domain.Flow.Apply.{Size, apply}
use flow_stitch.Base.Dict.{lookup}
use flow_stitch.Domain.Flow.Apply.Placed.{IsValid}
use flow_stitch.Domain.Flow.Apply.Header.{Header, header, header-apply}
use flow_stitch.Domain.Flow.Apply.Account.{Accounted, apply-Accounted}
use flow_stitch.Domain.Flow.Close.{
  min_time, at_limit, all_complete, cancel_settle, settle, should_close,
}

-- `expires_at` is what the timeout and the settle window make it.
abbrev pub DeadlineOf : Header → Type 0
DeadlineOf f =
    f.expires_at
    ≡ (if is_zero f.settle_until then f.timeout_at else min_time f.timeout_at f.settle_until)

abbrev pub HasDeadline : Flow → Type 0
HasDeadline f = DeadlineOf (header f)

open_flow-HasDeadline : (k : FlowKey) (r : Rule) (e : Event) → HasDeadline (open_flow k r e)
unfolding open_flow
open_flow-HasDeadline k r e = refl

open_flow_total :
    (k : FlowKey) (r : Rule) (e : Event)
    → (open_flow k r e).timeout_at ≡ add (open_flow k r e).first_observed_at r.lifecycle.timeout
unfolding open_flow
open_flow_total k r e = refl

-- A positive duration from now is not the zero time.
positive_add : (now : Instant) (d : Duration) → not_positive d ≡ false → 0 < add now d
positive_add now (pos n) h = ground arith
positive_add now (negsuc n) h = ground arith

should_close-HasDeadline :
    (f : Flow) (r : Rule) (now : Instant) → HasDeadline f → HasDeadline (should_close f r now).0
unfolding should_close settle cancel_settle
should_close-HasDeadline f r now h = ground (arith, positive_add now r.lifecycle.settle)

-- A flow as the use cases make it: opened, given events, and found not to close.
pub data Reached (size : Size) (r : Rule) : Flow → Type 0 where
  opened : (k : FlowKey) (e : Event) → Reached size r (open_flow k r e)
  applied :
      {f : Flow} (e : Event) (now : Instant)
      → Reached size r f
      → Reached size r (apply size f e r now).0
  stayed_open :
      {f : Flow} (now : Instant) → Reached size r f → Reached size r (should_close f r now).0

-- What holds of every such flow.
pub record IsSound (r : Rule) (f : Flow) : Type 0 where
  pub valid : IsValid f
  pub deadline : HasDeadline f
  pub total : f.timeout_at ≡ add f.first_observed_at r.lifecycle.timeout

pub open_flow-IsValid : (k : FlowKey) (r : Rule) (e : Event) → IsValid (open_flow k r e)
unfolding open_flow lookup
open_flow-IsValid k r e = record {
  enumerated = tt;
  indexed = omega arith;
  numbered = omega arith;
  orders = tt;
  plain_orders = tt;
  placed = omega arith;
}

Accounted-IsValid : (f : Flow) (e : Event) (out : Flow × Bool) → Accounted f e out → IsValid out.0
Accounted-IsValid f e (g, false) a = a.0
Accounted-IsValid f e (g, true) a = a.0

-- `ShouldClose` leaves the flow as it is, or changes its settle window and deadline only.
module _ {ℓ} (P : Flow → Type ℓ) (f : Flow) (r : Rule) (now : Instant)
    (h : (until deadline : Instant)
      → P (record f { settle_until = until; expires_at = deadline })) where
  settle_cases : P (settle f r now).0
  unfolding settle
  settle_cases = elim (Bool-cases (not_positive r.lifecycle.settle)) [
    | inl x ↦ rw (x, settle) (h f.settle_until f.expires_at)
    | inr x ↦
        rw (x, settle)
          (elim (Bool-cases (is_zero f.settle_until)) [
            | inl y ↦ rw y (h _ _)
            | inr y ↦ rw y (elim (Bool-cases (before now f.settle_until)) [
              | inl z ↦ rw z (h f.settle_until f.expires_at)
              | inr z ↦ rw z (h f.settle_until f.expires_at)
            ])
          ])
  ]

  cancel_cases : P (cancel_settle f)
  unfolding cancel_settle
  cancel_cases = elim (Bool-cases (is_zero f.settle_until)) [
    | inl x ↦ rw (x, cancel_settle) (h f.settle_until f.expires_at)
    | inr x ↦ rw (x, cancel_settle) (h zero_time f.timeout_at)
  ]

  pub should_close_cases : P (should_close f r now).0
  unfolding should_close
  should_close_cases = elim (Bool-cases f.terminal_seen) [
    | inl a ↦ simp a (h f.settle_until f.expires_at)
    | inr a ↦ simp a (elim (Bool-cases (at_limit f r)) [
      | inl b ↦ rw b (h f.settle_until f.expires_at)
      | inr b ↦ rw b (elim (Bool-cases (all_complete f r)) [
        | inl c ↦ rw c settle_cases
        | inr c ↦ rw c cancel_cases
      ])
    ])
  ]

Reached-IsSound : {size : Size} {r : Rule} {f : Flow} → Reached size r f → IsSound r f
Reached-IsSound {r = r} (opened k e) = record {
  valid = open_flow-IsValid k r e;
  deadline = open_flow-HasDeadline k r e;
  total = open_flow_total k r e;
}
Reached-IsSound {size = size} {r = r} (applied {f} e now x) =
    let s = Reached-IsSound x in
    let same = header-apply size f e r now in
    record {
      valid = Accounted-IsValid f e (apply size f e r now) (apply-Accounted size f e r now s.valid);
      deadline = subst DeadlineOf (sym same) s.deadline;
      total =
          subst (λ h. h.timeout_at ≡ add h.first_observed_at r.lifecycle.timeout) (sym same)
            s.total;
    }
Reached-IsSound {r = r} (stayed_open {f} now x) =
    let s = Reached-IsSound x in
    record {
      valid = should_close_cases IsValid f r now (λ u d. s.valid);
      deadline = should_close-HasDeadline f r now s.deadline;
      total =
          should_close_cases (λ g. g.timeout_at ≡ add g.first_observed_at r.lifecycle.timeout) f r
            now (λ u d. s.total);
    }

-- However events and checks follow one another, a flow's deadline never passes its total timeout,
-- which runs from its first event, and the deadline is the timeout itself unless a settle window
-- ends before it.
pub deadline_bounded :
    (size : Size) (r : Rule) (f : Flow)
    → Reached size r f
    → (f.expires_at ≤ f.timeout_at)
      × (f.timeout_at ≡ add f.first_observed_at r.lifecycle.timeout)
      × ((f.expires_at ≡ f.timeout_at) ⊎ ((0 < f.settle_until) × (f.expires_at ≡ f.settle_until)))
deadline_bounded size r f x =
    let s = Reached-IsSound x in (bound s.deadline, s.total, early s.deadline)
  where
    bound : HasDeadline f → f.expires_at ≤ f.timeout_at
    bound d = ground arith

    early :
        HasDeadline f
        → (f.expires_at ≡ f.timeout_at) ⊎ ((0 < f.settle_until) × (f.expires_at ≡ f.settle_until))
    early d = ground arith

pub Reached-IsValid : {size : Size} {r : Rule} {f : Flow} → Reached size r f → IsValid f
Reached-IsValid x = (Reached-IsSound x).valid
