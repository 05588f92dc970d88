-- ===== src/Domain/Flow/Close/Reasons.antt =====
-- When a flow closes, and with which reason.
use flow_stitch.Base.{◌≡◌, ◌≤◌, ◌<◌, true, false, Option, none, some, ◌⊎◌}
use flow_stitch.Domain.Instant.{Instant, is_zero, not_positive}
use flow_stitch.Domain.Rule.{Rule}
use flow_stitch.Domain.Flow.Defs.{Flow, Reason}
use flow_stitch.Domain.Flow.Close.{at_limit, all_complete, settle}

-- The settle window is off, or it has run out.
abbrev pub IsSettled : Flow → Rule → Instant → Type 0
IsSettled f r now =
    (not_positive r.lifecycle.settle ≡ true)
    ⊎ ((is_zero f.settle_until ≡ false) × (f.settle_until ≤ now))

-- What each reason says of the flow, in the order of priority.
abbrev pub Because : Flow → Rule → Instant → Option Reason → Type 0
Because f r now (some Reason.terminal_event) = f.terminal_seen ≡ true
Because f r now (some Reason.limit_exceeded) = (f.terminal_seen ≡ false) × (at_limit f r ≡ true)
Because f r now (some Reason.invocations_complete) =
    (f.terminal_seen ≡ false)
    × (at_limit f r ≡ false)
    × (all_complete f r ≡ true)
    × IsSettled f r now
Because f r now (some Reason.timeout) = ⊥
Because f r now (some Reason.rule_unavailable) = ⊥
Because f r now none =
    (f.terminal_seen ≡ false)
    × (at_limit f r ≡ false)
    × ((all_complete f r ≡ false)
        ⊎ ((not_positive r.lifecycle.settle ≡ false)
            × ((is_zero f.settle_until ≡ true) ⊎ (now < f.settle_until))))
