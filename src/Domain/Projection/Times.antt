-- ===== src/Domain/Projection/Times.antt =====
-- `flowTimes` of internal/domain/projection/document.go is the span of the timestamps that can be
-- read.
use flow_stitch.Base.{
  ◌≡◌, ◌≤◌, refl, Bool, true, false, ◌&&◌, ◌||◌, not, List, [], ◌∷◌, nat_eq, ◌==◌, leb, arith, All,
}
use flow_stitch.Domain.Instant.{Instant, zero_time, is_zero}
use flow_stitch.Domain.Event.{Event}
use flow_stitch.Domain.Rule.{Rule}
use flow_stitch.Domain.Projection.Shape.{Parsers}
use flow_stitch.Domain.Projection.Timing.{event_timestamp, widen, times_from, flow_times}

-- A timestamp that was read lies between the two.
abbrev pub spans : Instant × Instant → Instant → Bool
spans times stamp =
    is_zero stamp || (not (is_zero times.0) && leb times.0 stamp && leb stamp times.1)

-- An instant is the timestamp of one of the events.
unfoldable pub has_stamp : Parsers → Rule → List Event → Instant → Bool
has_stamp parse r [] t = false
has_stamp parse r (e ∷ es) t = event_timestamp parse r e == t || has_stamp parse r es t

widen_self : (stamp : Instant) (times : Instant × Instant) → spans (widen stamp times) stamp ≡ true
unfolding widen
widen_self stamp (first, last) = ground arith

widen-keeps :
    (stamp t : Instant) (times : Instant × Instant)
    → spans times t ≡ true
    → spans (widen stamp times) t ≡ true
unfolding widen
widen-keeps stamp t (first, last) h = ground arith

-- Both are zero or neither, and they are in order.
abbrev ordered : Instant × Instant → Bool
ordered times = leb times.0 times.1 && (not (is_zero times.0) || is_zero times.1)

widen-ordered :
    (stamp : Instant) (times : Instant × Instant)
    → ordered times ≡ true
    → ordered (widen stamp times) ≡ true
unfolding widen
widen-ordered stamp (first, last) h = ground arith

widen-from :
    (stamp : Instant) (times : Instant × Instant)
    → (((widen stamp times).0 == times.0 || stamp == (widen stamp times).0) ≡ true)
      × (((widen stamp times).1 == times.1 || stamp == (widen stamp times).1) ≡ true)
unfolding widen
widen-from stamp (first, last) = (ground arith, ground arith)

module _ (parse : Parsers) (r : Rule) where
  times_from-keeps :
      (es : List Event) (t : Instant) (times : Instant × Instant)
      → spans times t ≡ true
      → spans (times_from parse r es times) t ≡ true
  unfolding times_from
  times_from-keeps [] t times h = h
  times_from-keeps (e ∷ es) t times h =
      times_from-keeps es t (widen (event_timestamp parse r e) times)
        (widen-keeps (event_timestamp parse r e) t times h)

  times_from-spans :
      (es : List Event) (times : Instant × Instant)
      → All (λ e. spans (times_from parse r es times) (event_timestamp parse r e) ≡ true) es
  unfolding times_from
  times_from-spans [] times = tt
  times_from-spans (e ∷ es) times =
      let stamp = event_timestamp parse r e in
      (
        times_from-keeps es stamp (widen stamp times) (widen_self stamp times),
        times_from-spans es (widen stamp times),
      )

  times_from-ordered :
      (es : List Event) (times : Instant × Instant)
      → ordered times ≡ true
      → ordered (times_from parse r es times) ≡ true
  unfolding times_from
  times_from-ordered [] times h = h
  times_from-ordered (e ∷ es) times h =
      times_from-ordered es (widen (event_timestamp parse r e) times)
        (widen-ordered (event_timestamp parse r e) times h)

  times_from-attained :
      (es : List Event) (times : Instant × Instant)
      → (((times_from parse r es times).0 == times.0
            || has_stamp parse r es (times_from parse r es times).0)
          ≡ true)
        × (((times_from parse r es times).1 == times.1
              || has_stamp parse r es (times_from parse r es times).1)
            ≡ true)
  unfolding times_from has_stamp
  times_from-attained [] times = (ground arith, ground arith)
  times_from-attained (e ∷ es) times =
      let stamp = event_timestamp parse r e in
      let (a, b) = widen-from stamp times in
      let (c, d) = times_from-attained es (widen stamp times) in
      (ground (arith, a, c), ground (arith, b, d))

  -- A flow starts at its earliest timestamp and ends at its latest, leaving out those that cannot be
  -- read: every other lies between, the end is not before the start, and each of the two is zero or is
  -- the timestamp of an event.
  pub flow_times-span :
      (events : List Event)
      → All (λ e. spans (flow_times parse r events) (event_timestamp parse r e) ≡ true) events
        × ((flow_times parse r events).0 ≤ (flow_times parse r events).1)
        × ((is_zero (flow_times parse r events).0
              || has_stamp parse r events (flow_times parse r events).0)
            ≡ true)
        × ((is_zero (flow_times parse r events).1
              || has_stamp parse r events (flow_times parse r events).1)
            ≡ true)
  unfolding flow_times
  flow_times-span events =
      let (first, last) = times_from-attained events (zero_time, zero_time) in
      (
        times_from-spans events (zero_time, zero_time),
        ground (arith, times_from-ordered events (zero_time, zero_time) refl),
        first,
        last,
      )
