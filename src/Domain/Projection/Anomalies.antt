-- ===== src/Domain/Projection/Anomalies.antt =====
-- `Project` of internal/domain/projection/document.go adds one view for each entry, and anomalies
-- only for the invocations and promotions that it says.
use flow_stitch.Base.{
  Bool, false, ◌&&◌, ◌||◌, not, none, some, List, [], ◌∷◌, Text, text_eq, ◌==◌, is_some,
}
use flow_stitch.Base.Int.{pos, ltb_ℤ}
use flow_stitch.Domain.Rule.{Rule, Promotion}
use flow_stitch.Domain.Flow.Defs.{EntryItem, stitched, plain_event}
use flow_stitch.Domain.Flow.Close.{Finalized}
use flow_stitch.Domain.Projection.Shape.{Parsers}
use flow_stitch.Domain.Projection.Views.{invocation_duration}
use flow_stitch.Domain.Projection.Promote.{promotion_value, coerce}

-- The entries that are called skewed: invocations that are not complete, whose duration is -1, and
-- those that end before they start.
unfoldable pub item_skewed : Parsers → Rule → EntryItem → Bool
item_skewed parse r (stitched i) = not i.complete || ltb_ℤ (invocation_duration parse r i) (pos 0)
item_skewed parse r (plain_event e) = false

-- A promotion whose value is there and is not of its type, and one whose value is.
unfoldable pub fails : Parsers → Finalized → Promotion → Bool
fails parse f p = elim (promotion_value f p) [
  | none ↦ false
  | some raw ↦ not (is_some (coerce parse raw p.type))
]

unfoldable pub succeeds : Parsers → Finalized → Promotion → Bool
succeeds parse f p = elim (promotion_value f p) [
  | none ↦ false
  | some raw ↦ is_some (coerce parse raw p.type)
]

unfoldable pub is_promoted : Parsers → Finalized → Text → List Promotion → Bool
is_promoted parse f name [] = false
is_promoted parse f name (p ∷ ps) =
    (p.name == name && succeeds parse f p) || is_promoted parse f name ps
