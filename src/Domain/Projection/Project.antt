-- ===== src/Domain/Projection/Project.antt =====
-- `Project` of internal/domain/projection/document.go.
use flow_stitch.Base.{[], ◌++◌, Text, text_eq, nat_eq, length}
use flow_stitch.Base.Sort.{sort_by}
use flow_stitch.Domain.Rule.{Rule, Promotion}
use flow_stitch.Domain.Flow.Close.{Finalized}
use flow_stitch.Domain.Projection.Shape.{Parsers, Meta, Document, elapsed, milliseconds}
use flow_stitch.Domain.Projection.Timing.{flow_times, output_timestamp}
use flow_stitch.Domain.Projection.Views.{entry_views, duplicate_counts}
use flow_stitch.Domain.Projection.Promote.{promote_all, promotion_less}

unfoldable pub project_meta : Parsers → Finalized → Rule → Meta
project_meta parse f r =
    let times = flow_times parse r f.events in
    record {
      id = f.key.correlation_key;
      rule_id = f.rule_id;
      rule_version = f.rule_version;
      reason = f.reason;
      started_at = times.0;
      ended_at = times.1;
      duration_ms = milliseconds (elapsed times.1 times.0);
      age_ms = milliseconds (elapsed f.finalized_at f.first_observed_at);
      event_count = length f.events;
      entry_count = length f.entries;
      duplicate_count = f.duplicate_count;
      incomplete_invocations = f.incomplete_invocations;
      duplicates = duplicate_counts f.duplicates;
    }

unfoldable pub project : Parsers → (Promotion → Text → Text) → Finalized → Rule → Document
project parse describe f r =
    let (views, skews) = entry_views parse r f f.entries in
    promote_all parse describe f (sort_by promotion_less r.promote) (record {
      timestamp = output_timestamp parse f r;
      flow = project_meta parse f r;
      fields = [];
      events = views;
      anomalies = f.anomalies ++ skews;
    })
