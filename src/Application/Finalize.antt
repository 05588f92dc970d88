-- ===== src/Application/Finalize.antt =====
-- internal/application/finalize.go: the output is enqueued before the open flow is deleted. The
-- projection to a document with its JSON is the argument `project`: any function of the snapshot
-- and the rule to the document's timestamp and bytes, or an error, such as `project_document`.
-- `digest` is the SHA-256 of a text
-- in hexadecimal and `format_time` Go's RFC 3339 layout. Latency and counters are left out.
use flow_stitch.Base.{
  ◌≡◌, refl, subst, ◌∙◌, true, false, Text, codes, ◌++◌, Option, none, some, Result, ok, err, ◌>>=◌,
  >>=-eq-ok, ok-injective,
}
use flow_stitch.Domain.Instant.{Instant}
use flow_stitch.Domain.Rule.{Rule, Promotion}
use flow_stitch.Domain.Projection.Shape.{Parsers, Document}
use flow_stitch.Domain.Projection.Project.{project}
use flow_stitch.Domain.IndexName.{resolve_pattern}
use flow_stitch.Domain.Outbox.{Record, zero_record}
use flow_stitch.Domain.Flow.Defs.{Flow, Reason}
use flow_stitch.Domain.Flow.Close.{Finalized, finalize}
use flow_stitch.Application.Ports.{Tx, TxLaws, StoreError, marshal_failed}

pub record Projected : Type 0 where
  pub timestamp : Instant
  pub raw : Text

-- The document of Domain/Projection in an encoding.
unfoldable pub project_document :
    Parsers
    → (Promotion → Text → Text)
    → (Document → Option Text)
    → Finalized
    → Rule
    → Result StoreError Projected
project_document parse describe marshal snapshot configured =
    let document = project parse describe snapshot configured in
    elim (marshal document) [
      | none ↦ err marshal_failed
      | some raw ↦ ok (record { timestamp = document.timestamp; raw = raw })
    ]

-- What the output needs from outside.
pub record Encoders : Type 0 where
  pub project : Finalized → Rule → Result StoreError Projected
  pub digest : Text → Text
  pub format_time : Instant → Text

-- `projection.NewOutputID`
unfoldable pub new_output_id : Encoders → Text → Text → Instant → Text
new_output_id enc rule_id correlation_key first_observed_at = enc.digest (
    rule_id ++ (codes ":" ++ (correlation_key ++ (codes ":" ++ enc.format_time first_observed_at))))

unfoldable pub output_record : Encoders → Flow → Rule → Instant → Projected → Record
output_record enc f configured now document = record zero_record {
  output_id = new_output_id enc configured.id f.key.correlation_key f.first_observed_at;
  index = resolve_pattern configured.output.index document.timestamp now;
  document = document.raw;
  created_at = now;
}

module _ (tx : Tx) (enc : Encoders) where
  unfoldable pub finalize_flow :
      Flow → Rule → Reason → Instant → tx.State → Result StoreError (tx.State × Text)
  finalize_flow f configured reason now s = do
    document ← enc.project (finalize f reason now) configured
    s1 ← tx.enqueue_outbox (output_record enc f configured now document) s
    s2 ← tx.delete_flow f.key s1
    ok (s2, new_output_id enc configured.id f.key.correlation_key f.first_observed_at)

  -- After finalization the flow is not open and its output waits, under the ID that is returned.
  pub finalize_flow-lem :
      (laws : TxLaws tx) (f : Flow) (configured : Rule) (reason : Reason) (now : Instant)
      (s s' : tx.State) (id : Text)
      → finalize_flow f configured reason now s ≡ ok (s', id)
      → (laws.holds_flow f.key s' ≡ false)
        × (laws.holds_output id s' ≡ true)
        × (id ≡ new_output_id enc configured.id f.key.correlation_key f.first_observed_at)
  unfolding finalize_flow output_record
  finalize_flow-lem laws f configured reason now s s' id h =
      let id0 = new_output_id enc configured.id f.key.correlation_key f.first_observed_at in
      let (document, projected, h1) =
        >>=-eq-ok (enc.project (finalize f reason now) configured)
          (λ d. tx.enqueue_outbox (output_record enc f configured now d) s >>= λ s1.
            tx.delete_flow f.key s1 >>= λ s2. ok (s2, id0))
          (s', id) h in
      let r = output_record enc f configured now document in
      let (s1, enqueued, h2) =
        >>=-eq-ok (tx.enqueue_outbox r s) (λ s1. tx.delete_flow f.key s1 >>= λ s2. ok (s2, id0))
          (s', id) h1 in
      let (s2, deleted, h3) =
        >>=-eq-ok (tx.delete_flow f.key s1) (λ s2. ok (s2, id0)) (s', id) h2 in
      let same = ok-injective (s2, id0) (s', id) h3 in
      subst
        (λ p.
          (laws.holds_flow f.key p.0 ≡ false) × (laws.holds_output p.1 p.0 ≡ true) × (p.1 ≡ id0))
        same
        (
          laws.delete-holds f.key s1 s2 deleted,
          laws.delete-outputs f.key id0 s1 s2 deleted ∙ laws.enqueue-holds r s s1 enqueued,
          refl,
        )
