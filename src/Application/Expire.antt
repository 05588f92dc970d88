-- ===== src/Application/Expire.antt =====
-- internal/application/expire/service.go: the timeout sweep. The ports are arguments; the log line
-- and the counters are left out, and the count that is returned beside an error, which no caller
-- reads. A round of the outer loop is a unit of fuel.
pub mod Ends
use flow_stitch.Base.{
  ℕ, zero, suc, ◌+◌, Bool, true, false, ◌||◌, ◌&&◌, Option, none, some, List, [], ◌∷◌, ◌++◌, Text,
  nat_eq, ◌==◌, if◌then◌else◌, ltb, Result, ok, err, length, is_some, or_else,
}
use flow_stitch.Base.Int.{ℤ, pos_part}
use flow_stitch.Domain.Instant.{Instant}
use flow_stitch.Domain.Rule.{Rule, Reference}
use flow_stitch.Domain.Flow.Defs.{Flow, FlowKey, key_eq, Reason, timeout, rule_unavailable}
use flow_stitch.Domain.Flow.Close.{should_close}
use flow_stitch.Application.Ports.{Tx, StoreError, RuleRegistry}
use flow_stitch.Application.Finalize.{Encoders, finalize_flow}

unfoldable pub sweep_batch_or_default : ℤ → ℕ
sweep_batch_or_default n = if pos_part n == 0 then 128 else pos_part n

pub data SweepError : Type 0 where
  sweep_store : StoreError → SweepError
  out_of_rounds : SweepError

unfoldable pub is_visited : FlowKey → List FlowKey → Bool
is_visited k [] = false
is_visited k (j ∷ js) = j == k || is_visited k js

-- The variables of the sweep.
pub record Sweep {ℓ} (S : Type ℓ) : Type ℓ where
  pub store : S
  pub visited : List FlowKey
  pub finalized : ℕ
  pub released : List Reference

module _ (tx : Tx) (rules : RuleRegistry) (enc : Encoders) (batch : ℕ) (now : Instant)
    (registry : rules.State) where
  -- The flow as `ShouldClose` leaves it, the rule and the reason: a version that the registry no
  -- longer has is replaced by the flow's own snapshot.
  unfoldable pub closing : FlowKey → Flow → Flow × Rule × Reason
  closing key f =
      elim (rules.get (record { id = key.rule_id; version = f.rule_version }) registry) [
        | none ↦ (f, f.pinned_rule, rule_unavailable)
        | some configured ↦
            let (g, reason) = should_close f configured now in
            (g, configured, or_else reason timeout)
      ]

  unfoldable pub sweep_flow : FlowKey → Flow → Sweep tx.State → Result StoreError (Sweep tx.State)
  sweep_flow key f st =
      let (g, configured, reason) = closing key f in
      elim (finalize_flow tx enc g configured reason now st.store) [
        | err e ↦ err e
        | ok (s, id) ↦ ok (record st {
          store = s;
          finalized = st.finalized + 1;
          released = st.released ++ record { id = key.rule_id; version = f.rule_version } ∷ [];
        })
      ]

  unfoldable pub visit : FlowKey → Sweep tx.State → Sweep tx.State
  visit key st = record st { visited = key ∷ st.visited }

  -- One key; `true` if a flow was finalized.
  unfoldable pub sweep_key : FlowKey → Sweep tx.State → Result StoreError (Sweep tx.State × Bool)
  sweep_key key st =
      if is_visited key st.visited then ok (st, false) else elim (tx.load_flow key st.store) [
        | err e ↦ err e
        | ok none ↦ ok (visit key st, false)
        | ok (some f) ↦ elim (sweep_flow key f (visit key st)) [
          | err e ↦ err e
          | ok done ↦ ok (done, true)
        ]
      ]

  -- The inner loop, which a finalization breaks when the batch is full.
  unfoldable pub sweep_keys : List FlowKey → Sweep tx.State → Result StoreError (Sweep tx.State)
  sweep_keys [] st = ok st
  sweep_keys (key ∷ keys) st = elim (sweep_key key st) [
    | err e ↦ err e
    | ok (st', did) ↦ elim (did && st'.finalized == batch) [
      | true ↦ ok st'
      | false ↦ sweep_keys keys st'
    ]
  ]

  -- The outer loop.
  unfoldable pub sweep_rounds : ℕ → ℕ → Sweep tx.State → Result SweepError (Sweep tx.State)
  sweep_rounds zero limit st = if ltb st.finalized batch then err out_of_rounds else ok st
  sweep_rounds (suc fuel) limit st = elim (ltb st.finalized batch) [
    | false ↦ ok st
    | true ↦ elim (tx.due_flows now limit st.store) [
      | err e ↦ err (sweep_store e)
      | ok keys ↦ elim (sweep_keys keys st) [
        | err e ↦ err (sweep_store e)
        | ok st' ↦ elim (ltb (length keys) limit) [
          | true ↦ ok st'
          | false ↦ sweep_rounds fuel (limit + batch) st'
        ]
      ]
    ]
  ]

  unfoldable pub release_all : List Reference → rules.State → rules.State
  release_all [] r = r
  release_all (k ∷ ks) r = release_all ks (rules.release k r)

  -- `Sweep`: the transaction is published and its references released only if it succeeds.
  unfoldable pub sweep : ℕ → tx.State → (tx.State × rules.State) × Result SweepError ℕ
  sweep fuel s =
      elim (sweep_rounds fuel batch
        (record { store = s; visited = []; finalized = 0; released = [] })) [
          | err e ↦ ((s, registry), err e)
          | ok st ↦ ((st.store, release_all st.released registry), ok st.finalized)
        ]
