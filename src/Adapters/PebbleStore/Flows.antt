-- ===== src/Adapters/PebbleStore/Flows.antt =====
-- The operations of internal/adapters/state/pebble/store.go on open flows, each filed under its key
-- and once more under its deadline.
pub mod Index
pub mod Candidates
pub mod Due
use flow_stitch.Base.{
  Bool, true, false, ◌&&◌, not, Option, none, some, List, [], ◌∷◌, map, Text, text_eq, text_ltb,
  ◌==◌, if◌then◌else◌, ℕ, Result, ok, err, ◌>>=◌, from_option,
}
use flow_stitch.Base.Sort.{sort_by}
use flow_stitch.Domain.Instant.{Instant, before, after, same_instant}
use flow_stitch.Domain.Flow.Defs.{Flow, FlowKey}
use flow_stitch.Domain.Flow.Codec.{Json, encode, decode}
use flow_stitch.Application.Ports.{StoreError, encode_failed, decode_failed, malformed_key}
use flow_stitch.Adapters.MemoryStore.State.{limited}
use flow_stitch.Adapters.PebbleStore.Keys.{
  flow_key, expiry_key, expiry_prefix, expiry_time_prefix, prefix_end, parse_expiry_key,
  expiry_deadline,
}
use flow_stitch.Adapters.PebbleStore.Engine.{Engine}

pub record Candidate : Type 0 where
  pub key : FlowKey
  pub deadline : Instant

unfoldable pub candidate_less : Candidate → Candidate → Bool
candidate_less a b =
    if same_instant a.deadline b.deadline
    then if a.key.rule_id == b.key.rule_id
      then text_ltb a.key.correlation_key b.key.correlation_key
      else text_ltb a.key.rule_id b.key.rule_id
    else before a.deadline b.deadline

-- The candidate that an index entry gives, by the flow that its key leads to.
unfoldable pub candidate_of :
    Instant → Text → FlowKey → Option Flow → List Candidate → List Candidate
candidate_of now raw key none rest = record { key = key; deadline = expiry_deadline raw } ∷ rest
candidate_of now raw key (some f) rest =
    if not (after f.expires_at now)
    then record { key = key; deadline = f.expires_at } ∷ rest
    else rest

unfoldable pub decode_flow : Json → Text → Result StoreError Flow
decode_flow json raw = elim (decode json raw) [ err e ↦ err decode_failed | ok f ↦ ok f ]

unfoldable pub encode_flow : Json → Flow → Result StoreError Text
encode_flow json f = elim (encode json f) [ err e ↦ err encode_failed | ok raw ↦ ok raw ]

unfoldable pub decode_found : Json → Option Text → Result StoreError (Option Flow)
decode_found json none = ok none
decode_found json (some raw) = do f ← decode_flow json raw; ok (some f)

unfoldable pub previous_key : FlowKey → Option Flow → FlowKey
previous_key k none = k
previous_key k (some previous) = previous.key

module _ (e : Engine) (json : Json) where
  unfoldable pub load_flow : FlowKey → e.State → Result StoreError (Option Flow)
  load_flow k s = do found ← e.get (flow_key k) s; decode_found json found

  -- The deadline of the flow that was filed before leaves the index.
  unfoldable pub drop_expiry : FlowKey → Option Flow → e.State → Result StoreError e.State
  drop_expiry k none s = ok s
  drop_expiry k (some previous) s = e.delete (expiry_key previous.expires_at k) s

  unfoldable pub save_flow : Flow → e.State → Result StoreError e.State
  save_flow f s = do
    previous ← load_flow f.key s
    s1 ← drop_expiry (previous_key f.key previous) previous s
    raw ← encode_flow json f
    s2 ← e.set (flow_key f.key) raw s1
    e.set (expiry_key f.expires_at f.key) [] s2

  unfoldable pub delete_flow : FlowKey → e.State → Result StoreError e.State
  delete_flow k s = do
    previous ← load_flow k s
    s1 ← drop_expiry k previous s
    e.delete (flow_key k) s1

  unfoldable pub candidates :
      Instant → List (Text × Text) → e.State → Result StoreError (List Candidate)
  candidates now [] s = ok []
  candidates now ((raw, v) ∷ es) s = do
    key ← from_option (parse_expiry_key raw) malformed_key
    current ← load_flow key s
    rest ← candidates now es s
    ok (candidate_of now raw key current rest)

  unfoldable pub due_flows : Instant → ℕ → e.State → Result StoreError (List FlowKey)
  due_flows now limit s = do
    es ← e.scan expiry_prefix (prefix_end (expiry_time_prefix now)) s
    found ← candidates now es s
    ok (map (λ c. c.key) (limited limit (sort_by candidate_less found)))
