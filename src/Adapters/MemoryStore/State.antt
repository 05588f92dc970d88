-- ===== src/Adapters/MemoryStore/State.antt =====
-- internal/adapters/state/memory/store.go: the store, its transactions, the operations on flows and
-- the outbox's enqueueing and selection. The mutex makes each operation one step; the clone of a
-- transaction is the value that the step works on.
use flow_stitch.Base.{
  ℕ, Bool, ◌&&◌, Option, none, some, List, [], ◌∷◌, Text, text_eq, text_ltb, nat_eq, if◌then◌else◌,
  Result, ok, err, ◌>>=◌, length, ltb, or_else, take, select,
}
use flow_stitch.Base.Int.{ℤ, pos}
use flow_stitch.Base.Dict.{Dict, lookup, insert, erase}
use flow_stitch.Base.Sort.{sort_by}
use flow_stitch.Domain.Instant.{Instant, zero_time, before, after, same_instant}
use flow_stitch.Domain.Flow.Defs.{Flow, FlowKey, key_eq}
use flow_stitch.Domain.Flow.Codec.{Json, encode, decode}
use flow_stitch.Domain.Outbox.{Record, zero_record, ready}
use flow_stitch.Application.Ports.{StoreError, encode_failed, decode_failed}

pub record Store : Type 0 where
  pub flows : Dict FlowKey Flow
  pub records : Dict Text Record
  pub dead : Dict Text Record
  pub dropped : ℕ
  pub max_dlq : ℤ

unfoldable pub new_store : Option ℤ → Store
new_store limit = record {
  flows = [];
  records = [];
  dead = [];
  dropped = 0;
  max_dlq = or_else limit (pos 10000);
}

unfoldable pub clone_flow : Json → Flow → Result StoreError Flow
clone_flow json f = elim (encode json f) [
  | err e ↦ err encode_failed
  | ok raw ↦ elim (decode json raw) [ err e ↦ err decode_failed | ok g ↦ ok g ]
]

unfoldable pub clone_flows : Json → Dict FlowKey Flow → Result StoreError (Dict FlowKey Flow)
clone_flows json [] = ok []
clone_flows json ((k, f) ∷ m) = do
  g ← clone_flow json f
  rest ← clone_flows json m
  ok (insert k g rest)

unfoldable pub clone : Json → Store → Result StoreError Store
clone json s = do flows ← clone_flows json s.flows; ok (record s { flows = flows })

-- `WithTx`: the snapshot is published only when the work succeeds.
unfoldable pub with_tx {ℓ} :
    {A : Type ℓ}
    → Json
    → (Store → Result StoreError (Store × A))
    → Store
    → Store × Result StoreError A
with_tx json work s = elim (clone json s) [
  | err e ↦ (s, err e)
  | ok working ↦ elim (work working) [
    | err e ↦ (s, err e)
    | ok (done, a) ↦ (
      record s {
        flows = done.flows;
        records = done.records;
        dead = done.dead;
        dropped = done.dropped;
      },
      ok a,
    )
  ]
]

unfoldable pub load_flow : Json → FlowKey → Store → Result StoreError (Option Flow)
load_flow json k s = elim (lookup k s.flows) [
  | none ↦ ok none
  | some f ↦ elim (clone_flow json f) [ err e ↦ err e | ok g ↦ ok (some g) ]
]

unfoldable pub save_flow : Json → Flow → Store → Result StoreError Store
save_flow json f s = do g ← clone_flow json f; ok (record s { flows = insert f.key g s.flows })

unfoldable pub delete_flow : FlowKey → Store → Store
delete_flow k s = record s { flows = erase k s.flows }

-- `if limit > 0 && len(xs) > limit { xs = xs[:limit] }`
unfoldable pub limited {ℓ} : {A : Type ℓ} → ℕ → List A → List A
limited limit xs = if ltb 0 limit && ltb limit (length xs) then take limit xs else xs

-- The comparison of `DueFlows` reads each flow's expiry again through its key.
unfoldable pub expiry : Store → FlowKey → Instant
expiry s k = elim (lookup k s.flows) [ none ↦ zero_time | some f ↦ f.expires_at ]

unfoldable pub expires_before : Store → FlowKey → FlowKey → Bool
expires_before s a b = before (expiry s a) (expiry s b)

unfoldable pub due_keys : Instant → Dict FlowKey Flow → List FlowKey
due_keys now [] = []
due_keys now ((k, f) ∷ m) =
    let rest = due_keys now m in if after f.expires_at now then rest else k ∷ rest

unfoldable pub due_flows : Instant → ℕ → Store → List FlowKey
due_flows now limit s = limited limit (sort_by (expires_before s) (due_keys now s.flows))

unfoldable pub enqueue_outbox : Record → Store → Store
enqueue_outbox r s = record s { records = insert r.output_id r s.records }

unfoldable pub pending_less : Record → Record → Bool
pending_less a b =
    if same_instant a.created_at b.created_at
    then text_ltb a.output_id b.output_id
    else before a.created_at b.created_at

unfoldable pub values : Dict Text Record → List Record
values [] = []
values ((k, r) ∷ m) = r ∷ values m

unfoldable pub pending_outbox : Instant → ℕ → Store → List Record
pending_outbox now limit s =
    limited limit (sort_by pending_less (select (λ r. ready r now) (values s.records)))

unfoldable pub matching_ids : (Text → Record → Bool) → Dict Text Record → List Text
matching_ids p [] = []
matching_ids p ((id, r) ∷ m) = let rest = matching_ids p m in if p id r then id ∷ rest else rest

unfoldable pub dead_at : Store → Text → Record
dead_at s id = or_else (lookup id s.dead) zero_record
