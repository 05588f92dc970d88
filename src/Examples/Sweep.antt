-- ===== src/Examples/Sweep.antt =====
-- The timeout sweep.
use flow_stitch.Base.{
  ℕ, ◌+◌, ◌≢◌, ◌<◌, [], ◌∷◌, some, none, Text, codes, suc, ok, err, Result, arith,
}
use flow_stitch.Domain.Flow.Defs.{Flow, open_flow}
use flow_stitch.Domain.Flow.Codec.{Json, encoded}
use flow_stitch.Application.Finalize.{Encoders}
use flow_stitch.Application.Expire.{sweep, SweepError, out_of_rounds}
use flow_stitch.Application.Expire.Ends.{sweep-ends}
use flow_stitch.Adapters.Registry.{Registry, new_registry, match_and_retain}
use flow_stitch.Adapters.Registry.Port.{registry_port}
use flow_stitch.Adapters.MemoryStore.State.{Store}
use flow_stitch.Adapters.MemoryStore.Port.{memory_tx}
use flow_stitch.Adapters.MemoryStore.Due.{memory_due_laws}
use flow_stitch.Examples.Data.{one_event_rule, call_key, request, small_store}

abbrev open_call : Flow
open_call = open_flow call_key one_event_rule request

-- An encoder for the flow that is open.
abbrev encoder : Json
encoder = record { marshal = λ x. some (codes "flow"); unmarshal = λ raw. some (encoded open_call) }

abbrev outputs : Encoders
outputs = record {
  project = λ snapshot configured. ok (record { timestamp = 600; raw = codes "document" });
  digest = λ t. t;
  format_time = λ t. codes "t";
}

abbrev due_store : Store
due_store = record small_store { flows = (call_key, open_call) ∷ [] }

abbrev pinned : Registry
pinned = (match_and_retain request (new_registry (one_event_rule ∷ []))).0

abbrev late : ℕ
late = 100000000000000

abbrev swept : (Store × Registry) × Result SweepError ℕ
swept = sweep (memory_tx encoder) registry_port outputs 2 late pinned 2 due_store

sweep-ends_example :
    (sweep
      (memory_tx encoder)
      registry_port
      outputs
      2
      late
      pinned
      (suc ((memory_due_laws encoder).open_count due_store))
      due_store).1
    ≢ err out_of_rounds
sweep-ends_example =
    sweep-ends (memory_tx encoder) registry_port outputs 2 late pinned (memory_due_laws encoder)
      due_store (omega arith)
