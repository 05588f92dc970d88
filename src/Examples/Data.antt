-- ===== src/Examples/Data.antt =====
-- Concrete rules, events, flows and records for the examples.
use flow_stitch.Base.{ℕ, true, false, none, [], ◌∷◌, Text, codes}
use flow_stitch.Base.Int.{pos, negsuc}
use flow_stitch.Domain.Event.{Event, field, empty, string}
use flow_stitch.Domain.DocPath.{DocPath, key_segment}
use flow_stitch.Domain.Rule.{Rule, Stitch, close_all_invocations_complete, timestamp_first_event}
use flow_stitch.Domain.Flow.Defs.{FlowKey}
use flow_stitch.Domain.Outbox.{Record, zero_record, Disposition, DeliveryResult, DeadLetterFilter}
use flow_stitch.Adapters.MemoryStore.State.{Store}

abbrev pub id_path : DocPath
id_path = record { expr = codes "$.id"; segments = key_segment (codes "id") ∷ [] }

abbrev pub type_path : DocPath
type_path = record { expr = codes "$.type"; segments = key_segment (codes "type") ∷ [] }

abbrev pub items_path : DocPath
items_path = record {
  expr = codes "$.items[0]";
  segments = key_segment (codes "items") ∷ record { key = []; index = pos 0; is_key = false } ∷ [];
}

abbrev pub call_stitch : Stitch
call_stitch = record {
  id = codes "call";
  group_by = id_path ∷ [];
  roles =
      record { name = codes "request"; types = codes "req" ∷ [] }
      ∷ record { name = codes "response"; types = codes "res" ∷ [] }
      ∷ [];
  requires = [];
}

-- One stitched call per flow; the flow closes on its first event, by its limit.
abbrev pub one_event_rule : Rule
one_event_rule = record {
  id = codes "calls";
  version = codes "v1";
  enabled = true;
  extract = record { event_type = type_path; timestamp = type_path };
  key = id_path;
  stitch = call_stitch ∷ [];
  promote = [];
  lifecycle = record {
    timeout = pos 1000;
    close_when = close_all_invocations_complete;
    settle = pos 0;
    terminal_events = [];
  };
  limits = record { max_events = 1; max_event_bytes = 0; max_flow_bytes = 0 };
  output = record { index = codes "calls"; timestamp_source = timestamp_first_event };
}

abbrev pub request : Event
request = record {
  doc = field (codes "id") (string (codes "7")) (field (codes "type") (string (codes "req")) empty);
  observed_at = 500;
  raw = codes "raw";
}

abbrev pub call_key : FlowKey
call_key = record { rule_id = codes "calls"; correlation_key = codes "7" }

abbrev pub waiting : Text → ℕ → Record
waiting id at = record zero_record { output_id = id; index = codes "calls"; created_at = at }

-- Two records wait, one is dead, and one dead letter is the limit.
abbrev pub small_store : Store
small_store = record {
  flows = [];
  records = (codes "a", waiting (codes "a") 10) ∷ (codes "b", waiting (codes "b") 5) ∷ [];
  dead = (codes "c", waiting (codes "c") 1) ∷ [];
  dropped = 0;
  max_dlq = pos 1;
}

abbrev pub roomy_store : Store
roomy_store = record small_store { max_dlq = negsuc 0 }

abbrev pub verdict : Text → Disposition → DeliveryResult
verdict id d = record {
  output_id = id;
  disposition = d;
  error = none;
  rejection_type = codes "mapping";
  dead_lettered_at = 20;
  attempts = 1;
  next_attempt_at = 0;
}

abbrev pub any_letter : DeadLetterFilter
any_letter = record { output_id = []; reason_type = []; index = []; older_than = 0; limit = 0 }
