-- ===== src/Adapters/MemoryStore/Due.antt =====
-- internal/adapters/state/memory/store.go as the store of the timeout sweep: how many flows are open.
use flow_stitch.Base.{
  ℕ, ◌≤◌, subst, List, [], ◌∷◌, length, length-take, ltb, ◌&&◌, Bool-cases, inl, inr, arith,
  ok-injective,
}
use flow_stitch.Base.Dict.{Dict, length-erase-le}
use flow_stitch.Base.Sort.{sort_by, length-sort_by}
use flow_stitch.Domain.Instant.{Instant, after}
use flow_stitch.Domain.Flow.Defs.{Flow, FlowKey, key_eq}
use flow_stitch.Domain.Flow.Codec.{Json}
use flow_stitch.Application.Ports.{DueLaws}
use flow_stitch.Adapters.MemoryStore.State.{
  Store, limited, due_keys, due_flows, expires_before, delete_flow, enqueue_outbox,
}
use flow_stitch.Adapters.MemoryStore.Port.{memory_tx}

length-limited {ℓ} : {A : Type ℓ} (n : ℕ) (xs : List A) → length (limited n xs) ≤ length xs
unfolding limited
length-limited n xs = elim (Bool-cases (ltb 0 n && ltb n (length xs))) [
  | inl e ↦ rw (e, limited) (ground (arith, length-take n xs))
  | inr e ↦ rw (e, limited) (omega arith)
]

length-due_keys : (now : Instant) (m : Dict FlowKey Flow) → length (due_keys now m) ≤ length m
unfolding due_keys
length-due_keys now [] = omega arith
length-due_keys now ((k, f) ∷ m) = elim (Bool-cases (after f.expires_at now)) [
  | inl e ↦ rw (e, due_keys) (omega (arith, length-due_keys now m))
  | inr e ↦ rw (e, due_keys) (omega (arith, length-due_keys now m))
]

pub length-due_flows :
    (now : Instant) (limit : ℕ) (s : Store) → length (due_flows now limit s) ≤ length s.flows
unfolding due_flows
length-due_flows now limit s =
    let keys = due_keys now s.flows in
    omega (
      arith,
      length-limited limit (sort_by (expires_before s) keys),
      length-sort_by (expires_before s) keys,
      length-due_keys now s.flows,
    )

pub length-delete_flow : (k : FlowKey) (s : Store) → length (delete_flow k s).flows ≤ length s.flows
unfolding delete_flow
length-delete_flow k s = length-erase-le k s.flows

abbrev pub memory_due_laws : (json : Json) → DueLaws (memory_tx json)
unfolding enqueue_outbox
memory_due_laws json = record {
  open_count = λ s. length s.flows;
  due-bound = λ now limit s keys h.
      subst (λ ks. length ks ≤ length s.flows) (ok-injective (due_flows now limit s) keys h)
        (length-due_flows now limit s);
  enqueue-open_count = λ r s s' h.
      subst (λ t. length t.flows ≤ length s.flows) (ok-injective (enqueue_outbox r s) s' h)
        (omega arith);
  delete-open_count = λ k s s' h.
      subst (λ t. length t.flows ≤ length s.flows) (ok-injective (delete_flow k s) s' h)
        (length-delete_flow k s);
}
