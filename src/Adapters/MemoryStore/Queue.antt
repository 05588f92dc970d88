-- ===== src/Adapters/MemoryStore/Queue.antt =====
-- What the selections of internal/adapters/state/memory/store.go return: a prefix of the sorted
-- candidates, cut at the limit.
use mathlib.Core.List.{Perm}
use mathlib.Core.List.{append-nil}
use flow_stitch.Base.{
  ℕ, ◌≡◌, sym, subst, false, ◌&&◌, List, [], ◌++◌, length, length-take, drop, take-drop, ltb, arith,
  Bool-cases, inl, inr,
}
use flow_stitch.Base.Sort.{sort_by, sort_by-perm, sort_by-IsSorted, IsSorted, IsWeakOrder}
use flow_stitch.Domain.Instant.{Instant}
use flow_stitch.Domain.Flow.Defs.{FlowKey}
use flow_stitch.Adapters.MemoryStore.State.{Store, limited, expires_before, due_keys, due_flows}

limited-prefix {ℓ} :
    {A : Type ℓ} (n : ℕ) (xs : List A)
    → (rest : List A) × (limited n xs ++ rest ≡ xs)
      × ((ltb 0 n && ltb n (length (limited n xs))) ≡ false)
unfolding limited
limited-prefix n xs = elim (Bool-cases (ltb 0 n && ltb n (length xs))) [
  | inl e ↦ rw (e, limited) (drop n xs, take-drop n xs, ground (arith, length-take n xs))
  | inr e ↦ rw (e, limited) ([], append-nil xs, e)
]

expires_before-IsWeakOrder : (s : Store) → IsWeakOrder (expires_before s)
unfolding expires_before
expires_before-IsWeakOrder s = record {
  asym = λ a b h. ground arith;
  neg_trans = λ a b c h k. ground arith;
}

-- `DueFlows` returns the front of the keys of all flows that have expired, the earliest expiry
-- first, and no more than a positive limit.
pub due_flows-front :
    (now : Instant) (limit : ℕ) (s : Store)
    → (rest : List FlowKey) × IsSorted (expires_before s) (due_flows now limit s ++ rest)
      × Perm (due_flows now limit s ++ rest) (due_keys now s.flows)
      × ((ltb 0 limit && ltb limit (length (due_flows now limit s))) ≡ false)
unfolding due_flows
due_flows-front now limit s =
    let keys = due_keys now s.flows in
    let (rest, whole, bound) = limited-prefix limit (sort_by (expires_before s) keys) in
    (
      rest,
      subst (IsSorted (expires_before s)) (sym whole)
          (sort_by-IsSorted (expires_before s) (expires_before-IsWeakOrder s) keys),
      subst (λ xs. Perm xs keys) (sym whole) (sort_by-perm (expires_before s) keys),
      bound,
    )
