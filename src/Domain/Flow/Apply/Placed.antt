-- ===== src/Domain/Flow/Apply/Placed.antt =====
-- Where the events of a flow are placed, and the steps of `Apply` that keep it.
use flow_stitch.Base.{
  Bool-cases, none, refl, subst, text_beq_iff, nat_eq, text_eq, ◌==◌, false, ◌≤◌, Option-cases, inl,
  inr, ℕ, zero, suc, ◌+◌, ◌<◌, ◌≡◌, false, some, List, [], ◌∷◌, ◌++◌, Text, text_eq, nat_eq, length,
  length-append, length-set, get_elem?, set, arith, All, All-append, All-set, All-get,
}
use flow_stitch.Base.Dict.{length-insert, Dict, lookup, insert, lookup-insert}
use flow_stitch.Domain.Event.{Event}
use flow_stitch.Domain.Rule.{Stitch, Rule}
use flow_stitch.Domain.Flow.Defs.{Flow, Invocation, PlainEntry}
use flow_stitch.Domain.Flow.Apply.{Size, append_plain, ensure_invocation}

-- The events that fill roles.
abbrev pub member_total : List Invocation → ℕ
member_total [] = 0
member_total (i ∷ is) = length i.members + member_total is

member_total-append :
    (xs ys : List Invocation) → member_total (xs ++ ys) ≡ member_total xs + member_total ys
member_total-append [] ys = omega arith
member_total-append (x ∷ xs) ys = omega (arith, member_total-append xs ys)

member_total-set :
    (xs : List Invocation) (i : ℕ) (old v : Invocation)
    → get_elem? xs i ≡ some old
    → member_total (set xs i v) + length old.members ≡ member_total xs + length v.members
member_total-set [] i old v h = cc
member_total-set (x ∷ xs) zero old v h = ground arith
member_total-set (x ∷ xs) (suc i) old v h = omega (arith, member_total-set xs i old v h)

-- The map points to the invocations in the order in which they were opened, each key once.
abbrev pub Enumerates : ℕ → Dict Text ℕ → Type 0
Enumerates i [] = Unit
Enumerates i ((k, j) ∷ m) = (j ≡ i) × (lookup k m ≡ none) × Enumerates (i + 1) m

pub Enumerates-lookup :
    (i : ℕ) (m : Dict Text ℕ) (k : Text) (j : ℕ)
    → Enumerates i m
    → lookup k m ≡ some j
    → (i ≤ j) × (j < i + length m)
unfolding lookup
Enumerates-lookup i [] k j e h = cc
Enumerates-lookup i ((k', j') ∷ m) k j e h = ground (arith, Enumerates-lookup (i + 1) m k j e.2)

pub insert_absent :
    (k : Text) (v : ℕ) (m : Dict Text ℕ) → lookup k m ≡ none → insert k v m ≡ m ++ (k, v) ∷ []
unfolding lookup insert
insert_absent k v [] h = refl
insert_absent k v ((j, w) ∷ m) h = ground (arith, insert_absent k v m)

Enumerates-insert :
    (i : ℕ) (m : Dict Text ℕ) (k : Text)
    → Enumerates i m
    → lookup k m ≡ none
    → Enumerates i (insert k (i + length m) m)
unfolding lookup insert
Enumerates-insert i [] k e h = (omega arith, refl, tt)
Enumerates-insert i ((k', j') ∷ m) k e h = elim (Bool-cases (k' == k)) [
  | inl same ↦ cc (rw same at h)
  | inr other ↦ rw other (
    e.0,
    rw (lookup-insert k k' (i + suc (length m)) m) (rw (differs other) e.1),
    subst (λ n. Enumerates (i + 1) (insert k n m)) (omega arith)
        (Enumerates-insert (i + 1) m k e.2 (rw other at h)),
  )
]
  where
    differs : (k' == k) ≡ false → (k == k') ≡ false
    differs d = ground (arith, text_beq_iff k k', text_beq_iff k' k)

-- What `Apply` relies on and keeps, over the fields of the flow that it is about.
pub record IsPlaced (events : List Event) (invocations : List Invocation) (by_key : Dict Text ℕ)
    (plain : List PlainEntry) (next_order : ℕ) : Type 0 where
  -- the map's pointers are the invocations of the flow
  pub enumerated : Enumerates 0 by_key
  pub indexed : length by_key ≡ length invocations
  -- positions are numbered in the order in which they were opened
  pub numbered : next_order ≡ length invocations + length plain
  pub orders : All (λ i. i.order < next_order) invocations
  pub plain_orders : All (λ p. p.order < next_order) plain
  -- each stored event fills one role or is one plain entry
  pub placed : length events ≡ member_total invocations + length plain

abbrev pub IsValid : Flow → Type 0
IsValid f = IsPlaced f.events f.invocations f.invocation_by_key f.plain f.next_order

orders-suc :
    (xs : List Invocation) (n : ℕ) → All (λ i. i.order < n) xs → All (λ i. i.order < n + 1) xs
orders-suc [] n a = tt
orders-suc (x ∷ xs) n a = (omega arith, orders-suc xs n a.1)

plain_orders-suc :
    (xs : List PlainEntry) (n : ℕ) → All (λ p. p.order < n) xs → All (λ p. p.order < n + 1) xs
plain_orders-suc [] n a = tt
plain_orders-suc (x ∷ xs) n a = (omega arith, plain_orders-suc xs n a.1)

pub append_plain-IsValid :
    (size : Size) (f : Flow) (e : Event) (r : Rule) → IsValid f → IsValid (append_plain size f e r)
unfolding append_plain
append_plain-IsValid size f e r v =
    let entry : PlainEntry = record { event = e; order = f.next_order } in
    record {
      enumerated = v.enumerated;
      indexed = v.indexed;
      numbered = omega (arith, v.numbered, length-append f.plain (entry ∷ []));
      orders = orders-suc f.invocations f.next_order v.orders;
      plain_orders =
          All-append (λ p. p.order < f.next_order + 1) f.plain (entry ∷ [])
            (plain_orders-suc f.plain f.next_order v.plain_orders) (omega arith, tt);
      placed =
          omega
            (arith, v.placed, length-append f.events (e ∷ []), length-append f.plain (entry ∷ []));
    }

-- The identity's invocation exists afterwards, and its pointer is in range.
pub ensure_invocation-IsValid :
    (f : Flow) (s : Stitch) (group : Dict Text Text) (identity : Text) (e : Event)
    → IsValid f
    → IsValid (ensure_invocation f s group identity e).0
      × ((ensure_invocation f s group identity e).1
          < length (ensure_invocation f s group identity e).0.invocations)
unfolding ensure_invocation
ensure_invocation-IsValid f s group identity e v =
    elim (Option-cases (lookup identity f.invocation_by_key)) [
      | inr (i, h) ↦
          rw (h, ensure_invocation)
            (
              v,
              omega (
                arith,
                Enumerates-lookup 0 f.invocation_by_key identity i v.enumerated h,
                v.indexed,
              ),
            )
      | inl h ↦ rw (h, ensure_invocation) (opened h, omega (arith, grown))
    ]
  where
    fresh : Invocation
    fresh = record {
      stitch_id = s.id;
      group = group;
      members = [];
      complete = false;
      duplicate_count = 0;
      first_observed_at = e.observed_at;
      order = f.next_order;
    }

    grown : length (f.invocations ++ fresh ∷ []) ≡ length f.invocations + 1
    grown = length-append f.invocations (fresh ∷ [])

    opened :
        lookup identity f.invocation_by_key ≡ none
        → IsPlaced f.events
            (f.invocations ++ fresh ∷ [])
            (insert identity (length f.invocations) f.invocation_by_key)
            f.plain
            (f.next_order + 1)
    opened absent = record {
      enumerated =
          subst (λ n. Enumerates 0 (insert identity n f.invocation_by_key))
            (omega (arith, v.indexed))
            (Enumerates-insert 0 f.invocation_by_key identity v.enumerated absent);
      indexed = ground (
        arith,
        length-insert identity (length f.invocations) f.invocation_by_key,
        v.indexed,
        grown,
        absent,
      );
      numbered = omega (arith, v.numbered, grown);
      orders =
          All-append (λ i. i.order < f.next_order + 1) f.invocations (fresh ∷ [])
            (orders-suc f.invocations f.next_order v.orders) (omega arith, tt);
      plain_orders = plain_orders-suc f.plain f.next_order v.plain_orders;
      placed = omega (arith, v.placed, member_total-append f.invocations (fresh ∷ []));
    }

-- A write to an invocation that keeps its order, with the events that it stores.
pub set-IsPlaced :
    {es es' : List Event} {invs : List Invocation} {ks : Dict Text ℕ} {ps : List PlainEntry} {n : ℕ}
    (i : ℕ) (old new : Invocation)
    → get_elem? invs i ≡ some old
    → new.order ≡ old.order
    → length es' + length old.members ≡ length es + length new.members
    → IsPlaced es invs ks ps n
    → IsPlaced es' (set invs i new) ks ps n
set-IsPlaced {es} {es'} {invs} {ks} {ps} {n} i old new h o l v = record {
  enumerated = v.enumerated;
  indexed = omega (arith, v.indexed, length-set invs i new);
  numbered = omega (arith, v.numbered, length-set invs i new);
  orders =
      All-set (λ x. x.order < n) invs i new v.orders
        (rw o (All-get (λ x. x.order < n) invs i old v.orders h));
  plain_orders = v.plain_orders;
  placed = omega (arith, v.placed, l, member_total-set invs i old new h);
}
