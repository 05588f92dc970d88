-- ===== src/Adapters/PebbleStore/Records/Frame.antt =====
-- The key spaces of internal/adapters/state/pebble/store.go are apart: the operations on the outbox
-- and the dead letters leave the open flows and their index alone.
use flow_stitch.Base.{
  ℕ, zero, suc, ◌+◌, ◌-◌, ◌%◌, ◌^◌, ◌≡◌, refl, sym, subst, ◌∙◌, true, false, ◌&&◌, Option, none,
  some, List, [], ◌∷◌, Text, text_eq, text_beq, text_ltb, nat_eq, ◌==◌, arith, All, ltb, length,
  take, Bool-cases, Result-cases, inl, inr, ok, ◌>>=◌, >>=-eq-ok, ok-injective, err-ne-ok,
}
use flow_stitch.Base.Int.{ℤ, pos_part}
use flow_stitch.Base.Dict.{lookup, entry-lookup}
use flow_stitch.Domain.Instant.{Instant}
use flow_stitch.Domain.Flow.Defs.{FlowKey}
use flow_stitch.Domain.Outbox.{DeadLetterFilter, matches}
use flow_stitch.Adapters.MemoryStore.DeadLetters.{over_limit}
use flow_stitch.Adapters.PebbleStore.Keys.{
  flow_key, expiry_key, expiry_time_prefix, outbox_key, dead_key, outbox_prefix, dead_prefix,
  dropped_key, prefix_end, big_endian,
}
use flow_stitch.Adapters.PebbleStore.Engine.{Engine, EngineLaws, is_in_range}
use flow_stitch.Adapters.PebbleStore.Records.{
  RecordJson, read_record, Retained, read_all, matching, delete_all, dropped_total, add_dropped,
  to_drop,
}

-- The key of no flow and of no index entry.
pub record IsOther (x : Text) : Type 0 where
  pub no_flow : (k : FlowKey) → text_beq x (flow_key k) ≡ false
  pub no_expiry : (at : Instant) (k : FlowKey) → text_beq x (expiry_key at k) ≡ false

pub outbox_key-IsOther : (id : Text) → IsOther (outbox_key id)
unfolding outbox_key outbox_prefix flow_key expiry_key expiry_time_prefix text_beq
outbox_key-IsOther id = record { no_flow = λ k. refl; no_expiry = λ at k. refl }

pub dead_key-IsOther : (id : Text) → IsOther (dead_key id)
unfolding dead_key dead_prefix flow_key expiry_key expiry_time_prefix text_beq
dead_key-IsOther id = record { no_flow = λ k. refl; no_expiry = λ at k. refl }

pub dropped_key-IsOther : IsOther dropped_key
unfolding dropped_key flow_key expiry_key expiry_time_prefix text_beq
dropped_key-IsOther = record { no_flow = λ k. refl; no_expiry = λ at k. refl }

scanned-IsOther : (x : Text) → is_in_range dead_prefix (prefix_end dead_prefix) x ≡ true → IsOther x
unfolding is_in_range dead_prefix prefix_end flow_key expiry_key expiry_time_prefix text_beq
    text_ltb
scanned-IsOther [] h = record { no_flow = λ k. refl; no_expiry = λ at k. refl }
scanned-IsOther (c ∷ cs) h = record {
  no_flow = λ k. ground arith;
  no_expiry = λ at k. ground arith;
}

module _ (e : Engine) (laws : EngineLaws e) where
  pub record Framed (s s' : e.State) : Type 0 where
    pub flows : (k : FlowKey) → laws.entry (flow_key k) s' ≡ laws.entry (flow_key k) s
    pub expiries :
        (at : Instant) (k : FlowKey)
        → laws.entry (expiry_key at k) s' ≡ laws.entry (expiry_key at k) s

  pub Framed-refl : (s : e.State) → Framed s s
  Framed-refl s = record { flows = λ k. refl; expiries = λ at k. refl }

  pub Framed-trans : (s t u : e.State) → Framed s t → Framed t u → Framed s u
  Framed-trans s t u a b = record {
    flows = λ k. b.flows k ∙ a.flows k;
    expiries = λ at k. b.expiries at k ∙ a.expiries at k;
  }

  pub set-Framed : (x v : Text) (s s' : e.State) → IsOther x → e.set x v s ≡ ok s' → Framed s s'
  set-Framed x v s s' o h = record {
    flows = λ k. laws.set-entry x v s s' (flow_key k) h ∙ (rw (o.no_flow k) refl);
    expiries = λ at k. laws.set-entry x v s s' (expiry_key at k) h ∙ (rw (o.no_expiry at k) refl);
  }

  pub delete-Framed : (x : Text) (s s' : e.State) → IsOther x → e.delete x s ≡ ok s' → Framed s s'
  delete-Framed x s s' o h = record {
    flows = λ k. laws.delete-entry x s s' (flow_key k) h ∙ (rw (o.no_flow k) refl);
    expiries = λ at k. laws.delete-entry x s s' (expiry_key at k) h ∙ (rw (o.no_expiry at k) refl);
  }

  pub delete_all-Framed :
      (rs : List Retained) (s s' : e.State)
      → All (λ r. IsOther r.key) rs
      → delete_all e rs s ≡ ok s'
      → Framed s s'
  unfolding delete_all
  delete_all-Framed [] s s' a h = subst (Framed s) (ok-injective s s' h) (Framed-refl s)
  delete_all-Framed (r ∷ rs) s s' a h =
      let (t, deleted, rest) = >>=-eq-ok (e.delete r.key s) (λ t. delete_all e rs t) s' h in
      Framed-trans s t s' (delete-Framed r.key s t a.0 deleted) (delete_all-Framed rs t s' a.1 rest)

  pub add_dropped-Framed : (n : ℕ) (s s' : e.State) → add_dropped e n s ≡ ok s' → Framed s s'
  unfolding add_dropped
  add_dropped-Framed n s s' h = elim (Bool-cases (n == 0)) [
    | inl z ↦ subst (Framed s) (ok-injective s s' (rw (z, add_dropped) at h)) (Framed-refl s)
    | inr z ↦
        let (total, counted, written) =
          >>=-eq-ok (dropped_total e s)
            (λ total. e.set dropped_key (big_endian 8 ((total + n) % 2 ^ 64)) s) s'
            (rw (z, add_dropped) at h) in
        set-Framed dropped_key (big_endian 8 ((total + n) % 2 ^ 64)) s s' dropped_key-IsOther
          written
  ]

  -- The keys of a scan of the dead letters.
  pub scan-IsOther :
      (s : e.State) (es : List (Text × Text))
      → e.scan dead_prefix (prefix_end dead_prefix) s ≡ ok es
      → All (λ kv. IsOther kv.0) es
  scan-IsOther s es h =
      each es (entry-lookup es (laws.scan-IsMap dead_prefix (prefix_end dead_prefix) s es h))
    where
      within :
          (k v : Text)
          → lookup k es ≡ some v
          → is_in_range dead_prefix (prefix_end dead_prefix) k ≡ true
      within k v q = elim (Bool-cases (is_in_range dead_prefix (prefix_end dead_prefix) k)) [
        | inl y ↦ y
        | inr n ↦ absurd (
            none-ne (
              sym (laws.scan-entry dead_prefix (prefix_end dead_prefix) s es k h ∙ (rw (n) refl))
              ∙ q))
      ]
        where
          none-ne : ◌≡◌ {A = Option Text} none (some v) → ⊥
          none-ne x = cc

      each :
          (r : List (Text × Text))
          → All (λ kv. lookup kv.0 es ≡ some kv.1) r
          → All (λ kv. IsOther kv.0) r
      each [] a = tt
      each ((k, v) ∷ r) a = (scanned-IsOther k (within k v a.0), each r a.1)

module _ (json : RecordJson) where
  pub read_all-keys :
      (es : List (Text × Text)) (rs : List Retained)
      → All (λ kv. IsOther kv.0) es
      → read_all json es ≡ ok rs
      → All (λ r. IsOther r.key) rs
  unfolding read_all
  read_all-keys [] rs a h = subst (All (λ r. IsOther r.key)) (ok-injective [] rs h) tt
  read_all-keys ((key, raw) ∷ es) rs a h =
      let (r, read, h1) =
        >>=-eq-ok (read_record json raw)
          (λ r. read_all json es >>= λ rest. ok (record { key = key; value = r } ∷ rest)) rs h in
      let (rest, others, h2) =
        >>=-eq-ok (read_all json es) (λ rest. ok (record { key = key; value = r } ∷ rest)) rs h1 in
      subst (All (λ r. IsOther r.key)) (ok-injective (record { key = key; value = r } ∷ rest) rs h2)
        (a.0, read_all-keys es rest a.1 others)

  pub matching-keys :
      (filter : DeadLetterFilter) (count : ℕ) (es : List (Text × Text)) (rs : List Retained)
      → All (λ kv. IsOther kv.0) es
      → matching json filter count es ≡ ok rs
      → All (λ r. IsOther r.key) rs
  unfolding matching
  matching-keys filter count [] rs a h = subst (All (λ r. IsOther r.key)) (ok-injective [] rs h) tt
  matching-keys filter count ((key, raw) ∷ es) rs a h = elim (Result-cases (read_record json raw)) [
    | inr (x, q) ↦ absurd (err-ne-ok x rs (rw (q, matching) at h))
    | inl (r, q) ↦ elim (Bool-cases (matches filter r)) [
      | inr n ↦ matching-keys filter count es rs a.1 (rw (q, n, matching, ◌>>=◌) at h)
      | inl y ↦ elim (Bool-cases (ltb 0 filter.limit && count + 1 == filter.limit)) [
        | inl l ↦
            subst (All (λ r. IsOther r.key))
              (ok-injective (record { key = key; value = r } ∷ []) rs
                (rw (q, y, l, matching, ◌>>=◌) at h))
              (a.0, tt)
        | inr l ↦
            let (rest, others, last) =
              >>=-eq-ok (matching json filter (count + 1) es)
                (λ rest. ok (record { key = key; value = r } ∷ rest)) rs
                (rw (q, y, l, matching, ◌>>=◌) at h) in
            subst (All (λ r. IsOther r.key))
              (ok-injective (record { key = key; value = r } ∷ rest) rs last)
              (a.0, matching-keys filter (count + 1) es rest a.1 others)
      ]
    ]
  ]

take-All {ℓ κ} : {A : Type ℓ} (P : A → Type κ) (n : ℕ) (xs : List A) → All P xs → All P (take n xs)
take-All P zero xs a = tt
take-All P (suc n) [] a = tt
take-All P (suc n) (x ∷ xs) a = (a.0, take-All P n xs a.1)

pub to_drop-keys :
    (max : ℤ) (rs : List Retained)
    → All (λ r. IsOther r.key) rs
    → All (λ r. IsOther r.key) (to_drop max rs)
unfolding to_drop
to_drop-keys max rs a = elim (Bool-cases (over_limit max (length rs))) [
  | inl y ↦ rw (y, to_drop) (take-All (λ r. IsOther r.key) (length rs - pos_part max) rs a)
  | inr n ↦ rw (n, to_drop) tt
]
