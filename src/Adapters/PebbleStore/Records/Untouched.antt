-- ===== src/Adapters/PebbleStore/Records/Untouched.antt =====
-- The operations of internal/adapters/state/pebble/store.go on the outbox and the dead letters
-- write no key of a flow or of the index.
use flow_stitch.Base.{
  ℕ, ◌≡◌, ap, subst, true, false, Option, none, some, List, [], ◌∷◌, ◌++◌, map, text_eq, nat_eq,
  if◌then◌else◌, All, length, is_nil, Bool-cases, Result-cases, inl, inr, ok, err, ◌>>=◌, >>=-eq-ok,
  ok-injective, err-ne-ok,
}
use flow_stitch.Base.Int.{ℤ}
use flow_stitch.Base.Sort.{sort_by, sort_by-All}
use flow_stitch.Domain.Instant.{Instant}
use flow_stitch.Domain.Outbox.{
  Record, Disposition, delivered, retryable, permanent, other_disposition, DeliveryResult,
  DeadLetterFilter, DeadLetterMetadata,
}
use flow_stitch.Application.Ports.{DeadLetterChange, no_change, unknown_disposition}
use flow_stitch.Adapters.MemoryStore.DeadLetters.{dead_letter_ref, rejected, retried, replayed}
use flow_stitch.Adapters.PebbleStore.Keys.{outbox_key, dead_key, dead_prefix, prefix_end}
use flow_stitch.Adapters.PebbleStore.Engine.{Engine, EngineLaws}
use flow_stitch.Adapters.PebbleStore.Records.{
  RecordJson, write_record, Retained, retained_less, matching, count_prefix, to_drop,
  enqueue_outbox, trim_dead_letters, read_found, replaced_ref, dead_letter, Resolving,
  resolve_found, resolve_present, resolve_one, resolve_results, finish_resolve, resolve_outbox,
  replay_each, replay_dead_letters,
}
use flow_stitch.Adapters.PebbleStore.Records.Trim.{trim_dead_letters-steps}
use flow_stitch.Adapters.PebbleStore.Records.Frame.{
  IsOther, Framed, outbox_key-IsOther, dead_key-IsOther, Framed-refl, Framed-trans, set-Framed,
  delete-Framed, delete_all-Framed, add_dropped-Framed, scan-IsOther, read_all-keys, matching-keys,
  to_drop-keys,
}

module _ (e : Engine) (laws : EngineLaws e) (json : RecordJson) where
  pub enqueue_outbox-Framed :
      (r : Record) (s s' : e.State) → enqueue_outbox e json r s ≡ ok s' → Framed e laws s s'
  unfolding enqueue_outbox
  enqueue_outbox-Framed r s s' h =
      let (raw, written, stored) =
        >>=-eq-ok (write_record json r) (λ raw. e.set (outbox_key r.output_id) raw s) s' h in
      set-Framed e laws (outbox_key r.output_id) raw s s' (outbox_key-IsOther r.output_id) stored

  pub trim_dead_letters-Framed :
      (max : ℤ) (s s' : e.State) (rs : List Record) (n : ℕ)
      → trim_dead_letters e json max s ≡ ok (s', rs, n)
      → Framed e laws s s'
  trim_dead_letters-Framed max s s' rs n h =
      let (es, found, s1, scanned, read, deleted, added, dropped, kept) =
        trim_dead_letters-steps e json max s s' rs n h in
      let drops = to_drop max (sort_by retained_less found) in
      Framed-trans e laws s s1 s'
        (delete_all-Framed e laws drops s s1
          (to_drop-keys max (sort_by retained_less found) (
            sort_by-All retained_less (λ r. IsOther r.key) found
              (read_all-keys json es found (scan-IsOther e laws s es scanned) read)))
          deleted)
        (add_dropped-Framed e laws (length drops) s1 s' added)

  resolve_found-Framed :
      (res : DeliveryResult) (r : Record) (d : Disposition) (st st' : Resolving e json)
      → resolve_found e json res r d st ≡ ok st'
      → Framed e laws st.store st'.store
  unfolding resolve_found
  resolve_found-Framed res r delivered st st' h =
      let (s, deleted, done) =
        >>=-eq-ok (e.delete (outbox_key res.output_id) st.store) (λ s. ok (record st { store = s }))
          st' h in
      subst (λ t. Framed e laws st.store t.store) (ok-injective (record st { store = s }) st' done)
        (delete-Framed e laws (outbox_key res.output_id) st.store s
          (outbox_key-IsOther res.output_id) deleted)
  resolve_found-Framed res r permanent st st' h =
      let last : Option Record → e.State → Resolving e json = λ previous s2. record {
        store = s2;
        dead_changed = true;
        added = st.added ++ dead_letter_ref (rejected res r) ∷ [];
        removed = st.removed ++ replaced_ref e json previous;
      } in
      let (previous, looked, h1) =
        >>=-eq-ok (dead_letter e json res.output_id st.store)
          (λ previous. write_record json (rejected res r) >>= λ raw.
            e.set (dead_key res.output_id) raw st.store >>= λ s1.
            e.delete (outbox_key res.output_id) s1 >>= λ s2. ok (last previous s2))
          st' h in
      let (raw, written, h2) =
        >>=-eq-ok (write_record json (rejected res r))
          (λ raw. e.set (dead_key res.output_id) raw st.store >>= λ s1.
            e.delete (outbox_key res.output_id) s1 >>= λ s2. ok (last previous s2))
          st' h1 in
      let (s1, stored, h3) =
        >>=-eq-ok (e.set (dead_key res.output_id) raw st.store)
          (λ s1. e.delete (outbox_key res.output_id) s1 >>= λ s2. ok (last previous s2)) st' h2 in
      let (s2, deleted, done) =
        >>=-eq-ok (e.delete (outbox_key res.output_id) s1) (λ s2. ok (last previous s2)) st' h3 in
      subst (λ t. Framed e laws st.store t.store) (ok-injective (last previous s2) st' done)
        (Framed-trans e laws st.store s1 s2
          (set-Framed e laws (dead_key res.output_id) raw st.store s1
            (dead_key-IsOther res.output_id) stored)
          (delete-Framed e laws (outbox_key res.output_id) s1 s2 (outbox_key-IsOther res.output_id)
            deleted))
  resolve_found-Framed res r retryable st st' h =
      let (raw, written, h1) =
        >>=-eq-ok (write_record json (retried res r))
          (λ raw.
            e.set (outbox_key res.output_id) raw st.store >>= λ s. ok (record st { store = s }))
          st' h in
      let (s, stored, done) =
        >>=-eq-ok (e.set (outbox_key res.output_id) raw st.store)
          (λ s. ok (record st { store = s })) st' h1 in
      subst (λ t. Framed e laws st.store t.store) (ok-injective (record st { store = s }) st' done)
        (set-Framed e laws (outbox_key res.output_id) raw st.store s
          (outbox_key-IsOther res.output_id) stored)
  resolve_found-Framed res r (other_disposition d) st st' h =
      absurd (err-ne-ok (unknown_disposition d) st' h)

  resolve_results-Framed :
      (results : List DeliveryResult) (st st' : Resolving e json)
      → resolve_results e json results st ≡ ok st'
      → Framed e laws st.store st'.store
  unfolding resolve_results resolve_one resolve_present
  resolve_results-Framed [] st st' h =
      subst (λ t. Framed e laws st.store t.store) (ok-injective st st' h)
        (Framed-refl e laws st.store)
  resolve_results-Framed (res ∷ rest) st st' h =
      let (st1, one, others) =
        >>=-eq-ok (resolve_one e json res st) (λ t. resolve_results e json rest t) st' h in
      let (found, got, h1) =
        >>=-eq-ok (e.get (outbox_key res.output_id) st.store)
          (λ found. read_found e json found >>= λ current. resolve_present e json res current st)
          st1 one in
      let (current, read, h2) =
        >>=-eq-ok (read_found e json found) (λ current. resolve_present e json res current st) st1
          h1 in
      Framed-trans e laws st.store st1.store st'.store (present current st1 h2)
        (resolve_results-Framed rest st1 st' others)
    where
      present :
          (current : Option Record) (t : Resolving e json)
          → resolve_present e json res current st ≡ ok t
          → Framed e laws st.store t.store
      present none t q =
          subst (λ u. Framed e laws st.store u.store) (ok-injective st t q)
            (Framed-refl e laws st.store)
      present (some r) t q = resolve_found-Framed res r res.disposition st t q

  finish_resolve-Framed :
      (max : ℤ) (st : Resolving e json) (s' : e.State) (change : DeadLetterChange)
      → finish_resolve e json max st ≡ ok (s', change)
      → Framed e laws st.store s'
  unfolding finish_resolve
  finish_resolve-Framed max st s' change h = elim (Bool-cases st.dead_changed) [
    | inr n ↦
        subst (Framed e laws st.store)
          (ap (λ p. p.0)
            (ok-injective (st.store, no_change) (s', change) (rw (n, finish_resolve) at h)))
          (Framed-refl e laws st.store)
    | inl y ↦ elim (Result-cases (trim_dead_letters e json max st.store)) [
      | inr (x, q) ↦ absurd (err-ne-ok x (s', change) (rw (y, q, finish_resolve) at h))
      | inl ((s, dropped, records), q) ↦
          subst (Framed e laws st.store)
            (ap (λ p. p.0)
              (ok-injective (s, trimmed dropped records) (s', change)
                (rw (y, q, finish_resolve) at h)))
            (trim_dead_letters-Framed max st.store s dropped records q)
    ]
  ]
    where
      trimmed : List Record → ℕ → DeadLetterChange
      trimmed dropped records = record {
        records = records;
        dropped = length dropped;
        changed = true;
        added = st.added;
        removed = st.removed ++ map dead_letter_ref dropped;
      }

  pub resolve_outbox-Framed :
      (max : ℤ) (results : List DeliveryResult) (s s' : e.State) (change : DeadLetterChange)
      → resolve_outbox e json max results s ≡ ok (s', change)
      → Framed e laws s s'
  unfolding resolve_outbox
  resolve_outbox-Framed max results s s' change h =
      let start : Resolving e json = record {
        store = s;
        dead_changed = false;
        added = [];
        removed = [];
      } in
      let (st, resolved, finished) =
        >>=-eq-ok (resolve_results e json results start) (λ st. finish_resolve e json max st)
          (s', change) h in
      Framed-trans e laws s st.store s' (resolve_results-Framed results start st resolved)
        (finish_resolve-Framed max st s' change finished)

  replay_each-Framed :
      (now : Instant) (rs : List Retained) (s s' : e.State)
      → All (λ r. IsOther r.key) rs
      → replay_each e json now rs s ≡ ok s'
      → Framed e laws s s'
  unfolding replay_each
  replay_each-Framed now [] s s' a h =
      subst (Framed e laws s) (ok-injective s s' h) (Framed-refl e laws s)
  replay_each-Framed now (r ∷ rs) s s' a h =
      let (raw, written, h1) =
        >>=-eq-ok (write_record json (replayed now r.value))
          (λ raw. e.set (outbox_key r.value.output_id) raw s >>= λ s1.
            e.delete r.key s1 >>= λ s2. replay_each e json now rs s2)
          s' h in
      let (s1, stored, h2) =
        >>=-eq-ok (e.set (outbox_key r.value.output_id) raw s)
          (λ s1. e.delete r.key s1 >>= λ s2. replay_each e json now rs s2) s' h1 in
      let (s2, deleted, rest) =
        >>=-eq-ok (e.delete r.key s1) (λ s2. replay_each e json now rs s2) s' h2 in
      Framed-trans e laws s s1 s'
        (set-Framed e laws (outbox_key r.value.output_id) raw s s1
          (outbox_key-IsOther r.value.output_id) stored)
        (Framed-trans e laws s1 s2 s' (delete-Framed e laws r.key s1 s2 a.0 deleted)
          (replay_each-Framed now rs s2 s' a.1 rest))

  pub replay_dead_letters-Framed :
      (filter : DeadLetterFilter) (now : Instant) (s s' : e.State)
      (letters : List DeadLetterMetadata) (change : DeadLetterChange)
      → replay_dead_letters e json filter now s ≡ ok (s', letters, change)
      → Framed e laws s s'
  unfolding replay_dead_letters
  replay_dead_letters-Framed filter now s s' letters change h =
      elim (Result-cases (e.scan dead_prefix (prefix_end dead_prefix) s)) [
        | inr (x, q) ↦ absurd (err-ne-ok x (s', letters, change) (rw (q, replay_dead_letters) at h))
        | inl (es, scanned) ↦ elim (Result-cases (matching json filter 0 es)) [
          | inr (x, q) ↦
              absurd (err-ne-ok x (s', letters, change) (rw (scanned, q, replay_dead_letters) at h))
          | inl (rs, matched) ↦ elim (Result-cases (replay_each e json now rs s)) [
            | inr (x, q) ↦ absurd (
                err-ne-ok x (s', letters, change)
                  (rw (scanned, matched, q, replay_dead_letters) at h))
            | inl (t, replays) ↦
                elim (Result-cases (if is_nil rs then ok 0 else count_prefix e dead_prefix t)) [
                  | inr (x, q) ↦ absurd (
                      err-ne-ok x (s', letters, change)
                        (rw (scanned, matched, replays, q, replay_dead_letters) at h))
                  | inl (n, counted) ↦
                      subst (Framed e laws s)
                        (ap (λ r. elim r [ ok p ↦ p.0 | err x ↦ t ])
                          (rw (scanned, matched, replays, counted, replay_dead_letters) at h))
                        (replay_each-Framed now rs s t
                          (matching-keys json filter 0 es rs (scan-IsOther e laws s es scanned)
                            matched)
                          replays)
                ]
          ]
        ]
      ]
