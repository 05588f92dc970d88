-- ===== src/Adapters/PebbleStore/Records/Trim.antt =====
-- `trimDeadLetters` of internal/adapters/state/pebble/store.go: the oldest records go first.
use flow_stitch.Base.{
  ℕ, ◌-◌, ◌≡◌, sym, ap, ◌∙◌, List, map, Text, text_eq, nat_eq, length, ok, ◌>>=◌, >>=-eq-ok,
  ok-injective,
}
use flow_stitch.Base.Int.{ℤ}
use flow_stitch.Base.Sort.{sort_by}
use flow_stitch.Domain.Outbox.{Record}
use flow_stitch.Adapters.PebbleStore.Keys.{dead_prefix, prefix_end}
use flow_stitch.Adapters.PebbleStore.Engine.{Engine}
use flow_stitch.Adapters.PebbleStore.Records.{
  RecordJson, Retained, read_all, retained_less, delete_all, add_dropped, to_drop,
  trim_dead_letters,
}

-- What `trimDeadLetters` does, step by step.
pub trim_dead_letters-steps :
    (e : Engine) (json : RecordJson) (max : ℤ) (s s' : e.State) (rs : List Record) (n : ℕ)
    → trim_dead_letters e json max s ≡ ok (s', rs, n)
    → (es : List (Text × Text)) × (found : List Retained) × (s1 : e.State) × (e.scan dead_prefix
          (prefix_end dead_prefix)
          s
        ≡ ok es)
      × (read_all json es ≡ ok found)
      × (delete_all e (to_drop max (sort_by retained_less found)) s ≡ ok s1)
      × (add_dropped e (length (to_drop max (sort_by retained_less found))) s1 ≡ ok s')
      × (rs ≡ map (λ r. r.value) (to_drop max (sort_by retained_less found)))
      × (n ≡ length found - length (to_drop max (sort_by retained_less found)))
unfolding trim_dead_letters
trim_dead_letters-steps e json max s s' rs n h =
    let result : List Retained → e.State → e.State × List Record × ℕ = λ found s2.
      let dropped = to_drop max (sort_by retained_less found) in
      (s2, map (λ (r : Retained). r.value) dropped, length found - length dropped) in
    let (es, scanned, h1) =
      >>=-eq-ok (e.scan dead_prefix (prefix_end dead_prefix) s)
        (λ es. read_all json es >>= λ found.
          delete_all e (to_drop max (sort_by retained_less found)) s >>= λ s1.
          add_dropped e (length (to_drop max (sort_by retained_less found))) s1 >>= λ s2.
          ok (result found s2))
        (s', rs, n) h in
    let (found, read, h2) =
      >>=-eq-ok (read_all json es)
        (λ found. delete_all e (to_drop max (sort_by retained_less found)) s >>= λ s1.
          add_dropped e (length (to_drop max (sort_by retained_less found))) s1 >>= λ s2.
          ok (result found s2))
        (s', rs, n) h1 in
    let dropped = to_drop max (sort_by retained_less found) in
    let (s1, deleted, h3) =
      >>=-eq-ok (delete_all e dropped s)
        (λ s1. add_dropped e (length dropped) s1 >>= λ s2. ok (result found s2)) (s', rs, n) h2 in
    let (s2, added, h4) =
      >>=-eq-ok (add_dropped e (length dropped) s1) (λ s2. ok (result found s2)) (s', rs, n) h3 in
    let same = ok-injective (result found s2) (s', rs, n) h4 in
    (
      es,
      found,
      s1,
      scanned,
      read,
      deleted,
      added ∙ ap (λ p. ok (p.0)) same,
      ap (λ p. p.1) (sym same),
      ap (λ p. p.2) (sym same),
    )
