-- ===== src/Adapters/Passthrough/Bounded.antt =====
-- internal/adapters/passthrough/buffer.go: the buffer keeps to its size and hands out each accepted
-- event in the order of arrival until a verdict removes it.
use flow_stitch.Base.{
  ℕ, ◌+◌, ◌^◌, ◌≤◌, ◌<◌, ◌≡◌, refl, sym, subst, Bool, true, false, Option, List, [], ◌∷◌, ◌++◌,
  Text, nat_eq, if◌then◌else◌, leb, ok, err, ok-injective, err-ne-ok, length, length-append, arith,
  Bool-cases, Result-cases, inl, inr,
}
use flow_stitch.Base.Dict.{Dict, lookup}
use flow_stitch.Domain.Instant.{Instant}
use flow_stitch.Domain.Event.{Event, Fields}
use flow_stitch.Domain.IndexName.{resolve_pattern}
use flow_stitch.Domain.Outbox.{Disposition}
use flow_stitch.Application.Ports.{
  PassthroughRecord, PassthroughResult, passthrough_disabled, passthrough_full,
}
use flow_stitch.Adapters.Passthrough.{
  Buffer, next_sequence, raw_document, buffered, accept, accept_enabled, event_time, is_kept, kept,
  verdicts, resolve_buffer,
}

module _ (marshal : Fields → Option Text) (parse_time : Text → Option Instant) where
  accept-if :
      (now : Instant) (e : Event) (b b' : Buffer) (enabled : Bool)
      → b.enabled ≡ enabled
      → accept marshal parse_time now e b ≡ ok b'
      → (if enabled then accept_enabled marshal parse_time now e b else err passthrough_disabled)
        ≡ ok b'
  unfolding accept
  accept-if now e b b' enabled h k =
      subst
        (λ c.
          (if c then accept_enabled marshal parse_time now e b else err passthrough_disabled)
          ≡ ok b')
        h k

  abbrev pub Appended : Instant → Event → Buffer → Buffer → Type 0
  Appended now e b b' =
      (r : PassthroughRecord) × (b'.records ≡ b.records ++ r ∷ [])
      × (raw_document marshal parse_time e ≡ ok r.document)
      × (r.sequence ≡ next_sequence b.next)
      × (b'.next ≡ r.sequence)
      × (length b'.records ≤ b.opts.buffer_size)

  buffered-Appended :
      (now : Instant) (e : Event) (document : Text) (b : Buffer)
      → raw_document marshal parse_time e ≡ ok document
      → length b.records < b.opts.buffer_size
      → Appended now e b (buffered marshal parse_time now e document b)
  unfolding buffered
  buffered-Appended now e document b r l =
      let new = last_record now e document b in
      (new, refl, r, refl, refl, omega (arith, length-append b.records (new ∷ [])))
    where
      last_record : Instant → Event → Text → Buffer → PassthroughRecord
      last_record now e document b =
          let at = event_time marshal parse_time b.opts now e in
          record {
            sequence = next_sequence b.next;
            index = resolve_pattern b.opts.index at at;
            document = document;
          }

  accept_enabled-Appended :
      (now : Instant) (e : Event) (b b' : Buffer)
      → accept_enabled marshal parse_time now e b ≡ ok b'
      → Appended now e b b'
  unfolding accept_enabled
  accept_enabled-Appended now e b b' h = elim (Result-cases (raw_document marshal parse_time e)) [
    | inr (x, r) ↦ absurd (err-ne-ok x b' (rw (r, accept_enabled) at h))
    | inl (document, r) ↦ elim (Bool-cases (leb b.opts.buffer_size (length b.records))) [
      | inl f ↦ absurd (err-ne-ok passthrough_full b' (rw (r, f, accept_enabled) at h))
      | inr f ↦
          subst (Appended now e b)
            (ok-injective (buffered marshal parse_time now e document b) b'
              (rw (r, f, accept_enabled) at h))
            (buffered-Appended now e document b r (ground arith))
    ]
  ]

  pub accept-Appended :
      (now : Instant) (e : Event) (b b' : Buffer)
      → accept marshal parse_time now e b ≡ ok b'
      → Appended now e b b'
  accept-Appended now e b b' h = elim (Bool-cases b.enabled) [
    | inl d ↦ accept_enabled-Appended now e b b' (accept-if now e b b' true d h)
    | inr d ↦ absurd (err-ne-ok passthrough_disabled b' (accept-if now e b b' false d h))
  ]

-- Sequence numbers rise from record to record.
abbrev pub Rises : ℕ → List PassthroughRecord → ℕ → Type 0
Rises low [] high = low ≤ high
Rises low (r ∷ rs) high = (low < r.sequence) × Rises r.sequence rs high

-- The records that the verdicts keep, in their order, and how many there are.
kept-Rises :
    (m : Dict ℕ Disposition) (low high : ℕ) (rs : List PassthroughRecord)
    → Rises low rs high
    → Rises low (kept m rs) high
unfolding kept
kept-Rises m low high [] h = h
kept-Rises m low high (r ∷ rs) h = elim (Bool-cases (is_kept (lookup r.sequence m))) [
  | inl e ↦ rw (e, kept) (h.0, kept-Rises m r.sequence high rs h.1)
  | inr e ↦ rw (e, kept) (kept-Rises m low high rs (lower rs h.0 h.1))
]
  where
    lower : {a b : ℕ} (rs : List PassthroughRecord) → a < b → Rises b rs high → Rises a rs high
    lower [] l h = omega arith
    lower (r ∷ rs) l h = (omega arith, h.1)

Rises-append :
    (low high : ℕ) (rs : List PassthroughRecord) (r : PassthroughRecord)
    → Rises low rs high
    → high < r.sequence
    → Rises low (rs ++ r ∷ []) r.sequence
Rises-append low high [] r h l = (omega arith, omega arith)
Rises-append low high (x ∷ rs) r h l = (h.0, Rises-append x.sequence high rs r h.1 l)

-- Each waiting record has a sequence number of its own: the numbers rise from the oldest record to
-- the newest and none is above the counter, after an event is accepted (while the counter of
-- 64 bits does not wrap) and after any verdicts.
pub sequences_rise :
    (marshal : Fields → Option Text) (parse_time : Text → Option Instant) (now : Instant)
    (e : Event) (results : List PassthroughResult) (b b' : Buffer)
    → Rises 0 b.records b.next
    → b.next + 1 < 2 ^ 64
    → accept marshal parse_time now e b ≡ ok b'
    → Rises 0 b'.records b'.next
      × Rises 0 (resolve_buffer results b').records (resolve_buffer results b').next
unfolding resolve_buffer
sequences_rise marshal parse_time now e results b b' h l a =
    let (r, records, doc, seq, next, bound) = accept-Appended marshal parse_time now e b b' a in
    let up : b.next < r.sequence = omega (arith, seq) in
    let rises : Rises 0 b'.records b'.next =
      subst (λ n. Rises 0 b'.records n) (sym next)
        (subst (λ xs. Rises 0 xs r.sequence) (sym records)
          (Rises-append 0 b.next b.records r h up)) in
    (rises, kept-Rises (verdicts results []) 0 b'.next b'.records rises)
