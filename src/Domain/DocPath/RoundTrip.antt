-- ===== src/Domain/DocPath/RoundTrip.antt =====
-- A compiled path that is stored by its canonical spelling (`MarshalJSON`) and compiled again
-- (`UnmarshalJSON`) selects the same value.
use mathlib.Core.List.{append_assoc, append-nil}
use flow_stitch.Base.{
  ℕ, zero, suc, ◌+◌, ◌≤◌, ◌<◌, ◌≡◌, ◌≢◌, refl, ap, ◌∙◌, true, false, List, [], ◌∷◌, ◌++◌, arith,
  Text, nat_eq, Result, ok, length, length-append, All, Bool-cases, inl, inr,
}
use flow_stitch.Base.Int.{ℤ}
use flow_stitch.Base.Decimal.{itoa}
use flow_stitch.Domain.DocPath.{
  Segment, key_segment, index_segment, DocPath, CompileError, bracket, brackets, after_brackets,
  segments_from, compile,
}
use flow_stitch.Domain.DocPath.Canonical.{
  is_bare_canonical_key, escape_key, print_segment, print_segments, canonical,
}
use flow_stitch.Domain.DocPath.Parts.{at_bare_end, span_bare-append, bracket-index, bracket-key}
use flow_stitch.Domain.DocPath.Sound.{
  IsSegment, a_key, an_index, IsBareKey, IsCompiled, compile-IsCompiled,
}

-- How a segment is printed: behind a dot, or in brackets from which it is read back.
data Printed (s : Segment) : Type 0 where
  dotted : (k : Text) → s ≡ key_segment k → IsBareKey k → print_segment s ≡ b'.' ∷ k → Printed s
  bracketed :
      (t : Text)
      → print_segment s ≡ b'[' ∷ t
      → ((rest : Text) → bracket (t ++ rest) ≡ ok (s, rest))
      → Printed s

bare_key : (k : Text) → is_bare_canonical_key k ≡ true → IsBareKey k
unfolding is_bare_canonical_key
bare_key [] h = cc
bare_key (c ∷ k) h = ((λ e. cc), ground arith)

print_bare : (k : Text) → is_bare_canonical_key k ≡ true → print_segment (key_segment k) ≡ b'.' ∷ k
unfolding print_segment
print_bare k h = rw h

print_quoted :
    (k : Text)
    → is_bare_canonical_key k ≡ false
    → print_segment (key_segment k) ≡ b'[' ∷ b'"' ∷ escape_key k ++ b'"' ∷ b']' ∷ []
unfolding print_segment
print_quoted k h = rw h

print_index : (n : ℤ) → print_segment (index_segment n) ≡ b'[' ∷ itoa n ++ b']' ∷ []
unfolding print_segment
print_index n = refl

segment-Printed : (s : Segment) → IsSegment s → Printed s
segment-Printed s (a_key k e) = elim (Bool-cases (is_bare_canonical_key k)) [
  | inl b ↦ dotted k e (bare_key k b) (rw e (print_bare k b))
  | inr b ↦
      bracketed (b'"' ∷ escape_key k ++ b'"' ∷ b']' ∷ []) (rw e (print_quoted k b))
        (λ rest. rw (e, append_assoc (escape_key k) (b'"' ∷ b']' ∷ []) rest) (bracket-key k rest))
]
segment-Printed s (an_index n fits e) =
    bracketed (itoa n ++ b']' ∷ []) (rw e (print_index n))
      (λ rest. rw (e, append_assoc (itoa n) (b']' ∷ []) rest) (bracket-index n rest fits))

All-Printed : (ss : List Segment) → All IsSegment ss → All Printed ss
All-Printed [] h = tt
All-Printed (s ∷ ss) h = (segment-Printed s h.0, All-Printed ss h.1)

print-at_bare_end : (ss : List Segment) → All Printed ss → at_bare_end (print_segments ss) ≡ true
unfolding print_segments
print-at_bare_end [] h = refl
print-at_bare_end (s ∷ ss) h = first h.0
  where
    first : Printed s → at_bare_end (print_segment s ++ print_segments ss) ≡ true
    first (dotted k e b p) = rw p
    first (bracketed t p r) = rw p

length-print_segments :
    (ss : List Segment) → All Printed ss → length ss ≤ length (print_segments ss)
unfolding print_segments
length-print_segments [] h = omega arith
length-print_segments (s ∷ ss) h = omega (
  arith,
  length-append (print_segment s) (print_segments ss),
  positive h.0,
  length-print_segments ss h.1,
)
  where
    positive : Printed s → 1 ≤ length (print_segment s)
    positive (dotted k e b p) = rw p (omega arith)
    positive (bracketed t p r) = rw p (omega arith)

-- A dotted segment, or nothing, stands next.
data AtDot : List Segment → Type 0 where
  at_end : AtDot []
  at_key :
      (k : Text) {s : Segment} (ss : List Segment)
      → s ≡ key_segment k
      → IsBareKey k
      → print_segment s ≡ b'.' ∷ k
      → All Printed ss
      → AtDot (s ∷ ss)

-- The bracket loop reads the bracketed segments in front.
abbrev BracketsRead : ℕ → List Segment → List Segment → Type 0
BracketsRead fuel acc ss =
    (bs : List Segment) × (rs : List Segment) × (ss ≡ bs ++ rs)
    × AtDot rs
    × (brackets fuel acc (print_segments ss) ≡ ok (acc ++ bs, print_segments rs))

brackets-print :
    (fuel : ℕ) (acc ss : List Segment)
    → length ss < fuel
    → All Printed ss
    → BracketsRead fuel acc ss
unfolding brackets print_segments
brackets-print zero acc ss h p = elim h [ ]
brackets-print (suc fuel) acc [] h p = ([], [], refl, at_end, simp append-nil)
brackets-print (suc fuel) acc (s ∷ ss) h p =
    first p.0 (brackets-print fuel (acc ++ s ∷ []) ss (omega arith) p.1)
  where
    first : Printed s → BracketsRead fuel (acc ++ s ∷ []) ss → BracketsRead (suc fuel) acc (s ∷ ss)
    first (dotted k e b q) _ = ([], s ∷ ss, refl, at_key k ss e b q p.1, rw (q, append-nil))
    first (bracketed t q r) (bs, rs, e, a, ih) =
        (s ∷ bs, rs, ap (λ l. s ∷ l) e, a, rw (q, r (print_segments ss), ih, append_assoc))

module _ (next : Text → Result CompileError (List Segment)) (acc : List Segment) (n : ℕ)
    (read : (k : Text) (ss : List Segment)
      → IsBareKey k
      → All Printed ss
      → length ss < n
      → next (k ++ print_segments ss) ≡ ok (acc ++ key_segment k ∷ ss)) where
  after_brackets-print :
      (rs : List Segment)
      → length rs ≤ n
      → AtDot rs
      → after_brackets next acc (print_segments rs) ≡ ok (acc ++ rs)
  unfolding after_brackets print_segments
  after_brackets-print [] h at_end = simp append-nil
  after_brackets-print (s ∷ ss) h (at_key k _ e b q p) = rw (q, e) (dot k b)
    where
      dot :
          (k : Text)
          → IsBareKey k
          → after_brackets next acc (b'.' ∷ k ++ print_segments ss) ≡ ok (acc ++ key_segment k ∷ ss)
      dot [] b = absurd (b.0 refl)
      dot (c ∷ k) b = read (c ∷ k) ss b p (omega arith)

-- The outer loop reads a bare key and all printed segments behind it.
segments_from-print :
    (fuel : ℕ) (acc : List Segment) (k : Text) (ss : List Segment)
    → IsBareKey k
    → All Printed ss
    → length ss < fuel
    → segments_from fuel acc (k ++ print_segments ss) ≡ ok (acc ++ key_segment k ∷ ss)
unfolding segments_from
segments_from-print zero acc k ss b p h = elim h [ ]
segments_from-print (suc fuel) acc [] ss b p h = absurd (b.0 refl)
segments_from-print (suc fuel) acc (c ∷ k) ss b p h =
    rest
      (brackets-print (length (print_segments ss) + 1) (acc ++ key_segment (c ∷ k) ∷ []) ss
        (omega (arith, length-print_segments ss p)) p)
      (λ acc' k' ss' b' p' h'. segments_from-print fuel acc' k' ss' b' p' h')
  where
    rest :
        BracketsRead (length (print_segments ss) + 1) (acc ++ key_segment (c ∷ k) ∷ []) ss
        → ((acc' : List Segment) (k' : Text) (ss' : List Segment)
            → IsBareKey k'
            → All Printed ss'
            → length ss' < fuel
            → segments_from fuel acc' (k' ++ print_segments ss')
              ≡ ok (acc' ++ key_segment k' ∷ ss'))
        → segments_from (suc fuel) acc ((c ∷ k) ++ print_segments ss)
          ≡ ok (acc ++ key_segment (c ∷ k) ∷ ss)
    rest (bs, rs, e, a, r) ih =
        rw (span_bare-append (c ∷ k) (print_segments ss) b.1 (print-at_bare_end ss p), r)
          (after_brackets-print (segments_from fuel ((acc ++ key_segment (c ∷ k) ∷ []) ++ bs))
              ((acc ++ key_segment (c ∷ k) ∷ []) ++ bs) fuel
              (λ k' ss' b' p' h'. ih _ k' ss' b' p' h') rs
              (omega (arith, ap length e, length-append bs rs)) a
            ∙ ap ok (rw e (simp append_assoc)))

compile_dollar :
    (t : Text) (ss : List Segment)
    → t ≢ []
    → segments_from (length t + 1) [] t ≡ ok ss
    → compile (b'$' ∷ b'.' ∷ t) ≡ ok (record { expr = b'$' ∷ b'.' ∷ t; segments = ss })
unfolding compile
compile_dollar [] ss h e = absurd (h refl)
compile_dollar (c ∷ t) ss h e = rw e

-- A printed head and the segments behind it are read back.
spelled :
    (k : Text) (ss : List Segment)
    → IsBareKey k
    → All Printed ss
    → compile (b'$' ∷ b'.' ∷ k ++ print_segments ss)
      ≡ ok (record { expr = b'$' ∷ b'.' ∷ k ++ print_segments ss; segments = key_segment k ∷ ss })
spelled [] ss b p = absurd (b.0 refl)
spelled (c ∷ k) ss b p =
    compile_dollar (c ∷ k ++ print_segments ss) (key_segment (c ∷ k) ∷ ss) (λ e. cc)
      (segments_from-print (length (c ∷ k ++ print_segments ss) + 1) [] (c ∷ k) ss b p
        (omega (arith, length-append k (print_segments ss), length-print_segments ss p)))

canonical_compiles :
    (ss : List Segment) (expr : Text)
    → IsCompiled ss
    → let p : DocPath = record { expr = expr; segments = ss } in
      compile (canonical p) ≡ ok (record { expr = canonical p; segments = ss })
unfolding canonical
canonical_compiles [] expr w = absurd w.0
canonical_compiles (s ∷ ss) expr w =
    let (k, e, b) = w.0 in rw e (spelled k ss b (All-Printed ss w.1.1))

-- Compiling the canonical spelling of a compiled path succeeds, and gives the same segments.
pub compile-canonical :
    (e : Text) (p : DocPath)
    → compile e ≡ ok p
    → compile (canonical p) ≡ ok (record { expr = canonical p; segments = p.segments })
compile-canonical e p h = canonical_compiles p.segments p.expr (compile-IsCompiled e p h)

-- The spelling is stable: the path that it compiles to has the same spelling.
pub canonical_idem :
    (e : Text) (p : DocPath)
    → compile e ≡ ok p
    → (q : DocPath) × (compile (canonical p) ≡ ok q) × (canonical q ≡ canonical p)
unfolding canonical
canonical_idem e p h =
    (record { expr = canonical p; segments = p.segments }, compile-canonical e p h, refl)
