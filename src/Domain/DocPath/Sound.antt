-- ===== src/Domain/DocPath/Sound.antt =====
-- What a successful parse consists of, and that it never runs out of fuel.
use mathlib.Core.List.{cons-ne-nil}
use flow_stitch.Base.{
  ℕ, zero, suc, ◌+◌, ◌≤◌, ◌<◌, ◌≡◌, ◌≢◌, refl, Bool, true, false, ◌&&◌, List, [], ◌∷◌, ◌++◌, arith,
  Text, nat_eq, ◌==◌, Result, ok, err, ◌>>=◌, ◌>>◌, subst, guard, length, is_nil, All, Bool-cases,
  inl, inr, not, ◌⊎◌, All-append, Result-cases,
}
use flow_stitch.Base.Int.{ℤ}
use flow_stitch.Domain.DocPath.Canonical.{has_bare_end}
use flow_stitch.Domain.DocPath.Parts.{IsInt}
use flow_stitch.Domain.DocPath.{
  Segment, key_segment, index_segment, CompileError, unterminated_key, out_of_fuel, bad_index,
  span_bare, quoted, span_digits, atoi, strip_minus, closing, empty_key, bracket_index, bracket_key,
  bracket, brackets, after_brackets, segments_from, compile, DocPath,
}

-- A segment as the parser builds it.
pub data IsSegment (s : Segment) : Type 0 where
  a_key : (k : Text) → s ≡ key_segment k → IsSegment s
  an_index : (n : ℤ) → IsInt n → s ≡ index_segment n → IsSegment s

pub span_bare-bare : (s : Text) → has_bare_end (span_bare s).0 ≡ false
unfolding span_bare has_bare_end
span_bare-bare [] = refl
span_bare-bare (c ∷ s) = ground (arith, span_bare-bare s)

pub length-span_bare : (s : Text) → length (span_bare s).0 + length (span_bare s).1 ≡ length s
unfolding span_bare
length-span_bare [] = refl
length-span_bare (c ∷ s) = ground (arith, length-span_bare s)

length-span_digits : (s : Text) → length (span_digits s).1 ≤ length s
unfolding span_digits
length-span_digits [] = omega arith
length-span_digits (c ∷ s) = ground (arith, length-span_digits s)

length-strip_minus : (s : Text) → length (strip_minus s).1 ≤ length s
unfolding strip_minus
length-strip_minus [] = omega arith
length-strip_minus (c ∷ s) = ground arith

-- What is left is no longer than what was given, and no part runs out of fuel.
quoted-length : (key s k r : Text) → quoted key s ≡ ok (k, r) → length r ≤ length s
unfolding quoted
quoted-length key [] k r h = cc
quoted-length key (c ∷ []) k r h = ground arith
quoted-length key (c ∷ d ∷ s) k r h =
    ground (arith, quoted-length (key ++ c ∷ []) (d ∷ s) k r, quoted-length (key ++ d ∷ []) s k r)

quoted-ne-out_of_fuel : (key s : Text) → quoted key s ≢ err out_of_fuel
unfolding quoted
quoted-ne-out_of_fuel key [] = λ h. cc
quoted-ne-out_of_fuel key (c ∷ []) = λ h. ground arith
quoted-ne-out_of_fuel key (c ∷ d ∷ s) = λ h.
    ground (
      arith,
      quoted-ne-out_of_fuel (key ++ c ∷ []) (d ∷ s),
      quoted-ne-out_of_fuel (key ++ d ∷ []) s,
    )

closing-length : (e : CompileError) (s r : Text) → closing e s ≡ ok r → length r < length s
unfolding closing
closing-length e [] r h = cc
closing-length e (c ∷ s) r h = ground arith

closing_error : (e e' : CompileError) (s : Text) → closing e s ≡ err e' → e' ≡ e
unfolding closing
closing_error e e' [] h = ground arith
closing_error e e' (c ∷ s) h = ground arith

atoi-IsInt : (m : Bool) (ds : Text) (n : ℤ) → atoi m ds ≡ ok n → IsInt n
unfolding atoi
atoi-IsInt false ds n h = ground arith
atoi-IsInt true ds n h = ground arith

atoi-ne-out_of_fuel : (m : Bool) (ds : Text) → atoi m ds ≢ err out_of_fuel
unfolding atoi
atoi-ne-out_of_fuel false ds h = ground arith
atoi-ne-out_of_fuel true ds h = ground arith

-- A bracket gives a well-formed segment and consumes text.
abbrev Brackets : Text → Result CompileError (Segment × Text) → Type 0
Brackets s (ok (seg, r)) = IsSegment seg × (length r ≤ length s)
Brackets s (err e) = e ≢ out_of_fuel

bracket_key-Brackets : (s : Text) → Brackets s (bracket_key s)
unfolding bracket_key
bracket_key-Brackets s = elim (Result-cases (quoted [] s)) [
  | inl ((k, t), e) ↦ rw e (elim (Result-cases (closing unterminated_key t)) [
    | inl (r, f) ↦ rw f (
      a_key k refl,
      omega (arith, quoted-length [] s k t e, closing-length unterminated_key t r f),
    )
    | inr (x, f) ↦ rw f (λ p. cc (closing_error unterminated_key x t f))
  ])
  | inr (x, e) ↦ rw e (λ p. quoted-ne-out_of_fuel [] s (cc))
]

-- The part of `bracket_index` behind its sign.
index_rest-Brackets :
    (m : Bool) (ds u : Text) (n : ℕ)
    → length u ≤ n
    → (s : Text) → length s ≡ n
    → Brackets s (do
      guard (not (is_nil ds)) bad_index
      rest ← closing bad_index u
      k ← atoi m ds
      ok (index_segment k, rest))
index_rest-Brackets m [] u n h s e = λ p. cc
index_rest-Brackets m (d ∷ ds) u n h s e = elim (Result-cases (closing bad_index u)) [
  | inl (r, f) ↦ rw f (elim (Result-cases (atoi m (d ∷ ds))) [
    | inl (k, g) ↦
        rw g (
          an_index k (atoi-IsInt m (d ∷ ds) k g) refl,
          omega (arith, closing-length bad_index u r f),
        )
    | inr (x, g) ↦ rw g (λ p. atoi-ne-out_of_fuel m (d ∷ ds) (cc))
  ])
  | inr (x, f) ↦ rw f (λ p. cc (closing_error bad_index x u f))
]

bracket_index-Brackets : (s : Text) → Brackets s (bracket_index s)
unfolding bracket_index
bracket_index-Brackets s =
    index_rest-Brackets (strip_minus s).0 (span_digits (strip_minus s).1).0
      (span_digits (strip_minus s).1).1 (length s)
      (omega (arith, length-strip_minus s, length-span_digits (strip_minus s).1)) s refl

Brackets-cons :
    (c : ℕ) (s : Text) (r : Result CompileError (Segment × Text))
    → Brackets s r
    → Brackets (c ∷ s) r
Brackets-cons c s (ok (seg, r)) b = (b.0, omega arith)
Brackets-cons c s (err e) b = b

pub bracket-Brackets : (s : Text) → Brackets s (bracket s)
unfolding bracket
bracket-Brackets [] = λ p. cc
bracket-Brackets (c ∷ s) = elim (Bool-cases (c == b'"')) [
  | inl e ↦ rw e (Brackets-cons c s (bracket_key s) (bracket_key-Brackets s))
  | inr e ↦ rw e (bracket_index-Brackets (c ∷ s))
]

-- The accumulated segments begin with a bare key and are all well formed.
abbrev pub IsBareKey : Text → Type 0
IsBareKey k = (k ≢ []) × (has_bare_end k ≡ false)

abbrev pub StartsBare : List Segment → Type 0
StartsBare [] = ⊥
StartsBare (s ∷ ss) = (k : Text) × (s ≡ key_segment k) × IsBareKey k

pub StartsBare-append : (ss ts : List Segment) → StartsBare ss → StartsBare (ss ++ ts)
StartsBare-append [] ts h = absurd h
StartsBare-append (s ∷ ss) ts h = h

abbrev pub IsCompiled : List Segment → Type 0
IsCompiled ss = StartsBare ss × All IsSegment ss

IsCompiled-snoc :
    (ss : List Segment) (s : Segment) → IsCompiled ss → IsSegment s → IsCompiled (ss ++ s ∷ [])
IsCompiled-snoc ss s h w =
    (StartsBare-append ss (s ∷ []) h.0, All-append IsSegment ss (s ∷ []) h.1 (w, tt))

-- The result of the loops: well-formed segments, or an error that is not the model's own.
abbrev Good : ℕ → Result CompileError (List Segment × Text) → Type 0
Good n (ok (ss, r)) = IsCompiled ss × (length r ≤ n)
Good n (err e) = e ≢ out_of_fuel

Good-mono : (m n : ℕ) (r : Result CompileError (List Segment × Text)) → m ≤ n → Good m r → Good n r
Good-mono m n (ok (ss, r)) h g = (g.0, omega arith)
Good-mono m n (err e) h g = g

pub brackets-Good :
    (fuel : ℕ) (ss : List Segment) (s : Text)
    → length s < fuel
    → IsCompiled ss
    → Good (length s) (brackets fuel ss s)
unfolding brackets
brackets-Good zero ss s h w = elim h [ ]
brackets-Good (suc fuel) ss [] h w = (w, omega arith)
brackets-Good (suc fuel) ss (c ∷ s) h w = elim (Bool-cases (c == b'[')) [
  | inr e ↦ rw e (w, omega arith)
  | inl e ↦ rw e (elim (Result-cases (bracket s)) [
    | inl ((seg, r), f) ↦
        let b = subst (Brackets s) f (bracket-Brackets s) in
        rw f (
          Good-mono (length r) (suc (length s)) (brackets fuel (ss ++ seg ∷ []) r) (omega arith)
            (brackets-Good fuel (ss ++ seg ∷ []) r (omega arith) (IsCompiled-snoc ss seg w b.0)))
    | inr (x, f) ↦ let b = subst (Brackets s) f (bracket-Brackets s) in rw f b
  ])
]

abbrev GoodAll : Result CompileError (List Segment) → Type 0
GoodAll (ok ss) = IsCompiled ss
GoodAll (err e) = e ≢ out_of_fuel

after_brackets-GoodAll :
    (next : Text → Result CompileError (List Segment)) (ss : List Segment) (u : Text)
    → IsCompiled ss
    → ((r : Text) → suc (length r) ≤ length u → GoodAll (next r))
    → GoodAll (after_brackets next ss u)
unfolding after_brackets
after_brackets-GoodAll next ss [] w n = w
after_brackets-GoodAll next ss (c ∷ []) w n = elim (Bool-cases (c == b'.')) [
  | inl e ↦ rw e (λ p. cc)
  | inr e ↦ rw e (λ p. cc)
]
after_brackets-GoodAll next ss (c ∷ d ∷ r) w n = elim (Bool-cases (c == b'.')) [
  | inl e ↦ rw e (n (d ∷ r) (omega arith))
  | inr e ↦ rw e (λ p. cc)
]

IsCompiled-key :
    (ss : List Segment) (k : Text)
    → IsBareKey k
    → (ss ≡ []) ⊎ IsCompiled ss
    → IsCompiled (ss ++ key_segment k ∷ [])
IsCompiled-key ss k b (inl e) = rw e ((k, refl, b), (a_key k refl, tt))
IsCompiled-key ss k b (inr w) = IsCompiled-snoc ss (key_segment k) w (a_key k refl)

-- What follows the brackets, in the outer loop.
looped-GoodAll :
    (next : List Segment → Text → Result CompileError (List Segment)) (n : ℕ)
    → ((ss : List Segment) (r : Text) → suc (length r) ≤ n → IsCompiled ss → GoodAll (next ss r))
    → (r : Result CompileError (List Segment × Text)) → Good n r
    → GoodAll (r >>= λ x. after_brackets (next x.0) x.0 x.1)
looped-GoodAll next n h (ok (ss, u)) g =
    after_brackets-GoodAll (next ss) ss u g.0 (λ r lt. h ss r (omega arith) g.0)
looped-GoodAll next n h (err e) g = g

module _ (next : List Segment → Text → Result CompileError (List Segment)) (n : ℕ)
    (h : (ss : List Segment) (r : Text) → suc (length r) ≤ n → IsCompiled ss → GoodAll (next ss r))
    (ss : List Segment) (w : (ss ≡ []) ⊎ IsCompiled ss) where
  keyed-GoodAll :
      (k t : Text)
      → has_bare_end k ≡ false
      → length k + length t ≡ n
      → GoodAll (do
        guard (not (is_nil k)) empty_key
        (ss', u) ← brackets (length t + 1) (ss ++ key_segment k ∷ []) t
        after_brackets (next ss') ss' u)
  keyed-GoodAll [] t b e = λ p. cc
  keyed-GoodAll (c ∷ k) t b e =
      looped-GoodAll next n h (brackets (length t + 1) (ss ++ key_segment (c ∷ k) ∷ []) t) (
        Good-mono (length t) n _ (omega arith) (
          brackets-Good (length t + 1) _ t (omega arith)
            (IsCompiled-key ss (c ∷ k) (cons-ne-nil c k, b) w)))

segments_from-GoodAll :
    (fuel : ℕ) (ss : List Segment) (s : Text)
    → length s < fuel
    → (ss ≡ []) ⊎ IsCompiled ss
    → GoodAll (segments_from fuel ss s)
unfolding segments_from
segments_from-GoodAll zero ss s h w = elim h [ ]
segments_from-GoodAll (suc fuel) ss s h w =
    keyed-GoodAll (segments_from fuel) (length s)
      (λ ss' r lt c. segments_from-GoodAll fuel ss' r (omega arith) (inr c)) ss w (span_bare s).0
      (span_bare s).1 (span_bare-bare s) (length-span_bare s)

-- `compile`: well-formed segments that begin with a bare key, or an error of the source.
abbrev GoodPath : Result CompileError DocPath → Type 0
GoodPath (ok p) = IsCompiled p.segments
GoodPath (err e) = e ≢ out_of_fuel

compiled-GoodPath :
    (e : Text) (r : Result CompileError (List Segment))
    → GoodAll r
    → GoodPath (r >>= λ ss. ok (record { expr = e; segments = ss }))
compiled-GoodPath e (ok ss) g = g
compiled-GoodPath e (err x) g = g

compile-GoodPath : (e : Text) → GoodPath (compile e)
unfolding compile
compile-GoodPath [] = λ p. cc
compile-GoodPath (c ∷ []) = λ p. cc
compile-GoodPath (c ∷ d ∷ []) = elim (Bool-cases (c == b'$' && d == b'.')) [
  | inl e ↦ rw e (λ p. cc)
  | inr e ↦ rw e (λ p. cc)
]
compile-GoodPath (c ∷ d ∷ x ∷ s) = elim (Bool-cases (c == b'$' && d == b'.')) [
  | inl e ↦ rw e (
      compiled-GoodPath (c ∷ d ∷ x ∷ s) (segments_from (length (x ∷ s) + 1) [] (x ∷ s))
        (segments_from-GoodAll (length (x ∷ s) + 1) [] (x ∷ s) (omega arith) (inl refl)))
  | inr e ↦ rw e (λ p. cc)
]

pub compile-IsCompiled : (e : Text) (p : DocPath) → compile e ≡ ok p → IsCompiled p.segments
compile-IsCompiled e p h = subst GoodPath h (compile-GoodPath e)

-- The fuel given is enough: compiling any expression ends with a path or an error of the source.
pub compile-ne-out_of_fuel : (e : Text) → compile e ≢ err out_of_fuel
compile-ne-out_of_fuel e h = subst GoodPath h (compile-GoodPath e) refl
