-- ===== src/Domain/Flow/Codec/RoundTrip.antt =====
-- Decoding what was encoded gives the aggregate back, without the producers' raw bytes and with
-- its rule's paths in their canonical spelling.
use mathlib.Core.List.{append_assoc, append-nil}
use mathlib.Core.Path.{ap₂}
use flow_stitch.Base.{
  ℕ, ◌+◌, ◌≡◌, ◌≢◌, refl, sym, ap, subst, none, some, List, [], ◌∷◌, ◌++◌, map, Text, nat_eq,
  text_eq, text_beq_iff, ok, length, length-append, arith,
}
use flow_stitch.Base.Dict.{Dict, lookup, insert}
use flow_stitch.Domain.Rule.{Rule}
use flow_stitch.Domain.Flow.Defs.{Flow, Invocation}
use flow_stitch.Domain.Flow.Apply.Placed.{Enumerates, IsValid, insert_absent}
use flow_stitch.Domain.Flow.Codec.{
  Json, strip_raw, strip_members, strip_plain, restore_rule, identity_of, encode_invocation,
  encode_invocations, encoded, encode, decode_invocation, index_identities, decoded, decode,
}

-- An entry of an enumeration: its index, that its key does not stand before it, and that the
-- index leads back to the key.
enumerated_at :
    (i : ℕ) (p q : Dict Text ℕ) (k : Text) (j : ℕ)
    → Enumerates i (p ++ (k, j) ∷ q)
    → (j ≡ i + length p) × (lookup k p ≡ none) × (identity_of (p ++ (k, j) ∷ q) j ≡ k)
unfolding lookup identity_of
enumerated_at i [] q k j e = (omega arith, refl, ground arith)
enumerated_at i ((k', j') ∷ p) q k j e =
    let (a, b, c) = enumerated_at (i + 1) p q k j e.2 in
    (omega arith, ground (arith, b, absent_before p k' e.1, text_beq_iff k' k), ground (arith, c))
  where
    absent_before : (p : Dict Text ℕ) (k' : Text) → lookup k' (p ++ (k, j) ∷ q) ≡ none → k' ≢ k
    absent_before [] k' h x = ground (arith, text_beq_iff k k')
    absent_before ((y, n) ∷ p) k' h x = absent_before p k' (ground arith) x

identity_encode :
    (m : Dict Text ℕ) (i : ℕ) (x : Invocation)
    → (encode_invocation m i x).identity ≡ identity_of m i
unfolding encode_invocation
identity_encode m i x = refl

index-encode :
    (p q : Dict Text ℕ) (invs : List Invocation)
    → Enumerates 0 (p ++ q)
    → length q ≡ length invs
    → index_identities (length p) (encode_invocations (p ++ q) (length p) invs) p ≡ p ++ q
unfolding index_identities encode_invocations
index-encode p [] [] e h = sym (append-nil p)
index-encode p [] (x ∷ invs) e h = absurd (omega arith)
index-encode p (kj ∷ q) [] e h = absurd (omega arith)
index-encode p ((k, j) ∷ q) (x ∷ invs) e h =
    let (a, b, c) = enumerated_at 0 p q k j e in
    let n = length p in
    let j_is : j ≡ n = omega arith in
    let assoc : p ++ ((k, j) ∷ q) ≡ (p ++ (k, j) ∷ []) ++ q =
      sym (append_assoc p ((k, j) ∷ []) q) in
    let grown : insert (encode_invocation (p ++ ((k, j) ∷ q)) n x).identity n p ≡ p ++ (k, j) ∷ [] =
      rw (identity_encode (p ++ ((k, j) ∷ q)) n x, sym j_is, c) (insert_absent k j p b) in
    let len : length p + 1 ≡ length (p ++ (k, j) ∷ []) = sym (length-append p ((k, j) ∷ [])) in
    let full = p ++ ((k, j) ∷ q) in
    let p' = p ++ (k, j) ∷ [] in
    let ih = index-encode p' q invs (subst (Enumerates 0) assoc e) (omega arith) in
    let at_full =
      subst (λ m. index_identities (length p') (encode_invocations m (length p') invs) p' ≡ m)
        (sym assoc) ih in
    let at_next =
      subst (λ c. index_identities c (encode_invocations full c invs) p' ≡ full) (sym len)
        at_full in
    subst (λ d. index_identities (n + 1) (encode_invocations full (n + 1) invs) d ≡ full)
      (sym grown) at_next

-- The invocation as the codec leaves it.
unfoldable pub strip_invocation : Invocation → Invocation
unfolding strip_members
strip_invocation i = record i { members = strip_members i.members }

decode-encode_invocations :
    (m : Dict Text ℕ) (i : ℕ) (invs : List Invocation)
    → map decode_invocation (encode_invocations m i invs) ≡ map strip_invocation invs
unfolding encode_invocations decode_invocation encode_invocation strip_invocation
decode-encode_invocations m i [] = refl
decode-encode_invocations m i (x ∷ invs) =
    ap (λ r. strip_invocation x ∷ r) (decode-encode_invocations m (i + 1) invs)

-- The aggregate as the codec leaves it, with the restored rule.
unfoldable pub strip : Flow → Rule → Flow
unfolding strip_raw strip_plain strip_invocation
strip f r = record f {
  pinned_rule = r;
  events = map strip_raw f.events;
  invocations = map strip_invocation f.invocations;
  plain = map strip_plain f.plain;
}

decoded-encoded : (f : Flow) (r : Rule) → IsValid f → decoded (encoded f) r ≡ strip f r
unfolding decoded encoded strip
decoded-encoded f r v =
    cong₂-flow (decode-encode_invocations f.invocation_by_key 0 f.invocations)
      (index-encode [] f.invocation_by_key f.invocations v.enumerated v.indexed)
  where
    cong₂-flow :
        {xs ys : List Invocation} {m n : Dict Text ℕ}
        → xs ≡ ys
        → m ≡ n
        → ◌≡◌ {A = Flow}
            (record (strip f r) { invocations = xs; invocation_by_key = m })
            (record (strip f r) { invocations = ys; invocation_by_key = n })
    cong₂-flow a b =
        ap₂ (λ xs m. record (strip f r) { invocations = xs; invocation_by_key = m }) a b

-- A valid aggregate that the JSON encoder writes and reads back, with a rule whose paths restore,
-- is decoded from its encoding as itself, but for the producers' raw bytes and the paths' spelling.
pub decode-encode :
    (json : Json) (f : Flow) (r : Rule) (raw : Text)
    → IsValid f
    → json.marshal (encoded f) ≡ some raw
    → json.unmarshal raw ≡ some (encoded f)
    → restore_rule f.pinned_rule ≡ ok r
    → (encode json f ≡ ok (2 ∷ raw)) × (decode json (2 ∷ raw) ≡ ok (strip f r))
unfolding encode decode encoded
decode-encode json f r raw v m u h = (simp m refl, rw (u, h) (ap ok (decoded-encoded f r v)))
