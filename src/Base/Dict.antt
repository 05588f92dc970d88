-- ===== src/Base/Dict.antt =====
-- Go's `map`: an association list. A map is read through `lookup`, and the order of its entries
-- is the order in which `range` happens to visit them.
use mathlib.Core.Option.{some-injective}
use flow_stitch.Base.{
  suc, ◌≤◌, ◌≡◌, refl, Option, none, some, List, [], ◌∷◌, arith, Comparable, ◌==◌, length,
  if◌then◌else◌, is_some, All, Bool-cases, inl, inr, subst,
}

abbrev pub Dict {ℓ κ} : Type ℓ → Type κ → Type (ℓ ⊔ κ)
Dict K V = List (K × V)

module _ {ℓ κ} {K : Type ℓ} {V : Type κ} ⦃e : Comparable K⦄ where
  -- `v, ok := m[key]`
  unfoldable pub lookup : K → Dict K V → Option V
  lookup key [] = none
  lookup key (x ∷ rest) = if x.0 == key then some x.1 else lookup key rest

  -- `m[key] = v`: in place, or behind the other entries.
  unfoldable pub insert : K → V → Dict K V → Dict K V
  insert key v [] = (key, v) ∷ []
  insert key v (x ∷ rest) = if x.0 == key then (key, v) ∷ rest else x ∷ insert key v rest

  -- `delete(m, key)`
  unfoldable pub erase : K → Dict K V → Dict K V
  erase key [] = []
  erase key (x ∷ rest) = let shorter = erase key rest in if x.0 == key then shorter else x ∷ shorter

  pub lookup-insert :
      (key other : K) (v : V) (m : Dict K V)
      → lookup other (insert key v m) ≡ (if key == other then some v else lookup other m)
  unfolding lookup insert
  lookup-insert key other v [] = refl
  lookup-insert key other v (x ∷ rest) = ground (
    arith,
    lookup-insert key other v rest,
    e.equals_iff x.0 other,
    e.equals_iff x.0 key,
    e.equals_iff key other,
  )

  pub lookup-erase :
      (k j : K) (m : Dict K V) → lookup j (erase k m) ≡ (if k == j then none else lookup j m)
  unfolding lookup erase
  lookup-erase k j [] = ground arith
  lookup-erase k j ((i, w) ∷ m) =
      ground (arith, e.equals_iff k j, e.equals_iff i k, e.equals_iff i j, lookup-erase k j m)

  pub lookup-insert_self : (k : K) (v : V) (m : Dict K V) → lookup k (insert k v m) ≡ some v
  lookup-insert_self k v m = ground (arith, lookup-insert k k v m, e.equals_iff k k)

  pub lookup-erase_self : (k : K) (m : Dict K V) → lookup k (erase k m) ≡ none
  lookup-erase_self k m = ground (arith, lookup-erase k k m, e.equals_iff k k)

  -- Every key stands once: what a Go map is.
  abbrev pub IsMap : Dict K V → Type κ
  IsMap [] = Unit
  IsMap ((k, v) ∷ m) = (lookup k m ≡ none) × IsMap m

  pub insert-IsMap : (k : K) (v : V) (m : Dict K V) → IsMap m → IsMap (insert k v m)
  unfolding insert lookup
  insert-IsMap k v [] h = (refl, tt)
  insert-IsMap k v ((j, w) ∷ m) h =
      ground
        (arith, e.equals_iff j k, e.equals_iff k j, insert-IsMap k v m h.1, lookup-insert k j v m)

  pub erase-IsMap : (k : K) (m : Dict K V) → IsMap m → IsMap (erase k m)
  unfolding erase
  erase-IsMap k [] h = tt
  erase-IsMap k ((j, w) ∷ m) h =
      ground (arith, e.equals_iff k j, erase-IsMap k m h.1, lookup-erase k j m)

  -- `len(m)` after a write and after a removal.
  pub length-insert :
      (k : K) (v : V) (m : Dict K V)
      → length (insert k v m) ≡ (if is_some (lookup k m) then length m else suc (length m))
  unfolding insert lookup
  length-insert k v [] = refl
  length-insert k v ((j, w) ∷ m) = ground (arith, length-insert k v m)

  pub erase_absent : (k : K) (m : Dict K V) → lookup k m ≡ none → erase k m ≡ m
  unfolding erase lookup
  erase_absent k [] h = refl
  erase_absent k ((j, w) ∷ m) h = ground (arith, erase_absent k m)

  pub length-erase :
      (k : K) (m : Dict K V)
      → IsMap m
      → length m ≡ (if is_some (lookup k m) then suc (length (erase k m)) else length (erase k m))
  unfolding erase lookup
  length-erase k [] h = refl
  length-erase k ((j, w) ∷ m) h =
      ground (arith, e.equals_iff j k, erase_absent k m, length-erase k m h.1)

  pub length-erase-le : (k : K) (m : Dict K V) → length (erase k m) ≤ length m
  unfolding erase
  length-erase-le k [] = omega arith
  length-erase-le k ((j, w) ∷ m) = ground (arith, length-erase-le k m)

  -- Each entry of a map is what its key is bound to.
  pub entry-lookup : (m : Dict K V) → IsMap m → All (λ kv. lookup kv.0 m ≡ some kv.1) m
  unfolding lookup
  entry-lookup [] h = tt
  entry-lookup ((k, v) ∷ m) h = (ground (arith, e.equals_iff k k), shadow m (entry-lookup m h.1))
    where
      shadow :
          (r : Dict K V)
          → All (λ kv. lookup kv.0 m ≡ some kv.1) r
          → All (λ kv. (if k == kv.0 then some v else lookup kv.0 m) ≡ some kv.1) r
      shadow [] a = tt
      shadow ((j, w) ∷ r) a = (ground (arith, e.equals_iff k j, a.0, h.0), shadow r a.1)

  pub All-lookup {λ'} :
      (P : V → Type λ') (k : K) (v : V) (m : Dict K V)
      → lookup k m ≡ some v
      → All (λ kv. P kv.1) m
      → P v
  unfolding lookup
  All-lookup P k v [] h a = cc
  All-lookup P k v ((j, w) ∷ m) h a = elim (Bool-cases (j == k)) [
    | inl d ↦ subst P (some-injective w v (rw d at h)) a.0
    | inr d ↦ All-lookup P k v m (rw d at h) a.1
  ]
