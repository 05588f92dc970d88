-- ===== src/Adapters/PebbleStore/Engine.antt =====
-- What internal/adapters/state/pebble/store.go uses of the Pebble database, as an argument: reads and
-- writes of one key, a scan between two keys, and the commit of a batch. A batch reads its own writes.
use flow_stitch.Base.{
  ◌≡◌, Bool, ◌&&◌, not, Option, none, some, List, Text, text_eq, text_ltb, ◌==◌, if◌then◌else◌,
  Result, ok, err,
}
use flow_stitch.Base.Dict.{lookup, IsMap}
use flow_stitch.Application.Ports.{StoreError}

pub record Engine : Type 1 where
  pub State : Type 0
  pub get : Text → State → Result StoreError (Option Text)
  pub set : Text → Text → State → Result StoreError State
  pub delete : Text → State → Result StoreError State
  pub scan : Text → Text → State → Result StoreError (List (Text × Text))
  pub commit : State → Option StoreError

unfoldable pub is_in_range : Text → Text → Text → Bool
is_in_range lower upper k = not (text_ltb k lower) && text_ltb k upper

-- The documented behaviour: a state is a map, and a scan gives each of its entries from `lower` on and
-- before `upper` once.
pub record EngineLaws (e : Engine) : Type 0 where
  pub entry : Text → e.State → Option Text
  pub get-entry : (k : Text) (s : e.State) (o : Option Text) → e.get k s ≡ ok o → o ≡ entry k s
  pub set-entry :
      (k v : Text) (s s' : e.State) (j : Text)
      → e.set k v s ≡ ok s'
      → entry j s' ≡ (if k == j then some v else entry j s)
  pub delete-entry :
      (k : Text) (s s' : e.State) (j : Text)
      → e.delete k s ≡ ok s'
      → entry j s' ≡ (if k == j then none else entry j s)
  pub scan-entry :
      (lower upper : Text) (s : e.State) (es : List (Text × Text)) (k : Text)
      → e.scan lower upper s ≡ ok es
      → lookup k es ≡ (if is_in_range lower upper k then entry k s else none)
  pub scan-IsMap :
      (lower upper : Text) (s : e.State) (es : List (Text × Text))
      → e.scan lower upper s ≡ ok es
      → IsMap es

-- `WithTx`: the batch is committed if the work succeeds, and dropped if not.
unfoldable pub with_tx {ℓ} :
    {A : Type ℓ} (e : Engine)
    → (e.State → Result StoreError (e.State × A))
    → e.State
    → e.State × Result StoreError A
with_tx e work s = elim (work s) [
  | err x ↦ (s, err x)
  | ok (s', a) ↦ elim (e.commit s') [ some x ↦ (s, err x) | none ↦ (s', ok a) ]
]
