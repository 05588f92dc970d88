-- ===== src/Adapters/Registry.antt =====
-- internal/adapters/rules/registry.go: the current rules, and the versions that open flows pin.
-- Each method is one step, under its mutex. `NewRegistry` publishes before it returns, so that a
-- registry has a snapshot; the tests for a missing one do not arise.
pub mod Pinned
pub mod Port
use flow_stitch.Base.{
  ℕ, zero, suc, ◌+◌, ◌-◌, Bool, true, false, ◌&&◌, ◌||◌, not, Option, none, some, List, [], ◌∷◌,
  Text, text_eq, ◌==◌, if◌then◌else◌, ltb, is_nil, or_else,
}
use flow_stitch.Base.Dict.{Dict, lookup, insert, erase}
use flow_stitch.Domain.Event.{Event}
use flow_stitch.Domain.DocPath.{resolve}
use flow_stitch.Domain.Rule.{Rule, Reference, reference_eq}

pub record Snapshot : Type 0 where
  pub ordered : List Rule
  pub versions : Dict Reference Rule

pub record Registry : Type 0 where
  pub snapshot : Snapshot
  pub open_count : Dict Reference ℕ

-- `versionKey{configured.ID, configured.Version}`
abbrev pub reference_of : Rule → Reference
reference_of r = record { id = r.id; version = r.version }

-- `r.open_count[key]`, zero where there is no entry.
abbrev pub opens : Reference → Dict Reference ℕ → ℕ
opens k open_count = or_else (lookup k open_count) 0

unfoldable pub still_open : Dict Reference ℕ → Dict Reference Rule → Dict Reference Rule
still_open open_count [] = []
still_open open_count ((k, r) ∷ m) =
    let rest = still_open open_count m in
    if ltb 0 (opens k open_count) then insert k r rest else rest

unfoldable pub add_versions : List Rule → Dict Reference Rule → Dict Reference Rule
add_versions [] m = m
add_versions (r ∷ rs) m = add_versions rs (insert (reference_of r) r m)

unfoldable pub next_snapshot : Dict Reference ℕ → Dict Reference Rule → List Rule → Snapshot
next_snapshot open_count current rs = record {
  ordered = rs;
  versions = add_versions rs (still_open open_count current);
}

unfoldable pub new_registry : List Rule → Registry
new_registry rs = record { snapshot = next_snapshot [] [] rs; open_count = [] }

unfoldable pub publish : List Rule → Registry → Registry
publish rs r = record r { snapshot = next_snapshot r.open_count r.snapshot.versions rs }

unfoldable pub owns : Event → Rule → Bool
owns e r =
    r.enabled && elim (resolve r.key e.doc) [ none ↦ false | some value ↦ not (is_nil value) ]

unfoldable pub first_match : Event → List Rule → Option Rule
first_match e [] = none
first_match e (r ∷ rs) = if owns e r then some r else first_match e rs

unfoldable pub retain : Reference → Dict Reference ℕ → Dict Reference ℕ
retain k open_count = insert k (opens k open_count + 1) open_count

unfoldable pub match_and_retain : Event → Registry → Registry × Option Rule
match_and_retain e r = elim (first_match e r.snapshot.ordered) [
  | none ↦ (r, none)
  | some c ↦ (record r { open_count = retain (reference_of c) r.open_count }, some c)
]

unfoldable pub seed_open_flows : Dict Reference ℕ → Registry → Registry
seed_open_flows [] r = r
seed_open_flows ((k, n) ∷ counts) r =
    seed_open_flows counts (record r { open_count = insert k n r.open_count })

unfoldable pub is_current : Reference → List Rule → Bool
is_current k [] = false
is_current k (r ∷ rs) = (r.id == k.id && r.version == k.version) || is_current k rs

unfoldable pub release : Reference → Registry → Registry
release k r =
    if ltb 1 (opens k r.open_count)
    then record r { open_count = insert k (opens k r.open_count - 1) r.open_count }
    else if is_current k r.snapshot.ordered
    then record r { open_count = erase k r.open_count }
    else record {
      snapshot = record (r.snapshot) { versions = erase k r.snapshot.versions };
      open_count = erase k r.open_count;
    }

unfoldable pub get : Reference → Registry → Option Rule
get k r = lookup k r.snapshot.versions
