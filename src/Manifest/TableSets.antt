-- ===== src/Manifest/TableSets.antt =====
-- The tables of all levels of src/manifest.rs as lists of identifiers: the files follow every update.
use lsm_rs.Prelude.{
  ℕ, zero, suc, ◌+◌, ◌<◌, ◌≡◌, List, [], ◌∷◌, Option, none, some, length, if◌then◌else◌,
}
use lsm_rs.Bytes.{u64_mod}
use lsm_rs.Outcome.{Outcome, panicked, Returns}
use lsm_rs.Manifest.Ids.{has, add, without}
use lsm_rs.Manifest.Bytes.{IsLevel}

-- Each file holds the identifiers of its level, with room to count `spare` more.
abbrev pub Holds : ℕ → List (List ℕ) → List (List ℕ) → Type 0
Holds spare [] [] = Unit
Holds spare [] (ids ∷ tables) = ⊥
Holds spare (file ∷ levels) [] = ⊥
Holds spare (file ∷ levels) (ids ∷ tables) =
    IsLevel file ids × (length ids + spare < u64_mod) × Holds spare levels tables

-- The updates on the lists of identifiers; `none` where the level or the table is not as it must be.
unfoldable pub change_ids : (List ℕ → Option (List ℕ)) → List (List ℕ) → ℕ → Option (List (List ℕ))
change_ids g [] level = none
change_ids g (ids ∷ tables) zero = elim (g ids) [ none ↦ none | some ids' ↦ some (ids' ∷ tables) ]
change_ids g (ids ∷ tables) (suc level) = elim (change_ids g tables level) [
  | none ↦ none
  | some tables' ↦ some (ids ∷ tables')
]

unfoldable pub added : ℕ → List ℕ → Option (List ℕ)
added id ids = if has ids id then none else some (add ids id)

unfoldable pub removed : ℕ → List ℕ → Option (List ℕ)
removed id ids = if has ids id then some (without ids id) else none

unfoldable pub add_ids : List (List ℕ) → List (ℕ × ℕ) → Option (List (List ℕ))
add_ids tables [] = some tables
add_ids tables ((level, id) ∷ adds) = elim (change_ids (added id) tables level) [
  | none ↦ none
  | some tables' ↦ add_ids tables' adds
]

unfoldable pub remove_ids : List (List ℕ) → List (ℕ × ℕ) → Option (List (List ℕ))
remove_ids tables [] = some tables
remove_ids tables ((level, id) ∷ removes) = elim (change_ids (removed id) tables level) [
  | none ↦ none
  | some tables' ↦ remove_ids tables' removes
]

unfoldable pub update_ids : List (List ℕ) → (adds removes : List (ℕ × ℕ)) → Option (List (List ℕ))
update_ids tables adds removes = elim (add_ids tables adds) [
  | none ↦ none
  | some tables' ↦ remove_ids tables' removes
]

-- The code panics where the lists have no result, and else its files hold the lists.
abbrev pub Agrees : ℕ → Option (List (List ℕ)) → Outcome (List (List ℕ)) → Type 0
Agrees spare none o = o ≡ panicked
Agrees spare (some tables) o = Returns o (λ levels. Holds spare levels tables)
