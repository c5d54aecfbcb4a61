-- ===== src/Level/Placeholders.antt =====
-- The placeholders of src/level.rs: `remove_table_placeholder` undoes what a granted `get_overlaps` adds.
use lsm_rs.Prelude.{
  ℕ, ◌≡◌, ◌≢◌, refl, List, [], ◌∷◌, ◌++◌, Option, none, some, Bool, All, Bool-cases, inl, inr,
  ==_ne, ==_self,
}
use lsm_rs.Key.{Key}
use lsm_rs.Outcome.{ok, Returns, Returns-bind}
use lsm_rs.SortedTable.{SortedTable}
use lsm_rs.Level.{
  Level, TablePlaceholder, Found, find_overlaps, any_overlaps, place, get_overlaps, choose_id,
  none_marked, remove_placeholder, remove_table_placeholder,
}
use lsm_rs.Level.Overlaps.{FoundRight, find_overlaps_lem, abort_marked_lem}

-- No placeholder has the identifier.
abbrev pub IsFresh : List TablePlaceholder → ℕ → Type 0
IsFresh ps id = All (λ p. p.id ≢ id) ps

remove_last :
    (ps : List TablePlaceholder) (q : TablePlaceholder)
    → IsFresh ps q.id
    → remove_placeholder (ps ++ q ∷ []) q.id ≡ ok ps
unfolding remove_placeholder
remove_last [] q h = rw (==_self q.id) refl
remove_last (p ∷ ps) q h = rw (==_ne p.id q.id h.0, remove_last ps q h.1) refl

-- The identifiers that a call may give to its placeholder.
abbrev pub AreFresh : List TablePlaceholder → Option ℕ → ℕ → Type 0
AreFresh ps none next_id = IsFresh ps next_id
AreFresh ps (some id) next_id = IsFresh ps id × IsFresh ps next_id

choose_id-IsFresh :
    (ps : List TablePlaceholder) (fast_path : Option ℕ) (marks : List Bool) (next_id : ℕ)
    → AreFresh ps fast_path next_id
    → IsFresh ps (choose_id fast_path marks next_id)
choose_id-IsFresh ps none marks next_id h = h
choose_id-IsFresh ps (some id) marks next_id h = elim (Bool-cases (none_marked marks)) [
  | inl e ↦ rw e h.0
  | inr e ↦ rw e h.1
]

-- The placeholder of a granted call can be removed, which leaves the placeholders from before the call.
abbrev pub Undone : Level → Level × Option (ℕ × List Bool) → Type 0
Undone before (after, none) = after.table_placeholders ≡ before.table_placeholders
Undone before (after, some (id, marks)) =
    remove_table_placeholder after id
    ≡ ok (record after { table_placeholders = before.table_placeholders })

place-Undone :
    (level : Level) (fast_path : Option ℕ) (next_id : ℕ) (r : List SortedTable × Option Found)
    → AreFresh level.table_placeholders fast_path next_id
    → FoundRight level.tables r
    → Returns (place level fast_path next_id r) (Undone level)
unfolding place remove_table_placeholder
place-Undone level fast_path next_id (us, none) fresh h = refl
place-Undone level fast_path next_id (us, some f) fresh h =
    elim (Bool-cases (any_overlaps level.table_placeholders f.min f.max)) [
      | inl e ↦ rw (e, abort_marked_lem level.tables us f.marks h) refl
      | inr e ↦
          let q : TablePlaceholder = record {
            min = f.min;
            max = f.max;
            id = choose_id fast_path f.marks next_id;
          } in
          rw
            (
              e,
              remove_last level.table_placeholders q
                  (choose_id-IsFresh level.table_placeholders fast_path f.marks next_id fresh),
            )
            refl
    ]

-- `get_overlaps` returns. Where it refuses, the placeholders are as before. Where it grants, removing
-- the placeholder under the identifier that it returned gives back the placeholders from before. The
-- identifier of the fast path, if there is one, and the next one of the manifest are not among those of
-- the placeholders.
pub get_overlaps-Undone :
    (level : Level) (min max : Key) (fast_path : Option ℕ) (next_id : ℕ)
    → AreFresh level.table_placeholders fast_path next_id
    → Returns (get_overlaps level min max fast_path next_id) (Undone level)
unfolding get_overlaps
get_overlaps-Undone level min max fast_path next_id fresh =
    Returns-bind (find_overlaps level.tables min max) (place level fast_path next_id)
      (FoundRight level.tables) (Undone level) (find_overlaps_lem level.tables min max)
      (λ r h. place-Undone level fast_path next_id r fresh h)
