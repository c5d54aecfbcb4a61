-- ===== src/Level/Starting.antt =====
-- `maybe_start_compaction` of src/level.rs takes free tables, or changes no table.
use lsm_rs.Prelude.{
  ℕ, zero, suc, ◌+◌, ◌<◌, ◌≡◌, refl, ap, subst, List, [], ◌∷◌, Option, none, some, true, false,
  length, get_elem?, ltb, ◌==◌, ==_ne, if◌then◌else◌, Bool-cases, inl, inr, arith,
}
use lsm_rs.Outcome.{ok, Returns, Returns-bind}
use lsm_rs.SortedTable.{SortedTable}
use lsm_rs.Level.{Level, max_size, invalid_table_id}
use lsm_rs.Level.Overlaps.{Taken}
use lsm_rs.Level.Start.{
  find_id, choose_by_size, choose_by_seek, choose_table, size_based, flag_at, mark_at, unmarked,
  Result, total_size, l0_compaction_trigger, start_at, start_chosen, maybe_start_compaction,
}
use lsm_rs.Level.Growing.{flag_at-Taken, waiting, waiting-mark_at, StartedRight, grow_lem}

unmarked-Taken : (ts : List SortedTable) → Taken ts ts (unmarked ts)
unmarked-Taken [] = tt
unmarked-Taken (t ∷ ts) = (refl, unmarked-Taken ts)

unmarked-waiting : (ts : List SortedTable) → waiting (unmarked ts) ≡ length ts
unmarked-waiting [] = refl
unmarked-waiting (t ∷ ts) = ap suc (unmarked-waiting ts)

unmarked-at :
    (ts : List SortedTable) (p : ℕ) (t : SortedTable)
    → get_elem? ts p ≡ some t
    → get_elem? (unmarked ts) p ≡ some false
unmarked-at [] p t e = absurd (ground arith)
unmarked-at (u ∷ ts) zero t e = refl
unmarked-at (u ∷ ts) (suc p) t e = unmarked-at ts p t e

elem_at :
    (ts : List SortedTable) (p : ℕ) → p < length ts → (t : SortedTable) × (get_elem? ts p ≡ some t)
elem_at [] p w = absurd (omega arith)
elem_at (t ∷ ts) zero w = (t, refl)
elem_at (t ∷ ts) (suc p) w = elem_at ts p (omega arith)

start_at_lem :
    (index : ℕ) (ts : List SortedTable) (offset : ℕ)
    → offset < length ts
    → Returns (start_at index ts offset) (StartedRight ts)
unfolding start_at
start_at_lem index ts offset w =
    let (t, e) = elem_at ts offset w in
    let open_at = unmarked-at ts offset t e in
    rw (e, start_at)
      (elim (Bool-cases t.compaction_flag) [
        | inl busy ↦ rw busy refl
        | inr free ↦
            let taken =
              flag_at-Taken offset t ts ts (unmarked ts) (unmarked-Taken ts) (e, open_at) free in
            rw free (elim (Bool-cases (index == 0)) [
              | inl zeroth ↦ rw zeroth (
                  grow_lem (length ts + 1) ts (flag_at offset ts) (mark_at offset (unmarked ts))
                    (offset ∷ []) t.min t.max taken refl
                    (omega
                      (arith, waiting-mark_at offset (unmarked ts) open_at, unmarked-waiting ts)))
              | inr other ↦ rw other taken
            ])
      ])

-- The choice of a table changes no table, and a chosen position is that of one.
abbrev ChosenRight : Level → Level × Option ℕ → Type 0
ChosenRight before (after, none) =
    (after.tables ≡ before.tables) × (after.table_placeholders ≡ before.table_placeholders)
ChosenRight before (after, some offset) =
    (after.tables ≡ before.tables)
    × (after.table_placeholders ≡ before.table_placeholders)
    × (offset < length after.tables)

abbrev IsWithin : List SortedTable → Option ℕ → Type 0
IsWithin ts none = Unit
IsWithin ts (some pos) = pos < length ts

find_id-IsWithin : (ts : List SortedTable) (id : ℕ) → IsWithin ts (find_id ts id)
unfolding find_id
find_id-IsWithin [] id = tt
find_id-IsWithin (t ∷ ts) id = elim (Bool-cases (t.identifier == id)) [
  | inl own ↦ rw own (omega arith)
  | inr other ↦ rw other (later (find_id ts id) (find_id-IsWithin ts id))
]
  where
    later :
        (o : Option ℕ)
        → IsWithin ts o
        → IsWithin (t ∷ ts) (elim o [ none ↦ none | some p ↦ some (suc p) ])
    later none h = tt
    later (some p) h = omega (arith, h)

choose_by_seek_lem : (level : Level) → ChosenRight level (choose_by_seek level)
unfolding choose_by_seek
choose_by_seek_lem level = elim (Bool-cases (level.seek_based_compaction == invalid_table_id)) [
  | inl off ↦ rw off (refl, refl)
  | inr on ↦ rw on (
      found (find_id level.tables level.seek_based_compaction)
        (find_id-IsWithin level.tables level.seek_based_compaction))
]
  where
    found :
        (o : Option ℕ)
        → IsWithin level.tables o
        → ChosenRight level (elim o [
          | none ↦ (level, none)
          | some pos ↦ (record level { seek_based_compaction = invalid_table_id }, some pos)
        ])
    found none h = (refl, refl)
    found (some pos) h = (refl, refl, h)

sized_some :
    (index most : ℕ) (ts : List SortedTable)
    → (if index == 0 then ltb l0_compaction_trigger (length ts) else ltb most (total_size ts))
      ≡ true
    → 0 < length ts
unfolding total_size
sized_some index most [] e = absurd (ground (arith, e))
sized_some index most (t ∷ ts) e = omega arith

size_based-some : (level : Level) → size_based level ≡ true → 0 < length level.tables
unfolding size_based
size_based-some level e = sized_some level.index (max_size level) level.tables e

choose_table_lem : (level : Level) → Returns (choose_table level) (ChosenRight level)
unfolding choose_table choose_by_size
choose_table_lem level = elim (Bool-cases (size_based level)) [
  | inl e ↦
      let some_table = size_based-some level e in
      rw (e, ==_ne (length level.tables) 0 (omega arith)) (refl, refl, ground arith)
  | inr e ↦ rw e (choose_by_seek_lem level)
]

-- A call that starts no compaction changes no table. One that does has taken tables that were free.
abbrev pub Started : Level → Level × Result → Type 0
Started before (after, result) =
    StartedRight before.tables (after.tables, result)
    × (after.table_placeholders ≡ before.table_placeholders)

start_chosen_lem :
    (before : Level) (c : Level × Option ℕ)
    → ChosenRight before c
    → Returns (start_chosen c) (Started before)
unfolding start_chosen
start_chosen_lem before (after, none) h = h
start_chosen_lem before (after, some offset) h =
    Returns-bind (start_at after.index after.tables offset)
      (λ r. ok (record after { tables = r.0 }, r.1)) (StartedRight before.tables) (Started before)
      (subst (λ ts. Returns (start_at after.index after.tables offset) (StartedRight ts)) h.0
        (start_at_lem after.index after.tables offset h.2))
      (λ r s. (s, h.1))

-- `maybe_start_compaction` returns on every level: nothing panics, and the loop over a level 0 ends.
-- Where it starts no compaction, also where it meets a table that another task compacts, all tables are
-- as before. Where it starts one, the tables at the positions that it returns were free and are taken,
-- and no other table is changed.
pub maybe_start_compaction-Started :
    (level : Level) → Returns (maybe_start_compaction level) (Started level)
unfolding maybe_start_compaction
maybe_start_compaction-Started level =
    Returns-bind (choose_table level) start_chosen (ChosenRight level) (Started level)
      (choose_table_lem level) (λ c h. start_chosen_lem level c h)
