-- ===== src/Level/Start.antt =====
-- `maybe_start_compaction` of src/level.rs. Beside `offsets`, the positions of the tables that were
-- started, the model keeps a mark for each table, which is the test whether `offsets` has its position.
use lsm_rs.Prelude.{
  ℕ, zero, suc, ◌+◌, List, [], ◌∷◌, ◌++◌, Option, none, some, Bool, true, false, length, get_elem?,
  leb, ltb, ◌==◌, if◌then◌else◌,
}
use lsm_rs.Key.{Key}
use lsm_rs.Outcome.{Outcome, ok, panicked, diverged, ◌>>=◌}
use lsm_rs.SortedTable
use lsm_rs.SortedTable.{SortedTable}
use lsm_rs.Level.{Level, abort_marked, key_min, key_max, max_size, invalid_table_id}

abbrev pub l0_compaction_trigger : ℕ
l0_compaction_trigger = 4

unfoldable pub total_size : List SortedTable → ℕ
total_size [] = 0
total_size (t ∷ tables) = t.size + total_size tables

unfoldable pub size_based : Level → Bool
size_based level =
    if level.index == 0
    then ltb l0_compaction_trigger (length level.tables)
    else ltb (max_size level) (total_size level.tables)

-- The position of the table with an identifier.
unfoldable pub find_id : List SortedTable → ℕ → Option ℕ
find_id [] id = none
find_id (t ∷ tables) id =
    if t.identifier == id
    then some 0
    else (elim (find_id tables id) [ none ↦ none | some p ↦ some (suc p) ])

-- The size-based choice: the next offset, which wraps around.
unfoldable pub choose_by_size : Level → Outcome (Level × Option ℕ)
choose_by_size level =
    let offset =
      if leb (length level.tables) level.next_compaction_offset
      then 0
      else level.next_compaction_offset in
    if length level.tables == 0
    then panicked
    else ok (record level { next_compaction_offset = offset + 1 }, some offset)

-- The seek-based choice.
unfoldable pub choose_by_seek : Level → Level × Option ℕ
choose_by_seek level =
    if level.seek_based_compaction == invalid_table_id
    then (level, none)
    else (elim (find_id level.tables level.seek_based_compaction) [
      | none ↦ (level, none)
      | some pos ↦ (record level { seek_based_compaction = invalid_table_id }, some pos)
    ])

unfoldable pub choose_table : Level → Outcome (Level × Option ℕ)
choose_table level = if size_based level then choose_by_size level else ok (choose_by_seek level)

-- A table's flag is set, by its position, and a table is marked.
unfoldable pub flag_at : ℕ → List SortedTable → List SortedTable
flag_at n [] = []
flag_at zero (t ∷ tables) = record t { compaction_flag = true } ∷ tables
flag_at (suc n) (t ∷ tables) = t ∷ flag_at n tables

unfoldable pub mark_at : ℕ → List Bool → List Bool
mark_at n [] = []
mark_at zero (m ∷ marks) = true ∷ marks
mark_at (suc n) (m ∷ marks) = m ∷ mark_at n marks

abbrev pub unmarked : List SortedTable → List Bool
unmarked [] = []
unmarked (t ∷ tables) = false ∷ unmarked tables

abbrev pub further : Option (ℕ × SortedTable) → Option (ℕ × SortedTable)
further none = none
further (some (p, t)) = some (suc p, t)

-- The first table that is not started and overlaps the range: a round of the `for` over all tables.
unfoldable pub find_next : List SortedTable → List Bool → Key → Key → Option (ℕ × SortedTable)
find_next (t ∷ tables) (m ∷ marks) min max =
    let rest = further (find_next tables marks min max) in
    if m then rest else if SortedTable.overlaps t min max then some (0, t) else rest
find_next tables marks min max = none

pub data Result : Type 0 where
  contended nothing : Result
  started : List ℕ → Result

-- The flags of the tables that were started are given back.
unfoldable pub give_back : List SortedTable → List Bool → Outcome (List SortedTable × Result)
give_back tables marks = abort_marked tables marks >>= λ ts. ok (ts, contended)

-- The `while change` of level 0. Each round but the last starts a table.
unfoldable pub grow :
    ℕ
    → List SortedTable
    → List Bool
    → List ℕ
    → (min max : Key) → Outcome (List SortedTable × Result)
grow zero tables marks offsets min max = diverged
grow (suc fuel) tables marks offsets min max = elim (find_next tables marks min max) [
  | none ↦ ok (tables, started offsets)
  | some (p, t) ↦
      if t.compaction_flag
      then give_back tables marks
      else grow fuel (flag_at p tables) (mark_at p marks) (offsets ++ p ∷ []) (key_min min t.min)
          (key_max max t.max)
]

-- From the chosen table on.
unfoldable pub start_at : ℕ → List SortedTable → ℕ → Outcome (List SortedTable × Result)
start_at index tables offset = elim (get_elem? tables offset) [
  | none ↦ panicked
  | some t ↦
      if t.compaction_flag
      then ok (tables, contended)
      else if index == 0
      then grow (length tables + 1) (flag_at offset tables) (mark_at offset (unmarked tables))
          (offset ∷ []) t.min t.max
      else ok (flag_at offset tables, started (offset ∷ []))
]

unfoldable pub start_chosen : Level × Option ℕ → Outcome (Level × Result)
start_chosen (level, none) = ok (level, nothing)
start_chosen (level, some offset) =
    start_at level.index level.tables offset >>= λ r. ok (record level { tables = r.0 }, r.1)

unfoldable pub maybe_start_compaction : Level → Outcome (Level × Result)
maybe_start_compaction level = choose_table level >>= start_chosen
