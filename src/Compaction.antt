-- ===== src/Compaction.antt =====
-- src/logic.rs: where a compaction puts its table into the child level. `compact_level` puts a new table
-- there, `fast_compaction` the one table that it moves.
pub mod Order
pub mod Merge
pub mod Newest
pub mod Least
pub mod Merging
pub mod Latest
pub mod MergeTests
pub mod Tests
use lsm_rs.Prelude.{ℕ, suc, List, [], ◌∷◌, Option, none, some, length, insert_idx, if◌then◌else◌}
use lsm_rs.Key.{Key, key_lt}
use lsm_rs.SortedTable.{SortedTable}

abbrev pub further : Option ℕ → Option ℕ
further none = none
further (some p) = some (suc p)

-- The loop that looks for the first table with a greater minimum.
unfoldable pub find_place : List SortedTable → Key → Option ℕ
find_place [] min = none
find_place (t ∷ tables) min = if key_lt min t.min then some 0 else further (find_place tables min)

-- `new_pos` keeps its first value where there is no such table.
abbrev pub place_or : ℕ → Option ℕ → ℕ
place_or first none = first
place_or first (some p) = p

-- `compact_level`: the first value is the number of tables.
unfoldable pub add_compacted : List SortedTable → SortedTable → List SortedTable
add_compacted tables t = insert_idx tables (place_or (length tables) (find_place tables t.min)) t

-- `fast_compaction`: the first value is 0.
unfoldable pub add_moved : List SortedTable → SortedTable → List SortedTable
add_moved tables t = insert_idx tables (place_or 0 (find_place tables t.min)) t
