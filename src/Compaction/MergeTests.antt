-- ===== src/Compaction/MergeTests.antt =====
-- The merge of src/logic.rs on two tables.
use lsm_rs.Prelude.{◌≡◌, refl, List, [], ◌∷◌, All}
use lsm_rs.Key.{cmp}
use lsm_rs.Memtable.{Entries, value, deletion, get_type, get_value, get_seq_number}
use lsm_rs.Memtable.Upsert.{IsSorted}
use lsm_rs.Outcome.{ok, Returns}
use lsm_rs.Compaction.Merge.{
  merge_tables, merge, entry_count, find_min, find_newest, advance, skip, lesser, newer,
  write_entry,
}
use lsm_rs.Compaction.Merging.{IsMergeOf, merge_tables_lem}
use lsm_rs.Compaction.Latest.{IsLatest, merge_tables-IsLatest}

abbrev parent : Entries
parent = (1 ∷ [], value 8 (5 ∷ [])) ∷ (3 ∷ [], deletion 9) ∷ []

abbrev child : Entries
child = (1 ∷ [], value 2 (4 ∷ [])) ∷ (2 ∷ [], value 3 []) ∷ (3 ∷ [], value 4 (6 ∷ [])) ∷ []

abbrev tables : List Entries
tables = child ∷ parent ∷ []

tables-IsSorted : All IsSorted tables
unfolding cmp
tables-IsSorted = (((refl, (refl, tt)), ((refl, tt), (tt, tt))), (((refl, tt), (tt, tt)), tt))

merged :
    merge_tables tables
    ≡ ok ((1 ∷ [], value 8 (5 ∷ [])) ∷ (2 ∷ [], value 3 []) ∷ (3 ∷ [], deletion 9) ∷ [])
unfolding merge_tables merge entry_count find_min find_newest advance skip lesser newer write_entry
    cmp get_type get_value get_seq_number
merged = refl

merge_tables_lem_example : Returns (merge_tables tables) (IsMergeOf tables)
merge_tables_lem_example = merge_tables_lem tables tables-IsSorted

merge_tables-IsLatest_example : Returns (merge_tables tables) (IsLatest tables)
merge_tables-IsLatest_example = merge_tables-IsLatest tables tables-IsSorted
