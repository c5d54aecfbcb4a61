-- ===== src/Level/Get.antt =====
-- `Level::get` of src/level.rs, and the call of `SortedTable::get` of src/sorted_table/mod.rs in it. What
-- a table holds is kept by its identifier, as its files are, and `read` is the search of the table of an
-- identifier; the database gives it that of SortedTable/Lookup.
use lsm_rs.Prelude.{
  ℕ, List, [], ◌∷◌, Option, none, some, Bool, true, false, ◌&&◌, ◌==◌, if◌then◌else◌,
}
use lsm_rs.Key.{Key}
use lsm_rs.Outcome.{Outcome, ok, ◌>>=◌}
use lsm_rs.Memtable.{MemtableEntry}
use lsm_rs.SortedTable.{SortedTable, count_seek, has_maximum_seeks}
use lsm_rs.Level.{Level, invalid_table_id}

-- What the loop over the tables has found and changed.
pub record Search : Type 0 where
  pub tables : List SortedTable
  pub seek_id : ℕ
  pub triggered : Bool
  pub result : Option MemtableEntry

module _ (read : ℕ → Key → Outcome (Option MemtableEntry)) where
  -- A round of the loop, after those for the newer tables. `compare_exchange` sets the identifier where
  -- there is none.
  unfoldable pub visit : Bool → SortedTable → Key → Search → Outcome Search
  visit do_seek t key s = elim s.result [
    | some e ↦ ok (record s { tables = t ∷ s.tables })
    | none ↦
        let t' = count_seek t in
        let trigger = do_seek && has_maximum_seeks t' && (s.seek_id == invalid_table_id) in
        read t.identifier key >>= λ r. ok (record {
          tables = t' ∷ s.tables;
          seek_id = if trigger then t.identifier else s.seek_id;
          triggered = if trigger then true else s.triggered;
          result = r;
        })
  ]

  -- "Iterate from back to front (newest to oldest)"
  unfoldable pub search_tables : Bool → List SortedTable → ℕ → Key → Outcome Search
  search_tables do_seek [] seek_id key =
      ok (record { tables = []; seek_id = seek_id; triggered = false; result = none })
  search_tables do_seek (t ∷ tables) seek_id key =
      search_tables do_seek tables seek_id key >>= visit do_seek t key

  unfoldable pub get : Level → Key → Outcome (Level × Bool × Option MemtableEntry)
  get level key =
      search_tables level.do_seek_based_compaction level.tables level.seek_based_compaction key
      >>= λ s. ok (
        record level { tables = s.tables; seek_based_compaction = s.seek_id },
        s.triggered,
        s.result,
      )
