-- ===== src/Database/Flush.antt =====
-- `do_memtable_compaction` of src/logic.rs, cut where it waits for the log.
use lsm_rs.Prelude.{ℕ, List, [], ◌∷◌, Option, none, some, ◌==◌, if◌then◌else◌}
use lsm_rs.Memtable.{Memtable, get_min_max_key}
use lsm_rs.Outcome.{Outcome, ok, panicked, ◌>>=◌}
use lsm_rs.SortedTable.{SortedTable}
use lsm_rs.Level.{Level, add_l0_table}
use lsm_rs.Manifest.Metadata.{generate_next_table_id, set_seq_number_offset, set_log_offset}
use lsm_rs.Manifest.Tables.{update_table_set}
use lsm_rs.Wal.Status.{request_offset}
use lsm_rs.Params.{Params}
use lsm_rs.DataBlock.Builder.{BloomFilter}
use lsm_rs.SortedTable.Builder as Builder
use lsm_rs.SortedTable.Builder.{add_entries}
use lsm_rs.Database.{DbLogic}

unfoldable pub add_to_l0 : List Level → SortedTable → Outcome (List Level)
add_to_l0 [] table = panicked
add_to_l0 (l0 ∷ levels) table = add_l0_table l0 table >>= λ l0'. ok (l0' ∷ levels)

-- The index file that was written.
unfoldable pub write_index : (ℕ → Option (List ℕ)) → ℕ → List ℕ → ℕ → Option (List ℕ)
write_index indexes id index j = if j == id then some index else indexes j

module _ (F : BloomFilter) where
  -- With the oldest immutable memtable, up to the wait in `wal.set_offset`.
  unfoldable pub start_flush : Params → DbLogic F.Bloom → ℕ → Memtable → Outcome (DbLogic F.Bloom)
  start_flush params db log_offset mem = elim (get_min_max_key mem) [
    | none ↦ panicked
    | some (min_key, max_key) ↦ do
      let (table_id, meta) = generate_next_table_id db.manifest
      added ←
          add_entries F params (Builder.new F params table_id min_key max_key)
            (record { manifest = meta; blocks = db.blocks }) mem.entries
      built ← Builder.finish F params added.0 added.1
      levels ← add_to_l0 db.levels built.0.0
      meta' ← set_seq_number_offset built.1.manifest mem.next_seq_number
      level_files ← update_table_set db.level_files ((0, table_id) ∷ []) []
      wal ← request_offset db.wal log_offset
      ok (record db {
        levels = levels;
        indexes = write_index db.indexes table_id built.0.1;
        blocks = built.1.blocks;
        manifest = meta';
        level_files = level_files;
        wal = wal;
        flushing = some log_offset;
      })
  ]

  -- After the wait.
  unfoldable pub finish_flush : DbLogic F.Bloom → ℕ → Outcome (DbLogic F.Bloom)
  finish_flush db log_offset = set_log_offset db.manifest log_offset >>= λ meta.
      elim db.imm_memtables [
        | [] ↦ panicked
        | imm ∷ imms ↦ ok (record db { manifest = meta; imm_memtables = imms; flushing = none })
      ]
