-- ===== src/Database.antt =====
-- src/logic.rs: `DbLogic` with its memtable, immutable memtables and levels, and the operations `get`,
-- `write_opts` and `do_memtable_compaction`. A write and a flush wait for the log and for each other; each
-- is cut where it waits, and `phase` and `flushing` say where they stand.
pub mod Write
pub mod Flush
pub mod Versions
pub mod Steps
pub mod Writing
pub mod Flushing
pub mod Keeping
pub mod Refines
pub mod Tests
use lsm_rs.Prelude.{
  ℕ, ◌+◌, ◌*◌, ◌/◌, ◌%◌, max, List, [], ◌∷◌, ◌++◌, Option, none, some, Bool, true, false, ◌||◌,
  ◌==◌, if◌then◌else◌, length,
}
use lsm_rs.Bytes.{u32_mod}
use lsm_rs.Key.{Key, Value}
use lsm_rs.EntryType.{put, delete}
use lsm_rs.Memtable
use lsm_rs.Memtable.{Memtable, MemtableEntry, Entries, get_type, is_full, take, get_min_max_key}
use lsm_rs.Memtable.Replay.{apply_ops}
use lsm_rs.WriteBatch.Op.{WriteOp}
use lsm_rs.Outcome.{Outcome, ok, panicked, ◌>>=◌}
use lsm_rs.SortedTable.{SortedTable}
use lsm_rs.Level
use lsm_rs.Level.{Level, add_l0_table}
use lsm_rs.Level.Get
use lsm_rs.Manifest.Metadata.{
  DatabaseMetadata, generate_next_table_id, set_seq_number_offset, set_log_offset,
}
use lsm_rs.Manifest.Tables.{update_table_set}
use lsm_rs.Wal.Status.{
  LogStatus, store, store_done, request_sync, sync_done, request_offset, offset_done,
}
use lsm_rs.DataBlock.{DataBlock}
use lsm_rs.DataBlock.Builder.{BloomFilter}
use lsm_rs.SortedTable.Lookup as Lookup

-- Where the write that has the lock of the memtable stands: it waits for `store`, for `sync`, or for
-- room among the immutable memtables.
pub data Phase : Type 0 where
  idle : Phase
  storing : List WriteOp → Bool → ℕ → Phase
  syncing : List WriteOp → (wal_offset last_pos : ℕ) → Phase
  waiting : ℕ → Memtable → Phase

-- `indexes` are the index files of the tables by their identifiers, and `blocks` the data blocks; `flushing`
-- is the log offset that a flush waits for.
pub record DbLogic (B : Type 0) : Type 0 where
  pub memtable : Memtable
  pub imm_memtables : List (ℕ × Memtable)
  pub levels : List Level
  pub indexes : ℕ → Option (List ℕ)
  pub blocks : List (ℕ × DataBlock B)
  pub manifest : DatabaseMetadata
  pub level_files : List (List ℕ)
  pub wal : LogStatus
  pub phase : Phase
  pub flushing : Option ℕ

-- The two branches of each `match entry.get_type()` in `get`.
unfoldable pub answer : MemtableEntry → Option MemtableEntry
answer e = elim (get_type e) [ put ↦ some e | delete ↦ none ]

-- `imm_mems.iter().rev()`
unfoldable pub get_imm : List (ℕ × Memtable) → Key → Option MemtableEntry
get_imm [] key = none
get_imm ((offset, imm) ∷ imms) key = elim (get_imm imms key) [
  | some e ↦ some e
  | none ↦ Memtable.get imm key
]

-- The loop over the levels.
unfoldable pub get_levels :
    (ℕ → Key → Outcome (Option MemtableEntry))
    → List Level
    → Key
    → Outcome (List Level × Bool × Option MemtableEntry)
get_levels read [] key = ok ([], false, none)
get_levels read (level ∷ levels) key = Level.Get.get read level key >>= λ r. elim r.2 [
  | some e ↦ ok (r.0 ∷ levels, r.1, answer e)
  | none ↦ get_levels read levels key >>= λ s. ok (r.0 ∷ s.0, r.1 || s.1, s.2)
]

module _ (F : BloomFilter) where
  -- The search of the table that the identifier names.
  unfoldable pub read_table :
      (ℕ → Option (List ℕ))
      → List (ℕ × DataBlock F.Bloom)
      → ℕ
      → Key
      → Outcome (Option MemtableEntry)
  read_table indexes blocks id key = elim (indexes id) [
    | none ↦ panicked
    | some index ↦ Lookup.get F.check blocks index key
  ]

  -- The flag says whether a compaction should be triggered. The locks of the memtable, of the immutable
  -- memtables and of the levels are taken one after the other; here the call is one step.
  unfoldable pub get :
      DbLogic F.Bloom → Key → Outcome (DbLogic F.Bloom × Bool × Option MemtableEntry)
  get db key = elim (Memtable.get db.memtable key) [
    | some e ↦ ok (db, false, answer e)
    | none ↦ elim (get_imm db.imm_memtables key) [
      | some e ↦ ok (db, false, answer e)
      | none ↦ get_levels (read_table db.indexes db.blocks) db.levels key >>= λ r.
          ok (record db { levels = r.0 }, r.1, r.2)
    ]
  ]
