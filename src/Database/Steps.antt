-- ===== src/Database/Steps.antt =====
-- The tasks around `DbLogic` of src/logic.rs as steps between the points where they wait: reads, one write
-- at a time, which holds the lock of the memtable, one flush, and the log, which may do anything to its
-- own state. The steps of a flush are apart from the others. Compactions between levels are not among them.
use lsm_rs.Prelude.{
  ℕ, ◌+◌, ◌<◌, ◌≤◌, ◌≡◌, List, [], ◌∷◌, ◌++◌, Option, none, some, Bool, true, length, All,
}
use lsm_rs.Bytes.{u64_mod}
use lsm_rs.Key.{Key}
use lsm_rs.Memtable.{Memtable, MemtableEntry}
use lsm_rs.Memtable.Laws as Laws
use lsm_rs.WriteBatch.Op.{WriteOp}
use lsm_rs.Outcome.{ok}
use lsm_rs.Wal.Status.{LogStatus, store_done, sync_done, offset_done}
use lsm_rs.DataBlock.Builder.{BloomFilter}
use lsm_rs.Params.{Params}
use lsm_rs.Database.{DbLogic, Phase, idle, storing, syncing, waiting, get}
use lsm_rs.Database.Write.{start_write, apply_batch, after_store, push_imm}
use lsm_rs.Database.Flush.{start_flush, finish_flush}
use lsm_rs.Database.Versions.{level_ids}

-- The operations that are in the memtable after the wait in `store`: none while `sync` is waited for.
abbrev pub applied : Phase → List WriteOp → List WriteOp
applied (syncing ops pos last) written = []
applied idle written = written
applied (storing ops sync pos) written = written
applied (waiting pos imm) written = written

module _ (F : BloomFilter) (params : Params) where
  -- The steps of reads, of the write and of the log.
  pub data Client (db : DbLogic F.Bloom) : List WriteOp → DbLogic F.Bloom → Type 0 where
    reads :
        (key : Key) (r : DbLogic F.Bloom × Bool × Option MemtableEntry)
        → db.phase ≡ idle
        → get F db key ≡ ok r
        → Client db [] r.0
    starts :
        (ops : List WriteOp) (sync : Bool)
        → db.phase ≡ idle
        → Client db [] (start_write db ops sync)
    stored :
        (ops : List WriteOp) (sync : Bool) (pos : ℕ) (after : DbLogic F.Bloom)
        → db.phase ≡ storing ops sync pos
        → store_done db.wal pos ≡ true
        → after_store params db ops sync pos ≡ ok after
        → Client db (applied after.phase ops) after
    synced :
        (ops : List WriteOp) (pos last : ℕ)
        → db.phase ≡ syncing ops pos last
        → sync_done db.wal last ≡ true
        → Client db ops (apply_batch params db ops pos)
    pushed :
        (pos : ℕ) (imm : Memtable)
        → db.phase ≡ waiting pos imm
        → db.imm_memtables ≡ []
        → Client db [] (push_imm db pos imm)
    log_moves : (wal : LogStatus) → Client db [] (record db { wal = wal })

  -- All steps.
  pub data Step (db : DbLogic F.Bloom) : List WriteOp → DbLogic F.Bloom → Type 0 where
    client :
        {ops : List WriteOp} {after : DbLogic F.Bloom} → Client db ops after → Step db ops after
    flush_starts :
        (offset : ℕ) (mem : Memtable) (imms : List (ℕ × Memtable)) (after : DbLogic F.Bloom)
        → db.flushing ≡ none
        → db.imm_memtables ≡ (offset, mem) ∷ imms
        → db.manifest.next_table_id + 1 < u64_mod
        → start_flush F params db offset mem ≡ ok after
        → Step db [] after
    flush_ends :
        (offset : ℕ) (after : DbLogic F.Bloom)
        → db.flushing ≡ some offset
        → offset_done db.wal offset ≡ true
        → finish_flush F db offset ≡ ok after
        → Step db [] after

-- Any number of steps, with all operations that they wrote.
pub data Reach {B : Type 0} (R : DbLogic B → List WriteOp → DbLogic B → Type 0) (db : DbLogic B)
    : List WriteOp → DbLogic B → Type 0 where
  start : Reach R db [] db
  step :
      {ops more : List WriteOp} {mid after : DbLogic B}
      → Reach R db ops mid
      → R mid more after
      → Reach R db (ops ++ more) after

-- The memtable that a write hands over is valid.
unfoldable pub PendingIsValid : Phase → Type 0
PendingIsValid (waiting pos imm) = Laws.IsValid imm
PendingIsValid idle = Unit
PendingIsValid (storing ops sync pos) = Unit
PendingIsValid (syncing ops pos last) = Unit

-- The tables of the levels have identifiers that were given out, and index files.
abbrev pub HasFile : (ℕ → Option (List ℕ)) → ℕ → ℕ → Type 0
HasFile indexes n id = (id < n) × ((index : List ℕ) × (indexes id ≡ some index))

abbrev pub HaveFiles : (ℕ → Option (List ℕ)) → ℕ → List (List ℕ) → Type 0
HaveFiles indexes n ids = All (All (HasFile indexes n)) ids

-- A flush that waits for the log has the one immutable memtable, which is the one that it drops.
unfoldable pub HasMemtable : Option ℕ → List (ℕ × Memtable) → Type 0
HasMemtable none imms = Unit
HasMemtable (some offset) imms = length imms ≡ 1

-- The invariant of the steps.
pub record IsValid {B : Type 0} (db : DbLogic B) : Type 0 where
  pub memtable : Laws.IsValid db.memtable
  pub imms : All (λ p. Laws.IsValid p.1) db.imm_memtables
  pub pending : PendingIsValid db.phase
  pub few : length db.imm_memtables ≤ 1
  pub files : HaveFiles db.indexes db.manifest.next_table_id (level_ids db.levels)
  pub flush : HasMemtable db.flushing db.imm_memtables
