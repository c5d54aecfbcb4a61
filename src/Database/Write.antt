-- ===== src/Database/Write.antt =====
-- `write_opts` of src/logic.rs, cut where it waits.
use lsm_rs.Prelude.{ℕ, List, [], ◌∷◌, ◌++◌, none, some, Bool, if◌then◌else◌}
use lsm_rs.Memtable.{Memtable, is_full, take}
use lsm_rs.Memtable.Replay.{apply_ops}
use lsm_rs.WriteBatch.Op.{WriteOp}
use lsm_rs.Outcome.{Outcome, ok, ◌>>=◌}
use lsm_rs.Wal.Status.{store, request_sync}
use lsm_rs.Params.{Params}
use lsm_rs.Database.{idle, storing, syncing, waiting, DbLogic}

module _ {C : Type 0} where
  -- `write_opts` up to the wait in `store`.
  unfoldable pub start_write : DbLogic C → List WriteOp → Bool → DbLogic C
  start_write db ops sync =
      let (wal, end_pos) = store db.wal ops in
      record db { wal = wal; phase = storing ops sync end_pos }

  -- From the loop over the batch on, up to the wait for `imm_memtables`.
  unfoldable pub apply_batch : Params → DbLogic C → List WriteOp → ℕ → DbLogic C
  apply_batch params db ops wal_offset =
      let memtable = apply_ops db.memtable ops in
      if is_full memtable params.max_memtable_size
      then (let (imm, fresh) = take memtable memtable.next_seq_number in
          record db { memtable = fresh; phase = waiting wal_offset imm })
      else record db { memtable = memtable; phase = idle }

  -- After the wait in `store`.
  unfoldable pub after_store : Params → DbLogic C → List WriteOp → Bool → ℕ → Outcome (DbLogic C)
  after_store params db ops sync wal_offset =
      if sync
      then (request_sync db.wal >>= λ r. elim r.1 [
        | none ↦ ok (apply_batch params (record db { wal = r.0 }) ops wal_offset)
        | some last_pos ↦ ok (record db { wal = r.0; phase = syncing ops wal_offset last_pos })
      ])
      else ok (apply_batch params db ops wal_offset)

  -- `imm_mems.push_back((wal_offset, imm))`
  unfoldable pub push_imm : DbLogic C → ℕ → Memtable → DbLogic C
  push_imm db wal_offset imm = record db {
    imm_memtables = db.imm_memtables ++ (wal_offset, imm) ∷ [];
    phase = idle;
  }
