-- ===== src/Database/Refines.antt =====
-- The database of src/logic.rs refines a map from keys to their latest operation, and keeps its invariant.
use lsm_rs.Prelude.{
  ℕ, ◌≤◌, ◌≡◌, refl, ap, sym, subst, ◌∙◌, List, [], ◌∷◌, Option, none, some, Bool, true, false,
  length, length-append, Bool-cases, inl, inr, arith, All,
}
use lsm_rs.Key.{Key}
use lsm_rs.Memtable.{Memtable, is_full}
use lsm_rs.Memtable.Laws as Laws
use lsm_rs.Memtable.Client.{latest}
use lsm_rs.Memtable.Replay.{apply_ops}
use lsm_rs.WriteBatch.Op.{WriteOp}
use lsm_rs.Outcome.{Outcome, ok, Returns, Returns-imp, IfOk, IfOk-bind, IfOk-any, IfOk-imp}
use lsm_rs.Level.{Level}
use lsm_rs.Wal.Status.{LogStatus, request_sync, store}
use lsm_rs.DataBlock.Builder.{BloomFilter}
use lsm_rs.Params.{Params}
use lsm_rs.Database.{DbLogic, idle, storing, syncing, get}
use lsm_rs.Database.Write.{start_write, apply_batch, after_store}
use lsm_rs.Database.Versions.{
  pending_version, version, get_lem, get_kept, HasRead, answer_of, on_disk, level_ids, AllRead,
}
use lsm_rs.Database.Steps.{
  Client, Step, client, Reach, start, step, reads, starts, stored, synced, pushed, flush_starts,
  flush_ends, log_moves, IsValid, HaveFiles, HasMemtable, PendingIsValid, applied,
}
use lsm_rs.Database.Writing.{latest-append}
use lsm_rs.Database.Keeping.{IsKept, push-IsKept, apply-IsKept, wait-IsKept, flush_end-IsValid}
use lsm_rs.Database.Flushing.{start_flush_lem, IsFlushed}

only_one :
    (all imms : List (ℕ × Memtable)) (p : ℕ × Memtable)
    → all ≡ p ∷ imms
    → length all ≤ 1
    → all ≡ p ∷ []
only_one all [] p e h = e
only_one all (q ∷ imms) p e h = absurd (omega (arith, ap length e, h))

module _ (F : BloomFilter) (params : Params) where
  levels-IsKept :
      (db : DbLogic F.Bloom) (levels : List Level)
      → IsValid db
      → level_ids levels ≡ level_ids db.levels
      → IsKept F db [] (record db { levels = levels })
  unfolding version latest
  levels-IsKept db levels v same = record {
    valid = record {
      memtable = v.memtable;
      imms = v.imms;
      pending = v.pending;
      few = v.few;
      files = subst (HaveFiles db.indexes db.manifest.next_table_id) (sym same) v.files;
      flush = v.flush;
    };
    seq = omega arith;
    disk = ap (λ ids. (db.indexes, db.blocks, ids)) same;
    versions = λ key. rw same refl;
  }

  read-IsKept :
      (db : DbLogic F.Bloom) (key : Key)
      → IsValid db
      → IfOk (get F db key) (λ r. IsKept F db [] r.0)
  read-IsKept db key v =
      IfOk-imp (get F db key) (λ r. HasRead F db r.0) _ (get_kept F db key)
        (λ r h.
          let (levels, e, same) = h in
          subst (IsKept F db []) (sym e) (levels-IsKept db levels v same))

  applied-apply_batch :
      (db : DbLogic F.Bloom) (ops : List WriteOp) (pos : ℕ)
      → applied (apply_batch params db ops pos).phase ops ≡ ops
  unfolding apply_batch
  applied-apply_batch db ops pos =
      elim (Bool-cases (is_full (apply_ops db.memtable ops) params.max_memtable_size)) [
        | inl e ↦ rw (e, apply_batch) refl
        | inr e ↦ rw (e, apply_batch) refl
      ]

  -- The batch, with the log changed before.
  log_apply-IsKept :
      (db : DbLogic F.Bloom) (wal : LogStatus) (ops : List WriteOp) (pos : ℕ)
      → IsValid db
      → ((key : Key) → pending_version db.phase key ≡ none)
      → IsKept F db
          (applied (apply_batch params (record db { wal = wal }) ops pos).phase ops)
          (apply_batch params (record db { wal = wal }) ops pos)
  unfolding version
  log_apply-IsKept db wal ops pos v free =
      rw (applied-apply_batch (record db { wal = wal }) ops pos)
        (record { valid = kept.valid; seq = kept.seq; disk = kept.disk; versions = kept.versions })
    where
      v' : IsValid (record db { wal = wal })
      v' = record {
        memtable = v.memtable;
        imms = v.imms;
        pending = v.pending;
        few = v.few;
        files = v.files;
        flush = v.flush;
      }

      kept :
          IsKept F
            (record db { wal = wal })
            ops
            (apply_batch params (record db { wal = wal }) ops pos)
      kept = apply-IsKept F params (record db { wal = wal }) ops pos v' free

  stored-IsKept :
      (db : DbLogic F.Bloom) (ops : List WriteOp) (sync : Bool) (pos : ℕ)
      → IsValid db
      → ((key : Key) → pending_version db.phase key ≡ none)
      → IfOk
          (after_store params db ops sync pos)
          (λ after. IsKept F db (applied after.phase ops) after)
  unfolding after_store pending_version PendingIsValid
  stored-IsKept db ops false pos v free = log_apply-IsKept db db.wal ops pos v free
  stored-IsKept db ops true pos v free =
      IfOk-bind (request_sync db.wal) _ (λ _. Unit) _ (IfOk-any (request_sync db.wal))
        (λ r _. synced_or_not r.0 r.1)
    where
      synced_or_not :
          (wal : LogStatus) (last : Option ℕ)
          → IfOk
              (elim last as (λ x. Outcome (DbLogic F.Bloom)) [
                | none ↦ ok (apply_batch params (record db { wal = wal }) ops pos)
                | some last_pos ↦ ok (record db { wal = wal; phase = syncing ops pos last_pos })
              ])
              (λ after. IsKept F db (applied after.phase ops) after)
      synced_or_not wal none = log_apply-IsKept db wal ops pos v free
      synced_or_not wal (some last) =
          wait-IsKept F params db wal (syncing ops pos last) v free (λ key. refl) tt

  -- What every step of the clients keeps.
  Client-IsKept :
      (db : DbLogic F.Bloom) {ops : List WriteOp} {after : DbLogic F.Bloom}
      → IsValid db
      → Client F params db ops after
      → IsKept F db ops after
  unfolding start_write pending_version PendingIsValid version latest
  Client-IsKept db v (reads key r e found) =
      subst (λ o. IfOk o (λ x. IsKept F db [] x.0)) found (read-IsKept db key v)
  Client-IsKept db v (starts ops sync e) =
      wait-IsKept F params db (store db.wal ops).0 (storing ops sync (store db.wal ops).1) v
        (λ key. rw e refl) (λ key. refl) tt
  Client-IsKept db v (stored ops sync pos after e done r) =
      subst (λ o. IfOk o (λ a. IsKept F db (applied a.phase ops) a)) r
        (stored-IsKept db ops sync pos v (λ key. rw e refl))
  Client-IsKept db v (synced ops pos last e done) =
      apply-IsKept F params db ops pos v (λ key. rw e refl)
  Client-IsKept db v (pushed pos imm e k) = push-IsKept F params db pos imm v e k
  Client-IsKept db v (log_moves wal) = record {
    valid = record {
      memtable = v.memtable;
      imms = v.imms;
      pending = v.pending;
      few = v.few;
      files = v.files;
      flush = v.flush;
    };
    seq = omega arith;
    disk = refl;
    versions = λ key. refl;
  }

  Reach-IsKept :
      (db : DbLogic F.Bloom) {after : DbLogic F.Bloom} {ops : List WriteOp}
      → IsValid db
      → Reach (Client F params) db ops after
      → IsKept F db ops after
  unfolding latest
  Reach-IsKept db v start = record {
    valid = v;
    seq = omega arith;
    disk = refl;
    versions = λ key. refl;
  }
  Reach-IsKept db v (step {ops} {more} {mid} r s) =
      let before = Reach-IsKept db v r in
      let last = Client-IsKept mid before.valid s in
      record {
        valid = last.valid;
        seq = omega (arith, last.seq, before.seq, length-append ops more);
        disk = last.disk ∙ before.disk;
        versions = λ key.
            last.versions key
            ∙ ap (λ o. latest key more mid.memtable.next_seq_number o) (before.versions key)
            ∙ sym (
                latest-append key ops more db.memtable.next_seq_number mid.memtable.next_seq_number
                  (version F db key) before.seq);
      }

  -- From a valid state on, whose tables can be searched for a key without a panic, after any sequence of
  -- the steps of reads, writes and the log, with no flush or compaction among them, `get` of the key
  -- returns where no write holds the memtable. It finds what the last operation on the key put, nothing
  -- where that was a deletion, and without an operation on it, what the first state held.
  pub get-latest :
      (db after : DbLogic F.Bloom) (ops : List WriteOp) (key : Key)
      → IsValid db
      → AllRead F (on_disk db) key
      → Reach (Client F params) db ops after
      → after.phase ≡ idle
      → Returns
          (get F after key)
          (λ x. x.2 ≡ answer_of (latest key ops db.memtable.next_seq_number (version F db key)))
  get-latest db after ops key v readable r e =
      let kept = Reach-IsKept db v r in
      Returns-imp (get F after key) (λ x. x.2 ≡ answer_of (version F after key)) _
        (get_lem F after key e (subst (λ d. AllRead F d key) (sym kept.disk) readable))
        (λ x h. h ∙ ap answer_of (kept.versions key))

  flush_start-IsValid :
      (db : DbLogic F.Bloom) (offset : ℕ) (mem : Memtable) (imms : List (ℕ × Memtable))
      (after : DbLogic F.Bloom)
      → IsValid db
      → db.imm_memtables ≡ (offset, mem) ∷ imms
      → IsFlushed db offset after
      → IsValid after
  unfolding HasMemtable
  flush_start-IsValid db offset mem imms after v e h = record {
    memtable = subst Laws.IsValid (sym h.memtable) v.memtable;
    imms = subst (λ l. All (λ p. Laws.IsValid p.1) l) (sym h.imms) v.imms;
    pending = subst PendingIsValid (sym h.phase) v.pending;
    few = subst (λ l. length l ≤ 1) (sym h.imms) v.few;
    files = h.files;
    flush = rw (h.flushing, h.imms, only_one db.imm_memtables imms (offset, mem) e v.few) refl;
  }

  step-IsValid :
      (db : DbLogic F.Bloom) {ops : List WriteOp} {after : DbLogic F.Bloom}
      → IsValid db
      → Step F params db ops after
      → IsValid after
  step-IsValid db v (client s) = (Client-IsKept db v s).valid
  step-IsValid db v (flush_starts offset mem imms after free e room r) =
      flush_start-IsValid db offset mem imms after v e (
        subst (λ o. IfOk o (IsFlushed db offset)) r
          (start_flush_lem F params db mem v.files room offset))
  step-IsValid db v (flush_ends offset after e done r) =
      subst (λ o. IfOk o IsValid) r (flush_end-IsValid F params db offset v e)

  -- From a valid state on, in every state that the steps of reads, writes, flushes and the log reach, there
  -- is at most one immutable memtable, the memtables are sorted and count their bytes, the tables of the
  -- levels have index files and identifiers below the next one, and a flush that waits for the log has
  -- the one immutable memtable. A flush starts where the counter of tables does not wrap around.
  pub Reach-IsValid :
      (db after : DbLogic F.Bloom) (ops : List WriteOp)
      → IsValid db
      → Reach (Step F params) db ops after
      → IsValid after
  Reach-IsValid db after ops v start = v
  Reach-IsValid db after ops v (step {mid = mid} r s) =
      step-IsValid mid (Reach-IsValid db mid _ v r) s
