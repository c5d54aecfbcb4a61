-- ===== src/Database/Keeping.antt =====
-- The steps of the database of src/logic.rs one by one: each keeps the invariant, and of the map from
-- keys to versions all but what it writes.
use lsm_rs.Prelude.{
  ℕ, ◌+◌, ◌≤◌, ◌≡◌, refl, ap, sym, subst, List, [], ◌∷◌, ◌++◌, Option, none, some, length,
  Bool-cases, inl, inr, arith, All,
}
use lsm_rs.Key.{Key}
use lsm_rs.Memtable.{Memtable, is_full, take, new}
use lsm_rs.Memtable.Upsert.{total}
use lsm_rs.Memtable.Laws as Laws
use lsm_rs.Memtable.Laws.{put_lem, delete_lem}
use lsm_rs.Memtable.Client.{latest, apply_op-IsValid, apply_ops-IsValid}
use lsm_rs.Memtable.Replay.{apply_ops, apply_op}
use lsm_rs.WriteBatch.Op.{WriteOp, put, delete}
use lsm_rs.Outcome.{Outcome, ok, panicked, IfOk, IfOk-bind}
use lsm_rs.Wal.Status.{LogStatus}
use lsm_rs.Manifest.Metadata.{DatabaseMetadata, set_log_offset}
use lsm_rs.DataBlock.Builder.{BloomFilter}
use lsm_rs.Params.{Params}
use lsm_rs.Database.{DbLogic, Phase, waiting}
use lsm_rs.Database.Write.{apply_batch, push_imm}
use lsm_rs.Database.Flush.{finish_flush}
use lsm_rs.Database.Versions.{pending_version, version, imm_version, on_disk, level_ids}
use lsm_rs.Database.Steps.{IsValid, HaveFiles, HasMemtable, PendingIsValid}
use lsm_rs.Database.Writing.{apply_batch-version}

-- What a step keeps: the invariant, and the map, with the operations that the step wrote.
pub record IsKept (F : BloomFilter) (db : DbLogic F.Bloom) (ops : List WriteOp)
    (after : DbLogic F.Bloom) : Type 0 where
  pub valid : IsValid after
  pub seq : after.memtable.next_seq_number ≡ db.memtable.next_seq_number + length ops
  pub disk : on_disk after ≡ on_disk db
  pub versions :
      (key : Key)
      → version F after key ≡ latest key ops db.memtable.next_seq_number (version F db key)

-- A flush that waits has an immutable memtable.
HasMemtable-none :
    (f : Option ℕ) (imms imms' : List (ℕ × Memtable))
    → imms ≡ []
    → HasMemtable f imms
    → HasMemtable f imms'
unfolding HasMemtable
HasMemtable-none none imms imms' e h = tt
HasMemtable-none (some offset) imms imms' e h = absurd (omega (arith, h, ap length e))

apply_op-seq :
    (m : Memtable) (op : WriteOp)
    → Laws.IsValid m
    → (apply_op m op).next_seq_number ≡ m.next_seq_number + 1
apply_op-seq m (put key v) h = ap (λ t. t.next_seq_number) (put_lem m key v h)
apply_op-seq m (delete key) h = ap (λ t. t.next_seq_number) (delete_lem m key h)

apply_ops-seq :
    (m : Memtable) (ops : List WriteOp)
    → Laws.IsValid m
    → (apply_ops m ops).next_seq_number ≡ m.next_seq_number + length ops
unfolding apply_ops
apply_ops-seq m [] h = omega arith
apply_ops-seq m (op ∷ ops) h =
    omega (arith, apply_ops-seq (apply_op m op) ops (apply_op-IsValid m op h), apply_op-seq m op h)

set_log_kept :
    (meta : DatabaseMetadata) (offset : ℕ)
    → IfOk (set_log_offset meta offset) (λ m. m.next_table_id ≡ meta.next_table_id)
unfolding set_log_offset
set_log_kept meta offset = ground arith

module _ (F : BloomFilter) (params : Params) where
  pub push-IsKept :
      (db : DbLogic F.Bloom) (pos : ℕ) (imm : Memtable)
      → IsValid db
      → db.phase ≡ waiting pos imm
      → db.imm_memtables ≡ []
      → IsKept F db [] (push_imm db pos imm)
  unfolding push_imm latest version PendingIsValid imm_version pending_version
  push-IsKept db pos imm v e k = record {
    valid = record {
      memtable = v.memtable;
      imms =
          subst (λ l. All (λ p. Laws.IsValid p.1) (l ++ (pos, imm) ∷ [])) (sym k)
            (subst PendingIsValid e v.pending, tt);
      pending = tt;
      few = subst (λ l. length (l ++ (pos, imm) ∷ []) ≤ 1) (sym k) (omega arith);
      files = v.files;
      flush = HasMemtable-none db.flushing db.imm_memtables _ k v.flush;
    };
    seq = omega arith;
    disk = refl;
    versions = λ key. rw (e, k) refl;
  }

  pub apply-IsKept :
      (db : DbLogic F.Bloom) (ops : List WriteOp) (pos : ℕ)
      → IsValid db
      → ((key : Key) → pending_version db.phase key ≡ none)
      → IsKept F db ops (apply_batch params db ops pos)
  unfolding apply_batch take new PendingIsValid total
  apply-IsKept db ops pos v free = record {
    valid = valid;
    seq = seq;
    disk = disk;
    versions = λ key. apply_batch-version F params db ops pos key v.memtable (free key);
  }
    where
      m : Memtable
      m = apply_ops db.memtable ops

      valid : IsValid (apply_batch params db ops pos)
      valid = elim (Bool-cases (is_full m params.max_memtable_size)) [
        | inl e ↦
            rw (e, apply_batch)
              (record {
                memtable = record { sorted = tt; sized = refl };
                imms = v.imms;
                pending = apply_ops-IsValid ops db.memtable v.memtable;
                few = v.few;
                files = v.files;
                flush = v.flush;
              })
        | inr e ↦
            rw (e, apply_batch)
              (record {
                memtable = apply_ops-IsValid ops db.memtable v.memtable;
                imms = v.imms;
                pending = tt;
                few = v.few;
                files = v.files;
                flush = v.flush;
              })
      ]

      disk : on_disk (apply_batch params db ops pos) ≡ on_disk db
      disk = elim (Bool-cases (is_full m params.max_memtable_size)) [
        | inl e ↦ rw (e, apply_batch) refl
        | inr e ↦ rw (e, apply_batch) refl
      ]

      seq :
          (apply_batch params db ops pos).memtable.next_seq_number
          ≡ db.memtable.next_seq_number + length ops
      seq = elim (Bool-cases (is_full m params.max_memtable_size)) [
        | inl e ↦ rw (e, apply_batch) (apply_ops-seq db.memtable ops v.memtable)
        | inr e ↦ rw (e, apply_batch) (apply_ops-seq db.memtable ops v.memtable)
      ]

  -- A change of the log or of the phase alone.
  pub wait-IsKept :
      (db : DbLogic F.Bloom) (wal : LogStatus) (phase : Phase)
      → IsValid db
      → ((key : Key) → pending_version db.phase key ≡ none)
      → ((key : Key) → pending_version phase key ≡ none)
      → PendingIsValid phase
      → IsKept F db [] (record db { wal = wal; phase = phase })
  unfolding version latest
  wait-IsKept db wal phase v free free' p = record {
    valid = record {
      memtable = v.memtable;
      imms = v.imms;
      pending = p;
      few = v.few;
      files = v.files;
      flush = v.flush;
    };
    seq = omega arith;
    disk = refl;
    versions = λ key. rw (free key, free' key) refl;
  }

  finish_with :
      (db : DbLogic F.Bloom) (offset : ℕ) (meta : DatabaseMetadata) (imms : List (ℕ × Memtable))
      → IsValid db
      → HasMemtable (some offset) imms
      → meta.next_table_id ≡ db.manifest.next_table_id
      → IfOk
          (elim imms as (λ x. Outcome (DbLogic F.Bloom)) [
            | [] ↦ panicked
            | imm ∷ imms ↦ ok (record db { manifest = meta; imm_memtables = imms; flushing = none })
          ])
          IsValid
  unfolding HasMemtable
  finish_with db offset meta [] v c same = tt
  finish_with db offset meta (imm ∷ x ∷ imms) v c same = absurd (omega (arith, c))
  finish_with db offset meta (imm ∷ []) v c same = record {
    memtable = v.memtable;
    imms = tt;
    pending = v.pending;
    few = omega arith;
    files = subst (λ n. HaveFiles db.indexes n (level_ids db.levels)) (sym same) v.files;
    flush = tt;
  }

  pub flush_end-IsValid :
      (db : DbLogic F.Bloom) (offset : ℕ)
      → IsValid db
      → db.flushing ≡ some offset
      → IfOk (finish_flush F db offset) IsValid
  unfolding finish_flush
  flush_end-IsValid db offset v e =
      IfOk-bind (set_log_offset db.manifest offset) _
        (λ m. m.next_table_id ≡ db.manifest.next_table_id) _ (set_log_kept db.manifest offset)
        (λ meta same.
          finish_with db offset meta db.imm_memtables v
            (subst (λ f. HasMemtable f db.imm_memtables) e v.flush) same)
