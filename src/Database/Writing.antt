-- ===== src/Database/Writing.antt =====
-- What a write of src/logic.rs does to the versions that the database holds.
use lsm_rs.Prelude.{
  ℕ, ◌+◌, ◌≡◌, refl, ap, ◌∙◌, List, [], ◌∷◌, ◌++◌, Option, none, some, length, Bool-cases, inl, inr,
  arith,
}
use lsm_rs.Key.{Key, key_eq}
use lsm_rs.Memtable
use lsm_rs.Memtable.{Memtable, MemtableEntry, is_full, take, new, binary_search}
use lsm_rs.Memtable.Laws as Laws
use lsm_rs.Memtable.Client.{latest, entry_of, get-apply_ops}
use lsm_rs.Memtable.Replay.{apply_ops}
use lsm_rs.WriteBatch.Op.{WriteOp, get_key}
use lsm_rs.DataBlock.Builder.{BloomFilter}
use lsm_rs.Params.{Params}
use lsm_rs.Database.{DbLogic}
use lsm_rs.Database.Write.{apply_batch}
use lsm_rs.Database.Versions.{or_else, pending_version, version, imm_version, disk_version, on_disk}

pub latest-or_else :
    (key : Key) (ops : List WriteOp) (seq : ℕ) (a b : Option MemtableEntry)
    → latest key ops seq (or_else a b) ≡ or_else (latest key ops seq a) b
unfolding latest
latest-or_else key [] seq a b = refl
latest-or_else key (op ∷ ops) seq a b = elim (Bool-cases (key_eq (get_key op) key)) [
  | inl e ↦ rw e (latest-or_else key ops (seq + 1) (some (entry_of op seq)) b)
  | inr e ↦ rw e (latest-or_else key ops (seq + 1) a b)
]

pub latest-append :
    (key : Key) (ops more : List WriteOp) (seq seq' : ℕ) (old : Option MemtableEntry)
    → seq' ≡ seq + length ops
    → latest key (ops ++ more) seq old ≡ latest key more seq' (latest key ops seq old)
unfolding latest
latest-append key [] more seq seq' old e =
    let e' : seq ≡ seq' = omega (arith, e) in ap (λ s. latest key more s old) e'
latest-append key (op ∷ ops) more seq seq' old e =
    latest-append key ops more (seq + 1) seq' _ (omega (arith, e))

get-new : (n : ℕ) (key : Key) → Memtable.get (new n) key ≡ none
unfolding Memtable.get new binary_search
get-new n key = refl

module _ (F : BloomFilter) (params : Params) where
  -- Below the memtable nothing changes, and above it the batch is in the memtable, or in the one that is
  -- handed over.
  pub apply_batch-version :
      (db : DbLogic F.Bloom) (ops : List WriteOp) (pos : ℕ) (key : Key)
      → Laws.IsValid db.memtable
      → pending_version db.phase key ≡ none
      → version F (apply_batch params db ops pos) key
        ≡ latest key ops db.memtable.next_seq_number (version F db key)
  unfolding apply_batch version pending_version take
  apply_batch-version db ops pos key valid free =
      let m = apply_ops db.memtable ops in
      let rest = or_else (imm_version db.imm_memtables key) (disk_version F (on_disk db) key) in
      let target : or_else (Memtable.get m key) rest
          ≡ latest key ops db.memtable.next_seq_number (
              or_else (Memtable.get db.memtable key)
                (or_else (pending_version db.phase key) rest)) =
        rw
          (
            free,
            latest-or_else key ops db.memtable.next_seq_number (Memtable.get db.memtable key) rest,
            get-apply_ops ops db.memtable key valid,
          )
          refl in
      elim (Bool-cases (is_full m params.max_memtable_size)) [
        | inl e ↦ rw e (
            ap (λ r. or_else r (or_else (Memtable.get m key) rest)) (get-new m.next_seq_number key)
            ∙ target)
        | inr e ↦ rw e target
      ]
