-- ===== src/Memtable/Client.antt =====
-- A batch applied to the memtable of src/memtable.rs (`write_opts` of src/logic.rs, the log reader of
-- src/wal/reader.rs), against what its operations say of each key.
use lsm_rs.Prelude.{ℕ, ◌+◌, ◌≡◌, refl, ap, Option, some, List, [], ◌∷◌, if◌then◌else◌}
use lsm_rs.Key.{Key, key_eq}
use lsm_rs.Memtable.{Memtable, MemtableEntry, value, deletion, get}
use lsm_rs.Memtable.Laws.{
  IsValid, put_lem, delete_lem, put-IsValid, delete-IsValid, get-put, get-delete,
}
use lsm_rs.Memtable.Replay.{apply_op, apply_ops}
use lsm_rs.WriteBatch.Op.{WriteOp, put, delete, get_key}

-- The entry that an operation leaves, with its sequence number.
abbrev pub entry_of : WriteOp → ℕ → MemtableEntry
entry_of (put key v) seq = value seq v
entry_of (delete key) seq = deletion seq

-- What the last operation on the key `j` leaves, numbered from `seq`; without one, the old entry.
unfoldable pub latest : Key → List WriteOp → ℕ → Option MemtableEntry → Option MemtableEntry
latest j [] seq old = old
latest j (op ∷ ops) seq old =
    latest j ops (seq + 1) (if key_eq (get_key op) j then some (entry_of op seq) else old)

pub apply_op-IsValid : (m : Memtable) (op : WriteOp) → IsValid m → IsValid (apply_op m op)
apply_op-IsValid m (put key v) h = put-IsValid m key v h
apply_op-IsValid m (delete key) h = delete-IsValid m key h

apply_op-seq :
    (m : Memtable) (op : WriteOp)
    → IsValid m
    → (apply_op m op).next_seq_number ≡ m.next_seq_number + 1
apply_op-seq m (put key v) h = ap (λ t. t.next_seq_number) (put_lem m key v h)
apply_op-seq m (delete key) h = ap (λ t. t.next_seq_number) (delete_lem m key h)

get-apply_op :
    (m : Memtable) (op : WriteOp) (j : Key)
    → IsValid m
    → get (apply_op m op) j
      ≡ (if key_eq (get_key op) j then some (entry_of op m.next_seq_number) else get m j)
unfolding get_key
get-apply_op m (put key v) j h = get-put m key j v h
get-apply_op m (delete key) j h = get-delete m key j h

-- From a valid table, a batch leaves a valid table: sorted by key, with the size that its keys and
-- values add up to.
pub apply_ops-IsValid : (ops : List WriteOp) (m : Memtable) → IsValid m → IsValid (apply_ops m ops)
unfolding apply_ops
apply_ops-IsValid [] m h = h
apply_ops-IsValid (op ∷ ops) m h = apply_ops-IsValid ops (apply_op m op) (apply_op-IsValid m op h)

-- After a batch on a valid table, a reader finds for each key what the last operation of the batch on
-- it left, under the sequence number that counts the operations before it, and where the batch has
-- none, what it found before.
pub get-apply_ops :
    (ops : List WriteOp) (m : Memtable) (j : Key)
    → IsValid m
    → get (apply_ops m ops) j ≡ latest j ops m.next_seq_number (get m j)
unfolding apply_ops latest
get-apply_ops [] m j h = refl
get-apply_ops (op ∷ ops) m j h = rw (
  get-apply_ops ops (apply_op m op) j (apply_op-IsValid m op h),
  apply_op-seq m op h,
  get-apply_op m op j h,
)
