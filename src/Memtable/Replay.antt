-- ===== src/Memtable/Replay.antt =====
-- The loop of `write_opts` in src/logic.rs that applies a batch to the memtable of src/memtable.rs,
-- which the log reader of src/wal/reader.rs repeats.
use lsm_rs.Prelude.{List, [], ◌∷◌}
use lsm_rs.Memtable
use lsm_rs.Memtable.{Memtable}
use lsm_rs.WriteBatch.Op.{WriteOp, put, delete}

abbrev pub apply_op : Memtable → WriteOp → Memtable
apply_op m (put key value) = Memtable.put m key value
apply_op m (delete key) = Memtable.delete m key

unfoldable pub apply_ops : Memtable → List WriteOp → Memtable
apply_ops m [] = m
apply_ops m (op ∷ ops) = apply_ops (apply_op m op) ops
