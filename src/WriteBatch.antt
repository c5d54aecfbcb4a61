-- ===== src/WriteBatch.antt =====
-- src/write_batch.rs: `WriteBatch` and `WriteOptions`; the operations stand in the child.
pub mod Op
use lsm_rs.Prelude.{Bool, true, List, [], ◌∷◌, ◌++◌}
use lsm_rs.Key.{Key, Value}
use Op.{WriteOp}

pub record WriteBatch : Type 0 where
  pub writes : List WriteOp

unfoldable pub new : WriteBatch
new = record { writes = [] }

unfoldable pub put : WriteBatch → Key → Value → WriteBatch
put b key value = record { writes = b.writes ++ WriteOp.put key value ∷ [] }

unfoldable pub delete : WriteBatch → Key → WriteBatch
delete b key = record { writes = b.writes ++ WriteOp.delete key ∷ [] }

pub record WriteOptions : Type 0 where
  pub sync : Bool

-- `WriteOptions::new`, the default.
abbrev pub default_options : WriteOptions
default_options = record { sync = true }
