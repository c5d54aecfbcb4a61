-- ===== src/WriteBatch/Op.antt =====
-- src/write_batch.rs: `WriteOp`.
use lsm_rs.Prelude.{ℕ, length}
use lsm_rs.Key.{Key, Value}

pub data WriteOp : Type 0 where
  put : Key → Value → WriteOp
  delete : Key → WriteOp

-- `PUT_OP` and `DELETE_OP`.
abbrev pub put_op : ℕ
put_op = 1

abbrev pub delete_op : ℕ
delete_op = 2

unfoldable pub get_key : WriteOp → Key
get_key (put key value) = key
get_key (delete key) = key

unfoldable pub get_type : WriteOp → ℕ
get_type (put key value) = put_op
get_type (delete key) = delete_op

unfoldable pub get_key_length : WriteOp → ℕ
get_key_length (put key value) = length key
get_key_length (delete key) = length key

unfoldable pub get_value_length : WriteOp → ℕ
get_value_length (put key value) = length value
get_value_length (delete key) = 0
