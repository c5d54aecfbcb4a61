-- ===== src/Wal.antt =====
-- src/wal/mod.rs: the page size, the log entries and their byte form, in the default configuration
-- (no `wisckey`), where every entry is a write.
pub mod Files
pub mod Writer
pub mod Reader
pub mod Pages
pub mod Written
pub mod ReadBack
pub mod Recovered
pub mod End
pub mod RoundTrip
pub mod Open
pub mod Continue
pub mod Durability
pub mod Status
pub mod Tasks
pub mod Regions
pub mod Safety
pub mod Positions
pub mod Update
pub mod Queue
pub mod UpdateLog
pub mod Session
pub mod Tests
use lsm_rs.Prelude.{ℕ, ◌+◌, ◌<◌, List, [], ◌∷◌, ◌++◌, length, map}
use lsm_rs.Bytes.{to_le, size_of_u64}
use lsm_rs.WriteBatch.Op.{WriteOp, put, delete, get_type, get_key, get_key_length, get_value_length}

-- `PAGE_SIZE`: the log is split into files of this size.
abbrev pub page_size : ℕ
page_size = 4096

-- `LogEntryType::Write as u8`
abbrev pub write_entry : ℕ
write_entry = 0

-- The value part of an entry; a deletion has none.
abbrev pub encode_value : WriteOp → List ℕ
encode_value (put key value) = to_le size_of_u64 (get_value_length (put key value)) ++ value
encode_value (delete key) = []

-- One iteration of the loop of `WriteAheadLog::store`: the bytes of an entry.
unfoldable pub encode : WriteOp → List ℕ
unfolding get_type get_key get_key_length get_value_length
encode op =
    write_entry
    ∷ get_type op
    ∷ (to_le size_of_u64 (get_key_length op) ++ (get_key op ++ encode_value op))
