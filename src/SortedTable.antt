-- ===== src/SortedTable.antt =====
-- src/sorted_table/mod.rs: what the levels see of a sorted table, which is its identifier, its key range
-- and size from its index, its compaction flag and the count of seeks, an `i32` kept as its 32 bits.
pub mod Builder
pub mod Indexing
pub mod Building
pub mod Table
pub mod Lookup
pub mod Keeping
pub mod Tests
use lsm_rs.Prelude.{
  ℕ, ◌+◌, ◌*◌, ◌/◌, ◌%◌, max, Option, none, some, Bool, true, false, ◌&&◌, ◌||◌, ◌==◌, leb,
  if◌then◌else◌,
}
use lsm_rs.Bytes.{u32_mod}
use lsm_rs.Params.{Params}
use lsm_rs.Key.{Key, key_le}
use lsm_rs.Outcome.{Outcome, ok, panicked}

pub record SortedTable : Type 0 where
  pub identifier : ℕ
  pub min : Key
  pub max : Key
  pub size : ℕ
  pub compaction_flag : Bool
  pub allowed_seeks : ℕ

-- `allowed_seeks.load(..) <= 0`
unfoldable pub has_maximum_seeks : SortedTable → Bool
has_maximum_seeks t = t.allowed_seeks == 0 || leb 0x8000_0000 t.allowed_seeks

-- `allowed_seeks.fetch_sub(1, ..)`, which wraps around.
unfoldable pub count_seek : SortedTable → SortedTable
count_seek t = record t { allowed_seeks = (t.allowed_seeks + 0xFFFF_FFFF) % u32_mod }

-- "Returns false if another task is already compacting this table"
unfoldable pub maybe_start_compaction : SortedTable → Bool × SortedTable
maybe_start_compaction t =
    if t.compaction_flag then (false, t) else (true, record t { compaction_flag = true })

unfoldable pub abort_compaction : SortedTable → Outcome SortedTable
abort_compaction t =
    if t.compaction_flag then ok (record t { compaction_flag = false }) else panicked

unfoldable pub finish_fast_compaction : SortedTable → Outcome SortedTable
finish_fast_compaction t =
    if t.compaction_flag then ok (record t { compaction_flag = false }) else panicked

-- Whether an inclusive range of keys meets that of the table.
unfoldable pub overlaps : SortedTable → Key → Key → Bool
overlaps t min max = key_le min t.max && key_le t.min max

-- `allowed_seeks` of a new table, an `i32`.
unfoldable pub initial_seeks : Option ℕ → ℕ → ℕ
initial_seeks none size = 0
initial_seeks (some count) size = (max (size / 1024) 1 * count) % u32_mod

-- The table that `TableBuilder::finish` returns.
abbrev pub new_table : Params → ℕ → Key → Key → ℕ → SortedTable
new_table params id min max size = record {
  identifier = id;
  min = min;
  max = max;
  size = size;
  compaction_flag = false;
  allowed_seeks = initial_seeks params.seek_based_compaction size;
}
