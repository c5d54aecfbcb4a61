-- ===== src/Manifest/Metadata.antt =====
-- `DatabaseMetadata` and `ValueLogMetadata` of src/manifest.rs (the second belongs to the `wisckey`
-- configuration) and the operations on them. Counters wrap as `u64` does in a release build.
use lsm_rs.Prelude.{ℕ, ◌+◌, ◌-◌, ◌%◌, ltb, if◌then◌else◌}
use lsm_rs.Bytes.{u64_mod}
use lsm_rs.Outcome.{Outcome, ok, panicked, ◌>>◌, assert}

pub record ValueLogMetadata : Type 0 where
  pub next_batch : ℕ
  pub minimum_batch : ℕ
  pub next_index_page : ℕ
  pub minimum_index_page : ℕ

pub record DatabaseMetadata : Type 0 where
  pub next_table_id : ℕ
  pub num_levels : ℕ
  pub seq_number_offset : ℕ
  pub log_offset : ℕ
  pub next_data_block_id : ℕ
  pub value_log : ValueLogMetadata

-- `FIRST_TABLE_ID`, `MIN_DATA_BLOCK_ID`, `MIN_VALUE_BATCH_ID` and `MIN_VALUE_INDEX_PAGE_ID`.
abbrev pub first_id : ℕ
first_id = 1

-- The metadata that `Manifest::new` writes.
unfoldable pub new : ℕ → DatabaseMetadata
new num_levels = record {
  next_table_id = first_id;
  num_levels = num_levels;
  seq_number_offset = 1;
  log_offset = 0;
  next_data_block_id = first_id;
  value_log = record {
    next_batch = first_id;
    minimum_batch = 0;
    next_index_page = first_id;
    minimum_index_page = first_id;
  };
}

-- `+= 1` on a `u64`.
abbrev pub bump : ℕ → ℕ
bump n = (n + 1) % u64_mod

unfoldable pub generate_next_data_block_id : DatabaseMetadata → ℕ × DatabaseMetadata
generate_next_data_block_id meta =
    (meta.next_data_block_id, record meta { next_data_block_id = bump meta.next_data_block_id })

unfoldable pub generate_next_table_id : DatabaseMetadata → ℕ × DatabaseMetadata
generate_next_table_id meta =
    (meta.next_table_id, record meta { next_table_id = bump meta.next_table_id })

unfoldable pub generate_next_value_index_id : DatabaseMetadata → ℕ × DatabaseMetadata
generate_next_value_index_id meta = (
  meta.value_log.next_index_page,
  record meta {
    value_log = record meta.value_log { next_index_page = bump meta.value_log.next_index_page };
  },
)

unfoldable pub generate_next_value_batch_id : DatabaseMetadata → ℕ × DatabaseMetadata
generate_next_value_batch_id meta = (
  meta.value_log.next_batch,
  record meta { value_log = record meta.value_log { next_batch = bump meta.value_log.next_batch } },
)

unfoldable pub set_log_offset : DatabaseMetadata → ℕ → Outcome DatabaseMetadata
set_log_offset meta offset =
    assert (ltb meta.log_offset offset) >> ok (record meta { log_offset = offset })

unfoldable pub set_seq_number_offset : DatabaseMetadata → ℕ → Outcome DatabaseMetadata
set_seq_number_offset meta offset =
    if ltb meta.seq_number_offset offset
    then ok (record meta { seq_number_offset = offset })
    else panicked

unfoldable pub set_minimum_value_batch_id : DatabaseMetadata → ℕ → Outcome DatabaseMetadata
set_minimum_value_batch_id meta offset =
    assert (ltb meta.value_log.minimum_batch offset)
    >> ok (record meta { value_log = record meta.value_log { minimum_batch = offset } })

-- The assert is on the index page, the assignment to the batch, as in the source.
unfoldable pub set_minimum_value_index_page_id : DatabaseMetadata → ℕ → Outcome DatabaseMetadata
set_minimum_value_index_page_id meta offset =
    assert (ltb meta.value_log.minimum_index_page offset)
    >> ok (record meta { value_log = record meta.value_log { minimum_batch = offset } })

abbrev pub get_minimum_value_index_page_id : DatabaseMetadata → ℕ
get_minimum_value_index_page_id meta = meta.value_log.minimum_index_page

abbrev pub get_minimum_value_batch : DatabaseMetadata → ℕ
get_minimum_value_batch meta = meta.value_log.minimum_batch

abbrev pub get_log_offset : DatabaseMetadata → ℕ
get_log_offset meta = meta.log_offset

abbrev pub get_seq_number_offset : DatabaseMetadata → ℕ
get_seq_number_offset meta = meta.seq_number_offset

-- `next_index_page - 1` and `next_batch - 1`, which do not underflow: the counters start at 1.
abbrev pub get_most_recent_value_index_page_id : DatabaseMetadata → ℕ
get_most_recent_value_index_page_id meta = meta.value_log.next_index_page - 1

abbrev pub get_most_recent_value_batch_id : DatabaseMetadata → ℕ
get_most_recent_value_batch_id meta = meta.value_log.next_batch - 1
