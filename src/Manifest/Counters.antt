-- ===== src/Manifest/Counters.antt =====
-- The counters of src/manifest.rs over any sequence of operations.
use lsm_rs.Prelude.{ℕ, suc, ◌+◌, ◌≤◌, ◌<◌, ◌≡◌, ◌≢◌, arith}
use lsm_rs.Bytes.{u64_mod}
use lsm_rs.Outcome.{ok}
use lsm_rs.Manifest.Metadata.{
  DatabaseMetadata, generate_next_data_block_id, generate_next_table_id,
  generate_next_value_index_id, generate_next_value_batch_id, set_log_offset, set_seq_number_offset,
  set_minimum_value_index_page_id, get_minimum_value_index_page_id,
}

-- The operations that change the metadata, as steps; a step of a setter is one that returns.
pub data Step (m : DatabaseMetadata) : DatabaseMetadata → Type 0 where
  data_block : Step m (generate_next_data_block_id m).1
  table : Step m (generate_next_table_id m).1
  index_page : Step m (generate_next_value_index_id m).1
  value_batch : Step m (generate_next_value_batch_id m).1
  log_offset : (n : DatabaseMetadata) (offset : ℕ) → set_log_offset m offset ≡ ok n → Step m n
  seq_number :
      (n : DatabaseMetadata) (offset : ℕ) → set_seq_number_offset m offset ≡ ok n → Step m n

-- The counters have 64 bits, with room for `spare` more identifiers.
abbrev pub HasRoom : ℕ → DatabaseMetadata → Type 0
HasRoom spare m =
    (m.next_table_id + spare < u64_mod)
    × (m.next_data_block_id + spare < u64_mod)
    × (m.value_log.next_index_page + spare < u64_mod)
    × (m.value_log.next_batch + spare < u64_mod)

-- No counter goes back.
abbrev pub Grows : DatabaseMetadata → DatabaseMetadata → Type 0
Grows m n =
    (m.next_table_id ≤ n.next_table_id)
    × (m.next_data_block_id ≤ n.next_data_block_id)
    × (m.value_log.next_index_page ≤ n.value_log.next_index_page)
    × (m.value_log.next_batch ≤ n.value_log.next_batch)
    × (m.log_offset ≤ n.log_offset)
    × (m.seq_number_offset ≤ n.seq_number_offset)

pub data Steps (m : DatabaseMetadata) : ℕ → DatabaseMetadata → Type 0 where
  none_left : Steps m 0 m
  one_more : {k : ℕ} {n o : DatabaseMetadata} → Steps m k n → Step n o → Steps m (suc k) o

step-Grows :
    (spare : ℕ) {m n : DatabaseMetadata}
    → Step m n
    → HasRoom (suc spare) m
    → HasRoom spare n × Grows m n
unfolding generate_next_data_block_id generate_next_table_id generate_next_value_index_id
    generate_next_value_batch_id set_log_offset set_seq_number_offset
step-Grows spare {m} data_block h = omega arith
step-Grows spare {m} table h = omega arith
step-Grows spare {m} index_page h = omega arith
step-Grows spare {m} value_batch h = omega arith
step-Grows spare {m} (log_offset n offset e) h = ground arith
step-Grows spare {m} (seq_number n offset e) h = ground arith

-- Over any sequence of the operations that generate identifiers or set the log offset or the sequence
-- number, and that return, no counter of the metadata goes back, as long as the identifiers do not run
-- out of 64 bits.
pub Steps-Grows :
    {m : DatabaseMetadata} (k spare : ℕ) {n : DatabaseMetadata}
    → Steps m k n
    → HasRoom (k + spare) m
    → HasRoom spare n × Grows m n
Steps-Grows k spare none_left h = omega arith
Steps-Grows (suc k) spare (one_more r st) h =
    let first = Steps-Grows k (suc spare) r (omega (arith, h)) in
    let last = step-Grows spare st first.0 in (last.0, omega (arith, first.1, last.1))

pub data Kind : Type 0 where
  table_id data_block_id value_index_id value_batch_id : Kind

-- The four `generate_next` operations.
abbrev pub generate : Kind → DatabaseMetadata → ℕ × DatabaseMetadata
generate table_id m = generate_next_table_id m
generate data_block_id m = generate_next_data_block_id m
generate value_index_id m = generate_next_value_index_id m
generate value_batch_id m = generate_next_value_batch_id m

-- An identifier that is generated is greater than every one of its kind that was generated before, with
-- any number of operations in between, as long as the identifiers do not run out of 64 bits.
pub generated_fresh :
    (kind : Kind) (k spare : ℕ) (m n : DatabaseMetadata)
    → HasRoom (suc (k + spare)) m
    → Steps (generate kind m).1 k n
    → (generate kind m).0 < (generate kind n).0
unfolding generate_next_data_block_id generate_next_table_id generate_next_value_index_id
    generate_next_value_batch_id
generated_fresh table_id k spare m n h s =
    omega (arith, h, Steps-Grows k spare s (omega (arith, h)))
generated_fresh data_block_id k spare m n h s =
    omega (arith, h, Steps-Grows k spare s (omega (arith, h)))
generated_fresh value_index_id k spare m n h s =
    omega (arith, h, Steps-Grows k spare s (omega (arith, h)))
generated_fresh value_batch_id k spare m n h s =
    omega (arith, h, Steps-Grows k spare s (omega (arith, h)))

-- Where the minimum index page is set to a new value and the call returns, reading it does not give that
-- value.
pub minimum_index_page_lost :
    (m n : DatabaseMetadata) (offset : ℕ)
    → set_minimum_value_index_page_id m offset ≡ ok n
    → get_minimum_value_index_page_id n ≢ offset
unfolding set_minimum_value_index_page_id
minimum_index_page_lost m n offset e = ground arith
