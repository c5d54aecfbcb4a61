-- ===== src/Manifest/Tests.antt =====
-- The manifest of src/manifest.rs on small inputs; `updates` is its own test.
use lsm_rs.Prelude.{ℕ, ◌+◌, ◌<◌, ◌≡◌, ◌≢◌, refl, flatten, List, [], ◌∷◌, some, replicate, arith}
use lsm_rs.Bytes.{to_le}
use lsm_rs.Outcome.{ok}
use lsm_rs.Manifest.LevelMetadata.{id_bytes}
use lsm_rs.Manifest.Bytes.{IsLevel}
use lsm_rs.Manifest.Ids.{has, add, without}
use lsm_rs.Manifest.Tables.{update_table_set, all_table_ids}
use lsm_rs.Manifest.TableSets.{
  Holds, Agrees, update_ids, add_ids, remove_ids, change_ids, added, removed,
}
use lsm_rs.Manifest.Refines.{update_table_set-Agrees, all_table_ids-Holds}
use lsm_rs.Manifest.Metadata.{
  DatabaseMetadata, new, generate_next_table_id, generate_next_data_block_id, set_log_offset,
  set_minimum_value_index_page_id, get_minimum_value_index_page_id,
}
use lsm_rs.Manifest.Counters.{
  Steps, none_left, one_more, HasRoom, Grows, data_block, log_offset, Steps-Grows, generated_fresh,
  generate, table_id, minimum_index_page_lost,
}

-- A level's file without tables.
abbrev empty_file : List ℕ
empty_file = replicate 4096 0

empty-IsLevel : IsLevel empty_file []
unfolding to_le id_bytes flatten
empty-IsLevel = record {
  rest = replicate 4088 0;
  bytes = refl;
  sorted = tt;
  words = tt;
  count = omega arith;
}

abbrev adds : List (ℕ × ℕ)
adds = (0, 1) ∷ (0, 2) ∷ (1, 3) ∷ []

abbrev removes : List (ℕ × ℕ)
removes = (0, 1) ∷ []

two_levels : Holds 3 (empty_file ∷ empty_file ∷ []) ([] ∷ [] ∷ [])
two_levels = (empty-IsLevel, omega arith, (empty-IsLevel, omega arith, tt))

updates : update_ids ([] ∷ [] ∷ []) adds removes ≡ some ((2 ∷ []) ∷ (3 ∷ []) ∷ [])
unfolding update_ids add_ids remove_ids change_ids added removed has add without
updates = refl

update_table_set-Agrees_example :
    Agrees 0
      (update_ids ([] ∷ [] ∷ []) adds removes)
      (update_table_set (empty_file ∷ empty_file ∷ []) adds removes)
update_table_set-Agrees_example =
    update_table_set-Agrees adds removes (empty_file ∷ empty_file ∷ []) ([] ∷ [] ∷ [])
      (omega arith, (omega arith, (omega arith, tt))) two_levels

all_table_ids-Holds_example : all_table_ids (empty_file ∷ empty_file ∷ []) ≡ ok ([] ∷ [] ∷ [])
all_table_ids-Holds_example =
    all_table_ids-Holds 3 (empty_file ∷ empty_file ∷ []) ([] ∷ [] ∷ []) two_levels

-- A data block, then a log offset.
abbrev after_block : DatabaseMetadata
after_block = (generate_next_data_block_id (generate_next_table_id (new 5)).1).1

abbrev after_offset : DatabaseMetadata
after_offset = record after_block { log_offset = 40 }

steps : Steps (generate_next_table_id (new 5)).1 2 after_offset
unfolding new generate_next_table_id generate_next_data_block_id set_log_offset
steps = one_more (one_more none_left data_block) (log_offset after_offset 40 refl)

room : HasRoom (1 + (2 + 0)) (new 5)
unfolding new
room = (omega arith, omega arith, omega arith, omega arith)

generated_fresh_example : (generate table_id (new 5)).0 < (generate table_id after_offset).0
generated_fresh_example = generated_fresh table_id 2 0 (new 5) after_offset room steps

room_after : HasRoom (2 + 0) (generate_next_table_id (new 5)).1
unfolding new generate_next_table_id
room_after = (omega arith, omega arith, omega arith, omega arith)

Steps-Grows_example : HasRoom 0 after_offset × Grows (generate_next_table_id (new 5)).1 after_offset
Steps-Grows_example = Steps-Grows 2 0 steps room_after

abbrev page_set : DatabaseMetadata
page_set = record (new 5) { value_log = record (new 5).value_log { minimum_batch = 3 } }

page_set_returns : set_minimum_value_index_page_id (new 5) 3 ≡ ok page_set
unfolding new set_minimum_value_index_page_id
page_set_returns = refl

minimum_index_page_lost_example : get_minimum_value_index_page_id page_set ≢ 3
minimum_index_page_lost_example = minimum_index_page_lost (new 5) page_set 3 page_set_returns
