-- ===== src/IndexBlock/Tests.antt =====
-- The index of src/index_blocks.rs on a small table.
use lsm_rs.Prelude.{ℕ, zero, suc, ◌<◌, ◌≡◌, refl, List, [], ◌∷◌, arith, not, ◌||◌}
use lsm_rs.Key.{Key, cmp, key_lt, key_le, ◌≺◌}
use lsm_rs.Bytes.{to_le, from_le}
use lsm_rs.Outcome.{ok, Returns}
use lsm_rs.IndexBlock.{
  new, get_block_key, get_block_id, binary_search, get_min, get_max, num_data_blocks,
  get_entry_offset, header_field, slice, read_word, push_entries, patch, header_bytes,
  entry_header_bytes, add_padding,
}
use lsm_rs.IndexBlock.Search.{IsIndex, Answers, binary_search-Answers}

-- Three data blocks of a table with keys from 1 to 9.
abbrev block : List ℕ
block = new ((1 ∷ [], 10) ∷ (4 ∷ [], 20) ∷ (4 ∷ 2 ∷ [], 30) ∷ []) 100 (1 ∷ []) (9 ∷ [])

abbrev keys : ℕ → Key
keys zero = 1 ∷ []
keys (suc zero) = 4 ∷ []
keys (suc (suc i)) = 4 ∷ 2 ∷ []

abbrev ids : ℕ → ℕ
ids zero = 10
ids (suc zero) = 20
ids (suc (suc i)) = 30

key_at : (pos : ℕ) → pos < 3 → get_block_key block pos ≡ ok (keys pos)
unfolding new get_block_key get_entry_offset header_field slice read_word push_entries patch
    header_bytes entry_header_bytes add_padding to_le from_le
key_at zero h = refl
key_at (suc zero) h = refl
key_at (suc (suc zero)) h = refl
key_at (suc (suc (suc i))) h = absurd (omega arith)

id_at : (pos : ℕ) → pos < 3 → get_block_id block pos ≡ ok (ids pos)
unfolding new get_block_id get_entry_offset header_field slice read_word push_entries patch
    header_bytes entry_header_bytes add_padding to_le from_le
id_at zero h = refl
id_at (suc zero) h = refl
id_at (suc (suc zero)) h = refl
id_at (suc (suc (suc i))) h = absurd (omega arith)

keys_ascend : (i j : ℕ) → i < j → j < 3 → keys i ≺ keys j
unfolding cmp
keys_ascend i zero l w = absurd (omega arith)
keys_ascend zero (suc zero) l w = refl
keys_ascend zero (suc (suc j)) l w = refl
keys_ascend (suc i) (suc zero) l w = absurd (omega arith)
keys_ascend (suc zero) (suc (suc j)) l w = refl
keys_ascend (suc (suc i)) (suc (suc j)) l w = absurd (omega arith)

index : IsIndex block 3 keys ids
index = record { key_at = key_at; id_at = id_at; sorted = keys_ascend }

ends :
    (get_min block ≡ ok (1 ∷ [])) × (get_max block ≡ ok (9 ∷ [])) × (num_data_blocks block ≡ ok 3)
unfolding new get_min get_max header_field slice read_word push_entries patch header_bytes
    entry_header_bytes add_padding to_le from_le
ends = (refl, refl, refl)

binary_search-Answers_example : Returns (binary_search block (4 ∷ 1 ∷ [])) (
    Answers
      (key_lt (4 ∷ 1 ∷ []) (keys 0) || not (key_le (4 ∷ 1 ∷ []) (9 ∷ [])))
      3
      keys
      ids
      (4 ∷ 1 ∷ []))
binary_search-Answers_example =
    binary_search-Answers block 3 keys ids index (4 ∷ 1 ∷ []) (9 ∷ []) (omega arith) ends.0 ends.1
      ends.2
