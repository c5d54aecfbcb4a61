-- ===== src/DataBlock/Tests.antt =====
-- A data block of src/data_blocks with three entries and two restart points.
use lsm_rs.Prelude.{
  ℕ, ◌≡◌, refl, List, [], ◌∷◌, ◌++◌, true, length, replicate, length-replicate, arith,
}
use lsm_rs.Bytes.{to_le}
use lsm_rs.Key.{cmp}
use lsm_rs.Outcome.{ok, Returns}
use lsm_rs.Memtable.{value, deletion, get_seq_number}
use lsm_rs.Manifest.Metadata
use lsm_rs.Manifest.Metadata.{generate_next_data_block_id}
use lsm_rs.DataBlock.{header_length, bloom_size, entry_header_bytes}
use lsm_rs.DataBlock.Builder.{BloomFilter, DataBlockBuilder, new, new_from_data}
use lsm_rs.DataBlock.Reading.{Fits}
use lsm_rs.DataBlock.Items.{Item, IsChain, encode, encode_all, header_of}
use lsm_rs.DataBlock.Built.{add_items}
use lsm_rs.DataBlock.RoundTrip.{
  get_by_key-add_items, Finds, new_from_data-finish, finished, finish-some,
}

-- A filter that rules nothing out.
abbrev pub no_filter : BloomFilter
no_filter = record {
  Bloom = Unit;
  empty = tt;
  set = λ b key. tt;
  check = λ b key. true;
  as_slice = λ b. replicate bloom_size 0;
  from_bytes = λ bytes. tt;
  check-set = λ b key. refl;
  check-set_other = λ b key j h. refl;
  from_bytes-as_slice = λ b. refl;
  length-as_slice = λ b. length-replicate {A = ℕ} bloom_size 0;
}

abbrev items : List Item
items =
    record { key = 1 ∷ 2 ∷ []; prefix_len = 0; version = value 5 (9 ∷ []) }
    ∷ record { key = 1 ∷ 3 ∷ []; prefix_len = 1; version = deletion 6 }
    ∷ record { key = 2 ∷ []; prefix_len = 0; version = value 7 [] }
    ∷ []

items-IsChain : IsChain [] items
unfolding header_of get_seq_number
items-IsChain =
    (fits, omega arith, refl, (fits2, omega arith, refl, (fits3, omega arith, refl, tt)))
  where
    fits :
        Fits (header_of (record { key = 1 ∷ 2 ∷ []; prefix_len = 0; version = value 5 (9 ∷ []) }))
    fits = record {
      prefix_len = omega arith;
      suffix_len = omega arith;
      entry_type = omega arith;
      seq_number = omega arith;
      value_length = omega arith;
    }

    fits2 : Fits (header_of (record { key = 1 ∷ 3 ∷ []; prefix_len = 1; version = deletion 6 }))
    fits2 = record {
      prefix_len = omega arith;
      suffix_len = omega arith;
      entry_type = omega arith;
      seq_number = omega arith;
      value_length = omega arith;
    }

    fits3 : Fits (header_of (record { key = 2 ∷ []; prefix_len = 0; version = value 7 [] }))
    fits3 = record {
      prefix_len = omega arith;
      suffix_len = omega arith;
      entry_type = omega arith;
      seq_number = omega arith;
      value_length = omega arith;
    }

size : length (encode_all items) ≡ 80
unfolding encode_all encode entry_header_bytes header_of to_le get_seq_number
size = refl

get_by_key-add_items_example :
    Returns
      (add_items no_filter 2 (new no_filter) items)
      (Finds no_filter 2 (Metadata.new 3) items (1 ∷ 3 ∷ []))
unfolding cmp
get_by_key-add_items_example =
    get_by_key-add_items no_filter 2 (Metadata.new 3) items (1 ∷ 3 ∷ []) items-IsChain
      ((refl, (refl, tt)), ((refl, tt), (tt, tt)))
      ((λ e. refl), ((λ e. absurd (ground (arith, e))), ((λ e. refl), tt))) (omega arith)
      (omega arith) (omega (arith, size))

abbrev builder : DataBlockBuilder Unit
builder = record {
  bytes = replicate header_length 0 ++ encode_all items;
  position = 3;
  restart_list = 1077 ∷ 1131 ∷ [];
  bloom_filter = tt;
}

new_from_data-finish_example :
    new_from_data no_filter (finished no_filter 2 builder).bytes 2
    ≡ ok (finished no_filter 2 builder)
new_from_data-finish_example =
    new_from_data-finish no_filter 2 (Metadata.new 3) builder
      (generate_next_data_block_id (Metadata.new 3)).0 (finished no_filter 2 builder) (omega arith)
      (finish-some no_filter 2 (Metadata.new 3) builder refl)
