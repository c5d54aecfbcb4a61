-- ===== src/DataBlock/Builder.antt =====
-- src/data_blocks/builder.rs: `DataBlockBuilder`. The cache and the file that `finish` stores the block in
-- are left out; the block that it stores is its result.
use lsm_rs.Prelude.{
  ℕ, ◌+◌, ◌%◌, List, [], ◌∷◌, ◌++◌, Option, none, some, Bool, true, length, take, drop, replicate,
  flatten, map, ◌==◌, if◌then◌else◌, ◌≡◌,
}
use lsm_rs.Bytes.{to_le, from_le, size_of_u32, u32_mod}
use lsm_rs.Key.{Key, Value}
use lsm_rs.Outcome.{Outcome, ok, panicked, ◌>>=◌, ◌>>◌, assert}
use lsm_rs.Manifest.Metadata.{DatabaseMetadata, generate_next_data_block_id}
use lsm_rs.DataBlock.{DataBlock, slice, bloom_size, header_length, entry_header_bytes}

-- What the code uses of the bloom filter of the `bloomfilter` crate: a key that was put in is found, also
-- after later ones, and the bytes of a filter read back.
pub record BloomFilter : Type 1 where
  pub Bloom : Type 0
  pub empty : Bloom
  pub set : Bloom → Key → Bloom
  pub check : Bloom → Key → Bool
  pub as_slice : Bloom → List ℕ
  pub from_bytes : List ℕ → Bloom
  pub check-set : (b : Bloom) (key : Key) → check (set b key) key ≡ true
  pub check-set_other : (b : Bloom) (key j : Key) → check b j ≡ true → check (set b key) j ≡ true
  pub from_bytes-as_slice : (b : Bloom) → from_bytes (as_slice b) ≡ b
  pub length-as_slice : (b : Bloom) → length (as_slice b) ≡ bloom_size

pub record PrefixedKey : Type 0 where
  pub prefix_len : ℕ
  pub suffix : List ℕ

-- `bytes` is the field `data`.
pub record DataBlockBuilder (B : Type 0) : Type 0 where
  pub bytes : List ℕ
  pub position : ℕ
  pub restart_list : List ℕ
  pub bloom_filter : B

module _ (F : BloomFilter) where
  unfoldable pub new : DataBlockBuilder F.Bloom
  new = record {
    bytes = replicate header_length 0;
    position = 0;
    restart_list = [];
    bloom_filter = F.empty;
  }

  -- The restart points, one for every `block_restart_interval` entries.
  unfoldable pub push_restart :
      ℕ → DataBlockBuilder F.Bloom → PrefixedKey → Outcome (DataBlockBuilder F.Bloom)
  push_restart interval b key =
      if interval == 0
      then panicked
      else if b.position % interval == 0
      then (assert (key.prefix_len == 0)
          >> ok (record b { restart_list = b.restart_list ++ (length b.bytes % u32_mod) ∷ [] }))
      else ok b

  unfoldable pub add_entry :
      ℕ
      → DataBlockBuilder F.Bloom
      → PrefixedKey
      → (full_key : Key) (seq_number entry_type : ℕ) → Value
      → Outcome (DataBlockBuilder F.Bloom)
  add_entry interval b key full_key seq_number entry_type entry_data =
      push_restart interval b key >>= λ b'. ok (record b' {
        bytes =
            b'.bytes
            ++ (entry_header_bytes (record {
              prefix_len = key.prefix_len;
              suffix_len = length key.suffix;
              entry_type = entry_type;
              seq_number = seq_number;
              value_length = length entry_data;
            })
                ++ (key.suffix ++ entry_data));
        position = b'.position + 1;
        bloom_filter = F.set b'.bloom_filter full_key;
      })

  -- `DataBlockHeader` as bytes.
  unfoldable pub header_bytes : ℕ → ℕ → F.Bloom → List ℕ
  header_bytes restart_list_start number_of_entries bloom =
      to_le size_of_u32 restart_list_start
      ++ (to_le size_of_u32 number_of_entries ++ F.as_slice bloom)

  unfoldable pub finish :
      ℕ
      → DatabaseMetadata
      → DataBlockBuilder F.Bloom
      → DatabaseMetadata × Option (ℕ × DataBlock F.Bloom)
  finish interval meta b =
      if b.position == 0
      then (meta, none)
      else (let (identifier, meta') = generate_next_data_block_id meta in
          let restart_list_start = length b.bytes % u32_mod in
          (
            meta',
            some (
              identifier,
              record {
                restart_list_start = restart_list_start;
                num_entries = b.position;
                restart_interval = interval;
                bytes =
                    header_bytes restart_list_start b.position b.bloom_filter
                    ++ (drop header_length b.bytes
                        ++ flatten (map (to_le size_of_u32) b.restart_list));
                bloom_filter = b.bloom_filter;
              },
            ),
          ))

  -- `DataBlock::new_from_data`
  unfoldable pub new_from_data : List ℕ → ℕ → Outcome (DataBlock F.Bloom)
  new_from_data bytes restart_interval = slice bytes 0 header_length >>= λ header. ok (record {
    restart_list_start = from_le (take size_of_u32 header);
    num_entries = from_le (take size_of_u32 (drop size_of_u32 header));
    restart_interval = restart_interval;
    bytes = bytes;
    bloom_filter = F.from_bytes (drop size_of_u32 (drop size_of_u32 header));
  })

  unfoldable pub current_size : DataBlockBuilder F.Bloom → ℕ
  current_size b = length b.bytes
