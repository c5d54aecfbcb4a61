-- ===== src/DataBlock.antt =====
-- src/data_blocks/block.rs and the entries of src/data_blocks/mod.rs: the bytes of a data block and how
-- entries are read from them. The bloom filter is of another crate and is a parameter. `repr(C, packed)`
-- headers are their fields one after another.
pub mod Builder
pub mod Search
pub mod Reading
pub mod Items
pub mod Groups
pub mod Restarts
pub mod Lookup
pub mod Found
pub mod GetByKey
pub mod LastGroup
pub mod Built
pub mod Adding
pub mod RoundTrip
pub mod Tests
use Prim.Native.Nat.Ordering.{lt, eq, gt}
use lsm_rs.Prelude.{
  ℕ, zero, suc, ◌+◌, ◌-◌, ◌*◌, ◌/◌, ◌%◌, List, [], ◌∷◌, ◌++◌, Option, none, some, Bool, true, false,
  length, take, drop, leb, ltb, ◌==◌, if◌then◌else◌,
}
use lsm_rs.Bytes.{to_le, from_le, size_of_u32, size_of_u64, u32_mod}
use lsm_rs.Key.{Key, Value, cmp, key_eq}
use lsm_rs.EntryType.{DataEntryType, put, delete}
use lsm_rs.WriteBatch.Op.{put_op, delete_op}
use lsm_rs.Outcome.{Outcome, ok, panicked, diverged, ◌>>=◌, ◌>>◌, assert}

-- `BLOOM_LENGTH + BLOOM_HEADER_SIZE`
abbrev pub bloom_size : ℕ
bloom_size = 1024 + (1 + 8 + 4 + 32)

-- The size of `DataBlockHeader`.
abbrev pub header_length : ℕ
header_length = size_of_u32 + (size_of_u32 + bloom_size)

pub record EntryHeader : Type 0 where
  pub prefix_len : ℕ
  pub suffix_len : ℕ
  pub entry_type : ℕ
  pub seq_number : ℕ
  pub value_length : ℕ

abbrev pub entry_header_len : ℕ
entry_header_len = 25

-- `as_bytes` and `ref_from_bytes` of the header of an entry.
unfoldable pub entry_header_bytes : EntryHeader → List ℕ
entry_header_bytes h =
    to_le size_of_u32 h.prefix_len
    ++ (to_le size_of_u32 h.suffix_len
        ++ (to_le 1 h.entry_type
            ++ (to_le size_of_u64 h.seq_number ++ to_le size_of_u64 h.value_length)))

unfoldable pub read_entry_header : List ℕ → EntryHeader
read_entry_header bytes =
    let b1 = drop size_of_u32 bytes in
    let b2 = drop size_of_u32 b1 in
    let b3 = drop 1 b2 in
    let b4 = drop size_of_u64 b3 in
    record {
      prefix_len = from_le (take size_of_u32 bytes);
      suffix_len = from_le (take size_of_u32 b1);
      entry_type = from_le (take 1 b2);
      seq_number = from_le (take size_of_u64 b3);
      value_length = from_le (take size_of_u64 b4);
    }

-- A slice `bytes[start..start + len]`, which panics where it is not inside.
unfoldable pub slice : List ℕ → ℕ → ℕ → Outcome (List ℕ)
slice bytes start len =
    if leb (start + len) (length bytes) then ok (take len (drop start bytes)) else panicked

-- `bytes` is the field `data`, and `bloom_filter` the state of the filter.
pub record DataBlock (B : Type 0) : Type 0 where
  pub restart_list_start : ℕ
  pub num_entries : ℕ
  pub restart_interval : ℕ
  pub bytes : List ℕ
  pub bloom_filter : B

-- The block of an entry is an argument of what reads it.
pub record DataEntry : Type 0 where
  pub offset : ℕ
  pub next_offset : ℕ

pub data SearchResult : Type 0 where
  exact_match : DataEntry → SearchResult
  range : (start end : ℕ) → SearchResult

module _ {B : Type 0} where
  unfoldable pub get_header : DataBlock B → DataEntry → Outcome EntryHeader
  get_header block entry = do
    bytes ← slice block.bytes entry.offset entry_header_len
    ok (read_entry_header bytes)

  unfoldable pub get_sequence_number : DataBlock B → DataEntry → Outcome ℕ
  get_sequence_number block entry = do header ← get_header block entry; ok header.seq_number

  unfoldable pub get_type : DataBlock B → DataEntry → Outcome DataEntryType
  get_type block entry = get_header block entry >>= λ header.
      if header.entry_type == put_op
      then ok put
      else if header.entry_type == delete_op
      then ok delete
      else panicked

  unfoldable pub get_value : DataBlock B → DataEntry → Outcome (Option Value)
  get_value block entry = get_header block entry >>= λ header.
      if header.entry_type == put_op
      then (slice block.bytes (entry.offset + entry_header_len + header.suffix_len)
            header.value_length
          >>= λ value. ok (some value))
      else if header.entry_type == delete_op
      then ok none
      else panicked

  unfoldable pub get_entry_at_offset : DataBlock B → ℕ → Key → Outcome (Key × DataEntry)
  get_entry_at_offset block offset previous_key =
      let start = offset + header_length in
      if ltb block.restart_list_start (start + entry_header_len) then panicked else do
        header ← get_header block (record { offset = start; next_offset = 0 })
        prefix ← slice previous_key 0 header.prefix_len
        suffix ← slice block.bytes (start + entry_header_len) header.suffix_len
        ok (
          prefix ++ suffix,
          record {
            offset = start;
            next_offset =
                (offset + entry_header_len + header.suffix_len + header.value_length) % u32_mod;
          },
        )

  -- For a block with the header and the restart list inside its bytes, where no subtraction underflows.
  unfoldable pub byte_len : DataBlock B → ℕ
  byte_len block =
      let rl_len = length block.bytes - block.restart_list_start in
      (length block.bytes - header_length - rl_len) % u32_mod

  unfoldable pub restart_list_len : DataBlock B → Outcome ℕ
  restart_list_len block =
      let rl_len = length block.bytes - block.restart_list_start in
      assert (rl_len % size_of_u32 == 0) >> ok (rl_len / size_of_u32)

  -- The offset that is stored counts the header.
  unfoldable pub get_restart_offset : DataBlock B → ℕ → Outcome ℕ
  get_restart_offset block pos = do
    bytes ← slice block.bytes (block.restart_list_start + pos * size_of_u32) size_of_u32
    assert (leb header_length (from_le bytes))
    ok (from_le bytes - header_length)
