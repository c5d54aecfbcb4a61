-- ===== src/IndexBlock.antt =====
-- src/index_blocks.rs: the index of a sorted table, kept as the bytes of its file, with the padding of
-- src/lib.rs. `as u32` keeps the low 32 bits.
pub mod Search
pub mod Tests
use Prim.Native.Nat.Ordering.{lt, eq, gt}
use lsm_rs.Prelude.{
  ℕ, zero, suc, ◌+◌, ◌-◌, ◌*◌, ◌/◌, ◌%◌, List, [], ◌∷◌, ◌++◌, Option, none, some, Bool, length,
  take, drop, replicate, leb, ltb, ◌==◌, ◌||◌, not, if◌then◌else◌,
}
use lsm_rs.Bytes.{to_le, from_le, size_of_u32, size_of_u64, u32_mod}
use lsm_rs.Key.{Key, cmp, key_lt, key_le}
use lsm_rs.Outcome.{Outcome, ok, panicked, diverged, ◌>>=◌, ◌>>◌, assert}

abbrev pub word_size : ℕ
word_size = 8

abbrev pub compute_padding : ℕ → ℕ
compute_padding offset = if offset % word_size == 0 then 0 else word_size - offset % word_size

abbrev pub pad_offset : ℕ → ℕ
pad_offset offset = offset + compute_padding offset

unfoldable pub add_padding : List ℕ → List ℕ
add_padding bytes = bytes ++ replicate (compute_padding (length bytes)) 0

-- The sizes of `IndexBlockHeader` and `IndexEntryHeader`, which are packed.
abbrev pub header_size : ℕ
header_size = 24

abbrev pub entry_header_size : ℕ
entry_header_size = 16

-- `copy_from_slice` into the bytes from `start` on.
unfoldable pub patch : List ℕ → ℕ → List ℕ → List ℕ
patch block start bytes = take start block ++ (bytes ++ drop (start + length bytes) block)

unfoldable pub header_bytes : ℕ → Key → Key → ℕ → List ℕ
header_bytes size min_key max_key num_data_blocks =
    to_le size_of_u64 size
    ++ (to_le size_of_u32 (length min_key)
        ++ (to_le size_of_u32 (length max_key)
            ++ (to_le size_of_u32 num_data_blocks ++ to_le size_of_u32 0)))

unfoldable pub entry_header_bytes : ℕ → Key → List ℕ
entry_header_bytes block_id key =
    to_le size_of_u64 block_id ++ (to_le size_of_u32 (length key) ++ to_le size_of_u32 0)

-- The `for` over the index, from `pos` on: the offset of an entry goes to the offset list.
unfoldable pub push_entries : List ℕ → ℕ → ℕ → List (Key × ℕ) → List ℕ
push_entries block offset_start pos [] = block
push_entries block offset_start pos ((key, block_id) ∷ index) =
    push_entries
      (patch block (offset_start + pos * size_of_u32) (to_le size_of_u32 (length block))
        ++ (entry_header_bytes block_id key ++ key))
      offset_start (pos + 1) index

-- `IndexBlock::new`: the bytes that it stores and keeps.
unfoldable pub new : List (Key × ℕ) → ℕ → Key → Key → List ℕ
new index size min_key max_key =
    let block =
      add_padding (header_bytes size min_key max_key (length index) ++ (min_key ++ max_key)) in
    push_entries (block ++ replicate (pad_offset (length index) * size_of_u32) 0) (length block) 0
      index

-- A slice of the block, which panics where it is not inside.
unfoldable pub slice : List ℕ → ℕ → ℕ → Outcome (List ℕ)
slice block start len =
    assert (leb (start + len) (length block)) >> ok (take len (drop start block))

unfoldable pub read_word : List ℕ → ℕ → ℕ → Outcome ℕ
read_word block start len = slice block start len >>= λ bytes. ok (from_le bytes)

-- A field of `get_header`, which needs the whole header.
unfoldable pub header_field : List ℕ → ℕ → ℕ → Outcome ℕ
header_field block start len = slice block 0 header_size >>= λ header. read_word header start len

abbrev pub get_size : List ℕ → Outcome ℕ
get_size block = header_field block 0 size_of_u64

abbrev pub min_key_len : List ℕ → Outcome ℕ
min_key_len block = header_field block 8 size_of_u32

abbrev pub max_key_len : List ℕ → Outcome ℕ
max_key_len block = header_field block 12 size_of_u32

abbrev pub num_data_blocks : List ℕ → Outcome ℕ
num_data_blocks block = header_field block 16 size_of_u32

unfoldable pub get_entry_offset : List ℕ → ℕ → Outcome ℕ
get_entry_offset block pos = do
  num ← num_data_blocks block
  assert (ltb (pos % u32_mod) num)
  min_len ← min_key_len block
  max_len ← max_key_len block
  read_word block (pad_offset (header_size + min_len + max_len) + pos * size_of_u32) size_of_u32

unfoldable pub get_block_id : List ℕ → ℕ → Outcome ℕ
get_block_id block pos = do
  offset ← get_entry_offset block pos
  header ← slice block offset entry_header_size
  read_word header 0 size_of_u64

unfoldable pub get_block_key : List ℕ → ℕ → Outcome Key
get_block_key block pos = do
  offset ← get_entry_offset block pos
  header ← slice block offset entry_header_size
  key_len ← read_word header 8 size_of_u32
  slice block (offset + entry_header_size) key_len

unfoldable pub get_min : List ℕ → Outcome Key
get_min block = do min_len ← min_key_len block; slice block header_size min_len

unfoldable pub get_max : List ℕ → Outcome Key
get_max block = do
  min_len ← min_key_len block
  max_len ← max_key_len block
  slice block (header_size + min_len) max_len

-- After the loop of `binary_search`.
unfoldable pub choose : List ℕ → Key → (start last : ℕ) → Outcome (Option ℕ)
choose block key start last = do
  start_key ← get_block_key block start
  assert (key_le start_key key)
  end_key ← get_block_key block last
  id ← get_block_id block (if key_le end_key key then last else start)
  ok (some id)

-- The loop of `binary_search`; its range shrinks in every round, and `fuel` bounds the rounds.
unfoldable pub search_loop : ℕ → List ℕ → Key → (start last : ℕ) → Outcome (Option ℕ)
search_loop zero block key start last =
    if ltb 1 (last - start) then diverged else choose block key start last
search_loop (suc fuel) block key start last =
    let mid = (last - start) / 2 + start in
    let below = search_loop fuel block key mid last in
    let above = search_loop fuel block key start mid in
    if ltb 1 (last - start)
    then (get_block_key block mid >>= λ mid_key. elim (cmp mid_key key) [
      | eq ↦ get_block_id block mid >>= λ id. ok (some id)
      | gt ↦ above
      | lt ↦ below
    ])
    else choose block key start last

-- The bounds check, and the loop. An index without blocks underflows.
unfoldable pub search_from : List ℕ → Key → (num : ℕ) → Outcome (Option ℕ)
search_from block key zero = panicked
search_from block key (suc last) = search_loop last block key 0 last

unfoldable pub binary_search : List ℕ → Key → Outcome (Option ℕ)
binary_search block key = do
  min_key ← get_min block
  max_key ← get_max block
  num ← num_data_blocks block
  if key_lt key min_key || not (key_le key max_key) then ok none else search_from block key num
