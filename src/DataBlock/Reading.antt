-- ===== src/DataBlock/Reading.antt =====
-- How src/data_blocks reads back the entries that it has written.
use lsm_rs.Prelude.{
  take-append-drop, ℕ, ◌+◌, ◌%◌, ◌≤◌, ◌<◌, ◌≡◌, refl, sym, subst, ◌∙◌, List, [], ◌++◌, none, some,
  true, false, length, take, drop, ltb, leb, arith, length-append, length-take, take_all,
  take-length_append, drop-length_append, append_assoc,
}
use lsm_rs.Bytes.{to_le, length-to_le, from_le-to_le, size_of_u32, size_of_u64, u32_mod, u64_mod}
use lsm_rs.Manifest.Bytes.{take-to_le, drop-to_le}
use lsm_rs.Key.{Key}
use lsm_rs.Outcome.{ok}
use lsm_rs.EntryType.{put, delete}
use lsm_rs.WriteBatch.Op.{put_op, delete_op}
use lsm_rs.DataBlock.{
  DataBlock, EntryHeader, entry_header_bytes, read_entry_header, entry_header_len, header_length,
  slice, get_header, get_entry_at_offset, get_value, get_sequence_number, get_type,
}

-- The fields fit their widths.
pub record Fits (h : EntryHeader) : Type 0 where
  pub prefix_len : h.prefix_len < u32_mod
  pub suffix_len : h.suffix_len < u32_mod
  pub entry_type : h.entry_type < 256
  pub seq_number : h.seq_number < u64_mod
  pub value_length : h.value_length < u64_mod

take-to_le_all : (w n : ℕ) → take w (to_le w n) ≡ to_le w n
take-to_le_all w n = take_all w (to_le w n) (omega (arith, length-to_le w n))

pub read-entry_header_bytes :
    (h : EntryHeader) → Fits h → read_entry_header (entry_header_bytes h) ≡ h
unfolding read_entry_header entry_header_bytes
read-entry_header_bytes h f =
    rw
      (
        drop-to_le size_of_u32 h.prefix_len,
        drop-to_le size_of_u32 h.suffix_len,
        drop-to_le 1 h.entry_type,
        drop-to_le size_of_u64 h.seq_number,
        take-to_le size_of_u32 h.prefix_len,
        take-to_le size_of_u32 h.suffix_len,
        take-to_le 1 h.entry_type,
        take-to_le size_of_u64 h.seq_number,
        take-to_le_all size_of_u64 h.value_length,
        from_le-to_le size_of_u32 h.prefix_len f.prefix_len,
        from_le-to_le size_of_u32 h.suffix_len f.suffix_len,
        from_le-to_le 1 h.entry_type f.entry_type,
        from_le-to_le size_of_u64 h.seq_number f.seq_number,
        from_le-to_le size_of_u64 h.value_length f.value_length,
      )
      refl

length-to_le_append : (w n : ℕ) (rest : List ℕ) → length (to_le w n ++ rest) ≡ w + length rest
length-to_le_append w n rest = omega (arith, length-append (to_le w n) rest, length-to_le w n)

pub length-entry_header_bytes : (h : EntryHeader) → length (entry_header_bytes h) ≡ entry_header_len
unfolding entry_header_bytes
length-entry_header_bytes h =
    rw
      (
        length-to_le_append size_of_u32 h.prefix_len,
        length-to_le_append size_of_u32 h.suffix_len,
        length-to_le_append 1 h.entry_type,
        length-to_le_append size_of_u64 h.seq_number,
        length-to_le size_of_u64 h.value_length,
      )
      refl

-- A slice that stands between two parts.
pub slice_middle :
    (bytes pre middle rest : List ℕ) (start len : ℕ)
    → bytes ≡ pre ++ (middle ++ rest)
    → length pre ≡ start
    → length middle ≡ len
    → slice bytes start len ≡ ok middle
unfolding slice
slice_middle bytes pre middle rest start len b e k =
    subst (λ l. slice l start len ≡ ok middle) (sym b)
      (subst (λ s. slice (pre ++ (middle ++ rest)) s len ≡ ok middle) e
        (subst (λ n. slice (pre ++ (middle ++ rest)) (length pre) n ≡ ok middle) k main))
  where
    inside : leb (length pre + length middle) (length (pre ++ (middle ++ rest))) ≡ true
    inside = ground (arith, length-append pre (middle ++ rest), length-append middle rest)

    main : slice (pre ++ (middle ++ rest)) (length pre) (length middle) ≡ ok middle
    main = rw (inside, drop-length_append pre (middle ++ rest), take-length_append middle rest) refl

-- An entry of a block as it is stored: its header, the rest of its key and its value, behind `pre`.
pub record IsStored {B : Type 0} (block : DataBlock B) (pre : List ℕ) (h : EntryHeader)
    (suffix value rest : List ℕ) : Type 0 where
  pub bytes : block.bytes ≡ pre ++ (entry_header_bytes h ++ (suffix ++ (value ++ rest)))
  pub fits : Fits h
  pub suffix_len : length suffix ≡ h.suffix_len
  pub value_length : length value ≡ h.value_length
  pub before_restarts :
      length pre + entry_header_len + h.suffix_len + h.value_length ≤ block.restart_list_start
  pub small : block.restart_list_start < u32_mod

module _ {B : Type 0} (block : DataBlock B) (pre : List ℕ) (h : EntryHeader)
    (suffix value rest : List ℕ) (stored : IsStored block pre h suffix value rest) where
  get_header-IsStored :
      (next : ℕ) → get_header block (record { offset = length pre; next_offset = next }) ≡ ok h
  unfolding get_header
  get_header-IsStored next =
      rw
        (
          slice_middle block.bytes pre (entry_header_bytes h) (suffix ++ (value ++ rest))
              (length pre) entry_header_len stored.bytes refl (length-entry_header_bytes h),
          read-entry_header_bytes h stored.fits,
        )
        refl

  -- The rest of the key stands behind the header.
  suffix-IsStored : slice block.bytes (length pre + entry_header_len) h.suffix_len ≡ ok suffix
  suffix-IsStored =
      slice_middle block.bytes (pre ++ entry_header_bytes h) suffix (value ++ rest)
        (length pre + entry_header_len) h.suffix_len
        (stored.bytes ∙ sym (append_assoc pre (entry_header_bytes h) (suffix ++ (value ++ rest))))
        (omega (arith, length-append pre (entry_header_bytes h), length-entry_header_bytes h))
        stored.suffix_len

  value-IsStored :
      slice block.bytes (length pre + entry_header_len + h.suffix_len) h.value_length ≡ ok value
  value-IsStored =
      slice_middle block.bytes ((pre ++ entry_header_bytes h) ++ suffix) value rest
        (length pre + entry_header_len + h.suffix_len) h.value_length
        (stored.bytes
          ∙ sym (append_assoc pre (entry_header_bytes h) (suffix ++ (value ++ rest)))
          ∙ sym (append_assoc (pre ++ entry_header_bytes h) suffix (value ++ rest)))
        (omega (
          arith,
          length-append (pre ++ entry_header_bytes h) suffix,
          length-append pre (entry_header_bytes h),
          length-entry_header_bytes h,
          stored.suffix_len,
        ))
        stored.value_length

  -- The entry at its offset reads as its key, which is put together from the start of the key before it
  -- and the stored rest, and as the position behind it.
  pub get_entry_at_offset-IsStored :
      (offset : ℕ) (previous_key : Key)
      → offset + header_length ≡ length pre
      → h.prefix_len ≤ length previous_key
      → get_entry_at_offset block offset previous_key
        ≡ ok (
          take h.prefix_len previous_key ++ suffix,
          record {
            offset = length pre;
            next_offset = offset + entry_header_len + h.suffix_len + h.value_length;
          },
        )
  unfolding get_entry_at_offset
  get_entry_at_offset-IsStored offset previous_key at long =
      rw (at, not_behind, get_header-IsStored 0, prefix, suffix-IsStored, no_wrap) refl
    where
      not_behind : ltb block.restart_list_start (length pre + entry_header_len) ≡ false
      not_behind = ground (arith, stored.before_restarts)

      prefix : slice previous_key 0 h.prefix_len ≡ ok (take h.prefix_len previous_key)
      prefix =
          slice_middle previous_key [] (take h.prefix_len previous_key)
            (drop h.prefix_len previous_key) 0 h.prefix_len
            (sym (take-append-drop h.prefix_len previous_key)) refl
            (omega (arith, length-take h.prefix_len previous_key, long))

      no_wrap :
          (offset + entry_header_len + h.suffix_len + h.value_length) % u32_mod
          ≡ offset + entry_header_len + h.suffix_len + h.value_length
      no_wrap = omega (arith, at, stored.before_restarts, stored.small)

  -- The getters of the entry give the sequence number, the type and the value that were stored.
  pub get_sequence_number-IsStored :
      (next : ℕ)
      → get_sequence_number block (record { offset = length pre; next_offset = next })
        ≡ ok h.seq_number
  unfolding get_sequence_number
  get_sequence_number-IsStored next = rw (get_header-IsStored next) refl

  pub get_put-IsStored :
      (next : ℕ)
      → h.entry_type ≡ put_op
      → (get_type block (record { offset = length pre; next_offset = next }) ≡ ok put)
        × (get_value block (record { offset = length pre; next_offset = next }) ≡ ok (some value))
  unfolding get_type get_value
  get_put-IsStored next e =
      (rw (get_header-IsStored next, e) refl, rw (get_header-IsStored next, e, value-IsStored) refl)

  pub get_delete-IsStored :
      (next : ℕ)
      → h.entry_type ≡ delete_op
      → (get_type block (record { offset = length pre; next_offset = next }) ≡ ok delete)
        × (get_value block (record { offset = length pre; next_offset = next }) ≡ ok none)
  unfolding get_type get_value
  get_delete-IsStored next e =
      (rw (get_header-IsStored next, e) refl, rw (get_header-IsStored next, e) refl)
