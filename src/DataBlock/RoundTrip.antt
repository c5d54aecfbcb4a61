-- ===== src/DataBlock/RoundTrip.antt =====
-- A block of src/data_blocks from its builder to its lookup.
use lsm_rs.Prelude.{
  ℕ, ◌+◌, ◌%◌, ◌<◌, ◌≡◌, refl, ap, sym, subst, ◌∙◌, List, [], ◌∷◌, ◌++◌, Option, none, some, false,
  length, replicate, drop, flatten, map, ◌==◌, arith, Bool-cases, inl, inr, length-append,
  length-replicate, drop-length_append,
}
use lsm_rs.Bytes.{to_le, length-to_le, from_le-to_le, size_of_u32, u32_mod}
use lsm_rs.Key.{Key}
use lsm_rs.Outcome.{ok, Returns, Returns-imp}
use lsm_rs.Memtable.Upsert.{find, IsSorted}
use lsm_rs.Manifest.Metadata.{DatabaseMetadata, generate_next_data_block_id}
use lsm_rs.DataBlock.{DataBlock, header_length}
use lsm_rs.DataBlock.Builder.{
  BloomFilter, DataBlockBuilder, new, header_bytes, finish, new_from_data,
}
use lsm_rs.Manifest.Bytes.{take-to_le, drop-to_le}
use lsm_rs.DataBlock.Reading.{slice_middle}
use lsm_rs.DataBlock.Search.{get_by_key}
use lsm_rs.DataBlock.Items.{Item, encode_all, entries_of, IsChain, Answers}
use lsm_rs.DataBlock.Groups.{items_of}
use lsm_rs.DataBlock.Restarts.{Holds}
use lsm_rs.DataBlock.GetByKey.{get_by_key-find}
use lsm_rs.DataBlock.Built.{IsBuilt, new-IsBuilt, add_items, HasRestarts}
use lsm_rs.DataBlock.Adding.{AllAdded, add_items-AllAdded, length-bytes}

module _ (F : BloomFilter) (interval : ℕ) where
  length-header_bytes :
      (start n : ℕ) (bloom : F.Bloom) → length (header_bytes F start n bloom) ≡ header_length
  unfolding header_bytes
  length-header_bytes start n bloom = omega (
    arith,
    length-append (to_le size_of_u32 start) (to_le size_of_u32 n ++ F.as_slice bloom),
    length-append (to_le size_of_u32 n) (F.as_slice bloom),
    length-to_le size_of_u32 start,
    length-to_le size_of_u32 n,
    F.length-as_slice bloom,
  )

  -- The block that `finish` makes.
  unfoldable pub finished : DataBlockBuilder F.Bloom → DataBlock F.Bloom
  finished b = record {
    restart_list_start = length b.bytes % u32_mod;
    num_entries = b.position;
    restart_interval = interval;
    bytes =
        header_bytes F (length b.bytes % u32_mod) b.position b.bloom_filter
        ++ (drop header_length b.bytes ++ flatten (map (to_le size_of_u32) b.restart_list));
    bloom_filter = b.bloom_filter;
  }

  pub finish-some :
      (meta : DatabaseMetadata) (b : DataBlockBuilder F.Bloom)
      → (b.position == 0) ≡ false
      → (finish F interval meta b).1 ≡ some ((generate_next_data_block_id meta).0, finished b)
  unfolding finish finished
  finish-some meta b e = rw (e, finish) refl

  drop-bytes :
      (b : DataBlockBuilder F.Bloom) (groups : List (List Item))
      → IsBuilt F interval b groups
      → drop header_length b.bytes ≡ encode_all (items_of groups)
  drop-bytes b groups h =
      ap (drop header_length) h.bytes
      ∙ subst
          (λ n.
            drop n (replicate header_length 0 ++ encode_all (items_of groups))
            ≡ encode_all (items_of groups))
          (length-replicate {A = ℕ} header_length 0)
          (drop-length_append (replicate header_length 0) (encode_all (items_of groups)))

  finished-Holds :
      (b : DataBlockBuilder F.Bloom) (groups : List (List Item))
      → IsBuilt F interval b groups
      → length b.bytes < u32_mod
      → IsChain [] (items_of groups)
      → IsSorted (entries_of (items_of groups))
      → Holds (finished b) groups
  unfolding finished
  finished-Holds b groups h small chain sorted = record {
    pre = header_bytes F (length b.bytes % u32_mod) b.position b.bloom_filter;
    bytes =
        ap (λ l. header_bytes F (length b.bytes % u32_mod) b.position b.bloom_filter ++ l)
          (ap (λ l. l ++ flatten (map (to_le size_of_u32) b.restart_list)) (drop-bytes b groups h)
            ∙ ap (λ l. encode_all (items_of groups) ++ l) h.restarts);
    length_pre = length-header_bytes (length b.bytes % u32_mod) b.position b.bloom_filter;
    restarts = omega (arith, small, length-bytes F interval b groups h);
    small = omega arith;
    chain = chain;
    starts = h.starts;
    sorted = sorted;
  }

  -- The bytes of a finished block, with fewer than 2 ^ 32 entries, load as the block.
  pub new_from_data-finish :
      (meta : DatabaseMetadata) (b : DataBlockBuilder F.Bloom) (id : ℕ) (block : DataBlock F.Bloom)
      → b.position < u32_mod
      → (finish F interval meta b).1 ≡ some (id, block)
      → new_from_data F block.bytes interval ≡ ok block
  unfolding finish finished new_from_data header_bytes
  new_from_data-finish meta b id block few e = elim (Bool-cases (b.position == 0)) [
    | inl empty ↦ absurd (ground (arith, e, empty))
    | inr some_entries ↦
        subst (λ c. new_from_data F c.bytes interval ≡ ok c)
          (ap block_of (sym (finish-some meta b some_entries) ∙ e)) loaded
  ]
    where
      block_of : Option (ℕ × DataBlock F.Bloom) → DataBlock F.Bloom
      block_of none = finished b
      block_of (some (id, c)) = c

      start : ℕ
      start = length b.bytes % u32_mod

      loaded : new_from_data F (finished b).bytes interval ≡ ok (finished b)
      loaded =
          rw
            (
              slice_middle (finished b).bytes [] (header_bytes F start b.position b.bloom_filter)
                  (drop header_length b.bytes ++ flatten (map (to_le size_of_u32) b.restart_list)) 0
                  header_length refl refl (length-header_bytes start b.position b.bloom_filter),
              take-to_le size_of_u32 start
                  (to_le size_of_u32 b.position ++ F.as_slice b.bloom_filter),
              drop-to_le size_of_u32 start
                  (to_le size_of_u32 b.position ++ F.as_slice b.bloom_filter),
              take-to_le size_of_u32 b.position (F.as_slice b.bloom_filter),
              drop-to_le size_of_u32 b.position (F.as_slice b.bloom_filter),
              from_le-to_le size_of_u32 start (omega arith),
              from_le-to_le size_of_u32 b.position few,
              F.from_bytes-as_slice b.bloom_filter,
            )
            refl

  -- What a lookup in the finished block gives.
  abbrev pub FindsIn : List Item → Key → Option (ℕ × DataBlock F.Bloom) → Type 0
  FindsIn items key none = ⊥
  FindsIn items key (some (id, block)) =
      Returns (get_by_key F.check block key) (Answers block (find (entries_of items) key))

  abbrev pub Finds : DatabaseMetadata → List Item → Key → DataBlockBuilder F.Bloom → Type 0
  Finds meta items key b = FindsIn items key (finish F interval meta b).1

  -- For at least one entry, where the entries are sorted by key, share the prefixes that they say with the
  -- keys before them, have whole keys at the restart points and fields that fit their widths, the restart
  -- interval is positive, and the header and the entries take fewer than 2 ^ 32 bytes: the builder takes
  -- the entries without a panic. In the block that it
  -- finishes, the lookup of any key ends without a panic, with an entry that reads as the version that
  -- was put in under the key, or with no entry where there is none.
  pub get_by_key-add_items :
      (meta : DatabaseMetadata) (items : List Item) (key : Key)
      → IsChain [] items
      → IsSorted (entries_of items)
      → HasRestarts F interval 0 items
      → 0 < interval
      → 0 < length items
      → header_length + length (encode_all items) < u32_mod
      → Returns (add_items F interval (new F) items) (Finds meta items key)
  unfolding new AllAdded items_of encode_all finished
  get_by_key-add_items meta items key chain sorted restarts positive some_items small =
      Returns-imp (add_items F interval (new F) items) (AllAdded F interval [] items)
        (Finds meta items key)
        (add_items-AllAdded F interval (new F) [] items (new-IsBuilt F interval) positive restarts
          (omega (arith, small)))
        found
    where
      some_groups : (gs : List (List Item)) → items_of gs ≡ items → 0 < length gs
      some_groups [] e = absurd (omega (arith, ap length e, some_items))
      some_groups (g ∷ gs) e = omega arith

      found :
          (b : DataBlockBuilder F.Bloom) → AllAdded F interval [] items b → Finds meta items key b
      found b (groups, h, e) =
          let nonempty : (b.position == 0) ≡ false =
            ground (arith, h.position, some_items, ap length e) in
          subst (FindsIn items key) (sym (finish-some meta b nonempty)) (
            subst
              (λ l.
                Returns (get_by_key F.check (finished b) key)
                  (Answers (finished b) (find (entries_of l) key)))
              e
              (get_by_key-find (finished b) groups
                (finished-Holds b groups h
                  (omega (
                    arith,
                    small,
                    length-bytes F interval b groups h,
                    ap (λ l. length (encode_all l)) e,
                  ))
                  (subst (IsChain []) (sym e) chain)
                  (subst (λ l. IsSorted (entries_of l)) (sym e) sorted))
                key F.check (some_groups groups e) h.keys))
