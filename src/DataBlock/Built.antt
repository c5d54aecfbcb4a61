-- ===== src/DataBlock/Built.antt =====
-- Blocks that the builder of src/data_blocks/builder.rs has made, entry by entry.
use native.Mathlib.Nat.{zero-mod}
use lsm_rs.Prelude.{
  ℕ, ◌+◌, ◌%◌, ◌<◌, ◌≡◌, refl, ap, sym, subst, ◌∙◌, List, [], ◌∷◌, ◌++◌, true, false, length, All,
  All-append, All-imp, arith, length-append, length-replicate, append_assoc, append-nil, replicate,
  drop, flatten, map, ◌==◌, Bool-cases, inl, inr,
}
use lsm_rs.Bytes.{to_le, size_of_u32, u32_mod}
use lsm_rs.Key.{Key}
use lsm_rs.Outcome.{Outcome, ok, ◌>>=◌, Returns}
use lsm_rs.Memtable.{get_seq_number}
use lsm_rs.DataBlock.{header_length}
use lsm_rs.DataBlock.Builder.{BloomFilter, DataBlockBuilder, new, push_restart, add_entry}
use lsm_rs.DataBlock.Items.{Item, encode, encode_all, header_of, op_of, value_of}
use lsm_rs.DataBlock.Groups.{items_of, items_of-append, encode_all-append, cut}
use lsm_rs.DataBlock.Restarts.{IsGroup, restart_bytes, restart_bytes-append}
use lsm_rs.DataBlock.LastGroup.{nil_of, extended, IsGroup-extended, same_restarts, flatten-snoc}

module _ (F : BloomFilter) (interval : ℕ) where
  -- The calls of `add_entry` for some entries.
  abbrev pub add_item : DataBlockBuilder F.Bloom → Item → Outcome (DataBlockBuilder F.Bloom)
  add_item b i =
      add_entry F interval b
        (record { prefix_len = i.prefix_len; suffix = drop i.prefix_len i.key }) i.key
        (get_seq_number i.version) (op_of i.version) (value_of i.version)

  unfoldable pub add_items :
      DataBlockBuilder F.Bloom → List Item → Outcome (DataBlockBuilder F.Bloom)
  add_items b [] = ok b
  add_items b (i ∷ items) = add_item b i >>= λ b'. add_items b' items

  -- The keys at the restart points are whole: what the assert of `add_entry` asks of its caller.
  abbrev pub HasRestarts : ℕ → List Item → Type 0
  HasRestarts position [] = Unit
  HasRestarts position (i ∷ items) =
      ((position % interval == 0) ≡ true → i.prefix_len ≡ 0) × HasRestarts (position + 1) items

  -- The builder holds the items of the groups.
  pub record IsBuilt (b : DataBlockBuilder F.Bloom) (groups : List (List Item)) : Type 0 where
    pub bytes : b.bytes ≡ replicate header_length 0 ++ encode_all (items_of groups)
    pub restarts :
        flatten (map (to_le size_of_u32) b.restart_list) ≡ restart_bytes header_length groups
    pub position : b.position ≡ length (items_of groups)
    pub starts : All IsGroup groups
    pub keys : All (λ i. F.check b.bloom_filter i.key ≡ true) (items_of groups)

  pub new-IsBuilt : IsBuilt (new F) []
  unfolding new items_of encode_all restart_bytes flatten
  new-IsBuilt = record {
    bytes = sym (append-nil (replicate header_length 0));
    restarts = refl;
    position = refl;
    starts = tt;
    keys = tt;
  }

  -- An entry goes into a new group or to the end of the last one.
  abbrev pub Added : List (List Item) → Item → DataBlockBuilder F.Bloom → Type 0
  Added groups i b =
      (next : List (List Item)) × IsBuilt b next × (items_of next ≡ items_of groups ++ i ∷ [])

  keys_kept :
      (bloom : F.Bloom) (key : Key) (items : List Item)
      → All (λ i. F.check bloom i.key ≡ true) items
      → All (λ i. F.check (F.set bloom key) i.key ≡ true) items
  keys_kept bloom key items h = All-imp (λ i. F.check-set_other bloom key i.key) items h

  -- The state after the entry, with the groups that it is then in.
  grown :
      (b : DataBlockBuilder F.Bloom) (groups next : List (List Item)) (i : Item)
      (restart_list : List ℕ)
      → IsBuilt b groups
      → items_of next ≡ items_of groups ++ i ∷ []
      → flatten (map (to_le size_of_u32) restart_list) ≡ restart_bytes header_length next
      → All IsGroup next
      → IsBuilt
          (record {
            bytes = b.bytes ++ encode i;
            position = b.position + 1;
            restart_list = restart_list;
            bloom_filter = F.set b.bloom_filter i.key;
          })
          next
  unfolding encode_all
  grown b groups next i restart_list h e r g = record {
    bytes =
        ap (λ l. l ++ encode i) h.bytes
        ∙ append_assoc (replicate header_length 0) (encode_all (items_of groups)) (encode i)
        ∙ ap (λ l. replicate header_length 0 ++ l)
            (ap (λ l. encode_all (items_of groups) ++ l) (sym (append-nil (encode i)))
              ∙ sym (encode_all-append (items_of groups) (i ∷ []))
              ∙ ap encode_all (sym e));
    restarts = r;
    position = omega (arith, h.position, ap length e, length-append (items_of groups) (i ∷ []));
    starts = g;
    keys = subst (All (λ j. F.check (F.set b.bloom_filter i.key) j.key ≡ true)) (sym e) (
        All-append _ (items_of groups) (i ∷ [])
          (keys_kept b.bloom_filter i.key (items_of groups) h.keys)
          (F.check-set b.bloom_filter i.key, tt));
  }

  fresh_group :
      (b : DataBlockBuilder F.Bloom) (groups : List (List Item)) (i : Item)
      → IsBuilt b groups
      → i.prefix_len ≡ 0
      → length b.bytes < u32_mod
      → IsBuilt
          (record {
            bytes = b.bytes ++ encode i;
            position = b.position + 1;
            restart_list = b.restart_list ++ (length b.bytes % u32_mod) ∷ [];
            bloom_filter = F.set b.bloom_filter i.key;
          })
          (groups ++ (i ∷ []) ∷ [])
  unfolding items_of restart_bytes flatten
  fresh_group b groups i h zero_prefix small =
      grown b groups (groups ++ (i ∷ []) ∷ []) i (b.restart_list ++ (length b.bytes % u32_mod) ∷ [])
        h (items_of-append groups ((i ∷ []) ∷ []))
        (flatten-snoc b.restart_list (length b.bytes % u32_mod)
          ∙ ap (λ l. l ++ to_le size_of_u32 (length b.bytes % u32_mod)) h.restarts
          ∙ ap (λ l. restart_bytes header_length groups ++ l)
              (sym (append-nil (to_le size_of_u32 (length b.bytes % u32_mod))))
          ∙ sym (
              restart_bytes-append header_length (length b.bytes % u32_mod) groups ((i ∷ []) ∷ []) (
                omega (
                  arith,
                  ap length h.bytes,
                  small,
                  length-replicate {A = ℕ} header_length 0,
                  length-append (replicate header_length 0) (encode_all (items_of groups)),
                ))))
        (All-append IsGroup groups ((i ∷ []) ∷ []) h.starts (zero_prefix, tt))

  same_group :
      (b : DataBlockBuilder F.Bloom) (front : List (List Item)) (g : List Item) (i : Item)
      → IsBuilt b (front ++ g ∷ [])
      → IsBuilt
          (record b {
            bytes = b.bytes ++ encode i;
            position = b.position + 1;
            bloom_filter = F.set b.bloom_filter i.key;
          })
          (front ++ (g ++ i ∷ []) ∷ [])
  unfolding items_of restart_bytes
  same_group b front g i h =
      grown b (front ++ g ∷ []) (front ++ (g ++ i ∷ []) ∷ []) i b.restart_list h
        (extended front g i) (h.restarts ∙ same_restarts header_length front g (g ++ i ∷ []))
        (IsGroup-extended front g i h.starts)

  last_group :
      (b : DataBlockBuilder F.Bloom) (groups : List (List Item)) (i : Item)
      → IsBuilt b groups
      → (b.position % interval == 0) ≡ false
      → Added groups i (record b {
        bytes = b.bytes ++ encode i;
        position = b.position + 1;
        bloom_filter = F.set b.bloom_filter i.key;
      })
  unfolding items_of
  last_group b [] i h e =
      absurd
        (differ (ap (λ p. p % interval == 0) h.position ∙ ap (λ r. r == 0) (zero-mod interval)))
    where
      differ : (b.position % interval == 0) ≡ true → ⊥
      differ t = absurd (ground (arith, e, t))
  last_group b (x ∷ groups) i h e =
      let (front, g, back, split, l) = cut (length groups) (x ∷ groups) (omega arith) in
      let split' : (x ∷ groups) ≡ front ++ g ∷ [] =
        split
        ∙ ap (λ gs. front ++ g ∷ gs)
            (nil_of back (omega (arith, ap length split, length-append front (g ∷ back), l))) in
      (
        front ++ (g ++ i ∷ []) ∷ [],
        same_group b front g i (subst (IsBuilt b) split' h),
        extended front g i ∙ ap (λ gs. items_of gs ++ i ∷ []) (sym split'),
      )

  pub add_item-Added :
      (b : DataBlockBuilder F.Bloom) (groups : List (List Item)) (i : Item)
      → IsBuilt b groups
      → 0 < interval
      → ((b.position % interval == 0) ≡ true → i.prefix_len ≡ 0)
      → length b.bytes < u32_mod
      → Returns (add_item b i) (Added groups i)
  unfolding add_entry push_restart encode header_of items_of
  add_item-Added b groups i h positive whole small =
      let some_interval : (interval == 0) ≡ false = ground (arith, positive) in
      elim (Bool-cases (b.position % interval == 0)) [
        | inl e ↦
            let zero_prefix : (i.prefix_len == 0) ≡ true = ground (arith, whole e) in
            rw (some_interval, e, zero_prefix)
              (
                groups ++ (i ∷ []) ∷ [],
                fresh_group b groups i h (whole e) small,
                items_of-append groups ((i ∷ []) ∷ []),
              )
        | inr e ↦ rw (some_interval, e) (last_group b groups i h e)
      ]
