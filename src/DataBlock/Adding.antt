-- ===== src/DataBlock/Adding.antt =====
-- All entries of a data block of src/data_blocks, in the order of the calls of `add_entry`.
use lsm_rs.Prelude.{
  ℕ, ◌+◌, ◌<◌, ◌≡◌, ap, sym, subst, ◌∙◌, List, [], ◌∷◌, ◌++◌, length, arith, length-append,
  length-replicate, append_assoc, append-nil, replicate,
}
use lsm_rs.Bytes.{u32_mod}
use lsm_rs.Outcome.{Returns, Returns-bind, Returns-imp}
use lsm_rs.DataBlock.{header_length}
use lsm_rs.DataBlock.Builder.{BloomFilter, DataBlockBuilder}
use lsm_rs.DataBlock.Items.{Item, encode, encode_all}
use lsm_rs.DataBlock.Groups.{items_of, encode_all-append}
use lsm_rs.DataBlock.Built.{IsBuilt, add_item, add_items, HasRestarts, Added, add_item-Added}

module _ (F : BloomFilter) (interval : ℕ) where
  -- All entries of a block, which still fits 32 bits.
  unfoldable pub AllAdded : List (List Item) → List Item → DataBlockBuilder F.Bloom → Type 0
  AllAdded groups items b =
      (next : List (List Item)) × IsBuilt F interval b next
      × (items_of next ≡ items_of groups ++ items)

  pub length-bytes :
      (b : DataBlockBuilder F.Bloom) (groups : List (List Item))
      → IsBuilt F interval b groups
      → length b.bytes ≡ header_length + length (encode_all (items_of groups))
  length-bytes b groups h = omega (
    arith,
    ap length h.bytes,
    length-append (replicate header_length 0) (encode_all (items_of groups)),
    length-replicate {A = ℕ} header_length 0,
  )

  pub add_items-AllAdded :
      (b : DataBlockBuilder F.Bloom) (groups : List (List Item)) (items : List Item)
      → IsBuilt F interval b groups
      → 0 < interval
      → HasRestarts F interval b.position items
      → header_length + length (encode_all (items_of groups)) + length (encode_all items) < u32_mod
      → Returns (add_items F interval b items) (AllAdded groups items)
  unfolding add_items AllAdded encode_all
  add_items-AllAdded b groups [] h positive r small =
      (groups, h, sym (append-nil (items_of groups)))
  add_items-AllAdded b groups (i ∷ items) h positive r small =
      Returns-bind (add_item F interval b i) (λ b'. add_items F interval b' items)
        (Added F interval groups i) (AllAdded groups (i ∷ items))
        (add_item-Added F interval b groups i h positive r.0
          (omega (arith, small, length-bytes b groups h)))
        (λ b' added.
          let next = added.0 in
          let size =
            ap length (ap encode_all added.2 ∙ encode_all-append (items_of groups) (i ∷ [])) in
          Returns-imp (add_items F interval b' items) (AllAdded next items)
            (AllAdded groups (i ∷ items))
            (add_items-AllAdded b' next items added.1 positive
              (subst (λ p. HasRestarts F interval p items) (sym (counted b' next i added.1 added.2))
                r.1)
              (omega (
                arith,
                small,
                size,
                length-append (encode_all (items_of groups)) (encode i ++ []),
                ap length (append-nil (encode i)),
                length-append (encode i) (encode_all items),
              )))
            (λ b'' all. (
              all.0,
              all.1,
              all.2 ∙ ap (λ l. l ++ items) added.2 ∙ append_assoc (items_of groups) (i ∷ []) items,
            )))
    where
      counted :
          (b' : DataBlockBuilder F.Bloom) (next : List (List Item)) (i : Item)
          → IsBuilt F interval b' next
          → items_of next ≡ items_of groups ++ i ∷ []
          → b'.position ≡ b.position + 1
      counted b' next i h' e =
          omega
            (arith, h.position, h'.position, ap length e, length-append (items_of groups) (i ∷ []))
