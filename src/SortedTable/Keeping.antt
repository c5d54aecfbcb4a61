-- ===== src/SortedTable/Keeping.antt =====
-- What the table builder of src/sorted_table/builder.rs leaves as it is: the identifier of the table, and
-- of the manifest all but the counter of data blocks.
use lsm_rs.Prelude.{
  ℕ, ◌+◌, ◌≡◌, refl, ap, ◌∙◌, [], ◌∷◌, Option, none, some, Bool-cases, Option-cases, inl, inr, leb,
  ◌==◌,
}
use lsm_rs.Key.{Key, Value}
use lsm_rs.Outcome.{IfOk, IfOk-bind, IfOk-any, IfOk-imp}
use lsm_rs.Memtable.{value, deletion, Entries}
use lsm_rs.Manifest.Metadata.{DatabaseMetadata, generate_next_data_block_id}
use lsm_rs.Params.{Params}
use lsm_rs.DataBlock.{DataBlock}
use lsm_rs.DataBlock.Builder as Blocks
use lsm_rs.DataBlock.Builder.{BloomFilter, DataBlockBuilder}
use lsm_rs.SortedTable.Builder.{
  TableBuilder, BlockStore, store_block, finish_block, push_index, next_block, end_block,
  last_block, add_entry, add_value, add_deletion, add_entries, finish,
}

module _ (F : BloomFilter) (params : Params) where
  -- The builder and the store after some calls.
  abbrev pub Keeps :
      TableBuilder F.Bloom → BlockStore F.Bloom → TableBuilder F.Bloom × BlockStore F.Bloom → Type 0
  Keeps b s r =
      (r.0.identifier ≡ b.identifier) × (r.1.manifest.next_table_id ≡ s.manifest.next_table_id)

  finish-counter :
      (meta : DatabaseMetadata) (d : DataBlockBuilder F.Bloom)
      → (Blocks.finish F params.block_restart_interval meta d).0.next_table_id ≡ meta.next_table_id
  unfolding Blocks.finish generate_next_data_block_id
  finish-counter meta d = elim (Bool-cases (d.position == 0)) [
    | inl e ↦ rw (e, Blocks.finish) refl
    | inr e ↦ rw (e, Blocks.finish) refl
  ]

  finish_block-kept :
      (s : BlockStore F.Bloom) (d : DataBlockBuilder F.Bloom)
      → (finish_block F params s d).1.manifest.next_table_id ≡ s.manifest.next_table_id
  unfolding finish_block store_block
  finish_block-kept s d =
      ap (λ m. m.next_table_id) (stored (Blocks.finish F _ s.manifest d)) ∙ counter
    where
      stored :
          (x : DatabaseMetadata × Option (ℕ × DataBlock F.Bloom))
          → (store_block F params s x).1.manifest ≡ x.0
      stored (meta, none) = refl
      stored (meta, some r) = refl

      counter :
          (Blocks.finish F params.block_restart_interval s.manifest d).0.next_table_id
          ≡ s.manifest.next_table_id
      counter = finish-counter s.manifest d

  push_index-kept :
      (b : TableBuilder F.Bloom) (id : ℕ)
      → IfOk (push_index F params b id) (λ b'. b'.identifier ≡ b.identifier)
  unfolding push_index
  push_index-kept b id = elim (Option-cases b.index_key) [
    | inl e ↦ rw (e, push_index) tt
    | inr (k, e) ↦ rw (e, push_index) refl
  ]

  next_block-kept :
      (b : TableBuilder F.Bloom) (x : Option ℕ × BlockStore F.Bloom)
      → IfOk (next_block F params b x) (Keeps b x.1)
  unfolding next_block
  next_block-kept b (none, s) = tt
  next_block-kept b (some id, s) =
      IfOk-bind (push_index F params b id) _ _ _ (push_index-kept b id) (λ b' e. (e, refl))

  last_block-kept :
      (b : TableBuilder F.Bloom) (x : Option ℕ × BlockStore F.Bloom)
      → IfOk (last_block F params b x) (Keeps b x.1)
  unfolding last_block
  last_block-kept b (none, s) = (refl, refl)
  last_block-kept b (some id, s) =
      IfOk-bind (push_index F params _ id) _ _ _ (push_index-kept _ id) (λ b' e. (e, refl))

  add_entry-kept :
      (b : TableBuilder F.Bloom) (s : BlockStore F.Bloom) (key : Key) (seq op : ℕ) (v : Value)
      → IfOk (add_entry F params b s key seq op v) (Keeps b s)
  unfolding add_entry end_block
  add_entry-kept b s key seq op v =
      IfOk-bind (Blocks.add_entry F _ b.data_block _ key seq op v) _ (λ _. Unit) _ (IfOk-any _)
        (λ d _. elim (Bool-cases (leb params.max_key_block_size (b.block_entry_count + 1))) [
          | inl full ↦ rw full (
              IfOk-imp (next_block F params _ (finish_block F params s d)) _ _
                (next_block-kept _ (finish_block F params s d))
                (λ r k. (k.0, k.1 ∙ finish_block-kept s d)))
          | inr part ↦ rw part (refl, refl)
        ])

  pub add_entries-kept :
      (b : TableBuilder F.Bloom) (s : BlockStore F.Bloom) (es : Entries)
      → IfOk (add_entries F params b s es) (Keeps b s)
  unfolding add_entries add_value add_deletion
  add_entries-kept b s [] = (refl, refl)
  add_entries-kept b s ((key, value seq v) ∷ es) =
      IfOk-bind (add_value F params b s key seq v) _ (Keeps b s) _ (add_entry-kept b s key seq _ v)
        (λ r k.
          IfOk-imp (add_entries F params r.0 r.1 es) _ _ (add_entries-kept r.0 r.1 es)
            (λ x l. (l.0 ∙ k.0, l.1 ∙ k.1)))
  add_entries-kept b s ((key, deletion seq) ∷ es) =
      IfOk-bind (add_deletion F params b s key seq) _ (Keeps b s) _
        (add_entry-kept b s key seq _ [])
        (λ r k.
          IfOk-imp (add_entries F params r.0 r.1 es) _ _ (add_entries-kept r.0 r.1 es)
            (λ x l. (l.0 ∙ k.0, l.1 ∙ k.1)))

  pub finish-kept :
      (b : TableBuilder F.Bloom) (s : BlockStore F.Bloom)
      → IfOk (finish F params b s) (λ r.
        (r.0.0.identifier ≡ b.identifier) × (r.1.manifest.next_table_id ≡ s.manifest.next_table_id))
  unfolding finish
  finish-kept b s =
      IfOk-bind (last_block F params b (finish_block F params s b.data_block)) _
        (Keeps b (finish_block F params s b.data_block).1) _
        (last_block-kept b (finish_block F params s b.data_block))
        (λ r k. (k.0, k.1 ∙ finish_block-kept s b.data_block))
