-- ===== src/SortedTable/Table.antt =====
-- The tables that the builder of src/sorted_table/builder.rs makes of some entries.
use lsm_rs.Prelude.{
  ℕ, ◌+◌, ◌<◌, ◌≤◌, ◌≡◌, refl, sym, subst, ◌∙◌, List, [], ◌∷◌, ◌++◌, none, true, length, All, ◌==◌,
  arith, Bool-cases, inl, inr, append-nil,
}
use lsm_rs.Key.{Key}
use lsm_rs.Outcome.{Outcome, ok, Returns, Returns-bind, ◌>>=◌}
use lsm_rs.WriteBatch.Op.{put_op, delete_op}
use lsm_rs.Memtable.{MemtableEntry, value, deletion, Entries}
use lsm_rs.Params.{Params}
use lsm_rs.IndexBlock as Index
use lsm_rs.DataBlock.{DataBlock}
use lsm_rs.DataBlock.Builder as Blocks
use lsm_rs.DataBlock.Builder.{BloomFilter, DataBlockBuilder}
use lsm_rs.SortedTable.{SortedTable, new_table}
use lsm_rs.SortedTable.Builder.{
  TableBuilder, BlockStore, new, store_block, finish_block, push_index, last_block, add_entry,
  add_value, add_deletion, add_entries, finish,
}
use lsm_rs.SortedTable.Indexing.{ids_of, index_ids, total}
use lsm_rs.SortedTable.Building.{IsGrown, add_entry-IsBuilding, finish_block-some, block-HasBlock}

module _ (F : BloomFilter) (params : Params) (old : List (ℕ × DataBlock F.Bloom)) where
  abbrev interval : ℕ
  interval = params.block_restart_interval

  abbrev most : ℕ
  most = params.max_key_block_size

  new-IsGrown :
      (s : BlockStore F.Bloom) (id : ℕ) (min max : Key)
      → s.blocks ≡ old
      → 0 < most
      → IsGrown F params old 0 (new F params id min max, s)
  unfolding new Blocks.new
  new-IsGrown s id min max e some_room = (
    [],
    record {
      blocks = e ∙ sym (append-nil old);
      index = refl;
      bounds = tt;
      counted = refl;
      position = refl;
      few = omega arith;
      rounds = 0;
      restarts = omega arith;
      in_round = omega arith;
      fresh = λ z. refl;
      has_key = λ z. absurd (omega (arith, z));
    },
    some_room,
  )

  sum : (n : ℕ) (x : Key × MemtableEntry) (es : Entries) → n + 1 + length es ≡ n + length (x ∷ es)
  sum n x es = omega arith

  add_entries-IsGrown :
      (b : TableBuilder F.Bloom) (s : BlockStore F.Bloom) (n : ℕ) (es : Entries)
      → IsGrown F params old n (b, s)
      → 0 < interval
      → Returns (add_entries F params b s es) (IsGrown F params old (n + length es))
  unfolding add_entries add_value add_deletion
  add_entries-IsGrown b s n [] h positive =
      subst (λ m. IsGrown F params old m (b, s)) (omega arith) h
  add_entries-IsGrown b s n ((key, value seq v) ∷ es) (made, h, room) positive =
      Returns-bind (add_entry F params b s key seq put_op v) (λ r. add_entries F params r.0 r.1 es)
        (IsGrown F params old (n + 1)) (IsGrown F params old (n + length ((key, value seq v) ∷ es)))
        (add_entry-IsBuilding F params old b s n made key seq put_op v h room positive)
        (λ r h'.
          subst (λ m. Returns (add_entries F params r.0 r.1 es) (IsGrown F params old m))
            (sum n (key, value seq v) es) (add_entries-IsGrown r.0 r.1 (n + 1) es h' positive))
  add_entries-IsGrown b s n ((key, deletion seq) ∷ es) (made, h, room) positive =
      Returns-bind (add_entry F params b s key seq delete_op [])
        (λ r. add_entries F params r.0 r.1 es) (IsGrown F params old (n + 1))
        (IsGrown F params old (n + length ((key, deletion seq) ∷ es)))
        (add_entry-IsBuilding F params old b s n made key seq delete_op [] h room positive)
        (λ r h'.
          subst (λ m. Returns (add_entries F params r.0 r.1 es) (IsGrown F params old m))
            (sum n (key, deletion seq) es) (add_entries-IsGrown r.0 r.1 (n + 1) es h' positive))

  -- The blocks that were made for a table of `n` entries, and the index of the table.
  pub record IsTable (n : ℕ) (r : (SortedTable × List ℕ) × BlockStore F.Bloom) : Type 0 where
    pub made : List (ℕ × DataBlock F.Bloom)
    pub block_index : List (Key × ℕ)
    pub blocks : r.1.blocks ≡ old ++ made
    pub index : r.0.1 ≡ Index.new block_index r.0.0.size r.0.0.min r.0.0.max
    pub ids : index_ids block_index ≡ ids_of made
    pub bounds : All (λ p. (0 < p.1.num_entries) × (p.1.num_entries ≤ most)) made
    pub counted : total made ≡ n

  made_none :
      (s : BlockStore F.Bloom) (d : DataBlockBuilder F.Bloom)
      → (d.position == 0) ≡ true
      → Blocks.finish F interval s.manifest d ≡ (s.manifest, none)
  unfolding Blocks.finish
  made_none s d empty = rw (empty, Blocks.finish) refl

  finish-IsTable :
      (b : TableBuilder F.Bloom) (s : BlockStore F.Bloom) (n : ℕ)
      → IsGrown F params old n (b, s)
      → Returns (finish F params b s) (IsTable n)
  unfolding finish finish_block last_block push_index store_block
  finish-IsTable b s n (made, h, room) = elim (Bool-cases (b.data_block.position == 0)) [
    | inl empty ↦
        subst
          (λ x. Returns (last_block F params b (store_block F params s x) >>= table) (IsTable n))
          (sym (made_none s b.data_block empty))
          (record {
            made = made;
            block_index = b.block_index;
            blocks = h.blocks;
            index = refl;
            ids = h.index;
            bounds = h.bounds;
            counted = ground (arith, h.counted, h.position, empty);
          })
    | inr some_entries ↦ last_one (ground (arith, some_entries, h.position))
  ]
    where
      table :
          TableBuilder F.Bloom × BlockStore F.Bloom
          → Outcome ((SortedTable × List ℕ) × BlockStore F.Bloom)
      table r = ok (
        (
          new_table params r.0.identifier r.0.min_key r.0.max_key r.0.size,
          Index.new r.0.block_index r.0.size r.0.min_key r.0.max_key,
        ),
        r.1,
      )

      last_one : 0 < b.block_entry_count → Returns (finish F params b s) (IsTable n)
      last_one positive =
          let (r, manifest, e, count) =
            finish_block-some F params old s b.data_block (omega (arith, h.position, positive)) in
          let (key, has) = h.has_key positive in
          let has_block = block-HasBlock F params old b s n made key r h positive count in
          subst (λ x. Returns (last_block F params b x >>= table) (IsTable n)) (sym e)
            (rw (has, push_index)
              (record {
                made = made ++ r ∷ [];
                block_index = b.block_index ++ (key, r.0) ∷ [];
                blocks = has_block.0;
                index = refl;
                ids = has_block.1;
                bounds = has_block.2;
                counted = has_block.3;
              }))

  -- The table builder takes any entries without a failed assert, and finishes. It has then added to the
  -- blocks from before some blocks of at least one and at most `max_key_block_size` entries, as many
  -- entries altogether as it was given; the index of the table is made of the identifiers of just these
  -- blocks in order, and of the size and the range of the table. This is for a positive size of blocks
  -- and a positive restart interval.
  pub finish-add_entries :
      (s : BlockStore F.Bloom) (id : ℕ) (min max : Key) (es : Entries)
      → s.blocks ≡ old
      → 0 < most
      → 0 < interval
      → Returns
          (add_entries F params (new F params id min max) s es >>= λ r. finish F params r.0 r.1)
          (IsTable (length es))
  finish-add_entries s id min max es e some_room positive =
      Returns-bind (add_entries F params (new F params id min max) s es)
        (λ r. finish F params r.0 r.1) (IsGrown F params old (length es)) (IsTable (length es))
        (subst
          (λ m.
            Returns (add_entries F params (new F params id min max) s es) (IsGrown F params old m))
          (whole (length es))
          (add_entries-IsGrown (new F params id min max) s 0 es
            (new-IsGrown s id min max e some_room) positive))
        (λ r h. finish-IsTable r.0 r.1 (length es) h)
    where
      whole : (n : ℕ) → 0 + n ≡ n
      whole n = omega arith
