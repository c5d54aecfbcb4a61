-- ===== src/SortedTable/Builder.antt =====
-- src/sorted_table/builder.rs: `TableBuilder`. The identifiers and the files of the data blocks that it
-- makes are a state of their own; their writes do not fail.
use lsm_rs.Prelude.{
  ℕ, suc, ◌+◌, ◌%◌, List, [], ◌∷◌, ◌++◌, Option, none, some, leb, drop, ◌==◌, if◌then◌else◌,
}
use lsm_rs.Bytes.{u32_mod}
use lsm_rs.Key.{Key, Value}
use lsm_rs.Outcome.{Outcome, ok, panicked, ◌>>=◌}
use lsm_rs.WriteBatch.Op.{put_op, delete_op}
use lsm_rs.Memtable.{value, deletion, Entries}
use lsm_rs.Manifest.Metadata.{DatabaseMetadata}
use lsm_rs.Params.{Params}
use lsm_rs.IndexBlock as Index
use lsm_rs.DataBlock.{DataBlock}
use lsm_rs.DataBlock.Builder as Blocks
use lsm_rs.DataBlock.Builder.{BloomFilter, DataBlockBuilder}
use lsm_rs.SortedTable.{SortedTable, new_table}

pub record TableBuilder (B : Type 0) : Type 0 where
  pub identifier : ℕ
  pub min_key : Key
  pub max_key : Key
  pub data_block : DataBlockBuilder B
  pub block_index : List (Key × ℕ)
  pub last_key : Key
  pub block_entry_count : ℕ
  pub size : ℕ
  pub restart_count : ℕ
  pub index_key : Option Key

-- What `DataBlockBuilder::finish` changes: the counters of the manifest and the files of the blocks.
pub record BlockStore (B : Type 0) : Type 0 where
  pub manifest : DatabaseMetadata
  pub blocks : List (ℕ × DataBlock B)

-- The `while` that finds what a key shares with the last one.
unfoldable pub prefix_length : (key last_key : Key) → ℕ
prefix_length [] last_key = 0
prefix_length (k ∷ key) [] = 0
prefix_length (k ∷ key) (l ∷ last_key) =
    let rest = prefix_length key last_key in if k == l then suc rest else 0

-- `index_key.get_or_insert`
unfoldable pub or_key : Option Key → Key → Option Key
or_key none key = some key
or_key (some k) key = some k

module _ (F : BloomFilter) (params : Params) where
  unfoldable pub new : ℕ → Key → Key → TableBuilder F.Bloom
  new identifier min_key max_key = record {
    identifier = identifier;
    min_key = min_key;
    max_key = max_key;
    data_block = Blocks.new F;
    block_index = [];
    last_key = [];
    block_entry_count = 0;
    size = 0;
    restart_count = 0;
    index_key = none;
  }

  -- `restart_count` and the length of the prefix, after a reset at the interval.
  unfoldable pub key_prefix : TableBuilder F.Bloom → Key → ℕ × ℕ
  key_prefix b key =
      if b.restart_count == params.block_restart_interval
      then (0, 0)
      else (b.restart_count, prefix_length key b.last_key)

  -- The block that `DataBlockBuilder::finish` made is stored.
  unfoldable pub store_block :
      BlockStore F.Bloom
      → DatabaseMetadata × Option (ℕ × DataBlock F.Bloom)
      → Option ℕ × BlockStore F.Bloom
  store_block s (manifest, none) = (none, record s { manifest = manifest })
  store_block s (manifest, some (id, block)) =
      (some id, record { manifest = manifest; blocks = s.blocks ++ (id, block) ∷ [] })

  unfoldable pub finish_block :
      BlockStore F.Bloom → DataBlockBuilder F.Bloom → Option ℕ × BlockStore F.Bloom
  finish_block s block =
      store_block s (Blocks.finish F params.block_restart_interval s.manifest block)

  -- `self.block_index.push((self.index_key.take().unwrap(), id))`
  unfoldable pub push_index : TableBuilder F.Bloom → ℕ → Outcome (TableBuilder F.Bloom)
  push_index b id = elim b.index_key [
    | none ↦ panicked
    | some key ↦ ok (record b { block_index = b.block_index ++ (key, id) ∷ []; index_key = none })
  ]

  -- The next block begins.
  unfoldable pub next_block :
      TableBuilder F.Bloom
      → Option ℕ × BlockStore F.Bloom
      → Outcome (TableBuilder F.Bloom × BlockStore F.Bloom)
  next_block b (none, s) = panicked
  next_block b (some id, s) = push_index b id >>= λ b'. ok (
    record b' {
      size = b.size + Blocks.current_size F b.data_block;
      data_block = Blocks.new F;
      block_entry_count = 0;
      restart_count = 0;
      last_key = [];
    },
    s,
  )

  -- A block that is full is finished.
  unfoldable pub end_block :
      TableBuilder F.Bloom
      → BlockStore F.Bloom
      → Outcome (TableBuilder F.Bloom × BlockStore F.Bloom)
  end_block b s = next_block b (finish_block s b.data_block)

  unfoldable pub add_entry :
      TableBuilder F.Bloom
      → BlockStore F.Bloom
      → Key
      → (seq_number op_type : ℕ) → Value
      → Outcome (TableBuilder F.Bloom × BlockStore F.Bloom)
  add_entry b s key seq_number op_type v =
      let (restart_count, prefix_len) = key_prefix b key in
      Blocks.add_entry F params.block_restart_interval b.data_block
        (record { prefix_len = prefix_len % u32_mod; suffix = drop prefix_len key }) key seq_number
        op_type v
      >>= λ data_block.
          let b' = record b {
            index_key = or_key b.index_key key;
            block_entry_count = b.block_entry_count + 1;
            restart_count = restart_count + 1;
            last_key = key;
            data_block = data_block;
          } in
          if leb params.max_key_block_size b'.block_entry_count then end_block b' s else ok (b', s)

  unfoldable pub add_value :
      TableBuilder F.Bloom
      → BlockStore F.Bloom
      → Key
      → ℕ
      → Value
      → Outcome (TableBuilder F.Bloom × BlockStore F.Bloom)
  add_value b s key seq_number v = add_entry b s key seq_number put_op v

  unfoldable pub add_deletion :
      TableBuilder F.Bloom
      → BlockStore F.Bloom
      → Key
      → ℕ
      → Outcome (TableBuilder F.Bloom × BlockStore F.Bloom)
  add_deletion b s key seq_number = add_entry b s key seq_number delete_op []

  -- The loop of `do_memtable_compaction` over the entries of the memtable.
  unfoldable pub add_entries :
      TableBuilder F.Bloom
      → BlockStore F.Bloom
      → Entries
      → Outcome (TableBuilder F.Bloom × BlockStore F.Bloom)
  add_entries b s [] = ok (b, s)
  add_entries b s ((key, value seq v) ∷ es) =
      add_value b s key seq v >>= λ r. add_entries r.0 r.1 es
  add_entries b s ((key, deletion seq) ∷ es) =
      add_deletion b s key seq >>= λ r. add_entries r.0 r.1 es

  -- The last block, which is only created if it has entries.
  unfoldable pub last_block :
      TableBuilder F.Bloom
      → Option ℕ × BlockStore F.Bloom
      → Outcome (TableBuilder F.Bloom × BlockStore F.Bloom)
  last_block b (none, s) = ok (b, s)
  last_block b (some id, s) =
      push_index (record b { size = b.size + Blocks.current_size F b.data_block }) id >>= λ b'.
      ok (b', s)

  -- The table, with the bytes of its index.
  unfoldable pub finish :
      TableBuilder F.Bloom
      → BlockStore F.Bloom
      → Outcome ((SortedTable × List ℕ) × BlockStore F.Bloom)
  finish b s = last_block b (finish_block s b.data_block) >>= λ r. ok (
    (
      new_table params r.0.identifier r.0.min_key r.0.max_key r.0.size,
      Index.new r.0.block_index r.0.size r.0.min_key r.0.max_key,
    ),
    r.1,
  )
