-- ===== src/SortedTable/Tests.antt =====
-- A table of src/sorted_table/builder.rs with three entries in two data blocks.
use lsm_rs.Prelude.{refl, [], ◌∷◌, arith}
use lsm_rs.Outcome.{Returns, ◌>>=◌}
use lsm_rs.Memtable.{value, deletion, Entries}
use lsm_rs.Manifest.Metadata
use lsm_rs.Params.{Params, default_params}
use lsm_rs.DataBlock.Tests.{no_filter}
use lsm_rs.SortedTable.Builder.{BlockStore, new, add_entries, finish}
use lsm_rs.SortedTable.Table.{IsTable, finish-add_entries}

abbrev small_blocks : Params
small_blocks = record default_params { max_key_block_size = 2 }

abbrev entries : Entries
entries = (1 ∷ 2 ∷ [], value 5 (9 ∷ [])) ∷ (1 ∷ 3 ∷ [], deletion 6) ∷ (2 ∷ [], value 7 []) ∷ []

abbrev no_blocks : BlockStore Unit
no_blocks = record { manifest = Metadata.new 3; blocks = [] }

finish-add_entries_example :
    Returns
      (add_entries no_filter small_blocks
          (new no_filter small_blocks 4 (1 ∷ 2 ∷ []) (2 ∷ []))
          no_blocks
          entries
        >>= λ r. finish no_filter small_blocks r.0 r.1)
      (IsTable no_filter small_blocks [] 3)
finish-add_entries_example =
    finish-add_entries no_filter small_blocks [] no_blocks 4 (1 ∷ 2 ∷ []) (2 ∷ []) entries refl
      (omega arith) (omega arith)
