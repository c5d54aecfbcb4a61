-- ===== src/Database/Tests.antt =====
-- The database of src/logic.rs on a small run: a write that fills the memtable, the hand-over of it, its
-- flush to a table, and another write and a read of the table.
use lsm_rs.Prelude.{
  ℕ, ◌≡◌, refl, ap, sym, subst, ◌∙◌, All, List, [], ◌∷◌, Option, none, some, Bool, false, true,
  arith, replicate,
}
use lsm_rs.Key.{cmp}
use lsm_rs.Bytes.{to_le, from_le}
use lsm_rs.Memtable
use lsm_rs.Memtable.{MemtableEntry, value, deletion, Memtable}
use lsm_rs.Memtable.Upsert.{total}
use lsm_rs.Memtable.Client.{latest}
use lsm_rs.Memtable.Replay.{apply_ops}
use lsm_rs.WriteBatch.Op.{WriteOp, put, delete}
use lsm_rs.Outcome.{Outcome, ok, err, panicked, diverged, Returns}
use lsm_rs.Wal.{encode}
use lsm_rs.Level
use lsm_rs.Level.{Level}
use lsm_rs.Manifest.Metadata
use lsm_rs.Manifest.Tables as Tables
use lsm_rs.Manifest.LevelMetadata as LevelMetadata
use lsm_rs.Wal.Status
use lsm_rs.Wal.Status.{store, store_done, push_writes, request_offset, offset_done}
use lsm_rs.Params.{Params, default_params}
use lsm_rs.IndexBlock as Index
use lsm_rs.DataBlock as Block
use lsm_rs.DataBlock.Builder as Blocks
use lsm_rs.DataBlock.Search as Search
use lsm_rs.DataBlock.Tests.{no_filter}
use lsm_rs.SortedTable.Builder as Builder
use lsm_rs.SortedTable.Lookup as Lookup
use lsm_rs.SortedTable as Sorted
use lsm_rs.Database.{DbLogic, idle, get, read_table}
use lsm_rs.Database.Write.{start_write, after_store, apply_batch, push_imm}
use lsm_rs.Database.Flush.{start_flush, finish_flush, add_to_l0, write_index}
use lsm_rs.Database.Versions.{version, answer_of, AllRead, Reads, found_of, on_disk}
use lsm_rs.Database.Steps.{
  Client, Step, client, flush_starts, flush_ends, Reach, start, step, starts, stored, pushed,
  log_moves, IsValid, PendingIsValid, HaveFiles, HasMemtable,
}
use lsm_rs.Database.Refines.{get-latest, Reach-IsValid}

abbrev params : Params
params = record default_params { max_memtable_size = 2 }

abbrev empty_file : List ℕ
empty_file = replicate 4096 0

abbrev db : DbLogic Unit
db = record {
  memtable = Memtable.new 1;
  imm_memtables = [];
  levels = Level.new 0 true ∷ Level.new 1 true ∷ [];
  indexes = λ id. none;
  blocks = [];
  manifest = Metadata.new 2;
  level_files = empty_file ∷ empty_file ∷ [];
  wal = Status.new 0 0;
  phase = idle;
  flushing = none;
}

abbrev ops : List WriteOp
ops = put (7 ∷ []) (1 ∷ []) ∷ put (8 ∷ []) (2 ∷ []) ∷ delete (7 ∷ []) ∷ []

abbrev end_pos : ℕ
end_pos = (store (Status.new 0 0) ops).1

-- The write waits until the log has written what `store` put into the queue.
abbrev full : DbLogic Unit
full = apply_batch params (record (start_write db ops false) { wal = Status.new 100 0 }) ops end_pos

abbrev after : DbLogic Unit
after = push_imm full end_pos (apply_ops (Memtable.new 1) ops)

abbrev or_first : Outcome (DbLogic Unit) → DbLogic Unit
or_first (ok r) = r
or_first (err e) = db
or_first panicked = db
or_first diverged = db

abbrev or_empty : Option (List ℕ) → List ℕ
or_empty none = []
or_empty (some index) = index

abbrev flushed : DbLogic Unit
flushed = or_first (start_flush no_filter params after end_pos (apply_ops (Memtable.new 1) ops))

abbrev removed : DbLogic Unit
removed = record flushed { wal = Status.new 100 end_pos }

abbrev ended : DbLogic Unit
ended = or_first (finish_flush no_filter removed end_pos)

db-IsValid : IsValid db
unfolding total PendingIsValid HasMemtable Memtable.new Level.new
db-IsValid = record {
  memtable = record { sorted = tt; sized = refl };
  imms = tt;
  pending = tt;
  few = omega arith;
  files = (tt, (tt, tt));
  flush = tt;
}

run : Reach (Step no_filter params) db ops after
unfolding start_write apply_batch after_store apply_ops Memtable.put Memtable.delete
    Memtable.get_key_pos Memtable.binary_search Memtable.is_full Memtable.take Memtable.new store
    push_writes store_done encode cmp Status.new to_le
run =
    step
      (step
        (step (step start (client (starts ops false refl))) (client (log_moves (Status.new 100 0))))
        (client (stored ops false end_pos full refl refl refl)))
      (client (pushed end_pos (apply_ops (Memtable.new 1) ops) refl refl))

-- What the flush gives, and a lookup of a key that it wrote, all by computation on the bytes.
flush_runs :
    (start_flush no_filter params after end_pos (apply_ops (Memtable.new 1) ops) ≡ ok flushed)
    × (flushed.flushing ≡ some end_pos)
    × (finish_flush no_filter removed end_pos ≡ ok ended)
    × (read_table no_filter ended.indexes ended.blocks 1 (8 ∷ []) ≡ ok (some (value 2 (2 ∷ []))))
    × ((on_disk ended).2 ≡ (1 ∷ []) ∷ [] ∷ [])
    × (ended.manifest.next_table_id ≡ 2)
    × (ended.indexes 1 ≡ some (or_empty (ended.indexes 1)))
unfolding start_flush add_to_l0 write_index apply_batch push_imm start_write apply_ops Memtable.put
    Memtable.delete Memtable.get_key_pos Memtable.binary_search Memtable.is_full Memtable.take
    Memtable.new Memtable.get_min_max_key store push_writes encode cmp Status.new to_le from_le
    request_offset Level.new Level.add_l0_table Metadata.new Metadata.generate_next_table_id
    Metadata.generate_next_data_block_id Metadata.set_seq_number_offset Tables.update_table_set
    Tables.add_tables Tables.remove_tables Tables.change_level LevelMetadata.insert
    LevelMetadata.insert_at LevelMetadata.resize LevelMetadata.copy_ids LevelMetadata.binary_search
    LevelMetadata.get_table_ids LevelMetadata.id_bytes LevelMetadata.read_ids Builder.add_entries
    Builder.add_entry Builder.add_value Builder.add_deletion Builder.new Builder.finish
    Builder.key_prefix Builder.prefix_length Builder.or_key Builder.store_block Builder.finish_block
    Builder.push_index Builder.next_block Builder.end_block Builder.last_block Blocks.new
    Blocks.push_restart Blocks.add_entry Blocks.header_bytes Blocks.finish Blocks.current_size
    Index.new Index.add_padding Index.patch Index.header_bytes Index.entry_header_bytes
    Index.push_entries Sorted.initial_seeks Block.entry_header_bytes lsm_rs.Prelude.flatten
    finish_flush Metadata.set_log_offset read_table Lookup.get Lookup.get_block Lookup.read_entry
    Lookup.search_block Index.binary_search Index.search_from Index.search_loop Index.choose
    Index.get_block_id Index.get_block_key Index.get_entry_offset Index.header_field Index.read_word
    Index.slice Index.get_min Index.get_max Block.read_entry_header Block.slice Block.get_header
    Block.get_sequence_number Block.get_type Block.get_value Block.get_entry_at_offset
    Block.byte_len Block.restart_list_len Block.get_restart_offset Search.search_restarts
    Search.range_end Search.finish_search Search.binary_search Search.scan Search.scan_result
    Search.get_by_key
flush_runs = (refl, refl, refl, refl, refl, refl, refl)

ended_run : Reach (Step no_filter params) db ops ended
unfolding apply_batch push_imm start_write apply_ops Memtable.put Memtable.delete
    Memtable.get_key_pos Memtable.binary_search Memtable.is_full Memtable.take Memtable.new store
    push_writes encode cmp Status.new to_le offset_done Metadata.new
ended_run =
    step
      (step
        (step run (
          flush_starts end_pos (apply_ops (Memtable.new 1) ops) [] flushed refl refl (omega arith)
            flush_runs.0))
        (client (log_moves (Status.new 100 end_pos))))
      (flush_ends end_pos ended flush_runs.1 refl flush_runs.2)

Reach-IsValid_example : IsValid ended
Reach-IsValid_example = Reach-IsValid no_filter params db ended ops db-IsValid ended_run

-- A database with the table of the flush.
abbrev saved : DbLogic Unit
saved = record ended {
  memtable = Memtable.new 5;
  imm_memtables = [];
  wal = Status.new 0 0;
  phase = idle;
  flushing = none;
}

saved-IsValid : IsValid saved
unfolding total PendingIsValid HasMemtable Memtable.new
saved-IsValid = record {
  memtable = record { sorted = tt; sized = refl };
  imms = tt;
  pending = tt;
  few = omega arith;
  files =
      subst (HaveFiles ended.indexes ended.manifest.next_table_id) (sym flush_runs.4)
        (((omega (arith, flush_runs.5), (or_empty (ended.indexes 1), flush_runs.6)), tt), (tt, tt));
  flush = tt;
}

readable : AllRead no_filter (on_disk saved) (8 ∷ [])
readable =
    subst (All (All (Reads (read_table no_filter ended.indexes ended.blocks) (8 ∷ []))))
      (sym flush_runs.4)
      ((flush_runs.3 ∙ ap (λ r. ok (found_of r)) (sym flush_runs.3), tt), (tt, tt))

abbrev more_ops : List WriteOp
more_ops = delete (9 ∷ []) ∷ []

abbrev more_pos : ℕ
more_pos = (store (Status.new 0 0) more_ops).1

abbrev written : DbLogic Unit
written =
    apply_batch params (record (start_write saved more_ops false) { wal = Status.new 100 0 })
      more_ops more_pos

more_run : Reach (Client no_filter params) saved more_ops written
unfolding start_write apply_batch after_store apply_ops Memtable.put Memtable.delete
    Memtable.get_key_pos Memtable.binary_search Memtable.is_full Memtable.take Memtable.new store
    push_writes store_done encode cmp Status.new to_le
more_run =
    step (step (step start (starts more_ops false refl)) (log_moves (Status.new 100 0)))
      (stored more_ops false more_pos written refl refl refl)

idle_after : written.phase ≡ idle
unfolding start_write apply_batch apply_ops Memtable.delete Memtable.get_key_pos
    Memtable.binary_search Memtable.is_full Memtable.new
idle_after = refl

get-latest_example : Returns (get no_filter written (8 ∷ [])) (λ x.
    x.2
    ≡ answer_of (
        latest (8 ∷ []) more_ops saved.memtable.next_seq_number (version no_filter saved (8 ∷ []))))
get-latest_example =
    get-latest no_filter params saved written more_ops (8 ∷ []) saved-IsValid readable more_run
      idle_after
