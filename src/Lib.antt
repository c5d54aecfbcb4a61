-- ===== src/Lib.antt =====
-- lsm-rs is an embedded key-value store: a log-structured merge tree. A write goes to the write-ahead
-- log and to the memtable; the memtable is later flushed to sorted tables in levels, and the log in
-- front of the flushed writes is removed. At a restart the log is read back into the memtable.
--
-- The parts that are modelled, in the default configuration (`std::fs` files, no `wisckey`):
--   src/lib.rs            Key (byte strings and their order), Outcome (`Error`, and how a call ends)
--   src/write_batch.rs    WriteBatch, WriteBatch/Op
--   src/memtable.rs       Memtable: `Memtable` is the struct, with `put`, `delete`, `get`,
--                         `get_key_pos` and the others under their names; Memtable/Upsert is the
--                         sorted list that they keep, Memtable/Laws what each operation does;
--                         Memtable/Iterator is `MemtableIterator`, Memtable/Iteration its visit of a
--                         whole table
--   src/logic.rs          Memtable/Replay: the loop of `write_opts` that applies a batch;
--                         Memtable/Client is about whole batches. Database (`DbLogic` and `get`),
--                         Database/Write (`write_opts`), Database/Flush (`do_memtable_compaction`) and
--                         Database/Steps (the tasks as steps between the points where they wait);
--                         Database/Versions, Database/Writing, Database/Flushing and Database/Keeping
--                         are what the steps keep, Database/Refines what follows. Compaction: where a
--                         compaction puts a table into the child level; Compaction/Merge: the loop of
--                         `compact_level` that merges tables, with Compaction/Newest,
--                         Compaction/Least, Compaction/Merging and Compaction/Latest about it
--   src/params.rs         Params
--   src/data_blocks/      DataBlock (block.rs: the bytes and their readers), DataBlock/Search (its
--                         lookups) and DataBlock/Builder (builder.rs). DataBlock/Reading and
--                         DataBlock/Items read entries back, DataBlock/Groups, DataBlock/Restarts,
--                         DataBlock/Lookup, DataBlock/Found and DataBlock/GetByKey follow the lookup
--                         over restart points, DataBlock/LastGroup, DataBlock/Built and DataBlock/Adding
--                         the builder; DataBlock/RoundTrip puts the two together
--   src/wal/mod.rs        Wal (the bytes of an entry), Wal/Status (`LogStatus`, one function for each
--                         region that holds the lock), Wal/Tasks (the regions as steps of the callers
--                         and of the writer task, in any order)
--   src/wal/writer.rs     Wal/Files (the files), Wal/Writer (`WalWriter`), `update_log` in Wal/Status
--   src/wal/reader.rs     Wal/Reader (`WalReader`; `recover` is the reading half of `open`)
--   src/manifest.rs       Manifest/Metadata (`DatabaseMetadata`), Manifest/LevelMetadata (the bytes of a
--                         level's file), Manifest/Tables (`update_table_set`); Manifest/Ids,
--                         Manifest/Bytes, Manifest/Changes and Manifest/Refines follow the files by lists
--                         of identifiers (Manifest/TableSets), Manifest/Counters the counters
--   src/index_blocks.rs   IndexBlock (the bytes and their readers), IndexBlock/Search
--   src/sorted_table/mod.rs  SortedTable: the key range, the compaction flag and the count of seeks;
--                         SortedTable/Lookup: its search
--   src/sorted_table/builder.rs  SortedTable/Builder; SortedTable/Indexing, SortedTable/Building
--                         (one entry), SortedTable/Table (whole tables) and SortedTable/Keeping (the
--                         counters of the manifest) are about it
--   src/level.rs          Level (`get_overlaps` and the placeholders), Level/Get, Level/Overlaps,
--                         Level/Placeholders; Level/Start (`maybe_start_compaction`), Level/Growing,
--                         Level/Starting
-- Bytes has the byte images of integers, Prelude what all parts share.
--
-- The log is one byte string that the files hold page by page (Wal/Pages). Wal/Written follows it
-- through the writer, Wal/ReadBack, Wal/Recovered, Wal/End and Wal/RoundTrip through the reader, and
-- Wal/Open puts the two together. Wal/Regions and Wal/Safety keep the order of the positions, and
-- Wal/Positions says what follows. Wal/Update, Wal/Queue and Wal/UpdateLog are one whole turn of the
-- writer, Wal/Session a `store`, a turn and a recovery. Wal/Continue and Wal/Durability look at a
-- restart inside a page and at the sync. Tests of small inputs are in the modules named Tests.
--
-- Bounds and fuel: numbers are unbounded, so that counts of bytes (`usize`, `u64`) do not wrap; the
-- lengths that an entry holds must fit 64 bits. `write_all` gets one round for each byte, and each
-- round writes one. The reader's loops take their rounds as arguments: one more than the log has
-- entries, and for each read one for each byte of the log. A loop without rounds left is `diverged`,
-- which no other ending is.
--
-- The search in an index gets a round for each entry, and the loop over a level 0 one for each table. The
-- search over restart points gets one round for each and one more, and each round halves what is left;
-- the scan behind a restart point gets one for each byte, and an entry has at least 25. The merge gets a
-- round for each entry of its tables and one more, and each round steps past a key. Counters of the
-- manifest wrap at 64 bits.
--
-- The bloom filter of the `bloomfilter` crate is the parameter `BloomFilter` of the data blocks. The
-- database flushes by the table builder (SortedTable/Builder) and reads by the lookup over index and data
-- blocks (SortedTable/Lookup). A write and a flush are cut where they wait for the log, and the log may
-- take any of its own steps in between. There is one write at a time, as its lock of the memtable
-- demands, and one flush; a read is one step, although it takes its locks one after the other. In
-- src/level.rs `get_overlaps` is one step too.
--
-- Not modelled: the cache of data blocks, the iterator of sorted tables, the iterators of the
-- database, the rest of compaction, whose steps the database does not take here, the start of a
-- database and the background tasks; the value log of the `wisckey` configuration, but for its
-- counters in the manifest; the asynchronous configurations of the log; compression and other I/O. A
-- write, a sync and the creation of a file do not fail.
pub mod Prelude
pub mod Key
pub mod EntryType
pub mod Memtable
pub mod Outcome
pub mod Bytes
pub mod WriteBatch
pub mod Wal
pub mod Manifest
pub mod IndexBlock
pub mod SortedTable
pub mod Level
pub mod Compaction
pub mod Params
pub mod DataBlock
pub mod Database
