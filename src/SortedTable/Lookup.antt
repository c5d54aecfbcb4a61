-- ===== src/SortedTable/Lookup.antt =====
-- `SortedTable::get` of src/sorted_table/mod.rs without its count of seeks: the search of the index, then of
-- the data block that it names. `get_block` of src/data_blocks/mod.rs finds the blocks by their identifiers;
-- whether one comes from its cache or from its file makes no difference. The entry that is found is read
-- at once.
use lsm_rs.Prelude.{ℕ, List, [], ◌∷◌, Option, none, some, Bool, ◌==◌, if◌then◌else◌}
use lsm_rs.Key.{Key}
use lsm_rs.EntryType.{put, delete}
use lsm_rs.Outcome.{Outcome, ok, panicked, ◌>>=◌}
use lsm_rs.Memtable.{MemtableEntry, value, deletion}
use lsm_rs.IndexBlock as Index
use lsm_rs.DataBlock.{DataBlock, DataEntry, get_sequence_number, get_type, get_value}
use lsm_rs.DataBlock.Search.{get_by_key}

module _ {B : Type 0} where
  unfoldable pub get_block : List (ℕ × DataBlock B) → ℕ → Outcome (DataBlock B)
  get_block [] id = panicked
  get_block ((j, block) ∷ blocks) id =
      let rest = get_block blocks id in if j == id then ok block else rest

  -- What the callers read of a `DataEntry`.
  unfoldable pub read_entry : DataBlock B → DataEntry → Outcome MemtableEntry
  read_entry block d = get_sequence_number block d >>= λ seq.
      (get_type block d >>= λ kind. elim kind [
        | put ↦ get_value block d >>= λ v. elim v [ none ↦ panicked | some v ↦ ok (value seq v) ]
        | delete ↦ ok (deletion seq)
      ])

  unfoldable pub search_block :
      (B → Key → Bool) → DataBlock B → Key → Outcome (Option MemtableEntry)
  search_block check block key = get_by_key check block key >>= λ r. elim r [
    | none ↦ ok none
    | some d ↦ read_entry block d >>= λ e. ok (some e)
  ]

  unfoldable pub get :
      (B → Key → Bool)
      → List (ℕ × DataBlock B)
      → (index : List ℕ) → Key
      → Outcome (Option MemtableEntry)
  get check blocks index key = Index.binary_search index key >>= λ r. elim r [
    | none ↦ ok none
    | some id ↦ get_block blocks id >>= λ block. search_block check block key
  ]
