-- ===== src/Database/Versions.antt =====
-- What the database of src/logic.rs holds for a key: the first version among the memtable, the immutable
-- memtables from the newest on, and the tables of the levels, on each level from the newest on.
use lsm_rs.Prelude.{
  ℕ, ◌≡◌, refl, ap, sym, ◌∙◌, All, List, [], ◌∷◌, Option, none, some, Bool, Option-cases, inl, inr,
  arith,
}
use lsm_rs.Key.{Key}
use lsm_rs.Memtable
use lsm_rs.Memtable.{Memtable, MemtableEntry}
use lsm_rs.SortedTable.{SortedTable, count_seek}
use lsm_rs.Level.{Level}
use lsm_rs.Level.Get
use lsm_rs.Level.Get.{Search, visit, search_tables}
use lsm_rs.Outcome.{
  Outcome, ok, err, panicked, diverged, Returns, Returns-bind, Returns-imp, IfOk, IfOk-bind,
  IfOk-any, IfOk-imp,
}
use lsm_rs.DataBlock.{DataBlock}
use lsm_rs.DataBlock.Builder.{BloomFilter}
use lsm_rs.Database.{
  DbLogic, Phase, idle, storing, syncing, waiting, answer, get_imm, get_levels, read_table, get,
}

abbrev pub or_else : Option MemtableEntry → Option MemtableEntry → Option MemtableEntry
or_else none later = later
or_else (some e) later = some e

pub or_else_assoc :
    (a b c : Option MemtableEntry) → or_else (or_else a b) c ≡ or_else a (or_else b c)
or_else_assoc none b c = refl
or_else_assoc (some e) b c = refl

-- A deletion hides the key.
unfoldable pub answer_of : Option MemtableEntry → Option MemtableEntry
answer_of none = none
answer_of (some e) = answer e

-- The memtable that a write is about to hand over.
unfoldable pub pending_version : Phase → Key → Option MemtableEntry
pending_version idle key = none
pending_version (storing ops sync pos) key = none
pending_version (syncing ops pos last) key = none
pending_version (waiting pos imm) key = Memtable.get imm key

unfoldable pub imm_version : List (ℕ × Memtable) → Key → Option MemtableEntry
imm_version [] key = none
imm_version ((offset, imm) ∷ imms) key = or_else (imm_version imms key) (Memtable.get imm key)

-- The identifiers of the tables of a level, and of all levels.
abbrev pub table_ids : List SortedTable → List ℕ
table_ids [] = []
table_ids (t ∷ tables) = t.identifier ∷ table_ids tables

abbrev pub level_ids : List Level → List (List ℕ)
level_ids [] = []
level_ids (level ∷ levels) = table_ids level.tables ∷ level_ids levels

-- What a lookup that returns has found.
abbrev pub found_of : Outcome (Option MemtableEntry) → Option MemtableEntry
found_of (ok r) = r
found_of (err e) = none
found_of panicked = none
found_of diverged = none

module _ (read : ℕ → Key → Outcome (Option MemtableEntry)) where
  -- The lookup of a key in the table returns.
  abbrev pub Reads : Key → ℕ → Type 0
  Reads key id = read id key ≡ ok (found_of (read id key))

  unfoldable pub tables_version : List ℕ → Key → Option MemtableEntry
  tables_version [] key = none
  tables_version (id ∷ ids) key = or_else (tables_version ids key) (found_of (read id key))

  unfoldable pub levels_version : List (List ℕ) → Key → Option MemtableEntry
  levels_version [] key = none
  levels_version (ids ∷ levels) key = or_else (tables_version ids key) (levels_version levels key)

  -- The loop over the tables of a level finds the newest version, and changes only the counts.
  visit_lem :
      (do_seek : Bool) (t : SortedTable) (key : Key) (s : Search)
      → Reads key t.identifier
      → Returns
          (visit read do_seek t key s)
          (λ s'. s'.result ≡ or_else s.result (found_of (read t.identifier key)))
  unfolding visit
  visit_lem do_seek t key s h = elim (Option-cases s.result) [
    | inl e ↦ rw (e, h, visit) (sym (ap found_of h))
    | inr (r, e) ↦ rw (e, visit) e
  ]

  visit_kept :
      (do_seek : Bool) (t : SortedTable) (key : Key) (s : Search)
      → IfOk
          (visit read do_seek t key s)
          (λ s'. table_ids s'.tables ≡ t.identifier ∷ table_ids s.tables)
  unfolding visit count_seek
  visit_kept do_seek t key s = elim (Option-cases s.result) [
    | inl e ↦
        rw (e, visit)
          (IfOk-bind (read t.identifier key) _ (λ _. Unit) _ (IfOk-any (read t.identifier key))
            (λ r _. refl))
    | inr (r, e) ↦ rw (e, visit) refl
  ]

  search_tables_lem :
      (do_seek : Bool) (tables : List SortedTable) (seek_id : ℕ) (key : Key)
      → All (Reads key) (table_ids tables)
      → Returns
          (search_tables read do_seek tables seek_id key)
          (λ s. s.result ≡ tables_version (table_ids tables) key)
  unfolding search_tables tables_version
  search_tables_lem do_seek [] seek_id key h = refl
  search_tables_lem do_seek (t ∷ tables) seek_id key (h, hs) =
      Returns-bind (search_tables read do_seek tables seek_id key) (visit read do_seek t key) _ _
        (search_tables_lem do_seek tables seek_id key hs)
        (λ s e.
          Returns-imp (visit read do_seek t key s) _ _ (visit_lem do_seek t key s h)
            (λ s' e'. e' ∙ ap (λ r. or_else r (found_of (read t.identifier key))) e))

  search_tables_kept :
      (do_seek : Bool) (tables : List SortedTable) (seek_id : ℕ) (key : Key)
      → IfOk
          (search_tables read do_seek tables seek_id key)
          (λ s. table_ids s.tables ≡ table_ids tables)
  unfolding search_tables
  search_tables_kept do_seek [] seek_id key = refl
  search_tables_kept do_seek (t ∷ tables) seek_id key =
      IfOk-bind (search_tables read do_seek tables seek_id key) (visit read do_seek t key) _ _
        (search_tables_kept do_seek tables seek_id key)
        (λ s e.
          IfOk-imp (visit read do_seek t key s) _ _ (visit_kept do_seek t key s)
            (λ s' e'. e' ∙ ap (λ l. t.identifier ∷ l) e))

  get_levels_lem :
      (levels : List Level) (key : Key)
      → All (All (Reads key)) (level_ids levels)
      → Returns
          (get_levels read levels key)
          (λ r. r.2 ≡ answer_of (levels_version (level_ids levels) key))
  unfolding get_levels levels_version answer_of Get.get
  get_levels_lem [] key h = refl
  get_levels_lem (level ∷ levels) key (h, hs) =
      Returns-bind (Get.get read level key) _
        (λ r. r.2 ≡ tables_version (table_ids level.tables) key) _
        (Returns-bind
          (search_tables read level.do_seek_based_compaction level.tables
            level.seek_based_compaction key)
          _ _ _
          (search_tables_lem level.do_seek_based_compaction level.tables level.seek_based_compaction
            key h)
          (λ s e. e))
        (λ r e. elim (Option-cases r.2) [
          | inl n ↦
              rw (n, sym e ∙ n)
                (Returns-bind (get_levels read levels key) _ _ _ (get_levels_lem levels key hs)
                  (λ s k. k))
          | inr (x, n) ↦ rw (n, sym e ∙ n) refl
        ])

  pub get_levels_kept :
      (levels : List Level) (key : Key)
      → IfOk (get_levels read levels key) (λ r. level_ids r.0 ≡ level_ids levels)
  unfolding get_levels Get.get
  get_levels_kept [] key = refl
  get_levels_kept (level ∷ levels) key =
      IfOk-bind (Get.get read level key) _ (λ r. table_ids r.0.tables ≡ table_ids level.tables) _
        (IfOk-bind
          (search_tables read level.do_seek_based_compaction level.tables
            level.seek_based_compaction key)
          _ _ _
          (search_tables_kept level.do_seek_based_compaction level.tables
            level.seek_based_compaction key)
          (λ s e. e))
        (λ r e. elim (Option-cases r.2) [
          | inl n ↦ rw n (
              IfOk-bind (get_levels read levels key) _ _ _ (get_levels_kept levels key)
                (λ s k. ap (λ x. x ∷ level_ids s.0) e ∙ ap (λ x. table_ids level.tables ∷ x) k))
          | inr (x, n) ↦ rw n (ap (λ x. x ∷ level_ids levels) e)
        ])

pub get_imm_lem : (imms : List (ℕ × Memtable)) (key : Key) → get_imm imms key ≡ imm_version imms key
unfolding get_imm imm_version
get_imm_lem [] key = refl
get_imm_lem ((offset, imm) ∷ imms) key = ground (arith, get_imm_lem imms key)

-- The files of the tables, and which tables the levels have.
abbrev pub OnDisk : Type 0 → Type 0
OnDisk B = (ℕ → Option (List ℕ)) × List (ℕ × DataBlock B) × List (List ℕ)

abbrev pub on_disk : {B : Type 0} → DbLogic B → OnDisk B
on_disk db = (db.indexes, db.blocks, level_ids db.levels)

module _ (F : BloomFilter) where
  unfoldable pub disk_version : OnDisk F.Bloom → Key → Option MemtableEntry
  disk_version disk key = levels_version (read_table F disk.0 disk.1) disk.2 key

  -- The lookup of a key returns in every table.
  abbrev pub AllRead : OnDisk F.Bloom → Key → Type 0
  AllRead disk key = All (All (Reads (read_table F disk.0 disk.1) key)) disk.2

  unfoldable pub version : DbLogic F.Bloom → Key → Option MemtableEntry
  version db key = or_else (Memtable.get db.memtable key) (
      or_else (pending_version db.phase key)
        (or_else (imm_version db.imm_memtables key) (disk_version (on_disk db) key)))

  -- Where no write holds the memtable and the tables can be read, `get` answers with the value of the
  -- first version, or with nothing where that is a deletion or there is none.
  pub get_lem :
      (db : DbLogic F.Bloom) (key : Key)
      → db.phase ≡ idle
      → AllRead (on_disk db) key
      → Returns (get F db key) (λ r. r.2 ≡ answer_of (version db key))
  unfolding get version answer_of pending_version disk_version
  get_lem db key free h = elim (Option-cases (Memtable.get db.memtable key)) [
    | inr (e, m) ↦ rw (m, get) refl
    | inl m ↦ elim (Option-cases (get_imm db.imm_memtables key)) [
      | inr (e, i) ↦ rw (m, i, free, sym (get_imm_lem db.imm_memtables key) ∙ i, get) refl
      | inl i ↦
          rw (m, i, free, sym (get_imm_lem db.imm_memtables key) ∙ i, get)
            (Returns-bind (get_levels (read_table F db.indexes db.blocks) db.levels key) _ _ _
              (get_levels_lem (read_table F db.indexes db.blocks) db.levels key h) (λ r e. e))
    ]
  ]

  -- A read changes only the counts in the levels.
  abbrev pub HasRead : DbLogic F.Bloom → DbLogic F.Bloom → Type 0
  HasRead db after =
      (levels : List Level) × (after ≡ record db { levels = levels })
      × (level_ids levels ≡ level_ids db.levels)

  pub get_kept : (db : DbLogic F.Bloom) (key : Key) → IfOk (get F db key) (λ r. HasRead db r.0)
  unfolding get
  get_kept db key = elim (Option-cases (Memtable.get db.memtable key)) [
    | inr (e, m) ↦ rw (m, get) (db.levels, refl, refl)
    | inl m ↦ elim (Option-cases (get_imm db.imm_memtables key)) [
      | inr (e, i) ↦ rw (m, i, get) (db.levels, refl, refl)
      | inl i ↦
          rw (m, i, get)
            (IfOk-bind (get_levels (read_table F db.indexes db.blocks) db.levels key) _ _ _
              (get_levels_kept (read_table F db.indexes db.blocks) db.levels key)
              (λ r e. (r.0, refl, e)))
    ]
  ]
