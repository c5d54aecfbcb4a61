-- ===== src/Database/Flushing.antt =====
-- What the first part of a flush of src/logic.rs leaves: the memtables as they were, and a new table with
-- an index file and an identifier of its own.
use lsm_rs.Prelude.{
  ℕ, ◌+◌, ◌<◌, ◌≤◌, ◌≡◌, refl, ap, sym, subst, ◌∙◌, List, [], ◌∷◌, ◌++◌, Option, some, true, false,
  All, All-append, All-imp, Bool-cases, Option-cases, inl, inr, ◌==◌, arith,
}
use lsm_rs.Bytes.{u64_mod}
use lsm_rs.Memtable.{Memtable, get_min_max_key}
use lsm_rs.Outcome.{IfOk, IfOk-bind, IfOk-any}
use lsm_rs.SortedTable.{SortedTable}
use lsm_rs.SortedTable.Builder as Builder
use lsm_rs.SortedTable.Builder.{BlockStore, TableBuilder, add_entries}
use lsm_rs.SortedTable.Keeping.{Keeps, add_entries-kept, finish-kept}
use lsm_rs.DataBlock.Builder.{BloomFilter}
use lsm_rs.Level.{Level, add_l0_table}
use lsm_rs.Manifest.Metadata.{DatabaseMetadata, generate_next_table_id, set_seq_number_offset}
use lsm_rs.Manifest.Tables.{update_table_set}
use lsm_rs.Wal.Status.{request_offset}
use lsm_rs.Params.{Params}
use lsm_rs.Database.{DbLogic}
use lsm_rs.Database.Flush.{write_index, add_to_l0, start_flush}
use lsm_rs.Database.Versions.{table_ids, level_ids}
use lsm_rs.Database.Steps.{HasFile, HaveFiles}

table_ids-snoc :
    (tables : List SortedTable) (t : SortedTable)
    → table_ids (tables ++ t ∷ []) ≡ table_ids tables ++ t.identifier ∷ []
table_ids-snoc [] t = refl
table_ids-snoc (u ∷ tables) t = ap (λ l. u.identifier ∷ l) (table_ids-snoc tables t)

-- The new table is on level 0.
abbrev AddedTo : List Level → SortedTable → List Level → Type 0
AddedTo levels t levels' =
    (indexes : ℕ → Option (List ℕ)) (n : ℕ)
    → HasFile indexes n t.identifier
    → HaveFiles indexes n (level_ids levels)
    → HaveFiles indexes n (level_ids levels')

add_to_l0_lem :
    (levels : List Level) (t : SortedTable) → IfOk (add_to_l0 levels t) (AddedTo levels t)
unfolding add_to_l0 add_l0_table
add_to_l0_lem [] t = tt
add_to_l0_lem (l0 ∷ levels) t = elim (Bool-cases (l0.index == 0)) [
  | inr e ↦ rw (e, IfOk) tt
  | inl e ↦
      rw (e, IfOk)
        (λ indexes n new h. (
          subst (All (HasFile indexes n)) (sym (table_ids-snoc l0.tables t)) (
              All-append (HasFile indexes n) (table_ids l0.tables) (t.identifier ∷ []) h.0
                (new, tt)),
          h.1,
        ))
]

-- The file of a table, after that of another identifier was written.
HasFile-write :
    (indexes : ℕ → Option (List ℕ)) (id m n : ℕ) (index : List ℕ)
    → id + 1 ≡ n
    → m ≤ id
    → (j : ℕ) → HasFile indexes m j
    → HasFile (write_index indexes id index) n j
unfolding write_index
HasFile-write indexes id m n index e le j (low, (file, found)) =
    let other : (j == id) ≡ false = ground (arith, low, le) in
    (omega (arith, e, low, le), (file, rw other found))

HasFile-new :
    (indexes : ℕ → Option (List ℕ)) (id n : ℕ) (index : List ℕ)
    → id + 1 ≡ n
    → HasFile (write_index indexes id index) n id
unfolding write_index
HasFile-new indexes id n index e =
    let same : (id == id) ≡ true = ground arith in (omega (arith, e), (index, rw same refl))

-- After the first part of a flush.
pub record IsFlushed {B : Type 0} (db : DbLogic B) (offset : ℕ) (after : DbLogic B) : Type 0 where
  pub memtable : after.memtable ≡ db.memtable
  pub imms : after.imm_memtables ≡ db.imm_memtables
  pub phase : after.phase ≡ db.phase
  pub flushing : after.flushing ≡ some offset
  pub files : HaveFiles after.indexes after.manifest.next_table_id (level_ids after.levels)

set_seq_kept :
    (meta : DatabaseMetadata) (offset : ℕ)
    → IfOk (set_seq_number_offset meta offset) (λ m. m.next_table_id ≡ meta.next_table_id)
unfolding set_seq_number_offset
set_seq_kept meta offset = ground arith

module _ (F : BloomFilter) (params : Params) (db : DbLogic F.Bloom) (mem : Memtable)
    (files : HaveFiles db.indexes db.manifest.next_table_id (level_ids db.levels))
    (room : db.manifest.next_table_id + 1 < u64_mod) where
  -- The table has the identifier, and the counter stands behind it.
  abbrev HasId : (SortedTable × List ℕ) × BlockStore F.Bloom → Type 0
  HasId built =
      (built.0.0.identifier ≡ db.manifest.next_table_id)
      × (built.1.manifest.next_table_id ≡ db.manifest.next_table_id + 1)

  all_files :
      (levels : List Level) (built : (SortedTable × List ℕ) × BlockStore F.Bloom) (n : ℕ)
      → HasId built
      → AddedTo db.levels built.0.0 levels
      → n ≡ built.1.manifest.next_table_id
      → HaveFiles (write_index db.indexes db.manifest.next_table_id built.0.1) n (level_ids levels)
  all_files levels built n h added e =
      added (write_index db.indexes db.manifest.next_table_id built.0.1) n
        (subst (HasFile (write_index db.indexes db.manifest.next_table_id built.0.1) n) (sym h.0)
          (HasFile-new db.indexes db.manifest.next_table_id n built.0.1 (omega (arith, e, h.1))))
        (All-imp
          (All-imp (
            HasFile-write db.indexes db.manifest.next_table_id db.manifest.next_table_id n built.0.1
              (omega (arith, e, h.1)) (omega arith)))
          (level_ids db.levels) files)

  pub start_flush_lem :
      (offset : ℕ) → IfOk (start_flush F params db offset mem) (IsFlushed db offset)
  unfolding generate_next_table_id start_flush Builder.new
  start_flush_lem offset = elim (Option-cases (get_min_max_key mem)) [
    | inl e ↦ rw (e, IfOk) tt
    | inr ((min, max), e) ↦
        let meta = (generate_next_table_id db.manifest).1 in
        let counter : meta.next_table_id ≡ db.manifest.next_table_id + 1 = omega (arith, room) in
        let store : BlockStore F.Bloom = record { manifest = meta; blocks = db.blocks } in
        let builder = Builder.new F params db.manifest.next_table_id min max in
        rw (e, start_flush)
          (IfOk-bind (add_entries F params builder store mem.entries) _
            (Keeps F params builder store) _ (add_entries-kept F params builder store mem.entries)
            (λ added k.
              IfOk-bind (Builder.finish F params added.0 added.1) _ _ _
                (finish-kept F params added.0 added.1)
                (λ built l.
                  let h : HasId built = (l.0 ∙ k.0, l.1 ∙ k.1 ∙ counter) in
                  IfOk-bind (add_to_l0 db.levels built.0.0) _ _ _
                    (add_to_l0_lem db.levels built.0.0)
                    (λ levels on_level.
                      IfOk-bind (set_seq_number_offset built.1.manifest mem.next_seq_number) _ _ _
                        (set_seq_kept built.1.manifest mem.next_seq_number)
                        (λ meta' kept.
                          IfOk-bind
                            (update_table_set db.level_files ((0, db.manifest.next_table_id) ∷ [])
                              [])
                            _ _ _
                            (IfOk-any (
                              update_table_set db.level_files ((0, db.manifest.next_table_id) ∷ [])
                                []))
                            (λ level_files _.
                              IfOk-bind (request_offset db.wal offset) _ _ _
                                (IfOk-any (request_offset db.wal offset))
                                (λ wal _. record {
                                  memtable = refl;
                                  imms = refl;
                                  phase = refl;
                                  flushing = refl;
                                  files =
                                      all_files levels built meta'.next_table_id h on_level kept;
                                })))))))
  ]
