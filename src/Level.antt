-- ===== src/Level.antt =====
-- src/level.rs: the tables of a level and the placeholders of compactions that will write to it.
-- `get_overlaps` is one step here, while its flags are atomics that other tasks can change in between. The
-- next table identifier of the manifest is an argument.
pub mod Get
pub mod Overlaps
pub mod Placeholders
pub mod Start
pub mod Growing
pub mod Starting
pub mod Tests
use lsm_rs.Prelude.{
  ℕ, zero, suc, ◌+◌, ◌-◌, ◌*◌, List, [], ◌∷◌, ◌++◌, Option, none, some, Bool, true, false, ◌&&◌,
  ◌==◌, if◌then◌else◌,
}
use lsm_rs.Key.{Key, key_le}
use lsm_rs.Outcome.{Outcome, ok, err, panicked, diverged, ◌>>=◌}
use lsm_rs.SortedTable
use lsm_rs.SortedTable.{SortedTable, maybe_start_compaction, abort_compaction}

pub record TablePlaceholder : Type 0 where
  pub min : Key
  pub max : Key
  pub id : ℕ

unfoldable pub overlaps : TablePlaceholder → Key → Key → Bool
overlaps p min max = key_le min p.max && key_le p.min max

pub record Level : Type 0 where
  pub index : ℕ
  pub next_compaction_offset : ℕ
  pub seek_based_compaction : ℕ
  pub do_seek_based_compaction : Bool
  pub tables : List SortedTable
  pub table_placeholders : List TablePlaceholder

-- `INVALID_TABLE_ID`
abbrev pub invalid_table_id : ℕ
invalid_table_id = 0

-- `Level::new`, with whether `params.seek_based_compaction` is set.
unfoldable pub new : ℕ → Bool → Level
new index do_seek = record {
  index = index;
  next_compaction_offset = 0;
  seek_based_compaction = invalid_table_id;
  do_seek_based_compaction = do_seek;
  tables = [];
  table_placeholders = [];
}

-- `min` and `max` of byte slices.
abbrev pub key_min : Key → Key → Key
key_min a b = if key_le a b then a else b

abbrev pub key_max : Key → Key → Key
key_max a b = if key_le a b then b else a

-- The loop of `remove_table_placeholder`.
unfoldable pub remove_placeholder : List TablePlaceholder → ℕ → Outcome (List TablePlaceholder)
remove_placeholder [] id = panicked
remove_placeholder (p ∷ placeholders) id =
    let rest = remove_placeholder placeholders id in
    if p.id == id then ok placeholders else (rest >>= λ ps. ok (p ∷ ps))

unfoldable pub remove_table_placeholder : Level → ℕ → Outcome Level
remove_table_placeholder level id = remove_placeholder level.table_placeholders id >>= λ ps.
    ok (record level { table_placeholders = ps })

-- `add_l0_table`
unfoldable pub add_l0_table : Level → SortedTable → Outcome Level
add_l0_table level table =
    if level.index == 0 then ok (record level { tables = level.tables ++ table ∷ [] }) else panicked

-- The multiplications of `max_size` on a level above 1.
unfoldable pub scaled : ℕ → ℕ
scaled zero = 1048576
scaled (suc n) = scaled n * 10

unfoldable pub max_size : Level → ℕ
max_size level = scaled (level.index - 1)

-- What the first loop of `get_overlaps` finds: which tables it started to compact, in their order, and
-- the range that they and the caller span. `none` is contention.
pub record Found : Type 0 where
  pub marks : List Bool
  pub min : Key
  pub max : Key

abbrev pub mark : Bool → Option Found → Option Found
mark m none = none
mark m (some f) = some (record f { marks = m ∷ f.marks })

-- Where a later table is taken by another task, the flag of a table that was started is given back. The
-- source gives back the flags from the front on; each call is on its own table.
unfoldable pub keep_or_abort :
    SortedTable → List SortedTable × Option Found → Outcome (List SortedTable × Option Found)
keep_or_abort t (tables, none) = abort_compaction t >>= λ t'. ok (t' ∷ tables, none)
keep_or_abort t (tables, some f) = ok (t ∷ tables, mark true (some f))

unfoldable pub find_overlaps :
    List SortedTable → (min max : Key) → Outcome (List SortedTable × Option Found)
find_overlaps [] min max = ok ([], some (record { marks = []; min = min; max = max }))
find_overlaps (t ∷ tables) min max =
    let (started, t') = maybe_start_compaction t in
    let taken = find_overlaps tables (key_min t.min min) (key_max t.max max) in
    let passed = find_overlaps tables min max in
    if SortedTable.overlaps t min max
    then (if started then (taken >>= keep_or_abort t') else ok (t ∷ tables, none))
    else (passed >>= λ r. ok (t ∷ r.0, mark false r.1))

-- The flags of all started tables are given back.
unfoldable pub abort_marked : List SortedTable → List Bool → Outcome (List SortedTable)
abort_marked (t ∷ tables) (true ∷ marks) =
    abort_compaction t >>= λ t'. (abort_marked tables marks >>= λ ts. ok (t' ∷ ts))
abort_marked (t ∷ tables) (false ∷ marks) = abort_marked tables marks >>= λ ts. ok (t ∷ ts)
abort_marked tables marks = ok tables

unfoldable pub any_overlaps : List TablePlaceholder → Key → Key → Bool
any_overlaps [] min max = false
any_overlaps (p ∷ placeholders) min max =
    if overlaps p min max then true else any_overlaps placeholders min max

abbrev pub none_marked : List Bool → Bool
none_marked [] = true
none_marked (true ∷ marks) = false
none_marked (false ∷ marks) = none_marked marks

abbrev pub choose_id : Option ℕ → List Bool → ℕ → ℕ
choose_id none marks next_id = next_id
choose_id (some id) marks next_id = if none_marked marks then id else next_id

-- The rest of `get_overlaps`, with the tables and what was found.
unfoldable pub place :
    Level
    → Option ℕ
    → ℕ
    → List SortedTable × Option Found
    → Outcome (Level × Option (ℕ × List Bool))
place level fast_path next_id (tables, none) = ok (record level { tables = tables }, none)
place level fast_path next_id (tables, some f) =
    let id = choose_id fast_path f.marks next_id in
    if any_overlaps level.table_placeholders f.min f.max
    then (abort_marked tables f.marks >>= λ ts. ok (record level { tables = ts }, none))
    else ok (
      record level {
        tables = tables;
        table_placeholders =
            level.table_placeholders ++ record { min = f.min; max = f.max; id = id } ∷ [];
      },
      some (id, f.marks),
    )

-- The result names the tables to compact by their marks.
unfoldable pub get_overlaps :
    Level → (min max : Key) → Option ℕ → ℕ → Outcome (Level × Option (ℕ × List Bool))
get_overlaps level min max fast_path next_id =
    find_overlaps level.tables min max >>= place level fast_path next_id
