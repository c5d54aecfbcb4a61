-- ===== src/Level/Tests.antt =====
-- The level of src/level.rs on small inputs.
use lsm_rs.Prelude.{ℕ, ◌≡◌, refl, [], ◌∷◌, none, some, Bool, true, false, arith}
use lsm_rs.Key.{Key, cmp}
use lsm_rs.Outcome.{ok, Returns}
use lsm_rs.SortedTable
use lsm_rs.SortedTable.{SortedTable, maybe_start_compaction, abort_compaction}
use lsm_rs.Level.{
  Level, get_overlaps, find_overlaps, place, keep_or_abort, abort_marked, any_overlaps, overlaps,
}
use lsm_rs.Level.Start
use lsm_rs.Level.Starting.{Started, maybe_start_compaction-Started}
use lsm_rs.Level.Overlaps.{Granted, get_overlaps-Granted}
use lsm_rs.Level.Placeholders.{Undone, get_overlaps-Undone}

abbrev table : ℕ → Key → Key → Bool → SortedTable
table id min max flag = record {
  identifier = id;
  min = min;
  max = max;
  size = 100;
  compaction_flag = flag;
  allowed_seeks = 0;
}

-- Two tables, and a compaction that writes behind them.
abbrev level : Level
level = record {
  index = 1;
  next_compaction_offset = 0;
  seek_based_compaction = 0;
  do_seek_based_compaction = false;
  tables = table 1 (1 ∷ []) (3 ∷ []) false ∷ table 2 (5 ∷ []) (7 ∷ []) false ∷ [];
  table_placeholders = record { min = 9 ∷ []; max = 12 ∷ []; id = 8 } ∷ [];
}

-- Five tables on level 0, of which the first two and the last overlap in a chain.
abbrev zeroth : Level
zeroth = record {
  index = 0;
  next_compaction_offset = 0;
  seek_based_compaction = 0;
  do_seek_based_compaction = false;
  tables =
      table 1 (1 ∷ []) (3 ∷ []) false
      ∷ table 2 (5 ∷ []) (7 ∷ []) false
      ∷ table 3 (20 ∷ []) (30 ∷ []) false
      ∷ table 4 (40 ∷ []) (50 ∷ []) false
      ∷ table 5 (2 ∷ []) (6 ∷ []) false
      ∷ [];
  table_placeholders = [];
}

maybe_start_compaction-Started_example :
    Returns (Start.maybe_start_compaction zeroth) (Started zeroth)
maybe_start_compaction-Started_example = maybe_start_compaction-Started zeroth

-- Keys from 2 to 4 meet the first table alone.
granted :
    get_overlaps level (2 ∷ []) (4 ∷ []) none 20
    ≡ ok (
      record {
        index = 1;
        next_compaction_offset = 0;
        seek_based_compaction = 0;
        do_seek_based_compaction = false;
        tables = table 1 (1 ∷ []) (3 ∷ []) true ∷ table 2 (5 ∷ []) (7 ∷ []) false ∷ [];
        table_placeholders =
            record { min = 9 ∷ []; max = 12 ∷ []; id = 8 }
            ∷ record { min = 1 ∷ []; max = 4 ∷ []; id = 20 }
            ∷ [];
      },
      some (20, true ∷ false ∷ []),
    )
unfolding get_overlaps find_overlaps place keep_or_abort any_overlaps overlaps SortedTable.overlaps
    maybe_start_compaction cmp
granted = refl

-- Keys from 6 to 10 meet the placeholder.
refused : get_overlaps level (6 ∷ []) (10 ∷ []) none 20 ≡ ok (level, none)
unfolding get_overlaps find_overlaps place keep_or_abort any_overlaps overlaps SortedTable.overlaps
    maybe_start_compaction abort_marked abort_compaction cmp
refused = refl

get_overlaps-Granted_example :
    Returns (get_overlaps level (2 ∷ []) (4 ∷ []) none 20) (Granted level)
get_overlaps-Granted_example = get_overlaps-Granted level (2 ∷ []) (4 ∷ []) none 20 (tt, tt)

get_overlaps-Undone_example :
    Returns (get_overlaps level (2 ∷ []) (4 ∷ []) (some 2) 20) (Undone level)
get_overlaps-Undone_example =
    get_overlaps-Undone level (2 ∷ []) (4 ∷ []) (some 2) 20
      ((λ e. omega (arith, e), tt), (λ e. omega (arith, e), tt))
