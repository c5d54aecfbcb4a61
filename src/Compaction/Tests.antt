-- ===== src/Compaction/Tests.antt =====
-- The placement of tables of src/logic.rs on small inputs.
use lsm_rs.Prelude.{◌≡◌, refl, List, [], ◌∷◌, false, inl, inr}
use lsm_rs.Key.{Key, cmp}
use lsm_rs.SortedTable.{SortedTable}
use lsm_rs.Compaction.{add_compacted, add_moved, find_place}
use lsm_rs.Compaction.Order.{IsOrdered, add_compacted-IsOrdered, add_moved_unordered}

abbrev table : Key → Key → SortedTable
table min max = record {
  identifier = 1;
  min = min;
  max = max;
  size = 100;
  compaction_flag = false;
  allowed_seeks = 0;
}

abbrev tables : List SortedTable
tables = table (1 ∷ []) (3 ∷ []) ∷ table (6 ∷ []) (7 ∷ []) ∷ []

abbrev middle : SortedTable
middle = table (4 ∷ []) (5 ∷ [])

abbrev greatest : SortedTable
greatest = table (8 ∷ []) (9 ∷ [])

both_places :
    (add_compacted tables greatest
      ≡ table (1 ∷ []) (3 ∷ []) ∷ table (6 ∷ []) (7 ∷ []) ∷ greatest ∷ [])
    × (add_moved tables greatest
        ≡ greatest ∷ table (1 ∷ []) (3 ∷ []) ∷ table (6 ∷ []) (7 ∷ []) ∷ [])
unfolding add_compacted add_moved find_place cmp
both_places = (refl, refl)

add_compacted-IsOrdered_example : IsOrdered (add_compacted tables middle)
unfolding cmp
add_compacted-IsOrdered_example =
    add_compacted-IsOrdered tables middle (inl refl, (inr refl, tt)) ((refl, tt), (tt, tt))

add_moved_unordered_example : ¬ IsOrdered (add_moved tables greatest)
unfolding cmp
add_moved_unordered_example =
    add_moved_unordered (table (6 ∷ []) (7 ∷ []) ∷ []) (table (1 ∷ []) (3 ∷ [])) greatest
      (refl, (refl, tt))
