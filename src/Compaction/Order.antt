-- ===== src/Compaction/Order.antt =====
-- The order of the tables of a child level after a compaction of src/logic.rs.
use lsm_rs.Prelude.{
  ℕ, suc, ◌≡◌, refl, List, [], ◌∷◌, Option, none, some, length, insert_idx, All, All-imp, ◌⊎◌,
  subst, Bool-cases, inl, inr, arith,
}
use lsm_rs.Key.{Key, key_lt, ◌≺◌, cmp_refl, gt_of_lt, ≺_trans}
use lsm_rs.SortedTable.{SortedTable}
use lsm_rs.Compaction.{find_place, further, place_or, add_compacted, add_moved}

-- The minimum keys ascend strictly.
abbrev pub IsOrdered : List SortedTable → Type 0
IsOrdered [] = Unit
IsOrdered (t ∷ ts) = All (λ u. t.min ≺ u.min) ts × IsOrdered ts

-- The minimum of the new table is not that of another.
abbrev pub IsNew : Key → List SortedTable → Type 0
IsNew min ts = All (λ u. (u.min ≺ min) ⊎ (min ≺ u.min)) ts

insert_further :
    (r : Option ℕ) (u t : SortedTable) (us : List SortedTable)
    → insert_idx (u ∷ us) (place_or (suc (length us)) (further r)) t
      ≡ u ∷ insert_idx us (place_or (length us) r) t
insert_further none u t us = refl
insert_further (some p) u t us = refl

All-add_compacted :
    (P : SortedTable → Type 0) (ts : List SortedTable) (t : SortedTable)
    → P t
    → All P ts
    → All P (add_compacted ts t)
unfolding add_compacted find_place
All-add_compacted P [] t p h = (p, tt)
All-add_compacted P (u ∷ us) t p h = elim (Bool-cases (key_lt t.min u.min)) [
  | inl e ↦ rw e (p, (h.0, h.1))
  | inr e ↦
      rw (e, insert_further (find_place us t.min) u t us) (h.0, All-add_compacted P us t p h.1)
]

below-All :
    (k : Key) (u : SortedTable) (us : List SortedTable)
    → k ≺ u.min
    → All (λ v. u.min ≺ v.min) us
    → All (λ v. k ≺ v.min) us
below-All k u us l h = All-imp (λ v. ≺_trans k u.min v.min l) us h

-- The table of `compact_level` goes to its place: the tables stay ordered by their minimum keys, where
-- they were and the new minimum differs from theirs.
pub add_compacted-IsOrdered :
    (ts : List SortedTable) (t : SortedTable)
    → IsNew t.min ts
    → IsOrdered ts
    → IsOrdered (add_compacted ts t)
unfolding add_compacted find_place
add_compacted-IsOrdered [] t n h = (tt, tt)
add_compacted-IsOrdered (u ∷ us) t n h = elim n.0 [
  | inr l ↦ rw (l, key_lt) ((l, below-All t.min u us l h.0), (h.0, h.1))
  | inl g ↦
      rw (gt_of_lt u.min t.min g, key_lt, insert_further (find_place us t.min) u t us)
        (All-add_compacted (λ v. u.min ≺ v.min) us t g h.0, add_compacted-IsOrdered us t n.1 h.1)
]

none_greater :
    (ts : List SortedTable) (min : Key) → All (λ u. u.min ≺ min) ts → find_place ts min ≡ none
unfolding find_place
none_greater [] min h = refl
none_greater (u ∷ us) min h = rw (gt_of_lt u.min min h.0, key_lt, none_greater us min h.1) refl

irreflexive : (k : Key) → k ≺ k → ⊥
irreflexive k h = absurd (ground (arith, h, cmp_refl k))

-- Where the minimum key of the table that `fast_compaction` moves is greater than those of the tables of
-- the child level, of which there is at least one, the tables are afterwards not ordered.
pub add_moved_unordered :
    (ts : List SortedTable) (u t : SortedTable)
    → All (λ v. v.min ≺ t.min) (u ∷ ts)
    → ¬ IsOrdered (add_moved (u ∷ ts) t)
unfolding add_moved
add_moved_unordered ts u t h o =
    let o' =
      subst (λ p. IsOrdered (insert_idx (u ∷ ts) (place_or 0 p) t)) (none_greater (u ∷ ts) t.min h)
        o in
    irreflexive t.min (≺_trans t.min u.min t.min o'.0.0 h.0)
