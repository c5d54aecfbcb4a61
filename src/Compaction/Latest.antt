-- ===== src/Compaction/Latest.antt =====
-- The reference of the merge of src/logic.rs, in terms of the sequence numbers in the tables.
use lsm_rs.Prelude.{
  ◌≤◌, ◌≡◌, refl, ◌∙◌, sym, subst, Option, none, some, List, [], ◌∷◌, All, ◌⊎◌, inl, inr, arith,
  ltb, Bool-cases,
}
use lsm_rs.Key.{Key}
use lsm_rs.Memtable.{MemtableEntry, Entries, get_seq_number}
use lsm_rs.Memtable.Upsert.{IsSorted, find}
use lsm_rs.Outcome.{Returns, Returns-imp}
use lsm_rs.Compaction.Merge.{merge_tables}
use lsm_rs.Compaction.Newest.{newest, newest_of, later}
use lsm_rs.Compaction.Merging.{IsMergeOf, merge_tables_lem}

-- No version is newer than the first one.
abbrev pub Dominates : Option MemtableEntry → Option MemtableEntry → Type 0
Dominates best none = Unit
Dominates none (some e) = ⊥
Dominates (some b) (some e) = get_seq_number e ≤ get_seq_number b

abbrev pub HasVersion : Key → Option MemtableEntry → List Entries → Type 0
HasVersion k r [] = ⊥
HasVersion k r (it ∷ its) = (find it k ≡ r) ⊎ HasVersion k r its

Dominates-refl : (r : Option MemtableEntry) → Dominates r r
Dominates-refl none = tt
Dominates-refl (some e) = omega arith

Dominates-trans : (a b c : Option MemtableEntry) → Dominates a b → Dominates b c → Dominates a c
Dominates-trans a b none h k = tt
Dominates-trans a none (some e) h k = absurd k
Dominates-trans none (some b) (some e) h k = absurd h
Dominates-trans (some a) (some b) (some e) h k = omega (arith, h, k)

later-Dominates :
    (best new : Option MemtableEntry)
    → Dominates (later best new) best × Dominates (later best new) new
unfolding later
later-Dominates best none = (Dominates-refl best, tt)
later-Dominates none (some e) = (tt, omega arith)
later-Dominates (some b) (some e) = elim (Bool-cases (ltb (get_seq_number b) (get_seq_number e))) [
  | inl l ↦ rw l ground (arith, l)
  | inr l ↦ rw l ground (arith, l)
]

later_cases : (best new : Option MemtableEntry) → (later best new ≡ best) ⊎ (later best new ≡ new)
unfolding later
later_cases best none = inl refl
later_cases none (some e) = inr refl
later_cases (some b) (some e) = elim (Bool-cases (ltb (get_seq_number b) (get_seq_number e))) [
  | inl l ↦ inr (rw l refl)
  | inr l ↦ inl (rw l refl)
]

newest_of-Dominates :
    (best : Option MemtableEntry) (k : Key) (its : List Entries)
    → Dominates (newest_of best k its) best
      × All (λ it. Dominates (newest_of best k its) (find it k)) its
unfolding newest_of
newest_of-Dominates best k [] = (Dominates-refl best, tt)
newest_of-Dominates best k (it ∷ its) =
    let next = later best (find it k) in
    let r = newest_of next k its in
    let (a, b) = newest_of-Dominates next k its in
    let (c, d) = later-Dominates best (find it k) in
    (Dominates-trans r next best a c, (Dominates-trans r next (find it k) a d, b))

newest_of-HasVersion :
    (best : Option MemtableEntry) (k : Key) (its : List Entries)
    → (newest_of best k its ≡ best) ⊎ HasVersion k (newest_of best k its) its
unfolding newest_of
newest_of-HasVersion best k [] = inl refl
newest_of-HasVersion best k (it ∷ its) =
    elim (newest_of-HasVersion (later best (find it k)) k its) [
      | inr there ↦ inr (inr there)
      | inl here ↦ elim (later_cases best (find it k)) [
        | inl old ↦ inl (here ∙ old)
        | inr new ↦ inr (inl (sym (here ∙ new)))
      ]
    ]

-- For each key, no version in a table is newer than what the merged table holds, which is a version of
-- one of the tables, if the merged table has the key.
abbrev pub IsLatest : List Entries → Entries → Type 0
IsLatest tables merged =
    (k : Key)
    → All (λ t. Dominates (find merged k) (find t k)) tables
      × ((find merged k ≡ none) ⊎ HasVersion k (find merged k) tables)

-- The merge of sorted tables ends without a panic, and its table holds, for each key, a version that one
-- of the tables has, and none of the tables has a version with a greater sequence number.
pub merge_tables-IsLatest :
    (tables : List Entries) → All IsSorted tables → Returns (merge_tables tables) (IsLatest tables)
unfolding newest
merge_tables-IsLatest tables s =
    Returns-imp (merge_tables tables) (IsMergeOf tables) (IsLatest tables)
      (merge_tables_lem tables s)
      (λ merged h k.
        subst (λ r. All (λ t. Dominates r (find t k)) tables × ((r ≡ none) ⊎ HasVersion k r tables))
          (sym (h.1 k)) ((newest_of-Dominates none k tables).1, newest_of-HasVersion none k tables))
