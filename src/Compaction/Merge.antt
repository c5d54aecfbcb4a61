-- ===== src/Compaction/Merge.antt =====
-- The loop of `compact_level` in src/logic.rs that merges the entries of several tables. A table iterator
-- that runs forward is the list of the entries from its position on: `at_end` is the empty list, `get_key`
-- and the other getters read its head and `step` drops it. The calls of the table builder are the entries
-- in the result. What fails inside the builder, and the wisckey lists of deleted values, are left out.
use lsm_rs.Prelude.{
  ℕ, zero, suc, ◌+◌, Option, none, some, List, [], ◌∷◌, length, if◌then◌else◌, ltb,
}
use lsm_rs.Key.{Key, key_eq, key_lt, key_le}
use lsm_rs.EntryType.{put, delete}
use lsm_rs.Memtable.{MemtableEntry, value, deletion, Entries, get_type, get_value, get_seq_number}
use lsm_rs.Outcome.{Outcome, ok, panicked, diverged, ◌>>=◌}

-- `while !table_iter.at_end() && table_iter.get_key() <= last_key`
unfoldable pub skip : Key → Entries → Entries
skip last [] = []
skip last ((k, e) ∷ es) = let rest = skip last es in if key_le k last then rest else (k, e) ∷ es

unfoldable pub advance : Option Key → Entries → Entries
advance none es = es
advance (some last) es = skip last es

-- The least key so far, with the next iterator's.
unfoldable pub lesser : Option Key → Entries → Option Key
lesser min [] = min
lesser none ((k, e) ∷ es) = some k
lesser (some m) ((k, e) ∷ es) = if key_lt k m then some k else some m

-- The first loop over the iterators.
unfoldable pub find_min : Option Key → Option Key → List Entries → List Entries × Option Key
find_min last min [] = ([], min)
find_min last min (it ∷ its) =
    let it' = advance last it in
    let (its', min') = find_min last (lesser min it') its in (it' ∷ its', min')

-- `min_iter`, with the next iterator.
unfoldable pub newer : Key → Option MemtableEntry → Entries → Option MemtableEntry
newer min best [] = best
newer min none ((k, e) ∷ es) = if key_eq k min then some e else none
newer min (some b) ((k, e) ∷ es) =
    if key_eq k min
    then (if ltb (get_seq_number b) (get_seq_number e) then some e else some b)
    else some b

-- The second loop over the iterators.
unfoldable pub find_newest : Key → Option MemtableEntry → List Entries → Option MemtableEntry
find_newest min best [] = best
find_newest min best (it ∷ its) = find_newest min (newer min best it) its

-- `add_value` or `add_deletion`, by the type of the entry.
unfoldable pub write_entry : Key → MemtableEntry → Outcome (Key × MemtableEntry)
write_entry key e = elim (get_type e) [
  | put ↦ elim (get_value e) [ none ↦ panicked | some v ↦ ok (key, value (get_seq_number e) v) ]
  | delete ↦ ok (key, deletion (get_seq_number e))
]

-- The whole loop, with `last_key`.
unfoldable pub merge : ℕ → Option Key → List Entries → Outcome Entries
merge zero last its = diverged
merge (suc fuel) last its =
    let (its', min) = find_min last none its in
    elim min [
      | none ↦ ok []
      | some key ↦ elim (find_newest key none its') [
        | none ↦ panicked
        | some e ↦ write_entry key e >>= λ entry.
            (merge fuel (some key) its' >>= λ rest. ok (entry ∷ rest))
      ]
    ]

unfoldable pub entry_count : List Entries → ℕ
entry_count [] = 0
entry_count (it ∷ its) = length it + entry_count its

-- The loop ends after at most one round for each entry, and one more.
unfoldable pub merge_tables : List Entries → Outcome Entries
merge_tables its = merge (entry_count its + 1) none its
