-- ===== src/Memtable.antt =====
-- src/memtable.rs: the mutable table of recent writes, a vector sorted by key.
-- The vector's `binary_search_by_key` is the standard library's: on a sorted vector it returns the
-- position of the key, or the position where the key belongs, which `binary_search` computes.
-- `MemtableRef` and `ImmMemtableRef` are shared pointers to the record.
pub mod Upsert
pub mod Laws
pub mod Replay
pub mod Client
pub mod Iterator
pub mod Iteration
pub mod Tests
use Prim.Native.Nat.Ordering.{lt, eq, gt}
use lsm_rs.Prelude.{
  ℕ, suc, ◌+◌, ◌-◌, Bool, Option, none, some, List, [], ◌∷◌, length, get_elem?, insert_idx,
  remove_idx, leb,
}
use lsm_rs.Key.{Key, Value, cmp}
use lsm_rs.EntryType.{DataEntryType}

pub data MemtableEntry : Type 0 where
  value : ℕ → Value → MemtableEntry
  deletion : ℕ → MemtableEntry

unfoldable pub get_type : MemtableEntry → DataEntryType
get_type (value seq v) = DataEntryType.put
get_type (deletion seq) = DataEntryType.delete

unfoldable pub get_value : MemtableEntry → Option Value
get_value (value seq v) = some v
get_value (deletion seq) = none

unfoldable pub get_seq_number : MemtableEntry → ℕ
get_seq_number (value seq v) = seq
get_seq_number (deletion seq) = seq

abbrev pub Entries : Type 0
Entries = List (Key × MemtableEntry)

pub record Memtable : Type 0 where
  pub entries : Entries
  pub size : ℕ
  pub next_seq_number : ℕ

unfoldable pub new : ℕ → Memtable
new next = record { entries = []; size = 0; next_seq_number = next }

-- `Ok(pos)` and `Err(pos)` of `binary_search_by_key`.
pub data Position : Type 0 where
  found missing : ℕ → Position

abbrev pub next : Position → Position
next (found i) = found (suc i)
next (missing i) = missing (suc i)

unfoldable pub binary_search : Entries → Key → Position
binary_search [] q = missing 0
binary_search ((k, e) ∷ es) q = elim (cmp k q) [
  | lt ↦ next (binary_search es q)
  | eq ↦ found 0
  | gt ↦ missing 0
]

-- Of an empty table the source panics; so does `none`.
unfoldable pub get_min_max_key : Memtable → Option (Key × Key)
get_min_max_key m = elim (get_elem? m.entries 0) [
  | none ↦ none
  | some lo ↦ elim (get_elem? m.entries (length m.entries - 1)) [
    | none ↦ none
    | some hi ↦ some (lo.0, hi.0)
  ]
]

unfoldable pub get : Memtable → Key → Option MemtableEntry
get m q = elim (binary_search m.entries q) [
  | found pos ↦ elim (get_elem? m.entries pos) [ none ↦ none | some (k, e) ↦ some e ]
  | missing pos ↦ none
]

-- `key.len() + value.len()` of the removed entry, by its kind.
abbrev pub entry_len : Key → MemtableEntry → ℕ
entry_len key (value seq v) = length key + length v
entry_len key (deletion seq) = length key

-- Removes an entry with the same key. `size` does not underflow: `Laws.sized`.
unfoldable pub get_key_pos : Memtable → Key → Memtable × ℕ
get_key_pos m key = elim (binary_search m.entries key) [
  | found pos ↦ elim (get_elem? m.entries pos) [
    | none ↦ (m, pos)
    | some (k, e) ↦
        (record m { entries = remove_idx m.entries pos; size = m.size - entry_len key e }, pos)
  ]
  | missing pos ↦ (m, pos)
]

-- `put` and `delete` differ in the entry and its length alone; the source writes both out.
unfoldable pub put : Memtable → Key → Value → Memtable
unfolding get_key_pos
put m key v =
    let (m', pos) = get_key_pos m key in
    record {
      entries = insert_idx m'.entries pos (key, value m'.next_seq_number v);
      size = m'.size + (length key + length v);
      next_seq_number = m'.next_seq_number + 1;
    }

unfoldable pub delete : Memtable → Key → Memtable
unfolding get_key_pos
delete m key =
    let (m', pos) = get_key_pos m key in
    record {
      entries = insert_idx m'.entries pos (key, deletion m'.next_seq_number);
      size = m'.size + length key;
      next_seq_number = m'.next_seq_number + 1;
    }

-- `max_memtable_size` is the parameter of that name.
unfoldable pub is_full : Memtable → ℕ → Bool
is_full m max_memtable_size = leb max_memtable_size m.size

-- `MemtableRef::take`: the old contents, and a new table with the given sequence number.
unfoldable pub take : Memtable → ℕ → Memtable × Memtable
take m next_seq = (m, new next_seq)
