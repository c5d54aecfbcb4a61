-- ===== src/Memtable/Laws.antt =====
-- What the memtable of src/memtable.rs promises: its vector stays sorted, its size is the bytes that
-- it holds, and it reads like a map in which the latest operation on a key wins.
use lsm_rs.Prelude.{
  ℕ, ◌+◌, ◌≤◌, ◌≡◌, refl, Option, none, some, [], ◌∷◌, get_elem?, if◌then◌else◌, arith, Bool, true,
  false,
}
use lsm_rs.Key.{Key, Value, key_eq, eq_of_cmp, lt_of_gt}
use lsm_rs.Memtable.{
  MemtableEntry, value, deletion, Entries, Memtable, new, get, put, delete, found, missing,
  Position, binary_search,
}
use lsm_rs.Memtable.Upsert.{
  IsSorted, find, total, upsert, remove_at, index, upsert-IsSorted, find-upsert, total-upsert,
  old_len, find_above,
}

-- The representation invariant.
pub record IsValid (m : Memtable) : Type 0 where
  pub sorted : IsSorted m.entries
  pub sized : m.size ≡ total m.entries

-- The binary search finds the entry of the key, if there is one.
abbrev at : Entries → Position → Option MemtableEntry
at es (found pos) = elim (get_elem? es pos) [ none ↦ none | some (k, e) ↦ some e ]
at es (missing pos) = none

at-binary_search : (es : Entries) (q : Key) → IsSorted es → at es (binary_search es q) ≡ find es q
unfolding binary_search find
at-binary_search [] q s = refl
at-binary_search ((k, e) ∷ es) q s =
    ground (arith, at-binary_search es q s.1, find_above es k q s.0, lt_of_gt k q)

-- A position that the search returns is one of the vector.
abbrev in_range : Entries → Position → Bool
in_range es (found pos) = elim (get_elem? es pos) [ none ↦ false | some x ↦ true ]
in_range es (missing pos) = true

in_range-binary_search : (es : Entries) (q : Key) → in_range es (binary_search es q) ≡ true
unfolding binary_search
in_range-binary_search [] q = refl
in_range-binary_search ((k, e) ∷ es) q = ground (arith, in_range-binary_search es q)

pub get-find : (m : Memtable) (q : Key) → IsSorted m.entries → get m q ≡ find m.entries q
unfolding get
get-find m q s = ground (arith, at-binary_search m.entries q s)

-- An entry is never longer than the table, so that `size -= entry_len` does not underflow.
find-total : (es : Entries) (q : Key) → old_len q (find es q) ≤ total es
unfolding find total
find-total [] q = ground arith
find-total ((k, e) ∷ es) q = ground (arith, find-total es q, eq_of_cmp k q)

-- Both operations are the one pass over the vector, and count the bytes.
pub put_lem :
    (m : Memtable) (q : Key) (v : Value)
    → IsValid m
    → put m q v ≡ record {
      entries = upsert m.entries q (value m.next_seq_number v);
      size = total (upsert m.entries q (value m.next_seq_number v));
      next_seq_number = m.next_seq_number + 1;
    }
unfolding put upsert remove_at index
put_lem m q v h = ground (
  arith,
  at-binary_search m.entries q h.sorted,
  in_range-binary_search m.entries q,
  total-upsert m.entries q (value m.next_seq_number v) h.sorted,
  find-total m.entries q,
)

pub delete_lem :
    (m : Memtable) (q : Key)
    → IsValid m
    → delete m q ≡ record {
      entries = upsert m.entries q (deletion m.next_seq_number);
      size = total (upsert m.entries q (deletion m.next_seq_number));
      next_seq_number = m.next_seq_number + 1;
    }
unfolding delete upsert remove_at index
delete_lem m q h = ground (
  arith,
  at-binary_search m.entries q h.sorted,
  in_range-binary_search m.entries q,
  total-upsert m.entries q (deletion m.next_seq_number) h.sorted,
  find-total m.entries q,
)

-- A new table is valid, and `put` and `delete` keep a table valid.
pub new-IsValid : (next : ℕ) → IsValid (new next)
unfolding new total
new-IsValid n = record { sorted = tt; sized = refl }

pub put-IsValid : (m : Memtable) (q : Key) (v : Value) → IsValid m → IsValid (put m q v)
put-IsValid m q v h = rw (put_lem m q v h) (record {
  sorted = upsert-IsSorted m.entries q (value m.next_seq_number v) h.sorted;
  sized = refl;
})

pub delete-IsValid : (m : Memtable) (q : Key) → IsValid m → IsValid (delete m q)
delete-IsValid m q h = rw (delete_lem m q h) (record {
  sorted = upsert-IsSorted m.entries q (deletion m.next_seq_number) h.sorted;
  sized = refl;
})

-- What a reader finds after a `put`: the new value under its key, and all else as before.
pub get-put :
    (m : Memtable) (q j : Key) (v : Value)
    → IsValid m
    → get (put m q v) j ≡ (if key_eq q j then some (value m.next_seq_number v) else get m j)
get-put m q j v h =
    rw (get-find (put m q v) j (put-IsValid m q v h).sorted, put_lem m q v h, get-find m j h.sorted)
      (find-upsert m.entries q j (value m.next_seq_number v) h.sorted)

pub get-delete :
    (m : Memtable) (q j : Key)
    → IsValid m
    → get (delete m q) j ≡ (if key_eq q j then some (deletion m.next_seq_number) else get m j)
get-delete m q j h =
    rw
      (
        get-find (delete m q) j (delete-IsValid m q h).sorted,
        delete_lem m q h,
        get-find m j h.sorted,
      )
      (find-upsert m.entries q j (deletion m.next_seq_number) h.sorted)
