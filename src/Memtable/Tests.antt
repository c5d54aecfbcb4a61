-- ===== src/Memtable/Tests.antt =====
-- The memtable on small inputs.
use lsm_rs.Prelude.{◌≡◌, refl, none, some, List, [], ◌∷◌, true, if◌then◌else◌}
use lsm_rs.Key.{cmp, key_eq}
use lsm_rs.Memtable
use lsm_rs.Memtable.{
  Memtable, MemtableEntry, value, deletion, new, get, get_min_max_key, is_full, binary_search,
}
use lsm_rs.Memtable.Laws.{IsValid, new-IsValid, get-put, get-delete}
use lsm_rs.Memtable.Replay.{apply_ops}
use lsm_rs.Memtable.Client.{latest, apply_ops-IsValid, get-apply_ops}
use lsm_rs.Memtable.Iterator
use lsm_rs.Memtable.Iteration.{collect, backwards, collect-new}
use lsm_rs.Outcome.{ok, ◌>>=◌}
use native.Mathlib.Omega.{arith}
use lsm_rs.WriteBatch.Op.{WriteOp, put, delete}

abbrev ops : List WriteOp
ops =
    put (7 ∷ []) (1 ∷ 2 ∷ [])
    ∷ put (3 ∷ []) (9 ∷ [])
    ∷ put (7 ∷ 0 ∷ []) (5 ∷ [])
    ∷ delete (3 ∷ [])
    ∷ put (7 ∷ []) (4 ∷ [])
    ∷ []

table : Memtable
unfolding apply_ops new Memtable.put Memtable.delete binary_search cmp
table = apply_ops (new 1) ops

table_reads :
    (get table (7 ∷ []) ≡ some (value 5 (4 ∷ [])))
    × (get table (3 ∷ []) ≡ some (deletion 4))
    × (get table (8 ∷ []) ≡ none)
    × (get_min_max_key table ≡ some (3 ∷ [], 7 ∷ 0 ∷ []))
    × (table.size ≡ 6)
    × (is_full table 6 ≡ true)
unfolding table get get_min_max_key is_full binary_search cmp
table_reads = (refl, refl, refl, refl, refl, refl)

apply_ops-IsValid_example : IsValid (apply_ops (new 1) ops)
apply_ops-IsValid_example = apply_ops-IsValid ops (new 1) (new-IsValid 1)

get-apply_ops_example :
    get (apply_ops (new 1) ops) (7 ∷ [])
    ≡ latest (7 ∷ []) ops (new 1).next_seq_number (get (new 1) (7 ∷ []))
get-apply_ops_example = get-apply_ops ops (new 1) (7 ∷ []) (new-IsValid 1)

-- A table of two entries.
abbrev two : Memtable
two = record {
  entries = (1 ∷ [], value 1 (9 ∷ [])) ∷ (2 ∷ [], deletion 2) ∷ [];
  size = 3;
  next_seq_number = 3;
}

get-put_example : get (Memtable.put (apply_ops (new 1) ops) (7 ∷ []) (6 ∷ [])) (3 ∷ []) ≡ (
    if key_eq (7 ∷ []) (3 ∷ [])
    then some (value (apply_ops (new 1) ops).next_seq_number (6 ∷ []))
    else get (apply_ops (new 1) ops) (3 ∷ []))
get-put_example =
    get-put (apply_ops (new 1) ops) (7 ∷ []) (3 ∷ []) (6 ∷ []) apply_ops-IsValid_example

get-delete_example : get (Memtable.delete (apply_ops (new 1) ops) (7 ∷ [])) (7 ∷ []) ≡ (
    if key_eq (7 ∷ []) (7 ∷ [])
    then some (deletion (apply_ops (new 1) ops).next_seq_number)
    else get (apply_ops (new 1) ops) (7 ∷ []))
get-delete_example = get-delete (apply_ops (new 1) ops) (7 ∷ []) (7 ∷ []) apply_ops-IsValid_example

collect-new_example :
    (Iterator.new two true >>= collect 4) ≡ ok (if true then backwards two.entries else two.entries)
collect-new_example = collect-new two true 4 (omega arith) (omega arith)
