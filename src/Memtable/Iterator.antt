-- ===== src/Memtable/Iterator.antt =====
-- `MemtableIterator` of src/memtable.rs. `next_index` is an `i64`, and -1 and -2 mean something.
use lsm_rs.Prelude.{
  ℕ, zero, suc, Option, none, some, Bool, true, false, length, get_elem?, ltb, ◌==◌, if◌then◌else◌,
}
use lsm_rs.EntryType.{DataEntryType}
use lsm_rs.Key.{Key}
use lsm_rs.Memtable.{Entries, Memtable, MemtableEntry, get_type, get_seq_number}
use lsm_rs.Outcome.{Outcome, ok, panicked, ◌>>=◌}

-- An integer: `pos n` is n, and `negsuc n` is -1 - n.
pub data ℤ : Type 0 where
  pos negsuc : ℕ → ℤ

-- `+ 1` and `- 1`.
abbrev pub increment : ℤ → ℤ
increment (pos n) = pos (suc n)
increment (negsuc zero) = pos zero
increment (negsuc (suc n)) = negsuc n

abbrev pub decrement : ℤ → ℤ
decrement (pos zero) = negsuc zero
decrement (pos (suc n)) = pos n
decrement (negsuc n) = negsuc (suc n)

pub record MemtableIterator : Type 0 where
  pub inner : Entries
  pub next_index : ℤ
  pub key : Option Key
  pub entry : Option MemtableEntry
  pub reverse : Bool

-- `entries[next_index].clone()`, with the index that follows.
unfoldable pub load : MemtableIterator → Option (Key × MemtableEntry) → ℤ → Outcome MemtableIterator
load it none next = panicked
load it (some (k, e)) next = ok (record it { key = some k; entry = some e; next_index = next })

-- The branch of `step` for `reverse`.
unfoldable pub step_back : MemtableIterator → ℤ → Outcome MemtableIterator
step_back it (pos n) = load it (get_elem? it.inner n) (decrement (pos n))
step_back it (negsuc zero) = ok (record it { next_index = negsuc (suc zero) })
step_back it (negsuc (suc n)) = panicked

-- The other branch; a negative index is below the length, and indexing by it panics.
unfoldable pub step_forward : MemtableIterator → ℤ → Outcome MemtableIterator
step_forward it (negsuc n) = panicked
step_forward it (pos n) =
    if ltb (length it.inner) n
    then panicked
    else if n == length it.inner
    then ok (record it { next_index = pos (suc n) })
    else load it (get_elem? it.inner n) (pos (suc n))

unfoldable pub step : MemtableIterator → Outcome MemtableIterator
step it = if it.reverse then step_back it it.next_index else step_forward it it.next_index

unfoldable pub new : Memtable → Bool → Outcome MemtableIterator
new m reverse = step (record {
  inner = m.entries;
  next_index = if reverse then decrement (pos (length m.entries)) else pos 0;
  key = none;
  entry = none;
  reverse = reverse;
})

abbrev at_end_of : Bool → ℤ → ℕ → Bool
at_end_of true (pos n) len = false
at_end_of true (negsuc n) len = ltb 0 n
at_end_of false (pos n) len = ltb len n
at_end_of false (negsuc n) len = false

unfoldable pub at_end : MemtableIterator → Bool
at_end it = at_end_of it.reverse it.next_index (length it.inner)

-- `expect` and `unwrap`.
abbrev pub unwrap {ℓ} : {A : Type ℓ} → Option A → Outcome A
unwrap none = panicked
unwrap (some a) = ok a

unfoldable pub get_key : MemtableIterator → Outcome Key
get_key it = unwrap it.key

abbrev pub get_entry : MemtableIterator → Option MemtableEntry
get_entry it = it.entry

unfoldable pub get_entry_type : MemtableIterator → Outcome DataEntryType
get_entry_type it = unwrap it.entry >>= λ e. ok (get_type e)

unfoldable pub iterator_seq_number : MemtableIterator → Outcome ℕ
iterator_seq_number it = unwrap it.entry >>= λ e. ok (get_seq_number e)
