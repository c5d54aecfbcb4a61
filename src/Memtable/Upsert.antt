-- ===== src/Memtable/Upsert.antt =====
-- The vector operations of `put` and `delete` of src/memtable.rs as one structural pass, and what a
-- reader finds after it.
use Prim.Native.Nat.Ordering.{lt, eq, gt}
use lsm_rs.Prelude.{
  ℕ, ◌+◌, ◌≡◌, refl, Option, none, some, [], ◌∷◌, All, All-imp, insert_idx, remove_idx,
  if◌then◌else◌, arith,
}
use lsm_rs.Key.{Key, cmp, key_eq, ◌≺◌, cmp_refl, eq_of_cmp, lt_of_gt, gt_of_lt, ≺_trans}
use lsm_rs.Memtable.{MemtableEntry, Entries, Position, found, missing, binary_search, entry_len}

-- The keys ascend strictly.
abbrev pub IsSorted : Entries → Type 0
IsSorted [] = Unit
IsSorted ((k, e) ∷ es) = All (λ x. k ≺ x.0) es × IsSorted es

-- The entry of a key, wherever it stands: the reference for `get`.
unfoldable pub find : Entries → Key → Option MemtableEntry
find [] q = none
find ((k, e) ∷ es) q = if key_eq k q then some e else find es q

-- The bytes of all keys and values: the reference for `size`.
unfoldable pub total : Entries → ℕ
total [] = 0
total ((k, e) ∷ es) = entry_len k e + total es

-- The vector after the old entry of the key is removed.
unfoldable pub remove_at : Entries → Position → Entries
remove_at es (found pos) = remove_idx es pos
remove_at es (missing pos) = es

unfoldable pub index : Position → ℕ
index (found pos) = pos
index (missing pos) = pos

unfoldable pub upsert : Entries → Key → MemtableEntry → Entries
upsert es q new = let p = binary_search es q in insert_idx (remove_at es p) (index p) (q, new)

pub upsert-cons :
    (k : Key) (e : MemtableEntry) (es : Entries) (q : Key) (new : MemtableEntry)
    → upsert ((k, e) ∷ es) q new ≡ (elim (cmp k q) [
      | lt ↦ (k, e) ∷ upsert es q new
      | eq ↦ (q, new) ∷ es
      | gt ↦ (q, new) ∷ (k, e) ∷ es
    ])
unfolding upsert remove_at index binary_search
upsert-cons k e es q new = ground arith

-- Where a predicate holds of the old entries and of the new one, it holds after the pass.
pub All-upsert {ℓ} :
    (P : Key × MemtableEntry → Type ℓ) (es : Entries) (q : Key) (new : MemtableEntry)
    → P (q, new)
    → All P es
    → All P (upsert es q new)
unfolding upsert remove_at index binary_search
All-upsert P [] q new p h = (p, tt)
All-upsert P ((k, e) ∷ es) q new p h =
    rw (upsert-cons k e es q new) (ground (arith, All-upsert P es q new p))

pub All-above : (a b : Key) (es : Entries) → a ≺ b → All (λ x. b ≺ x.0) es → All (λ x. a ≺ x.0) es
All-above a b es h = All-imp (λ x. ≺_trans a b x.0 h) es

pub upsert-IsSorted :
    (es : Entries) (q : Key) (new : MemtableEntry) → IsSorted es → IsSorted (upsert es q new)
unfolding upsert remove_at index binary_search
upsert-IsSorted [] q new s = (tt, tt)
upsert-IsSorted ((k, e) ∷ es) q new s = rw (upsert-cons k e es q new) (
    ground (
      arith,
      upsert-IsSorted es q new s.1,
      All-upsert (λ x. k ≺ x.0) es q new,
      eq_of_cmp k q,
      lt_of_gt k q,
      All-above q k es,
    ))

-- No entry of a sorted table stands before its first key.
pub find_above : (es : Entries) (k q : Key) → All (λ x. k ≺ x.0) es → q ≺ k → find es q ≡ none
unfolding find
find_above [] k q h l = refl
find_above ((j, e) ∷ es) k q h l =
    ground (arith, find_above es k q h.1 l, ≺_trans q k j, gt_of_lt q j)

pub find-upsert :
    (es : Entries) (q j : Key) (new : MemtableEntry)
    → IsSorted es
    → find (upsert es q new) j ≡ (if key_eq q j then some new else find es j)
unfolding find upsert remove_at index binary_search
find-upsert [] q j new s = refl
find-upsert ((k, e) ∷ es) q j new s =
    rw (upsert-cons k e es q new, find)
      (ground (
        arith,
        find-upsert es q j new s.1,
        eq_of_cmp k q,
        eq_of_cmp q j,
        eq_of_cmp k j,
        cmp_refl k,
      ))

-- What the pass removes and adds. The old entry of the key, if any, is counted on the left.
abbrev pub old_len : Key → Option MemtableEntry → ℕ
old_len q none = 0
old_len q (some e) = entry_len q e

pub total-upsert :
    (es : Entries) (q : Key) (new : MemtableEntry)
    → IsSorted es
    → total (upsert es q new) + old_len q (find es q) ≡ total es + entry_len q new
unfolding find total upsert remove_at index binary_search
total-upsert [] q new s = ground arith
total-upsert ((k, e) ∷ es) q new s =
    rw (upsert-cons k e es q new) (
      ground (arith, total-upsert es q new s.1, eq_of_cmp k q, find_above es k q s.0, lt_of_gt k q))
