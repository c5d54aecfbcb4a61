-- ===== src/Compaction/Merging.antt =====
-- What the merge of `compact_level` in src/logic.rs promises: it ends, and its table is sorted and has of
-- each key the newest version that any of the merged tables has.
use lsm_rs.Prelude.{
  ℕ, zero, suc, ◌+◌, ◌<◌, ◌≡◌, refl, sym, ap, subst, ◌∙◌, Option, none, some, List, [], ◌∷◌, All,
  All-imp, Option-cases, ◌⊎◌, inl, inr, arith,
}
use lsm_rs.Key.{Key, ◌≺◌, eq_of_cmp, lt_of_gt, ≺_trans}
use lsm_rs.Memtable.{MemtableEntry, value, deletion, Entries, get_type, get_value, get_seq_number}
use lsm_rs.Memtable.Upsert.{IsSorted, find, find_above, All-above}
use lsm_rs.Outcome.{ok, Returns, Returns-bind, Returns-imp, ◌>>=◌}
use lsm_rs.Compaction.Merge.{
  advance, find_newest, write_entry, find_min, merge, merge_tables, entry_count,
}
use lsm_rs.Compaction.Newest.{
  newest, advance_all, Above, AtLeast, Past, find_newest-newest_of, newest_of-advance_all,
  advance_all-IsSorted, advance_all-Above, newest_of_none,
}
use lsm_rs.Compaction.Least.{
  least, find_min_lem, least-AtLeast, least-HasHead, least-none, HasHead, newest_of-HasHead, IsSome,
  entry_count-HasHead,
}

-- A table that holds the newest version of every key above the bound, of the versions in the tables.
pub record IsMerged (last : Option Key) (tables : List Entries) (merged : Entries) : Type 0 where
  pub sorted : IsSorted merged
  pub above : Above last merged
  pub versions : (k : Key) → Past last k → find merged k ≡ newest k tables

write_entry_lem : (key : Key) (e : MemtableEntry) → write_entry key e ≡ ok (key, e)
unfolding write_entry get_type get_value get_seq_number
write_entry_lem key (value seq v) = refl
write_entry_lem key (deletion seq) = refl

some_of : (r : Option MemtableEntry) → IsSome r → (e : MemtableEntry) × (r ≡ some e)
some_of none h = absurd h
some_of (some e) h = (e, refl)

HasHead-Past :
    (last : Option Key) (m : Key) (its : List Entries)
    → All (Above last) its
    → HasHead m its
    → Past last m
HasHead-Past none m its a h = tt
HasHead-Past (some l) m [] a h = absurd h
HasHead-Past (some l) m ([] ∷ its) a (inl here) = absurd here
HasHead-Past (some l) m (((k, e) ∷ es) ∷ its) (a, as') (inl here) = subst (λ j. l ≺ j) here a.0
HasHead-Past (some l) m (it ∷ its) (a, as') (inr there) = HasHead-Past (some l) m its as' there

empty_newest : (k : Key) (its : List Entries) → All (λ it. it ≡ []) its → newest k its ≡ none
unfolding newest
empty_newest k its h = newest_of_none k none its (All-imp nothing its h)
  where
    nothing : (es : Entries) → es ≡ [] → Above (some k) es
    nothing [] e = tt
    nothing (x ∷ es) e = absurd (ground (arith, e))

Above-Past :
    (last : Option Key) (m : Key) (e : MemtableEntry) (es : Entries)
    → Past last m
    → Above (some m) es
    → Above last ((m, e) ∷ es)
Above-Past none m e es p h = tt
Above-Past (some l) m e es p h = (p, All-above l m es p h)

AtLeast-Above : (m k : Key) (es : Entries) → k ≺ m → IsSorted es → AtLeast m es → Above (some k) es
AtLeast-Above m k [] l s h = tt
AtLeast-Above m k ((j, e) ∷ es) l s h =
    let below = below_head in (below, All-above k j es below s.0)
  where
    below_head : k ≺ j
    below_head = ground (arith, l, h, ≺_trans k m j, eq_of_cmp j m, lt_of_gt j m)

All-AtLeast-Above :
    (m k : Key) (its : List Entries)
    → k ≺ m
    → All IsSorted its
    → All (AtLeast m) its
    → All (Above (some k)) its
All-AtLeast-Above m k [] l s h = tt
All-AtLeast-Above m k (it ∷ its) l (s, ss) (h, hs) =
    (AtLeast-Above m k it l s h, All-AtLeast-Above m k its l ss hs)

-- One round: the entry of the least key in front of what later rounds merge.
cons-IsMerged :
    (last : Option Key) (tables its : List Entries) (m : Key) (e : MemtableEntry) (rest : Entries)
    → All IsSorted its
    → All (AtLeast m) its
    → Past last m
    → newest m its ≡ some e
    → ((k : Key) → Past last k → newest k its ≡ newest k tables)
    → IsMerged (some m) its rest
    → IsMerged last tables ((m, e) ∷ rest)
unfolding find newest
cons-IsMerged last tables its m e rest s a p is same h = record {
  sorted = (h.above, h.sorted);
  above = Above-Past last m e rest p h.above;
  versions = λ k q. version k ∙ same k q;
}
  where
    older : (k : Key) → k ≺ m → newest k its ≡ none
    older k l = newest_of_none k none its (All-AtLeast-Above m k its l s a)

    version : (k : Key) → find ((m, e) ∷ rest) k ≡ newest k its
    version k =
        ground (
          arith,
          is,
          eq_of_cmp m k,
          h.versions k,
          find_above rest m k h.above,
          lt_of_gt m k,
          older k,
        )

Above-nil : (last : Option Key) → Above last []
Above-nil none = tt
Above-nil (some l) = tt

head_of : (m : Key) (its : List Entries) → (none ≡ some m) ⊎ HasHead m its → HasHead m its
head_of m its (inl h) = absurd (ground (arith, h))
head_of m its (inr h) = h

-- What a round does, by what its two loops find.
merge_end :
    (fuel : ℕ) (last : Option Key) (tables its : List Entries)
    → find_min last none tables ≡ (its, none)
    → merge (suc fuel) last tables ≡ ok []
unfolding merge
merge_end fuel last tables its h = rw (h, merge) refl

merge_round :
    (fuel : ℕ) (last : Option Key) (tables its : List Entries) (m : Key) (e : MemtableEntry)
    → find_min last none tables ≡ (its, some m)
    → find_newest m none its ≡ some e
    → merge (suc fuel) last tables ≡ (merge fuel (some m) its >>= λ rest. ok ((m, e) ∷ rest))
unfolding merge
merge_round fuel last tables its m e h k = rw (h, merge, h, k, write_entry_lem m e, h) refl

merge_lem :
    (fuel : ℕ) (last : Option Key) (tables : List Entries)
    → All IsSorted tables
    → entry_count (advance_all last tables) < fuel
    → Returns (merge fuel last tables) (IsMerged last tables)
unfolding newest find
merge_lem zero last tables s f = absurd (omega arith)
merge_lem (suc fuel) last tables s f =
    let its = advance_all last tables in
    let s' = advance_all-IsSorted last tables s in
    let same : (k : Key) → Past last k → newest k its ≡ newest k tables =
      (λ k q. newest_of-advance_all last none tables k s q) in
    let found : (min : Option Key) → least none its ≡ min → find_min last none tables ≡ (its, min) =
      λ min e. find_min_lem last none tables ∙ ap (λ r. (its, r)) e in
    elim (Option-cases (least none its)) [
      | inl e ↦ rw (merge_end fuel last tables its (found none e)) (record {
        sorted = tt;
        above = Above-nil last;
        versions = λ k q. sym (empty_newest k its (least-none none its e).1) ∙ same k q;
      })
      | inr (m, e) ↦
          let starts = head_of m its (least-HasHead m none its e) in
          let least_m = (least-AtLeast m none its e).1 in
          let (v, new) = some_of (newest m its) (newest_of-HasHead none m its starts) in
          rw
            (merge_round fuel last tables its m v (found (some m) e)
              (find_newest-newest_of m none its s' least_m ∙ new))
            (Returns-bind (merge fuel (some m) its) _ (IsMerged (some m) its) (IsMerged last tables)
              (merge_lem fuel (some m) its s' (omega (arith, f, entry_count-HasHead m its starts)))
              (λ rest h.
                cons-IsMerged last tables its m v rest s' least_m
                  (HasHead-Past last m its (advance_all-Above last tables s) starts) new same h))
    ]

advance_none : (tables : List Entries) → advance_all none tables ≡ tables
unfolding advance_all advance
advance_none [] = refl
advance_none (it ∷ its) = ap (λ r. it ∷ r) (advance_none its)

-- A table that is sorted and holds of each key what `newest` finds in the merged tables.
abbrev pub IsMergeOf : List Entries → Entries → Type 0
IsMergeOf tables merged = IsSorted merged × ((k : Key) → find merged k ≡ newest k tables)

-- The merge of sorted tables ends without a panic, with a table whose keys ascend and which holds of
-- each key the newest version of all tables, and no other key.
pub merge_tables_lem :
    (tables : List Entries) → All IsSorted tables → Returns (merge_tables tables) (IsMergeOf tables)
unfolding merge_tables
merge_tables_lem tables s =
    Returns-imp (merge (entry_count tables + 1) none tables) (IsMerged none tables)
      (IsMergeOf tables)
      (merge_lem (entry_count tables + 1) none tables s
        (omega (arith, ap entry_count (advance_none tables))))
      (λ merged h. (h.sorted, λ k. h.versions k tt))
