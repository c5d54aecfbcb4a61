-- ===== src/Compaction/Newest.antt =====
-- What the merge of src/logic.rs should find for a key, told from the tables themselves, and what the
-- two loops over the iterators keep of it.
use lsm_rs.Prelude.{
  ◌≡◌, refl, ap, ◌∙◌, Option, none, some, List, [], ◌∷◌, All, false, if◌then◌else◌, ltb, arith,
}
use lsm_rs.Key.{Key, key_lt, ◌≺◌, eq_of_cmp, lt_of_gt, gt_of_lt, ≺_trans}
use lsm_rs.Memtable.{MemtableEntry, Entries, get_seq_number}
use lsm_rs.Memtable.Upsert.{IsSorted, find, find_above, All-above}
use lsm_rs.Compaction.Merge.{skip, advance, newer, find_newest}

-- Of two versions of a key, the one with the greater sequence number; the first of equals.
unfoldable pub later : Option MemtableEntry → Option MemtableEntry → Option MemtableEntry
later best none = best
later none (some e) = some e
later (some b) (some e) = if ltb (get_seq_number b) (get_seq_number e) then some e else some b

-- The newest version of a key in all tables, beside one that is known.
unfoldable pub newest_of : Option MemtableEntry → Key → List Entries → Option MemtableEntry
newest_of best k [] = best
newest_of best k (it ∷ its) = newest_of (later best (find it k)) k its

unfoldable pub newest : Key → List Entries → Option MemtableEntry
newest k its = newest_of none k its

unfoldable pub advance_all : Option Key → List Entries → List Entries
advance_all last [] = []
advance_all last (it ∷ its) = advance last it ∷ advance_all last its

-- Every key of the list is greater than the bound.
abbrev pub Above : Option Key → Entries → Type 0
Above none es = Unit
Above (some last) es = All (λ x. last ≺ x.0) es

pub skip-IsSorted : (l : Key) (es : Entries) → IsSorted es → IsSorted (skip l es)
unfolding skip
skip-IsSorted l [] h = tt
skip-IsSorted l ((k, e) ∷ es) h = ground (arith, skip-IsSorted l es h.1)

pub skip-Above : (l : Key) (es : Entries) → IsSorted es → Above (some l) (skip l es)
unfolding skip
skip-Above l [] h = tt
skip-Above l ((k, e) ∷ es) h = ground (arith, skip-Above l es h.1, lt_of_gt k l, All-above l k es)

pub find-skip :
    (l : Key) (es : Entries) (k : Key) → IsSorted es → l ≺ k → find (skip l es) k ≡ find es k
unfolding skip find
find-skip l [] k h above = refl
find-skip l ((k0, e) ∷ es) k h above =
    ground (arith, find-skip l es k h.1 above, ≺_trans k0 l k, eq_of_cmp k0 l)

-- Where no head is below a key, the second loop sees the key's newest version.
abbrev pub AtLeast : Key → Entries → Type 0
AtLeast min [] = Unit
AtLeast min ((k, e) ∷ es) = key_lt k min ≡ false

pub newer-later :
    (min : Key) (best : Option MemtableEntry) (es : Entries)
    → IsSorted es
    → AtLeast min es
    → newer min best es ≡ later best (find es min)
unfolding newer later find
newer-later min none [] s h = refl
newer-later min (some b) [] s h = refl
newer-later min none ((k, e) ∷ es) s h = ground (arith, find_above es k min s.0, lt_of_gt k min)
newer-later min (some b) ((k, e) ∷ es) s h = ground (arith, find_above es k min s.0, lt_of_gt k min)

pub find_newest-newest_of :
    (min : Key) (best : Option MemtableEntry) (its : List Entries)
    → All IsSorted its
    → All (AtLeast min) its
    → find_newest min best its ≡ newest_of best min its
unfolding find_newest newest_of
find_newest-newest_of min best [] s h = refl
find_newest-newest_of min best (it ∷ its) (s, ss) (h, hs) =
    rw (newer-later min best it s h, find_newest-newest_of min (later best (find it min)) its ss hs)
      refl

-- The first loop leaves the newest version of a key that is not done yet.
abbrev pub Past : Option Key → Key → Type 0
Past none k = Unit
Past (some last) k = last ≺ k

find-advance :
    (last : Option Key) (es : Entries) (k : Key)
    → IsSorted es
    → Past last k
    → find (advance last es) k ≡ find es k
unfolding advance
find-advance none es k s h = refl
find-advance (some l) es k s h = find-skip l es k s h

pub newest_of-advance_all :
    (last : Option Key) (best : Option MemtableEntry) (its : List Entries) (k : Key)
    → All IsSorted its
    → Past last k
    → newest_of best k (advance_all last its) ≡ newest_of best k its
unfolding newest_of advance_all
newest_of-advance_all last best [] k s h = refl
newest_of-advance_all last best (it ∷ its) k (s, ss) h =
    ap (λ r. newest_of (later best r) k (advance_all last its)) (find-advance last it k s h)
    ∙ newest_of-advance_all last (later best (find it k)) its k ss h

pub advance_all-IsSorted :
    (last : Option Key) (its : List Entries)
    → All IsSorted its
    → All IsSorted (advance_all last its)
unfolding advance_all advance
advance_all-IsSorted last [] h = tt
advance_all-IsSorted none (it ∷ its) (h, hs) = (h, advance_all-IsSorted none its hs)
advance_all-IsSorted (some l) (it ∷ its) (h, hs) =
    (skip-IsSorted l it h, advance_all-IsSorted (some l) its hs)

pub advance_all-Above :
    (last : Option Key) (its : List Entries)
    → All IsSorted its
    → All (Above last) (advance_all last its)
unfolding advance_all advance
advance_all-Above last [] h = tt
advance_all-Above none (it ∷ its) (h, hs) = (tt, advance_all-Above none its hs)
advance_all-Above (some l) (it ∷ its) (h, hs) =
    (skip-Above l it h, advance_all-Above (some l) its hs)

find-none : (k : Key) (es : Entries) → Above (some k) es → find es k ≡ none
unfolding find
find-none k [] h = refl
find-none k ((j, e) ∷ es) (h, hs) = ground (arith, find-none k es hs, gt_of_lt k j)

-- A key below all keys of the tables has no version.
pub newest_of_none :
    (k : Key) (best : Option MemtableEntry) (its : List Entries)
    → All (Above (some k)) its
    → newest_of best k its ≡ best
unfolding newest_of later
newest_of_none k best [] h = refl
newest_of_none k best (it ∷ its) (h, hs) = rw (find-none k it h) (newest_of_none k best its hs)
