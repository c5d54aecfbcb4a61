-- ===== src/Compaction/Least.antt =====
-- The least key at the heads of the iterators, which the first loop of a merge round finds.
use lsm_rs.Prelude.{
  ◌≤◌, ◌<◌, ◌≡◌, refl, sym, subst, ◌∙◌, Option, none, some, List, [], ◌∷◌, length, All, Bool-cases,
  false, ◌⊎◌, inl, inr, arith,
}
use lsm_rs.Key.{Key, key_lt, cmp_refl, eq_of_cmp, lt_of_gt, ≺_trans}
use lsm_rs.Memtable.{MemtableEntry, Entries}
use lsm_rs.Memtable.Upsert.{find}
use lsm_rs.Compaction.Merge.{skip, advance, lesser, find_min, entry_count}
use lsm_rs.Compaction.Newest.{AtLeast, advance_all, newest_of, later}

unfoldable pub least : Option Key → List Entries → Option Key
least min [] = min
least min (it ∷ its) = least (lesser min it) its

pub find_min_lem :
    (last min : Option Key) (its : List Entries)
    → find_min last min its ≡ (advance_all last its, least min (advance_all last its))
unfolding find_min advance_all least
find_min_lem last min [] = refl
find_min_lem last min (it ∷ its) = rw (find_min_lem last (lesser min (advance last it)) its) refl

abbrev pub StartsWith : Key → Entries → Type 0
StartsWith m [] = ⊥
StartsWith m ((k, e) ∷ es) = k ≡ m

abbrev pub HasHead : Key → List Entries → Type 0
HasHead m [] = ⊥
HasHead m (it ∷ its) = StartsWith m it ⊎ HasHead m its

-- The key so far is not below the least.
abbrev NotBelow : Key → Option Key → Type 0
NotBelow m none = Unit
NotBelow m (some k) = key_lt k m ≡ false

lesser_lem :
    (m : Key) (min : Option Key) (it : Entries)
    → NotBelow m (lesser min it)
    → NotBelow m min × AtLeast m it
unfolding lesser
lesser_lem m none [] h = (tt, tt)
lesser_lem m (some k) [] h = (h, tt)
lesser_lem m none ((k, e) ∷ es) h = (tt, h)
lesser_lem m (some j) ((k, e) ∷ es) h =
    ground (arith, h, ≺_trans k j m, ≺_trans k m j, lt_of_gt j m, eq_of_cmp j m, lt_of_gt k j)

pub least-AtLeast :
    (m : Key) (min : Option Key) (its : List Entries)
    → least min its ≡ some m
    → NotBelow m min × All (AtLeast m) its
unfolding least
least-AtLeast m none [] h = absurd (ground (arith, h))
least-AtLeast m (some k) [] h = (ground (arith, h, cmp_refl m), tt)
least-AtLeast m min (it ∷ its) h =
    let ih = least-AtLeast m (lesser min it) its h in
    let (a, b) = lesser_lem m min it ih.0 in (a, (b, ih.1))

-- The least key is a head, or was known.
lesser_cases :
    (min : Option Key) (it : Entries)
    → (lesser min it ≡ min) ⊎ ((k : Key) × (lesser min it ≡ some k) × StartsWith k it)
unfolding lesser
lesser_cases min [] = inl refl
lesser_cases none ((k, e) ∷ es) = inr (k, refl, refl)
lesser_cases (some m) ((k, e) ∷ es) = elim (Bool-cases (key_lt k m)) [
  | inl l ↦ inr (k, rw l refl, refl)
  | inr l ↦ inl (rw l refl)
]

some_injective : (a b : Key) → some a ≡ some b → a ≡ b
some_injective a b h = cc h

pub least-HasHead :
    (m : Key) (min : Option Key) (its : List Entries)
    → least min its ≡ some m
    → (min ≡ some m) ⊎ HasHead m its
unfolding least
least-HasHead m min [] h = inl h
least-HasHead m min (it ∷ its) h = elim (least-HasHead m (lesser min it) its h) [
  | inr later ↦ inr (inr later)
  | inl here ↦ elim (lesser_cases min it) [
    | inl same ↦ inl (sym same ∙ here)
    | inr (k, new, starts) ↦
        inr (inl (subst (λ j. StartsWith j it) (some_injective k m (sym new ∙ here)) starts))
  ]
]

-- Without a least key, all iterators are at their end.
lesser-none : (min : Option Key) (it : Entries) → lesser min it ≡ none → (min ≡ none) × (it ≡ [])
unfolding lesser
lesser-none min [] h = (h, refl)
lesser-none none ((k, e) ∷ es) h = absurd (ground (arith, h))
lesser-none (some m) ((k, e) ∷ es) h = absurd (ground (arith, h))

pub least-none :
    (min : Option Key) (its : List Entries)
    → least min its ≡ none
    → (min ≡ none) × All (λ it. it ≡ []) its
unfolding least
least-none min [] h = (h, tt)
least-none min (it ∷ its) h =
    let ih = least-none (lesser min it) its h in
    let (a, b) = lesser-none min it ih.0 in (a, (b, ih.1))

-- A key that is a head has a version.
abbrev pub IsSome : Option MemtableEntry → Type 0
IsSome none = ⊥
IsSome (some e) = Unit

later-IsSome : (best new : Option MemtableEntry) → IsSome best → IsSome (later best new)
unfolding later
later-IsSome none new h = absurd h
later-IsSome (some b) none h = tt
later-IsSome (some b) (some e) h = ground arith

newest_of-IsSome :
    (best : Option MemtableEntry) (m : Key) (its : List Entries)
    → IsSome best
    → IsSome (newest_of best m its)
unfolding newest_of
newest_of-IsSome best m [] h = h
newest_of-IsSome best m (it ∷ its) h =
    newest_of-IsSome (later best (find it m)) m its (later-IsSome best (find it m) h)

find-StartsWith :
    (best : Option MemtableEntry) (m : Key) (it : Entries)
    → StartsWith m it
    → IsSome (later best (find it m))
unfolding find later
find-StartsWith best m [] h = absurd h
find-StartsWith none m ((k, e) ∷ es) h = ground (arith, h, cmp_refl k)
find-StartsWith (some b) m ((k, e) ∷ es) h =
    ground (arith, h, cmp_refl k, later-IsSome (some b) (some e) tt)

pub newest_of-HasHead :
    (best : Option MemtableEntry) (m : Key) (its : List Entries)
    → HasHead m its
    → IsSome (newest_of best m its)
unfolding newest_of
newest_of-HasHead best m [] h = absurd h
newest_of-HasHead best m (it ∷ its) (inl here) =
    newest_of-IsSome (later best (find it m)) m its (find-StartsWith best m it here)
newest_of-HasHead best m (it ∷ its) (inr there) =
    newest_of-HasHead (later best (find it m)) m its there

-- Stepping past a key that is a head leaves fewer entries.
length-skip : (l : Key) (es : Entries) → length (skip l es) ≤ length es
unfolding skip
length-skip l [] = omega arith
length-skip l ((k, e) ∷ es) = ground (arith, length-skip l es)

skip-StartsWith : (m : Key) (es : Entries) → StartsWith m es → length (skip m es) < length es
unfolding skip
skip-StartsWith m [] h = absurd h
skip-StartsWith m ((k, e) ∷ es) h = ground (arith, h, cmp_refl k, length-skip m es)

entry_count-advance_all :
    (m : Key) (its : List Entries) → entry_count (advance_all (some m) its) ≤ entry_count its
unfolding entry_count advance_all advance
entry_count-advance_all m [] = omega arith
entry_count-advance_all m (it ∷ its) =
    omega (arith, length-skip m it, entry_count-advance_all m its)

pub entry_count-HasHead :
    (m : Key) (its : List Entries)
    → HasHead m its
    → entry_count (advance_all (some m) its) < entry_count its
unfolding entry_count advance_all advance
entry_count-HasHead m [] h = absurd h
entry_count-HasHead m (it ∷ its) (inl here) =
    omega (arith, skip-StartsWith m it here, entry_count-advance_all m its)
entry_count-HasHead m (it ∷ its) (inr there) =
    omega (arith, length-skip m it, entry_count-HasHead m its there)
