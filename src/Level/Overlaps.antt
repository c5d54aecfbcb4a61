-- ===== src/Level/Overlaps.antt =====
-- `get_overlaps` of src/level.rs takes free tables and a range that no other compaction has, or nothing.
use lsm_rs.Prelude.{
  ℕ, ◌≡◌, refl, ap, sym, List, [], ◌∷◌, ◌++◌, Option, none, some, Bool, true, false, All,
  All-append, if◌then◌else◌, Bool-cases, inl, inr, arith,
}
use lsm_rs.Key.{Key}
use lsm_rs.Outcome.{ok, Returns, Returns-bind}
use lsm_rs.SortedTable
use lsm_rs.SortedTable.{SortedTable, maybe_start_compaction, abort_compaction}
use lsm_rs.Level.{
  Level, TablePlaceholder, overlaps, Found, mark, keep_or_abort, find_overlaps, abort_marked,
  any_overlaps, place, get_overlaps, key_min, key_max, choose_id,
}

-- `after` is `before` with the marked tables taken, which were free.
abbrev pub Taken : (before after : List SortedTable) → List Bool → Type 0
Taken [] [] [] = Unit
Taken (t ∷ ts) (u ∷ us) (true ∷ marks) =
    (t.compaction_flag ≡ false) × (u ≡ record t { compaction_flag = true }) × Taken ts us marks
Taken (t ∷ ts) (u ∷ us) (false ∷ marks) = (u ≡ t) × Taken ts us marks
Taken _ _ _ = ⊥

-- Either some tables are taken, or all is as before.
abbrev pub FoundRight : List SortedTable → List SortedTable × Option Found → Type 0
FoundRight ts (us, none) = us ≡ ts
FoundRight ts (us, some f) = Taken ts us f.marks

keep_or_abort_lem :
    (t : SortedTable) (ts : List SortedTable) (r : List SortedTable × Option Found)
    → t.compaction_flag ≡ false
    → FoundRight ts r
    → Returns (keep_or_abort (record t { compaction_flag = true }) r) (FoundRight (t ∷ ts))
unfolding keep_or_abort abort_compaction
keep_or_abort_lem t ts (us, none) free h =
    rw h (ap (λ b. record t { compaction_flag = b } ∷ ts) (sym free))
keep_or_abort_lem t ts (us, some f) free h = (free, refl, h)

start_free :
    (t : SortedTable)
    → t.compaction_flag ≡ false
    → maybe_start_compaction t ≡ (true, record t { compaction_flag = true })
unfolding maybe_start_compaction
start_free t free =
    ap (λ b. if b then (false, t) else (true, record t { compaction_flag = true })) free

start_busy : (t : SortedTable) → t.compaction_flag ≡ true → maybe_start_compaction t ≡ (false, t)
unfolding maybe_start_compaction
start_busy t busy =
    ap (λ b. if b then (false, t) else (true, record t { compaction_flag = true })) busy

pub find_overlaps_lem :
    (ts : List SortedTable) (min max : Key) → Returns (find_overlaps ts min max) (FoundRight ts)
unfolding find_overlaps
find_overlaps_lem [] min max = tt
find_overlaps_lem (t ∷ ts) min max = elim (Bool-cases (SortedTable.overlaps t min max)) [
  | inl meets ↦ elim (Bool-cases t.compaction_flag) [
    | inl busy ↦ rw (meets, start_busy t busy) refl
    | inr free ↦
        rw (meets, start_free t free)
          (Returns-bind (find_overlaps ts (key_min t.min min) (key_max t.max max))
            (keep_or_abort (record t { compaction_flag = true })) (FoundRight ts)
            (FoundRight (t ∷ ts)) (find_overlaps_lem ts (key_min t.min min) (key_max t.max max))
            (λ r h. keep_or_abort_lem t ts r free h))
  ]
  | inr apart ↦ rw apart (
      Returns-bind (find_overlaps ts min max) (λ r. ok (t ∷ r.0, mark false r.1)) (FoundRight ts)
        (FoundRight (t ∷ ts)) (find_overlaps_lem ts min max) (λ r h. passed r.0 r.1 h))
]
  where
    passed :
        (us : List SortedTable) (f : Option Found)
        → FoundRight ts (us, f)
        → FoundRight (t ∷ ts) (t ∷ us, mark false f)
    passed us none h = ap (λ vs. t ∷ vs) h
    passed us (some f) h = (refl, h)

-- Giving back what was taken restores the tables.
pub abort_marked_lem :
    (ts us : List SortedTable) (marks : List Bool)
    → Taken ts us marks
    → abort_marked us marks ≡ ok ts
unfolding abort_marked abort_compaction
abort_marked_lem [] [] [] h = refl
abort_marked_lem (t ∷ ts) (u ∷ us) (true ∷ marks) h =
    rw (h.1, abort_marked_lem ts us marks h.2)
      (ap (λ b. ok (record t { compaction_flag = b } ∷ ts)) (sym h.0))
abort_marked_lem (t ∷ ts) (u ∷ us) (false ∷ marks) h =
    rw (h.0, abort_marked_lem ts us marks h.1) refl
abort_marked_lem [] [] (m ∷ marks) h = absurd h
abort_marked_lem [] (u ∷ us) marks h = absurd h
abort_marked_lem (t ∷ ts) [] marks h = absurd h
abort_marked_lem (t ∷ ts) (u ∷ us) [] h = absurd h

-- No two ranges of placeholders meet.
abbrev pub AreApart : List TablePlaceholder → Type 0
AreApart [] = Unit
AreApart (p ∷ ps) = All (λ q. overlaps p q.min q.max ≡ false) ps × AreApart ps

any_overlaps_lem :
    (ps : List TablePlaceholder) (q : TablePlaceholder)
    → any_overlaps ps q.min q.max ≡ false
    → AreApart ps
    → AreApart (ps ++ q ∷ [])
unfolding any_overlaps
any_overlaps_lem [] q e h = (tt, tt)
any_overlaps_lem (p ∷ ps) q e h =
    let own : overlaps p q.min q.max ≡ false = ground (arith, e) in
    let others : any_overlaps ps q.min q.max ≡ false = ground (arith, e) in
    (
      All-append (λ r. overlaps p r.min r.max ≡ false) ps (q ∷ []) h.0 (own, tt),
      any_overlaps_lem ps q others h.1,
    )

-- A call that is refused changes nothing. One that is granted has taken tables that were free, and its
-- placeholder meets no other.
abbrev pub Granted : Level → Level × Option (ℕ × List Bool) → Type 0
Granted before (after, none) = after ≡ before
Granted before (after, some (id, marks)) =
    Taken before.tables after.tables marks × AreApart after.table_placeholders

place_lem :
    (level : Level) (fast_path : Option ℕ) (next_id : ℕ) (r : List SortedTable × Option Found)
    → AreApart level.table_placeholders
    → FoundRight level.tables r
    → Returns (place level fast_path next_id r) (Granted level)
unfolding place
place_lem level fast_path next_id (us, none) apart h = ap (λ ts. record level { tables = ts }) h
place_lem level fast_path next_id (us, some f) apart h =
    elim (Bool-cases (any_overlaps level.table_placeholders f.min f.max)) [
      | inl e ↦ rw (e, abort_marked_lem level.tables us f.marks h) refl
      | inr e ↦
          let q : TablePlaceholder = record {
            min = f.min;
            max = f.max;
            id = choose_id fast_path f.marks next_id;
          } in
          rw e (h, any_overlaps_lem level.table_placeholders q e apart)
    ]

-- On a level whose placeholders have ranges that do not meet, `get_overlaps` returns. Where it refuses,
-- the level is as before, with no flag set and no placeholder added. Where it grants, the tables that it
-- names were free and are now taken, no other table is changed, and the ranges of the placeholders, with
-- the new one, do not meet.
pub get_overlaps-Granted :
    (level : Level) (min max : Key) (fast_path : Option ℕ) (next_id : ℕ)
    → AreApart level.table_placeholders
    → Returns (get_overlaps level min max fast_path next_id) (Granted level)
unfolding get_overlaps
get_overlaps-Granted level min max fast_path next_id apart =
    Returns-bind (find_overlaps level.tables min max) (place level fast_path next_id)
      (FoundRight level.tables) (Granted level) (find_overlaps_lem level.tables min max)
      (λ r h. place_lem level fast_path next_id r apart h)
