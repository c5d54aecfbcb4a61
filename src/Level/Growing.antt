-- ===== src/Level/Growing.antt =====
-- The loop of `maybe_start_compaction` of src/level.rs over the overlapping tables of level 0.
use lsm_rs.Prelude.{
  ℕ, zero, suc, ◌<◌, ◌≡◌, refl, ap, sym, ◌∙◌, subst, List, [], ◌∷◌, ◌++◌, Option, none, some, Bool,
  true, false, get_elem?, if◌then◌else◌, Bool-cases, inl, inr, arith,
}
use lsm_rs.Key.{Key}
use lsm_rs.Outcome.{Outcome, ok, Returns}
use lsm_rs.SortedTable
use lsm_rs.SortedTable.{SortedTable}
use lsm_rs.Level.{key_min, key_max}
use lsm_rs.Level.Overlaps.{Taken, abort_marked_lem}
use lsm_rs.Level.Start.{
  flag_at, mark_at, unmarked, find_next, further, Result, contended, nothing, started, give_back,
  grow,
}

-- Position `p` is that of a table that is not marked.
abbrev pub IsNext : List SortedTable → List Bool → ℕ → SortedTable → Type 0
IsNext us marks p u = (get_elem? us p ≡ some u) × (get_elem? marks p ≡ some false)

-- What a search that succeeds says of its answer.
abbrev AllNext : Option (ℕ × SortedTable) → List SortedTable → List Bool → Type 0
AllNext none us marks = Unit
AllNext (some (p, u)) us marks = IsNext us marks p u

further-IsNext :
    (r : Option (ℕ × SortedTable)) (us : List SortedTable) (marks : List Bool) (v : SortedTable)
    (m : Bool)
    → AllNext r us marks
    → AllNext (further r) (v ∷ us) (m ∷ marks)
further-IsNext none us marks v m h = tt
further-IsNext (some (q, w)) us marks v m h = h

find_next-AllNext :
    (us : List SortedTable) (marks : List Bool) (min max : Key)
    → AllNext (find_next us marks min max) us marks
unfolding find_next
find_next-AllNext [] marks min max = tt
find_next-AllNext (t ∷ us) [] min max = tt
find_next-AllNext (t ∷ us) (true ∷ marks) min max =
    further-IsNext (find_next us marks min max) us marks t true (find_next-AllNext us marks min max)
find_next-AllNext (t ∷ us) (false ∷ marks) min max =
    elim (Bool-cases (SortedTable.overlaps t min max)) [
      | inl meets ↦ rw meets (refl, refl)
      | inr apart ↦ rw apart (
          further-IsNext (find_next us marks min max) us marks t false
            (find_next-AllNext us marks min max))
    ]

pub flag_at-Taken :
    (p : ℕ) (u : SortedTable) (ts us : List SortedTable) (marks : List Bool)
    → Taken ts us marks
    → IsNext us marks p u
    → u.compaction_flag ≡ false
    → Taken ts (flag_at p us) (mark_at p marks)
unfolding flag_at mark_at
flag_at-Taken zero u (t ∷ ts) (v ∷ us) (false ∷ marks) h n free =
    let same : v ≡ u = cc in
    (
      ap (λ w. w.compaction_flag) (sym h.0 ∙ same) ∙ free,
      ap {A = SortedTable} {B = SortedTable} (λ w. record w { compaction_flag = true }) h.0,
      h.1,
    )
flag_at-Taken zero u (t ∷ ts) (v ∷ us) (true ∷ marks) h n free = absurd (ground arith)
flag_at-Taken (suc p) u (t ∷ ts) (v ∷ us) (true ∷ marks) h n free =
    (h.0, h.1, flag_at-Taken p u ts us marks h.2 n free)
flag_at-Taken (suc p) u (t ∷ ts) (v ∷ us) (false ∷ marks) h n free =
    (h.0, flag_at-Taken p u ts us marks h.1 n free)
flag_at-Taken p u [] [] [] h n free = h
flag_at-Taken p u [] [] (m ∷ marks) h n free = absurd h
flag_at-Taken p u [] (v ∷ us) marks h n free = absurd h
flag_at-Taken p u (t ∷ ts) [] marks h n free = absurd h
flag_at-Taken p u (t ∷ ts) (v ∷ us) [] h n free = absurd h

-- How many tables are not started: each round starts one of them.
abbrev pub waiting : List Bool → ℕ
waiting [] = 0
waiting (true ∷ marks) = waiting marks
waiting (false ∷ marks) = suc (waiting marks)

pub waiting-mark_at :
    (p : ℕ) (marks : List Bool)
    → get_elem? marks p ≡ some false
    → suc (waiting (mark_at p marks)) ≡ waiting marks
unfolding mark_at
waiting-mark_at p [] e = absurd (ground arith)
waiting-mark_at zero (true ∷ marks) e = absurd (ground arith)
waiting-mark_at zero (false ∷ marks) e = refl
waiting-mark_at (suc p) (true ∷ marks) e = waiting-mark_at p marks e
waiting-mark_at (suc p) (false ∷ marks) e = ap suc (waiting-mark_at p marks e)

-- The marks of the tables at the positions of a list.
abbrev pub mark_all : List ℕ → List Bool → List Bool
mark_all [] marks = marks
mark_all (p ∷ offsets) marks = mark_all offsets (mark_at p marks)

mark_all-append :
    (offsets : List ℕ) (p : ℕ) (marks : List Bool)
    → mark_all (offsets ++ p ∷ []) marks ≡ mark_at p (mark_all offsets marks)
mark_all-append [] p marks = refl
mark_all-append (q ∷ offsets) p marks = mark_all-append offsets p (mark_at q marks)

-- Either the tables at the positions of the result were free and are taken, or all are as before.
abbrev pub StartedRight : List SortedTable → List SortedTable × Result → Type 0
StartedRight ts (us, contended) = us ≡ ts
StartedRight ts (us, nothing) = us ≡ ts
StartedRight ts (us, started offsets) = Taken ts us (mark_all offsets (unmarked ts))

-- One round: the tables are given back, or the rest of the loop goes on with one more of them.
grow_turn :
    (fuel : ℕ) (ts us : List SortedTable) (marks : List Bool) (offsets : List ℕ) (min max : Key)
    (r : Option (ℕ × SortedTable))
    → Taken ts us marks
    → marks ≡ mark_all offsets (unmarked ts)
    → AllNext r us marks
    → ((p : ℕ) (t : SortedTable)
        → IsNext us marks p t
        → t.compaction_flag ≡ false
        → Returns
            (grow fuel
              (flag_at p us)
              (mark_at p marks)
              (offsets ++ p ∷ [])
              (key_min min t.min)
              (key_max max t.max))
            (StartedRight ts))
    → Returns
        (elim r as (λ k. Outcome (List SortedTable × Result)) [
          | none ↦ ok (us, started offsets)
          | some (p, t) ↦
              if t.compaction_flag
              then give_back us marks
              else grow fuel
                  (flag_at p us)
                  (mark_at p marks)
                  (offsets ++ p ∷ [])
                  (key_min min t.min)
                  (key_max max t.max)
        ])
        (StartedRight ts)
unfolding give_back
grow_turn fuel ts us marks offsets min max none h m n more = subst (Taken ts us) m h
grow_turn fuel ts us marks offsets min max (some (p, t)) h m n more =
    elim (Bool-cases t.compaction_flag) [
      | inl busy ↦ rw (busy, abort_marked_lem ts us marks h) refl
      | inr free ↦ rw free (more p t n free)
    ]

pub grow_lem :
    (fuel : ℕ) (ts us : List SortedTable) (marks : List Bool) (offsets : List ℕ) (min max : Key)
    → Taken ts us marks
    → marks ≡ mark_all offsets (unmarked ts)
    → waiting marks < fuel
    → Returns (grow fuel us marks offsets min max) (StartedRight ts)
unfolding grow
grow_lem zero ts us marks offsets min max h m enough = absurd (omega arith)
grow_lem (suc fuel) ts us marks offsets min max h m enough =
    grow_turn fuel ts us marks offsets min max (find_next us marks min max) h m
      (find_next-AllNext us marks min max)
      (λ p t n free.
        grow_lem fuel ts (flag_at p us) (mark_at p marks) (offsets ++ p ∷ []) (key_min min t.min)
          (key_max max t.max) (flag_at-Taken p t ts us marks h n free)
          (ap (mark_at p) m ∙ sym (mark_all-append offsets p (unmarked ts)))
          (omega (arith, waiting-mark_at p marks n.1)))
