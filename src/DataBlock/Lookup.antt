-- ===== src/DataBlock/Lookup.antt =====
-- The lookup of src/data_blocks/block.rs in a block that holds sorted items finds what the items have.
use Prim.Native.Nat.Ordering.{lt, eq, gt}
use lsm_rs.Prelude.{
  ℕ, zero, suc, ◌+◌, ◌-◌, ◌/◌, ◌≤◌, ◌<◌, ◌≡◌, refl, ap, sym, subst, ◌∙◌, List, [], ◌∷◌, ◌++◌, some,
  true, length, All, All-imp, arith, length-append, append_assoc, ltb, ◌⊎◌, inl, inr, Bool-cases,
  Ordering,
}
use lsm_rs.Key.{Key, cmp, eq_of_cmp, lt_of_gt, ≺_trans}
use lsm_rs.Outcome.{Outcome, ok, Returns}
use lsm_rs.Memtable.Upsert.{find}
use lsm_rs.DataBlock.{
  DataBlock, DataEntry, SearchResult, exact_match, range, header_length, get_restart_offset,
  get_entry_at_offset,
}
use lsm_rs.DataBlock.Search.{search_restarts}
use lsm_rs.DataBlock.Items.{Item, encode, encode_all, entries_of, Answers, first-Reads, read_first}
use lsm_rs.DataBlock.Groups.{
  items_of, items_of-append, Below, Over, find-Below, sorted_behind, sorted_front, cut,
}
use lsm_rs.DataBlock.Restarts.{
  Holds, IsGroup, IsGroup-at, restart_bytes, get_restart_offset-Holds, Stands-Holds, IsChain-Holds,
  IsSorted-Holds,
}

-- What the binary search keeps: the groups in front of `start` have smaller keys, and those from `end` on
-- greater ones, unless that is the last group.
pub record Cut (groups : List (List Item)) (key : Key) (start end : ℕ) : Type 0 where
  pub front : List (List Item)
  pub middle : List (List Item)
  pub back : List (List Item)
  pub split : groups ≡ front ++ (middle ++ back)
  pub at_start : length front ≡ start
  pub at_end : length front + length middle ≡ end
  pub below : Below key (items_of front)
  pub over : Over key (items_of back) ⊎ (length back ≡ 1)
  pub some_back : 0 < length back

regroup :
    {key : Key} {start end : ℕ} (groups : List (List Item)) (c : Cut groups key start end)
    (m1 : List (List Item)) (g : List Item) (m2 : List (List Item))
    → c.middle ≡ m1 ++ g ∷ m2
    → groups ≡ c.front ++ m1 ++ g ∷ (m2 ++ c.back)
regroup groups c m1 g m2 em =
    c.split
    ∙ ap (λ l. c.front ++ (l ++ c.back)) em
    ∙ ap (λ l. c.front ++ l) (append_assoc m1 (g ∷ m2) c.back)
    ∙ sym (append_assoc c.front m1 (g ∷ (m2 ++ c.back)))

module _ {B : Type 0} (block : DataBlock B) (groups : List (List Item)) (h : Holds block groups)
    (key : Key) where
  all : List Item
  all = items_of groups

  abbrev pub Searched : SearchResult → Type 0
  Searched (exact_match d) = Answers block (find (entries_of (items_of groups)) key) (some d)
  Searched (range start end) = Cut groups key start end

  -- The first item of a group, where the search looks.
  pivot :
      (gs : List (List Item)) (i : Item) (g : List Item) (hs : List (List Item))
      → groups ≡ gs ++ (i ∷ g) ∷ hs
      → get_entry_at_offset block (length (encode_all (items_of gs))) []
        ≡ ok (
          i.key,
          record {
            offset = length (h.pre ++ encode_all (items_of gs));
            next_offset = length (encode_all (items_of gs)) + length (encode i);
          },
        )
  unfolding items_of
  pivot gs i g hs e =
      read_first block (h.pre ++ encode_all (items_of gs)) i (g ++ items_of hs)
        (restart_bytes header_length groups) (length (encode_all (items_of gs))) []
        (IsChain-Holds block groups h gs i g hs e) (Stands-Holds block groups h gs ((i ∷ g) ∷ hs) e)
        (omega (arith, h.length_pre, length-append h.pre (encode_all (items_of gs))))

  -- The three ways of a round.
  pivot_found :
      (gs : List (List Item)) (i : Item) (g : List Item) (hs : List (List Item)) (next : ℕ)
      → groups ≡ gs ++ (i ∷ g) ∷ hs
      → cmp i.key key ≡ eq
      → Searched (
          exact_match
            (record { offset = length (h.pre ++ encode_all (items_of gs)); next_offset = next }))
  unfolding items_of find
  pivot_found gs i g hs next e c =
      subst (λ r. Answers block r (some d)) (sym found)
        (first-Reads block (h.pre ++ encode_all (items_of gs)) i (g ++ items_of hs)
          (restart_bytes header_length groups) next (IsChain-Holds block groups h gs i g hs e).0
          (Stands-Holds block groups h gs ((i ∷ g) ∷ hs) e))
    where
      d : DataEntry
      d = record { offset = length (h.pre ++ encode_all (items_of gs)); next_offset = next }

      same : i.key ≡ key
      same = eq_of_cmp i.key key c

      found : find (entries_of (items_of groups)) key ≡ some i.version
      found =
          ap (λ l. find (entries_of l) key) (ap items_of e ∙ items_of-append gs ((i ∷ g) ∷ hs))
          ∙ find-Below key (items_of gs) (i ∷ (g ++ items_of hs)) (
              subst (λ k. Below k (items_of gs)) same
                (sorted_front (items_of gs) i (g ++ items_of hs)
                  (IsSorted-Holds block groups h gs i g hs e)))
          ∙ ground (arith, c)

  pivot_less :
      (gs : List (List Item)) (i : Item) (g : List Item) (hs : List (List Item))
      → groups ≡ gs ++ (i ∷ g) ∷ hs
      → cmp i.key key ≡ lt
      → Below key (items_of gs)
  pivot_less gs i g hs e c =
      All-imp (λ x l. ≺_trans x.key i.key key l c) (items_of gs)
        (sorted_front (items_of gs) i (g ++ items_of hs)
          (IsSorted-Holds block groups h gs i g hs e))

  pivot_greater :
      (gs : List (List Item)) (i : Item) (g : List Item) (hs : List (List Item))
      → groups ≡ gs ++ (i ∷ g) ∷ hs
      → cmp i.key key ≡ gt
      → Over key (items_of ((i ∷ g) ∷ hs))
  unfolding items_of
  pivot_greater gs i g hs e c =
      let less = lt_of_gt i.key key c in
      (
        less,
        All-imp (λ x l. ≺_trans key i.key x.key less l) (g ++ items_of hs)
            (sorted_behind (items_of gs) i (g ++ items_of hs)
              (IsSorted-Holds block groups h gs i g hs e)),
      )

  -- A round at the group `g`, which stands in the middle.
  round :
      (fuel start end : ℕ) (c : Cut groups key start end) (m1 : List (List Item)) (g : List Item)
      (m2 : List (List Item))
      → c.middle ≡ m1 ++ g ∷ m2
      → length m1 ≡ (end - start) / 2
      → 1 < end - start
      → end - start ≤ fuel
      → ((s e : ℕ)
          → Cut groups key s e
          → e - s < fuel
          → Returns (search_restarts fuel block key s e) Searched)
      → Returns (search_restarts (suc fuel) block key start end) Searched
  unfolding search_restarts
  round fuel start end c m1 [] m2 em lm more enough ih = absurd (
      IsGroup-at (c.front ++ m1) [] (m2 ++ c.back)
        (subst (All IsGroup) (regroup groups c m1 [] m2 em) h.starts))
  round fuel start end c m1 (i ∷ g) m2 em lm more enough ih =
      rw (test, search_restarts, restart, pivot gs i g hs split) (ways (cmp i.key key) refl)
    where
      gs : List (List Item)
      gs = c.front ++ m1

      hs : List (List Item)
      hs = m2 ++ c.back

      split : groups ≡ gs ++ (i ∷ g) ∷ hs
      split = regroup groups c m1 (i ∷ g) m2 em

      test : ltb 1 (end - start) ≡ true
      test = ground (arith, more)

      mid : ℕ
      mid = start + (end - start) / 2

      at_mid : mid ≡ length gs
      at_mid = omega (arith, length-append c.front m1, lm, c.at_start)

      both : length c.middle ≡ length m1 + suc (length m2)
      both = ap length em ∙ length-append m1 ((i ∷ g) ∷ m2)

      restart : get_restart_offset block mid ≡ ok (length (encode_all (items_of gs)))
      restart =
          ap (get_restart_offset block) at_mid
          ∙ get_restart_offset-Holds block groups h gs (i ∷ g) hs split

      right : cmp i.key key ≡ lt → Cut groups key mid end
      right l = record {
        front = gs;
        middle = (i ∷ g) ∷ m2;
        back = c.back;
        split = split;
        at_start = sym at_mid;
        at_end = omega (arith, both, c.at_end, length-append c.front m1);
        below = pivot_less gs i g hs split l;
        over = c.over;
        some_back = c.some_back;
      }

      left : cmp i.key key ≡ gt → Cut groups key start mid
      left l = record {
        front = c.front;
        middle = m1;
        back = (i ∷ g) ∷ hs;
        split = split ∙ append_assoc c.front m1 ((i ∷ g) ∷ hs);
        at_start = c.at_start;
        at_end = omega (arith, at_mid, length-append c.front m1);
        below = c.below;
        over = inl (pivot_greater gs i g hs split l);
        some_back = omega arith;
      }

      ways :
          (o : Ordering)
          → cmp i.key key ≡ o
          → Returns
              (elim o as (λ x. Outcome SearchResult) [
                | eq ↦ ok (
                    exact_match (record {
                      offset = length (h.pre ++ encode_all (items_of gs));
                      next_offset = length (encode_all (items_of gs)) + length (encode i);
                    }))
                | lt ↦ search_restarts fuel block key mid end
                | gt ↦ search_restarts fuel block key start mid
              ])
              Searched
      ways eq l = pivot_found gs i g hs _ split l
      ways lt l = ih mid end (right l) (omega (arith, at_mid, more, enough))
      ways gt l = ih start mid (left l) (omega (arith, at_mid, more, enough))

  pub search_restarts_lem :
      (fuel start end : ℕ)
      → Cut groups key start end
      → end - start < fuel
      → Returns (search_restarts fuel block key start end) Searched
  unfolding search_restarts
  search_restarts_lem zero start end c f = absurd (omega (arith, f))
  search_restarts_lem (suc fuel) start end c f = elim (Bool-cases (ltb 1 (end - start))) [
    | inr e ↦ rw (e, search_restarts) c
    | inl e ↦
        let (m1, g, m2, em, lm) =
          cut ((end - start) / 2) c.middle (ground (arith, e, c.at_start, c.at_end)) in
        round fuel start end c m1 g m2 em lm (ground (arith, e)) (omega (arith, f))
          (λ s t d k. search_restarts_lem fuel s t d k)
  ]
