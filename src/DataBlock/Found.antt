-- ===== src/DataBlock/Found.antt =====
-- What the binary search of src/data_blocks/block.rs leaves to be scanned.
use lsm_rs.Prelude.{
  ℕ, ◌+◌, ◌-◌, ◌<◌, ◌≡◌, refl, ap, sym, ◌∙◌, List, [], ◌∷◌, ◌++◌, some, true, false, length, arith,
  length-append, append_assoc, append-nil, ltb, ◌==◌, inl, inr, Bool-cases,
}
use lsm_rs.Key.{Key}
use lsm_rs.Outcome.{ok, Returns, Returns-bind}
use lsm_rs.Memtable.Upsert.{find}
use lsm_rs.DataBlock.{DataBlock, SearchResult, exact_match, range, get_restart_offset, byte_len}
use lsm_rs.DataBlock.Search.{search_restarts, range_end, finish_search, binary_search}
use lsm_rs.DataBlock.Items.{Item, encode_all, entries_of, Answers}
use lsm_rs.DataBlock.Groups.{items_of, items_of-append, encode_all-append, Below, Over, cut}
use lsm_rs.DataBlock.Restarts.{
  Holds, get_restart_offset-Holds, restart_list_len-Holds, byte_len-Holds,
}
use lsm_rs.DataBlock.Lookup.{Cut, Searched, search_restarts_lem}

-- The groups that are left to be scanned, up to the offset `end`.
pub record Left (groups : List (List Item)) (key : Key) (start end : ℕ) : Type 0 where
  pub front : List (List Item)
  pub scanned : List (List Item)
  pub behind : List (List Item)
  pub split : groups ≡ front ++ (scanned ++ behind)
  pub at_start : length front ≡ start
  pub at_end : length (encode_all (items_of front)) + length (encode_all (items_of scanned)) ≡ end
  pub below : Below key (items_of front)
  pub over : Over key (items_of behind)
  pub not_all : length front < length groups

pub length_encoding :
    (gs hs : List (List Item))
    → length (encode_all (items_of (gs ++ hs)))
      ≡ length (encode_all (items_of gs)) + length (encode_all (items_of hs))
length_encoding gs hs =
    ap length
      (ap encode_all (items_of-append gs hs) ∙ encode_all-append (items_of gs) (items_of hs))
    ∙ length-append (encode_all (items_of gs)) (encode_all (items_of hs))

module _ {B : Type 0} (block : DataBlock B) (groups : List (List Item)) (h : Holds block groups)
    (key : Key) where
  abbrev pub Found : SearchResult → Type 0
  Found (exact_match d) = Answers block (find (entries_of (items_of groups)) key) (some d)
  Found (range start end) = Left groups key start end

  length-Cut : (start end : ℕ) (c : Cut groups key start end) → length groups ≡ end + length c.back
  length-Cut start end c = omega (
    arith,
    ap length c.split,
    length-append c.front (c.middle ++ c.back),
    length-append c.middle c.back,
    c.at_end,
  )

  -- To the end of the block, where the last group may have the key.
  to_last : (start end : ℕ) → Cut groups key start end → Left groups key start (byte_len block)
  unfolding items_of
  to_last start end c = record {
    front = c.front;
    scanned = c.middle ++ c.back;
    behind = [];
    split = c.split ∙ ap (λ l. c.front ++ l) (sym (append-nil (c.middle ++ c.back)));
    at_start = c.at_start;
    at_end = sym (
        byte_len-Holds block groups h
        ∙ ap (λ l. length (encode_all (items_of l))) c.split
        ∙ length_encoding c.front (c.middle ++ c.back));
    below = c.below;
    over = tt;
    not_all = omega (arith, length-Cut start end c, c.at_end, c.some_back);
  }

  -- Up to the first group with greater keys only.
  to_next :
      (start end : ℕ) (c : Cut groups key start end)
      → Over key (items_of c.back)
      → Left groups key start (length (encode_all (items_of (c.front ++ c.middle))))
  to_next start end c over = record {
    front = c.front;
    scanned = c.middle;
    behind = c.back;
    split = c.split;
    at_start = c.at_start;
    at_end = sym (length_encoding c.front c.middle);
    below = c.below;
    over = over;
    not_all = omega (arith, length-Cut start end c, c.at_end, c.some_back);
  }

  next_offset :
      (start end : ℕ) (c : Cut groups key start end) (back : List (List Item))
      → c.back ≡ back
      → get_restart_offset block end ≡ ok (length (encode_all (items_of (c.front ++ c.middle))))
  next_offset start end c [] e = absurd (omega (arith, ap length e, c.some_back))
  next_offset start end c (g ∷ back) e =
      ap (get_restart_offset block) at
      ∙ get_restart_offset-Holds block groups h (c.front ++ c.middle) g back (
          c.split
          ∙ ap (λ l. c.front ++ (c.middle ++ l)) e
          ∙ sym (append_assoc c.front c.middle (g ∷ back)))
    where
      at : end ≡ length (c.front ++ c.middle)
      at = omega (arith, length-append c.front c.middle, c.at_end)

  Over-back :
      (start end : ℕ) (c : Cut groups key start end)
      → (end + 1 == length groups) ≡ false
      → Over key (items_of c.back)
  Over-back start end c e = elim c.over [
    | inl over ↦ over
    | inr one ↦ absurd (ground (arith, e, one, length-Cut start end c))
  ]

  finish_search-Found :
      (r : SearchResult)
      → Searched block groups h key r
      → Returns (finish_search block (length groups) r) Found
  unfolding finish_search range_end
  finish_search-Found (exact_match d) s = s
  finish_search-Found (range start end) c = elim (Bool-cases (end + 1 == length groups)) [
    | inl e ↦ rw (e, finish_search) (to_last start end c)
    | inr e ↦
        rw (e, finish_search, next_offset start end c c.back refl)
          (to_next start end c (Over-back start end c e))
  ]

  pub binary_search-Found : 0 < length groups → Returns (binary_search block key) Found
  unfolding binary_search items_of
  binary_search-Found some_groups =
      rw (restart_list_len-Holds block groups h, test)
        (Returns-bind (search_restarts (length groups + 1) block key 0 (length groups - 1)) _
          (Searched block groups h key) Found
          (search_restarts_lem block groups h key (length groups + 1) 0 (length groups - 1) whole
            (omega arith))
          finish_search-Found)
    where
      test : ltb 0 (length groups) ≡ true
      test = ground (arith, some_groups)

      whole : Cut groups key 0 (length groups - 1)
      whole =
          let (front, g, back, e, l) =
            cut (length groups - 1) groups (omega (arith, some_groups)) in
          record {
            front = [];
            middle = front;
            back = g ∷ back;
            split = e;
            at_start = refl;
            at_end = omega (arith, l);
            below = tt;
            over = inr (omega (arith, ap length e, length-append front (g ∷ back), l));
            some_back = omega arith;
          }
