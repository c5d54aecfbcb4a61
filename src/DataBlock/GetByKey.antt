-- ===== src/DataBlock/GetByKey.antt =====
-- `DataBlock::get_by_key` of src/data_blocks/block.rs as a whole.
use lsm_rs.Prelude.{
  ℕ, ◌+◌, ◌<◌, ◌≡◌, refl, ap, sym, subst, ◌∙◌, List, [], ◌∷◌, ◌++◌, none, Bool, true, false, length,
  All, arith, length-append, append_assoc, inl, inr, Bool-cases,
}
use lsm_rs.Key.{Key, key_eq, eq_of_cmp}
use lsm_rs.Outcome.{ok, Returns, Returns-bind, Returns-imp}
use lsm_rs.Memtable.Upsert.{find}
use lsm_rs.DataBlock.{
  DataBlock, SearchResult, exact_match, range, header_length, get_restart_offset,
}
use lsm_rs.DataBlock.Search.{binary_search, scan, scan_result, get_by_key}
use lsm_rs.DataBlock.Items.{Item, encode_all, entries_of, IsChain, Stands, Answers, scan-find}
use lsm_rs.DataBlock.Groups.{
  items_of, items_of-append, encode_all-append, find-Below, find-Over, IsChain-front,
}
use lsm_rs.DataBlock.Restarts.{
  Holds, IsGroup, IsGroup-at, restart_bytes, get_restart_offset-Holds, Stands-Holds, IsChain-Holds,
}
use lsm_rs.DataBlock.Found.{Left, Found, length_encoding, binary_search-Found}

module _ {B : Type 0} (block : DataBlock B) (groups : List (List Item)) (h : Holds block groups)
    (key : Key) where
  scan-Left :
      (start end : ℕ)
      → Left groups key start end
      → Returns
          (scan_result block key (range start end))
          (Answers block (find (entries_of (items_of groups)) key))
  unfolding scan_result items_of
  scan-Left start end l = rw (first_offset (l.scanned ++ l.behind) refl) (
      Returns-imp (scan (end + 1) block key (length (encode_all (items_of l.front))) end [])
        (Answers block (find (entries_of (items_of l.scanned)) key))
        (Answers block (find (entries_of (items_of groups)) key))
        (scan-find block (end + 1) (h.pre ++ encode_all (items_of l.front)) (items_of l.scanned)
          (encode_all (items_of l.behind) ++ restart_bytes header_length groups) key
          (length (encode_all (items_of l.front))) end [] chain stands
          (omega (arith, h.length_pre, length-append h.pre (encode_all (items_of l.front))))
          l.at_end (omega (arith, l.at_end)))
        (λ d a. subst (λ r. Answers block r d) (sym same) a))
    where
      first_offset :
          (gs : List (List Item))
          → l.scanned ++ l.behind ≡ gs
          → get_restart_offset block start ≡ ok (length (encode_all (items_of l.front)))
      first_offset [] e = absurd (
          omega (
            arith,
            ap length (l.split ∙ ap (λ x. l.front ++ x) e),
            length-append l.front (l.scanned ++ l.behind),
            ap length e,
            ap length l.split,
            l.not_all,
          ))
      first_offset (g ∷ gs) e =
          ap (get_restart_offset block) (sym l.at_start)
          ∙ get_restart_offset-Holds block groups h l.front g gs
              (l.split ∙ ap (λ x. l.front ++ x) e)

      chain_of : (gs : List (List Item)) → l.scanned ++ l.behind ≡ gs → IsChain [] (items_of gs)
      chain_of [] e = tt
      chain_of ([] ∷ gs) e = absurd (
          IsGroup-at l.front [] gs
            (subst (All IsGroup) (l.split ∙ ap (λ x. l.front ++ x) e) h.starts))
      chain_of ((i ∷ g) ∷ gs) e =
          IsChain-Holds block groups h l.front i g gs (l.split ∙ ap (λ x. l.front ++ x) e)

      chain : IsChain [] (items_of l.scanned)
      chain = IsChain-front [] (items_of l.scanned) (items_of l.behind) (
          subst (IsChain []) (items_of-append l.scanned l.behind)
            (chain_of (l.scanned ++ l.behind) refl))

      whole :
          Stands block
            (h.pre ++ encode_all (items_of l.front))
            (items_of (l.scanned ++ l.behind))
            (restart_bytes header_length groups)
      whole = Stands-Holds block groups h l.front (l.scanned ++ l.behind) l.split

      parts :
          encode_all (items_of (l.scanned ++ l.behind))
          ≡ encode_all (items_of l.scanned) ++ encode_all (items_of l.behind)
      parts =
          ap encode_all (items_of-append l.scanned l.behind)
          ∙ encode_all-append (items_of l.scanned) (items_of l.behind)

      stands :
          Stands block
            (h.pre ++ encode_all (items_of l.front))
            (items_of l.scanned)
            (encode_all (items_of l.behind) ++ restart_bytes header_length groups)
      stands = record {
        bytes =
            whole.bytes
            ∙ ap
                (λ x.
                  (h.pre ++ encode_all (items_of l.front))
                  ++ (x ++ restart_bytes header_length groups))
                parts
            ∙ ap (λ x. (h.pre ++ encode_all (items_of l.front)) ++ x)
                (append_assoc (encode_all (items_of l.scanned)) (encode_all (items_of l.behind))
                  (restart_bytes header_length groups));
        before_restarts = omega (arith, whole.before_restarts, length_encoding l.scanned l.behind);
        small = whole.small;
      }

      same : find (entries_of (items_of groups)) key ≡ find (entries_of (items_of l.scanned)) key
      same =
          ap (λ x. find (entries_of x) key)
            (ap items_of l.split
              ∙ items_of-append l.front (l.scanned ++ l.behind)
              ∙ ap (λ x. items_of l.front ++ x) (items_of-append l.scanned l.behind))
          ∙ find-Below key (items_of l.front) (items_of l.scanned ++ items_of l.behind) l.below
          ∙ find-Over key (items_of l.scanned) (items_of l.behind) l.over

  -- Every key of the items is in the filter.
  abbrev pub HasKeys : (B → Key → Bool) → List Item → Type 0
  HasKeys check items = All (λ i. check block.bloom_filter i.key ≡ true) items

  find-HasKeys :
      (check : B → Key → Bool) (items : List Item)
      → HasKeys check items
      → check block.bloom_filter key ≡ false
      → find (entries_of items) key ≡ none
  unfolding find
  find-HasKeys check [] k e = refl
  find-HasKeys check (i ∷ items) (k, ks) e = elim (Bool-cases (key_eq i.key key)) [
    | inr other ↦ rw (other, find) (find-HasKeys check items ks e)
    | inl same ↦
        let equal : i.key ≡ key = ground (arith, same, eq_of_cmp i.key key) in
        absurd (ground (arith, k, e, ap (λ j. check block.bloom_filter j) equal))
  ]

  -- In a block that holds sorted items behind restart points, with their keys in the bloom filter, the
  -- lookup of a key ends without a panic. It gives an entry that reads as the version that the items
  -- have of the key, or no entry where they have none.
  pub get_by_key-find :
      (check : B → Key → Bool)
      → 0 < length groups
      → HasKeys check (items_of groups)
      → Returns
          (get_by_key check block key)
          (Answers block (find (entries_of (items_of groups)) key))
  unfolding get_by_key scan_result
  get_by_key-find check some_groups keys = elim (Bool-cases (check block.bloom_filter key)) [
    | inr e ↦ rw (e, get_by_key, find-HasKeys check (items_of groups) keys e) tt
    | inl e ↦
        rw (e, get_by_key)
          (Returns-bind (binary_search block key) (scan_result block key) (Found block groups h key)
            (Answers block (find (entries_of (items_of groups)) key))
            (binary_search-Found block groups h key some_groups) result)
  ]
    where
      result :
          (r : SearchResult)
          → Found block groups h key r
          → Returns
              (scan_result block key r)
              (Answers block (find (entries_of (items_of groups)) key))
      result (exact_match d) a = a
      result (range start end) l = scan-Left start end l
