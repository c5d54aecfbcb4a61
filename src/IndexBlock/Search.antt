-- ===== src/IndexBlock/Search.antt =====
-- The search of src/index_blocks.rs finds the last block whose key is at most the key that is sought.
use Prim.Native.Nat.Ordering.{lt, eq, gt}
use lsm_rs.Prelude.{
  ℕ, zero, suc, ◌+◌, ◌-◌, ◌/◌, ◌≤◌, ◌<◌, ◌≡◌, refl, subst, List, Option, some, none, Bool, true,
  false, ltb, le→ltb, Bool-cases, inl, inr, arith, Ordering, sym, not, ◌||◌, ◌⊎◌, ◌==◌, ==_iff,
}
use lsm_rs.Key.{Key, cmp, key_le, key_lt, ◌≺◌, eq_of_cmp, lt_of_gt, gt_of_lt, ≺_trans}
use lsm_rs.Outcome.{Outcome, ok, Returns, ◌>>=◌}
use lsm_rs.IndexBlock.{
  get_block_key, get_block_id, choose, search_loop, search_from, binary_search, get_min, get_max,
  num_data_blocks,
}

Ordering-cases : (o : Ordering) → ((elim o [ gt ↦ false | _ ↦ true ]) ≡ true) ⊎ (o ≡ gt)
Ordering-cases lt = inl refl
Ordering-cases eq = inl refl
Ordering-cases gt = inr refl

-- A block that reads as `n` sorted keys with their data blocks.
pub record IsIndex (block : List ℕ) (n : ℕ) (keys : ℕ → Key) (ids : ℕ → ℕ) : Type 0 where
  pub key_at : (pos : ℕ) → pos < n → get_block_key block pos ≡ ok (keys pos)
  pub id_at : (pos : ℕ) → pos < n → get_block_id block pos ≡ ok (ids pos)
  pub sorted : (i j : ℕ) → i < j → j < n → keys i ≺ keys j

-- Entry `i` is the last whose key is at most `q`.
pub record IsLast (n : ℕ) (keys : ℕ → Key) (q : Key) (i : ℕ) : Type 0 where
  pub within : i < n
  pub at_most : key_le (keys i) q ≡ true
  pub rest : (j : ℕ) → i < j → j < n → cmp (keys j) q ≡ gt

-- The answer is the data block of that entry.
abbrev pub IsAnswer : (n : ℕ) (keys : ℕ → Key) (ids : ℕ → ℕ) (q : Key) → Option ℕ → Type 0
IsAnswer n keys ids q r = (i : ℕ) × IsLast n keys q i × (r ≡ some (ids i))

-- The result of a lookup, by whether the key is outside the range of the table.
abbrev pub Answers : Bool → (n : ℕ) (keys : ℕ → Key) (ids : ℕ → ℕ) (q : Key) → Option ℕ → Type 0
Answers true n keys ids q r = r ≡ none
Answers false n keys ids q r = IsAnswer n keys ids q r

module _ (block : List ℕ) (n : ℕ) (keys : ℕ → Key) (ids : ℕ → ℕ) (h : IsIndex block n keys ids)
    (q : Key) where
  above_gt : (m j : ℕ) → m < j → j < n → cmp (keys m) q ≡ gt → cmp (keys j) q ≡ gt
  above_gt m j l w e =
      gt_of_lt q (keys j) (≺_trans q (keys m) (keys j) (lt_of_gt (keys m) q e) (h.sorted m j l w))

  above_eq : (m j : ℕ) → m < j → j < n → cmp (keys m) q ≡ eq → cmp (keys j) q ≡ gt
  above_eq m j l w e =
      gt_of_lt q (keys j) (subst (λ k. k ≺ keys j) (eq_of_cmp (keys m) q e) (h.sorted m j l w))

  -- The entries that the search has left: the first is at most the key, those behind are greater.
  record Range (start last : ℕ) : Type 0 where
    order : start ≤ last
    within : last < n
    at_most : key_le (keys start) q ≡ true
    rest : (j : ℕ) → last < j → j < n → cmp (keys j) q ≡ gt

  upper-IsLast :
      (start last : ℕ) → Range start last → key_le (keys last) q ≡ true → IsLast n keys q last
  upper-IsLast start last r e = record { within = r.within; at_most = e; rest = r.rest }

  lower-IsLast :
      (start last : ℕ)
      → Range start last
      → last - start ≤ 1
      → key_le (keys last) q ≡ false
      → IsLast n keys q start
  lower-IsLast start last r near e = record {
    within = omega (arith, r.order, r.within);
    at_most = r.at_most;
    rest = λ j l w. elim (Bool-cases (j == last)) [
      | inl same ↦
          subst (λ k. cmp (keys k) q ≡ gt) (sym ((==_iff j last).0 same)) (ground (arith, e))
      | inr other ↦ r.rest j (ground (arith, r.order)) w
    ];
  }

  choose_lem :
      (start last : ℕ)
      → Range start last
      → last - start ≤ 1
      → Returns (choose block q start last) (IsAnswer n keys ids q)
  unfolding choose
  choose_lem start last r near =
      let first : start < n = omega (arith, r.order, r.within) in
      rw (h.key_at start first, r.at_most, h.key_at last r.within)
        (elim (Bool-cases (key_le (keys last) q)) [
          | inl e ↦ rw (e, h.id_at last r.within) (last, upper-IsLast start last r e, refl)
          | inr e ↦ rw (e, h.id_at start first) (start, lower-IsLast start last r near e, refl)
        ])

  -- Where the search goes from the middle entry.
  turn_lem :
      (mid : ℕ) (o : Ordering) (lower upper : Outcome (Option ℕ))
      → mid < n
      → cmp (keys mid) q ≡ o
      → (cmp (keys mid) q ≡ gt → Returns lower (IsAnswer n keys ids q))
      → (cmp (keys mid) q ≡ lt → Returns upper (IsAnswer n keys ids q))
      → Returns
          (elim o as (λ k. Outcome (Option ℕ)) [
            | eq ↦ get_block_id block mid >>= λ id. ok (some id)
            | gt ↦ lower
            | lt ↦ upper
          ])
          (IsAnswer n keys ids q)
  turn_lem mid eq lower upper w e low up = rw (h.id_at mid w) (
    mid,
    record { within = w; at_most = ground (arith, e); rest = λ j l v. above_eq mid j l v e },
    refl,
  )
  turn_lem mid gt lower upper w e low up = low e
  turn_lem mid lt lower upper w e low up = up e

  loop_lem :
      (fuel start last : ℕ)
      → Range start last
      → last - start ≤ suc fuel
      → Returns (search_loop fuel block q start last) (IsAnswer n keys ids q)
  unfolding search_loop
  loop_lem zero start last r enough =
      rw (le→ltb 1 (last - start) enough) (choose_lem start last r enough)
  loop_lem (suc fuel) start last r enough = elim (Bool-cases (ltb 1 (last - start))) [
    | inl more ↦
        let mid = (last - start) / 2 + start in
        let far : 1 < last - start = ground arith in
        let inside : mid < n = omega (arith, r.within) in
        rw (more, h.key_at mid inside)
          (turn_lem mid (cmp (keys mid) q) (search_loop fuel block q start mid)
            (search_loop fuel block q mid last) inside refl
            (λ e.
              loop_lem fuel start mid
                (record {
                  order = omega arith;
                  within = inside;
                  at_most = r.at_most;
                  rest = λ j l w. above_gt mid j l w e;
                })
                (omega arith))
            (λ e.
              loop_lem fuel mid last
                (record {
                  order = omega (arith, r.order);
                  within = r.within;
                  at_most = ground (arith, e);
                  rest = r.rest;
                })
                (omega arith)))
    | inr near ↦ rw near (choose_lem start last r (ground arith))
  ]

  search_from-IsAnswer :
      0 < n → key_le (keys 0) q ≡ true → Returns (search_from block q n) (IsAnswer n keys ids q)
  unfolding search_from
  search_from-IsAnswer pos low =
      let more : n ≡ suc (n - 1) = omega arith in
      subst (λ k. Returns (search_from block q k) (IsAnswer n keys ids q)) (sym more)
        (loop_lem (n - 1) 0 (n - 1)
          (record {
            order = omega arith;
            within = omega arith;
            at_most = low;
            rest = λ j l w. absurd (omega arith);
          })
          (omega arith))

  not_below : (b : Bool) → (key_lt q (keys 0) || b) ≡ false → key_le (keys 0) q ≡ true
  not_below b e = elim (Ordering-cases (cmp (keys 0) q)) [
    | inl l ↦ ground (arith, l)
    | inr g ↦ absurd (ground (arith, e, lt_of_gt (keys 0) q g))
  ]

  -- In an index that reads as sorted keys, of which the least is the minimum of the table, a lookup
  -- returns. A key outside the range of the table gives no block. Any other key gives the data block of
  -- the last entry whose key is at most that key.
  pub binary_search-Answers :
      (hi : Key)
      → 0 < n
      → get_min block ≡ ok (keys 0)
      → get_max block ≡ ok hi
      → num_data_blocks block ≡ ok n
      → Returns
          (binary_search block q)
          (Answers (key_lt q (keys 0) || not (key_le q hi)) n keys ids q)
  unfolding binary_search
  binary_search-Answers hi pos min_is max_is num_is =
      rw (min_is, max_is, num_is)
        (elim (Bool-cases (key_lt q (keys 0) || not (key_le q hi))) [
          | inl e ↦ rw e refl
          | inr e ↦ rw e (search_from-IsAnswer pos (not_below (not (key_le q hi)) e))
        ])
