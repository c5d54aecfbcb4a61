-- ===== src/Manifest/Changes.antt =====
-- `LevelMetadata::insert` and `remove` of src/manifest.rs: what they do to the identifiers of a level.
use lsm_rs.Prelude.{
  ℕ, suc, ◌+◌, ◌*◌, ◌≤◌, ◌<◌, ◌≡◌, refl, ap, sym, ◌∙◌, List, [], ◌∷◌, ◌++◌, Bool, true, false, not,
  All, length, drop, replicate, insert_idx, remove_idx, leb, length-append, length-replicate,
  append_assoc, Bool-cases, inl, inr, arith, subst,
}
use lsm_rs.Bytes.{to_le, length-to_le, size_of_u64, u64_mod}
use lsm_rs.Outcome.{ok, Returns, ◌>>=◌}
use lsm_rs.Memtable.{Position, found, missing}
use lsm_rs.Manifest.LevelMetadata.{
  page_size, header_size, id_bytes, copy_ids, resize, insert, insert_at, remove, remove_at,
  binary_search,
}
use lsm_rs.Manifest.Ids.{
  has_above, IsSorted, has, add, without, Searched, binary_search-Searched, add-IsSorted,
  without-IsSorted, All-add, All-without,
}
use lsm_rs.Manifest.Bytes.{IsLevel, length-id_bytes, get_table_ids_lem, copy_ids_lem, drop-to_le}

-- A file that was grown where it must has room for the identifiers.
resize_lem :
    (n : ℕ) (body new_data : List ℕ)
    → length new_data ≤ length body + page_size
    → (body' : List ℕ) × (resize (to_le header_size n ++ body) new_data
        ≡ to_le header_size n ++ body')
      × (length new_data ≤ length body')
unfolding resize
resize_lem n body new_data h =
    let total : length (to_le header_size n ++ body) ≡ header_size + length body =
      omega (arith, length-append (to_le header_size n) body, length-to_le header_size n) in
    elim (Bool-cases (leb (length (to_le header_size n ++ body)) (header_size + length new_data))) [
      | inl grow ↦ (
        body ++ replicate page_size 0,
        rw (grow, append_assoc) refl,
        omega (
          arith,
          length-append body (replicate page_size 0),
          length-replicate {A = ℕ} page_size 0,
        ),
      )
      | inr keep ↦ (body, rw keep, ground (arith, total))
    ]

pub length-add : (ids : List ℕ) (id : ℕ) → length (add ids id) ≤ suc (length ids)
unfolding add
length-add [] id = omega arith
length-add (t ∷ ids) id = ground (arith, length-add ids id)

pub length-without : (ids : List ℕ) (id : ℕ) → length (without ids id) ≤ length ids
unfolding without
length-without [] id = omega arith
length-without (t ∷ ids) id = ground (arith, length-without ids id)

add-has : (ids : List ℕ) (id : ℕ) → IsSorted ids → has ids id ≡ true → add ids id ≡ ids
unfolding has add
add-has [] id h e = cc
add-has (t ∷ ids) id h e = ground (arith, add-has ids id h.1, has_above t ids h.0 id)

without-has : (ids : List ℕ) (id : ℕ) → has ids id ≡ false → without ids id ≡ ids
unfolding has without
without-has [] id e = refl
without-has (t ∷ ids) id e = ground (arith, without-has ids id)

-- The result of a change: its flag, and the identifiers that the file then holds.
abbrev pub Changed : Bool → List ℕ → List ℕ × Bool → Type 0
Changed flag ids (file, changed) = (changed ≡ flag) × IsLevel file ids

-- What is written where a changed list of identifiers is put in the place of the old one.
replaced :
    (ids : List ℕ) (body' : List ℕ)
    → IsSorted ids
    → All (λ id. id < u64_mod) ids
    → length ids < u64_mod
    → length (id_bytes ids) ≤ length body'
    → Returns
        (copy_ids (to_le header_size (length ids) ++ body') (id_bytes ids) >>= λ f. ok (f, true))
        (Changed true ids)
replaced ids body' sorted words count room =
    rw (copy_ids_lem (length ids) body' (id_bytes ids) room) (
      refl,
      record {
        rest = drop (length (id_bytes ids)) body';
        bytes = refl;
        sorted = sorted;
        words = words;
        count = count;
      },
    )

module _ (file ids : List ℕ) (id : ℕ) (h : IsLevel file ids) where
  body : List ℕ
  body = drop header_size file

  length-body : length body ≡ size_of_u64 * length ids + length h.rest
  unfolding body
  length-body =
      let b = id_bytes ids ++ h.rest in
      ap (λ f. length (drop header_size f)) h.bytes
      ∙ omega (
        arith,
        ap length (drop-to_le header_size (length ids) b),
        length-append (id_bytes ids) h.rest,
        length-id_bytes ids,
      )

  insert_at_lem :
      (pos : ℕ)
      → id < u64_mod
      → suc (length ids) < u64_mod
      → insert_idx ids pos id ≡ add ids id
      → Returns (insert_at file ids pos id) (Changed true (add ids id))
  unfolding insert_at body
  insert_at_lem pos small count e =
      let grown =
        resize_lem (length (add ids id)) body (id_bytes (add ids id))
          (omega (arith, length-body, length-id_bytes (add ids id), length-add ids id)) in
      rw (e, grown.1)
        (replaced (add ids id) grown.0 (add-IsSorted ids id h.sorted)
          (All-add _ ids id small h.words) (omega (arith, length-add ids id)) grown.2)

  remove_at_lem :
      (pos : ℕ)
      → remove_idx ids pos ≡ without ids id
      → Returns (remove_at file ids pos) (Changed true (without ids id))
  unfolding remove_at body
  remove_at_lem pos e = rw e (
      replaced (without ids id) body (without-IsSorted ids id h.sorted)
        (All-without _ ids id h.words) (omega (arith, h.count, length-without ids id))
        (omega (arith, length-body, length-id_bytes (without ids id), length-without ids id)))

  -- On a level's file an insertion returns, and leaves the file with the identifier in its place. It
  -- says whether the identifier was new. The identifier and the number of them fit 64 bits.
  pub insert_lem :
      id < u64_mod
      → suc (length ids) < u64_mod
      → Returns (insert file id) (Changed (not (has ids id)) (add ids id))
  unfolding insert
  insert_lem small count =
      rw (get_table_ids_lem file ids h)
        (go (binary_search ids id) (binary_search-Searched ids id h.sorted))
    where
      go :
          (p : Position)
          → Searched p ids id
          → Returns
              (elim p [ found pos ↦ ok (file, false) | missing pos ↦ insert_at file ids pos id ])
              (Changed (not (has ids id)) (add ids id))
      go (found pos) s = (rw s.0 refl, subst (IsLevel file) (sym (add-has ids id h.sorted s.0)) h)
      go (missing pos) s = rw s.0 (insert_at_lem pos small count s.1)

  -- A removal returns too, and leaves the file without the identifier. It says whether it was there.
  pub remove_lem : Returns (remove file id) (Changed (has ids id) (without ids id))
  unfolding remove
  remove_lem =
      rw (get_table_ids_lem file ids h)
        (go (binary_search ids id) (binary_search-Searched ids id h.sorted))
    where
      go :
          (p : Position)
          → Searched p ids id
          → Returns
              (elim p [ found pos ↦ remove_at file ids pos | missing pos ↦ ok (file, false) ])
              (Changed (has ids id) (without ids id))
      go (found pos) s = rw s.0 (remove_at_lem pos s.1)
      go (missing pos) s = (rw s.0 refl, subst (IsLevel file) (sym (without-has ids id s.0)) h)
