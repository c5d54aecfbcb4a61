-- ===== src/Manifest/Bytes.antt =====
-- The file of a level of src/manifest.rs, as bytes: what it holds, and how it is read and written.
use lsm_rs.Prelude.{
  ℕ, ◌+◌, ◌*◌, ◌≤◌, ◌<◌, ◌≡◌, refl, List, [], ◌∷◌, ◌++◌, All, length, take, drop, flatten, map,
  le→leb, length-append, take-length_append, drop-length_append, append_assoc, arith, subst,
  drop-drop,
}
use lsm_rs.Bytes.{to_le, from_le-to_le, length-to_le, size_of_u64, u64_mod}
use lsm_rs.Outcome.{ok}
use lsm_rs.Manifest.LevelMetadata.{header_size, read_ids, id_bytes, get_table_ids, copy_ids}
use lsm_rs.Manifest.Ids.{IsSorted}

-- The file holds the number of identifiers, the identifiers, and free space.
pub record IsLevel (file ids : List ℕ) : Type 0 where
  pub rest : List ℕ
  pub bytes : file ≡ to_le header_size (length ids) ++ (id_bytes ids ++ rest)
  pub sorted : IsSorted ids
  pub words : All (λ id. id < u64_mod) ids
  pub count : length ids < u64_mod

pub take-to_le : (w n : ℕ) (rest : List ℕ) → take w (to_le w n ++ rest) ≡ to_le w n
take-to_le w n rest =
    subst (λ k. take k (to_le w n ++ rest) ≡ to_le w n) (length-to_le w n)
      (take-length_append (to_le w n) rest)

pub drop-to_le : (w n : ℕ) (rest : List ℕ) → drop w (to_le w n ++ rest) ≡ rest
drop-to_le w n rest =
    subst (λ k. drop k (to_le w n ++ rest) ≡ rest) (length-to_le w n)
      (drop-length_append (to_le w n) rest)

pub length-id_bytes : (ids : List ℕ) → length (id_bytes ids) ≡ size_of_u64 * length ids
unfolding id_bytes flatten
length-id_bytes [] = refl
length-id_bytes (id ∷ ids) = omega (
  arith,
  length-append (to_le size_of_u64 id) (id_bytes ids),
  length-to_le size_of_u64 id,
  length-id_bytes ids,
)

read_ids-id_bytes :
    (ids rest : List ℕ)
    → All (λ id. id < u64_mod) ids
    → read_ids (length ids) (id_bytes ids ++ rest) ≡ ids
unfolding read_ids id_bytes flatten
read_ids-id_bytes [] rest h = refl
read_ids-id_bytes (id ∷ ids) rest h = rw (
  append_assoc,
  take-to_le size_of_u64 id (flatten (map (to_le size_of_u64) ids) ++ rest),
  drop-to_le size_of_u64 id (flatten (map (to_le size_of_u64) ids) ++ rest),
  from_le-to_le size_of_u64 id h.0,
  read_ids-id_bytes ids rest h.1,
)

pub get_table_ids_lem : (file ids : List ℕ) → IsLevel file ids → get_table_ids file ≡ ok ids
unfolding get_table_ids
get_table_ids_lem file ids h = rw h.bytes (
    let body = id_bytes ids ++ h.rest in
    let room : header_size + length ids * size_of_u64
        ≤ length (to_le header_size (length ids) ++ body) =
      omega (
        arith,
        length-append (to_le header_size (length ids)) body,
        length-to_le header_size (length ids),
        length-append (id_bytes ids) h.rest,
        length-id_bytes ids,
      ) in
    rw (
      take-to_le header_size (length ids) body,
      drop-to_le header_size (length ids) body,
      from_le-to_le header_size (length ids) h.count,
      le→leb _ _ room,
      read_ids-id_bytes ids h.rest h.words,
    ))

-- The identifiers copied behind a header, where there is room for them.
pub copy_ids_lem :
    (n : ℕ) (body new_data : List ℕ)
    → length new_data ≤ length body
    → copy_ids (to_le header_size n ++ body) new_data
      ≡ ok (to_le header_size n ++ (new_data ++ drop (length new_data) body))
unfolding copy_ids
copy_ids_lem n body new_data h =
    let room : header_size + length new_data ≤ length (to_le header_size n ++ body) =
      omega (arith, length-append (to_le header_size n) body, length-to_le header_size n, h) in
    rw (
      le→leb _ _ room,
      take-to_le header_size n body,
      ← drop-drop header_size (length new_data) (header_size + length new_data)
          (to_le header_size n ++ body) refl,
      drop-to_le header_size n body,
    )
