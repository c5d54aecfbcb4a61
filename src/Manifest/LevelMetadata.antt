-- ===== src/Manifest/LevelMetadata.antt =====
-- `LevelMetadata` of src/manifest.rs: the number of tables in the first 8 bytes of a level's file, the
-- table identifiers behind it, and free space to the end. The vector's `binary_search` is the standard
-- library's: on a sorted vector it returns the position of the identifier or where it belongs.
use lsm_rs.Prelude.{
  ℕ, zero, suc, ◌+◌, ◌*◌, List, [], ◌∷◌, ◌++◌, Bool, true, false, length, take, drop, replicate,
  insert_idx, remove_idx, flatten, map, leb, ltb, ◌==◌, if◌then◌else◌,
}
use lsm_rs.Bytes.{to_le, from_le, size_of_u64}
use lsm_rs.Outcome.{Outcome, ok, ◌>>=◌, ◌>>◌, assert}
use lsm_rs.Memtable.{Position, found, missing, next}

abbrev pub page_size : ℕ
page_size = 4096

abbrev pub header_size : ℕ
header_size = 8

-- `as_slice_of::<TableId>`: as many identifiers as the header says.
unfoldable pub read_ids : ℕ → List ℕ → List ℕ
read_ids zero bytes = []
read_ids (suc n) bytes = from_le (take size_of_u64 bytes) ∷ read_ids n (drop size_of_u64 bytes)

-- `as_byte_slice` of the identifiers.
unfoldable pub id_bytes : List ℕ → List ℕ
id_bytes ids = flatten (map (to_le size_of_u64) ids)

-- The slice panics where it is not inside the file.
unfoldable pub get_table_ids : List ℕ → Outcome (List ℕ)
get_table_ids contents =
    let num_tables = from_le (take header_size contents) in
    assert (leb (header_size + num_tables * size_of_u64) (length contents))
    >> ok (read_ids num_tables (drop header_size contents))

unfoldable pub binary_search : List ℕ → ℕ → Position
binary_search [] id = missing 0
binary_search (t ∷ tables) id =
    if ltb t id then next (binary_search tables id) else if t == id then found 0 else missing 0

-- `copy_from_slice` behind the header.
unfoldable pub copy_ids : List ℕ → List ℕ → Outcome (List ℕ)
copy_ids contents new_data =
    assert (leb (header_size + length new_data) (length contents))
    >> ok (take header_size contents ++ (new_data ++ drop (header_size + length new_data) contents))

-- "Resize file?"
unfoldable pub resize : List ℕ → List ℕ → List ℕ
resize contents new_data =
    if leb (length contents) (header_size + length new_data)
    then contents ++ replicate page_size 0
    else contents

-- The number of tables is written first, then the file grows where it must.
unfoldable pub insert_at : List ℕ → List ℕ → ℕ → ℕ → Outcome (List ℕ × Bool)
insert_at contents ids pos id =
    let tables = insert_idx ids pos id in
    let contents1 = to_le header_size (length tables) ++ drop header_size contents in
    copy_ids (resize contents1 (id_bytes tables)) (id_bytes tables) >>= λ contents2.
    ok (contents2, true)

-- "Returns false if the entry already existed"
unfoldable pub insert : List ℕ → ℕ → Outcome (List ℕ × Bool)
insert contents id = do
  ids ← get_table_ids contents
  elim (binary_search ids id) [
    | found pos ↦ ok (contents, false)
    | missing pos ↦ insert_at contents ids pos id
  ]

unfoldable pub remove_at : List ℕ → List ℕ → ℕ → Outcome (List ℕ × Bool)
remove_at contents ids pos =
    let tables = remove_idx ids pos in
    let contents1 = to_le header_size (length tables) ++ drop header_size contents in
    copy_ids contents1 (id_bytes tables) >>= λ contents2. ok (contents2, true)

-- "Returns false if no such entry existed"
unfoldable pub remove : List ℕ → ℕ → Outcome (List ℕ × Bool)
remove contents id = do
  ids ← get_table_ids contents
  elim (binary_search ids id) [
    | found pos ↦ remove_at contents ids pos
    | missing pos ↦ ok (contents, false)
  ]
