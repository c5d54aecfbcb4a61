-- ===== src/Wal/Files.antt =====
-- The log files on disk and an open handle of one, as src/wal/ and src/disk.rs use them through
-- `std::fs`. `get_file_path` names the files by their position, one name for each, so a directory is a
-- function of the position. A write or a sync of a healthy disk does not fail.
use lsm_rs.Prelude.{
  ℕ, ◌+◌, ◌-◌, List, [], ◌++◌, Option, none, some, length, take, drop, replicate, ◌==◌,
  if◌then◌else◌,
}

-- The bytes of a file, and those that the last `sync_data` made durable.
pub record LogFile : Type 0 where
  pub content : List ℕ
  pub durable : List ℕ

abbrev pub Files : Type 0
Files = ℕ → Option LogFile

abbrev pub update : Files → ℕ → Option LogFile → Files
update fs k f j = if j == k then f else fs j

-- `std::fs::File`: the file, and the cursor of the next `write_all`.
pub record Handle : Type 0 where
  pub fpos : ℕ
  pub cursor : ℕ

-- `write_all` at the cursor: it overwrites, extends, and fills a gap by zeros.
unfoldable pub overwrite : List ℕ → ℕ → List ℕ → List ℕ
overwrite content cursor bytes =
    take cursor (content ++ replicate (cursor - length content) 0)
    ++ (bytes ++ drop (cursor + length bytes) content)

-- A removed file takes writes that no name reaches.
unfoldable pub write_bytes : Files → Handle → List ℕ → Files
write_bytes fs h bytes = update fs h.fpos (elim (fs h.fpos) [
  | none ↦ none
  | some f ↦ some (record f { content = overwrite f.content h.cursor bytes })
])

unfoldable pub advance : Handle → ℕ → Handle
advance h n = record h { cursor = h.cursor + n }

-- `sync_data`
unfoldable pub sync_data : Files → Handle → Files
sync_data fs h =
    update fs h.fpos
      (elim (fs h.fpos) [ none ↦ none | some f ↦ some (record f { durable = f.content }) ])

-- `File::create` truncates what is there.
unfoldable pub create : Files → ℕ → Files
create fs k = update fs k (some (record { content = []; durable = [] }))

abbrev pub start_of : ℕ → Handle
start_of k = record { fpos = k; cursor = 0 }
