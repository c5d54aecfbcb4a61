-- ===== src/Wal/Writer.antt =====
-- src/wal/writer.rs: the task that writes the log, in the default configuration (`std::fs`).
-- The asserts of `write_all` hold by the bounds of `%` and `min`.
use lsm_rs.Prelude.{
  ℕ, zero, suc, ◌+◌, ◌-◌, ◌/◌, ◌%◌, List, [], ◌∷◌, none, some, length, Option, take, drop, min,
  ◌==◌, if◌then◌else◌,
}
use lsm_rs.Outcome.{Outcome, ok, err, panicked, diverged, ◌>>=◌, IoError, from_io_error}
use lsm_rs.Wal.{page_size}
use lsm_rs.Wal.Files.{
  Files, Handle, LogFile, update, write_bytes, advance, sync_data, create, start_of,
}

pub record WalWriter : Type 0 where
  pub log_file : Handle
  pub position : ℕ

-- The writer with the directory that it writes.
abbrev pub Disk : Type 0
Disk = Files × WalWriter

-- `WalWriter::new`: file 0 is created.
unfoldable pub new : Files → Disk
new fs = (create fs 0, record { log_file = start_of 0; position = 0 })

-- `open_file`: the cursor is at the start of the file. The failure to open panics.
abbrev pub opened : Files → WalWriter → Option LogFile → Outcome Disk
opened fs w none = panicked
opened fs w (some f) = ok (fs, w)

-- `create_file` at a page boundary, else `open_file`.
unfoldable pub continue_from : ℕ → Files → Outcome Disk
continue_from position fs =
    let fpos = position / page_size in
    let w : WalWriter = record { log_file = start_of fpos; position = position } in
    if position % page_size == 0 then ok (create fs fpos, w) else opened fs w (fs fpos)

-- The body of the `while` of `write_all`: as much as fits the page, and a new file where it is full.
unfoldable pub write_step : Disk → List ℕ → ℕ → Disk
write_step (fs, w) bytes write_len =
    let fs' = write_bytes fs w.log_file (take write_len bytes) in
    let position' = w.position + write_len in
    if w.position % page_size + write_len == page_size
    then (
      create fs' (position' / page_size),
      record { log_file = start_of (position' / page_size); position = position' },
    )
    else (fs', record { log_file = advance w.log_file write_len; position = position' })

abbrev pub write_len : WalWriter → List ℕ → ℕ
write_len w bytes = min (length bytes) (page_size - w.position % page_size)

-- The list is what `data[buf_pos..]` still holds.
unfoldable pub write_loop : ℕ → Disk → List ℕ → Outcome Disk
write_loop fuel d [] = ok d
write_loop zero d (b ∷ bytes) = diverged
write_loop (suc fuel) (fs, w) (b ∷ bytes) =
    let n = write_len w (b ∷ bytes) in
    write_loop fuel (write_step (fs, w) (b ∷ bytes) n) (drop n (b ∷ bytes))

-- Each round writes a byte at least.
unfoldable pub write_all : Disk → List ℕ → Outcome Disk
write_all d bytes = write_loop (length bytes) d bytes

-- The `for` over the queued writes of `update_log`.
unfoldable pub write_bufs : Disk → List (List ℕ) → Outcome Disk
write_bufs d [] = ok d
write_bufs d (buf ∷ to_write) = do d' ← write_all d buf; write_bufs d' to_write

-- `sync` syncs the current file.
unfoldable pub sync : Disk → Disk
sync (fs, w) = (sync_data fs w.log_file, w)

-- The `for` over `old_file_pos..new_file_pos` of `set_offset`; the first argument counts the rounds.
unfoldable pub remove_files : ℕ → ℕ → Files → Outcome Files
remove_files zero fpos fs = ok fs
remove_files (suc n) fpos fs = elim (fs fpos) [
  | none ↦ err (from_io_error "Failed to remove log file" IoError.not_found)
  | some f ↦ remove_files n (fpos + 1) (update fs fpos none)
]

unfoldable pub set_offset : Files → ℕ → ℕ → Outcome Files
set_offset fs new_offset old_offset =
    let old_file_pos = old_offset / page_size in
    remove_files (new_offset / page_size - old_file_pos) old_file_pos fs
