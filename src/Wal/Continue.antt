-- ===== src/Wal/Continue.antt =====
-- `WalWriter::continue_from` of src/wal/writer.rs: the writer after a restart, in the default
-- configuration, where the file is opened with its cursor at the start.
use lsm_rs.Prelude.{
  ℕ, ◌+◌, ◌/◌, ◌%◌, ◌≤◌, ◌<◌, ◌≡◌, ◌≢◌, refl, List, [], ◌∷◌, ◌++◌, Option, some, none, length, drop,
  take_all, drop_all, arith, ==_ne, ==_self, ap,
}
use lsm_rs.Outcome.{ok, Returns, ◌>>=◌}
use native.Mathlib.Nat.{zero-add}
use lsm_rs.Wal.{page_size}
use lsm_rs.Wal.Files.{Files, write_bytes, overwrite, advance, start_of, LogFile}
use lsm_rs.Wal.Writer.{
  WalWriter, continue_from, opened, write_all, write_loop, write_step, write_len,
}
use lsm_rs.Wal.Pages.{content, content_of, Stored, page_end, content-create, content-write_at}
use lsm_rs.Wal.Written.{IsAt}

overwrite_start : (bytes c : List ℕ) → overwrite c 0 bytes ≡ bytes ++ drop (length bytes) c
unfolding overwrite
overwrite_start bytes c = rw zero-add

-- At a page boundary a new file is made, and the writer stands at the end of the log.
pub continue_from-IsAt :
    (fs : Files) (lo : ℕ) (log : List ℕ)
    → Stored fs lo log
    → lo ≤ length log / page_size
    → length log % page_size ≡ 0
    → Returns (continue_from (length log) fs) (λ d. IsAt d lo log)
unfolding continue_from
continue_from-IsAt fs lo log stored low edge = rw edge (record {
  stored = λ k a b.
      rw (content-create fs (length log / page_size) k)
        (ground (arith, stored k a b, page_end log k));
  positioned = refl;
  in_file = refl;
  at_cursor = omega arith;
  low = low;
})

opened_lem :
    (fs : Files) (w : WalWriter) (f : Option LogFile) (c : List ℕ)
    → content_of f ≡ some c
    → opened fs w f ≡ ok (fs, w)
opened_lem fs w none c h = cc
opened_lem fs w (some g) c h = refl

continue_from_inside :
    (fs : Files) (position : ℕ) (c : List ℕ)
    → position % page_size ≢ 0
    → content fs (position / page_size) ≡ some c
    → continue_from position fs
      ≡ ok (fs, record { log_file = start_of (position / page_size); position = position })
unfolding continue_from content
continue_from_inside fs position c inside e =
    rw (==_ne (position % page_size) 0 inside) (opened_lem fs _ (fs (position / page_size)) c e)

write_loop_round :
    (fs : Files) (w : WalWriter) (b : ℕ) (bytes : List ℕ)
    → write_all (fs, w) (b ∷ bytes)
      ≡ write_loop
          (length bytes)
          (write_step (fs, w) (b ∷ bytes) (write_len w (b ∷ bytes)))
          (drop (write_len w (b ∷ bytes)) (b ∷ bytes))
unfolding write_all write_loop
write_loop_round fs w b bytes = refl

-- A write that does not fill the page is one round.
write_all_fits :
    (fs : Files) (w : WalWriter) (b : ℕ) (bytes : List ℕ)
    → w.position % page_size + length (b ∷ bytes) < page_size
    → write_all (fs, w) (b ∷ bytes)
      ≡ ok (
        write_bytes fs w.log_file (b ∷ bytes),
        record {
          log_file = advance w.log_file (length (b ∷ bytes));
          position = w.position + length (b ∷ bytes);
        },
      )
unfolding write_loop write_step
write_all_fits fs w b bytes room =
    let n : write_len w (b ∷ bytes) ≡ length (b ∷ bytes) = omega arith in
    rw (
      write_loop_round fs w b bytes,
      n,
      write_step,
      drop_all (length bytes) bytes (omega arith),
      take_all (length bytes) bytes (omega arith),
      ==_ne (w.position % page_size + length (b ∷ bytes)) page_size (omega arith),
    )

-- Inside a page the next write goes to the start of the file of that page and replaces what stands
-- there: the bytes of the log that it holds are lost, as many as are written. This is so for every
-- write that does not fill the page.
pub continue_from_overwrites :
    (fs : Files) (position : ℕ) (bytes c : List ℕ)
    → position % page_size ≢ 0
    → content fs (position / page_size) ≡ some c
    → position % page_size + length bytes < page_size
    → Returns
        (continue_from position fs >>= λ d. write_all d bytes)
        (λ e. content e.0 (position / page_size) ≡ some (bytes ++ drop (length bytes) c))
unfolding write_all write_loop
continue_from_overwrites fs position [] c inside e room =
    rw (continue_from_inside fs position c inside e) e
continue_from_overwrites fs position (b ∷ bytes) c inside e room =
    rw
      (
        continue_from_inside fs position c inside e,
        write_all_fits fs
            (record { log_file = start_of (position / page_size); position = position }) b bytes
            room,
        content-write_at fs (start_of (position / page_size)) (b ∷ bytes) c (position / page_size)
            e,
        ==_self (position / page_size),
      )
      (ap some (overwrite_start (b ∷ bytes) c))
