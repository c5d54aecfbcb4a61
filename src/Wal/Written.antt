-- ===== src/Wal/Written.antt =====
-- `WalWriter::write_all` of src/wal/writer.rs appends to the log, across page boundaries.
use lsm_rs.Prelude.{
  flatten, subst, ℕ, zero, suc, ◌+◌, ◌/◌, ◌%◌, ◌≤◌, ◌≡◌, refl, List, [], ◌∷◌, ◌++◌, some, length,
  take, drop, length-take, length-drop, length-append, take-append-drop, append_assoc, append-nil,
  ◌==◌, arith, Bool-cases, inl, inr,
}
use lsm_rs.Outcome.{Returns, Returns-bind}
use lsm_rs.Wal.{page_size}
use lsm_rs.Wal.Files.{Files, write_bytes, advance}
use lsm_rs.Wal.Writer.{
  Disk, WalWriter, new, write_step, write_len, write_loop, write_all, write_bufs,
}
use lsm_rs.Wal.Pages.{
  page, content, Stored, length-page, page-append_full, page-append_last, page_end, content-create,
  content-write_bytes,
}

-- The files from `lo` on hold the log, and the writer stands at its end.
pub record IsAt (d : Disk) (lo : ℕ) (log : List ℕ) : Type 0 where
  pub stored : Stored d.0 lo log
  pub positioned : d.1.position ≡ length log
  pub in_file : d.1.log_file.fpos ≡ length log / page_size
  pub at_cursor : d.1.log_file.cursor ≡ length log % page_size
  pub low : lo ≤ length log / page_size

module _ (fs : Files) (w : WalWriter) (lo : ℕ) (log bytes : List ℕ) (h : IsAt (fs, w) lo log) where
  -- The file of the writer, after a write that fits its page.
  written_last : content fs w.log_file.fpos ≡ some (page log w.log_file.fpos)
  written_last =
      h.stored w.log_file.fpos (omega (arith, h.in_file, h.low)) (omega (arith, h.in_file))

  cursor_end : w.log_file.cursor ≡ length (page log w.log_file.fpos)
  cursor_end = omega (arith, h.in_file, h.at_cursor, length-page log w.log_file.fpos)

  -- Every page of the longer log but a new one.
  write_bytes-page :
      (k : ℕ)
      → length log % page_size + length bytes ≤ page_size
      → lo ≤ k
      → k ≤ w.log_file.fpos
      → content (write_bytes fs w.log_file bytes) k ≡ some (page (log ++ bytes) k)
  write_bytes-page k room a b =
      rw (content-write_bytes fs w.log_file bytes _ k written_last cursor_end) (
        ground (
          arith,
          h.in_file,
          h.stored k a,
          page-append_full log bytes k,
          page-append_last log bytes k,
        ))

-- One round of the loop appends the bytes that it writes.
write_step-IsAt :
    (fs : Files) (w : WalWriter) (lo : ℕ) (log bytes : List ℕ) (n : ℕ)
    → IsAt (fs, w) lo log
    → n ≤ length bytes
    → length log % page_size + n ≤ page_size
    → IsAt (write_step (fs, w) bytes n) lo (log ++ take n bytes)
unfolding write_step advance
write_step-IsAt fs w lo log bytes n h le room =
    elim (Bool-cases (w.position % page_size + n == page_size)) [
      | inl full ↦ rw full (record {
        stored = λ k a b. rw (content-create (write_bytes fs w.log_file (take n bytes)) _ k) (
            ground (
              arith,
              h.positioned,
              h.in_file,
              len,
              grown,
              write_bytes-page fs w lo log (take n bytes) h k,
              page_end (log ++ take n bytes) k,
            ));
        positioned = omega (arith, h.positioned, len, grown);
        in_file = omega (arith, h.positioned, len, grown);
        at_cursor = ground (arith, h.positioned, len, grown);
        low = omega (arith, h.low, len, grown);
      })
      | inr part ↦ rw part (record {
        stored = λ k a b.
            write_bytes-page fs w lo log (take n bytes) h k (omega (arith, len)) a
              (ground (arith, h.positioned, h.in_file, len, grown));
        positioned = omega (arith, h.positioned, len, grown);
        in_file = ground (arith, h.positioned, h.in_file, len, grown);
        at_cursor = ground (arith, h.positioned, h.at_cursor, len, grown);
        low = omega (arith, h.low, len, grown);
      })
    ]
  where
    len : length (take n bytes) ≡ n
    len = omega (arith, length-take n bytes)

    grown : length (log ++ take n bytes) ≡ length log + n
    grown = omega (arith, length-append log (take n bytes), len)

write_loop-IsAt :
    (fuel : ℕ) (fs : Files) (w : WalWriter) (lo : ℕ) (log bytes : List ℕ)
    → length bytes ≤ fuel
    → IsAt (fs, w) lo log
    → Returns (write_loop fuel (fs, w) bytes) (λ d. IsAt d lo (log ++ bytes))
unfolding write_loop
write_loop-IsAt fuel fs w lo log [] enough h = rw (append-nil log) h
write_loop-IsAt zero fs w lo log (b ∷ bytes) enough h = absurd (omega arith)
write_loop-IsAt (suc fuel) fs w lo log (b ∷ bytes) enough h =
    subst (λ l. Returns (write_loop fuel d (drop n (b ∷ bytes))) (λ e. IsAt e lo l)) joined
      (write_loop-IsAt fuel d.0 d.1 lo (log ++ take n (b ∷ bytes)) (drop n (b ∷ bytes))
        (omega (arith, length-drop n (b ∷ bytes), h.positioned))
        (write_step-IsAt fs w lo log (b ∷ bytes) n h (omega arith) (omega (arith, h.positioned))))
  where
    n : ℕ
    n = write_len w (b ∷ bytes)

    d : Disk
    d = write_step (fs, w) (b ∷ bytes) n

    joined : (log ++ take n (b ∷ bytes)) ++ drop n (b ∷ bytes) ≡ log ++ b ∷ bytes
    joined = rw (append_assoc, take-append-drop)

-- `write_all` returns, and appends its bytes to the log.
pub write_all-IsAt :
    (d : Disk) (lo : ℕ) (log bytes : List ℕ)
    → IsAt d lo log
    → Returns (write_all d bytes) (λ e. IsAt e lo (log ++ bytes))
unfolding write_all
write_all-IsAt d lo log bytes h =
    write_loop-IsAt (length bytes) d.0 d.1 lo log bytes (omega arith) h

-- All queued writes are appended, in order.
pub write_bufs-IsAt :
    (d : Disk) (lo : ℕ) (log : List ℕ) (bufs : List (List ℕ))
    → IsAt d lo log
    → Returns (write_bufs d bufs) (λ e. IsAt e lo (log ++ flatten bufs))
unfolding write_bufs flatten
write_bufs-IsAt d lo log [] h = rw (append-nil log) h
write_bufs-IsAt d lo log (buf ∷ bufs) h = rw (← append_assoc log buf (flatten bufs)) (
    Returns-bind (write_all d buf) (λ d'. write_bufs d' bufs) (λ e. IsAt e lo (log ++ buf))
      (λ e. IsAt e lo ((log ++ buf) ++ flatten bufs)) (write_all-IsAt d lo log buf h)
      (λ d' h'. write_bufs-IsAt d' lo (log ++ buf) bufs h'))

-- A new writer stands at the end of the empty log.
pub new-IsAt : (fs : Files) → IsAt (new fs) 0 []
unfolding new
new-IsAt fs = record {
  stored = λ k a b. rw (content-create fs 0 k) (ground (arith, page_end [] k));
  positioned = refl;
  in_file = refl;
  at_cursor = refl;
  low = omega arith;
}
