-- ===== src/Wal/End.antt =====
-- What the reader of src/wal/reader.rs does at the end of the log: it stops inside a page, and loops
-- for ever at a page boundary.
use lsm_rs.Prelude.{
  ℕ, zero, suc, ◌-◌, ◌/◌, ◌%◌, ◌≤◌, min, ◌≡◌, refl, List, [], ◌∷◌, Bool, true, false, length,
  append-nil, lt→ltb, ==_ne, le→ltb, arith, ◌≢◌,
}
use native.Mathlib.Nat.{sub-zero}
use lsm_rs.Outcome.{ok, diverged}
use lsm_rs.Wal.{page_size}
use lsm_rs.Wal.Files.{Files}
use lsm_rs.Wal.Reader.{again, finished, move, round, read_loop, read_from_log}
use lsm_rs.Wal.Pages.{Stored, page, length-page}
use lsm_rs.Wal.ReadBack.{reader_at, load-content}

module _ (fs : Files) (lo : ℕ) (log : List ℕ) (stored : Stored fs lo log)
    (low : lo ≤ length log / page_size) where
  full_page : length (page log (length log / page_size)) ≡ length log % page_size
  full_page = omega (arith, length-page log (length log / page_size))

  end_round :
      (maybe : Bool) (n : ℕ)
      → length log % page_size ≢ 0
      → round fs maybe (reader_at log (length log)) n
        ≡ ok (finished false [] (reader_at log (length log)))
  unfolding round
  end_round maybe n inside =
      let empty : min n (length log % page_size - length log % page_size) ≡ 0 = omega arith in
      rw (
        full_page,
        le→ltb (length log % page_size) (length log % page_size) (omega arith),
        empty,
        (==_ne (length log % page_size) 0 inside),
        lt→ltb (length log % page_size) page_size (omega arith),
      )

  -- Inside a page the reader is done, and reports that no entry follows.
  pub read_end :
      (fuel : ℕ)
      → length log % page_size ≢ 0
      → read_from_log (suc fuel) fs (reader_at log (length log)) 1 true
        ≡ ok (false, 0 ∷ [], reader_at log (length log))
  unfolding read_from_log read_loop
  read_end fuel inside = rw (end_round true 1 inside, read_loop)

  -- At a page boundary the round loads the same empty file again.
  edge_round :
      (maybe : Bool) (n : ℕ)
      → length log % page_size ≡ 0
      → round fs maybe (reader_at log (length log)) n ≡ ok (again [] (reader_at log (length log)))
  unfolding round move
  edge_round maybe n edge =
      let empty : min n 0 ≡ 0 = omega arith in
      rw (
        full_page,
        edge,
        empty,
        load-content fs (length log / page_size) (page log (length log / page_size))
            (stored (length log / page_size) low (omega arith)),
      )

  pub read_diverges :
      (fuel n : ℕ) (maybe : Bool) (out : List ℕ)
      → length log % page_size ≡ 0
      → read_loop fuel fs maybe (reader_at log (length log)) (suc n) out ≡ diverged
  unfolding read_loop
  read_diverges zero n maybe out edge = refl
  read_diverges (suc fuel) n maybe out edge =
      rw (edge_round maybe (suc n) edge, read_loop, append-nil, sub-zero (suc n))
        (read_diverges fuel n maybe out edge)
