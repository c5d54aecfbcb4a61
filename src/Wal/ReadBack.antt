-- ===== src/Wal/ReadBack.antt =====
-- `WalReader::read_from_log` of src/wal/reader.rs reads the bytes of the log, across page boundaries.
use lsm_rs.Prelude.{
  ℕ, zero, suc, ◌+◌, ◌-◌, ◌*◌, ◌/◌, ◌%◌, ◌≤◌, ◌<◌, min, ◌≡◌, refl, List, ◌++◌, some, Bool, true,
  length, take, drop, length-take, length-drop, drop-drop, take-drop-take, take-append-take,
  append_assoc, append-nil, ◌==◌, lt→ltb, le→ltb, arith, Bool-cases, inl, inr,
}
use native.Mathlib.Nat.{add-zero}
use lsm_rs.Outcome.{ok}
use lsm_rs.Wal.{page_size}
use lsm_rs.Wal.Files.{Files}
use lsm_rs.Wal.Reader.{WalReader, loaded, load, again, move, round, read_loop}
use lsm_rs.Wal.Pages.{page, content, Stored, length-page}

-- The reader at a position of the log: the page of the position is loaded.
abbrev pub reader_at : List ℕ → ℕ → WalReader
reader_at log p = record { position = p; current_page = page log (p / page_size) }

-- How many bytes one round copies.
abbrev pub chunk : List ℕ → ℕ → ℕ → ℕ
chunk log p n = min n (length (page log (p / page_size)) - p % page_size)

pub load-content : (fs : Files) (k : ℕ) (c : List ℕ) → content fs k ≡ some c → load fs k ≡ loaded c
unfolding load content
load-content fs k c e = ground arith

chunk_bounds :
    (log : List ℕ) (p n : ℕ)
    → 0 < n
    → p + n ≤ length log
    → (0 < chunk log p n) × (chunk log p n ≤ n) × (p % page_size + chunk log p n ≤ page_size)
chunk_bounds log p n pos h = omega (arith, length-page log (p / page_size))

-- A slice of the page is a slice of the log.
page_slice :
    (log : List ℕ) (p n : ℕ)
    → p % page_size + n ≤ page_size
    → take n (drop (p % page_size) (page log (p / page_size))) ≡ take n (drop p log)
unfolding page
page_slice log p n h = rw (
  take-drop-take n (p % page_size) page_size (drop (p / page_size * page_size) log) h,
  drop-drop (p / page_size * page_size) (p % page_size) p log (omega arith),
)

module _ (fs : Files) (lo : ℕ) (log : List ℕ) (stored : Stored fs lo log) where
  -- The end of a round: the reader stands at the new position, with its page.
  move_lem :
      (maybe : Bool) (p n : ℕ) (bytes : List ℕ)
      → lo ≤ p / page_size
      → 0 < n
      → p % page_size + n ≤ page_size
      → p + n ≤ length log
      → move fs maybe bytes (record { position = p + n; current_page = page log (p / page_size) })
        ≡ ok (again bytes (reader_at log (p + n)))
  unfolding move
  move_lem maybe p n bytes low pos room h = elim (Bool-cases ((p + n) % page_size == 0)) [
    | inl edge ↦ rw (
      edge,
      load-content fs ((p + n) / page_size) (page log ((p + n) / page_size))
          (stored ((p + n) / page_size) (omega arith) (omega arith)),
    )
    | inr inside ↦
        let same : p / page_size ≡ (p + n) / page_size = ground arith in rw (inside, same)
  ]

  round_lem :
      (maybe : Bool) (p n : ℕ)
      → lo ≤ p / page_size
      → 0 < n
      → p + n ≤ length log
      → round fs maybe (reader_at log p) n
        ≡ ok (again (take (chunk log p n) (drop p log)) (reader_at log (p + chunk log p n)))
  unfolding round
  round_lem maybe p n low pos h =
      let b = chunk_bounds log p n pos h in
      rw
        (
          le→ltb (length (page log (p / page_size))) (p % page_size)
              (omega (arith, length-page log (p / page_size))),
          lt→ltb 0 (chunk log p n) b.0,
          page_slice log p (chunk log p n) b.2,
        )
        (move_lem maybe p (chunk log p n) _ low b.0 b.2 (omega (arith, b.1)))

  -- A buffer that the log can fill is filled with the bytes at the position.
  pub read_loop_lem :
      (fuel : ℕ) (maybe : Bool) (p n : ℕ) (out : List ℕ)
      → n ≤ fuel
      → lo ≤ p / page_size
      → p + n ≤ length log
      → read_loop fuel fs maybe (reader_at log p) n out
        ≡ ok (true, out ++ take n (drop p log), reader_at log (p + n))
  unfolding read_loop
  read_loop_lem fuel maybe p zero out enough low h = rw (append-nil, add-zero p)
  read_loop_lem zero maybe p (suc n) out enough low h = absurd (omega arith)
  read_loop_lem (suc fuel) maybe p (suc n) out enough low h =
      let c = chunk log p (suc n) in
      let b = chunk_bounds log p (suc n) (omega arith) h in
      let copied : length (take c (drop p log)) ≡ c =
        omega (arith, length-take c (drop p log), length-drop p log, b.1) in
      let joined : take c (drop p log) ++ take (suc n - c) (drop c (drop p log))
          ≡ take (suc n) (drop p log) =
        take-append-take c (suc n - c) (suc n) (drop p log) (omega (arith, b.1)) in
      let cut : drop c (drop p log) ≡ drop (p + c) log = drop-drop p c (p + c) log refl in
      let there : p + c + (suc n - c) ≡ p + suc n = omega (arith, b.1) in
      rw (round_lem maybe p (suc n) low (omega arith) h, read_loop, copied)
        (rw (
          read_loop_lem fuel maybe (p + c) (suc n - c) (out ++ take c (drop p log))
              (omega (arith, b.0)) (omega arith) (omega (arith, b.1)),
          there,
          ← cut,
          append_assoc,
          joined,
        ))
