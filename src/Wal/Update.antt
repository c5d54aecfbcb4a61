-- ===== src/Wal/Update.antt =====
-- `update_log` of src/wal/writer.rs as a whole: it writes what is queued, syncs, and removes the files
-- in front of the offset.
use lsm_rs.Prelude.{
  ℕ, zero, suc, ◌+◌, ◌/◌, ◌≤◌, ◌<◌, ◌≡◌, refl, ap, sym, ◌∙◌, List, Option, none, some, length,
  arith, Bool-cases, Option-cases, inl, inr, ◌==◌, ==_iff, ==_ne,
}
use lsm_rs.Outcome.{Returns, Returns-imp}
use lsm_rs.Wal.{page_size}
use lsm_rs.Wal.Files.{Files, Handle, LogFile, update, sync_data}
use lsm_rs.Wal.Writer.{Disk, sync, remove_files}
use lsm_rs.Wal.Pages.{Stored, page, content, content_of, content-update}
use lsm_rs.Wal.Written.{IsAt}
use lsm_rs.Wal.Status.{Work, sync_disk, must_sync}

missing_file : (fs : Files) (k : ℕ) (c : List ℕ) → fs k ≡ none → content fs k ≡ some c → ⊥
unfolding content
missing_file fs k c h e = ground arith

synced_content :
    (f : Option LogFile)
    → content_of (elim f [ none ↦ none | some g ↦ some (record g { durable = g.content }) ])
      ≡ content_of f
synced_content none = refl
synced_content (some f) = refl

-- The files of the pages from `fpos` up to `end_pos` are gone, and those in front are as before.
abbrev pub Removed : Files → Files → (fpos end_pos : ℕ) → Type 0
Removed fs fs' fpos end_pos =
    ((k : ℕ) → k < fpos → fs' k ≡ fs k) × ((k : ℕ) → fpos ≤ k → k < end_pos → fs' k ≡ none)

Removed-first :
    (fs fs' : Files) (fpos end_pos : ℕ)
    → Removed (update fs fpos none) fs' (fpos + 1) end_pos
    → Removed fs fs' fpos end_pos
Removed-first fs fs' fpos end_pos h = (
  λ k low. h.0 k (omega (arith, low)) ∙ rw (==_ne k fpos (omega (arith, low))) refl,
  λ k low high. elim (Bool-cases (k == fpos)) [
    | inl own ↦ h.0 k (ground (arith, own)) ∙ rw own refl
    | inr other ↦ h.1 k (ground (arith, other, low)) high
  ],
)

-- Removing the files of the pages in front of a position leaves the log from there on.
pub remove_files-Stored :
    (n fpos : ℕ) (fs : Files) (log : List ℕ) (end_pos : ℕ)
    → fpos + n ≡ end_pos
    → end_pos ≤ length log / page_size
    → Stored fs fpos log
    → Returns (remove_files n fpos fs) (λ fs'. Stored fs' end_pos log × Removed fs fs' fpos end_pos)
unfolding remove_files
remove_files-Stored zero fpos fs log end_pos e le stored = (
  λ k a b. stored k (omega arith) b,
  (λ k low. refl, λ k low high. absurd (omega (arith, low, high, e))),
)
remove_files-Stored (suc n) fpos fs log end_pos e le stored = elim (Option-cases (fs fpos)) [
  | inl h ↦
      absurd (missing_file fs fpos (page log fpos) h (stored fpos (omega arith) (omega arith)))
  | inr (f, h) ↦
      rw (h, remove_files)
        (Returns-imp (remove_files n (fpos + 1) (update fs fpos none))
          (λ fs'. Stored fs' end_pos log × Removed (update fs fpos none) fs' (fpos + 1) end_pos)
          (λ fs'. Stored fs' end_pos log × Removed fs fs' fpos end_pos)
          (remove_files-Stored n (fpos + 1) (update fs fpos none) log end_pos (omega arith) le
            (λ k a b.
              rw (content-update fs fpos k none, ==_ne k fpos (omega arith))
                (stored k (omega arith) b)))
          (λ fs' r. (r.0, Removed-first fs fs' fpos end_pos r.1)))
]

-- A sync changes no content.
sync-content : (fs : Files) (h : Handle) (k : ℕ) → content (sync_data fs h) k ≡ content fs k
unfolding sync_data content
sync-content fs h k = rw (content-update fs h.fpos k _) (elim (Bool-cases (k == h.fpos)) [
  | inl own ↦ rw (own, synced_content (fs h.fpos)) (ap (content fs) (sym ((==_iff k h.fpos).0 own)))
  | inr other ↦ rw other
])

pub sync_disk-IsAt :
    (work : Work) (d : Disk) (lo : ℕ) (log : List ℕ)
    → IsAt d lo log
    → IsAt (sync_disk work d) lo log
unfolding sync_disk sync
sync_disk-IsAt work d lo log h = elim (Bool-cases (must_sync work d.1.position)) [
  | inl e ↦ rw e (record {
    stored = λ k a b. sync-content d.0 d.1.log_file k ∙ h.stored k a b;
    positioned = h.positioned;
    in_file = h.in_file;
    at_cursor = h.at_cursor;
    low = h.low;
  })
  | inr e ↦ rw e h
]

pub sync_disk-writer : (work : Work) (d : Disk) → (sync_disk work d).1 ≡ d.1
unfolding sync_disk sync
sync_disk-writer work d = elim (Bool-cases (must_sync work d.1.position)) [
  | inl e ↦ rw e
  | inr e ↦ rw e
]
