-- ===== src/Wal/Queue.antt =====
-- One call of `update_log` of src/wal/writer.rs empties the queue into the log.
use lsm_rs.Prelude.{
  flatten, ℕ, ◌+◌, ◌-◌, ◌/◌, ◌≤◌, ◌<◌, ◌≡◌, refl, ap, subst, sym, ◌∙◌, List, [], ◌++◌, Option, none,
  some, length, arith, length-append, le→leb, Bool-cases, inl, inr,
}
use lsm_rs.Outcome.{ok, Returns, Returns-bind, Returns-imp}
use lsm_rs.Wal.{page_size}
use lsm_rs.Wal.Files.{Files}
use lsm_rs.Wal.Writer.{Disk, write_bufs, set_offset, remove_files}
use lsm_rs.Wal.Pages.{Stored}
use lsm_rs.Wal.Written.{IsAt, write_bufs-IsAt}
use lsm_rs.Wal.Status.{
  LogStatus, Work, offsets, must_sync, sync_disk, sync_status, remove_old, finish, run_work,
}
use lsm_rs.Wal.Tasks.{idle, synced, bytes_in, IsInPhase}
use lsm_rs.Wal.Regions.{Taken, take-IsInPhase, write-IsInPhase, finish-IsInPhase}
use lsm_rs.Wal.Update.{Removed, remove_files-Stored, sync_disk-IsAt}

-- The disk, the status and the log fit together, and no other task is at work.
pub record IsOpen (d : Disk) (st : LogStatus) (log : List ℕ) : Type 0 where
  pub at : IsAt d (st.flush_pos / page_size) log
  pub in_phase : IsInPhase idle d.1.position st
  pub flushed : st.flush_pos ≤ st.offset_pos
  pub within : st.offset_pos ≤ length log

abbrev pub next_flush : Option (ℕ × ℕ) → ℕ → ℕ
next_flush none flush = flush
next_flush (some (new_offset, old)) flush = new_offset

-- What the offsets that were taken say of the flush to come.
abbrev OffsetsRight : Option (ℕ × ℕ) → (offset flush : ℕ) → Type 0
OffsetsRight none offset flush = flush ≡ offset
OffsetsRight (some (new_offset, old)) offset flush =
    (new_offset ≡ offset) × (old ≡ flush) × (flush ≤ offset)

offsets-OffsetsRight :
    (st : LogStatus) (o : Option (ℕ × ℕ))
    → offsets st ≡ ok o
    → OffsetsRight o st.offset_pos st.flush_pos
unfolding offsets
offsets-OffsetsRight st none e = ground arith
offsets-OffsetsRight st (some (new_offset, old)) e = ground arith

next_flush-offset :
    (o : Option (ℕ × ℕ)) (offset flush : ℕ)
    → OffsetsRight o offset flush
    → next_flush o flush ≡ offset
next_flush-offset none offset flush h = h
next_flush-offset (some (new_offset, old)) offset flush h = h.0

-- No file of the pages from `start` up to `end_pos` is left.
abbrev pub Gone : (start end_pos : ℕ) → Files → Type 0
Gone start end_pos fs = (k : ℕ) → start ≤ k → k < end_pos → fs k ≡ none

remove_old-Stored :
    (work : Work) (fs : Files) (log : List ℕ) (offset flush : ℕ)
    → OffsetsRight work.new_offset offset flush
    → offset ≤ length log
    → Stored fs (flush / page_size) log
    → Returns (remove_old work fs) (λ fs'.
      Stored fs' (offset / page_size) log × Gone (flush / page_size) (offset / page_size) fs')
unfolding remove_old set_offset
remove_old-Stored work fs log offset flush h le stored = go work.new_offset h
  where
    go :
        (o : Option (ℕ × ℕ))
        → OffsetsRight o offset flush
        → Returns
            (elim o [
              | none ↦ ok fs
              | some (new_offset, old_offset) ↦ set_offset fs new_offset old_offset
            ])
            (λ fs'.
              Stored fs' (offset / page_size) log
              × Gone (flush / page_size) (offset / page_size) fs')
    go none e = (
      subst (λ o. Stored fs (o / page_size) log) e stored,
      λ k low high. absurd (omega (arith, low, high, e)),
    )
    go (some (new_offset, old)) e =
        rw (e.0, e.1)
          (Returns-imp
            (remove_files (offset / page_size - flush / page_size) (flush / page_size) fs)
            (λ fs'.
              Stored fs' (offset / page_size) log
              × Removed fs fs' (flush / page_size) (offset / page_size))
            _
            (remove_files-Stored (offset / page_size - flush / page_size) (flush / page_size) fs log
              (offset / page_size) (omega arith) (omega arith) stored)
            (λ fs' r. (r.0, r.1.1)))

-- What one call promises: the queue is in the log, the files of the pages between the flush position and
-- the offset are gone, and the status says so.
pub record Updated (st : LogStatus) (log : List ℕ) (d' : Disk) (st' : LogStatus) : Type 0 where
  pub opened : IsOpen d' st' (log ++ flatten st.queue)
  pub emptied : st'.queue ≡ []
  pub written : st'.write_pos ≡ st.queue_pos
  pub removed : Gone (st.flush_pos / page_size) (st.offset_pos / page_size) d'.0
  pub cleaned : st'.flush_pos ≡ st.offset_pos

-- The status after the last region of the writer.
finish_lem :
    (work : Work) (st : LogStatus) (p : ℕ)
    → st.write_pos ≤ p
    → finish work st p
      ≡ ok (record st { write_pos = p; flush_pos = next_flush work.new_offset st.flush_pos })
unfolding finish
finish_lem work st p h =
    rw (le→leb st.write_pos p h)
      (ap (λ f. ok (record st { write_pos = p; flush_pos = f })) (flush work.new_offset))
  where
    flush :
        (o : Option (ℕ × ℕ))
        → (elim o [ none ↦ st.flush_pos | some (new_offset, old) ↦ new_offset ])
          ≡ next_flush o st.flush_pos
    flush none = refl
    flush (some x) = refl

-- The status after a call: the queue is written, and the flush has caught up with the offset.
pub record Finished (st : LogStatus) (p : ℕ) (st' : LogStatus) : Type 0 where
  pub queue : st'.queue ≡ []
  pub write_pos : st'.write_pos ≡ st.queue_pos
  pub flush_pos : st'.flush_pos ≡ st.offset_pos
  pub offset_pos : st'.offset_pos ≡ st.offset_pos
  pub in_phase : IsInPhase idle p st'

sync_status_kept :
    (work : Work) (st : LogStatus) (p : ℕ)
    → ((sync_status work st p).queue ≡ st.queue)
      × ((sync_status work st p).offset_pos ≡ st.offset_pos)
      × ((sync_status work st p).flush_pos ≡ st.flush_pos)
unfolding sync_status
sync_status_kept work st p = elim (Bool-cases (must_sync work p)) [
  | inl e ↦ rw e (refl, refl, refl)
  | inr e ↦ rw e (refl, refl, refl)
]

module _ (d : Disk) (st st1 : LogStatus) (log : List ℕ) (work : Work) (h : IsOpen d st log)
    (t : Taken st d.1.position st1 work) where
  grown : length (log ++ flatten st.queue) ≡ length log + bytes_in st.queue
  grown = length-append log (flatten st.queue)

  -- The writes and the sync of the work.
  work_written : Returns (write_bufs d work.to_write) (λ d1.
      IsAt (sync_disk work d1) (st.flush_pos / page_size) (log ++ flatten st.queue)
      × (d1.1.position ≡ length log + bytes_in st.queue)
      × IsAt d1 (st.flush_pos / page_size) (log ++ flatten st.queue))
  work_written =
      Returns-imp (write_bufs d work.to_write)
        (λ d1. IsAt d1 (st.flush_pos / page_size) (log ++ flatten work.to_write)) _
        (write_bufs-IsAt d (st.flush_pos / page_size) log work.to_write h.at)
        (λ d1 a.
          let a' = subst (λ q. IsAt d1 (st.flush_pos / page_size) (log ++ flatten q)) t.writes a in
          (
            sync_disk-IsAt work d1 (st.flush_pos / page_size) (log ++ flatten st.queue) a',
            omega (arith, a'.positioned, grown),
            a',
          ))

  rights : OffsetsRight work.new_offset st.offset_pos st.flush_pos
  rights = offsets-OffsetsRight st work.new_offset t.offsets_of

  -- The position of the writer is that of the longer log.
  phase_after :
      (p : ℕ)
      → p ≡ length log + bytes_in st.queue
      → IsInPhase (synced work) p (sync_status work st1 p)
  phase_after p e =
      subst (λ q. IsInPhase (synced work) q (sync_status work st1 q)) (the_end ∙ sym e)
        (write-IsInPhase d.1.position st1 work
          (take-IsInPhase d.1.position st st1 work t h.in_phase))
    where
      the_end : d.1.position + bytes_in work.to_write ≡ length log + bytes_in st.queue
      the_end = omega (arith, h.at.positioned, ap bytes_in t.writes)

  -- The status that is left, where the writer is at the end of the longer log.
  work_status :
      (p : ℕ)
      → p ≡ length log + bytes_in st.queue
      → Returns (finish work (sync_status work st1 p) p) (Finished st p)
  work_status p e =
      let s1 = sync_status work st1 p in
      let k = sync_status_kept work st1 p in
      let ph = phase_after p e in
      let done = finish_lem work s1 p ph.0 in
      let flushed : next_flush work.new_offset s1.flush_pos ≡ st.offset_pos =
        ap (next_flush work.new_offset) (k.2 ∙ t.flush_pos)
        ∙ next_flush-offset work.new_offset st.offset_pos st.flush_pos rights in
      let end_pos : p ≡ st.queue_pos = omega (arith, e, h.at.positioned, h.in_phase) in
      subst (λ r. Returns r (Finished st p)) (sym done)
        (record {
          queue = k.0 ∙ t.queue;
          write_pos = end_pos;
          flush_pos = flushed;
          offset_pos = k.1 ∙ t.offset_pos;
          in_phase = finish-IsInPhase p s1 _ work done ph;
        })

  -- The files in front of the offset are removed.
  removed :
      (d1 : Disk)
      → IsAt (sync_disk work d1) (st.flush_pos / page_size) (log ++ flatten st.queue)
      → Returns (remove_old work (sync_disk work d1).0) (λ fs'.
        Stored fs' (st.offset_pos / page_size) (log ++ flatten st.queue)
        × Gone (st.flush_pos / page_size) (st.offset_pos / page_size) fs')
  removed d1 a =
      remove_old-Stored work (sync_disk work d1).0 (log ++ flatten st.queue) st.offset_pos
        st.flush_pos rights (omega (arith, h.within, grown)) a.stored

  -- The writer stands in the longer log, whose first page is now that of the offset.
  moved :
      (d1 : Disk) (fs' : Files)
      → IsAt d1 (st.flush_pos / page_size) (log ++ flatten st.queue)
      → Stored fs' (st.offset_pos / page_size) (log ++ flatten st.queue)
      → IsAt (fs', d1.1) (st.offset_pos / page_size) (log ++ flatten st.queue)
  moved d1 fs' a stored = record {
    stored = stored;
    positioned = a.positioned;
    in_file = a.in_file;
    at_cursor = a.at_cursor;
    low = omega (arith, h.within, grown);
  }

  ends :
      (d1 : Disk) (fs' : Files) (st' : LogStatus)
      → IsAt (fs', d1.1) (st.offset_pos / page_size) (log ++ flatten st.queue)
      → Gone (st.flush_pos / page_size) (st.offset_pos / page_size) fs'
      → Finished st d1.1.position st'
      → Updated st log (fs', d1.1) st'
  ends d1 fs' st' a gone f = record {
    opened = record {
      at =
          subst (λ o. IsAt (fs', d1.1) (o / page_size) (log ++ flatten st.queue)) (sym f.flush_pos)
            a;
      in_phase = f.in_phase;
      flushed = omega (arith, f.flush_pos, f.offset_pos);
      within = omega (arith, f.offset_pos, h.within, grown);
    };
    emptied = f.queue;
    written = f.write_pos;
    removed = gone;
    cleaned = f.flush_pos;
  }

  pub work_Updated : Returns (run_work d st1 work) (λ r. Updated st log r.0 r.1)
  unfolding run_work
  work_Updated = Returns-bind (write_bufs d work.to_write) _ _ _ work_written (λ d1 a.
      Returns-bind (remove_old work (sync_disk work d1).0) _ _ _ (removed d1 a.0) (λ fs' stored.
        Returns-bind (finish work (sync_status work st1 d1.1.position) d1.1.position) _ _ _
          (work_status d1.1.position a.1)
          (λ st' f. ends d1 fs' st' (moved d1 fs' a.2 stored.0) stored.1 f)))
