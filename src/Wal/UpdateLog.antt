-- ===== src/Wal/UpdateLog.antt =====
-- `update_log` of src/wal/writer.rs, where nothing runs in between: the wait and the work.
use lsm_rs.Prelude.{
  flatten, ◌∷◌, ℕ, ◌/◌, ◌≤◌, ◌≡◌, refl, ap, subst, sym, ◌∙◌, List, [], ◌++◌, Option, none, some,
  true, arith, append-nil,
}
use lsm_rs.Outcome.{ok, Returns, Returns-self}
use lsm_rs.Wal.{page_size}
use lsm_rs.Wal.Writer.{Disk}
use lsm_rs.Wal.Written.{IsAt}
use lsm_rs.Wal.Status.{LogStatus, Work, take, offsets, update_log, is_empty, take_work}
use lsm_rs.Wal.Positions.{take_returns}
use lsm_rs.Wal.Regions.{wait-IsInPhase, take-Taken}
use lsm_rs.Wal.Queue.{IsOpen, Updated, work_Updated}

empty_queue : (queue : List (List ℕ)) → is_empty queue ≡ true → queue ≡ []
empty_queue [] e = refl
empty_queue (b ∷ bs) e = cc

-- Where the writer would wait, there is nothing to write and nothing to remove.
waits :
    (p : ℕ) (st st' : LogStatus)
    → take st p ≡ ok (st', none)
    → (is_empty st.queue ≡ true)
      × (st.offset_pos ≤ st.flush_pos)
      × (st.write_pos ≡ st.queue_pos)
      × (st'.queue ≡ [])
      × (st'.write_pos ≡ st.write_pos)
      × (st'.offset_pos ≡ st.offset_pos)
      × (st'.flush_pos ≡ st.flush_pos)
unfolding take take_work offsets
waits p st st' e = (
  ground arith,
  ground arith,
  ground arith,
  ground arith,
  ground arith,
  ground arith,
  ground arith,
)

wait_Updated :
    (d : Disk) (st st1 : LogStatus) (log : List ℕ)
    → IsOpen d st log
    → take st d.1.position ≡ ok (st1, none)
    → Updated st log d st1
unfolding flatten
wait_Updated d st st1 log h e =
    let w = waits d.1.position st st1 e in
    let ph = wait-IsInPhase d.1.position st st1 e h.in_phase in
    let same : log ≡ log ++ flatten st.queue =
      sym (append-nil log) ∙ ap (λ q. log ++ flatten q) (sym (empty_queue st.queue w.0)) in
    record {
      opened = subst (IsOpen d st1) same (record {
        at = subst (λ o. IsAt d (o / page_size) log) (sym w.6) h.at;
        in_phase = ph;
        flushed = omega (arith, w, h.flushed);
        within = omega (arith, w, h.within);
      });
      emptied = w.3;
      written = w.4 ∙ w.2;
      removed = λ k low high. absurd (omega (arith, w, low, high));
      cleaned = omega (arith, w, h.flushed);
    }

-- From a disk, a status and a log that fit together, one turn of `update_log` returns. The queue is
-- then empty and at the end of the log, the write position is the queue position, the flush position is
-- the requested offset, no file is left of the pages from the old flush position up to that offset, and
-- disk, status and the longer log fit together again.
pub update_log-Updated :
    (d : Disk) (st : LogStatus) (log : List ℕ)
    → IsOpen d st log
    → Returns (update_log d st) (λ r. Updated st log r.0 r.1)
unfolding update_log
update_log-Updated d st log h =
    let taken =
      Returns-self (take st d.1.position) (λ r. Unit)
        (take_returns d.1.position st h.flushed h.in_phase) in
    go taken.0.0 taken.0.1 taken.1
  where
    go :
        (st1 : LogStatus) (o : Option Work)
        → take st d.1.position ≡ ok (st1, o)
        → Returns (update_log d st) (λ r. Updated st log r.0 r.1)
    go st1 none e = rw e (wait_Updated d st st1 log h e)
    go st1 (some work) e =
        rw e (work_Updated d st st1 log work h (take-Taken d.1.position st st1 work e))
