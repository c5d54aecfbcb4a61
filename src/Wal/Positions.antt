-- ===== src/Wal/Positions.antt =====
-- What the invariant of the shared log state of src/wal/ gives: the order of the positions, the
-- asserts of the writer task, and the assert of `sync`.
use lsm_rs.Prelude.{
  ℕ, ◌+◌, ◌≤◌, ◌<◌, ◌≡◌, refl, List, [], Option, some, true, arith, ltb, subst, le→leb, ==_self,
  ==_ne, lt→ltb, le→ltb, ap, ◌∙◌, flatten, ◌∷◌, Bool-cases, inl, inr,
}
use lsm_rs.Outcome.{ok, panicked, Returns, Returns-bind}
use lsm_rs.Wal.Status.{
  LogStatus, Work, request_sync, offsets, take, take_work, has_work, is_empty, must_sync,
  sync_status, finish,
}
use lsm_rs.Wal.Tasks.{
  Phase, idle, writing, synced, Sys, bytes_in, take_step, write_step, Reach, here, next, initial,
  IsInPhase, IsSafe,
}
use lsm_rs.Wal.Regions.{Taken, take-Taken}
use lsm_rs.Wal.Safety.{initial-IsSafe, Step-IsSafe}

Reach-IsSafe : {s t : Sys} → IsSafe s → Reach s t → IsSafe t
Reach-IsSafe h here = h
Reach-IsSafe h (next r st) = Step-IsSafe st (Reach-IsSafe h r)

order_in_phase :
    (ph : Phase) (p : ℕ) (st : LogStatus)
    → IsInPhase ph p st
    → (st.write_pos ≤ st.queue_pos) × (st.sync_pos ≤ st.queue_pos)
order_in_phase idle p st h = omega arith
order_in_phase (writing work) p st h = omega arith
order_in_phase (synced work) p st h = omega arith

-- In every state that the tasks can reach from a log that was opened, in any interleaving, the write
-- and the sync position are at most the queue position, and the flush position is at most the offset.
pub Reach_ordered :
    (position start : ℕ) (s : Sys)
    → Reach (initial position start) s
    → (s.status.write_pos ≤ s.status.queue_pos)
      × (s.status.sync_pos ≤ s.status.queue_pos)
      × (s.status.flush_pos ≤ s.status.offset_pos)
Reach_ordered position start s r =
    let h = Reach-IsSafe (initial-IsSafe position start) r in
    let o = order_in_phase s.phase s.position s.status h.in_phase in (o.0, o.1, h.flushed)

offsets_returns : (st : LogStatus) → st.flush_pos ≤ st.offset_pos → Returns (offsets st) (λ o. Unit)
unfolding offsets
offsets_returns st f = elim (Bool-cases (ltb st.flush_pos st.offset_pos)) [
  | inl lag ↦ rw lag tt
  | inr level ↦
      let same : st.offset_pos ≡ st.flush_pos = ground arith in
      rw (level, same, ==_self st.flush_pos) tt
]

no_bytes : (queue : List (List ℕ)) → is_empty queue ≡ true → bytes_in queue ≡ 0
unfolding flatten
no_bytes [] e = refl
no_bytes (b ∷ bs) e = cc

take_work_returns :
    (p : ℕ) (st : LogStatus) (o : Option (ℕ × ℕ))
    → IsInPhase idle p st
    → Returns (take_work st p o) (λ r. Unit)
unfolding take_work
take_work_returns p st o h = elim (Bool-cases (has_work st o)) [
  | inl work ↦ rw (work, h.0, ==_self st.write_pos) tt
  | inr rest ↦
      let empty : is_empty st.queue ≡ true = ground arith in
      let level : st.queue_pos ≡ st.write_pos = omega (arith, no_bytes st.queue empty, h.1) in
      rw (rest, level, ==_self st.write_pos) tt
]

pub take_returns :
    (p : ℕ) (st : LogStatus)
    → st.flush_pos ≤ st.offset_pos
    → IsInPhase idle p st
    → Returns (take st p) (λ r. Unit)
unfolding take
take_returns p st f h =
    Returns-bind (offsets st) (take_work st p) (λ o. Unit) (λ r. Unit) (offsets_returns st f)
      (λ o u. take_work_returns p st o h)

pub finish_returns :
    (p : ℕ) (st : LogStatus) (work : Work)
    → IsInPhase (synced work) p st
    → Returns (finish work st p) (λ r. Unit)
unfolding finish
finish_returns p st work h = rw (le→leb st.write_pos p h.0) tt

-- The regions of the writer, in the phase in which it enters them.
abbrev pub WriterReturns : Phase → ℕ → LogStatus → Type 0
WriterReturns idle p st = Returns (take st p) (λ r. Unit)
WriterReturns (writing work) p st = Unit
WriterReturns (synced work) p st = Returns (finish work st p) (λ r. Unit)

writer_in_phase :
    (ph : Phase) (p : ℕ) (st : LogStatus)
    → st.flush_pos ≤ st.offset_pos
    → IsInPhase ph p st
    → WriterReturns ph p st
writer_in_phase idle p st f h = take_returns p st f h
writer_in_phase (writing work) p st f h = tt
writer_in_phase (synced work) p st f h = finish_returns p st work h

-- In every state that the tasks can reach, in any interleaving, no assert of the writer task fails
-- in the regions of `update_log` that hold the lock: neither where it takes the queue nor where it reports what is written.
pub Reach-WriterReturns :
    (position start : ℕ) (s : Sys)
    → Reach (initial position start) s
    → WriterReturns s.phase s.position s.status
Reach-WriterReturns position start s r =
    let h = Reach-IsSafe (initial-IsSafe position start) r in
    writer_in_phase s.phase s.position s.status h.flushed h.in_phase

-- Once the writer has published its sync and before it reports its writes, the sync position is past
-- the write position, and the assert of `sync` fails.
raced :
    (p : ℕ) (st st' : LogStatus) (work : Work)
    → Taken st p st' work
    → IsInPhase idle p st
    → st.sync_flag ≡ true
    → 0 < bytes_in st.queue
    → request_sync (sync_status work st' (p + bytes_in work.to_write)) ≡ panicked
unfolding request_sync sync_status must_sync
raced p st st' work t h flag bytes =
    let more : work.sync_pos < p + bytes_in work.to_write =
      omega (arith, t.sync_from, ap bytes_in t.writes) in
    let on : work.sync_flag ≡ true = t.sync_flag ∙ flag in
    let past : st'.write_pos < p + bytes_in work.to_write =
      omega (arith, t.write_pos, ap bytes_in t.writes) in
    rw (
      on,
      lt→ltb work.sync_pos (p + bytes_in work.to_write) more,
      ==_ne (p + bytes_in work.to_write) st'.write_pos (omega arith),
      le→ltb (p + bytes_in work.to_write) st'.write_pos (omega arith),
    )

-- Wherever the writer takes a queue that holds bytes together with a request to sync, the tasks can
-- reach a state in which another call of `sync` panics. The state before is one that they can reach.
pub sync_panics :
    (position start : ℕ) (s : Sys) (st : LogStatus) (work : Work)
    → Reach (initial position start) s
    → s.phase ≡ idle
    → s.status.sync_flag ≡ true
    → 0 < bytes_in s.status.queue
    → take s.status s.position ≡ ok (st, some work)
    → (u : Sys) × Reach (initial position start) u × (request_sync u.status ≡ panicked)
sync_panics position start s st work r i flag bytes e =
    let h = Reach-IsSafe (initial-IsSafe position start) r in
    let now = subst (λ ph. IsInPhase ph s.position s.status) i h.in_phase in
    (
      record {
        status = sync_status work st (s.position + bytes_in work.to_write);
        position = s.position + bytes_in work.to_write;
        phase = synced work;
      },
      next (next r (take_step st work i e)) (write_step work refl),
      raced s.position s.status st work (take-Taken s.position s.status st work e) now flag bytes,
    )
