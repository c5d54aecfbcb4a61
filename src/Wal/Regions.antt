-- ===== src/Wal/Regions.antt =====
-- Each region of src/wal/ that holds the lock keeps the order of the positions.
use lsm_rs.Prelude.{
  leb, flatten, ℕ, ◌+◌, ◌≤◌, ◌≡◌, refl, ap, List, [], ◌++◌, Option, none, some, length,
  length-append, map, arith, Bool-cases, inl, inr,
}
use lsm_rs.Outcome.{ok, assert, ◌>>◌}
use lsm_rs.WriteBatch.Op.{WriteOp}
use lsm_rs.Wal.{encode}
use lsm_rs.Wal.Status.{
  LogStatus, Work, store, request_sync, request_offset, request_stop, offsets, take, take_work,
  must_sync, sync_status, finish,
}
use lsm_rs.Wal.Tasks.{
  Phase, idle, writing, synced, bytes_in, OffsetTaken, IsInPhase, flatten-append, push_writes_lem,
}

pub bytes_in-append : (xs ys : List (List ℕ)) → bytes_in (xs ++ ys) ≡ bytes_in xs + bytes_in ys
bytes_in-append xs ys =
    omega (arith, ap length (flatten-append xs ys), length-append (flatten xs) (flatten ys))

pub store-IsInPhase :
    (ph : Phase) (p : ℕ) (st : LogStatus) (batch : List WriteOp)
    → IsInPhase ph p st
    → IsInPhase ph p (store st batch).0
unfolding store
store-IsInPhase idle p st batch h =
    rw (push_writes_lem st st.queue_pos (map encode batch))
      (omega (arith, bytes_in-append st.queue (map encode batch)))
store-IsInPhase (writing work) p st batch h =
    rw (push_writes_lem st st.queue_pos (map encode batch))
      ((omega arith, omega (arith, bytes_in-append st.queue (map encode batch)), omega arith, h.3))
store-IsInPhase (synced work) p st batch h =
    rw (push_writes_lem st st.queue_pos (map encode batch))
      ((omega arith, omega (arith, bytes_in-append st.queue (map encode batch)), omega arith, h.3))

pub store-offsets :
    (st : LogStatus) (batch : List WriteOp)
    → ((store st batch).0.flush_pos ≡ st.flush_pos)
      × ((store st batch).0.offset_pos ≡ st.offset_pos)
unfolding store
store-offsets st batch = rw (push_writes_lem st st.queue_pos (map encode batch)) (refl, refl)

-- Requests move no position but the offset, which grows.
pub request_sync-IsInPhase :
    (ph : Phase) (p : ℕ) (st st' : LogStatus) (last : Option ℕ)
    → request_sync st ≡ ok (st', last)
    → IsInPhase ph p st
    → IsInPhase ph p st'
unfolding request_sync
request_sync-IsInPhase idle p st st' last e h = ground arith
request_sync-IsInPhase (writing work) p st st' last e h = ground arith
request_sync-IsInPhase (synced work) p st st' last e h = ground arith

pub OffsetTaken-grow :
    (o : Option (ℕ × ℕ)) (a b f : ℕ) → a ≤ b → OffsetTaken o a f → OffsetTaken o b f
OffsetTaken-grow none a b f le h = tt
OffsetTaken-grow (some (offset, old)) a b f le h = omega arith

pub request_offset-IsInPhase :
    (ph : Phase) (p : ℕ) (st st' : LogStatus) (offset : ℕ)
    → request_offset st offset ≡ ok st'
    → IsInPhase ph p st
    → IsInPhase ph p st'
unfolding request_offset
request_offset-IsInPhase idle p st st' offset e h = ground arith
request_offset-IsInPhase (writing work) p st st' offset e h =
    ground (arith, OffsetTaken-grow work.new_offset st.offset_pos st'.offset_pos st.flush_pos)
request_offset-IsInPhase (synced work) p st st' offset e h =
    ground (arith, OffsetTaken-grow work.new_offset st.offset_pos st'.offset_pos st.flush_pos)

-- What the writer takes is in order.
pub offsets-OffsetTaken :
    (st : LogStatus) (o : Option (ℕ × ℕ))
    → offsets st ≡ ok o
    → OffsetTaken o st.offset_pos st.flush_pos
unfolding offsets
offsets-OffsetTaken st none e = tt
offsets-OffsetTaken st (some (offset, old)) e = ground arith

pub record Taken (st : LogStatus) (p : ℕ) (st' : LogStatus) (work : Work) : Type 0 where
  pub offsets_of : offsets st ≡ ok work.new_offset
  pub writes : work.to_write ≡ st.queue
  pub sync_flag : work.sync_flag ≡ st.sync_flag
  pub sync_from : work.sync_pos ≡ st.sync_pos
  pub queue : st'.queue ≡ []
  pub queue_pos : st'.queue_pos ≡ st.queue_pos
  pub write_pos : st'.write_pos ≡ st.write_pos
  pub sync_pos : st'.sync_pos ≡ st.sync_pos
  pub offset_pos : st'.offset_pos ≡ st.offset_pos
  pub flush_pos : st'.flush_pos ≡ st.flush_pos

pub take-Taken :
    (p : ℕ) (st st' : LogStatus) (work : Work)
    → take st p ≡ ok (st', some work)
    → Taken st p st' work
unfolding take take_work
take-Taken p st st' work e = ground arith

pub take-IsInPhase :
    (p : ℕ) (st st' : LogStatus) (work : Work)
    → Taken st p st' work
    → IsInPhase idle p st
    → IsInPhase (writing work) p st'
unfolding flatten
take-IsInPhase p st st' work t h =
    let moved : OffsetTaken work.new_offset st'.offset_pos st'.flush_pos =
      rw (t.offset_pos, t.flush_pos) (offsets-OffsetTaken st work.new_offset t.offsets_of) in
    (ground arith, ground arith, ground arith, moved)

pub wait-IsInPhase :
    (p : ℕ) (st st' : LogStatus)
    → take st p ≡ ok (st', none)
    → IsInPhase idle p st
    → IsInPhase idle p st'
unfolding take take_work offsets flatten
wait-IsInPhase p st st' e h = ground arith

pub write-IsInPhase :
    (p : ℕ) (st : LogStatus) (work : Work)
    → IsInPhase (writing work) p st
    → IsInPhase
        (synced work)
        (p + bytes_in work.to_write)
        (sync_status work st (p + bytes_in work.to_write))
unfolding sync_status
write-IsInPhase p st work h = elim (Bool-cases (must_sync work (p + bytes_in work.to_write))) [
  | inl e ↦ rw e (omega arith, omega arith, omega arith, h.3)
  | inr e ↦ rw e (omega arith, omega arith, omega arith, h.3)
]

pub sync_status-offsets :
    (work : Work) (st : LogStatus) (p : ℕ)
    → ((sync_status work st p).flush_pos ≡ st.flush_pos)
      × ((sync_status work st p).offset_pos ≡ st.offset_pos)
unfolding sync_status
sync_status-offsets work st p = ground arith

pub finish-IsInPhase :
    (p : ℕ) (st st' : LogStatus) (work : Work)
    → finish work st p ≡ ok st'
    → IsInPhase (synced work) p st
    → IsInPhase idle p st'
unfolding finish
finish-IsInPhase p st st' work e h = ground arith

pub finish_flushed :
    (p : ℕ) (st st' : LogStatus) (work : Work)
    → finish work st p ≡ ok st'
    → st.flush_pos ≤ st.offset_pos
    → OffsetTaken work.new_offset st.offset_pos st.flush_pos
    → st'.flush_pos ≤ st'.offset_pos
unfolding finish
finish_flushed p st st' work e f o = go work.new_offset o e
  where
    go :
        (n : Option (ℕ × ℕ))
        → OffsetTaken n st.offset_pos st.flush_pos
        → (assert (leb st.write_pos p)
            >> ok (record st {
              write_pos = p;
              flush_pos = elim n [ none ↦ st.flush_pos | some (new_offset, old) ↦ new_offset ];
            }))
          ≡ ok st'
        → st'.flush_pos ≤ st'.offset_pos
    go none o e = ground arith
    go (some (offset, old)) o e = ground arith

pub request_flushed :
    (st st' : LogStatus) (offset : ℕ)
    → request_offset st offset ≡ ok st'
    → st.flush_pos ≤ st.offset_pos
    → st'.flush_pos ≤ st'.offset_pos
unfolding request_offset
request_flushed st st' offset e h = ground arith

pub request_sync_flushed :
    (st st' : LogStatus) (last : Option ℕ)
    → request_sync st ≡ ok (st', last)
    → st.flush_pos ≤ st.offset_pos
    → st'.flush_pos ≤ st'.offset_pos
unfolding request_sync
request_sync_flushed st st' last e h = ground arith

pub wait_flushed :
    (p : ℕ) (st st' : LogStatus)
    → take st p ≡ ok (st', none)
    → st.flush_pos ≤ st.offset_pos
    → st'.flush_pos ≤ st'.offset_pos
unfolding take take_work offsets
wait_flushed p st st' e h = ground arith

pub stop-IsInPhase :
    (ph : Phase) (p : ℕ) (st : LogStatus) → IsInPhase ph p st → IsInPhase ph p (request_stop st)
unfolding request_stop
stop-IsInPhase idle p st h = h
stop-IsInPhase (writing work) p st h = h
stop-IsInPhase (synced work) p st h = h

pub stop_flushed :
    (st : LogStatus)
    → st.flush_pos ≤ st.offset_pos
    → (request_stop st).flush_pos ≤ (request_stop st).offset_pos
unfolding request_stop
stop_flushed st h = h
