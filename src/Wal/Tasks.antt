-- ===== src/Wal/Tasks.antt =====
-- The callers of the log and its writer task as interleaved steps: each step is one region of
-- src/wal/mod.rs or src/wal/writer.rs that holds the lock. What the writer does to its files between
-- the regions is in Wal/Written; here it moves the writer's position.
use lsm_rs.Prelude.{
  flatten, ℕ, ◌+◌, ◌≤◌, ◌≡◌, refl, List, [], ◌∷◌, ◌++◌, append-nil, append_assoc, Option, none,
  some, length, length-append,
}
use native.Mathlib.Nat.{add-zero, add_assoc}
use lsm_rs.Outcome.{ok}
use lsm_rs.WriteBatch.Op.{WriteOp}
use lsm_rs.Wal.Status.{
  LogStatus, Work, new, store, push_writes, request_sync, request_offset, request_stop, take,
  sync_status, finish,
}

pub data Phase : Type 0 where
  idle : Phase
  writing : Work → Phase
  synced : Work → Phase

pub record Sys : Type 0 where
  pub status : LogStatus
  pub position : ℕ
  pub phase : Phase

abbrev pub bytes_in : List (List ℕ) → ℕ
bytes_in bufs = length (flatten bufs)

-- The steps of the callers can be taken at any time, those of the writer in turn. An offset is set
-- after the write that ends there is done.
pub data Step (s : Sys) : Sys → Type 0 where
  store_step : (batch : List WriteOp) → Step s (record s { status = (store s.status batch).0 })
  sync_step :
      (st : LogStatus) (last : Option ℕ)
      → request_sync s.status ≡ ok (st, last)
      → Step s (record s { status = st })
  offset_step :
      (st : LogStatus) (offset : ℕ)
      → offset ≤ s.status.write_pos
      → request_offset s.status offset ≡ ok st
      → Step s (record s { status = st })
  stop_step : Step s (record s { status = request_stop s.status })
  wait_step :
      (st : LogStatus)
      → s.phase ≡ idle
      → take s.status s.position ≡ ok (st, none)
      → Step s (record s { status = st })
  take_step :
      (st : LogStatus) (work : Work)
      → s.phase ≡ idle
      → take s.status s.position ≡ ok (st, some work)
      → Step s (record s { status = st; phase = writing work })
  write_step :
      (work : Work)
      → s.phase ≡ writing work
      → Step s (record {
        status = sync_status work s.status (s.position + bytes_in work.to_write);
        position = s.position + bytes_in work.to_write;
        phase = synced work;
      })
  finish_step :
      (st : LogStatus) (work : Work)
      → s.phase ≡ synced work
      → finish work s.status s.position ≡ ok st
      → Step s (record s { status = st; phase = idle })

pub data Reach (s : Sys) : Sys → Type 0 where
  here : Reach s s
  next : {t u : Sys} → Reach s t → Step t u → Reach s u

-- A log that was just opened or made.
abbrev pub initial : ℕ → ℕ → Sys
initial position start = record { status = new position start; position = position; phase = idle }

-- The offsets that the writer took are behind those of the status.
abbrev pub OffsetTaken : Option (ℕ × ℕ) → (offset_pos flush_pos : ℕ) → Type 0
OffsetTaken none offset_pos flush_pos = Unit
OffsetTaken (some (offset, old)) offset_pos flush_pos = (offset ≤ offset_pos) × (old ≡ flush_pos)

-- How the positions relate, by what the writer is at.
abbrev pub IsInPhase : Phase → ℕ → LogStatus → Type 0
IsInPhase idle p st =
    (p ≡ st.write_pos)
    × (st.queue_pos ≡ st.write_pos + bytes_in st.queue)
    × (st.sync_pos ≤ st.write_pos)
IsInPhase (writing work) p st =
    (p ≡ st.write_pos)
    × (st.queue_pos ≡ st.write_pos + bytes_in work.to_write + bytes_in st.queue)
    × (st.sync_pos ≤ st.write_pos)
    × OffsetTaken work.new_offset st.offset_pos st.flush_pos
IsInPhase (synced work) p st =
    (st.write_pos ≤ p)
    × (st.queue_pos ≡ p + bytes_in st.queue)
    × (st.sync_pos ≤ p)
    × OffsetTaken work.new_offset st.offset_pos st.flush_pos

pub record IsSafe (s : Sys) : Type 0 where
  pub flushed : s.status.flush_pos ≤ s.status.offset_pos
  pub in_phase : IsInPhase s.phase s.position s.status

pub flatten-append : (xs ys : List (List ℕ)) → flatten (xs ++ ys) ≡ flatten xs ++ flatten ys
unfolding flatten
flatten-append [] ys = refl
flatten-append (x ∷ xs) ys = simp (flatten-append xs ys, append_assoc)

-- `store` queues its bytes, and changes nothing else.
pub push_writes_lem :
    (st : LogStatus) (end_pos : ℕ) (writes : List (List ℕ))
    → push_writes st end_pos writes ≡ (
      record st { queue = st.queue ++ writes; queue_pos = st.queue_pos + bytes_in writes },
      end_pos + bytes_in writes,
    )
unfolding push_writes flatten
push_writes_lem st end_pos [] = rw (append-nil, add-zero st.queue_pos, add-zero end_pos)
push_writes_lem st end_pos (w ∷ ws) =
    rw
      (
        push_writes_lem
            (record st { queue = st.queue ++ w ∷ []; queue_pos = st.queue_pos + length w })
            (end_pos + length w) ws,
        append_assoc,
        length-append,
      )
      (simp add_assoc)
