-- ===== src/Wal/Status.antt =====
-- src/wal/mod.rs and `update_log` of src/wal/writer.rs: the state that the callers of the log and its
-- writer task share, one function for each region that holds the lock. Waiting on a condition is the
-- test that ends the wait. The fields are unbounded here: `usize` counts of bytes do not wrap.
use lsm_rs.Prelude.{
  ℕ, ◌+◌, List, [], ◌∷◌, ◌++◌, Option, none, some, Bool, true, false, not, ◌||◌, ◌&&◌, length, map,
  ltb, leb, ◌==◌, if◌then◌else◌,
}
use lsm_rs.Outcome.{Outcome, ok, panicked, ◌>>=◌, ◌>>◌, assert}
use lsm_rs.WriteBatch.Op.{WriteOp}
use lsm_rs.Wal.{encode}
use lsm_rs.Wal.Files.{Files}
use lsm_rs.Wal.Writer.{Disk, write_bufs, sync, set_offset}

pub record LogStatus : Type 0 where
  pub queue_pos : ℕ
  pub write_pos : ℕ
  pub sync_pos : ℕ
  pub queue : List (List ℕ)
  pub sync_flag : Bool
  pub offset_pos : ℕ
  pub flush_pos : ℕ
  pub stop_flag : Bool

-- `LogStatus::new`; `WriteAheadLog::new` has both positions 0.
unfoldable pub new : ℕ → ℕ → LogStatus
new position start_position = record {
  queue_pos = position;
  write_pos = position;
  sync_pos = position;
  queue = [];
  sync_flag = false;
  offset_pos = start_position;
  flush_pos = start_position;
  stop_flag = false;
}

-- The `for` over the encoded entries of `store`, with `end_pos`.
unfoldable pub push_writes : LogStatus → ℕ → List (List ℕ) → LogStatus × ℕ
push_writes st end_pos [] = (st, end_pos)
push_writes st end_pos (bytes ∷ writes) =
    push_writes
      (record st { queue = st.queue ++ bytes ∷ []; queue_pos = st.queue_pos + length bytes })
      (end_pos + length bytes) writes

-- `store`, up to its wait: the new status, and the position to wait for.
unfoldable pub store : LogStatus → List WriteOp → LogStatus × ℕ
store st batch = push_writes st st.queue_pos (map encode batch)

unfoldable pub store_done : LogStatus → ℕ → Bool
store_done st end_pos = leb end_pos st.write_pos

-- `sync`, up to its wait: `none` where there is nothing to sync, else the position to pass.
unfoldable pub request_sync : LogStatus → Outcome (LogStatus × Option ℕ)
request_sync st =
    if st.sync_pos == st.write_pos
    then ok (st, none)
    else (assert (ltb st.sync_pos st.write_pos)
        >> ok (record st { sync_flag = true }, some st.sync_pos))

unfoldable pub sync_done : LogStatus → ℕ → Bool
sync_done st last_pos = ltb last_pos st.sync_pos

-- `set_offset`, up to its wait.
unfoldable pub request_offset : LogStatus → ℕ → Outcome LogStatus
request_offset st new_offset =
    if leb new_offset st.offset_pos then panicked else ok (record st { offset_pos = new_offset })

unfoldable pub offset_done : LogStatus → ℕ → Bool
offset_done st new_offset = leb new_offset st.flush_pos

-- `stop`, up to its wait.
unfoldable pub request_stop : LogStatus → LogStatus
request_stop st = record st { stop_flag = true }

-- What `update_log` takes from the status.
pub record Work : Type 0 where
  pub to_write : List (List ℕ)
  pub sync_flag : Bool
  pub sync_pos : ℕ
  pub new_offset : Option (ℕ × ℕ)
  pub stop_flag : Bool

abbrev pub is_empty {ℓ} : {A : Type ℓ} → List A → Bool
is_empty [] = true
is_empty (x ∷ xs) = false

abbrev pub is_some {ℓ} : {A : Type ℓ} → Option A → Bool
is_some none = false
is_some (some x) = true

-- The first `let` of `take`: the offsets, where the flush lags behind.
unfoldable pub offsets : LogStatus → Outcome (Option (ℕ × ℕ))
offsets st =
    if ltb st.flush_pos st.offset_pos
    then ok (some (st.offset_pos, st.flush_pos))
    else (assert (st.offset_pos == st.flush_pos) >> ok none)

-- "Check whether there is something to do"
abbrev pub has_work : LogStatus → Option (ℕ × ℕ) → Bool
has_work st new_offset =
    (not (is_empty st.queue) || is_some new_offset) || (st.sync_flag || st.stop_flag)

unfoldable pub take_work : LogStatus → ℕ → Option (ℕ × ℕ) → Outcome (LogStatus × Option Work)
take_work st position new_offset =
    if has_work st new_offset
    then (assert (position == st.write_pos)
        >> ok (
          record st { queue = []; sync_flag = false },
          some (record {
            to_write = st.queue;
            sync_flag = st.sync_flag;
            sync_pos = st.sync_pos;
            new_offset = new_offset;
            stop_flag = st.stop_flag;
          }),
        ))
    else (assert (st.write_pos == st.queue_pos) >> ok (record st { queue = [] }, none))

-- One turn of the loop at the head of `update_log`; `none` is the wait. `position` is the writer's.
unfoldable pub take : LogStatus → ℕ → Outcome (LogStatus × Option Work)
take st position = do new_offset ← offsets st; take_work st position new_offset

-- "Only sync if necessary"
unfoldable pub must_sync : Work → ℕ → Bool
must_sync work position = work.sync_flag && ltb work.sync_pos position

unfoldable pub sync_disk : Work → Disk → Disk
sync_disk work d = if must_sync work d.1.position then sync d else d

unfoldable pub sync_status : Work → LogStatus → ℕ → LogStatus
sync_status work st position =
    if must_sync work position then record st { sync_pos = position } else st

-- `if let Some((new_offset, old_offset)) = new_offset`
unfoldable pub remove_old : Work → Files → Outcome Files
remove_old work fs = elim work.new_offset [
  | none ↦ ok fs
  | some (new_offset, old_offset) ↦ set_offset fs new_offset old_offset
]

-- The last region: "Notify about finished write(s)".
unfoldable pub finish : Work → LogStatus → ℕ → Outcome LogStatus
finish work st position = do
  assert (leb st.write_pos position)
  ok (record st {
    write_pos = position;
    flush_pos = elim work.new_offset [ none ↦ st.flush_pos | some (new_offset, old) ↦ new_offset ];
  })

-- The rest of `update_log`, once it has taken its work: the writes, the sync, the offset, the report.
unfoldable pub run_work : Disk → LogStatus → Work → Outcome (Disk × LogStatus × Option Bool)
run_work d st work = do
  d1 ← write_bufs d work.to_write
  fs2 ← remove_old work (sync_disk work d1).0
  st2 ← finish work (sync_status work st d1.1.position) d1.1.position
  ok ((fs2, d1.1), st2, some work.stop_flag)

-- `update_log` where no other task runs in between; `none` where it would wait.
unfoldable pub update_log : Disk → LogStatus → Outcome (Disk × LogStatus × Option Bool)
update_log d st = do
  (st1, taken) ← take st d.1.position
  elim taken [ none ↦ ok (d, st1, none) | some work ↦ run_work d st1 work ]
