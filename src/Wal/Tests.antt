-- ===== src/Wal/Tests.antt =====
-- The log of src/wal/ on small inputs.
use lsm_rs.Prelude.{
  flatten, map, ℕ, ◌+◌, ◌/◌, ◌≤◌, ◌<◌, ◌≡◌, refl, List, [], ◌∷◌, ◌++◌, none, some, true, false,
  length, drop, replicate, length-replicate, All, arith,
}
use lsm_rs.Outcome.{ok, panicked, diverged, Returns, ◌>>=◌}
use lsm_rs.Memtable
use lsm_rs.Memtable.{Memtable}
use lsm_rs.Memtable.Replay.{apply_ops}
use lsm_rs.WriteBatch.Op.{WriteOp, put, delete}
use lsm_rs.Wal.{page_size, encode}
use lsm_rs.Wal.Files.{Files}
use lsm_rs.Wal.Writer
use lsm_rs.Wal.Writer.{Disk, WalWriter, write_bufs, write_all, sync, continue_from}
use lsm_rs.Wal.Reader.{recover}
use lsm_rs.Wal.Pages.{content}
use lsm_rs.Wal.Written.{new-IsAt}
use lsm_rs.Wal.Recovered.{IsStorable}
use lsm_rs.Wal.RoundTrip.{encode_all}
use lsm_rs.Wal.Open.{recover-write_bufs, recover_diverges-write_bufs}
use lsm_rs.Wal.Continue.{continue_from_overwrites}
use lsm_rs.Wal.Durability.{durable, sync_skips_full_page}
use lsm_rs.Wal.Status
use lsm_rs.Wal.Status.{
  LogStatus, Work, store, update_log, take, take_work, offsets, request_sync, push_writes,
  sync_status, must_sync, finish,
}
use lsm_rs.Wal.Tasks.{
  take_step, write_step, finish_step, Sys, idle, Reach, here, next, store_step, sync_step, initial,
  bytes_in,
}
use lsm_rs.Wal.Positions.{Reach_ordered, Reach-WriterReturns, WriterReturns, sync_panics}
use lsm_rs.Wal.Queue.{IsOpen, Updated}
use lsm_rs.Wal.UpdateLog.{update_log-Updated}
use lsm_rs.Wal.Session.{recover-store, store-IsOpen}
use lsm_rs.Bytes.{to_le}

abbrev ops : List WriteOp
ops = put (1 ∷ []) (2 ∷ 3 ∷ []) ∷ delete (4 ∷ []) ∷ []

abbrev fresh : Disk
fresh = Writer.new (λ k. none)

abbrev empty : Memtable
empty = Memtable.new 1

storable : All IsStorable ops
storable = ((omega arith, omega arith, omega arith, omega arith), ((omega arith, omega arith), tt))

ops-length : length (encode_all ops) ≡ 32
unfolding encode_all encode flatten to_le
ops-length = refl

-- The operations on a new log.
recover-write_bufs_example : Returns (write_bufs fresh (map encode ops)) (λ e.
    recover (length ops + 1) 32 e.0 (length {A = ℕ} []) empty
    ≡ ok (
      record { new_position = length ([] ++ encode_all ops); entries_recovered = length ops },
      apply_ops empty ops,
    ))
recover-write_bufs_example =
    recover-write_bufs fresh 0 [] ops (new-IsAt (λ k. none)) storable 0 32 empty
      (λ e. omega (arith, e, ops-length)) (omega (arith, ops-length))

-- A value that fills the page to its end.
abbrev filling : List WriteOp
filling = put (1 ∷ []) (replicate 4077 0) ∷ []

filling-IsStorable : All IsStorable filling
filling-IsStorable = (
  (
    omega arith,
    omega arith,
    omega (arith, length-replicate {A = ℕ} 4077 0),
    omega (arith, length-replicate {A = ℕ} 4077 0),
  ),
  tt,
)

filling-length : length (encode_all filling) ≡ 4096
unfolding encode_all encode flatten to_le
filling-length = refl

recover_diverges-write_bufs_example :
    Returns
      (write_bufs fresh (map encode filling))
      (λ e. recover (length filling + 100) 4096 e.0 (length {A = ℕ} []) empty ≡ diverged)
recover_diverges-write_bufs_example =
    recover_diverges-write_bufs fresh 0 [] filling (new-IsAt (λ k. none)) filling-IsStorable 100
      4096 empty (omega (arith, filling-length)) (omega (arith, filling-length))

-- A log file with four bytes.
abbrev short_log : Files
short_log k = some (record { content = 9 ∷ 8 ∷ 7 ∷ 6 ∷ []; durable = [] })

continue_from_overwrites_example :
    Returns
      (continue_from 4 short_log >>= λ d. write_all d (1 ∷ 2 ∷ []))
      (λ e. content e.0 (4 / page_size) ≡ some (1 ∷ 2 ∷ [] ++ drop 2 (9 ∷ 8 ∷ 7 ∷ 6 ∷ [])))
unfolding content
continue_from_overwrites_example =
    continue_from_overwrites short_log 4 (1 ∷ 2 ∷ []) (9 ∷ 8 ∷ 7 ∷ 6 ∷ []) (λ e. omega (arith, e))
      refl (omega arith)

abbrev near_end : Disk
near_end = (short_log, record { log_file = record { fpos = 0; cursor = 4095 }; position = 4095 })

sync_skips_full_page_example :
    Returns
      (write_all near_end (1 ∷ 2 ∷ []))
      (λ e. durable (sync e).0 (4095 / page_size) ≡ durable short_log (4095 / page_size))
sync_skips_full_page_example = sync_skips_full_page near_end (1 ∷ 2 ∷ []) refl (omega arith)

abbrev status0 : LogStatus
status0 = Status.new 0 0

opened : IsOpen fresh status0 []
unfolding Status.new Writer.new flatten
opened = record {
  at = new-IsAt (λ k. none);
  in_phase = (refl, refl, omega arith);
  flushed = omega arith;
  within = omega arith;
}

update_log-Updated_example :
    Returns (update_log fresh (store status0 ops).0) (λ r. Updated (store status0 ops).0 [] r.0 r.1)
update_log-Updated_example =
    update_log-Updated fresh (store status0 ops).0 [] (store-IsOpen fresh status0 [] ops opened)

store_length : (store status0 ops).1 ≡ 32
unfolding store push_writes encode to_le Status.new
store_length = refl

recover-store_example : Returns (update_log fresh (store status0 ops).0) (λ r.
    recover (length ops + 1) 32 r.0.0 status0.queue_pos empty
    ≡ ok (
      record { new_position = (store status0 ops).1; entries_recovered = length ops },
      apply_ops empty ops,
    ))
recover-store_example =
    recover-store fresh status0 [] ops empty opened storable 0 32
      (λ e. omega (arith, e, store_length)) (omega (arith, store_length))

-- What the writer takes after the first batch, and the status that it leaves.
abbrev first_work : Work
first_work = record {
  to_write = (store status0 ops).0.queue;
  sync_flag = false;
  sync_pos = 0;
  new_offset = none;
  stop_flag = false;
}

abbrev taken : LogStatus
taken = record (store status0 ops).0 { queue = [] }

abbrev first_done : LogStatus
first_done = record taken { write_pos = 32 }

-- Another batch, with a request to sync.
abbrev second : LogStatus
second = (store (record first_done { sync_flag = true }) ops).0

abbrev second_sys : Sys
second_sys = record { status = second; position = 32; phase = idle }

reaches : Reach (initial 0 0) second_sys
unfolding store push_writes encode to_le Status.new take take_work offsets sync_status must_sync
    finish request_sync flatten
reaches =
    next
      (next
        (next
          (next (next (next here (store_step ops)) (take_step taken first_work refl refl))
            (write_step first_work refl))
          (finish_step first_done first_work refl refl))
        (sync_step (record first_done { sync_flag = true }) (some 0) refl))
      (store_step ops)

Reach_ordered_example :
    (second.write_pos ≤ second.queue_pos)
    × (second.sync_pos ≤ second.queue_pos)
    × (second.flush_pos ≤ second.offset_pos)
Reach_ordered_example = Reach_ordered 0 0 second_sys reaches

Reach-WriterReturns_example : WriterReturns idle 32 second
Reach-WriterReturns_example = Reach-WriterReturns 0 0 second_sys reaches

abbrev second_work : Work
second_work = record {
  to_write = second.queue;
  sync_flag = true;
  sync_pos = 0;
  new_offset = none;
  stop_flag = false;
}

second_bytes : 0 < bytes_in second.queue
unfolding store push_writes encode to_le Status.new flatten
second_bytes = omega arith

second-take :
    take second 32 ≡ ok (record second { queue = []; sync_flag = false }, some second_work)
unfolding store push_writes encode to_le Status.new take take_work offsets
second-take = refl

second_flag : second.sync_flag ≡ true
unfolding store push_writes Status.new
second_flag = refl

sync_panics_example : (u : Sys) × Reach (initial 0 0) u × (request_sync u.status ≡ panicked)
sync_panics_example =
    sync_panics 0 0 second_sys (record second { queue = []; sync_flag = false }) second_work reaches
      refl second_flag second_bytes second-take
