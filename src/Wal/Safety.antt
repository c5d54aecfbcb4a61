-- ===== src/Wal/Safety.antt =====
-- The invariant of the shared log state of src/wal/, kept by every interleaving of the steps.
use lsm_rs.Prelude.{subst, sym, flatten, ℕ, ◌+◌, arith}
use lsm_rs.Wal.Status.{new}
use lsm_rs.Wal.Tasks.{
  Sys, bytes_in, Step, store_step, sync_step, offset_step, stop_step, wait_step, take_step,
  write_step, finish_step, initial, IsInPhase, IsSafe,
}
use lsm_rs.Wal.Regions.{
  store-IsInPhase, store-offsets, request_sync-IsInPhase, request_offset-IsInPhase, take-Taken,
  take-IsInPhase, wait-IsInPhase, write-IsInPhase, sync_status-offsets, finish-IsInPhase,
  finish_flushed, request_flushed, request_sync_flushed, wait_flushed, stop-IsInPhase, stop_flushed,
}

pub initial-IsSafe : (position start : ℕ) → IsSafe (initial position start)
unfolding new flatten
initial-IsSafe position start = ground arith

pub Step-IsSafe : {s t : Sys} → Step s t → IsSafe s → IsSafe t
Step-IsSafe {s} (store_step batch) h = record {
  flushed = omega (arith, store-offsets s.status batch, h.flushed);
  in_phase = store-IsInPhase s.phase s.position s.status batch h.in_phase;
}
Step-IsSafe {s} (sync_step st last e) h = record {
  flushed = request_sync_flushed s.status st last e h.flushed;
  in_phase = request_sync-IsInPhase s.phase s.position s.status st last e h.in_phase;
}
Step-IsSafe {s} (offset_step st offset le e) h = record {
  flushed = request_flushed s.status st offset e h.flushed;
  in_phase = request_offset-IsInPhase s.phase s.position s.status st offset e h.in_phase;
}
Step-IsSafe {s} stop_step h = record {
  flushed = stop_flushed s.status h.flushed;
  in_phase = stop-IsInPhase s.phase s.position s.status h.in_phase;
}
Step-IsSafe {s} (wait_step st i e) h = record {
  flushed = wait_flushed s.position s.status st e h.flushed;
  in_phase =
      subst (λ ph. IsInPhase ph s.position st) (sym i)
        (wait-IsInPhase s.position s.status st e
          (subst (λ ph. IsInPhase ph s.position s.status) i h.in_phase));
}
Step-IsSafe {s} (take_step st work i e) h =
    let t = take-Taken s.position s.status st work e in
    record {
      flushed = omega (arith, t.flush_pos, t.offset_pos, h.flushed);
      in_phase =
          take-IsInPhase s.position s.status st work t
            (subst (λ ph. IsInPhase ph s.position s.status) i h.in_phase);
    }
Step-IsSafe {s} (write_step work i) h = record {
  flushed =
      omega
        (arith, sync_status-offsets work s.status (s.position + bytes_in work.to_write), h.flushed);
  in_phase =
      write-IsInPhase s.position s.status work
        (subst (λ ph. IsInPhase ph s.position s.status) i h.in_phase);
}
Step-IsSafe {s} (finish_step st work i e) h =
    let now = subst (λ ph. IsInPhase ph s.position s.status) i h.in_phase in
    record {
      flushed = finish_flushed s.position s.status st work e h.flushed now.3;
      in_phase = finish-IsInPhase s.position s.status st work e now;
    }
