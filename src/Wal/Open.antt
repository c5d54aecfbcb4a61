-- ===== src/Wal/Open.antt =====
-- The log of src/wal/ from end to end: what `store` encodes and the writer writes, `open` recovers.
use lsm_rs.Prelude.{
  map, ℕ, suc, ◌+◌, ◌%◌, ◌≤◌, ◌≡◌, ◌≢◌, List, ◌++◌, length, All, length-append, drop-length_append,
  arith,
}
use lsm_rs.Outcome.{ok, diverged, Returns, Returns-imp}
use lsm_rs.Memtable.{Memtable}
use lsm_rs.Memtable.Replay.{apply_ops}
use lsm_rs.WriteBatch.Op.{WriteOp}
use lsm_rs.Wal.{page_size, encode}
use lsm_rs.Wal.Reader.{recover}
use lsm_rs.Wal.Writer.{Disk, write_bufs}
use lsm_rs.Wal.Written.{IsAt, write_bufs-IsAt}
use lsm_rs.Wal.Recovered.{Rest, IsStorable}
use lsm_rs.Wal.RoundTrip.{encode_all, recover_lem, recover_diverges}

module _ (d : Disk) (lo : ℕ) (log : List ℕ) (ops : List WriteOp) (h : IsAt d lo log)
    (storable : All IsStorable ops) where
  appended : Rest (log ++ encode_all ops) (length log) (encode_all ops)
  appended = record {
    inside = omega (arith, length-append log (encode_all ops));
    bytes = drop-length_append log (encode_all ops);
  }

  -- The operations that the writer appends to a log are written, and recovery from the position where
  -- they begin applies just these, in order, and reports their number and the end of the log. This
  -- holds from any writer that stands at the end of its log, for operations with non-empty keys and
  -- values whose lengths fit 64 bits, where the log does not end at a page boundary, and with more
  -- rounds than operations and rounds for each read than bytes in the log.
  pub recover-write_bufs :
      (steps fuel : ℕ) (m : Memtable)
      → length (log ++ encode_all ops) % page_size ≢ 0
      → length (log ++ encode_all ops) ≤ fuel
      → Returns (write_bufs d (map encode ops)) (λ e.
        recover (length ops + suc steps) fuel e.0 (length log) m
        ≡ ok (
          record { new_position = length (log ++ encode_all ops); entries_recovered = length ops },
          apply_ops m ops,
        ))
  unfolding encode_all
  recover-write_bufs steps fuel m inside enough =
      Returns-imp (write_bufs d (map encode ops)) (λ e. IsAt e lo (log ++ encode_all ops)) _
        (write_bufs-IsAt d lo log (map encode ops) h)
        (λ e h'.
          recover_lem e.0 lo (log ++ encode_all ops) h'.stored fuel enough steps (length log) ops m
            storable h.low appended inside)

  -- Where the log ends at a page boundary, also where it is empty, recovery of the same operations does
  -- not end, however many rounds it is given.
  pub recover_diverges-write_bufs :
      (steps fuel : ℕ) (m : Memtable)
      → length (log ++ encode_all ops) % page_size ≡ 0
      → length (log ++ encode_all ops) ≤ fuel
      → Returns
          (write_bufs d (map encode ops))
          (λ e. recover (length ops + steps) fuel e.0 (length log) m ≡ diverged)
  unfolding encode_all
  recover_diverges-write_bufs steps fuel m edge enough =
      Returns-imp (write_bufs d (map encode ops)) (λ e. IsAt e lo (log ++ encode_all ops)) _
        (write_bufs-IsAt d lo log (map encode ops) h)
        (λ e h'.
          recover_diverges e.0 lo (log ++ encode_all ops) h'.stored fuel enough steps (length log)
            ops m storable h.low appended edge)
