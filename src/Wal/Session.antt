-- ===== src/Wal/Session.antt =====
-- The log of src/wal/ in one session: `store` queues a batch, the writer turns once, and a reader that
-- starts where the batch begins recovers it.
use lsm_rs.Prelude.{
  flatten, map, ℕ, suc, ◌+◌, ◌/◌, ◌%◌, ◌≤◌, ◌≡◌, ◌≢◌, subst, sym, ap, List, ◌++◌, length, All,
  length-append, drop-length_append, drop, append_assoc, arith,
}
use lsm_rs.Outcome.{ok, Returns, Returns-imp}
use lsm_rs.Memtable.{Memtable}
use lsm_rs.Memtable.Replay.{apply_ops}
use lsm_rs.WriteBatch.Op.{WriteOp}
use lsm_rs.Wal.{page_size, encode}
use lsm_rs.Wal.Reader.{recover}
use lsm_rs.Wal.Writer.{Disk}
use lsm_rs.Wal.Status.{LogStatus, store, update_log}
use lsm_rs.Wal.Tasks.{push_writes_lem, idle, flatten-append}
use lsm_rs.Wal.Written.{IsAt}
use lsm_rs.Wal.Regions.{store-IsInPhase, store-offsets}
use lsm_rs.Wal.Queue.{IsOpen, Updated}
use lsm_rs.Wal.UpdateLog.{update_log-Updated}
use lsm_rs.Wal.Recovered.{Rest, IsStorable}
use lsm_rs.Wal.RoundTrip.{encode_all, recover_lem}

-- `store` keeps what is open, and adds its batch to the queue.
store_lem :
    (st : LogStatus) (ops : List WriteOp)
    → store st ops ≡ (
      record st {
        queue = st.queue ++ map encode ops;
        queue_pos = st.queue_pos + length (encode_all ops);
      },
      st.queue_pos + length (encode_all ops),
    )
unfolding store encode_all
store_lem st ops = push_writes_lem st st.queue_pos (map encode ops)

pub store-IsOpen :
    (d : Disk) (st : LogStatus) (log : List ℕ) (ops : List WriteOp)
    → IsOpen d st log
    → IsOpen d (store st ops).0 log
store-IsOpen d st log ops h =
    let kept = store-offsets st ops in
    record {
      at = subst (λ o. IsAt d (o / page_size) log) (sym kept.0) h.at;
      in_phase = store-IsInPhase idle d.1.position st ops h.in_phase;
      flushed = omega (arith, kept, h.flushed);
      within = omega (arith, kept, h.within);
    }

-- The log after the batch of `store` is written: what was queued before, and the batch.
longer :
    (st : LogStatus) (log : List ℕ) (ops : List WriteOp)
    → log ++ flatten (store st ops).0.queue ≡ (log ++ flatten st.queue) ++ encode_all ops
unfolding encode_all
longer st log ops = rw (store_lem st ops, flatten-append st.queue (map encode ops), append_assoc)

queue_end :
    (d : Disk) (st : LogStatus) (log : List ℕ)
    → IsOpen d st log
    → length (log ++ flatten st.queue) ≡ st.queue_pos
queue_end d st log h =
    omega (arith, length-append log (flatten st.queue), h.in_phase, h.at.positioned)

store_end :
    (d : Disk) (st : LogStatus) (log : List ℕ) (ops : List WriteOp)
    → IsOpen d st log
    → length ((log ++ flatten st.queue) ++ encode_all ops) ≡ (store st ops).1
store_end d st log ops h = omega (
  arith,
  queue_end d st log h,
  length-append (log ++ flatten st.queue) (encode_all ops),
  ap (λ r. r.1) (store_lem st ops),
)

module _ (d : Disk) (st : LogStatus) (log : List ℕ) (ops : List WriteOp) (m : Memtable)
    (h : IsOpen d st log) (storable : All IsStorable ops) (steps fuel : ℕ)
    (inside : (store st ops).1 % page_size ≢ 0) (enough : (store st ops).1 ≤ fuel) where
  recovers :
      (d' : Disk) (st' : LogStatus)
      → Updated (store st ops).0 log d' st'
      → recover (length ops + suc steps) fuel d'.0 st.queue_pos m
        ≡ ok (
          record { new_position = (store st ops).1; entries_recovered = length ops },
          apply_ops m ops,
        )
  recovers d' st' u =
      let before = log ++ flatten st.queue in
      let at = subst (IsAt d' (st'.flush_pos / page_size)) (longer st log ops) u.opened.at in
      let start = queue_end d st log h in
      let end_pos = store_end d st log ops h in
      let rest : Rest (before ++ encode_all ops) st.queue_pos (encode_all ops) = record {
        inside = omega (arith, start, length-append before (encode_all ops));
        bytes =
            subst (λ p. drop p (before ++ encode_all ops) ≡ encode_all ops) start
              (drop-length_append before (encode_all ops));
      } in
      let low : st'.flush_pos / page_size ≤ st.queue_pos / page_size = omega (
        arith,
        u.cleaned,
        store-offsets st ops,
        h.within,
        start,
        length-append log (flatten st.queue),
      ) in
      subst
        (λ e.
          recover (length ops + suc steps) fuel d'.0 st.queue_pos m
          ≡ ok (record { new_position = e; entries_recovered = length ops }, apply_ops m ops))
        end_pos
        (recover_lem d'.0 (st'.flush_pos / page_size) (before ++ encode_all ops) at.stored fuel
          (omega (arith, end_pos, enough)) steps st.queue_pos ops m storable low rest
          (λ e. inside (subst (λ n. n % page_size ≡ 0) end_pos e)))

  -- After `store` of a batch and one turn of the writer, which returns, recovery from the queue position
  -- before the batch applies just the operations of the batch, in order, and ends at the position that
  -- `store` returned. This holds from any disk, status and log that fit together, whatever else is
  -- queued, for a batch with non-empty keys and values whose lengths fit 64 bits, where that end is not
  -- at a page boundary, and with more rounds than operations and at least as many rounds for each read
  -- as bytes in the log.
  pub recover-store : Returns (update_log d (store st ops).0) (λ r.
      recover (length ops + suc steps) fuel r.0.0 st.queue_pos m
      ≡ ok (
        record { new_position = (store st ops).1; entries_recovered = length ops },
        apply_ops m ops,
      ))
  recover-store =
      Returns-imp (update_log d (store st ops).0) (λ r. Updated (store st ops).0 log r.0 r.1) _
        (update_log-Updated d (store st ops).0 log (store-IsOpen d st log ops h))
        (λ r u. recovers r.0 r.1 u)
