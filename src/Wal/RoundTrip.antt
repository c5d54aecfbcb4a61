-- ===== src/Wal/RoundTrip.antt =====
-- What src/wal/ writes, it recovers: the writer's files through the reader give back the operations.
use lsm_rs.Prelude.{
  flatten, ℕ, zero, suc, ◌+◌, ◌/◌, ◌%◌, ◌≤◌, ◌≡◌, refl, ap, List, [], ◌∷◌, ◌++◌, true, false,
  length, All, map, subst, length-append, append_assoc, append-nil, arith, ◌≢◌,
}
use native.Mathlib.Nat.{zero-add, add-zero, suc-add}
use lsm_rs.Bytes.{to_le, from_le, length-to_le, size_of_u64}
use lsm_rs.Outcome.{ok, diverged}
use lsm_rs.Memtable.{Memtable}
use lsm_rs.Memtable
use lsm_rs.Memtable.Replay.{apply_op, apply_ops}
use lsm_rs.WriteBatch.Op.{WriteOp, put, delete}
use lsm_rs.Wal.{page_size, encode}
use lsm_rs.Wal.Files.{Files}
use lsm_rs.Wal.Reader.{new, read_from_log, parse_write_entry, parse_op, run, recover}
use lsm_rs.Wal.Pages.{Stored, page}
use lsm_rs.Wal.End.{read_end, read_diverges}
use lsm_rs.Wal.ReadBack.{reader_at, load-content}
use lsm_rs.Wal.Recovered.{
  Rest, Rest-length, Rest-append, read_exact, IsStorable, body, encode-body, after_key,
  parse_put_lem, parse_write_entry_lem,
}

-- The bytes of a sequence of operations.
unfoldable pub encode_all : List WriteOp → List ℕ
encode_all ops = flatten (map encode ops)

-- The fields of an entry, bracketed to the right.
regroup_put :
    (key value tail : List ℕ)
    → body (put key value) ++ tail
      ≡ to_le 1 1
        ++ (to_le size_of_u64 (length key)
            ++ (key ++ (to_le size_of_u64 (length value) ++ (value ++ tail))))
regroup_put key value tail = simp append_assoc

regroup_delete :
    (key tail : List ℕ)
    → body (delete key) ++ tail ≡ to_le 1 2 ++ (to_le size_of_u64 (length key) ++ (key ++ tail))
regroup_delete key tail = simp (append_assoc, append-nil)

length-body-put :
    (key value : List ℕ)
    → length (body (put key value)) ≡ 1 + size_of_u64 + length key + size_of_u64 + length value
length-body-put key value = simp (length-append, length-to_le) (omega arith)

length-body-delete : (key : List ℕ) → length (body (delete key)) ≡ 1 + size_of_u64 + length key
length-body-delete key = simp (length-append, length-to_le) (omega arith)

module _ (fs : Files) (lo : ℕ) (log : List ℕ) (stored : Stored fs lo log) (fuel : ℕ)
    (enough : length log ≤ fuel) where
  -- One entry is parsed and applied, and the reader stands behind it.
  parse_entry :
      (p : ℕ) (op : WriteOp) (tail : List ℕ) (m : Memtable)
      → IsStorable op
      → lo ≤ p / page_size
      → Rest log p (body op ++ tail)
      → parse_write_entry fuel fs (reader_at log p) m
        ≡ ok (reader_at log (p + length (body op)), apply_op m op)
  unfolding parse_op
  parse_entry p (put key value) tail m s low r =
      let r' = subst (Rest log p) (regroup_put key value tail) r in
      let k = after_key fs lo log stored fuel enough p 1 key _ (omega arith) s.0 s.1 low r' in
      let there : p + 1 + size_of_u64 + length key + size_of_u64 + length value
          ≡ p + length (body (put key value)) =
        omega (arith, length-body-put key value) in
      rw
        (
          parse_write_entry_lem fs lo log stored fuel enough p 1 key _ (omega arith) s.0 s.1 low r'
              m,
          parse_put_lem fs lo log stored fuel enough (p + 1 + size_of_u64 + length key) key value
              tail m k (omega (arith, low)) s.2 s.3,
        )
        (ap (λ q. ok (reader_at log q, Memtable.put m key value)) there)
  parse_entry p (delete key) tail m s low r =
      let r' = subst (Rest log p) (regroup_delete key tail) r in
      let there : p + 1 + size_of_u64 + length key ≡ p + length (body (delete key)) =
        omega (arith, length-body-delete key) in
      rw
        (parse_write_entry_lem fs lo log stored fuel enough p 2 key tail (omega arith) s.0 s.1 low
          r' m)
        (ap (λ q. ok (reader_at log q, Memtable.delete m key)) there)

  -- One round of `run` on an entry: the type, the body, and on to the next.
  run_entry :
      (steps p : ℕ) (op : WriteOp) (tail : List ℕ) (m : Memtable) (count : ℕ)
      → IsStorable op
      → lo ≤ p / page_size
      → Rest log p (encode op ++ tail)
      → run (suc steps) fuel fs (reader_at log p) m count
        ≡ run steps fuel fs (reader_at log (p + length (encode op))) (apply_op m op) (count + 1)
  unfolding run from_le
  run_entry steps p op tail m count s low r =
      let r' = subst (λ b. Rest log p (b ++ tail)) (encode-body op) r in
      let there : p + 1 + length (body op) ≡ p + length (encode op) =
        omega (arith, ap length (encode-body op)) in
      let first : read_from_log fuel fs (reader_at log p) 1 true
          ≡ ok (true, 0 ∷ [], reader_at log (p + 1)) =
        read_exact fs lo log stored fuel enough true p (0 ∷ []) (body op ++ tail) r' low
          (omega arith) in
      rw (
        first,
        run,
        parse_entry (p + 1) op tail m s (omega arith)
            (Rest-append log p (0 ∷ []) (body op ++ tail) r'),
        there,
      )

  -- The operations of the rest of the log are applied in order, and `run` goes on at the end.
  run_ops :
      (steps p : ℕ) (ops : List WriteOp) (m : Memtable) (count : ℕ)
      → All IsStorable ops
      → lo ≤ p / page_size
      → Rest log p (encode_all ops)
      → run (length ops + steps) fuel fs (reader_at log p) m count
        ≡ run steps fuel fs (reader_at log (length log)) (apply_ops m ops) (count + length ops)
  unfolding encode_all apply_ops flatten
  run_ops steps p [] m count s low r =
      let there : p ≡ length log = omega (arith, Rest-length log p [] r) in
      rw (there, zero-add, add-zero)
  run_ops steps p (op ∷ ops) m count s low r =
      let next = Rest-append log p (encode op) (encode_all ops) r in
      let total : count + 1 + length ops ≡ count + suc (length ops) = omega arith in
      rw (
        suc-add,
        run_entry (length ops + steps) p op (encode_all ops) m count s.0 low r,
        run_ops steps (p + length (encode op)) ops (apply_op m op) (count + 1) s.1 (omega arith)
            next,
        total,
      )

  run_diverges :
      (steps : ℕ)
      → lo ≤ length log / page_size
      → length log % page_size ≡ 0
      → (m : Memtable) (count : ℕ)
      → run steps fuel fs (reader_at log (length log)) m count ≡ diverged
  unfolding run read_from_log
  run_diverges zero low edge m count = refl
  run_diverges (suc steps) low edge m count =
      rw (read_diverges fs lo log stored low fuel 0 true [] edge, run)

  new_lem :
      (start : ℕ)
      → start ≤ length log
      → lo ≤ start / page_size
      → new fs start ≡ ok (reader_at log start)
  unfolding new
  new_lem start h low = rw (
    load-content fs (start / page_size) (page log (start / page_size))
        (stored (start / page_size) low (omega arith)),
    new,
  )

  -- Recovery from a position applies the operations that follow it, and ends at the end of the log.
  pub recover_lem :
      (steps start : ℕ) (ops : List WriteOp) (m : Memtable)
      → All IsStorable ops
      → lo ≤ start / page_size
      → Rest log start (encode_all ops)
      → length log % page_size ≢ 0
      → recover (length ops + suc steps) fuel fs start m
        ≡ ok (record { new_position = length log; entries_recovered = length ops }, apply_ops m ops)
  unfolding recover run
  recover_lem steps start ops m s low r inside = rw (
    new_lem start r.inside low,
    recover,
    run_ops (suc steps) start ops m 0 s low r,
    run,
    last fuel enough,
    zero-add,
  )
    where
      last :
          (f : ℕ)
          → length log ≤ f
          → read_from_log f fs (reader_at log (length log)) 1 true
            ≡ ok (false, 0 ∷ [], reader_at log (length log))
      last zero h = absurd (omega arith)
      last (suc f) h = read_end fs lo log stored (omega (arith, r.inside)) f inside

  -- Where the log ends at a page boundary, recovery applies the operations and never ends.
  pub recover_diverges :
      (steps start : ℕ) (ops : List WriteOp) (m : Memtable)
      → All IsStorable ops
      → lo ≤ start / page_size
      → Rest log start (encode_all ops)
      → length log % page_size ≡ 0
      → recover (length ops + steps) fuel fs start m ≡ diverged
  unfolding recover
  recover_diverges steps start ops m s low r edge =
      rw (new_lem start r.inside low, recover, run_ops steps start ops m 0 s low r) (stuck steps)
    where
      stuck :
          (n : ℕ)
          → run n fuel fs (reader_at log (length log)) (apply_ops m ops) (0 + length ops) ≡ diverged
      stuck n = run_diverges n (omega (arith, r.inside)) edge _ _
