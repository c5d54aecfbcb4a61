-- ===== src/Wal/Recovered.antt =====
-- `WalReader::run` of src/wal/reader.rs repeats the operations that the log holds.
use lsm_rs.Prelude.{
  Bool, ◌^◌, ℕ, ◌+◌, ◌/◌, ◌≤◌, ◌<◌, ◌≡◌, refl, ap, List, [], ◌∷◌, ◌++◌, true, false, length, drop,
  length-append, length-drop, drop-drop, take-length_append, drop-length_append, lt→ltb, arith,
}
use lsm_rs.Bytes.{to_le, from_le-to_le, length-to_le, size_of_u64, u64_mod}
use lsm_rs.Outcome.{ok}
use lsm_rs.Memtable.{Memtable}
use lsm_rs.Memtable
use lsm_rs.WriteBatch.Op.{WriteOp, put, delete}
use lsm_rs.Wal.{page_size, encode}
use lsm_rs.Wal.Files.{Files}
use lsm_rs.Wal.Reader.{
  read_from_log, read_value, read_bytes, parse_write_entry, parse_op, parse_put,
}
use lsm_rs.Wal.Pages.{Stored}
use lsm_rs.Wal.ReadBack.{reader_at, read_loop_lem}

-- What the log holds from a position on.
pub record Rest (log : List ℕ) (p : ℕ) (tail : List ℕ) : Type 0 where
  pub inside : p ≤ length log
  pub bytes : drop p log ≡ tail

pub Rest-length :
    (log : List ℕ) (p : ℕ) (tail : List ℕ) → Rest log p tail → p + length tail ≡ length log
Rest-length log p tail r = omega (arith, r.inside, ap length r.bytes, length-drop p log)

pub Rest-append :
    (log : List ℕ) (p : ℕ) (bytes tail : List ℕ)
    → Rest log p (bytes ++ tail)
    → Rest log (p + length bytes) tail
Rest-append log p bytes tail r = record {
  inside = omega (arith, Rest-length log p (bytes ++ tail) r, length-append bytes tail);
  bytes =
      rw (← drop-drop p (length bytes) (p + length bytes) log refl, r.bytes)
        (drop-length_append bytes tail);
}

-- What recovery asks of an operation: its key and its value are not empty, and their lengths fit the
-- 64 bits that hold them.
abbrev pub IsStorable : WriteOp → Type 0
IsStorable (put key value) =
    (0 < length key) × (length key < u64_mod) × (0 < length value) × (length value < u64_mod)
IsStorable (delete key) = (0 < length key) × (length key < u64_mod)

-- An entry without its first byte, the entry type.
abbrev pub body : WriteOp → List ℕ
body (put key value) =
    to_le 1 1
    ++ (to_le size_of_u64 (length key) ++ (key ++ (to_le size_of_u64 (length value) ++ value)))
body (delete key) = to_le 1 2 ++ (to_le size_of_u64 (length key) ++ (key ++ []))

pub encode-body : (op : WriteOp) → encode op ≡ 0 ∷ body op
unfolding encode to_le
encode-body (put key value) = refl
encode-body (delete key) = refl

module _ (fs : Files) (lo : ℕ) (log : List ℕ) (stored : Stored fs lo log) where
  module _ (fuel : ℕ) (enough : length log ≤ fuel) where
    -- A read of as many bytes as the log holds there.
    pub read_exact :
        (maybe : Bool) (p : ℕ) (bytes tail : List ℕ)
        → Rest log p (bytes ++ tail)
        → lo ≤ p / page_size
        → 0 < length bytes
        → read_from_log fuel fs (reader_at log p) (length bytes) maybe
          ≡ ok (true, bytes, reader_at log (p + length bytes))
    unfolding read_from_log
    read_exact maybe p bytes tail r low pos =
        let fits : p + length bytes ≤ length log =
          omega (arith, Rest-length log p (bytes ++ tail) r, length-append bytes tail) in
        rw (
          lt→ltb 0 (length bytes) pos,
          read_loop_lem fs lo log stored fuel maybe p (length bytes) [] (omega arith) low fits,
          r.bytes,
          take-length_append bytes tail,
        )

    read_value_lem :
        (p w n : ℕ) (tail : List ℕ)
        → Rest log p (to_le w n ++ tail)
        → lo ≤ p / page_size
        → 0 < w
        → n < 256 ^ w
        → read_value fuel fs (reader_at log p) w ≡ ok (n, reader_at log (p + w))
    unfolding read_value
    read_value_lem p w n tail r low pos small =
        let e = length-to_le w n in
        let read = read_exact false p (to_le w n) tail r low (omega (arith, e)) in
        rw (rw e at read, from_le-to_le w n small)

    read_bytes_lem :
        (p : ℕ) (bytes tail : List ℕ)
        → Rest log p (bytes ++ tail)
        → lo ≤ p / page_size
        → 0 < length bytes
        → read_bytes fuel fs (reader_at log p) (length bytes)
          ≡ ok (bytes, reader_at log (p + length bytes))
    unfolding read_bytes
    read_bytes_lem p bytes tail r low pos = rw (read_exact false p bytes tail r low pos)

    pub parse_put_lem :
        (p : ℕ) (key value tail : List ℕ) (m : Memtable)
        → Rest log p (to_le size_of_u64 (length value) ++ (value ++ tail))
        → lo ≤ p / page_size
        → 0 < length value
        → length value < u64_mod
        → parse_put fuel fs (reader_at log p) key m
          ≡ ok (reader_at log (p + size_of_u64 + length value), Memtable.put m key value)
    unfolding parse_put
    parse_put_lem p key value tail m r low pos small =
        let e = length-to_le size_of_u64 (length value) in
        let next =
          rw e at (Rest-append log p (to_le size_of_u64 (length value)) (value ++ tail) r) in
        rw (
          read_value_lem p size_of_u64 (length value) (value ++ tail) r low (omega arith) small,
          read_bytes_lem (p + size_of_u64) value tail next (omega arith) pos,
        )

    -- The key of an entry, after its two first fields.
    module _ (p op_type : ℕ) (key tail : List ℕ) (small : op_type < 256) (pos : 0 < length key)
        (fits : length key < u64_mod) (low : lo ≤ p / page_size)
        (r : Rest log p
          (to_le 1 op_type ++ (to_le size_of_u64 (length key) ++ (key ++ tail)))) where
      after_type : Rest log (p + 1) (to_le size_of_u64 (length key) ++ (key ++ tail))
      after_type = rw (length-to_le 1 op_type) at (Rest-append log p (to_le 1 op_type) _ r)

      after_len : Rest log (p + 1 + size_of_u64) (key ++ tail)
      after_len =
          rw (length-to_le size_of_u64 (length key)) at
            (Rest-append log (p + 1) (to_le size_of_u64 (length key)) _ after_type)

      pub after_key : Rest log (p + 1 + size_of_u64 + length key) tail
      after_key = Rest-append log (p + 1 + size_of_u64) key tail after_len

      pub parse_write_entry_lem :
          (m : Memtable)
          → parse_write_entry fuel fs (reader_at log p) m
            ≡ parse_op fuel fs (reader_at log (p + 1 + size_of_u64 + length key)) op_type key m
      unfolding parse_write_entry
      parse_write_entry_lem m = rw (
        read_value_lem p 1 op_type _ r low (omega arith) small,
        read_value_lem (p + 1) size_of_u64 (length key) _ after_type (omega arith) (omega arith)
            fits,
        read_bytes_lem (p + 1 + size_of_u64) key tail after_len (omega arith) pos,
      )
