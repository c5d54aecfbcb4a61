-- ===== src/Wal/Reader.antt =====
-- src/wal/reader.rs: the reader that rebuilds the memtable, in the default configuration.
use lsm_rs.Prelude.{
  ℕ, zero, suc, ◌+◌, ◌-◌, ◌/◌, ◌%◌, List, [], ◌++◌, none, some, Bool, true, false, length, take,
  drop, replicate, min, ltb, ◌==◌, if◌then◌else◌,
}
use lsm_rs.Key.{Key}
use lsm_rs.Bytes.{from_le, size_of_u64}
use lsm_rs.Outcome.{
  Outcome, ok, err, panicked, diverged, ◌>>=◌, ◌>>◌, assert, IoError, from_io_error,
}
use lsm_rs.Memtable
use lsm_rs.Memtable.{Memtable}
use lsm_rs.WriteBatch.Op.{put_op, delete_op}
use lsm_rs.Wal.{page_size, write_entry}
use lsm_rs.Wal.Files.{Files}

pub record WalReader : Type 0 where
  pub position : ℕ
  pub current_page : List ℕ

-- `disk::read_uncompressed` of a log file.
pub data Load : Type 0 where
  loaded : List ℕ → Load
  missing : Load

unfoldable pub load : Files → ℕ → Load
load fs k = elim (fs k) [ none ↦ missing | some f ↦ loaded f.content ]

-- `WalReader::new`
unfoldable pub new : Files → ℕ → Outcome WalReader
new fs start = elim (load fs (start / page_size)) [
  | missing ↦ err (from_io_error "Failed to open WAL file" IoError.not_found)
  | loaded page ↦ ok (record { position = start; current_page = page })
]

-- What one call of `read_from_log` leaves: its result, the buffer, and the reader.
abbrev pub Read : Type 0
Read = Bool × List ℕ × WalReader

-- A round of the loop of `read_from_log`: a `return` with its result, or the end of the body. Both
-- come with the bytes that the round copied.
pub data Round : Type 0 where
  finished : Bool → List ℕ → WalReader → Round
  again : List ℕ → WalReader → Round

-- "Move to next file?": at a page boundary the file of the position is loaded.
unfoldable pub move : Files → Bool → List ℕ → WalReader → Outcome Round
move fs maybe copied r =
    if r.position % page_size == 0
    then (elim (load fs (r.position / page_size)) [
      | loaded page ↦ ok (again copied (record r { current_page = page }))
      | missing ↦
          if maybe
          then ok (finished false copied r)
          else err (from_io_error "Failed to open WAL file" IoError.not_found)
    ])
    else ok (again copied r)

-- The body of the `while`, with `n` bytes of the buffer still to fill; `copied` are the bytes that it
-- fills.
unfoldable pub round : Files → Bool → WalReader → ℕ → Outcome Round
round fs maybe r n =
    let offset = r.position % page_size in
    let len = min n (length r.current_page - offset) in
    if ltb (length r.current_page) offset
    then panicked
    else if ltb 0 len
    then move fs maybe (take len (drop offset r.current_page))
        (record r { position = r.position + len })
    else if offset == 0
    then move fs maybe [] r
    else (assert (ltb (length r.current_page) page_size) >> ok (finished false [] r))

-- The buffer is zeros before it is filled.
unfoldable pub read_loop : ℕ → Files → Bool → WalReader → (n : ℕ) → List ℕ → Outcome Read
read_loop fuel fs maybe r zero out = ok (true, out, r)
read_loop zero fs maybe r (suc n) out = diverged
read_loop (suc fuel) fs maybe r (suc n) out = elim (round fs maybe r (suc n)) [
  | ok (finished result copied r') ↦
      ok (result, out ++ (copied ++ replicate (suc n - length copied) 0), r')
  | ok (again copied r') ↦ read_loop fuel fs maybe r' (suc n - length copied) (out ++ copied)
  | err e ↦ err e
  | panicked ↦ panicked
  | diverged ↦ diverged
]

-- `buffer_len` is the length of `out`.
unfoldable pub read_from_log : ℕ → Files → WalReader → ℕ → Bool → Outcome Read
read_from_log fuel fs r buffer_len maybe = do
  assert (ltb 0 buffer_len)
  read_loop fuel fs maybe r buffer_len []

-- `read_value`: the flag that the read returns is not looked at.
unfoldable pub read_value : ℕ → Files → WalReader → ℕ → Outcome (ℕ × WalReader)
read_value fuel fs r size = do
  (full, bytes, r') ← read_from_log fuel fs r size false
  ok (from_le bytes, r')

unfoldable pub read_bytes : ℕ → Files → WalReader → ℕ → Outcome (List ℕ × WalReader)
read_bytes fuel fs r len = do (full, bytes, r') ← read_from_log fuel fs r len false; ok (bytes, r')

-- The branches on `op_type`.
unfoldable pub parse_put : ℕ → Files → WalReader → Key → Memtable → Outcome (WalReader × Memtable)
parse_put fuel fs r key memtable = do
  (val_len, r1) ← read_value fuel fs r size_of_u64
  (value, r2) ← read_bytes fuel fs r1 val_len
  ok (r2, Memtable.put memtable key value)

unfoldable pub parse_op :
    ℕ → Files → WalReader → ℕ → Key → Memtable → Outcome (WalReader × Memtable)
parse_op fuel fs r op_type key memtable =
    if op_type == put_op
    then parse_put fuel fs r key memtable
    else if op_type == delete_op
    then ok (r, Memtable.delete memtable key)
    else panicked

unfoldable pub parse_write_entry : ℕ → Files → WalReader → Memtable → Outcome (WalReader × Memtable)
parse_write_entry fuel fs r memtable = do
  (op_type, r1) ← read_value fuel fs r 1
  (key_len, r2) ← read_value fuel fs r1 size_of_u64
  (key, r3) ← read_bytes fuel fs r2 key_len
  parse_op fuel fs r3 op_type key memtable

pub record RecoveryResult : Type 0 where
  pub new_position : ℕ
  pub entries_recovered : ℕ

-- The loop of `run`: `count` entries are recovered so far. `steps` bounds its rounds and `fuel` those
-- of each read.
unfoldable pub run : ℕ → ℕ → Files → WalReader → Memtable → ℕ → Outcome (RecoveryResult × Memtable)
run zero fuel fs r memtable count = diverged
run (suc steps) fuel fs r memtable count = elim (read_from_log fuel fs r 1 true) [
  | ok (success, log_type, r') ↦ elim success [
    | false ↦ ok (record { new_position = r'.position; entries_recovered = count }, memtable)
    | true ↦ elim (from_le log_type == write_entry) [
      | false ↦ panicked
      | true ↦ elim (parse_write_entry fuel fs r' memtable) [
        | ok (r'', memtable') ↦ run steps fuel fs r'' memtable' (count + 1)
        | err e ↦ err e
        | panicked ↦ panicked
        | diverged ↦ diverged
      ]
    ]
  ]
  | err e ↦ err e
  | panicked ↦ panicked
  | diverged ↦ diverged
]

-- The reading half of `WriteAheadLog::open`.
unfoldable pub recover : ℕ → ℕ → Files → ℕ → Memtable → Outcome (RecoveryResult × Memtable)
recover steps fuel fs start memtable = do r ← new fs start; run steps fuel fs r memtable 0
