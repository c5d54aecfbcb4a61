-- ===== src/DataBlock/Search.antt =====
-- The lookup in a data block of src/data_blocks/block.rs: a binary search over the restart points, then a
-- scan of the entries behind one. The loops get their rounds as an argument.
use Prim.Native.Nat.Ordering.{lt, eq, gt}
use lsm_rs.Prelude.{
  ℕ, zero, suc, ◌+◌, ◌-◌, ◌*◌, ◌/◌, [], Option, none, some, Bool, ltb, true, false, ◌==◌,
  if◌then◌else◌,
}
use lsm_rs.Key.{Key, cmp, key_eq}
use lsm_rs.Outcome.{Outcome, ok, panicked, diverged, ◌>>=◌, ◌>>◌, assert}
use lsm_rs.DataBlock.{
  DataBlock, DataEntry, SearchResult, exact_match, range, get_entry_at_offset, get_restart_offset,
  byte_len, restart_list_len,
}

module _ {B : Type 0} where
  unfoldable pub search_restarts : ℕ → DataBlock B → Key → (start end : ℕ) → Outcome SearchResult
  search_restarts zero block key start end = diverged
  search_restarts (suc fuel) block key start end =
      if ltb 1 (end - start)
      then (let mid = start + (end - start) / 2 in
          get_restart_offset block mid >>= λ offset.
          (get_entry_at_offset block offset [] >>= λ r. elim (cmp r.0 key) [
            | eq ↦ ok (exact_match r.1)
            | lt ↦ search_restarts fuel block key mid end
            | gt ↦ search_restarts fuel block key start mid
          ]))
      else ok (range start end)

  -- "There is no reset at the very end so we need to include that part in the sequential search"
  unfoldable pub range_end : DataBlock B → ℕ → ℕ → Outcome ℕ
  range_end block rl_len end =
      if end + 1 == rl_len then ok (byte_len block) else get_restart_offset block end

  unfoldable pub finish_search : DataBlock B → ℕ → SearchResult → Outcome SearchResult
  finish_search block rl_len (exact_match entry) = ok (exact_match entry)
  finish_search block rl_len (range start end) =
      range_end block rl_len end >>= λ end'. ok (range start end')

  unfoldable pub binary_search : DataBlock B → Key → Outcome SearchResult
  binary_search block key = do
    rl_len ← restart_list_len block
    assert (ltb 0 rl_len)
    r ← search_restarts (rl_len + 1) block key 0 (rl_len - 1)
    finish_search block rl_len r

  -- The `while` of `get_by_key`.
  unfoldable pub scan : ℕ → DataBlock B → Key → (pos end : ℕ) → Key → Outcome (Option DataEntry)
  scan zero block key pos end last_key = diverged
  scan (suc fuel) block key pos end last_key =
      if ltb pos end
      then (get_entry_at_offset block pos last_key >>= λ r. elim (key_eq key r.0) [
        | true ↦ ok (some r.1)
        | false ↦ scan fuel block key r.1.next_offset end r.0
      ])
      else ok none

  unfoldable pub scan_result : DataBlock B → Key → SearchResult → Outcome (Option DataEntry)
  scan_result block key (exact_match entry) = ok (some entry)
  scan_result block key (range start end) = do
    pos ← get_restart_offset block start
    scan (end + 1) block key pos end []

  -- `check` is that of the bloom filter.
  unfoldable pub get_by_key : (B → Key → Bool) → DataBlock B → Key → Outcome (Option DataEntry)
  get_by_key check block key =
      if check block.bloom_filter key
      then (binary_search block key >>= scan_result block key)
      else ok none

  -- The steps from a restart point of `get_entry_at_index`.
  unfoldable pub walk : ℕ → DataBlock B → Key × DataEntry → Outcome (Key × DataEntry)
  walk zero block r = ok r
  walk (suc steps) block r = get_entry_at_offset block r.1.next_offset r.0 >>= walk steps block

  unfoldable pub get_entry_at_index : DataBlock B → ℕ → Outcome (Key × DataEntry)
  get_entry_at_index block index = if block.restart_interval == 0 then panicked else do
    let restart_pos = index / block.restart_interval
    restart_offset ← get_restart_offset block restart_pos
    first ← get_entry_at_offset block restart_offset []
    walk (index - restart_pos * block.restart_interval) block first
