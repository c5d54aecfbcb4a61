-- ===== src/Wal/Durability.antt =====
-- What the sync of src/wal/writer.rs makes durable: the current file alone.
use lsm_rs.Prelude.{
  ℕ, zero, suc, ◌+◌, ◌/◌, ◌%◌, ◌≤◌, ◌<◌, ◌≡◌, ◌≢◌, ap, ==_iff, ◌∙◌, refl, sym, List, [], ◌∷◌,
  Option, some, none, length, drop, take, length-drop, arith, ◌==◌, ==_ne, Bool-cases, inl, inr,
}
use lsm_rs.Outcome.{Returns, Returns-imp}
use lsm_rs.Wal.{page_size}
use lsm_rs.Wal.Files.{
  Files, Handle, LogFile, update, write_bytes, overwrite, create, sync_data, advance,
}
use lsm_rs.Wal.Writer.{Disk, WalWriter, write_all, write_loop, write_step, write_len, sync}

abbrev pub durable_of : Option LogFile → Option (List ℕ)
durable_of none = none
durable_of (some f) = some f.durable

-- The bytes of a log file that survive a crash.
unfoldable pub durable : Files → ℕ → Option (List ℕ)
durable fs k = durable_of (fs k)

durable-update_ne :
    (fs : Files) (j k : ℕ) (f : Option LogFile) → k ≢ j → durable (update fs j f) k ≡ durable fs k
unfolding durable
durable-update_ne fs j k f h = rw (==_ne k j h)

overwritten_durable :
    (f : Option LogFile) (cursor : ℕ) (bytes : List ℕ)
    → durable_of (elim f [
      | none ↦ none
      | some g ↦ some (record g { content = overwrite g.content cursor bytes })
    ])
      ≡ durable_of f
overwritten_durable none cursor bytes = refl
overwritten_durable (some f) cursor bytes = refl

-- A write leaves the durable bytes of every file.
durable-write_bytes :
    (fs : Files) (h : Handle) (bytes : List ℕ) (k : ℕ)
    → durable (write_bytes fs h bytes) k ≡ durable fs k
unfolding durable write_bytes
durable-write_bytes fs h bytes k = elim (Bool-cases (k == h.fpos)) [
  | inl own ↦
      rw (own, overwritten_durable (fs h.fpos) h.cursor bytes)
        (ap (λ j. durable_of (fs j)) (sym ((==_iff k h.fpos).0 own)))
  | inr other ↦ rw other
]

-- The file `k` is behind the writer or its own, with the durable bytes given.
record Behind (d : Disk) (k : ℕ) (bytes : Option (List ℕ)) : Type 0 where
  in_file : d.1.log_file.fpos ≡ d.1.position / page_size
  behind : k ≤ d.1.position / page_size
  same : durable d.0 k ≡ bytes

write_step-Behind :
    (fs : Files) (w : WalWriter) (bytes : List ℕ) (n k : ℕ) (c : Option (List ℕ))
    → Behind (fs, w) k c
    → w.position % page_size + n ≤ page_size
    → Behind (write_step (fs, w) bytes n) k c
unfolding write_step advance create
write_step-Behind fs w bytes n k c h room =
    elim (Bool-cases (w.position % page_size + n == page_size)) [
      | inl full ↦ rw full (record {
        in_file = refl;
        behind = ground (arith, h.behind);
        same =
            durable-update_ne (write_bytes fs w.log_file (take n bytes)) _ k _
              (ground (arith, h.behind))
            ∙ (durable-write_bytes fs w.log_file (take n bytes) k ∙ h.same);
      })
      | inr part ↦ rw part (record {
        in_file = ground (arith, h.in_file);
        behind = ground (arith, h.behind);
        same = durable-write_bytes fs w.log_file (take n bytes) k ∙ h.same;
      })
    ]

write_step-position :
    (fs : Files) (w : WalWriter) (bytes : List ℕ) (n : ℕ)
    → (write_step (fs, w) bytes n).1.position ≡ w.position + n
unfolding write_step
write_step-position fs w bytes n = elim (Bool-cases (w.position % page_size + n == page_size)) [
  | inl e ↦ rw e
  | inr e ↦ rw e
]

-- The loop, with the position that it ends at.
write_loop-Behind :
    (fuel : ℕ) (fs : Files) (w : WalWriter) (bytes : List ℕ) (k : ℕ) (c : Option (List ℕ))
    → length bytes ≤ fuel
    → Behind (fs, w) k c
    → Returns
        (write_loop fuel (fs, w) bytes)
        (λ e. Behind e k c × (e.1.position ≡ w.position + length bytes))
unfolding write_loop
write_loop-Behind fuel fs w [] k c enough h = (h, omega arith)
write_loop-Behind zero fs w (b ∷ bytes) k c enough h = absurd (omega arith)
write_loop-Behind (suc fuel) fs w (b ∷ bytes) k c enough h =
    let n = write_len w (b ∷ bytes) in
    let d = write_step (fs, w) (b ∷ bytes) n in
    Returns-imp (write_loop fuel d (drop n (b ∷ bytes)))
      (λ e. Behind e k c × (e.1.position ≡ d.1.position + length (drop n (b ∷ bytes)))) _
      (write_loop-Behind fuel d.0 d.1 (drop n (b ∷ bytes)) k c
        (omega (arith, length-drop n (b ∷ bytes)))
        (write_step-Behind fs w (b ∷ bytes) n k c h (omega arith)))
      (λ e h'. (
        h'.0,
        omega (arith, h'.1, length-drop n (b ∷ bytes), write_step-position fs w (b ∷ bytes) n),
      ))

-- A page that a write fills and leaves behind has, after the write and the sync that follows it, the
-- durable bytes that it had before both: the sync is of the next file. The writer stands in the file
-- of its position.
pub sync_skips_full_page :
    (d : Disk) (bytes : List ℕ)
    → d.1.log_file.fpos ≡ d.1.position / page_size
    → d.1.position / page_size < (d.1.position + length bytes) / page_size
    → Returns (write_all d bytes) (λ e.
      durable (sync e).0 (d.1.position / page_size) ≡ durable d.0 (d.1.position / page_size))
unfolding write_all sync sync_data
sync_skips_full_page d bytes own full =
    let k = d.1.position / page_size in
    Returns-imp (write_all d bytes)
      (λ e. Behind e k (durable d.0 k) × (e.1.position ≡ d.1.position + length bytes)) _
      (write_loop-Behind (length bytes) d.0 d.1 bytes k (durable d.0 k) (omega arith)
        (record { in_file = own; behind = omega arith; same = refl }))
      (λ e h.
        durable-update_ne e.0 e.1.log_file.fpos k _ (ground (arith, h.0.in_file, h.1)) ∙ h.0.same)
