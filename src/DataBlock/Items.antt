-- ===== src/DataBlock/Items.antt =====
-- The entries of a data block of src/data_blocks as items: a key, the part of it that the entry before has
-- too, and a version. The scan of the block finds what a search of the items finds.
use lsm_rs.Prelude.{
  ℕ, zero, suc, ◌+◌, ◌≤◌, ◌<◌, ◌≡◌, refl, ap, sym, ◌∙◌, List, [], ◌∷◌, ◌++◌, Option, none, some,
  true, false, length, take, drop, ltb, arith, length-append, take-append-drop, append_assoc,
  Bool-cases, inl, inr,
}
use lsm_rs.Bytes.{u32_mod}
use lsm_rs.Key.{Key, Value, key_eq, cmp_refl, eq_of_cmp}
use lsm_rs.Outcome.{ok, ◌>>=◌, Returns}
use lsm_rs.EntryType.{put, delete}
use lsm_rs.WriteBatch.Op.{put_op, delete_op}
use lsm_rs.Memtable.{MemtableEntry, value, deletion, Entries, get_seq_number}
use lsm_rs.Memtable.Upsert.{find}
use lsm_rs.DataBlock.{
  DataBlock, DataEntry, EntryHeader, entry_header_bytes, entry_header_len, header_length,
  get_entry_at_offset, get_value, get_sequence_number, get_type,
}
use lsm_rs.DataBlock.Search.{scan}
use lsm_rs.DataBlock.Reading.{
  Fits, IsStored, get_entry_at_offset-IsStored, get_sequence_number-IsStored, get_put-IsStored,
  get_delete-IsStored, length-entry_header_bytes,
}

pub record Item : Type 0 where
  pub key : Key
  pub prefix_len : ℕ
  pub version : MemtableEntry

abbrev pub op_of : MemtableEntry → ℕ
op_of (value seq v) = put_op
op_of (deletion seq) = delete_op

-- A deletion is stored with an empty value.
abbrev pub value_of : MemtableEntry → Value
value_of (value seq v) = v
value_of (deletion seq) = []

unfoldable pub header_of : Item → EntryHeader
header_of i = record {
  prefix_len = i.prefix_len;
  suffix_len = length (drop i.prefix_len i.key);
  entry_type = op_of i.version;
  seq_number = get_seq_number i.version;
  value_length = length (value_of i.version);
}

unfoldable pub encode : Item → List ℕ
encode i = entry_header_bytes (header_of i) ++ (drop i.prefix_len i.key ++ value_of i.version)

unfoldable pub encode_all : List Item → List ℕ
encode_all [] = []
encode_all (i ∷ items) = encode i ++ encode_all items

abbrev pub entries_of : List Item → Entries
entries_of [] = []
entries_of (i ∷ items) = (i.key, i.version) ∷ entries_of items

-- Each key starts as the key before it, as far as its prefix says, and the fields fit their widths.
abbrev pub IsChain : Key → List Item → Type 0
IsChain previous [] = Unit
IsChain previous (i ∷ items) =
    Fits (header_of i)
    × (i.prefix_len ≤ length previous)
    × (take i.prefix_len previous ≡ take i.prefix_len i.key)
    × IsChain i.key items

pub length-encode :
    (i : Item)
    → length (encode i) ≡ entry_header_len + (header_of i).suffix_len + (header_of i).value_length
unfolding encode header_of
length-encode i = omega (
  arith,
  length-append (entry_header_bytes (header_of i)) (drop i.prefix_len i.key ++ value_of i.version),
  length-append (drop i.prefix_len i.key) (value_of i.version),
  length-entry_header_bytes (header_of i),
)

key_eq_sym : (a b : Key) → key_eq a b ≡ key_eq b a
key_eq_sym a b = ground (arith, eq_of_cmp a b, eq_of_cmp b a, cmp_refl a)

module _ {B : Type 0} (block : DataBlock B) where
  -- The getters of an entry give a version.
  unfoldable pub Reads : DataEntry → MemtableEntry → Type 0
  Reads d (value seq v) =
      (get_sequence_number block d ≡ ok seq)
      × (get_type block d ≡ ok put)
      × (get_value block d ≡ ok (some v))
  Reads d (deletion seq) =
      (get_sequence_number block d ≡ ok seq)
      × (get_type block d ≡ ok delete)
      × (get_value block d ≡ ok none)

  -- A lookup gives an entry for a version, and none for none.
  abbrev pub Answers : Option MemtableEntry → Option DataEntry → Type 0
  Answers none none = Unit
  Answers (some e) (some d) = Reads d e
  Answers none (some d) = ⊥
  Answers (some e) none = ⊥

  -- The items stand in the block from the end of `pre` on, in front of the restart list.
  pub record Stands (pre : List ℕ) (items : List Item) (rest : List ℕ) : Type 0 where
    pub bytes : block.bytes ≡ pre ++ (encode_all items ++ rest)
    pub before_restarts : length pre + length (encode_all items) ≤ block.restart_list_start
    pub small : block.restart_list_start < u32_mod

  first-IsStored :
      (pre : List ℕ) (i : Item) (items : List Item) (rest : List ℕ)
      → Fits (header_of i)
      → Stands pre (i ∷ items) rest
      → IsStored block pre
          (header_of i)
          (drop i.prefix_len i.key)
          (value_of i.version)
          (encode_all items ++ rest)
  unfolding encode_all encode header_of
  first-IsStored pre i items rest f s = record {
    bytes = s.bytes ∙ ap (λ l. pre ++ l) shape;
    fits = f;
    suffix_len = refl;
    value_length = refl;
    before_restarts =
        omega
          (arith, s.before_restarts, length-append (encode i) (encode_all items), length-encode i);
    small = s.small;
  }
    where
      shape :
          (encode i ++ encode_all items) ++ rest
          ≡ entry_header_bytes (header_of i)
            ++ (drop i.prefix_len i.key ++ (value_of i.version ++ (encode_all items ++ rest)))
      shape =
          let behind = encode_all items ++ rest in
          append_assoc (encode i) (encode_all items) rest
          ∙ append_assoc (entry_header_bytes (header_of i))
              (drop i.prefix_len i.key ++ value_of i.version) behind
          ∙ ap (λ l. entry_header_bytes (header_of i) ++ l)
              (append_assoc (drop i.prefix_len i.key) (value_of i.version) behind)

  next-Stands :
      (pre : List ℕ) (i : Item) (items : List Item) (rest : List ℕ)
      → Stands pre (i ∷ items) rest
      → Stands (pre ++ encode i) items rest
  unfolding encode_all
  next-Stands pre i items rest s = record {
    bytes =
        s.bytes
        ∙ ap (λ l. pre ++ l) (append_assoc (encode i) (encode_all items) rest)
        ∙ sym (append_assoc pre (encode i) (encode_all items ++ rest));
    before_restarts = omega (
      arith,
      s.before_restarts,
      length-append (encode i) (encode_all items),
      length-append pre (encode i),
    );
    small = s.small;
  }

  pub first-Reads :
      (pre : List ℕ) (i : Item) (items : List Item) (rest : List ℕ) (next : ℕ)
      → Fits (header_of i)
      → Stands pre (i ∷ items) rest
      → Reads (record { offset = length pre; next_offset = next }) i.version
  unfolding Reads header_of get_seq_number
  first-Reads pre i items rest next f s = reads i.version refl
    where
      stored :
          IsStored block pre
            (header_of i)
            (drop i.prefix_len i.key)
            (value_of i.version)
            (encode_all items ++ rest)
      stored = first-IsStored pre i items rest f s

      seq :
          get_sequence_number block (record { offset = length pre; next_offset = next })
          ≡ ok (get_seq_number i.version)
      seq = get_sequence_number-IsStored block pre _ _ _ _ stored next

      reads :
          (v : MemtableEntry)
          → i.version ≡ v
          → Reads (record { offset = length pre; next_offset = next }) v
      reads (value n v) e =
          let both = get_put-IsStored block pre _ _ _ _ stored next (ap op_of e) in
          (
            seq ∙ ap (λ w. ok (get_seq_number w)) e,
            both.0,
            both.1 ∙ ap (λ w. ok (some (value_of w))) e,
          )
      reads (deletion n) e =
          let both = get_delete-IsStored block pre _ _ _ _ stored next (ap op_of e) in
          (seq ∙ ap (λ w. ok (get_seq_number w)) e, both.0, both.1)

  -- The first item is read as its key, and as the position of the second.
  pub read_first :
      (pre : List ℕ) (i : Item) (items : List Item) (rest : List ℕ) (offset : ℕ) (previous : Key)
      → IsChain previous (i ∷ items)
      → Stands pre (i ∷ items) rest
      → offset + header_length ≡ length pre
      → get_entry_at_offset block offset previous
        ≡ ok (i.key, record { offset = length pre; next_offset = offset + length (encode i) })
  unfolding header_of
  read_first pre i items rest offset previous c s at =
      get_entry_at_offset-IsStored block pre _ _ _ _ (first-IsStored pre i items rest c.0 s) offset
        previous at c.1
      ∙ ap (λ k. ok (k, record { offset = length pre; next_offset = next }))
          (ap (λ l. l ++ drop i.prefix_len i.key) c.2 ∙ take-append-drop i.prefix_len i.key)
      ∙ ap (λ n. ok (i.key, record { offset = length pre; next_offset = n })) next_lem
    where
      next : ℕ
      next = offset + entry_header_len + (header_of i).suffix_len + (header_of i).value_length

      next_lem : next ≡ offset + length (encode i)
      next_lem = omega (arith, length-encode i)

  -- From the first of some items to the end of the last, the scan ends, and gives the first item with the
  -- key, if there is one.
  pub scan-find :
      (fuel : ℕ) (pre : List ℕ) (items : List Item) (rest : List ℕ) (key : Key) (pos end : ℕ)
      (previous : Key)
      → IsChain previous items
      → Stands pre items rest
      → pos + header_length ≡ length pre
      → pos + length (encode_all items) ≡ end
      → length (encode_all items) < fuel
      → Returns (scan fuel block key pos end previous) (Answers (find (entries_of items) key))
  unfolding scan find encode_all
  scan-find zero pre items rest key pos end previous c s at to f = absurd (omega (arith, f))
  scan-find (suc fuel) pre [] rest key pos end previous c s at to f =
      let stop : ltb pos end ≡ false = ground (arith, to) in rw stop tt
  scan-find (suc fuel) pre (i ∷ items) rest key pos end previous c s at to f =
      rw (more, read_first pre i items rest pos previous c s at)
        (elim (Bool-cases (key_eq key i.key)) [
          | inl e ↦ rw (e, ◌>>=◌, key_eq_sym i.key key ∙ e) (first-Reads pre i items rest _ c.0 s)
          | inr e ↦
              rw (e, ◌>>=◌, key_eq_sym i.key key ∙ e)
                (scan-find fuel (pre ++ encode i) items rest key (pos + length (encode i)) end i.key
                  c.3 (next-Stands pre i items rest s)
                  (omega (arith, at, length-append pre (encode i)))
                  (omega (arith, to, length-append (encode i) (encode_all items)))
                  (omega (arith, f, length-append (encode i) (encode_all items), length-encode i)))
        ])
    where
      more : ltb pos end ≡ true
      more = ground (arith, to, length-append (encode i) (encode_all items), length-encode i)
