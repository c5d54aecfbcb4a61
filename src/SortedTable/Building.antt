-- ===== src/SortedTable/Building.antt =====
-- The table builder of src/sorted_table/builder.rs from its first entry on: how its counts, its index and
-- the data blocks that it makes go together.
use native.Mathlib.Nat.{mul-add-mod_self_right, mod-eq_of_lt, add-mul}
use lsm_rs.Prelude.{
  ℕ, ◌+◌, ◌*◌, ◌%◌, ◌≤◌, ◌<◌, ◌≡◌, refl, ap, sym, subst, ◌∙◌, List, [], ◌∷◌, ◌++◌, Option, none,
  some, true, false, All, All-append, leb, drop, ◌==◌, arith, Bool-cases, inl, inr, append_assoc,
}
use lsm_rs.Bytes.{u32_mod}
use lsm_rs.Key.{Key, Value}
use lsm_rs.Outcome.{Returns, Returns-bind}
use lsm_rs.Params.{Params}
use lsm_rs.DataBlock.{DataBlock}
use lsm_rs.DataBlock.Builder as Blocks
use lsm_rs.DataBlock.Builder.{BloomFilter, DataBlockBuilder, PrefixedKey}
use lsm_rs.Manifest.Metadata.{DatabaseMetadata, generate_next_data_block_id}
use lsm_rs.DataBlock.RoundTrip.{finished}
use lsm_rs.SortedTable.Indexing.{ids_of, index_ids, total, ids_of-snoc, index_ids-snoc, total-snoc}
use lsm_rs.SortedTable.Builder.{
  TableBuilder, BlockStore, prefix_length, or_key, key_prefix, store_block, finish_block,
  push_index, next_block, end_block, add_entry,
}

prefix_length-nil : (key : Key) → prefix_length key [] ≡ 0
unfolding prefix_length
prefix_length-nil [] = refl
prefix_length-nil (k ∷ key) = refl

module _ (F : BloomFilter) (params : Params) (old : List (ℕ × DataBlock F.Bloom)) where
  abbrev interval : ℕ
  interval = params.block_restart_interval

  abbrev most : ℕ
  most = params.max_key_block_size

  -- After `n` entries, `made` are the blocks that the builder has finished.
  pub record IsBuilding (b : TableBuilder F.Bloom) (s : BlockStore F.Bloom) (n : ℕ)
      (made : List (ℕ × DataBlock F.Bloom)) : Type 0 where
    pub blocks : s.blocks ≡ old ++ made
    pub index : index_ids b.block_index ≡ ids_of made
    pub bounds : All (λ p. (0 < p.1.num_entries) × (p.1.num_entries ≤ most)) made
    pub counted : total made + b.block_entry_count ≡ n
    pub position : b.data_block.position ≡ b.block_entry_count
    pub few : b.block_entry_count ≤ most
    pub rounds : ℕ
    pub restarts : b.block_entry_count ≡ rounds * interval + b.restart_count
    pub in_round : b.restart_count ≤ interval
    pub fresh : b.restart_count ≡ 0 → b.last_key ≡ []
    pub has_key : 0 < b.block_entry_count → (k : Key) × (b.index_key ≡ some k)

  -- The keys at the restart points of a block are whole.
  key_prefix_whole :
      (b : TableBuilder F.Bloom) (s : BlockStore F.Bloom) (n : ℕ)
      (made : List (ℕ × DataBlock F.Bloom)) (key : Key)
      → IsBuilding b s n made
      → (b.data_block.position % interval == 0) ≡ true
      → (key_prefix F params b key).1 ≡ 0
  unfolding key_prefix
  key_prefix_whole b s n made key h e = elim (Bool-cases (b.restart_count == interval)) [
    | inl full ↦ rw full refl
    | inr part ↦
        let less : b.restart_count < interval = ground (arith, part, h.in_round) in
        let rest : b.data_block.position % interval ≡ b.restart_count =
          ap (λ p. p % interval) (h.position ∙ h.restarts)
          ∙ mul-add-mod_self_right h.rounds interval b.restart_count
          ∙ mod-eq_of_lt less in
        rw part (ap (prefix_length key) (h.fresh (ground (arith, e, rest))) ∙ prefix_length-nil key)
  ]

  -- The data block builder takes an entry, unless an assert fails.
  add_entry-position :
      (d : DataBlockBuilder F.Bloom) (k : PrefixedKey) (key : Key) (seq op : ℕ) (v : Value)
      → 0 < interval
      → ((d.position % interval == 0) ≡ true → k.prefix_len ≡ 0)
      → Returns (Blocks.add_entry F interval d k key seq op v) (λ d'. d'.position ≡ d.position + 1)
  unfolding Blocks.add_entry Blocks.push_restart
  add_entry-position d k key seq op v positive whole =
      let some_interval : (interval == 0) ≡ false = ground (arith, positive) in
      elim (Bool-cases (d.position % interval == 0)) [
        | inl e ↦
            let zero_prefix : (k.prefix_len == 0) ≡ true = ground (arith, whole e) in
            rw (some_interval, e, zero_prefix) refl
        | inr e ↦ rw (some_interval, e) refl
      ]

  made_block :
      (s : BlockStore F.Bloom) (d : DataBlockBuilder F.Bloom)
      → (d.position == 0) ≡ false
      → Blocks.finish F interval s.manifest d ≡ (
        (generate_next_data_block_id s.manifest).1,
        some ((generate_next_data_block_id s.manifest).0, finished F interval d),
      )
  unfolding Blocks.finish finished
  made_block s d nonempty = rw (nonempty, Blocks.finish) refl

  entries_of_block :
      (d : DataBlockBuilder F.Bloom) → (finished F interval d).num_entries ≡ d.position
  unfolding finished
  entries_of_block d = refl

  -- A block with entries is finished and stored.
  pub finish_block-some :
      (s : BlockStore F.Bloom) (d : DataBlockBuilder F.Bloom)
      → 0 < d.position
      → (r : ℕ × DataBlock F.Bloom) × (manifest : DatabaseMetadata) × (finish_block F params s d
          ≡ (some r.0, record { manifest = manifest; blocks = s.blocks ++ r ∷ [] }))
        × (r.1.num_entries ≡ d.position)
  unfolding finish_block store_block
  finish_block-some s d positive = (
    ((generate_next_data_block_id s.manifest).0, finished F interval d),
    (generate_next_data_block_id s.manifest).1,
    ap (store_block F params s) (made_block s d (ground (arith, positive))),
    entries_of_block d,
  )

  next_round :
      (b : TableBuilder F.Bloom) (s : BlockStore F.Bloom) (n : ℕ)
      (made : List (ℕ × DataBlock F.Bloom)) (key : Key)
      → IsBuilding b s n made
      → 0 < interval
      → (rounds : ℕ) × (b.block_entry_count + 1
          ≡ rounds * interval + ((key_prefix F params b key).0 + 1))
        × ((key_prefix F params b key).0 + 1 ≤ interval)
  unfolding key_prefix
  next_round b s n made key h positive = elim (Bool-cases (b.restart_count == interval)) [
    | inl full ↦
        let e : b.restart_count ≡ interval = ground (arith, full) in
        rw full (
          h.rounds + 1,
          omega (arith, h.restarts, e, add-mul h.rounds 1 interval),
          omega (arith, positive),
        )
    | inr part ↦
        let less : b.restart_count < interval = ground (arith, part, h.in_round) in
        rw part (h.rounds, omega (arith, h.restarts), omega (arith, less))
  ]

  -- The state after an entry, before the block is looked at.
  grown :
      (b : TableBuilder F.Bloom) (s : BlockStore F.Bloom) (n : ℕ)
      (made : List (ℕ × DataBlock F.Bloom)) (key : Key) (d : DataBlockBuilder F.Bloom)
      → IsBuilding b s n made
      → b.block_entry_count < most
      → 0 < interval
      → d.position ≡ b.data_block.position + 1
      → IsBuilding
          (record b {
            index_key = or_key b.index_key key;
            block_entry_count = b.block_entry_count + 1;
            restart_count = (key_prefix F params b key).0 + 1;
            last_key = key;
            data_block = d;
          })
          s
          (n + 1)
          made
  unfolding or_key
  grown b s n made key d h room positive e = record {
    blocks = h.blocks;
    index = h.index;
    bounds = h.bounds;
    counted = omega (arith, h.counted);
    position = omega (arith, e, h.position);
    few = omega (arith, room);
    rounds = (next_round b s n made key h positive).0;
    restarts = (next_round b s n made key h positive).1;
    in_round = (next_round b s n made key h positive).2;
    fresh = λ z. absurd (omega (arith, z));
    has_key = λ z. some_key b.index_key;
  }
    where
      some_key : (o : Option Key) → (k : Key) × (or_key o key ≡ some k)
      some_key none = (key, refl)
      some_key (some k) = (k, refl)

  -- With room for one more entry.
  abbrev pub IsGrown : ℕ → TableBuilder F.Bloom × BlockStore F.Bloom → Type 0
  IsGrown n r =
      (made : List (ℕ × DataBlock F.Bloom)) × IsBuilding r.0 r.1 n made
      × (r.0.block_entry_count < most)

  -- What a new block with the entries so far adds to the blocks and to the index.
  abbrev pub HasBlock :
      TableBuilder F.Bloom
      → BlockStore F.Bloom
      → ℕ
      → List (ℕ × DataBlock F.Bloom)
      → Key
      → ℕ × DataBlock F.Bloom
      → Type 0
  HasBlock b s n made key r =
      (s.blocks ++ r ∷ [] ≡ old ++ (made ++ r ∷ []))
      × (index_ids (b.block_index ++ (key, r.0) ∷ []) ≡ ids_of (made ++ r ∷ []))
      × All (λ p. (0 < p.1.num_entries) × (p.1.num_entries ≤ most)) (made ++ r ∷ [])
      × (total (made ++ r ∷ []) ≡ n)

  pub block-HasBlock :
      (b : TableBuilder F.Bloom) (s : BlockStore F.Bloom) (n : ℕ)
      (made : List (ℕ × DataBlock F.Bloom)) (key : Key) (r : ℕ × DataBlock F.Bloom)
      → IsBuilding b s n made
      → 0 < b.block_entry_count
      → r.1.num_entries ≡ b.data_block.position
      → HasBlock b s n made key r
  block-HasBlock b s n made key r h some_entries count = (
    ap (λ l. l ++ r ∷ []) h.blocks ∙ append_assoc old made (r ∷ []),
    index_ids-snoc b.block_index (key, r.0)
        ∙ ap (λ l. l ++ r.0 ∷ []) h.index
        ∙ sym (ids_of-snoc made r),
    All-append _ made (r ∷ []) h.bounds (
      (omega (arith, count, h.position, some_entries), omega (arith, count, h.position, h.few)),
      tt,
    ),
    omega (arith, total-snoc made r, count, h.position, h.counted),
  )

  end_block-IsGrown :
      (b : TableBuilder F.Bloom) (s : BlockStore F.Bloom) (n : ℕ)
      (made : List (ℕ × DataBlock F.Bloom))
      → IsBuilding b s n made
      → 0 < b.block_entry_count
      → Returns (end_block F params b s) (IsGrown n)
  unfolding end_block next_block push_index Blocks.new
  end_block-IsGrown b s n made h some_entries =
      let (r, manifest, e, count) =
        finish_block-some s b.data_block (omega (arith, h.position, some_entries)) in
      let (key, has) = h.has_key some_entries in
      let has_block = block-HasBlock b s n made key r h some_entries count in
      subst (λ x. Returns (next_block F params b x) (IsGrown n)) (sym e)
        (rw (has, push_index)
          (
            made ++ r ∷ [],
            record {
              blocks = has_block.0;
              index = has_block.1;
              bounds = has_block.2;
              counted = omega (arith, has_block.3);
              position = refl;
              few = omega arith;
              rounds = 0;
              restarts = omega arith;
              in_round = omega arith;
              fresh = λ z. refl;
              has_key = λ z. absurd (omega (arith, z));
            },
            omega (arith, some_entries, h.few),
          ))

  -- One entry goes in, and a full block goes out.
  pub add_entry-IsBuilding :
      (b : TableBuilder F.Bloom) (s : BlockStore F.Bloom) (n : ℕ)
      (made : List (ℕ × DataBlock F.Bloom)) (key : Key) (seq op : ℕ) (v : Value)
      → IsBuilding b s n made
      → b.block_entry_count < most
      → 0 < interval
      → Returns (add_entry F params b s key seq op v) (IsGrown (n + 1))
  unfolding add_entry
  add_entry-IsBuilding b s n made key seq op v h room positive =
      Returns-bind
        (Blocks.add_entry F interval b.data_block
          (record {
            prefix_len = (key_prefix F params b key).1 % u32_mod;
            suffix = drop (key_prefix F params b key).1 key;
          })
          key seq op v)
        _ (λ d. d.position ≡ b.data_block.position + 1) (IsGrown (n + 1))
        (add_entry-position b.data_block _ key seq op v positive
          (λ e. ap (λ p. p % u32_mod) (key_prefix_whole b s n made key h e)))
        (λ d e.
          let h' = grown b s n made key d h room positive e in
          elim (Bool-cases (leb most (b.block_entry_count + 1))) [
            | inl full ↦ rw full (end_block-IsGrown _ s (n + 1) made h' (omega arith))
            | inr part ↦ rw part (made, h', ground (arith, part))
          ])
