-- ===== src/DataBlock/Restarts.antt =====
-- The restart list of a data block of src/data_blocks: what the readers find in a block that holds groups
-- of items.
use lsm_rs.Prelude.{
  ℕ, ◌+◌, ◌-◌, ◌*◌, ◌/◌, ◌%◌, ◌<◌, ◌≡◌, refl, ap, sym, subst, ◌∙◌, List, [], ◌∷◌, ◌++◌, true,
  length, All, arith, length-append, append_assoc, ◌==◌,
}
use lsm_rs.Bytes.{to_le, length-to_le, from_le-to_le, size_of_u32, u32_mod}
use lsm_rs.Outcome.{ok}
use lsm_rs.Memtable.Upsert.{IsSorted}
use lsm_rs.DataBlock.{DataBlock, header_length, get_restart_offset, restart_list_len, byte_len}
use lsm_rs.DataBlock.Reading.{slice_middle}
use lsm_rs.DataBlock.Items.{Item, encode_all, entries_of, IsChain, Stands}
use lsm_rs.DataBlock.Groups.{items_of, items_of-append, encode_all-append, IsChain-from}

-- The offsets of the groups, from that of the first on.
unfoldable pub restart_bytes : ℕ → List (List Item) → List ℕ
restart_bytes offset [] = []
restart_bytes offset (g ∷ groups) =
    to_le size_of_u32 offset ++ restart_bytes (offset + length (encode_all g)) groups

length-restart_bytes :
    (offset : ℕ) (groups : List (List Item))
    → length (restart_bytes offset groups) ≡ size_of_u32 * length groups
unfolding restart_bytes
length-restart_bytes offset [] = refl
length-restart_bytes offset (g ∷ groups) = omega (
  arith,
  length-append (to_le size_of_u32 offset) (restart_bytes (offset + length (encode_all g)) groups),
  length-to_le size_of_u32 offset,
  length-restart_bytes (offset + length (encode_all g)) groups,
)

pub restart_bytes-append :
    (offset next : ℕ) (gs hs : List (List Item))
    → offset + length (encode_all (items_of gs)) ≡ next
    → restart_bytes offset (gs ++ hs) ≡ restart_bytes offset gs ++ restart_bytes next hs
unfolding restart_bytes items_of encode_all
restart_bytes-append offset next [] hs e =
    let e' : offset ≡ next = omega (arith, e) in ap (λ n. restart_bytes n hs) e'
restart_bytes-append offset next (g ∷ gs) hs e =
    ap (λ l. to_le size_of_u32 offset ++ l)
      (restart_bytes-append (offset + length (encode_all g)) next gs hs (
        omega (
          arith,
          e,
          ap length (encode_all-append g (items_of gs)),
          length-append (encode_all g) (encode_all (items_of gs)),
        )))
    ∙ sym (
        append_assoc (to_le size_of_u32 offset) (restart_bytes (offset + length (encode_all g)) gs)
          (restart_bytes next hs))

-- A group is not empty, and its first item has its full key.
abbrev pub IsGroup : List Item → Type 0
IsGroup [] = ⊥
IsGroup (i ∷ items) = i.prefix_len ≡ 0

pub IsGroup-at :
    (gs : List (List Item)) (g : List Item) (hs : List (List Item))
    → All IsGroup (gs ++ g ∷ hs)
    → IsGroup g
IsGroup-at [] g hs h = h.0
IsGroup-at (x ∷ gs) g hs h = IsGroup-at gs g hs h.1

-- The block holds the items of the groups, sorted by key, with a restart point for each group.
pub record Holds {B : Type 0} (block : DataBlock B) (groups : List (List Item)) : Type 0 where
  pub pre : List ℕ
  pub bytes :
      block.bytes ≡ pre ++ (encode_all (items_of groups) ++ restart_bytes header_length groups)
  pub length_pre : length pre ≡ header_length
  pub restarts : block.restart_list_start ≡ header_length + length (encode_all (items_of groups))
  pub small : block.restart_list_start < u32_mod
  pub chain : IsChain [] (items_of groups)
  pub starts : All IsGroup groups
  pub sorted : IsSorted (entries_of (items_of groups))

module _ {B : Type 0} (block : DataBlock B) (groups : List (List Item))
    (h : Holds block groups) where
  length-bytes : length block.bytes ≡ block.restart_list_start + size_of_u32 * length groups
  length-bytes = omega (
    arith,
    ap length h.bytes,
    length-append h.pre (encode_all (items_of groups) ++ restart_bytes header_length groups),
    length-append (encode_all (items_of groups)) (restart_bytes header_length groups),
    length-restart_bytes header_length groups,
    h.length_pre,
    h.restarts,
  )

  pub restart_list_len-Holds : restart_list_len block ≡ ok (length groups)
  unfolding restart_list_len
  restart_list_len-Holds =
      let z : ((length block.bytes - block.restart_list_start) % size_of_u32 == 0) ≡ true =
        ground (arith, length-bytes) in
      let q : (length block.bytes - block.restart_list_start) / size_of_u32 ≡ length groups =
        omega (arith, length-bytes) in
      rw (z, q) refl

  pub byte_len-Holds : byte_len block ≡ length (encode_all (items_of groups))
  unfolding byte_len
  byte_len-Holds = omega (arith, length-bytes, h.restarts, h.small)

  split_encoding :
      (gs hs : List (List Item))
      → groups ≡ gs ++ hs
      → encode_all (items_of groups) ≡ encode_all (items_of gs) ++ encode_all (items_of hs)
  split_encoding gs hs e =
      ap (λ l. encode_all (items_of l)) e
      ∙ ap encode_all (items_of-append gs hs)
      ∙ encode_all-append (items_of gs) (items_of hs)

  -- The restart point of a group is the offset of its first item.
  pub get_restart_offset-Holds :
      (gs : List (List Item)) (g : List Item) (hs : List (List Item))
      → groups ≡ gs ++ g ∷ hs
      → get_restart_offset block (length gs) ≡ ok (length (encode_all (items_of gs)))
  unfolding get_restart_offset restart_bytes
  get_restart_offset-Holds gs g hs e =
      rw
        (
          slice_middle block.bytes
              ((h.pre ++ encode_all (items_of groups)) ++ restart_bytes header_length gs)
              (to_le size_of_u32 at) (restart_bytes (at + length (encode_all g)) hs)
              (block.restart_list_start + length gs * size_of_u32) size_of_u32 shape place
              (length-to_le size_of_u32 at),
          from_le-to_le size_of_u32 at fits,
        )
        (ground arith)
    where
      at : ℕ
      at = header_length + length (encode_all (items_of gs))

      fits : at < u32_mod
      fits = omega (
        arith,
        h.restarts,
        h.small,
        ap length (split_encoding gs (g ∷ hs) e),
        length-append (encode_all (items_of gs)) (encode_all (items_of (g ∷ hs))),
      )

      shape :
          block.bytes
          ≡ ((h.pre ++ encode_all (items_of groups)) ++ restart_bytes header_length gs)
            ++ (to_le size_of_u32 at ++ restart_bytes (at + length (encode_all g)) hs)
      shape =
          h.bytes
          ∙ ap (λ l. h.pre ++ (encode_all (items_of groups) ++ l))
              (ap (restart_bytes header_length) e
                ∙ restart_bytes-append header_length at gs (g ∷ hs) refl)
          ∙ sym (
              append_assoc h.pre (encode_all (items_of groups))
                (restart_bytes header_length gs ++ restart_bytes at (g ∷ hs)))
          ∙ sym (
              append_assoc (h.pre ++ encode_all (items_of groups)) (restart_bytes header_length gs)
                (restart_bytes at (g ∷ hs)))

      place :
          length ((h.pre ++ encode_all (items_of groups)) ++ restart_bytes header_length gs)
          ≡ block.restart_list_start + length gs * size_of_u32
      place = omega (
        arith,
        length-append (h.pre ++ encode_all (items_of groups)) (restart_bytes header_length gs),
        length-append h.pre (encode_all (items_of groups)),
        length-restart_bytes header_length gs,
        h.length_pre,
        h.restarts,
      )

  -- The items from a group on stand behind those in front of it.
  pub Stands-Holds :
      (gs hs : List (List Item))
      → groups ≡ gs ++ hs
      → Stands block
          (h.pre ++ encode_all (items_of gs))
          (items_of hs)
          (restart_bytes header_length groups)
  Stands-Holds gs hs e = record {
    bytes =
        h.bytes
        ∙ ap (λ l. h.pre ++ (l ++ restart_bytes header_length groups)) (split_encoding gs hs e)
        ∙ ap (λ l. h.pre ++ l)
            (append_assoc (encode_all (items_of gs)) (encode_all (items_of hs))
              (restart_bytes header_length groups))
        ∙ sym (
            append_assoc h.pre (encode_all (items_of gs))
              (encode_all (items_of hs) ++ restart_bytes header_length groups));
    before_restarts = omega (
      arith,
      h.length_pre,
      h.restarts,
      ap length (split_encoding gs hs e),
      length-append h.pre (encode_all (items_of gs)),
      length-append (encode_all (items_of gs)) (encode_all (items_of hs)),
    );
    small = h.small;
  }

  -- From a group on the items are a chain.
  pub IsChain-Holds :
      (gs : List (List Item)) (i : Item) (g : List Item) (hs : List (List Item))
      → groups ≡ gs ++ (i ∷ g) ∷ hs
      → IsChain [] (i ∷ (g ++ items_of hs))
  unfolding items_of
  IsChain-Holds gs i g hs e =
      IsChain-from [] (items_of gs) i (g ++ items_of hs)
        (IsGroup-at gs (i ∷ g) hs (subst (All IsGroup) e h.starts))
        (subst (IsChain []) (ap items_of e ∙ items_of-append gs ((i ∷ g) ∷ hs)) h.chain)

  pub IsSorted-Holds :
      (gs : List (List Item)) (i : Item) (g : List Item) (hs : List (List Item))
      → groups ≡ gs ++ (i ∷ g) ∷ hs
      → IsSorted (entries_of (items_of gs ++ i ∷ (g ++ items_of hs)))
  unfolding items_of
  IsSorted-Holds gs i g hs e =
      subst (λ l. IsSorted (entries_of l)) (ap items_of e ∙ items_of-append gs ((i ∷ g) ∷ hs))
        h.sorted
