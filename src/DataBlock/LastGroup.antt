-- ===== src/DataBlock/LastGroup.antt =====
-- What an entry at the end of the last group of a data block of src/data_blocks changes.
use lsm_rs.Prelude.{
  ℕ, ◌+◌, ◌≡◌, refl, ap, sym, ◌∙◌, List, [], ◌∷◌, ◌++◌, length, All, arith, append_assoc,
  append-nil, flatten, map,
}
use lsm_rs.Bytes.{to_le, size_of_u32}
use lsm_rs.DataBlock.Items.{Item, encode_all}
use lsm_rs.DataBlock.Groups.{items_of}
use lsm_rs.DataBlock.Restarts.{IsGroup, restart_bytes}

pub nil_of : (gs : List (List Item)) → length gs ≡ 0 → gs ≡ []
nil_of [] e = refl
nil_of (g ∷ gs) e = absurd (omega (arith, e))

pub extended :
    (front : List (List Item)) (g : List Item) (i : Item)
    → items_of (front ++ (g ++ i ∷ []) ∷ []) ≡ items_of (front ++ g ∷ []) ++ i ∷ []
unfolding items_of
extended [] g i = append-nil (g ++ i ∷ []) ∙ ap (λ l. l ++ i ∷ []) (sym (append-nil g))
extended (x ∷ front) g i =
    ap (λ l. x ++ l) (extended front g i)
    ∙ sym (append_assoc x (items_of (front ++ g ∷ [])) (i ∷ []))

pub IsGroup-extended :
    (front : List (List Item)) (g : List Item) (i : Item)
    → All IsGroup (front ++ g ∷ [])
    → All IsGroup (front ++ (g ++ i ∷ []) ∷ [])
IsGroup-extended [] [] i h = absurd h.0
IsGroup-extended [] (x ∷ g) i h = h
IsGroup-extended (x ∷ front) g i h = (h.0, IsGroup-extended front g i h.1)

-- The restart points do not depend on what is in the last group.
pub same_restarts :
    (offset : ℕ) (front : List (List Item)) (g g' : List Item)
    → restart_bytes offset (front ++ g ∷ []) ≡ restart_bytes offset (front ++ g' ∷ [])
unfolding restart_bytes
same_restarts offset [] g g' = refl
same_restarts offset (x ∷ front) g g' =
    ap (λ l. to_le size_of_u32 offset ++ l)
      (same_restarts (offset + length (encode_all x)) front g g')

pub flatten-snoc :
    (words : List ℕ) (n : ℕ)
    → flatten (map (to_le size_of_u32) (words ++ n ∷ []))
      ≡ flatten (map (to_le size_of_u32) words) ++ to_le size_of_u32 n
unfolding flatten
flatten-snoc [] n = append-nil (to_le size_of_u32 n)
flatten-snoc (w ∷ words) n =
    ap (λ l. to_le size_of_u32 w ++ l) (flatten-snoc words n)
    ∙ sym (
        append_assoc (to_le size_of_u32 w) (flatten (map (to_le size_of_u32) words))
          (to_le size_of_u32 n))
