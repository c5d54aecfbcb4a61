-- ===== src/DataBlock/Groups.antt =====
-- The items of a data block of src/data_blocks in groups, one for each restart point, and where the search
-- for a key can leave groups out.
use lsm_rs.Prelude.{
  ℕ, zero, suc, ◌<◌, ◌≡◌, refl, ap, sym, subst, ◌∙◌, List, [], ◌∷◌, ◌++◌, none, length, take, All,
  arith, append_assoc,
}
use lsm_rs.Key.{Key, ◌≺◌, gt_of_lt}
use lsm_rs.Memtable.Upsert.{find, IsSorted}
use lsm_rs.DataBlock.Items.{Item, encode, encode_all, entries_of, IsChain}

unfoldable pub items_of : List (List Item) → List Item
items_of [] = []
items_of (g ∷ groups) = g ++ items_of groups

pub items_of-append : (gs hs : List (List Item)) → items_of (gs ++ hs) ≡ items_of gs ++ items_of hs
unfolding items_of
items_of-append [] hs = refl
items_of-append (g ∷ gs) hs =
    ap (λ l. g ++ l) (items_of-append gs hs) ∙ sym (append_assoc g (items_of gs) (items_of hs))

pub encode_all-append : (xs ys : List Item) → encode_all (xs ++ ys) ≡ encode_all xs ++ encode_all ys
unfolding encode_all
encode_all-append [] ys = refl
encode_all-append (x ∷ xs) ys =
    ap (λ l. encode x ++ l) (encode_all-append xs ys)
    ∙ sym (append_assoc (encode x) (encode_all xs) (encode_all ys))

abbrev pub Below : Key → List Item → Type 0
Below key items = All (λ i. i.key ≺ key) items

abbrev pub Over : Key → List Item → Type 0
Over key items = All (λ i. key ≺ i.key) items

-- Items with smaller keys in front, and items with greater keys behind, do not matter.
pub find-Below :
    (key : Key) (xs ys : List Item)
    → Below key xs
    → find (entries_of (xs ++ ys)) key ≡ find (entries_of ys) key
unfolding find
find-Below key [] ys h = refl
find-Below key (x ∷ xs) ys (h, hs) = ground (arith, h, find-Below key xs ys hs)

find-Over_all : (key : Key) (xs : List Item) → Over key xs → find (entries_of xs) key ≡ none
unfolding find
find-Over_all key [] h = refl
find-Over_all key (x ∷ xs) (h, hs) = ground (arith, gt_of_lt key x.key h, find-Over_all key xs hs)

pub find-Over :
    (key : Key) (xs ys : List Item)
    → Over key ys
    → find (entries_of (xs ++ ys)) key ≡ find (entries_of xs) key
unfolding find
find-Over key [] ys h = find-Over_all key ys h
find-Over key (x ∷ xs) ys h = ground (arith, find-Over key xs ys h)

-- In sorted items the keys in front of one are smaller, and those behind it greater.
entries-All : (k : Key) (xs : List Item) → All (λ x. k ≺ x.0) (entries_of xs) → Over k xs
entries-All k [] h = tt
entries-All k (x ∷ xs) (h, hs) = (h, entries-All k xs hs)

pub sorted_behind :
    (xs : List Item) (i : Item) (ys : List Item)
    → IsSorted (entries_of (xs ++ i ∷ ys))
    → Over i.key ys
sorted_behind [] i ys h = entries-All i.key ys h.0
sorted_behind (x ∷ xs) i ys h = sorted_behind xs i ys h.1

middle_above :
    (k : Key) (xs : List Item) (i : Item) (ys : List Item)
    → All (λ x. k ≺ x.0) (entries_of (xs ++ i ∷ ys))
    → k ≺ i.key
middle_above k [] i ys h = h.0
middle_above k (x ∷ xs) i ys h = middle_above k xs i ys h.1

pub sorted_front :
    (xs : List Item) (i : Item) (ys : List Item)
    → IsSorted (entries_of (xs ++ i ∷ ys))
    → Below i.key xs
sorted_front [] i ys h = tt
sorted_front (x ∷ xs) i ys h = (middle_above x.key xs i ys h.0, sorted_front xs i ys h.1)

-- An item with its full key starts a chain.
pub IsChain-from :
    (previous : Key) (xs : List Item) (i : Item) (ys : List Item)
    → i.prefix_len ≡ 0
    → IsChain previous (xs ++ i ∷ ys)
    → IsChain [] (i ∷ ys)
IsChain-from previous [] i ys e c =
    (c.0, omega (arith, e), subst (λ n. take n [] ≡ take n i.key) (sym e) refl, c.3)
IsChain-from previous (x ∷ xs) i ys e c = IsChain-from x.key xs i ys e c.3

-- A list is cut in front of one of its elements.
pub cut {ℓ} :
    {A : Type ℓ} (n : ℕ) (xs : List A)
    → n < length xs
    → (front : List A) × (x : A) × (back : List A) × (xs ≡ front ++ x ∷ back) × (length front ≡ n)
cut n [] h = absurd (omega (arith, h))
cut zero (x ∷ xs) h = ([], x, xs, refl, refl)
cut (suc n) (x ∷ xs) h =
    let (front, y, back, e, l) = cut n xs (omega (arith, h)) in
    (x ∷ front, y, back, ap (λ zs. x ∷ zs) e, ap suc l)

pub IsChain-front :
    (previous : Key) (xs ys : List Item) → IsChain previous (xs ++ ys) → IsChain previous xs
IsChain-front previous [] ys c = tt
IsChain-front previous (x ∷ xs) ys c = (c.0, c.1, c.2, IsChain-front x.key xs ys c.3)
