-- ===== src/Key.antt =====
-- src/lib.rs: `Key` and `Value` are byte strings. Keys are compared as `&[u8]`, byte by byte from
-- the front, a proper prefix first.
use Prim.Native.Nat.Ordering.{lt, eq, gt}
use lsm_rs.Prelude.{ℕ, ◌≡◌, refl, Bool, true, false, List, [], ◌∷◌, arith, Ordering, compare}

abbrev pub Key : Type 0
Key = List ℕ

abbrev pub Value : Type 0
Value = List ℕ

-- `Ord::cmp` of `&[u8]`.
unfoldable pub cmp : Key → Key → Ordering
cmp [] [] = eq
cmp [] (b ∷ bs) = lt
cmp (a ∷ as') [] = gt
cmp (a ∷ as') (b ∷ bs) = elim (compare a b) [ lt ↦ lt | eq ↦ cmp as' bs | gt ↦ gt ]

-- The operators `==`, `<` and `<=` of `&[u8]`.
abbrev pub key_eq : Key → Key → Bool
key_eq a b = elim (cmp a b) [ eq ↦ true | _ ↦ false ]

abbrev pub key_lt : Key → Key → Bool
key_lt a b = elim (cmp a b) [ lt ↦ true | _ ↦ false ]

abbrev pub key_le : Key → Key → Bool
key_le a b = elim (cmp a b) [ gt ↦ false | _ ↦ true ]

infix 50 ◌≺◌
abbrev pub ◌≺◌ : Key → Key → Type 0
a ≺ b = cmp a b ≡ lt

pub cmp_refl : (a : Key) → cmp a a ≡ eq
unfolding cmp
cmp_refl [] = refl
cmp_refl (a ∷ as') = ground (arith, cmp_refl as')

pub eq_of_cmp : (a b : Key) → cmp a b ≡ eq → a ≡ b
unfolding cmp
eq_of_cmp [] [] h = refl
eq_of_cmp [] (b ∷ bs) h = ground arith
eq_of_cmp (a ∷ as') [] h = ground arith
eq_of_cmp (a ∷ as') (b ∷ bs) h = ground (arith, eq_of_cmp as' bs)

pub lt_of_gt : (a b : Key) → cmp a b ≡ gt → cmp b a ≡ lt
unfolding cmp
lt_of_gt [] [] h = ground arith
lt_of_gt [] (b ∷ bs) h = ground arith
lt_of_gt (a ∷ as') [] h = refl
lt_of_gt (a ∷ as') (b ∷ bs) h = ground (arith, lt_of_gt as' bs)

pub gt_of_lt : (a b : Key) → cmp a b ≡ lt → cmp b a ≡ gt
unfolding cmp
gt_of_lt [] [] h = ground arith
gt_of_lt [] (b ∷ bs) h = refl
gt_of_lt (a ∷ as') [] h = ground arith
gt_of_lt (a ∷ as') (b ∷ bs) h = ground (arith, gt_of_lt as' bs)

pub ≺_trans : (a b c : Key) → a ≺ b → b ≺ c → a ≺ c
unfolding cmp
≺_trans [] [] c h k = k
≺_trans [] (b ∷ bs) [] h k = ground arith
≺_trans [] (b ∷ bs) (c ∷ cs) h k = refl
≺_trans (a ∷ as') [] c h k = ground arith
≺_trans (a ∷ as') (b ∷ bs) [] h k = ground arith
≺_trans (a ∷ as') (b ∷ bs) (c ∷ cs) h k = ground (arith, ≺_trans as' bs cs)
