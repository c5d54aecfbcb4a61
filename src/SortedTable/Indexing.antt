-- ===== src/SortedTable/Indexing.antt =====
-- The identifiers and the entries of the data blocks of a table of src/sorted_table/builder.rs.
use lsm_rs.Prelude.{ℕ, ◌+◌, ◌≡◌, refl, ap, List, [], ◌∷◌, ◌++◌, arith}
use lsm_rs.Key.{Key}
use lsm_rs.DataBlock.{DataBlock}

abbrev pub ids_of {ℓ} : {B : Type ℓ} → List (ℕ × B) → List ℕ
ids_of [] = []
ids_of (p ∷ ps) = p.0 ∷ ids_of ps

abbrev pub index_ids : List (Key × ℕ) → List ℕ
index_ids [] = []
index_ids (p ∷ ps) = p.1 ∷ index_ids ps

-- The entries of all blocks.
abbrev pub total : {B : Type 0} → List (ℕ × DataBlock B) → ℕ
total [] = 0
total (p ∷ ps) = p.1.num_entries + total ps

pub ids_of-snoc :
    {B : Type 0} (ps : List (ℕ × DataBlock B)) (p : ℕ × DataBlock B)
    → ids_of (ps ++ p ∷ []) ≡ ids_of ps ++ p.0 ∷ []
ids_of-snoc [] p = refl
ids_of-snoc (q ∷ ps) p = ap (λ l. q.0 ∷ l) (ids_of-snoc ps p)

pub index_ids-snoc :
    (ps : List (Key × ℕ)) (p : Key × ℕ) → index_ids (ps ++ p ∷ []) ≡ index_ids ps ++ p.1 ∷ []
index_ids-snoc [] p = refl
index_ids-snoc (q ∷ ps) p = ap (λ l. q.1 ∷ l) (index_ids-snoc ps p)

pub total-snoc :
    {B : Type 0} (ps : List (ℕ × DataBlock B)) (p : ℕ × DataBlock B)
    → total (ps ++ p ∷ []) ≡ total ps + p.1.num_entries
total-snoc [] p = omega arith
total-snoc (q ∷ ps) p = omega (arith, total-snoc ps p)
