-- ===== src/Manifest/Ids.antt =====
-- The sorted identifiers that src/manifest.rs keeps for a level: what the binary search with an insertion
-- or a removal does to them.
use lsm_rs.Prelude.{
  ℕ, ◌≤◌, ◌<◌, ◌≡◌, refl, List, [], ◌∷◌, Bool, true, false, not, ◌||◌, ◌&&◌, All, All-imp,
  insert_idx, remove_idx, ltb, ◌==◌, if◌then◌else◌, arith,
}
use lsm_rs.Memtable.{Position, found, missing, next}
use lsm_rs.Manifest.LevelMetadata.{binary_search}

-- The identifiers ascend strictly.
abbrev pub IsSorted : List ℕ → Type 0
IsSorted [] = Unit
IsSorted (t ∷ ids) = All (λ x. t < x) ids × IsSorted ids

unfoldable pub has : List ℕ → ℕ → Bool
has [] id = false
has (t ∷ ids) id = (t == id) || has ids id

-- The list with the identifier at its place, and the list without it.
unfoldable pub add : List ℕ → ℕ → List ℕ
add [] id = id ∷ []
add (t ∷ ids) id = if ltb t id then t ∷ add ids id else if t == id then t ∷ ids else id ∷ t ∷ ids

unfoldable pub without : List ℕ → ℕ → List ℕ
without [] id = []
without (t ∷ ids) id = if t == id then ids else t ∷ without ids id

-- Where an identifier is below all others, the list does not have it.
pub has_above : (t : ℕ) (ids : List ℕ) → All (λ x. t < x) ids → (j : ℕ) → j ≤ t → has ids j ≡ false
unfolding has
has_above t [] h j le = refl
has_above t (x ∷ ids) h j le = ground (arith, has_above t ids h.1 j le)

pub has-add : (ids : List ℕ) (id j : ℕ) → has (add ids id) j ≡ ((id == j) || has ids j)
unfolding has add
has-add [] id j = ground arith
has-add (t ∷ ids) id j = ground (arith, has-add ids id j)

pub has-without :
    (ids : List ℕ) (id j : ℕ) → IsSorted ids → has (without ids id) j ≡ (not (id == j) && has ids j)
unfolding has without
has-without [] id j h = ground arith
has-without (t ∷ ids) id j h = ground (arith, has-without ids id j h.1, has_above t ids h.0 j)

pub All-add {ℓ} : (P : ℕ → Type ℓ) (ids : List ℕ) (id : ℕ) → P id → All P ids → All P (add ids id)
unfolding add
All-add P [] id p h = (p, tt)
All-add P (t ∷ ids) id p h = ground (arith, All-add P ids id p)

pub All-without {ℓ} : (P : ℕ → Type ℓ) (ids : List ℕ) (id : ℕ) → All P ids → All P (without ids id)
unfolding without
All-without P [] id h = h
All-without P (t ∷ ids) id h = ground (arith, All-without P ids id)

All-above : (a b : ℕ) (ids : List ℕ) → a < b → All (λ x. b < x) ids → All (λ x. a < x) ids
All-above a b ids h = All-imp (λ x l. omega arith) ids

pub add-IsSorted : (ids : List ℕ) (id : ℕ) → IsSorted ids → IsSorted (add ids id)
unfolding add
add-IsSorted [] id h = (tt, tt)
add-IsSorted (t ∷ ids) id h =
    ground (arith, add-IsSorted ids id h.1, All-add (λ x. t < x) ids id, All-above id t ids)

pub without-IsSorted : (ids : List ℕ) (id : ℕ) → IsSorted ids → IsSorted (without ids id)
unfolding without
without-IsSorted [] id h = h
without-IsSorted (t ∷ ids) id h =
    ground (arith, without-IsSorted ids id h.1, All-without (λ x. t < x) ids id)

-- What the search returns, and what the vector operation at its position does.
abbrev pub Searched : Position → List ℕ → ℕ → Type 0
Searched (found pos) ids id = (has ids id ≡ true) × (remove_idx ids pos ≡ without ids id)
Searched (missing pos) ids id = (has ids id ≡ false) × (insert_idx ids pos id ≡ add ids id)

next-Searched :
    (p : Position) (t : ℕ) (ids : List ℕ) (id : ℕ)
    → t < id
    → Searched p ids id
    → Searched (next p) (t ∷ ids) id
unfolding has add without
next-Searched (found pos) t ids id l h = ground arith
next-Searched (missing pos) t ids id l h = ground arith

pub binary_search-Searched :
    (ids : List ℕ) (id : ℕ) → IsSorted ids → Searched (binary_search ids id) ids id
unfolding binary_search has add without
binary_search-Searched [] id h = (refl, refl)
binary_search-Searched (t ∷ ids) id h = ground (
  arith,
  next-Searched (binary_search ids id) t ids id,
  binary_search-Searched ids id h.1,
  has_above t ids h.0 id,
)
