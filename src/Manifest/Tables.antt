-- ===== src/Manifest/Tables.antt =====
-- `Manifest::update_table_set` and `get_table_ids` of src/manifest.rs, over the files of the levels. The
-- flush of the changed files, which decides only what a crash leaves, is not modelled.
use lsm_rs.Prelude.{ℕ, zero, suc, List, [], ◌∷◌, Bool}
use lsm_rs.Outcome.{Outcome, ok, panicked, ◌>>=◌, ◌>>◌, assert}
use lsm_rs.Manifest.LevelMetadata

-- `levels.get_mut(level).expect("No such level")`, the change, and the panic where it returns false.
unfoldable pub change_level :
    (List ℕ → Outcome (List ℕ × Bool)) → List (List ℕ) → ℕ → Outcome (List (List ℕ))
change_level f [] level = panicked
change_level f (file ∷ levels) zero = f file >>= λ r. (assert r.1 >> ok (r.0 ∷ levels))
change_level f (file ∷ levels) (suc level) =
    change_level f levels level >>= λ levels'. ok (file ∷ levels')

unfoldable pub add_tables : List (List ℕ) → List (ℕ × ℕ) → Outcome (List (List ℕ))
add_tables levels [] = ok levels
add_tables levels ((level, id) ∷ add) =
    change_level (λ file. LevelMetadata.insert file id) levels level >>= λ levels'.
    add_tables levels' add

unfoldable pub remove_tables : List (List ℕ) → List (ℕ × ℕ) → Outcome (List (List ℕ))
remove_tables levels [] = ok levels
remove_tables levels ((level, id) ∷ remove) =
    change_level (λ file. LevelMetadata.remove file id) levels level >>= λ levels'.
    remove_tables levels' remove

unfoldable pub update_table_set :
    List (List ℕ) → (add remove : List (ℕ × ℕ)) → Outcome (List (List ℕ))
update_table_set levels add remove = do
  levels' ← add_tables levels add
  remove_tables levels' remove

unfoldable pub all_table_ids : List (List ℕ) → Outcome (List (List ℕ))
all_table_ids [] = ok []
all_table_ids (file ∷ levels) = do
  ids ← LevelMetadata.get_table_ids file
  rest ← all_table_ids levels
  ok (ids ∷ rest)
