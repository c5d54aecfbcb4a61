-- ===== src/Manifest/Refines.antt =====
-- `update_table_set` of src/manifest.rs follows the update of the lists of identifiers.
use lsm_rs.Prelude.{
  ℕ, zero, suc, ◌+◌, ◌≤◌, ◌<◌, ◌≡◌, refl, List, [], ◌∷◌, Bool, true, false, not, Option, none, some,
  All, length, ap, ◌∙◌, arith, Bool-cases, inl, inr,
}
use lsm_rs.Bytes.{u64_mod}
use lsm_rs.Outcome.{Outcome, ok, panicked, Returns, Returns-imp, err, diverged, ◌>>=◌, ◌>>◌, assert}
use lsm_rs.Manifest.LevelMetadata
use lsm_rs.Manifest.Ids.{has, add, without}
use lsm_rs.Manifest.Bytes.{IsLevel, get_table_ids_lem}
use lsm_rs.Manifest.Changes.{Changed, insert_lem, remove_lem, length-add, length-without}
use lsm_rs.Manifest.Tables.{
  change_level, add_tables, remove_tables, update_table_set, all_table_ids,
}
use lsm_rs.Manifest.TableSets.{
  Holds, change_ids, added, removed, add_ids, remove_ids, update_ids, Agrees,
}

-- How one change of a file follows one of its list.
abbrev Follows : ℕ → Option (List ℕ) → Outcome (List ℕ × Bool) → Type 0
Follows spare none o = Returns o (λ r. r.1 ≡ false)
Follows spare (some ids) o =
    Returns o (λ r. (r.1 ≡ true) × IsLevel r.0 ids × (length ids + spare < u64_mod))

Holds-less :
    (before after : ℕ) (levels tables : List (List ℕ))
    → after ≤ before
    → Holds before levels tables
    → Holds after levels tables
Holds-less before after [] [] le h = tt
Holds-less before after [] (ids ∷ tables) le h = h
Holds-less before after (file ∷ levels) [] le h = h
Holds-less before after (file ∷ levels) (ids ∷ tables) le h =
    (h.0, omega (arith, h.1), Holds-less before after levels tables le h.2)

insert-Follows :
    (spare id : ℕ) (file ids : List ℕ)
    → id < u64_mod
    → IsLevel file ids
    → length ids + suc spare < u64_mod
    → Follows spare (added id ids) (LevelMetadata.insert file id)
unfolding added
insert-Follows spare id file ids small h room =
    let r = insert_lem file ids id h small (omega arith) in
    elim (Bool-cases (has ids id)) [
      | inl e ↦ rw e (
          Returns-imp (LevelMetadata.insert file id) (Changed (not (has ids id)) (add ids id))
            (λ r. r.1 ≡ false) r (λ x c. c.0 ∙ ap not e))
      | inr e ↦ rw e (
          Returns-imp (LevelMetadata.insert file id) (Changed (not (has ids id)) (add ids id)) _ r
            (λ x c. (c.0 ∙ ap not e, c.1, omega (arith, length-add ids id))))
    ]

remove-Follows :
    (spare id : ℕ) (file ids : List ℕ)
    → IsLevel file ids
    → length ids + spare < u64_mod
    → Follows spare (removed id ids) (LevelMetadata.remove file id)
unfolding removed
remove-Follows spare id file ids h room =
    let r = remove_lem file ids id h in
    elim (Bool-cases (has ids id)) [
      | inl e ↦ rw e (
          Returns-imp (LevelMetadata.remove file id) (Changed (has ids id) (without ids id)) _ r
            (λ x c. (c.0 ∙ e, c.1, omega (arith, length-without ids id))))
      | inr e ↦ rw e (
          Returns-imp (LevelMetadata.remove file id) (Changed (has ids id) (without ids id))
            (λ r. r.1 ≡ false) r (λ x c. c.0 ∙ e))
    ]

module _ (g : List ℕ → Option (List ℕ)) (f : List ℕ → Outcome (List ℕ × Bool)) (before after : ℕ)
    (le : after ≤ before)
    (follows : (file ids : List ℕ)
      → IsLevel file ids
      → length ids + before < u64_mod
      → Follows after (g ids) (f file)) where
  here_Agrees :
      (o : Option (List ℕ)) (r : Outcome (List ℕ × Bool)) (levels tables : List (List ℕ))
      → Follows after o r
      → Holds before levels tables
      → Agrees after
          (elim o [ none ↦ none | some ids' ↦ some (ids' ∷ tables) ])
          (r >>= λ x. (assert x.1 >> ok (x.0 ∷ levels)))
  here_Agrees none (ok (file, flag)) levels tables w h = rw w refl
  here_Agrees (some ids) (ok (file, flag)) levels tables w h =
      rw w.0 (w.1, w.2, Holds-less before after levels tables le h)
  here_Agrees none (err e) levels tables w h = absurd w
  here_Agrees none panicked levels tables w h = absurd w
  here_Agrees none diverged levels tables w h = absurd w
  here_Agrees (some ids) (err e) levels tables w h = w
  here_Agrees (some ids) panicked levels tables w h = w
  here_Agrees (some ids) diverged levels tables w h = w

  further_Agrees :
      (o : Option (List (List ℕ))) (r : Outcome (List (List ℕ))) (file ids : List ℕ)
      → IsLevel file ids
      → length ids + before < u64_mod
      → Agrees after o r
      → Agrees after
          (elim o [ none ↦ none | some tables' ↦ some (ids ∷ tables') ])
          (r >>= λ levels'. ok (file ∷ levels'))
  further_Agrees none r file ids h room w = rw w refl
  further_Agrees (some tables) (ok levels) file ids h room w = (h, omega (arith, room), w)
  further_Agrees (some tables) (err e) file ids h room w = w
  further_Agrees (some tables) panicked file ids h room w = w
  further_Agrees (some tables) diverged file ids h room w = w

  change_level-Agrees :
      (level : ℕ) (levels tables : List (List ℕ))
      → Holds before levels tables
      → Agrees after (change_ids g tables level) (change_level f levels level)
  unfolding change_ids change_level
  change_level-Agrees level [] [] h = refl
  change_level-Agrees level [] (ids ∷ tables) h = absurd h
  change_level-Agrees level (file ∷ levels) [] h = absurd h
  change_level-Agrees zero (file ∷ levels) (ids ∷ tables) h =
      here_Agrees (g ids) (f file) levels tables (follows file ids h.0 h.1) h.2
  change_level-Agrees (suc level) (file ∷ levels) (ids ∷ tables) h =
      further_Agrees (change_ids g tables level) (change_level f levels level) file ids h.0 h.1
        (change_level-Agrees level levels tables h.2)

bind-Agrees :
    (middle after : ℕ) (o : Option (List (List ℕ))) (r : Outcome (List (List ℕ)))
    (k : List (List ℕ) → Option (List (List ℕ))) (j : List (List ℕ) → Outcome (List (List ℕ)))
    → Agrees middle o r
    → ((levels tables : List (List ℕ))
        → Holds middle levels tables
        → Agrees after (k tables) (j levels))
    → Agrees after (elim o [ none ↦ none | some tables' ↦ k tables' ]) (r >>= j)
bind-Agrees middle after none r k j w next = rw w refl
bind-Agrees middle after (some tables) (ok levels) k j w next = next levels tables w
bind-Agrees middle after (some tables) (err e) k j w next = absurd w
bind-Agrees middle after (some tables) panicked k j w next = absurd w
bind-Agrees middle after (some tables) diverged k j w next = absurd w

add_tables-Agrees :
    (adds : List (ℕ × ℕ)) (levels tables : List (List ℕ))
    → All (λ x. x.1 < u64_mod) adds
    → Holds (length adds) levels tables
    → Agrees 0 (add_ids tables adds) (add_tables levels adds)
unfolding add_ids add_tables
add_tables-Agrees [] levels tables small h = h
add_tables-Agrees ((level, id) ∷ adds) levels tables small h =
    bind-Agrees (length adds) 0 (change_ids (added id) tables level)
      (change_level (λ file. LevelMetadata.insert file id) levels level) _ _
      (change_level-Agrees (added id) (λ file. LevelMetadata.insert file id) (suc (length adds))
        (length adds) (omega arith)
        (λ file ids w room. insert-Follows (length adds) id file ids small.0 w room) level levels
        tables h)
      (λ levels' tables' w. add_tables-Agrees adds levels' tables' small.1 w)

remove_tables-Agrees :
    (removes : List (ℕ × ℕ)) (levels tables : List (List ℕ))
    → Holds 0 levels tables
    → Agrees 0 (remove_ids tables removes) (remove_tables levels removes)
unfolding remove_ids remove_tables
remove_tables-Agrees [] levels tables h = h
remove_tables-Agrees ((level, id) ∷ removes) levels tables h =
    bind-Agrees 0 0 (change_ids (removed id) tables level)
      (change_level (λ file. LevelMetadata.remove file id) levels level) _ _
      (change_level-Agrees (removed id) (λ file. LevelMetadata.remove file id) 0 0 (omega arith)
        (λ file ids w room. remove-Follows 0 id file ids w room) level levels tables h)
      (λ levels' tables' w. remove_tables-Agrees removes levels' tables' w)

-- From files that hold the sorted identifiers of each level, an update of the tables panics where a
-- level does not exist, where a table that is added is there or where one that is removed is not, and
-- else returns with files that hold the updated identifiers. This holds for identifiers of 64 bits and
-- levels whose number of tables, with those added, fits 64 bits.
pub update_table_set-Agrees :
    (adds removes : List (ℕ × ℕ)) (levels tables : List (List ℕ))
    → All (λ x. x.1 < u64_mod) adds
    → Holds (length adds) levels tables
    → Agrees 0 (update_ids tables adds removes) (update_table_set levels adds removes)
unfolding update_ids update_table_set
update_table_set-Agrees adds removes levels tables small h =
    bind-Agrees 0 0 (add_ids tables adds) (add_tables levels adds) _ _
      (add_tables-Agrees adds levels tables small h)
      (λ levels' tables' w. remove_tables-Agrees removes levels' tables' w)

-- What `get_table_ids` reads from such files are the identifiers.
pub all_table_ids-Holds :
    (spare : ℕ) (levels tables : List (List ℕ))
    → Holds spare levels tables
    → all_table_ids levels ≡ ok tables
unfolding all_table_ids
all_table_ids-Holds spare [] [] h = refl
all_table_ids-Holds spare [] (ids ∷ tables) h = absurd h
all_table_ids-Holds spare (file ∷ levels) [] h = absurd h
all_table_ids-Holds spare (file ∷ levels) (ids ∷ tables) h =
    rw (get_table_ids_lem file ids h.0, all_table_ids-Holds spare levels tables h.2)
