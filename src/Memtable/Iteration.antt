-- ===== src/Memtable/Iteration.antt =====
-- `MemtableIterator` of src/memtable.rs visits the entries of its table in order, or in reverse.
use lsm_rs.Prelude.{
  ℕ, zero, suc, ◌+◌, ◌-◌, ◌≤◌, ◌<◌, ◌≡◌, refl, ap, sym, ◌∙◌, some, Bool, true, false, Bool-cases,
  inl, inr, ==_iff, drop_all, take_all, length, get_elem?, take, drop, ◌==◌, if◌then◌else◌, [], ◌∷◌,
  ◌++◌, arith, lt→ltb, le→ltb, ==_ne, ==_self,
}
use lsm_rs.Key.{Key}
use lsm_rs.Memtable.{Entries, Memtable, MemtableEntry}
use lsm_rs.Outcome.{Outcome, ok, diverged, ◌>>=◌}
use lsm_rs.Memtable.Iterator.{
  ℤ, pos, negsuc, decrement, MemtableIterator, load, step_back, step_forward, step, new, at_end,
  unwrap,
}

-- The loop of a caller that reads and steps until the end.
unfoldable pub collect : ℕ → MemtableIterator → Outcome Entries
collect zero it = diverged
collect (suc fuel) it =
    if at_end it
    then ok []
    else (unwrap it.key >>= λ k.
        unwrap it.entry >>= λ e. step it >>= λ it'. collect fuel it' >>= λ rest. ok ((k, e) ∷ rest))

abbrev pub backwards : Entries → Entries
backwards [] = []
backwards (x ∷ xs) = backwards xs ++ x ∷ []

-- An entry by its position.
entry_at :
    (es : Entries) (n : ℕ)
    → n < length es
    → (x : Key × MemtableEntry) × (get_elem? es n ≡ some x)
      × (drop n es ≡ x ∷ drop (suc n) es)
      × (take (suc n) es ≡ take n es ++ x ∷ [])
entry_at [] n h = absurd (omega arith)
entry_at (x ∷ es) zero h = (x, refl, refl, refl)
entry_at (x ∷ es) (suc n) h =
    let r = entry_at es n (omega arith) in (r.0, r.1, r.2, ap (λ t. x ∷ t) r.3)

backwards-append :
    (es : Entries) (x : Key × MemtableEntry) → backwards (es ++ x ∷ []) ≡ x ∷ backwards es
backwards-append [] x = refl
backwards-append (y ∷ es) x = rw (backwards-append es x) refl

-- One round of the loop.
collect_round :
    (fuel : ℕ) (it it' : MemtableIterator) (k : Key) (e : MemtableEntry) (rest : Entries)
    → at_end it ≡ false
    → it.key ≡ some k
    → it.entry ≡ some e
    → step it ≡ ok it'
    → collect fuel it' ≡ ok rest
    → collect (suc fuel) it ≡ ok ((k, e) ∷ rest)
unfolding collect
collect_round fuel it it' k e rest going key entry next more =
    rw (going, next, key, entry, more) refl

collect_ended :
    (fuel : ℕ) (it : MemtableIterator) → 0 < fuel → at_end it ≡ true → collect fuel it ≡ ok []
unfolding collect
collect_ended zero it h e = absurd (omega arith)
collect_ended (suc fuel) it h e = rw e refl

-- The iterator with entry `x` loaded and the index that follows.
abbrev on : Entries → Bool → ℤ → Key × MemtableEntry → MemtableIterator
on es reverse next x = record {
  inner = es;
  next_index = next;
  key = some x.0;
  entry = some x.1;
  reverse = reverse;
}

step_forward_last :
    (es : Entries) (n : ℕ) (x : Key × MemtableEntry)
    → n ≡ length es
    → step (on es false (pos n) x) ≡ ok (on es false (pos (suc n)) x)
unfolding step step_forward
step_forward_last es n x e =
    rw (e, le→ltb (length es) (length es) (omega arith), ==_self (length es)) refl

step_forward_next :
    (es : Entries) (n : ℕ) (x y : Key × MemtableEntry)
    → n < length es
    → get_elem? es n ≡ some y
    → step (on es false (pos n) x) ≡ ok (on es false (pos (suc n)) y)
unfolding step step_forward load
step_forward_next es n x y w e =
    rw (le→ltb (length es) n (omega arith), ==_ne n (length es) (omega arith), e) refl

collect_forward :
    (fuel : ℕ) (es : Entries) (n : ℕ) (x : Key × MemtableEntry)
    → n ≤ length es
    → length es + 2 ≤ n + fuel
    → collect fuel (on es false (pos n) x) ≡ ok (x ∷ drop n es)
unfolding at_end
collect_forward zero es n x w enough = absurd (omega arith)
collect_forward (suc fuel) es n x w enough = elim (Bool-cases (n == length es)) [
  | inl e ↦
      let last : n ≡ length es = (==_iff n (length es)).0 e in
      collect_round fuel (on es false (pos n) x) (on es false (pos (suc n)) x) x.0 x.1 (drop n es)
        (le→ltb (length es) n w) refl refl (step_forward_last es n x last)
        (collect_ended fuel (on es false (pos (suc n)) x) (omega arith)
            (lt→ltb (length es) (suc n) (omega arith))
          ∙ ap ok (sym (drop_all n es (omega arith))))
  | inr e ↦
      let more : n < length es = ground arith in
      let r = entry_at es n more in
      collect_round fuel (on es false (pos n) x) (on es false (pos (suc n)) r.0) x.0 x.1 (drop n es)
        (le→ltb (length es) n w) refl refl (step_forward_next es n x r.0 more r.1)
        (collect_forward fuel es (suc n) r.0 more (omega arith) ∙ ap ok (sym r.2))
]

step_back_next :
    (es : Entries) (n : ℕ) (x y : Key × MemtableEntry)
    → get_elem? es n ≡ some y
    → step (on es true (pos n) x) ≡ ok (on es true (decrement (pos n)) y)
unfolding step step_back load
step_back_next es n x y e = rw e refl

step_back_last :
    (es : Entries) (x : Key × MemtableEntry)
    → step (on es true (negsuc zero) x) ≡ ok (on es true (negsuc (suc zero)) x)
unfolding step step_back
step_back_last es x = refl

collect_back :
    (fuel : ℕ) (es : Entries) (n : ℕ) (x : Key × MemtableEntry)
    → n ≤ length es
    → n + 2 ≤ fuel
    → collect fuel (on es true (decrement (pos n)) x) ≡ ok (x ∷ backwards (take n es))
unfolding at_end
collect_back zero es n x w enough = absurd (omega arith)
collect_back (suc fuel) es zero x w enough =
    collect_round fuel (on es true (negsuc zero) x) (on es true (negsuc (suc zero)) x) x.0 x.1 []
      refl refl refl (step_back_last es x)
      (collect_ended fuel (on es true (negsuc (suc zero)) x) (omega arith) refl)
collect_back (suc fuel) es (suc n) x w enough =
    let r = entry_at es n w in
    collect_round fuel (on es true (pos n) x) (on es true (decrement (pos n)) r.0) x.0 x.1
      (backwards (take (suc n) es)) refl refl refl (step_back_next es n x r.0 r.1)
      (collect_back fuel es n r.0 (omega arith) (omega arith)
        ∙ ap ok (sym (ap backwards r.3 ∙ backwards-append (take n es) r.0)))

new_back :
    (m : Memtable) (n fuel : ℕ)
    → length m.entries ≡ suc n
    → n + 2 ≤ fuel
    → (new m true >>= collect fuel) ≡ ok (backwards m.entries)
unfolding new step step_back load
new_back m n fuel e enough =
    let r = entry_at m.entries n (omega (arith, e)) in
    let all : take (suc n) m.entries ≡ m.entries = take_all (suc n) m.entries (omega (arith, e)) in
    let turned : r.0 ∷ backwards (take n m.entries) ≡ backwards m.entries =
      sym (backwards-append (take n m.entries) r.0) ∙ ap backwards (sym r.3 ∙ all) in
    rw (e, r.1) (collect_back fuel m.entries n r.0 (omega (arith, e)) enough ∙ ap ok turned)

-- A table that holds entries is visited as a whole: an iterator over it, made and then read and stepped
-- to its end, gives all its entries in order, or in reverse where that was asked for, and nothing
-- panics. The loop gets two rounds more than there are entries.
pub collect-new :
    (m : Memtable) (reverse : Bool) (fuel : ℕ)
    → 0 < length m.entries
    → length m.entries + 2 ≤ fuel
    → (new m reverse >>= collect fuel) ≡ ok (if reverse then backwards m.entries else m.entries)
unfolding new step step_forward step_back load
collect-new m false fuel some_entry enough =
    let r = entry_at m.entries 0 some_entry in
    rw (le→ltb (length m.entries) 0 (omega arith), ==_ne 0 (length m.entries) (omega arith), r.1)
      (collect_forward fuel m.entries 1 r.0 some_entry (omega arith) ∙ ap ok (sym r.2))
collect-new m true fuel some_entry enough =
    new_back m (length m.entries - 1) fuel (omega arith) (omega arith)
