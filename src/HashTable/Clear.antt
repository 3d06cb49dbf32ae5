-- ===== src/HashTable/Clear.antt =====
-- ClearHashTable of hashtable.cpp.
use struct.Base.{
  ℕ, zero, suc, ◌<◌, ◌≡◌, refl, subst, arith, true, occurrences, ◌∙◌, some, List, [], ◌∷◌, ◌==◌,
  length,
}
use struct.Dlist.Add.{first, cut-Linked, head_live}
use struct.Dlist.Walk.{entry_links}
use struct.HashTable.{success, HashTable, fast_of, entry_of}
use struct.HashTable.Enum.{clear_from, clear, get_count}
use struct.HashTable.Rep.{IsTable, fasts}
use struct.HashTable.Remove.{Kept, Kept-refl, Kept-trans, Freed, discard_lem}

Freed-trans :
    (t t1 t2 : HashTable) (e : ℕ) (es : List ℕ)
    → Freed t t1 (e ∷ [])
    → Freed t1 t2 es
    → Freed t t2 (e ∷ es)
unfolding occurrences
Freed-trans t t1 t2 e es a b = record {
  gone = λ z i. ground (arith, i, a.gone z, b.gone z, b.others z);
  others = λ z o. b.others z (omega (arith, o)) ∙ a.others z (omega (arith, o));
}

clear_from_lem :
    (fuel : ℕ) (es : List ℕ) (t : HashTable)
    → IsTable t es
    → length es < fuel
    → (t' : HashTable) × (clear_from fuel t.fast_list (first t.fast_list (fasts es)) t ≡ some t')
      × IsTable t' []
      × Kept t t'
      × Freed t t' es
unfolding clear_from occurrences
clear_from_lem zero es t is lt = absurd (omega arith)
clear_from_lem (suc fuel) [] t is lt =
    let here : (t.fast_list == t.fast_list) ≡ true = ground arith in
    (
      t,
      rw here refl,
      is,
      Kept-refl t,
      record { gone = λ z i. absurd (omega (arith, i)); others = λ z o. refl },
    )
clear_from_lem (suc fuel) (e ∷ es) t is lt =
    let (live, before, next, differ, is') =
      entry_links t.fast t.fast_list [] (fast_of e) (fasts es) is.fast_links in
    let (t1, run1, is1, kept1, freed1) = discard_lem t [] e es is in
    let (t2, run2, is2, kept2, freed2) = clear_from_lem fuel es t1 is1 (omega (arith, lt)) in
    let back : entry_of (fast_of e) ≡ e = omega arith in
    let run2' : clear_from fuel t.fast_list (first t.fast_list (fasts es)) t1 ≡ some t2 =
      subst (λ l. clear_from fuel l (first l (fasts es)) t1 ≡ some t2) kept1.same_list run2 in
    (
      t2,
      rw (differ, clear_from, live, back, run1, next, run2') refl,
      is2,
      Kept-trans t t1 t2 kept1 kept2,
      Freed-trans t t1 t2 e es freed1 freed2,
    )

-- On a well-formed table and with fuel above the number of its entries, ClearHashTable ends without
-- a fault, returns 0 and leaves a well-formed table without entries, whose count is 0; it has freed
-- every entry, and of the entries' memory nothing else.
pub clear_lem :
    (fuel : ℕ) (es : List ℕ) (t : HashTable)
    → IsTable t es
    → length es < fuel
    → (t' : HashTable) × (clear fuel (some t) ≡ some (success, some t'))
      × IsTable t' []
      × (get_count (some t') ≡ 0)
      × Freed t t' es
unfolding clear get_count
clear_lem fuel es t is lt =
    let (t', run, is', kept, freed) = clear_from_lem fuel es t is lt in
    let live = head_live t.fast t.fast_list [] (fasts es) is.fast_links in
    let (next, prev) = cut-Linked t.fast t.fast_list [] (fasts es) is.fast_links in
    (t', rw (live, clear, next, run) refl, is', is'.number, freed)
