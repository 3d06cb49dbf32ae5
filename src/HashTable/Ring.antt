-- ===== src/HashTable/Ring.antt =====
-- The rings of children in hashtable.cpp, and the lookup of an entry by its id.
use struct.Base.{
  ℕ, zero, suc, ◌%◌, ◌<◌, ◌≡◌, inl, inr, refl, ◌∙◌, sym, subst, arith, true, some, List, [], ◌∷◌,
  ◌++◌, ◌==◌, occurrences, occurrences-append, length,
}
use struct.Dlist.{Heap}
use struct.Dlist.Seg.{Seg, last-append, Seg-join, IsDlist}
use struct.Dlist.Add.{cut-Linked, head_live}
use struct.Dlist.Walk.{entry_links}
use struct.HashTable.{HashTable, burket_at, get_node}
use struct.HashTable.Children.{count_from}
use struct.HashTable.Rep.{IsTable}
use struct.HashTable.Lookup.{search-cases, find_in_lem, some_here, not_head, found_in}

-- Any node of a ring can be its head.
pub rotate :
    {h : Heap} (c x : ℕ) (xs : List ℕ) → IsDlist h c (x ∷ xs) → IsDlist h x (xs ++ (c ∷ []))
unfolding occurrences
rotate {h} c x xs is =
    let (l, s) = is.links in
    record {
      links =
          Seg-join h x (xs ++ (c ∷ [])) (x ∷ []) s
            (subst (λ w. Seg h w (x ∷ [])) (sym (last-append x xs c [])) (l, tt));
      uniq = λ z. omega (arith, is.uniq z, occurrences-append z xs (c ∷ []));
      alive = λ z o. is.alive z (omega (arith, o, occurrences-append z xs (c ∷ [])));
    }

-- The loop of `GetChildHashEntryCount` counts the entries from one on.
pub count_from_lem :
    (fuel : ℕ) (list : ℕ) (h : Heap) (us : List ℕ) (y : ℕ) (ys : List ℕ)
    → IsDlist h list (us ++ (y ∷ ys))
    → length ys < fuel
    → count_from fuel list y h ≡ some (suc (length ys))
unfolding count_from
count_from_lem zero list h us y ys is lt = absurd (omega arith)
count_from_lem (suc fuel) list h us y [] is lt =
    let (live, before, next, differ, is') = entry_links h list us y [] is in
    let here : (list == list) ≡ true = ground arith in rw (live, next, here) refl
count_from_lem (suc fuel) list h us y (z ∷ ys) is lt =
    let (live, before, next, differ, is') = entry_links h list us y (z ∷ ys) is in
    let (live', before', next', differ', is2) = entry_links h list (us ++ (y ∷ [])) z ys is' in
    rw
      (
        live,
        next,
        differ',
        count_from_lem fuel list h (us ++ (y ∷ [])) z ys is' (omega (arith, lt)),
      )
      refl

pub count_ring :
    (fuel : ℕ) (list : ℕ) (h : Heap) (ys : List ℕ)
    → IsDlist h list ys
    → length ys < fuel
    → count_from fuel list list h ≡ some (suc (length ys))
unfolding count_from
count_ring zero list h ys is lt = absurd (omega arith)
count_ring (suc fuel) list h [] is lt =
    let here : (list == list) ≡ true = ground arith in
    let (next, prev) = cut-Linked h list [] [] is in rw (head_live h list [] [] is, next, here) refl
count_ring (suc fuel) list h (y ∷ ys) is lt =
    let (live, before, next', differ, is') = entry_links h list [] y ys is in
    let (next, prev) = cut-Linked h list [] (y ∷ ys) is in
    rw
      (
        head_live h list [] (y ∷ ys) is,
        next,
        differ,
        count_from_lem fuel list h [] y ys is (omega (arith, lt)),
      )
      refl

-- `_GetZipperNode` finds the entry.
pub get_node_lem :
    (t : HashTable) (es : List ℕ) (is : IsTable t es) (fuel : ℕ) (enough : length es < fuel)
    (id e : ℕ)
    → 0 < occurrences e es
    → t.id_node e ≡ id
    → get_node fuel id t ≡ some e
unfolding get_node
get_node_lem t es is fuel enough id e o same =
    let head = burket_at t (id % t.number_of_burkets) in
    elim (search-cases t id head es) [
      | inl (s, l, r, differs) ↦ absurd (differs e o same)
      | inr (us, x, vs, split, s, k, l, r) ↦
          let ox = found_in t es is fuel enough id us x vs split in
          let eq : x ≡ e = is.ids x e ox o (k ∙ sym same) in
          rw
            (
              some_here t es is fuel enough id,
              get_node,
              find_in_lem t es is fuel enough id,
              s,
              not_head t es is fuel enough id x ox,
              eq,
            )
            refl
    ]
