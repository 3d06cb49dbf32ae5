-- ===== src/Dlist/Link.antt =====
-- What `__list_add`, `__list_remove` and `dlist_replace` do to a chain.
use struct.Base.{ℕ, ◌+◌, ◌≤◌, ◌<◌, ◌≡◌, refl, arith, true, some, List, ◌∷◌, ◌++◌, one, occurrences}
use struct.Dlist.{Heap, ◌>>◌, with_next, with_prev, list_add, list_remove}
use struct.Dlist.Seg.{Linked, Seg, last, sources, sources_count, Seg-split, Seg-join, Seg-frame}

-- The heaps after these writes.
abbrev pub added : (entry prev next : ℕ) → Heap → Heap
added entry prev next h =
    with_next prev entry (with_prev entry prev (with_next entry next (with_prev next entry h)))

abbrev pub removed : (prev next : ℕ) → Heap → Heap
removed prev next h = with_next prev next (with_prev next prev h)

pub list_add_run :
    (entry prev next : ℕ) (h : Heap)
    → h.live entry ≡ true
    → h.live prev ≡ true
    → h.live next ≡ true
    → list_add entry prev next h ≡ some (added entry prev next h)
unfolding list_add
list_add_run entry prev next h le lp ln = rw (ln, list_add, ◌>>◌, le, le, lp) refl

pub list_remove_run :
    (prev next : ℕ) (h : Heap)
    → h.live prev ≡ true
    → h.live next ≡ true
    → list_remove prev next h ≡ some (removed prev next h)
unfolding list_remove
list_remove_run prev next h lp ln = rw (ln, list_remove, ◌>>◌, lp) refl

-- The chain goes over new links from the end of `us` to the node `n`.
module _ (h h' : Heap) (a : ℕ) (us : List ℕ) (n : ℕ) (vs : List ℕ)
    (next_before : (z : ℕ) → 0 < occurrences z (sources a us) → h'.next z ≡ h.next z)
    (prev_before : (z : ℕ) → 0 < occurrences z us → h'.prev z ≡ h.prev z)
    (next_after : (z : ℕ) → 0 < occurrences z (sources n vs) → h'.next z ≡ h.next z)
    (prev_after : (z : ℕ) → 0 < occurrences z vs → h'.prev z ≡ h.prev z) where
  pub bridge : Seg h a us → Seg h n vs → Linked h' (last a us) n → Seg h' a (us ++ (n ∷ vs))
  bridge s1 s2 l =
      Seg-join h' a us (n ∷ vs) (Seg-frame h h' a us next_before prev_before s1)
        (l, Seg-frame h h' n vs next_after prev_after s2)

  pub bridge_over :
      (e : ℕ)
      → Seg h a us
      → Seg h n vs
      → Linked h' (last a us) e
      → Linked h' e n
      → Seg h' a (us ++ (e ∷ n ∷ vs))
  bridge_over e s1 s2 l1 l2 =
      Seg-join h' a us (e ∷ n ∷ vs) (Seg-frame h h' a us next_before prev_before s1)
        (l1, (l2, Seg-frame h h' n vs next_after prev_after s2))

module _ (h : Heap) (a : ℕ) (us : List ℕ) (e n : ℕ) (vs : List ℕ)
    (next_once : (z : ℕ)
      → one z a + (occurrences z us + (one z e + occurrences z (sources n vs))) ≤ 1)
    (prev_once : (z : ℕ) → occurrences z us + (one z e + (one z n + occurrences z vs)) ≤ 1) where
  pub Seg-added : Seg h a (us ++ (n ∷ vs)) → Seg (added e (last a us) n h) a (us ++ (e ∷ n ∷ vs))
  Seg-added s =
      let (s1, (l, s2)) = Seg-split h a us (n ∷ vs) s in
      bridge_over h (added e (last a us) n h) a us n vs
        (λ z i. ground (arith, i, sources_count z a us, next_once z))
        (λ z i. ground (arith, i, prev_once z))
        (λ z i. ground (arith, i, sources_count z a us, next_once z))
        (λ z i. ground (arith, i, prev_once z)) e s1 s2 (ground arith, ground arith)
        (ground (arith, sources_count e a us, next_once e), ground (arith, prev_once n))

  pub Seg-removed : Seg h a (us ++ (e ∷ n ∷ vs)) → Seg (removed (last a us) n h) a (us ++ (n ∷ vs))
  Seg-removed s =
      let (s1, (l1, (l2, s2))) = Seg-split h a us (e ∷ n ∷ vs) s in
      bridge h (removed (last a us) n h) a us n vs
        (λ z i. ground (arith, i, sources_count z a us, next_once z))
        (λ z i. ground (arith, i, prev_once z))
        (λ z i. ground (arith, i, sources_count z a us, next_once z))
        (λ z i. ground (arith, i, prev_once z)) s1 s2 (ground arith, ground arith)
