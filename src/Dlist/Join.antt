-- ===== src/Dlist/Join.antt =====
-- `dlist_join` and `dlist_join_tail`.
use struct.Base.{
  ℕ, ◌+◌, ◌≤◌, ◌≡◌, refl, sym, ap, subst, arith, false, true, some, List, [], ◌∷◌, ◌++◌, append-nil,
  ◌==◌, one, occurrences,
}
use struct.Dlist.{Heap, empty, join, join_tail}
use struct.Dlist.Seg.{IsDlist, Only}
use struct.Dlist.Add.{first, cut-Linked, head_live}
use struct.Dlist.Splice.{after, splice_run, splice_lem}

-- Whether a list is empty is seen at its head.
pub empty_lem :
    (h : Heap) (list : ℕ) (xs : List ℕ)
    → IsDlist h list xs
    → empty list h ≡ some (first list xs == list)
unfolding empty
empty_lem h list xs is = rw (head_live h list [] xs is, empty, (cut-Linked h list [] xs is).0) refl

pub first_differs :
    {h : Heap} {list x : ℕ} {xs : List ℕ} → IsDlist h list (x ∷ xs) → (x == list) ≡ false
unfolding occurrences
first_differs {h} {list} {x} {xs} is = ground (arith, is.uniq x)

-- dlist_join puts the entries of a list in front of those of another list, and dlist_join_tail
-- behind them; of the links only those of the list that grows and of the entries change.
pub join_lem :
    (h : Heap) (to : ℕ) (ws : List ℕ)
    → IsDlist h to ws
    → (from : ℕ) (xs : List ℕ) → IsDlist h from xs
    → ((z : ℕ) → (one z to + occurrences z ws) + (one z from + occurrences z xs) ≤ 1)
    → ((h' : Heap) × (join from to h ≡ some h')
        × IsDlist h' to (xs ++ ws)
        × Only (to ∷ (xs ++ ws)) h h')
      × ((h' : Heap) × (join_tail from to h ≡ some h')
          × IsDlist h' to (ws ++ xs)
          × Only (to ∷ (xs ++ ws)) h h')
unfolding join join_tail
join_lem h to ws is from [] is_from apart =
    let here : (from == from) ≡ true = ground arith in
    let e = empty_lem h from [] is_from in
    let same : Only (to ∷ ws) h h = record {
      same_next = λ z i. refl;
      same_prev = λ z i. refl;
      same_live = λ z. refl;
    } in
    (
      (h, rw (e, join, here) refl, is, same),
      (h, rw (e, join_tail, here) refl, subst (IsDlist h to) (sym (append-nil ws)) is, same),
    )
join_lem h to ws is from (x ∷ xs) is_from apart =
    let e = empty_lem h from (x ∷ xs) is_from in
    let differ = first_differs is_from in
    let (is1, o1) = splice_lem h to [] ws is from x xs is_from apart in
    let same : ws ++ [] ≡ ws = append-nil ws in
    let whole : IsDlist h to (ws ++ []) = subst (IsDlist h to) (sym same) is in
    let apart' : (z : ℕ)
        → (one z to + occurrences z (ws ++ [])) + (one z from + occurrences z (x ∷ xs)) ≤ 1 =
      λ z. omega (arith, apart z, ap (occurrences z) same) in
    let (is2, o2) = splice_lem h to ws [] whole from x xs is_from apart' in
    let run1 = splice_run h to [] ws is from x xs is_from apart in
    let run2 = splice_run h to ws [] whole from x xs is_from apart' in
    let h2 : Heap = after h to ws [] whole from x xs is_from apart' in
    let (n, _) = cut-Linked h to [] ws is in
    let (_, p) = cut-Linked h to ws [] whole in
    let l = head_live h to [] ws is in
    (
      (after h to [] ws is from x xs is_from apart, rw (e, join, differ, l, n, run1) refl, is1, o1),
      (
        h2,
        rw (e, join_tail, differ, l, p, run2) refl,
        subst (λ w. IsDlist h2 to (ws ++ w)) (append-nil (x ∷ xs)) is2,
        subst (λ w. Only (to ∷ ((x ∷ xs) ++ w)) h h2) same o2,
      ),
    )
