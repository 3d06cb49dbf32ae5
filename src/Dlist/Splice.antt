-- ===== src/Dlist/Splice.antt =====
-- `__list_splice`.
use struct.Base.{
  ℕ, ◌+◌, ◌≤◌, ◌≡◌, ◌∙◌, refl, sym, ap, subst, arith, true, some, List, [], ◌∷◌, ◌++◌, append_assoc,
  one, occurrences, occurrences-append,
}
use struct.Dlist.{Heap, ◌>>◌, with_next, with_prev, list_splice}
use struct.Dlist.Seg.{
  Seg, last, sources, sources_count, Seg-split, Seg-join, Seg-frame, IsDlist, Only,
}
use struct.Dlist.Add.{
  first, rest, first-rest, first-rest_count, cut, cut-Linked, head_live, live_last, live_first,
}

-- The heap after `__list_splice` of the list `from`.
abbrev pub spliced : (first last prev next : ℕ) → Heap → Heap
spliced first last prev next h =
    with_prev next last (with_next last next (with_next prev first (with_prev first prev h)))

module _ (h : Heap) (to : ℕ) (us vs : List ℕ) (is : IsDlist h to (us ++ vs)) (from x : ℕ)
    (xs : List ℕ) (is_from : IsDlist h from (x ∷ xs))
    (apart : (z : ℕ)
      → (one z to + occurrences z (us ++ vs)) + (one z from + occurrences z (x ∷ xs)) ≤ 1) where
  -- The heap after `__list_splice`.
  abbrev pub after : Heap
  after = spliced x (last x xs) (last to us) (first to vs) h

  counts :
      (z : ℕ)
      → (one z to
            + (occurrences z us + occurrences z vs)
            + (one z from + (one z x + occurrences z xs))
          ≤ 1)
        × (occurrences z (us ++ vs) ≡ occurrences z us + occurrences z vs)
        × (occurrences z (x ∷ xs) ≡ one z x + occurrences z xs)
  unfolding occurrences
  counts z = (omega (arith, apart z, occurrences-append z us vs), occurrences-append z us vs, refl)

  pub splice_run : list_splice from (last to us) (first to vs) h ≡ some after
  unfolding list_splice
  splice_run =
      let next_from : h.next from ≡ x = (cut-Linked h from [] (x ∷ xs) is_from).0 in
      let lf = head_live h from [] (x ∷ xs) is_from in
      let lx : h.live x ≡ true = live_first h from [] (x ∷ xs) is_from in
      let ly : h.live (last x xs) ≡ true =
        is_from.alive (last x xs)
          (ground (arith, counts (last x xs), sources_count (last x xs) x xs)) in
      let back : h.prev from ≡ last x xs =
        (Seg-split h from (x ∷ xs) (from ∷ []) is_from.links).1.0.1 in
      let lp = live_last h to us vs is in
      let ln = live_first h to us vs is in
      rw (lf, list_splice, ◌>>◌, next_from, lx, next_from, lp, back, ly, back, ln) refl

  -- The counts of the nodes at both ends of a cut.
  ends :
      (z : ℕ)
      → (occurrences z (sources to us) + one z (last to us) ≡ one z to + occurrences z us)
        × (occurrences z (sources x xs) + one z (last x xs) ≡ one z x + occurrences z xs)
        × (one z (first to vs) + occurrences z (rest to vs) ≡ one z to + occurrences z vs)
        × (occurrences z (sources (first to vs) (rest to vs)) ≡ occurrences z vs)
  ends z =
      let (a, b) = first-rest_count z to vs in (sources_count z to us, sources_count z x xs, a, b)

  links_after : Seg after to (us ++ (x ∷ (xs ++ (first to vs ∷ rest to vs))))
  links_after =
      let (s1, (l, s2)) =
        Seg-split h to us (first to vs ∷ rest to vs) (subst (λ w. w) (cut h to us vs) is.links) in
      let (sf, l') = Seg-split h x xs (from ∷ []) is_from.links.1 in
      Seg-join after to us (x ∷ (xs ++ (first to vs ∷ rest to vs)))
        (Seg-frame h after to us (λ z i. ground (arith, i, counts z, ends z))
          (λ z i. ground (arith, i, counts z, ends z)) s1)
        (
          (
            ground (arith, counts (last to us), ends (last to us)),
            ground (arith, counts x, ends x),
          ),
          Seg-join after x xs (first to vs ∷ rest to vs)
              (Seg-frame h after x xs (λ z i. ground (arith, i, counts z, ends z))
                (λ z i. ground (arith, i, counts z, ends z)) sf)
              (
                (ground arith, ground arith),
                Seg-frame h after (first to vs) (rest to vs)
                    (λ z i. ground (arith, i, counts z, ends z))
                    (λ z i. ground (arith, i, counts z, ends z)) s2,
              ),
        )

  -- __list_splice puts the entries of one list between two neighbours of another.
  pub splice_lem :
      IsDlist after to (us ++ ((x ∷ xs) ++ vs)) × Only (to ∷ ((x ∷ xs) ++ (us ++ vs))) h after
  unfolding occurrences
  splice_lem = (
    record {
      links =
          subst (λ w. w)
            (sym (
              cut after to us (x ∷ (xs ++ vs))
              ∙ ap (λ w. Seg after to (us ++ (x ∷ w)))
                  (append_assoc xs vs (to ∷ []) ∙ ap (λ w. xs ++ w) (first-rest to vs))))
            links_after;
      uniq = λ z. omega (arith, counts z, whole z);
      alive = λ z i. ground (arith, is.alive z, is_from.alive z, counts z, whole z, i);
    },
    record {
      same_next = λ z i. ground (arith, i, counts z, ends z, occurrences-append z xs (us ++ vs));
      same_prev = λ z i. ground (arith, i, counts z, ends z, occurrences-append z xs (us ++ vs));
      same_live = λ z. refl;
    },
  )
    where
      whole :
          (z : ℕ)
          → occurrences z (us ++ ((x ∷ xs) ++ vs))
            ≡ occurrences z us + (one z x + (occurrences z xs + occurrences z vs))
      whole z = omega (arith, occurrences-append z us ((x ∷ xs) ++ vs), occurrences-append z xs vs)
