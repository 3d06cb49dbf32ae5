-- ===== src/Dlist/Cut.antt =====
-- `dlist_cut_position`.
use struct.Base.{
  ℕ, ◌+◌, ◌≤◌, ◌≡◌, ◌∙◌, refl, sym, ap, ap₂, subst, arith, false, true, some, List, [], ◌∷◌, ◌++◌,
  append_assoc, ◌==◌, one, occurrences, occurrences-append, not, ◌&&◌, Bool,
}
use struct.Dlist.{
  Heap, ◌>>◌, with_next, with_prev, empty, is_singular, list_cut_position, cut_position,
}
use struct.Dlist.Seg.{
  Seg, Linked, last, last-append, sources, sources_count, Seg-split, Seg-join, Seg-frame, IsDlist,
  IsDlist-frame, Only,
}
use struct.Dlist.Add.{first, rest, first-rest, last-rest, first-rest_count, init_lem}

module _ (h : Heap) (old : ℕ) (us : List ℕ) (e : ℕ) (vs : List ℕ)
    (is : IsDlist h old (us ++ (e ∷ vs))) (new : ℕ) (live_new : h.live new ≡ true)
    (fresh : one new old + occurrences new (us ++ (e ∷ vs)) ≡ 0) where
  -- The first entry, the one behind the cut, and what follows them.
  abbrev f : ℕ
  f = first e us

  abbrev n : ℕ
  n = first old vs

  abbrev parted : Heap
  parted =
      with_prev n old
        (with_next old n (with_next e new (with_prev new e (with_prev f new (with_next new f h)))))

  counts :
      (z : ℕ)
      → (one z old + (occurrences z us + (one z e + occurrences z vs)) ≤ 1)
        × (one z f + occurrences z (rest e us) ≡ one z e + occurrences z us)
        × (occurrences z (sources f (rest e us)) ≡ occurrences z us)
        × (one z n + occurrences z (rest old vs) ≡ one z old + occurrences z vs)
        × (occurrences z (sources n (rest old vs)) ≡ occurrences z vs)
        × (occurrences z (us ++ (e ∷ vs)) ≡ occurrences z us + (one z e + occurrences z vs))
  unfolding occurrences
  counts z =
      let (a, b) = first-rest_count z e us in
      let (c, d) = first-rest_count z old vs in
      let w = occurrences-append z us (e ∷ vs) in (omega (arith, is.uniq z, w), a, b, c, d, w)

  halves : Seg h old (f ∷ rest e us) × Seg h e (n ∷ rest old vs)
  halves =
      let (s1, s2) =
        Seg-split h old (f ∷ rest e us) (n ∷ rest old vs) (subst (Seg h old) whole is.links) in
      (s1, subst (λ w. Seg h w (n ∷ rest old vs)) (last-rest e us) s2)
    where
      whole : (us ++ (e ∷ vs)) ++ (old ∷ []) ≡ (f ∷ rest e us) ++ (n ∷ rest old vs)
      whole =
          append_assoc us (e ∷ vs) (old ∷ [])
          ∙ sym (append_assoc us (e ∷ []) (vs ++ (old ∷ [])))
          ∙ ap₂ (λ v w. v ++ w) (first-rest e us) (first-rest old vs)

  live_ends : (h.live f ≡ true) × (h.live n ≡ true) × (h.live e ≡ true) × (h.live old ≡ true)
  live_ends = (
    is.alive f (ground (arith, counts f)),
    is.alive n (ground (arith, counts n)),
    is.alive e (ground (arith, counts e)),
    is.alive old (ground arith),
  )

  part_run : list_cut_position new old e h ≡ some parted
  unfolding list_cut_position
  part_run =
      let ((l1, s1), (l2, s2)) = halves in
      let (lf, ln, le, lo) = live_ends in
      let here : (new == new) ≡ true = ground arith in
      rw
        (
          le, list_cut_position, ◌>>◌, l1.0, lo, live_new, live_new, here, lf, live_new, le, lo,
          l2.0, ln,
        )
        refl

  -- The links of the two lists.
  part_links : Seg parted new ((us ++ (e ∷ [])) ++ (new ∷ [])) × Seg parted old (vs ++ (old ∷ []))
  part_links =
      let ((l1, s1), (l2, s2)) = halves in
      (
        subst (Seg parted new) (sym (ap (λ w. w ++ (new ∷ [])) (first-rest e us))) (
          (
            ground (arith, fresh, counts new),
            ground (arith, counts f, counts n, fresh, counts new),
          ),
          Seg-join parted f (rest e us) (new ∷ [])
              (Seg-frame h parted f (rest e us)
                (λ z i. ground (arith, i, counts z, fresh, counts new))
                (λ z i. ground (arith, i, counts z, fresh, counts new)) s1)
              (
                subst (λ w. Linked parted w new) (sym (last-rest e us))
                    (ground (arith, counts e), ground (arith, counts new, fresh)),
                tt,
              ),
        ),
        subst (Seg parted old) (sym (first-rest old vs)) (
          (ground arith, ground arith),
          Seg-frame h parted n (rest old vs) (λ z i. ground (arith, i, counts z, fresh, counts new))
              (λ z i. ground (arith, i, counts z, fresh, counts new)) s2,
        ),
      )

  -- __list_cut_position parts a list behind the entry.
  pub part_lem :
      (h' : Heap) × (list_cut_position new old e h ≡ some h')
      × IsDlist h' new (us ++ (e ∷ []))
      × IsDlist h' old vs
      × Only (new ∷ old ∷ (us ++ (e ∷ vs))) h h'
  unfolding occurrences
  part_lem = (
    parted,
    part_run,
    record {
      links = part_links.0;
      uniq = λ z. ground (arith, counts z, fresh, counts new, occurrences-append z us (e ∷ []));
      alive = λ z i.
          ground (arith, i, is.alive z, live_new, counts z, occurrences-append z us (e ∷ []));
    },
    record {
      links = part_links.1;
      uniq = λ z. omega (arith, counts z);
      alive = λ z i. is.alive z (omega (arith, i, counts z));
    },
    record {
      same_next = λ z i. ground (arith, i, counts z);
      same_prev = λ z i. ground (arith, i, counts z);
      same_live = λ z. refl;
    },
  )

  -- The tests of `dlist_cut_position`.
  not_empty : empty old h ≡ some false
  unfolding empty
  not_empty =
      let ((l1, s1), _) = halves in
      let differ : (f == old) ≡ false = ground (arith, counts f) in
      rw (is.alive old (ground arith), empty, l1.0, differ) refl

  abbrev guard : Bool → ℕ → Bool
  guard singular entry = singular && (not (f == entry) && not (old == entry))

  guards :
      (is_singular old h ≡ some (not (f == old) && (f == last e vs)))
      × (guard (not (f == old) && (f == last e vs)) e ≡ false)
      × (guard (not (f == old) && (f == last e vs)) old ≡ false)
  unfolding is_singular
  guards =
      let ((l1, s1), _) = halves in
      let lo = is.alive old (ground arith) in
      let back : h.prev old ≡ last e vs =
        (Seg-split h old (us ++ (e ∷ vs)) (old ∷ []) is.links).1.0.1 ∙ last-append old us e vs in
      (
        rw (lo, is_singular, l1.0, back) refl,
        ground (arith, counts f, sources_count (last e vs) e vs, counts (last e vs)),
        ground arith,
      )

  -- dlist_cut_position at an entry moves the entries up to it to the other list and leaves those
  -- behind it; at the head of a list with entries it makes the other list empty.
  pub cut_position_lem :
      ((h' : Heap) × (cut_position old e new h ≡ some h')
        × IsDlist h' new (us ++ (e ∷ []))
        × IsDlist h' old vs
        × Only (new ∷ old ∷ (us ++ (e ∷ vs))) h h')
      × ((h' : Heap) × (cut_position old old new h ≡ some h')
          × IsDlist h' new []
          × IsDlist h' old (us ++ (e ∷ vs))
          × Only (new ∷ []) h h')
  unfolding cut_position occurrences
  cut_position_lem =
      let ((l1, s1), _) = halves in
      let lo = is.alive old (ground arith) in
      let (single, open_e, open_old) = guards in
      let here : (old == old) ≡ true = ground arith in
      let differ : (e == old) ≡ false = ground (arith, counts e) in
      let (h1, run1, new1, old1, only1) = part_lem in
      let (h2, run2, is2, o2) = init_lem new h live_new in
      (
        (
          h1,
          rw (not_empty, cut_position, single, lo, l1.0, open_e, differ, run1) refl,
          new1,
          old1,
          only1,
        ),
        (
          h2,
          rw (not_empty, cut_position, single, lo, l1.0, open_old, here, run2) refl,
          is2,
          IsDlist-frame h h2 (new ∷ []) old (us ++ (e ∷ vs)) o2 (λ z i. ground (arith, i, fresh))
              is,
          o2,
        ),
      )
