-- ===== src/Dlist/Remove.antt =====
-- `__list_remove_entry`, `dlist_remove` and `dlist_replace`.
use struct.Base.{
  ℕ, ◌+◌, ◌≤◌, ◌≡◌, ◌∙◌, refl, sym, ap, subst, arith, true, false, some, List, [], ◌∷◌, ◌++◌, ◌==◌,
  one, occurrences, occurrences-append,
}
use struct.Dlist.{Heap, ◌>>◌, with_next, with_prev, list_remove_entry, remove, replace}
use struct.Dlist.Seg.{Seg, last, sources_count, Seg-split, IsDlist, IsDlist-frame, Only, Only-trans}
use struct.Dlist.Link.{removed, list_remove_run, Seg-removed, bridge_over}
use struct.Dlist.Add.{first, rest, first-rest, first-rest_count, cut, init_lem}

module _ (h : Heap) (list : ℕ) (us : List ℕ) (e : ℕ) (vs : List ℕ)
    (is : IsDlist h list (us ++ (e ∷ vs))) where
  pub count :
      (z : ℕ)
      → (one z list + (occurrences z us + (one z e + occurrences z vs)) ≤ 1)
        × (occurrences z us + (one z e + (one z (first list vs) + occurrences z (rest list vs)))
            ≤ 1)
        × (occurrences z (us ++ (e ∷ vs)) ≡ occurrences z us + (one z e + occurrences z vs))
  unfolding occurrences
  count z = (
    omega (arith, is.uniq z, occurrences-append z us (e ∷ vs)),
    omega (arith, is.uniq z, occurrences-append z us (e ∷ vs), (first-rest_count z list vs).0),
    occurrences-append z us (e ∷ vs),
  )

  pub live_around :
      (h.live (last list us) ≡ true) × (h.live (first list vs) ≡ true) × (h.live e ≡ true)
  live_around = (
    is.alive (last list us)
        (ground (arith, sources_count (last list us) list us, count (last list us))),
    is.alive (first list vs)
        (ground (arith, first-rest_count (first list vs) list vs, count (first list vs))),
    is.alive e (ground (arith, count e)),
  )

  -- The links of the list, cut before and behind the node.
  pub around :
      (h2 : Heap)
      → Seg h2 list ((us ++ (e ∷ vs)) ++ (list ∷ []))
        ≡ Seg h2 list (us ++ (e ∷ first list vs ∷ rest list vs))
  around h2 = cut h2 list us (e ∷ vs) ∙ ap (λ w. Seg h2 list (us ++ (e ∷ w))) (first-rest list vs)

  pub neighbours : (h.prev e ≡ last list us) × (h.next e ≡ first list vs)
  neighbours =
      let (s1, (l1, (l2, s2))) =
        Seg-split h list us (e ∷ first list vs ∷ rest list vs)
          (subst (λ w. w) (around h) is.links) in
      (l1.1, l2.0)

  -- __list_remove_entry takes a node out of its list, and leaves its own links.
  pub list_remove_entry_lem :
      (h' : Heap) × (list_remove_entry e h ≡ some h')
      × IsDlist h' list (us ++ vs)
      × Only (list ∷ (us ++ vs)) h h'
  unfolding list_remove_entry occurrences
  list_remove_entry_lem =
      let (p, n) = neighbours in
      let (lp, ln, le) = live_around in
      let run = list_remove_run (last list us) (first list vs) h lp ln in
      (
        gone,
        rw (le, list_remove_entry, p, n, run) refl,
        record {
          links =
              subst (λ w. w) (sym (cut gone list us vs))
                (Seg-removed h list us e (first list vs) (rest list vs)
                  (λ z. ground (arith, count z, first-rest_count z list vs))
                  (λ z. ground (arith, count z)) (subst (λ w. w) (around h) is.links));
          uniq = λ z. omega (arith, count z, occurrences-append z us vs);
          alive = λ z i. is.alive z (omega (arith, i, count z, occurrences-append z us vs));
        },
        record {
          same_next = λ z i. ground (arith, i, sources_count z list us, occurrences-append z us vs);
          same_prev =
              λ z i. ground (arith, i, first-rest_count z list vs, occurrences-append z us vs);
          same_live = λ z. refl;
        },
      )
    where
      gone : Heap
      gone = removed (last list us) (first list vs) h

  -- dlist_remove takes a node out of its list, and leaves it as a list of its own, without entries;
  -- of the links only those of the list change.
  pub remove_lem :
      (h' : Heap) × (remove e h ≡ some h')
      × IsDlist h' list (us ++ vs)
      × IsDlist h' e []
      × Only (list ∷ (us ++ (e ∷ vs))) h h'
  unfolding remove occurrences
  remove_lem =
      let (h1, run, is1, o1) = list_remove_entry_lem in
      let le : h1.live e ≡ true = o1.same_live e ∙ live_around.2 in
      let h2 : Heap = with_prev e e (with_next e e h1) in
      let (h3, run', self, o3) = init_lem e h2 le in
      let o2 : Only (e ∷ []) h1 h2 = record {
        same_next = λ z i. ground (arith, i);
        same_prev = λ z i. ground (arith, i);
        same_live = λ z. refl;
      } in
      let o13 : Only (e ∷ []) h1 h3 = Only-trans (e ∷ []) (e ∷ []) (e ∷ []) (λ z i. (i, i)) o2 o3 in
      (
        h3,
        rw (run, remove, ◌>>◌, le, le, run') refl,
        IsDlist-frame h1 h3 (e ∷ []) list (us ++ vs) o13
            (λ z i. ground (arith, i, count z, occurrences-append z us vs)) is1,
        self,
        Only-trans (list ∷ (us ++ vs)) (e ∷ []) (list ∷ (us ++ (e ∷ vs)))
            (λ z i.
              (omega (arith, i, count z, occurrences-append z us vs), omega (arith, i, count z)))
            o1 o13,
      )

  -- dlist_replace puts a node that is not in the list into the place of one that is, and leaves the
  -- latter as a list of its own, without entries; of the links only those of the list and of the
  -- new node change.
  pub replace_lem :
      (new : ℕ)
      → h.live new ≡ true
      → one new list + occurrences new (us ++ (e ∷ vs)) ≡ 0
      → (h' : Heap) × (replace e new h ≡ some h')
        × IsDlist h' list (us ++ (new ∷ vs))
        × IsDlist h' e []
        × Only (new ∷ list ∷ (us ++ (e ∷ vs))) h h'
  unfolding replace occurrences
  replace_lem new lnew fresh =
      let p = last list us in
      let n = first list vs in
      let r = rest list vs in
      let (prev_e, next_e) = neighbours in
      let (lp, ln, le) = live_around in
      let h4 : Heap = with_next p new (with_prev new p (with_prev n new (with_next new n h))) in
      let here : (new == new) ≡ true = ground arith in
      let apart : (e == n) ≡ false = ground (arith, count e) in
      let (s1, (l1, (l2, s2))) =
        Seg-split h list us (e ∷ n ∷ r) (subst (λ w. w) (around h) is.links) in
      let links4 : Seg h4 list (us ++ (new ∷ n ∷ r)) =
        bridge_over h h4 list us n r
          (λ z i. ground (arith, i, sources_count z list us, count z, fresh, count new))
          (λ z i. ground (arith, i, count z, fresh, count new))
          (λ z i. ground (
            arith,
            i,
            sources_count z list us,
            count z,
            first-rest_count z list vs,
            fresh,
            count new,
          ))
          (λ z i. ground (arith, i, count z, first-rest_count z list vs, fresh, count new)) new s1
          s2 (ground arith, ground arith)
          (
            ground (arith, sources_count new list us, fresh, count new),
            ground (arith, first-rest_count new list vs, fresh, count new),
          ) in
      let is4 : IsDlist h4 list (us ++ (new ∷ vs)) = record {
        links =
            subst (λ w. w)
              (sym (
                cut h4 list us (new ∷ vs)
                ∙ ap (λ w. Seg h4 list (us ++ (new ∷ w))) (first-rest list vs)))
              links4;
        uniq = λ z. ground (arith, count z, fresh, count new, occurrences-append z us (new ∷ vs));
        alive =
            λ z i. ground (arith, i, is.alive z, lnew, count z, occurrences-append z us (new ∷ vs));
      } in
      let o4 : Only (new ∷ list ∷ (us ++ (e ∷ vs))) h h4 = record {
        same_next = λ z i. ground (arith, i, sources_count z list us, count z);
        same_prev = λ z i. ground (arith, i, first-rest_count z list vs, count z);
        same_live = λ z. refl;
      } in
      let (h5, run', self, o5) = init_lem e h4 le in
      (
        h5,
        rw
            (
              le, replace, ◌>>◌, next_e, lnew, lnew, here, ln, le, apart, prev_e, lnew, lnew, here,
              lp, run',
            )
            refl,
        IsDlist-frame h4 h5 (e ∷ []) list (us ++ (new ∷ vs)) o5
            (λ z i.
              ground (arith, i, count z, fresh, count new, occurrences-append z us (new ∷ vs)))
            is4,
        self,
        Only-trans (new ∷ list ∷ (us ++ (e ∷ vs))) (e ∷ []) (new ∷ list ∷ (us ++ (e ∷ vs)))
            (λ z i. (i, omega (arith, i, count z))) o4 o5,
      )
