-- ===== src/HashTable/Links.antt =====
-- What the writes to the list entries of a table do to the lists of dlist.h.
use struct.Base.{
  ℕ, ◌+◌, ◌≡◌, ◌≢◌, ◌∙◌, refl, sym, ap, subst, arith, true, false, some, List, [], ◌∷◌, ◌++◌, ◌==◌,
  if◌then◌else◌, one, occurrences, occurrences-append,
}
use mathlib.Core.Path.{fun_ext}
use struct.Dlist.{Heap, Cmd, ◌>>◌, with_next, with_prev, set_next, set_prev, add, list_remove_entry}
use struct.Dlist.Seg.{last, sources_count, IsDlist, IsDlist-frame, Only, Only-trans}
use struct.Dlist.Link.{added, removed, list_add_run, list_remove_run}
use struct.Dlist.Add.{first, cut-Linked, head_live, live_first, add_lem}
use struct.Dlist.Remove.{count, live_around, neighbours, list_remove_entry_lem}
use struct.HashTable.{link_entry, link_fast, unlink, unlink_fast}
use struct.HashTable.Children.{link_child}

-- The heap after an insertion by the orders of the writes that the code has.
link_entry_run :
    (list e f : ℕ) (h : Heap)
    → h.live list ≡ true
    → h.live e ≡ true
    → h.live f ≡ true
    → h.next list ≡ f
    → link_entry list e h ≡ some (added e list f h)
unfolding link_entry
link_entry_run list e f h l le lf n =
    let here : (e == e) ≡ true = ground arith in
    rw (l, link_entry, ◌>>◌, n, le, le, here, lf, l, le) refl

module _ (list e f : ℕ) (h : Heap) (l : h.live list ≡ true) (le : h.live e ≡ true)
    (lf : h.live f ≡ true) (n : h.next list ≡ f) (apart : list ≢ e) (other : f ≢ e) where
  fast_order :
      with_next list e (with_prev f e (with_prev e list (with_next e f h))) ≡ added e list f h
  fast_order =
      ap (λ prev. record { live = h.live; next = (added e list f h).next; prev = prev })
        (fun_ext {f = λ x. if x == f then e else (if x == e then list else h.prev x)}
          {g = λ x. if x == e then list else (if x == f then e else h.prev x)}
          λ x. ground (arith, other))

  link_fast_run : link_fast list e h ≡ some (added e list f h)
  unfolding link_fast
  link_fast_run =
      let there : (list == e) ≡ false = ground (arith, apart) in
      rw (l, link_fast, ◌>>◌, n, le, le, l, there, n, lf, l) (ap some fast_order)

  link_child_run : link_child list e h ≡ some (added e list f h)
  unfolding link_child
  link_child_run =
      let there : (list == e) ≡ false = ground (arith, apart) in
      rw (l, link_child, ◌>>◌, n, le, le, l, there, n, lf, l) (ap some fast_order)

module _ (h : Heap) (list : ℕ) (xs : List ℕ) (is : IsDlist h list xs) (e : ℕ) (le : h.live e ≡ true)
    (fresh : one e list + occurrences e xs ≡ 0) where
  -- What an insertion in front comes to.
  abbrev pub Put : Cmd → Type 0
  Put m = (h' : Heap) × (m h ≡ some h') × IsDlist h' list (e ∷ xs) × Only (e ∷ list ∷ xs) h h'

  as_added : (m : Cmd) → m h ≡ some (added e list (first list xs) h) → Put m
  unfolding add
  as_added m run =
      let (h', run', is', o) = add_lem h list xs is e le fresh in
      let l = head_live h list [] xs is in
      let lf = live_first h list [] xs is in
      let (n, p) = cut-Linked h list [] xs is in
      let here : add list e h ≡ some (added e list (first list xs) h) =
        rw (l, add, n, list_add_run e list (first list xs) h le l lf) refl in
      (h', run ∙ sym here ∙ run', is', o)

  other : first list xs ≢ e
  unfolding occurrences
  other eq = by xs refl eq
    where
      by : (ys : List ℕ) → ys ≡ xs → first list ys ≢ e
      by [] same eq = grind (arith, fresh, eq)
      by (y ∷ ys) same eq =
          grind (arith, subst (λ w. one e list + occurrences e w ≡ 0) (sym same) fresh, eq)

  pub link_entry_lem : Put (link_entry list e)
  link_entry_lem = as_added (link_entry list e) (
      link_entry_run list e (first list xs) h (head_live h list [] xs is) le
        (live_first h list [] xs is) (cut-Linked h list [] xs is).0)

  apart : list ≢ e
  apart = λ eq. grind (arith, eq, fresh)

  pub link_fast_lem : Put (link_fast list e)
  link_fast_lem = as_added (link_fast list e) (
      link_fast_run list e (first list xs) h (head_live h list [] xs is) le
        (live_first h list [] xs is) (cut-Linked h list [] xs is).0 apart other)

  pub link_child_lem : Put (link_child list e)
  link_child_lem = as_added (link_child list e) (
      link_child_run list e (first list xs) h (head_live h list [] xs is) le
        (live_first h list [] xs is) (cut-Linked h list [] xs is).0 apart other)

-- Both removals take the entry out as `__list_remove_entry` does, and then write its own links.
abbrev alone : ℕ → Heap → Heap
alone e h = with_next e e (with_prev e e h)

module _ (e p n : ℕ) (h : Heap) (le : h.live e ≡ true) (lp : h.live p ≡ true) (ln : h.live n ≡ true)
    (pe : h.prev e ≡ p) (ne : h.next e ≡ n) (p' : p ≢ e) (n' : n ≢ e) where
  unlink_run :
      (unlink e h ≡ some (alone e (removed p n h)))
      × (unlink_fast e h ≡ some (alone e (removed p n h)))
  unfolding unlink unlink_fast
  unlink_run =
      let there : (e == p) ≡ false = ground (arith, p') in
      (
        rw (le, unlink, ◌>>◌, pe, ne, lp, le, there, ne, pe, ln, le, le) refl,
        rw (le, unlink_fast, ◌>>◌, pe, ne, lp, le, there, ne, pe, ln, le, le) refl,
      )

  remove_run :
      (list_remove_entry e >> set_prev e e >> set_next e e) h ≡ some (alone e (removed p n h))
  unfolding list_remove_entry
  remove_run = rw (le, list_remove_entry, ◌>>◌, pe, ne, list_remove_run p n h lp ln, le, le) refl

module _ (h : Heap) (list : ℕ) (us : List ℕ) (e : ℕ) (vs : List ℕ)
    (is : IsDlist h list (us ++ (e ∷ vs))) where
  abbrev pub Taken : Cmd → Type 0
  Taken m =
      (h' : Heap) × (m h ≡ some h')
      × IsDlist h' list (us ++ vs)
      × IsDlist h' e []
      × Only (list ∷ (us ++ (e ∷ vs))) h h'

  around_e : (last list us ≢ e) × (first list vs ≢ e)
  unfolding occurrences
  around_e = (
    λ eq. grind (arith, eq, sources_count e list us, count h list us e vs is e),
    λ eq. grind (arith, eq, count h list us e vs is e),
  )

  taken :
      (h' : Heap) × ((list_remove_entry e >> set_prev e e >> set_next e e) h ≡ some h')
      × IsDlist h' list (us ++ vs)
      × IsDlist h' e []
      × Only (list ∷ (us ++ (e ∷ vs))) h h'
  unfolding occurrences
  taken =
      let (h1, run, is1, o1) = list_remove_entry_lem h list us e vs is in
      let (lp, ln, le) = live_around h list us e vs is in
      let le1 : h1.live e ≡ true = o1.same_live e ∙ le in
      let o2 : Only (e ∷ []) h1 (alone e h1) = record {
        same_next = λ z i. ground (arith, i);
        same_prev = λ z i. ground (arith, i);
        same_live = λ z. refl;
      } in
      (
        alone e h1,
        rw (run, ◌>>◌, le1, le1) refl,
        IsDlist-frame h1 (alone e h1) (e ∷ []) list (us ++ vs) o2
            (λ z i. ground (arith, i, count h list us e vs is z, occurrences-append z us vs)) is1,
        record {
          links = ((ground arith, ground arith), tt);
          uniq = λ z. ground arith;
          alive = λ z i. ground (arith, i, le1);
        },
        Only-trans (list ∷ (us ++ vs)) (e ∷ []) (list ∷ (us ++ (e ∷ vs)))
            (λ z i. (
              omega (arith, i, count h list us e vs is z, occurrences-append z us vs),
              omega (arith, i, count h list us e vs is z),
            ))
            o1 o2,
      )

  as_removed : (m : Cmd) → m h ≡ (list_remove_entry e >> set_prev e e >> set_next e e) h → Taken m
  as_removed m same = let (h', run, is', self, o) = taken in (h', same ∙ run, is', self, o)

  pub unlink_lem : Taken (unlink e) × Taken (unlink_fast e)
  unlink_lem =
      let (pe, ne) = neighbours h list us e vs is in
      let (lp, ln, le) = live_around h list us e vs is in
      let (p', n') = around_e in
      let r = remove_run e (last list us) (first list vs) h le lp ln pe ne p' n' in
      let (r1, r2) = unlink_run e (last list us) (first list vs) h le lp ln pe ne p' n' in
      (as_removed (unlink e) (r1 ∙ sym r), as_removed (unlink_fast e) (r2 ∙ sym r))
