-- ===== src/Dlist/Add.antt =====
-- `dlist_init`, `dlist_add` and `dlist_add_tail`.
use struct.Base.{
  ℕ, ◌+◌, ◌≤◌, ◌≡◌, ◌∙◌, refl, sym, ap, subst, arith, true, some, List, [], ◌∷◌, ◌++◌, append_assoc,
  append-nil, one, occurrences, occurrences-append,
}
use struct.Dlist.{Heap, ◌>>◌, with_next, with_prev, init, list_add, add, add_tail}
use struct.Dlist.Seg.{
  Linked, Seg, last, sources, sources_count, last-append, Seg-split, IsDlist, Only,
}
use struct.Dlist.Link.{added, list_add_run, Seg-added}

-- The node that follows the end of a part of a list, and those behind it.
abbrev pub first : ℕ → List ℕ → ℕ
first list [] = list
first list (v ∷ vs) = v

abbrev pub rest : ℕ → List ℕ → List ℕ
rest list [] = []
rest list (v ∷ vs) = vs ++ (list ∷ [])

pub first-rest : (list : ℕ) (vs : List ℕ) → vs ++ (list ∷ []) ≡ first list vs ∷ rest list vs
first-rest list [] = refl
first-rest list (v ∷ vs) = refl

pub last-rest : (list : ℕ) (vs : List ℕ) → last (first list vs) (rest list vs) ≡ list
last-rest list [] = refl
last-rest list (v ∷ vs) = last-append v vs list []

-- How often a node occurs in them.
pub first-rest_count :
    (z list : ℕ) (vs : List ℕ)
    → (one z (first list vs) + occurrences z (rest list vs) ≡ one z list + occurrences z vs)
      × (occurrences z (sources (first list vs) (rest list vs)) ≡ occurrences z vs)
unfolding occurrences
first-rest_count z list vs =
    let c : one z (first list vs) + occurrences z (rest list vs) ≡ one z list + occurrences z vs =
      ap (occurrences z) (sym (first-rest list vs)) ∙ by vs in
    (
      c,
      omega (
        arith,
        c,
        sources_count z (first list vs) (rest list vs),
        ap (one z) (last-rest list vs),
      ),
    )
  where
    by : (vs : List ℕ) → occurrences z (vs ++ (list ∷ [])) ≡ one z list + occurrences z vs
    by vs = omega (arith, occurrences-append z vs (list ∷ []))

-- The links of a list, cut behind `us`.
pub cut :
    (h : Heap) (list : ℕ) (us vs : List ℕ)
    → Seg h list ((us ++ vs) ++ (list ∷ [])) ≡ Seg h list (us ++ (first list vs ∷ rest list vs))
cut h list us vs =
    ap (Seg h list) (append_assoc us vs (list ∷ []) ∙ ap (λ w. us ++ w) (first-rest list vs))

pub init_lem :
    (list : ℕ) (h : Heap)
    → h.live list ≡ true
    → (h' : Heap) × (init list h ≡ some h') × IsDlist h' list [] × Only (list ∷ []) h h'
unfolding init occurrences
init_lem list h l = (
  with_prev list list (with_next list list h),
  rw (l, init, ◌>>◌, l) refl,
  record {
    links = ((ground arith, ground arith), tt);
    uniq = λ z. ground arith;
    alive = λ z i. ground (arith, i, l);
  },
  record {
    same_next = λ z i. ground (arith, i);
    same_prev = λ z i. ground (arith, i);
    same_live = λ z. refl;
  },
)

module _ (h : Heap) (list : ℕ) (us vs : List ℕ) (is : IsDlist h list (us ++ vs)) where
  count :
      (z : ℕ)
      → (one z list + (occurrences z us + occurrences z vs) ≤ 1)
        × (occurrences z us + (one z (first list vs) + occurrences z (rest list vs)) ≤ 1)
  count z = (
    omega (arith, is.uniq z, occurrences-append z us vs),
    omega (arith, is.uniq z, occurrences-append z us vs, (first-rest_count z list vs).0),
  )

  pub live_last : h.live (last list us) ≡ true
  live_last = is.alive (last list us) (
      ground (arith, sources_count (last list us) list us, occurrences-append (last list us) us vs))

  pub live_first : h.live (first list vs) ≡ true
  live_first = is.alive (first list vs) (
      ground (
        arith,
        (first-rest_count (first list vs) list vs).0,
        occurrences-append (first list vs) us vs,
      ))

  -- __list_add of a node between two neighbours of a list puts it into the list there.
  pub list_add_lem :
      (e : ℕ)
      → h.live e ≡ true
      → one e list + occurrences e (us ++ vs) ≡ 0
      → (h' : Heap) × (list_add e (last list us) (first list vs) h ≡ some h')
        × IsDlist h' list (us ++ (e ∷ vs))
        × Only (e ∷ list ∷ (us ++ vs)) h h'
  unfolding occurrences
  list_add_lem e le fresh = (
    put,
    list_add_run e (last list us) (first list vs) h le live_last live_first,
    record {
      links =
          subst (λ w. w)
            (sym (
              cut put list us (e ∷ vs)
              ∙ ap (λ w. Seg put list (us ++ (e ∷ w))) (first-rest list vs)))
            (Seg-added h list us e (first list vs) (rest list vs)
              (λ z.
                ground
                  (arith, count z, fresh, first-rest_count z list vs, occurrences-append z us vs))
              (λ z.
                ground
                  (arith, count z, fresh, first-rest_count z list vs, occurrences-append z us vs))
              (subst (λ w. w) (cut h list us vs) is.links));
      uniq = λ z.
          ground
            (arith, count z, fresh, occurrences-append z us (e ∷ vs), occurrences-append z us vs);
      alive = λ z i.
          ground
            (arith, is.alive z, le, occurrences-append z us (e ∷ vs), occurrences-append z us vs);
    },
    record {
      same_next = λ z i. ground (arith, i, sources_count z list us, occurrences-append z us vs);
      same_prev = λ z i. ground (arith, i, first-rest_count z list vs, occurrences-append z us vs);
      same_live = λ z. refl;
    },
  )
    where
      put : Heap
      put = added e (last list us) (first list vs) h

  -- The two nodes at a cut are linked.
  pub cut-Linked : Linked h (last list us) (first list vs)
  cut-Linked =
      let (s1, (l, s2)) =
        Seg-split h list us (first list vs ∷ rest list vs)
          (subst (λ w. w) (cut h list us vs) is.links) in
      l

  pub head_live : h.live list ≡ true
  head_live = is.alive list (ground arith)

module _ (h : Heap) (list : ℕ) (xs : List ℕ) (is : IsDlist h list xs) (e : ℕ) (le : h.live e ≡ true)
    (fresh : one e list + occurrences e xs ≡ 0) where
  pub add_lem :
      (h' : Heap) × (add list e h ≡ some h') × IsDlist h' list (e ∷ xs) × Only (e ∷ list ∷ xs) h h'
  unfolding add
  add_lem =
      let (h', run, is', o) = list_add_lem h list [] xs is e le fresh in
      let (n, p) = cut-Linked h list [] xs is in
      let l = head_live h list [] xs is in (h', rw (l, add, n, run) refl, is', o)

  pub add_tail_lem :
      (h' : Heap) × (add_tail list e h ≡ some h')
      × IsDlist h' list (xs ++ (e ∷ []))
      × Only (e ∷ list ∷ xs) h h'
  unfolding add_tail
  add_tail_lem =
      let same : xs ++ [] ≡ xs = append-nil xs in
      let whole : IsDlist h list (xs ++ []) = subst (IsDlist h list) (sym same) is in
      let (h', run, is', o) =
        list_add_lem h list xs [] whole e le
          (ap (λ w. one e list + occurrences e w) same ∙ fresh) in
      let (n, p) = cut-Linked h list xs [] whole in
      let l = head_live h list xs [] whole in
      (h', rw (l, add_tail, p, run) refl, is', subst (λ w. Only (e ∷ list ∷ w) h h') same o)

  -- dlist_add of a node that is not in the list puts it first, and dlist_add_tail puts it last; of
  -- the links only those of the node and of the list change.
  pub add-add_tail :
      ((h' : Heap) × (add list e h ≡ some h')
        × IsDlist h' list (e ∷ xs)
        × Only (e ∷ list ∷ xs) h h')
      × ((h' : Heap) × (add_tail list e h ≡ some h')
          × IsDlist h' list (xs ++ (e ∷ []))
          × Only (e ∷ list ∷ xs) h h')
  add-add_tail = (add_lem, add_tail_lem)
