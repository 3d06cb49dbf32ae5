-- ===== src/HashTable/Family.antt =====
-- The parents and children of hashtable.cpp.
use struct.Base.{
  ℕ, suc, ◌≤◌, ◌<◌, ◌≡◌, ◌≢◌, refl, ◌∙◌, sym, ap, subst, arith, true, false, Option, some, List, [],
  ◌∷◌, ◌++◌, ◌==◌, ◌||◌, occurrences, length,
}
use struct.Dlist.{Heap, ◌>>◌, with_next, with_prev}
use struct.Dlist.Seg.{IsDlist}
use struct.Dlist.Add.{cut-Linked, head_live}
use struct.HashTable.{HashTable, success, brother_of, write_at}
use struct.HashTable.Children.{link_child, adopt, add_child, with_nodes, child_count}
use struct.HashTable.Frame.{IsDlist-nil}
use struct.HashTable.Links.{link_child_lem}
use struct.HashTable.Rep.{IsTable, contents, contents_same}
use struct.HashTable.Ring.{rotate, count_ring, get_node_lem}

abbrev pub brothers_of : List ℕ → List ℕ
brothers_of [] = []
brothers_of (c ∷ cs) = brother_of c ∷ brothers_of cs

-- The children of an entry, from the one that it points to on.
abbrev pub Family : HashTable → ℕ → List ℕ → Type 0
Family t p [] = t.child p ≡ 0
Family t p (c ∷ cs) = (t.child p ≡ c) × (c ≢ 0) × IsDlist t.brothers (brother_of c) (brothers_of cs)

pub brothers_count :
    (z : ℕ) (cs : List ℕ) → occurrences (brother_of z) (brothers_of cs) ≡ occurrences z cs
unfolding occurrences
brothers_count z [] = refl
brothers_count z (c ∷ cs) = ground (arith, brothers_count z cs)

pub brothers-append : (xs ys : List ℕ) → brothers_of (xs ++ ys) ≡ brothers_of xs ++ brothers_of ys
brothers-append [] ys = refl
brothers-append (x ∷ xs) ys = ap (λ w. brother_of x ∷ w) (brothers-append xs ys)

brothers_length : (cs : List ℕ) → length (brothers_of cs) ≡ length cs
brothers_length [] = refl
brothers_length (c ∷ cs) = ap suc (brothers_length cs)

-- A node that is a ring of its own stays one.
link_alone :
    (b : ℕ) (h : Heap)
    → IsDlist h b []
    → (h' : Heap) × (link_child b b h ≡ some h')
      × IsDlist h' b []
      × ((z : ℕ) → h'.live z ≡ h.live z)
unfolding link_child
link_alone b h alone =
    let (n, pr) = cut-Linked h b [] [] alone in
    let live = head_live h b [] [] alone in
    let here : (b == b) ≡ true = ground arith in
    let h' = with_next b b (with_prev b b (with_prev b b (with_next b b h))) in
    (
      h',
      rw (live, link_child, ◌>>◌, n, live, live, here, live, live) refl,
      IsDlist-nil (ground arith) (ground arith) live,
      λ z. refl,
    )

-- Where a new child goes: the parent points to it, and it stands behind the child that the parent
-- pointed to.
abbrev pub grown : ℕ → List ℕ → List ℕ
grown x [] = x ∷ []
grown x (c ∷ cs) = x ∷ (cs ++ (c ∷ []))

-- A table whose children and parents alone changed, and no liveness.
abbrev pub related : HashTable → Heap → (child parent : ℕ → ℕ) → HashTable
related t h child parent = record t { brothers = h; child = child; parent = parent }

pub related_IsTable :
    (t : HashTable) (es : List ℕ) (h : Heap) (child parent : ℕ → ℕ)
    → IsTable t es
    → ((z : ℕ) → h.live z ≡ t.brothers.live z)
    → IsTable (related t h child parent) es
related_IsTable t es h child parent is same = record {
  some_burkets = is.some_burkets;
  burkets = is.burkets;
  fast_links = is.fast_links;
  no_head = is.no_head;
  uniq = is.uniq;
  not_null = is.not_null;
  brother_live = λ z o. same (brother_of z) ∙ is.brother_live z o;
  ids = is.ids;
  number = is.number;
}

module _ (t : HashTable) (es : List ℕ) (is : IsTable t es) (fuel : ℕ) (enough : length es < fuel)
    (p : ℕ) (p_in : 0 < occurrences p es) where
  -- On a well-formed table, with fuel above the number of its entries, GetChildHashEntryCount
  -- returns the number of the children of an entry that is there.
  pub child_count_lem :
      (cs : List ℕ)
      → Family t p cs
      → length cs ≤ fuel
      → child_count fuel (t.id_node p) (some t) ≡ some (length cs)
  unfolding child_count
  child_count_lem [] none_yet le =
      let run = get_node_lem t es is fuel enough (t.id_node p) p p_in refl in
      let there : (p == 0) ≡ false = ground (arith, is.not_null p p_in) in
      let none_here : (t.child p == 0) ≡ true = ground (arith, none_yet) in
      rw (run, child_count, there, none_here) refl
  child_count_lem (c ∷ cs) (points, nil, ring) le =
      let run = get_node_lem t es is fuel enough (t.id_node p) p p_in refl in
      let there : (p == 0) ≡ false = ground (arith, is.not_null p p_in) in
      let some_here : (c == 0) ≡ false = ground (arith, nil) in
      rw (run, child_count, there, points, some_here)
        (count_ring fuel (brother_of c) t.brothers (brothers_of cs) ring
            (omega (arith, le, brothers_length cs))
          ∙ ap (λ n. some (suc n)) (brothers_length cs))

  module _ (x : ℕ) (x_in : 0 < occurrences x es) where
    -- Both lookups find their entries.
    pub with_nodes_lem :
        (body : ℕ → ℕ → HashTable → Option HashTable) (t' : HashTable)
        → body p x t ≡ some t'
        → with_nodes fuel (t.id_node p) (t.id_node x) body (some t) ≡ some (success, some t')
    with_nodes_lem body t' run =
        let run1 = get_node_lem t es is fuel enough (t.id_node p) p p_in refl in
        let run2 = get_node_lem t es is fuel enough (t.id_node x) x x_in refl in
        let there : ((p == 0) || (x == 0)) ≡ false =
          ground (arith, is.not_null p p_in, is.not_null x x_in) in
        rw (with_nodes, run1, run2, there, run) refl

    abbrev pub Grown : List ℕ → HashTable → Type 0
    Grown cs t' =
        Family t' p (grown x cs)
        × (t'.parent x ≡ p)
        × IsTable t' es
        × (contents t' es ≡ contents t es)

    adopt_lem :
        (cs : List ℕ)
        → Family t p cs
        → occurrences x cs ≡ 0
        → IsDlist t.brothers (brother_of x) []
        → (t' : HashTable) × (adopt p x t ≡ some t') × Grown cs t'
    unfolding adopt occurrences
    adopt_lem [] none_yet out alone =
        let b = brother_of x in
        let none_here : (t.child p == 0) ≡ true = ground (arith, none_yet) in
        let (h, run, ring, same) = link_alone b t.brothers alone in
        let t' = related t h (write_at t.child p x) (write_at t.parent x p) in
        (
          t',
          rw (none_here, adopt, run) refl,
          (
            (ground arith, is.not_null x x_in, ring),
            ground arith,
            related_IsTable t es h (write_at t.child p x) (write_at t.parent x p) is same,
            contents_same t t' es (λ z i. (refl, refl, refl)),
          ),
        )
    adopt_lem (c ∷ cs) (points, nil, ring) out alone =
        let some_here : (c == 0) ≡ false = ground (arith, nil) in
        let live = head_live t.brothers (brother_of x) [] [] alone in
        let (h, run, ring', o) =
          link_child_lem t.brothers (brother_of c) (brothers_of cs) ring (brother_of x) live
            (ground (arith, brothers_count x cs, out)) in
        let t' = related t h (write_at t.child p x) (write_at t.parent x p) in
        (
          t',
          rw (points, adopt, some_here, run) refl,
          (
            (
              ground arith,
              is.not_null x x_in,
              subst (IsDlist h (brother_of x)) (sym (brothers-append cs (c ∷ [])))
                  (rotate (brother_of c) (brother_of x) (brothers_of cs) ring'),
            ),
            ground arith,
            related_IsTable t es h (write_at t.child p x) (write_at t.parent x p) is o.same_live,
            contents_same t t' es (λ z i. (refl, refl, refl)),
          ),
        )

    -- On a well-formed table, with fuel above the number of its entries, AddChildHashEntry of two
    -- entries that are there, where the child is none of the parent's yet and its ring is its own,
    -- returns 0; then the parent points to the new child, the child it pointed to is the last of the
    -- others, the child has the parent, and the table holds what it held.
    pub add_child_lem :
        (cs : List ℕ)
        → Family t p cs
        → occurrences x cs ≡ 0
        → IsDlist t.brothers (brother_of x) []
        → (t' : HashTable) × (add_child fuel (t.id_node p) (t.id_node x) (some t)
            ≡ some (success, some t'))
          × Grown cs t'
    unfolding add_child
    add_child_lem cs family out alone =
        let (t', run, is') = adopt_lem cs family out alone in (t', with_nodes_lem adopt t' run, is')
