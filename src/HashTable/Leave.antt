-- ===== src/HashTable/Leave.antt =====
-- `RemoveChildHashEntry`.
use struct.Base.{
  ℕ, ◌<◌, ◌≡◌, refl, sym, subst, arith, true, false, some, List, [], ◌∷◌, ◌++◌, append-nil, ◌==◌,
  occurrences, length,
}
use struct.Dlist.{Heap, ◌>>◌, with_next, with_prev}
use struct.Dlist.Seg.{IsDlist}
use struct.Dlist.Add.{cut-Linked, head_live}
use struct.Dlist.Walk.{entry_links}
use struct.HashTable.{HashTable, success, brother_of, write_at, unlink_fast}
use struct.HashTable.Children.{part, remove_child}
use struct.HashTable.Frame.{IsDlist-nil}
use struct.HashTable.Links.{unlink_lem}
use struct.HashTable.Rep.{IsTable, contents, contents_same}
use struct.HashTable.Ring.{rotate}
use struct.HashTable.Family.{
  Family, related, related_IsTable, brothers_of, brothers-append, with_nodes_lem,
}

-- A node that is a ring of its own stays one.
unlink_alone :
    (b : ℕ) (h : Heap)
    → IsDlist h b []
    → (h' : Heap) × (unlink_fast b h ≡ some h') × IsDlist h' b [] × ((z : ℕ) → h'.live z ≡ h.live z)
unfolding unlink_fast
unlink_alone b h alone =
    let (n, p) = cut-Linked h b [] [] alone in
    let live = head_live h b [] [] alone in
    let here : (b == b) ≡ true = ground arith in
    let h' = with_prev b b (with_next b b (with_prev b b (with_next b b h))) in
    (
      h',
      rw (live, unlink_fast, ◌>>◌, n, p, live, live, here, p, live, live, live) refl,
      IsDlist-nil (ground arith) (ground arith) live,
      λ z. refl,
    )

-- The ways for a child to leave: what the parent points to then, and the ring of the other children.
pub data Leaves (x : ℕ) : List ℕ → ℕ → List ℕ → Type 0 where
  only_child : Leaves x (x ∷ []) 0 []
  later_child : (c : ℕ) (us vs : List ℕ) → Leaves x (c ∷ (us ++ (x ∷ vs))) c (c ∷ (us ++ vs))
  first_child : (y : ℕ) (ys : List ℕ) → Leaves x (x ∷ y ∷ ys) (brother_of y) (y ∷ ys)

abbrev pub Ring : HashTable → List ℕ → Type 0
Ring t [] = Unit
Ring t (c ∷ cs) = IsDlist t.brothers (brother_of c) (brothers_of cs)

module _ (t : HashTable) (es : List ℕ) (is : IsTable t es) (p : ℕ) (p_in : 0 < occurrences p es)
    (x : ℕ) (x_in : 0 < occurrences x es) where
  abbrev pub Left : ℕ → List ℕ → HashTable → Type 0
  Left pointer ds t' =
      (t'.child p ≡ pointer)
      × Ring t' ds
      × (t'.parent x ≡ 0)
      × IsDlist t'.brothers (brother_of x) []
      × IsTable t' es
      × (contents t' es ≡ contents t es)

  part_lem :
      (cs : List ℕ) (pointer : ℕ) (ds : List ℕ)
      → Leaves x cs pointer ds
      → Family t p cs
      → (t' : HashTable) × (part p x t ≡ some t') × Left pointer ds t'
  unfolding part occurrences
  part_lem cs pointer ds only_child (points, nil, ring) =
      let b = brother_of x in
      let (h, run, alone, same) = unlink_alone b t.brothers ring in
      let (n, pr) = cut-Linked t.brothers b [] [] ring in
      let live = head_live t.brothers b [] [] ring in
      let here : (x == x) ≡ true = ground arith in
      let at_b : (b == b) ≡ true = ground arith in
      let t' = related t h (write_at t.child p 0) (write_at t.parent x 0) in
      (
        t',
        rw (live, part, run, points, here, n, at_b) refl,
        (
          ground arith,
          tt,
          ground arith,
          alone,
          related_IsTable t es h (write_at t.child p 0) (write_at t.parent x 0) is same,
          contents_same t t' es (λ z i. (refl, refl, refl)),
        ),
      )
  part_lem cs pointer ds (later_child c us vs) (points, nil, ring) =
      let b = brother_of x in
      let ring2 = subst (IsDlist t.brothers (brother_of c)) (brothers-append us (x ∷ vs)) ring in
      let (u, uf) =
        unlink_lem t.brothers (brother_of c) (brothers_of us) b (brothers_of vs) ring2 in
      let (h, run, ring', alone, o) = uf in
      let (live, pr, n, differ, is') =
        entry_links t.brothers (brother_of c) (brothers_of us) b (brothers_of vs) ring2 in
      let other : (c == x) ≡ false = ground (arith, differ) in
      let t' = related t h t.child (write_at t.parent x 0) in
      (
        t',
        rw (live, part, run, points, other) refl,
        (
          points,
          subst (IsDlist h (brother_of c)) (sym (brothers-append us vs)) ring',
          ground arith,
          alone,
          related_IsTable t es h t.child (write_at t.parent x 0) is o.same_live,
          contents_same t t' es (λ z i. (refl, refl, refl)),
        ),
      )
  part_lem cs pointer ds (first_child y ys) (points, nil, ring) =
      let b = brother_of x in
      let ring2 = rotate b (brother_of y) (brothers_of ys) ring in
      let (u, uf) = unlink_lem t.brothers (brother_of y) (brothers_of ys) b [] ring2 in
      let (h, run, ring', alone, o) = uf in
      let (n, pr) = cut-Linked t.brothers b [] (brothers_of (y ∷ ys)) ring in
      let live = head_live t.brothers b [] (brothers_of (y ∷ ys)) ring in
      let here : (x == x) ≡ true = ground arith in
      let others : (brother_of y == b) ≡ false = ground (arith, ring.uniq (brother_of y)) in
      let t' = related t h (write_at t.child p (brother_of y)) (write_at t.parent x 0) in
      (
        t',
        rw (live, part, run, points, here, n, others) refl,
        (
          ground arith,
          subst (IsDlist h (brother_of y)) (append-nil (brothers_of ys)) ring',
          ground arith,
          alone,
          related_IsTable t es h (write_at t.child p (brother_of y)) (write_at t.parent x 0) is
              o.same_live,
          contents_same t t' es (λ z i. (refl, refl, refl)),
        ),
      )

  module _ (fuel : ℕ) (enough : length es < fuel) where
    -- On a well-formed table, with fuel above the number of its entries, RemoveChildHashEntry of a
    -- child of an entry returns 0 and takes the child out of the ring; the child has no parent then
    -- and is a ring of its own, and the table holds what it held. The entry points to NULL if there is
    -- no other child, to the child that it pointed to if that is another one, and else to the
    -- BrotherEntry of the next child.
    pub remove_child_lem :
        (cs : List ℕ) (pointer : ℕ) (ds : List ℕ)
        → Leaves x cs pointer ds
        → Family t p cs
        → (t' : HashTable) × (remove_child fuel (t.id_node p) (t.id_node x) (some t)
            ≡ some (success, some t'))
          × Left pointer ds t'
    unfolding remove_child
    remove_child_lem cs pointer ds leaves family =
        let (t', run, left) = part_lem cs pointer ds leaves family in
        (t', with_nodes_lem t es is fuel enough p p_in x x_in part t' run, left)
