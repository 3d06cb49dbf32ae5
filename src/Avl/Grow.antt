-- ===== src/Avl/Grow.antt =====
-- `InsertAvlEntry` down a tree.
use struct.Base.{
  ℕ, zero, suc, ◌+◌, ◌≤◌, ◌<◌, ◌≡◌, ◌≢◌, ◌∙◌, refl, sym, subst, arith, Bool, true, false, Option,
  some, List, ◌++◌, ◌==◌, ◌&&◌, ◌||◌, ltb, leb, one, occurrences, occurrences-append,
}
use struct.Avl.{AvlNode, Cells}
use struct.Avl.Search.{Entry, Tree, leaf, node, root, depth}
use struct.Avl.Change.{
  ◌>>=◌, put, Errno, success, new_node, set_left, set_right, after_left, after_right, insert_entry,
}
use struct.Avl.Shape.{addrs, Stands, Stands-frame, fix_height-Stands}
use struct.Avl.Insert.{Inserts, at_leaf, to_left, to_left_rotated, to_right, Inserts-count}
use struct.Avl.Hang.{Done, level_left, level_right, turned_left}

abbrev overlaps : (min_key max_key lo hi : ℕ) → Bool
overlaps min_key max_key lo hi =
    (leb lo min_key && leb min_key hi) || (leb lo max_key && leb max_key hi)

before : (a b lo hi : ℕ) → a ≤ b → b < lo → overlaps a b lo hi ≡ false
before a b lo hi le lt = ground (arith, le, lt)

behind : (a b lo hi : ℕ) → a ≤ b → hi < a → overlaps a b lo hi ≡ false
behind a b lo hi le lt = ground (arith, le, lt)

module _ (f : Entry) (bytes : List ℕ) (nil : f.addr ≢ 0) (proper : f.lo ≤ f.hi) where
  abbrev go : ℕ → ℕ → Cells → Option ((Errno × Option ℕ) × Cells)
  go fuel tree = insert_entry fuel (some f.addr) f.lo f.hi bytes tree

  -- The two ways down.
  go_left :
      (fuel q p : ℕ) (n : AvlNode) (e : Entry) (h h1 : Cells)
      (r : Option ((Errno × Option ℕ) × Cells))
      → q ≢ 0
      → h q ≡ some n
      → n.min_key ≡ e.lo
      → n.max_key ≡ e.hi
      → f.hi < e.lo
      → go fuel n.left h ≡ some ((success, some p), h1)
      → (set_left q (some p) >>= λ _. after_left q f.lo) h1 ≡ r
      → go (suc fuel) q h ≡ r
  unfolding insert_entry
  go_left fuel q p n e h h1 r ne at lo hi lt run rest =
      let here : (q == 0) ≡ false = ground (arith, ne) in
      let clear : overlaps f.lo f.hi n.min_key n.max_key ≡ false =
        before f.lo f.hi n.min_key n.max_key proper (omega (arith, lt, lo)) in
      let less : ltb f.hi n.min_key ≡ true = ground (arith, lt, lo) in
      rw (here, insert_entry, at, clear, less, run) rest

  go_right :
      (fuel q p : ℕ) (n : AvlNode) (e : Entry) (h h1 : Cells)
      (r : Option ((Errno × Option ℕ) × Cells))
      → q ≢ 0
      → h q ≡ some n
      → n.min_key ≡ e.lo
      → n.max_key ≡ e.hi
      → e.lo ≤ e.hi
      → e.hi < f.lo
      → go fuel n.right h ≡ some ((success, some p), h1)
      → (set_right q (some p) >>= λ _. after_right q f.lo) h1 ≡ r
      → go (suc fuel) q h ≡ r
  unfolding insert_entry
  go_right fuel q p n e h h1 r ne at lo hi le lt run rest =
      let here : (q == 0) ≡ false = ground (arith, ne) in
      let clear : overlaps f.lo f.hi n.min_key n.max_key ≡ false =
        behind f.lo f.hi n.min_key n.max_key proper (omega (arith, lt, hi)) in
      let more : ltb f.hi n.min_key ≡ false = ground (arith, lt, lo, le, proper) in
      rw (here, insert_entry, at, clear, more, run) rest

  abbrev cells_of : Tree → ℕ → ℕ
  cells_of t z = one z f.addr + occurrences z (addrs t)

  -- What the inner call leaves for the outer one, where `l` is the subtree and `r` the other one.
  module _ (h h1 : Cells) (e : Entry) (l r a : Tree) (x : Entry) (b : Tree)
      (i : Inserts f l (node a x b))
      (once : (z : ℕ)
        → one z f.addr + (one z e.addr + (occurrences z (addrs l) + occurrences z (addrs r))) ≤ 1)
      (same : (z : ℕ) → cells_of l z ≡ 0 → h1 z ≡ h z) where
    parts :
        (z : ℕ)
        → one z x.addr + (occurrences z (addrs a) + occurrences z (addrs b))
          ≡ one z f.addr + occurrences z (addrs l)
    unfolding occurrences
    parts z =
        omega (arith, Inserts-count f l (node a x b) i z, occurrences-append z (addrs a) (addrs b))

    once_after :
        (z : ℕ)
        → one z e.addr
            + (one z x.addr
                + (occurrences z (addrs a) + (occurrences z (addrs b) + occurrences z (addrs r))))
          ≤ 1
    once_after z = omega (arith, parts z, once z)

    root_same : (n : AvlNode) → h e.addr ≡ some n → h1 e.addr ≡ some n
    root_same n at = same e.addr (grind (arith, once e.addr)) ∙ at

    other_same : Stands h r → Stands h1 r
    other_same = Stands-frame h h1 r (λ z o. same z (omega (arith, o, once z)))

    all_same :
        (h2 : Cells)
        → ((z : ℕ) → one z e.addr + (one z x.addr + occurrences z (addrs b)) ≡ 0 → h2 z ≡ h1 z)
        → (z : ℕ)
        → one z f.addr + (one z e.addr + (occurrences z (addrs l) + occurrences z (addrs r))) ≡ 0
        → h2 z ≡ h z
    all_same h2 same2 z o = same2 z (omega (arith, o, parts z)) ∙ same z (omega (arith, o))

  pub insert_entry_run :
      (fuel : ℕ) (h : Cells) (t t' : Tree)
      → Inserts f t t'
      → Stands h t
      → ((z : ℕ) → cells_of t z ≤ 1)
      → depth t < fuel
      → Done h t' (go fuel (root t)) (cells_of t)
  unfolding insert_entry occurrences
  insert_entry_run zero h t t' i s once lt = absurd (omega (arith, lt))
  insert_entry_run (suc fuel) h t t' at_leaf s once lt =
      let n : AvlNode = new_node f.lo f.hi bytes in
      let self : (f.addr == f.addr) ≡ true = ground arith in
      let (h', fix, s', same) =
        fix_height-Stands (put f.addr n h) f leaf leaf n nil (rw self refl) refl refl refl refl refl
          refl tt tt in
      (
        h',
        rw (insert_entry, ◌>>=◌, fix) refl,
        s',
        λ z o.
            let other : (z == f.addr) ≡ false = ground (arith, o) in
            same z (omega (arith, o)) ∙ rw other refl,
      )
  insert_entry_run (suc fuel) h t t' (to_left l e r a x b less i level)
        (ne, (n, at, fields), sl, sr) once lt =
      let (lo, hi, nl, nr, height) = fields in
      let count : (z : ℕ)
          → occurrences z (addrs l ++ addrs r) ≡ occurrences z (addrs l) + occurrences z (addrs r) =
        λ z. occurrences-append z (addrs l) (addrs r) in
      let once' : (z : ℕ)
          → one z f.addr + (one z e.addr + (occurrences z (addrs l) + occurrences z (addrs r)))
            ≤ 1 =
        λ z. omega (arith, once z, count z) in
      let (h1, run1, s1, same1) =
        insert_entry_run fuel h l (node a x b) i sl (λ z. omega (arith, once' z))
          (omega (arith, lt)) in
      let at1 = root_same h h1 e l r a x b i once' same1 n at in
      let sr1 = other_same h h1 e l r a x b i once' same1 sr in
      let (h2, run2, s2, same2) =
        level_left h1 e n ne at1 lo hi a x b r s1 sr1 (once_after h h1 e l r a x b i once' same1)
          f.lo nr level in
      let run1' : go fuel n.left h ≡ some ((success, some x.addr), h1) =
        subst (λ w. go fuel w h ≡ some ((success, some x.addr), h1)) (sym nl) run1 in
      (
        h2,
        go_left fuel e.addr x.addr n e h h1 _ ne at lo hi less run1' run2,
        s2,
        λ z o. all_same h h1 e l r a x b i once' same1 h2 same2 z (omega (arith, o, count z)),
      )
  insert_entry_run (suc fuel) h t t' (to_left_rotated l e r a x b less i level smaller)
        (ne, (n, at, fields), sl, sr) once lt =
      let (lo, hi, nl, nr, height) = fields in
      let count : (z : ℕ)
          → occurrences z (addrs l ++ addrs r) ≡ occurrences z (addrs l) + occurrences z (addrs r) =
        λ z. occurrences-append z (addrs l) (addrs r) in
      let once' : (z : ℕ)
          → one z f.addr + (one z e.addr + (occurrences z (addrs l) + occurrences z (addrs r)))
            ≤ 1 =
        λ z. omega (arith, once z, count z) in
      let (h1, run1, s1, same1) =
        insert_entry_run fuel h l (node a x b) i sl (λ z. omega (arith, once' z))
          (omega (arith, lt)) in
      let at1 = root_same h h1 e l r a x b i once' same1 n at in
      let sr1 = other_same h h1 e l r a x b i once' same1 sr in
      let (h2, run2, s2, same2) =
        turned_left h1 e n ne at1 lo hi a x b r s1 sr1 (once_after h h1 e l r a x b i once' same1)
          f.lo nr level smaller in
      let run1' : go fuel n.left h ≡ some ((success, some x.addr), h1) =
        subst (λ w. go fuel w h ≡ some ((success, some x.addr), h1)) (sym nl) run1 in
      (
        h2,
        go_left fuel e.addr x.addr n e h h1 _ ne at lo hi less run1' run2,
        s2,
        λ z o. all_same h h1 e l r a x b i once' same1 h2 same2 z (omega (arith, o, count z)),
      )
  insert_entry_run (suc fuel) h t t' (to_right l e r a x b le less i level)
        (ne, (n, at, fields), sl, sr) once lt =
      let (lo, hi, nl, nr, height) = fields in
      let count : (z : ℕ)
          → occurrences z (addrs l ++ addrs r) ≡ occurrences z (addrs l) + occurrences z (addrs r) =
        λ z. occurrences-append z (addrs l) (addrs r) in
      let once' : (z : ℕ)
          → one z f.addr + (one z e.addr + (occurrences z (addrs r) + occurrences z (addrs l)))
            ≤ 1 =
        λ z. omega (arith, once z, count z) in
      let (h1, run1, s1, same1) =
        insert_entry_run fuel h r (node a x b) i sr (λ z. omega (arith, once' z))
          (omega (arith, lt)) in
      let at1 = root_same h h1 e r l a x b i once' same1 n at in
      let sl1 = other_same h h1 e r l a x b i once' same1 sl in
      let (h2, run2, s2, same2) =
        level_right h1 e n ne at1 lo hi a x b l s1 sl1 (once_after h h1 e r l a x b i once' same1)
          f.lo nl level in
      let run1' : go fuel n.right h ≡ some ((success, some x.addr), h1) =
        subst (λ w. go fuel w h ≡ some ((success, some x.addr), h1)) (sym nr) run1 in
      (
        h2,
        go_right fuel e.addr x.addr n e h h1 _ ne at lo hi le less run1' run2,
        s2,
        λ z o. all_same h h1 e r l a x b i once' same1 h2 same2 z (omega (arith, o, count z)),
      )
