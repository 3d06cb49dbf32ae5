-- ===== src/RbTree/Erase/Vacate.antt =====
-- The end of `rb_erase_augmented`, where one child at most is left below the vacated place, and its
-- case 1.
use struct.Base.{
  one, ℕ, zero, suc, ◌+◌, ◌≤◌, ◌≡◌, ◌∙◌, refl, arith, false, List, ◌==◌, ◌++◌, append-nil,
  if◌then◌else◌,
}
use struct.RbTree.State.{
  Color, red, black, Side, left, right, RbNode, is_red, State, skip, Returns, returns,
  set_parent_color, change_child,
}
use struct.RbTree.Tree.{
  Tree, leaf, node, Ctx, top, under, join, addr, up, plug, depth, inorder, occ, occ_ctx,
}
use struct.RbTree.Rep.{cell_of, Rep, RepCtx, Rep-frame, RepCtx-frame}
use struct.RbTree.Ops.{bind, weaken, recolor_cell, change_child_lem}
use struct.RbTree.Rotate.{one_self, one_ne}
use struct.RbTree.Balance.{RbAt, RbCtx, Fits-black}
use struct.RbTree.Erase.{rebalance_from, splice_right, splice_left}
use struct.RbTree.Erase.Settle.{Mended, mended, ne_false}
use struct.RbTree.Erase.Loop.{erase_color_mends, Mended-change}
use struct.RbTree.Order.{lefts, rights, inorder-plug_sides}

-- What the conditions say of a node with one child: it is black, over a red node without children.
pub only_child :
    (d : Side) (cs rc : Color) (a : ℕ) (rl : Tree) (ra : ℕ) (rr : Tree) (k : Ctx)
    → RbAt (join d cs leaf a (node rc rl ra rr)) k
    → (cs ≡ black) × RbAt (node black rl ra rr) k
only_child left red red a rl ra rr k (n, nr, bh, rbk, f) = elim nr.1 [ ]
only_child right red red a rl ra rr k (n, nr, bh, rbk, f) = elim nr.0 [ ]
only_child left red black a rl ra rr k (zero, nr, bh, rbk, f) = elim bh.1 [ ]
only_child left red black a rl ra rr k (suc n, nr, bh, rbk, f) = elim bh.0 [ ]
only_child right red black a rl ra rr k (zero, nr, bh, rbk, f) = elim bh.0 [ ]
only_child right red black a rl ra rr k (suc n, nr, bh, rbk, f) = elim bh.1 [ ]
only_child left black red a rl ra rr k (zero, nr, bh, rbk, f) = elim bh [ ]
only_child right black red a rl ra rr k (zero, nr, bh, rbk, f) = elim bh [ ]
only_child left black red a rl ra rr k (suc n, nr, bh, rbk, f) =
    (refl, (suc n, (nr.1.2, nr.1.3), bh.1, rbk, Fits-black (node black rl ra rr) k tt))
only_child right black red a rl ra rr k (suc n, nr, bh, rbk, f) =
    (refl, (suc n, (nr.0.2, nr.0.3), bh.0, rbk, Fits-black (node black rl ra rr) k tt))
only_child left black black a rl ra rr k (zero, nr, bh, rbk, f) = elim bh [ ]
only_child right black black a rl ra rr k (zero, nr, bh, rbk, f) = elim bh [ ]
only_child left black black a rl ra rr k (suc zero, nr, bh, rbk, f) = elim bh.1 [ ]
only_child right black black a rl ra rr k (suc zero, nr, bh, rbk, f) = elim bh.0 [ ]
only_child left black black a rl ra rr k (suc (suc n), nr, bh, rbk, f) = elim bh.0 [ ]
only_child right black black a rl ra rr k (suc (suc n), nr, bh, rbk, f) = elim bh.1 [ ]

-- The child takes the vacated place, in black.
pub vacate_child :
    (d : Side) (cs rc : Color) (a : ℕ) (rl : Tree) (ra : ℕ) (rr : Tree) (k : Ctx) (q : ℕ)
    (st : State)
    → RbAt (join d cs leaf a (node rc rl ra rr)) k
    → Rep st.cell q (node rc rl ra rr)
    → RepCtx st.cell st.root ra k
    → ((z : ℕ) → occ z (node rc rl ra rr) + occ_ctx z k ≤ 1)
    → Returns
        (Mended
          (inorder (plug (node black rl ra rr) k))
          (λ z. occ z (node rc rl ra rr) + occ_ctx z k)
          st)
        (set_parent_color ra (up k) black st)
unfolding occ
vacate_child d cs rc a rl ra rr k q st rb (ne, e, r1, r2) rk uniq =
    weaken (recolor_cell left ra q (addr rl) (addr rr) rc black (up k) st e) λ s' (e', out, root).
      mended st s' (node black rl ra rr) k (only_child d cs rc a rl ra rr k rb).1 refl
        (
          ne,
          e',
          Rep-frame ra rl (λ z i. out z (one_ne z ra (omega (arith, uniq z)))) r1,
          Rep-frame ra rr (λ z i. out z (one_ne z ra (omega (arith, uniq z)))) r2,
        )
        (rw root
          (RepCtx-frame st.root ra k (λ z i. out z (one_ne z ra (omega (arith, uniq z)))) rk))
        λ z i. out z (one_ne z ra (omega arith))

vacate_red : (a : ℕ) (k : Ctx) → RbAt (node red leaf a leaf) k → RbAt leaf k
vacate_red a k (zero, nr, bh, rbk, f) = (zero, tt, tt, rbk, Fits-black leaf k tt)
vacate_red a k (suc n, nr, bh, rbk, f) = elim bh.0 [ ]

vacate_black : (a : ℕ) (k : Ctx) → RbAt (node black leaf a leaf) k → RbCtx k 1
vacate_black a k (zero, nr, bh, rbk, f) = elim bh [ ]
vacate_black a k (suc zero, nr, bh, rbk, f) = rbk
vacate_black a k (suc (suc n), nr, bh, rbk, f) = elim bh.0 [ ]

-- The vacated place stays empty, and lacks a black node if the one that was there was black.
pub vacate_leaf :
    (fuel : ℕ) (cs : Color) (a : ℕ) (k : Ctx) (n : RbNode) (st : State)
    → depth k ≤ fuel
    → n.color ≡ cs
    → RbAt (node cs leaf a leaf) k
    → RepCtx st.cell st.root 0 k
    → ((z : ℕ) → occ_ctx z k ≤ 1)
    → Returns
        (Mended (inorder (plug leaf k)) (λ z. occ_ctx z k) st)
        ((if is_red n then skip else rebalance_from fuel (up k)) st)
unfolding rebalance_from occ
vacate_leaf fuel red a k n st h e rb rk uniq =
    rw e (returns (mended st st leaf k (vacate_red a k rb) refl tt rk (λ z i. refl)))
vacate_leaf fuel black a top n st h e rb rk uniq =
    rw e (returns (mended st st leaf top (zero, tt, tt, tt, tt) refl tt rk (λ z i. refl)))
vacate_leaf fuel black a (under d c p u k) n st h e rb rk uniq =
    let f : (p == 0) ≡ false = ne_false p rk.0 in
    rw (e, f)
      (weaken
        (erase_color_mends fuel leaf (under d c p u k) 0 st h rk.0 tt (tt, tt)
          (vacate_black a (under d c p u k) rb) tt rk (λ z. omega (arith, uniq z)))
        λ s' (v, rb', o, rep, root, out). (v, rb', o, rep, root, λ z i. out z (omega (arith, i))))

-- The nodes of the tree but for the one at a place.
abbrev pub without : Tree → Tree → Ctx → List ℕ
without l r k = lefts k ++ ((inorder l ++ inorder r) ++ rights k)

-- Case 1, with no child on the left.
pub splice_right_lem :
    (fuel : ℕ) (c : Color) (a : ℕ) (r : Tree) (k : Ctx) (st : State)
    → depth k ≤ fuel
    → RbAt (node c leaf a r) k
    → Rep st.cell (up k) (node c leaf a r)
    → RepCtx st.cell st.root a k
    → ((z : ℕ) → occ z (node c leaf a r) + occ_ctx z k ≤ 1)
    → Returns
        (Mended (without leaf r k) (λ z. occ z (node c leaf a r) + occ_ctx z k) st)
        (splice_right fuel a (cell_of left (up k) c 0 (addr r)) st)
unfolding splice_right occ inorder
splice_right_lem fuel c a leaf k st h rb (ne, e, rl, rr) rk uniq =
    let n = cell_of left (up k) c 0 0 in
    bind (change_child a 0 (up k)) (if is_red n then skip else rebalance_from fuel (up k)) st
      (change_child_lem a 0 k st rk ne (omega (arith, uniq a, one_self a))
        (λ z. omega (arith, uniq z)))
      λ s1 (rk1, out1).
        weaken (vacate_leaf fuel c a k n s1 h refl rb rk1 (λ z. omega (arith, uniq z))) λ s' done.
          Mended-change st s1 s' (inorder-plug_sides leaf k) (λ z i. omega arith)
            (λ z i. out1 z (omega arith)) done
splice_right_lem fuel c a (node rc r1 ra r2) k st h rb (ne, e, rl, rr) rk uniq =
    let n = cell_of left (up k) c 0 ra in
    let f : (ra == 0) ≡ false = ne_false ra rr.0 in
    let (cb, rb') = only_child left c rc a r1 ra r2 k rb in
    rw (f, cb)
      (bind (change_child a ra (up k)) (set_parent_color ra (up k) black) st
        (change_child_lem a ra k st rk ne (omega (arith, uniq a, one_self a))
          (λ z. omega (arith, uniq z)))
        λ s1 (rk1, out1).
          weaken
            (vacate_child left c rc a r1 ra r2 k a s1 rb
              (Rep-frame a (node rc r1 ra r2) (λ z i. out1 z (omega (arith, uniq z))) rr) rk1
              (λ z. omega (arith, uniq z)))
            λ s' done.
              Mended-change st s1 s' (inorder-plug_sides (node black r1 ra r2) k)
                (λ z i. omega arith) (λ z i. out1 z (omega arith)) done)

-- Case 1, with a child on the left alone.
pub splice_left_lem :
    (c lc : Color) (l1 : Tree) (la : ℕ) (l2 : Tree) (a : ℕ) (k : Ctx) (st : State)
    → RbAt (node c (node lc l1 la l2) a leaf) k
    → Rep st.cell (up k) (node c (node lc l1 la l2) a leaf)
    → RepCtx st.cell st.root a k
    → ((z : ℕ) → occ z (node c (node lc l1 la l2) a leaf) + occ_ctx z k ≤ 1)
    → Returns
        (Mended
          (without (node lc l1 la l2) leaf k)
          (λ z. occ z (node c (node lc l1 la l2) a leaf) + occ_ctx z k)
          st)
        (splice_left a (cell_of left (up k) c la 0) st)
unfolding splice_left occ inorder
splice_left_lem c lc l1 la l2 a k st rb (ne, e, (lne, le, rl1, rl2), rr) rk uniq =
    let (cb, rb') = only_child right c lc a l1 la l2 k rb in
    let order : inorder (plug (node black l1 la l2) k) ≡ without (node lc l1 la l2) leaf k =
      inorder-plug_sides (node black l1 la l2) k ∙ simp append-nil in
    rw cb (
      bind (set_parent_color la (up k) black) (change_child a la (up k)) st
        (recolor_cell left la a (addr l1) (addr l2) lc black (up k) st le)
        λ s1 (e1, out1, root1).
          let same1 : (z : ℕ) → one z la ≡ 0 → s1.cell z ≡ st.cell z =
            λ z i. out1 z (one_ne z la i) in
          weaken
            (change_child_lem a la k s1
              (rw root1 (RepCtx-frame st.root a k (λ z i. same1 z (omega (arith, uniq z))) rk)) ne
              (omega (arith, uniq a, one_self a)) (λ z. omega (arith, uniq z)))
            λ s' (rk', out').
              let same : (z : ℕ) → one z la + occ_ctx z k ≡ 0 → s'.cell z ≡ st.cell z =
                λ z i. out' z (omega arith) ∙ same1 z (omega arith) in
              mended st s' (node black l1 la l2) k rb' order
                (
                  lne,
                  out' la (omega (arith, uniq la, one_self la)) ∙ e1,
                  Rep-frame la l1 (λ z i. same z (omega (arith, uniq z))) rl1,
                  Rep-frame la l2 (λ z i. same z (omega (arith, uniq z))) rl2,
                )
                rk' (λ z i. same z (omega arith)))
