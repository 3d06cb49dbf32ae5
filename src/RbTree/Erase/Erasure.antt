-- ===== src/RbTree/Erase/Erasure.antt =====
-- `rb_erase` on a heap that holds a red-black tree.
use struct.Base.{
  one, ℕ, ◌+◌, ◌≤◌, ◌≡◌, ◌≢◌, ◌∙◌, refl, sym, ap, subst, arith, some, false, [], ◌∷◌, ◌++◌, ◌==◌,
  if◌then◌else◌,
}
use struct.RbTree.State.{
  Color, left, right, RbNode, State, Cmd, ◌>>◌, Returns, set_child, set_parent,
}
use struct.RbTree.Tree.{
  Tree, leaf, node, Ctx, top, under, addr, up, plug, depth, inorder, occ, occ_ctx,
}
use struct.RbTree.Rep.{cell_of, Rep, RepCtx, Rep-frame, RepCtx-frame, occ-plug}
use struct.RbTree.Ops.{bind, weaken, load_lem}
use struct.RbTree.Rotate.{one_self}
use struct.RbTree.Balance.{IsRb, RbAt, plug-RbAt}
use struct.RbTree.Order.{lefts, rights, inorder-plug_sides}
use struct.RbTree.Walk.Laws.{height}
use struct.RbTree.Erase.{erase, erase_inner, splice_right, splice_left, replace_by, seek_successor}
use struct.RbTree.Erase.Settle.{Mended, ne_false}
use struct.RbTree.Erase.Loop.{Mended-change}
use struct.RbTree.Erase.Vacate.{without, splice_right_lem, splice_left_lem}
use struct.RbTree.Erase.Segment.{over, plug-over, RbAt-over, depth-over}
use struct.RbTree.Erase.Successor.{below, replace_by_lem}
use struct.RbTree.Erase.Seek.{Leftmost, seek_lem, unhook}

-- The order once the successor `s`, the first node of `r`, stands for the node.
order_below :
    (c : Color) (l : Tree) (r : Tree) (cs : Color) (s : ℕ) (sr : Tree) (m k : Ctx)
    → plug (node cs leaf s sr) m ≡ r
    → lefts m ≡ []
    → inorder (plug sr (below m c s l k)) ≡ without l r k
unfolding inorder
order_below c l r cs s sr m k e ch =
    let first : inorder r ≡ s ∷ inorder (plug sr m) =
      ap inorder (sym e)
      ∙ inorder-plug_sides (node cs leaf s sr) m
      ∙ ap (λ w. w ++ ((s ∷ inorder sr) ++ rights m)) ch
      ∙ ap (λ w. s ∷ w)
          (ap (λ w. w ++ (inorder sr ++ rights m)) (sym ch) ∙ sym (inorder-plug_sides sr m)) in
    ap inorder (plug-over sr m (under right c s l k))
    ∙ inorder-plug_sides (node c l s (plug sr m)) k
    ∙ ap (λ w. lefts k ++ ((inorder l ++ w) ++ rights k)) (sym first)

-- The conditions at the successor's place, before it leaves it and after.
rb_below :
    (c : Color) (l : Tree) (a : ℕ) (r : Tree) (cs : Color) (s : ℕ) (sr : Tree) (m k : Ctx)
    → plug (node cs leaf s sr) m ≡ r
    → IsRb (plug (node c l a r) k)
    → RbAt (node cs leaf s sr) (below m c s l k)
rb_below c l a r cs s sr m k e rb = RbAt-over (node cs leaf s sr) right c a s l m k (
    plug-RbAt (node cs leaf s sr) (over m (under right c a l k)) (
      subst IsRb
        (sym (
          plug-over (node cs leaf s sr) m (under right c a l k)
          ∙ ap (λ w. plug (node c l a w) k) e))
        rb))

spots_below :
    (z a : ℕ) (l r : Tree) (cs : Color) (s : ℕ) (sr : Tree) (m : Ctx)
    → plug (node cs leaf s sr) m ≡ r
    → occ z r ≡ one z s + (occ z sr + occ_ctx z m)
unfolding occ
spots_below z a l r cs s sr m e =
    ap (occ z) (sym e) ∙ occ-plug z (node cs leaf s sr) m ∙ omega arith

-- Case 2: the right child is the successor.
erase_child :
    (fuel : ℕ) (c lc yc : Color) (l1 : Tree) (la : ℕ) (l2 : Tree) (a y : ℕ) (yr : Tree) (k : Ctx)
    (st : State)
    → depth k + height (node c (node lc l1 la l2) a (node yc leaf y yr)) ≤ fuel
    → Rep st.cell (up k) (node c (node lc l1 la l2) a (node yc leaf y yr))
    → RepCtx st.cell st.root a k
    → IsRb (plug (node c (node lc l1 la l2) a (node yc leaf y yr)) k)
    → ((z : ℕ) → occ z (node c (node lc l1 la l2) a (node yc leaf y yr)) + occ_ctx z k ≤ 1)
    → Returns
        (Mended
          (without (node lc l1 la l2) (node yc leaf y yr) k)
          (λ z. occ z (node c (node lc l1 la l2) a (node yc leaf y yr)) + occ_ctx z k)
          st)
        (replace_by fuel a y (addr yr) y st)
unfolding occ occ_ctx
erase_child fuel c lc yc l1 la l2 a y yr k st h (a_ne, ea, rl, (y_ne, ey, ryl, ryr)) rk rb uniq =
    let l = node lc l1 la l2 in
    let r = node yc leaf y yr in
    weaken
      (replace_by_lem fuel a y c yc lc l1 la l2 yr top k (addr yr) y 0 a y st a_ne y_ne ea ey refl
        ryr rl rk (λ z. omega (arith, uniq z)) (omega arith)
        (rb_below c l a r yc y yr top k refl rb))
      λ s' done.
        Mended-change st st s' (order_below c l r yc y yr top k refl refl) (λ z i. omega (arith, i))
          (λ z i. refl) done

-- Case 3: the successor is further down.
module _ (fuel : ℕ) (c lc : Color) (l1 : Tree) (la : ℕ) (l2 : Tree) (a y : ℕ) (r : Tree) (k : Ctx)
    (st : State) (a_ne : a ≢ 0) (ea : st.cell a ≡ some (cell_of left (up k) c la y))
    (rl : Rep st.cell a (node lc l1 la l2)) (rk : RepCtx st.cell st.root a k)
    (rb : IsRb (plug (node c (node lc l1 la l2) a r) k))
    (uniq : (z : ℕ) → one z a + (occ z (node lc l1 la l2) + (occ z r + occ_ctx z k)) ≤ 1) where
  erase_further :
      (bound : ℕ) (cs : Color) (s : ℕ) (sr : Tree) (pc : Color) (p : ℕ) (pu : Tree) (m : Ctx)
      → bound + depth k ≤ fuel
      → Leftmost st a y r bound cs s sr pc p pu m
      → Returns
          (Mended
            (without (node lc l1 la l2) r k)
            (λ z. one z a + (occ z (node lc l1 la l2) + (occ z r + occ_ctx z k)))
            st)
          ((((set_child left p (addr sr) >> set_child right s y) >> set_parent y s)
              >> replace_by fuel a s (addr sr) p)
            st)
  unfolding occ
  erase_further bound cs s sr pc p pu m h at =
      let l = node lc l1 la l2 in
      let m' = under left pc p pu m in
      let parts : (z : ℕ) → occ z r ≡ one z s + (occ z sr + occ_ctx z m') =
        λ z. spots_below z a l r cs s sr m' at.whole_eq in
      bind ((set_child left p (addr sr) >> set_child right s y) >> set_parent y s)
        (replace_by fuel a s (addr sr) p) st
        (unhook st a y r bound cs s sr pc p pu m at (λ z. omega (arith, uniq z, parts z)))
        λ s1 (es1, seg1, rsr1, same1, root1).
          weaken
            (replace_by_lem fuel a s c cs lc l1 la l2 sr m' k y y 0 p s s1 a_ne at.rep.0
              (same1 a (omega (arith, uniq a, parts a, one_self a)) ∙ ea) es1 seg1 rsr1
              (Rep-frame a l (λ z i. same1 z (omega (arith, uniq z, parts z))) rl)
              (rw root1
                (RepCtx-frame st.root a k (λ z i. same1 z (omega (arith, uniq z, parts z))) rk))
              (λ z. omega (arith, uniq z, parts z))
              (omega (arith, at.near, depth-over m' (under right c s l k)))
              (rb_below c l a r cs s sr m' k at.whole_eq rb))
            λ s' done.
              Mended-change st s1 s' (order_below c l r cs s sr m' k at.whole_eq at.chain)
                (λ z i. omega (arith, i, parts z)) (λ z i. same1 z (omega (arith, i, parts z))) done

-- The branches of `rb_erase` with a child on the left, and of its cases 2 and 3.
abbrev erase_two : ℕ → ℕ → RbNode → Cmd
erase_two fuel a n = if n.rb_right == 0 then splice_left a n else erase_inner fuel a n

abbrev inner : ℕ → (a y : ℕ) → RbNode → Cmd
inner fuel a y m =
    if m.rb_left == 0
    then replace_by fuel a y m.rb_right y
    else seek_successor fuel y m.rb_left λ parent successor s.
      ((set_child left parent s.rb_right >> set_child right successor y) >> set_parent y successor)
      >> replace_by fuel a successor s.rb_right parent

-- On a heap with a red-black tree, `rb_erase` of one of its nodes ends without a fault, on fuel for
-- the depth of the node and the height below it, with a red-black tree of the other nodes in the
-- same order; only cells of the tree are written.
pub erasure :
    (fuel : ℕ) (c : Color) (l : Tree) (a : ℕ) (r : Tree) (k : Ctx) (st : State)
    → depth k + height (node c l a r) ≤ fuel
    → Rep st.cell (up k) (node c l a r)
    → RepCtx st.cell st.root a k
    → IsRb (plug (node c l a r) k)
    → ((z : ℕ) → occ z (node c l a r) + occ_ctx z k ≤ 1)
    → Returns
        (Mended (without l r k) (λ z. occ z (node c l a r) + occ_ctx z k) st)
        (erase fuel a st)
unfolding erase erase_inner occ
erasure fuel c leaf a r k st h rep rk rb uniq =
    load_lem a (λ n. if n.rb_left == 0 then splice_right fuel a n else erase_two fuel a n) st rep.1
      (splice_right_lem fuel c a r k st (omega arith) (plug-RbAt (node c leaf a r) k rb) rep rk
        uniq)
erasure fuel c (node lc l1 la l2) a leaf k st h rep rk rb uniq =
    let f : (la == 0) ≡ false = ne_false la rep.2.0 in
    load_lem a (λ n. if n.rb_left == 0 then splice_right fuel a n else erase_two fuel a n) st rep.1
      (rw f (
        splice_left_lem c lc l1 la l2 a k st (plug-RbAt (node c (node lc l1 la l2) a leaf) k rb) rep
          rk uniq))
erasure fuel c (node lc l1 la l2) a (node yc leaf y yr) k st h rep rk rb uniq =
    let f : (la == 0) ≡ false = ne_false la rep.2.0 in
    let g : (y == 0) ≡ false = ne_false y rep.3.0 in
    load_lem a (λ n. if n.rb_left == 0 then splice_right fuel a n else erase_two fuel a n) st rep.1
      (rw (f, g)
        (load_lem y (inner fuel a y) st rep.3.1
          (erase_child fuel c lc yc l1 la l2 a y yr k st h rep rk rb uniq)))
erasure fuel c (node lc l1 la l2) a (node yc (node tc t1 t t2) y yr) k st h rep rk rb uniq =
    let l = node lc l1 la l2 in
    let r = node yc (node tc t1 t t2) y yr in
    let f : (la == 0) ≡ false = ne_false la rep.2.0 in
    let g : (y == 0) ≡ false = ne_false y rep.3.0 in
    let e : (t == 0) ≡ false = ne_false t rep.3.2.0 in
    let (y_ne, ey, rt, ryr) = rep.3 in
    load_lem a (λ n. if n.rb_left == 0 then splice_right fuel a n else erase_two fuel a n) st rep.1
      (rw (f, g)
        (load_lem y (inner fuel a y) st rep.3.1 (
          rw e (
            seek_lem fuel tc t1 t t2 yc y yr top a y (height r) r
              (λ parent successor s.
                ((set_child left parent s.rb_right >> set_child right successor y)
                  >> set_parent y successor)
                >> replace_by fuel a successor s.rb_right parent)
              st (omega arith) (omega arith) rt (y_ne, ey, ryr, refl) refl refl
              λ cs s sr pc p pu m at.
                weaken
                  (erase_further fuel c lc l1 la l2 a y r k st rep.0 rep.1 rep.2 rk rb
                    (λ z. omega (arith, uniq z)) (height r) cs s sr pc p pu m (omega arith) at)
                  λ s' done.
                    Mended-change st st s' refl (λ z i. omega (arith, i)) (λ z i. refl) done))))
