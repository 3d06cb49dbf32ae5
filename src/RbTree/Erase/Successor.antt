-- ===== src/RbTree/Erase/Successor.antt =====
-- Cases 2 and 3 of `rb_erase_augmented`: the successor takes the place of the node.
use struct.Base.{
  one, ℕ, ◌+◌, ◌≤◌, ◌≡◌, ◌≢◌, ◌∙◌, refl, subst, arith, some, Bool, true, false, not, ◌==◌,
  if◌then◌else◌,
}
use struct.RbTree.State.{
  Color, black, left, right, RbNode, is_red, State, Cmd, ◌>>◌, load, skip, Returns, set_child,
  set_parent, set_parent_color, change_child,
}
use struct.RbTree.Tree.{Tree, leaf, node, Ctx, under, addr, up, plug, depth, inorder, occ, occ_ctx}
use struct.RbTree.Rep.{cell_of, Rep, RepCtx, Rep-frame, RepCtx-frame}
use struct.RbTree.Ops.{bind, weaken, load_lem, recolor_cell, change_child_lem}
use struct.RbTree.Rotate.{one_self, one_ne}
use struct.RbTree.Balance.{RbAt}
use struct.RbTree.Order.{inorder-plug}
use struct.RbTree.Erase.{replace_by, copy_word, rebalance_from}
use struct.RbTree.Erase.Sides.{set_near, set_parent_child_lem}
use struct.RbTree.Erase.Settle.{Mended, ne_false}
use struct.RbTree.Erase.Loop.{Mended-change}
use struct.RbTree.Erase.Vacate.{vacate_child, vacate_leaf}
use struct.RbTree.Erase.Segment.{
  over, up_in, RepSeg, up-over, occ_ctx-over, RepCtx-over, RepSeg-frame,
}

-- The place of the successor once that has the place of the node.
abbrev pub below : Ctx → Color → ℕ → Tree → Ctx → Ctx
below m c s l k = over m (under right c s l k)

abbrev pub spots_in : ℕ → (a s : ℕ) → (l sr : Tree) → (m k : Ctx) → ℕ
spots_in z a s l sr m k = one z a + (one z s + (occ z l + (occ z sr + (occ_ctx z m + occ_ctx z k))))

-- What both branches do first.
if-first :
    (b : Bool) (m x y : Cmd) (s : State)
    → (if b then (m >> x) else (m >> y)) s ≡ (m >> (if b then x else y)) s
if-first true m x y s = refl
if-first false m x y s = refl

pub set_parent_lem :
    (c : Color) (l : Tree) (a : ℕ) (r : Tree) (q p : ℕ) (s : State)
    → Rep s.cell q (node c l a r)
    → ((z : ℕ) → occ z (node c l a r) ≤ 1)
    → Returns
        (λ s'.
          Rep s'.cell p (node c l a r)
          × ((z : ℕ) → occ z (node c l a r) ≡ 0 → s'.cell z ≡ s.cell z)
          × (s'.root ≡ s.root))
        (set_parent a p s)
set_parent_lem c l a r q p s rep uniq =
    let f : (a == 0) ≡ false = ne_false a rep.0 in
    rw f at (set_parent_child_lem (node c l a r) q p s rep uniq)

module _ (fuel a s : ℕ) (c cs lc : Color) (l1 : Tree) (la : ℕ) (l2 sr : Tree) (m k : Ctx)
    (ry y0 x0 qs qr : ℕ) (st : State) (a_ne : a ≢ 0) (s_ne : s ≢ 0)
    (ea : st.cell a ≡ some (cell_of left (up k) c la y0))
    (es : st.cell s ≡ some (cell_of left qs cs x0 ry)) (seg : RepSeg st.cell ry (addr sr) s m)
    (rsr : Rep st.cell qr sr) (rl : Rep st.cell a (node lc l1 la l2))
    (rk : RepCtx st.cell st.root a k)
    (uniq : (z : ℕ) → spots_in z a s (node lc l1 la l2) sr m k ≤ 1) where
  -- The left subtree hangs below the successor.
  Adopted : State → Type 0
  Adopted s2 =
      (s2.cell s ≡ some (cell_of left qs cs la ry))
      × Rep s2.cell s (node lc l1 la l2)
      × ((z : ℕ) → one z s + occ z (node lc l1 la l2) ≡ 0 → s2.cell z ≡ st.cell z)
      × (s2.root ≡ st.root)

  adopt : Returns Adopted ((load a λ n. set_child left s n.rb_left >> set_parent n.rb_left s) st)
  unfolding Adopted
  adopt =
      load_lem a (λ n. set_child left s n.rb_left >> set_parent n.rb_left s) st ea
        (bind (set_child left s la) (set_parent la s) st (set_near left s qs x0 ry la cs st es)
          λ s1 (es1, out1, root1).
            weaken
              (set_parent_lem lc l1 la l2 a s s1
                (Rep-frame a (node lc l1 la l2) (λ z i. out1 z (one_ne z s (omega (arith, uniq z))))
                  rl)
                (λ z. omega (arith, uniq z)))
              λ s2 (rl2, out2, root2). (
                out2 s (omega (arith, uniq s, one_self s)) ∙ es1,
                rl2,
                λ z i. out2 z (omega arith) ∙ out1 z (one_ne z s (omega arith)),
                root2 ∙ root1,
              ))

  -- The successor has the place, the parent and the colour of the node.
  pub Moved : State → Type 0
  Moved s4 =
      RepCtx s4.cell s4.root (addr sr) (below m c s (node lc l1 la l2) k)
      × Rep s4.cell qr sr
      × ((z : ℕ) → spots_in z a s (node lc l1 la l2) sr m k ≡ 0 → s4.cell z ≡ st.cell z)

  moved :
      (s2 s3 s4 : State)
      → Adopted s2
      → RepCtx s3.cell s3.root s k
      → ((z : ℕ) → occ_ctx z k ≡ 0 → s3.cell z ≡ s2.cell z)
      → s4.cell s ≡ some (cell_of left (up k) c la ry)
      → ((z : ℕ) → z ≢ s → s4.cell z ≡ s3.cell z)
      → s4.root ≡ s3.root
      → Moved s4
  unfolding Adopted Moved
  moved s2 s3 s4 (es2, rl2, same2, root2) rk3 out3 es4 out4 root4 =
      let same : (z : ℕ)
          → one z s + (occ z (node lc l1 la l2) + occ_ctx z k) ≡ 0
          → s4.cell z ≡ st.cell z =
        λ z i. out4 z (one_ne z s (omega arith)) ∙ out3 z (omega arith) ∙ same2 z (omega arith) in
      let rk4 : RepCtx s4.cell s4.root s k =
        rw root4
          (RepCtx-frame s3.root s k (λ z i. out4 z (one_ne z s (omega (arith, uniq z)))) rk3) in
      (
        RepCtx-over s4.cell s4.root ry (addr sr) m (under right c s (node lc l1 la l2) k)
            (RepSeg-frame ry (addr sr) s m (λ z i. same z (omega (arith, uniq z))) seg)
            (
              s_ne,
              es4,
              Rep-frame s (node lc l1 la l2)
                  (λ z i.
                    out4 z (one_ne z s (omega (arith, uniq z))) ∙ out3 z (omega (arith, uniq z)))
                  rl2,
              rk4,
            ),
        Rep-frame qr sr (λ z i. same z (omega (arith, uniq z))) rsr,
        λ z i. same z (omega arith),
      )

  pub move :
      {Q : State → Type 0} (child2 parent : ℕ)
      → ((s4 : State)
          → Moved s4
          → Returns Q (
              (if not (child2 == 0)
                  then set_parent_color child2 parent black
                  else (if is_red (cell_of left qs cs la ry)
                      then skip
                      else rebalance_from fuel parent))
                s4))
      → Returns Q (replace_by fuel a s child2 parent st)
  unfolding replace_by Adopted Moved
  move child2 parent next =
      let n = cell_of left (up k) c la y0 in
      let end1 = λ (s' : RbNode).
        if not (child2 == 0)
        then (copy_word s n >> set_parent_color child2 parent black)
        else (copy_word s n >> (if is_red s' then skip else rebalance_from fuel parent)) in
      let last =
        if not (child2 == 0)
        then set_parent_color child2 parent black
        else (if is_red (cell_of left qs cs la ry) then skip else rebalance_from fuel parent) in
      let mid = λ (v : RbNode).
        change_child a s v.parent
        >> load s λ s'.
          if not (child2 == 0)
          then (copy_word s v >> set_parent_color child2 parent black)
          else (copy_word s v >> (if is_red s' then skip else rebalance_from fuel parent)) in
      bind (load a λ v. set_child left s v.rb_left >> set_parent v.rb_left s) (load a mid) st adopt
        λ s2 (es2, rl2, same2, root2).
          let ea2 = same2 a (omega (arith, uniq a, one_self a)) ∙ ea in
          let rk2 : RepCtx s2.cell s2.root a k =
            rw root2 (RepCtx-frame st.root a k (λ z i. same2 z (omega (arith, uniq z))) rk) in
          load_lem a mid s2 ea2 (
            bind (change_child a s (up k)) (load s end1) s2
              (change_child_lem a s k s2 rk2 a_ne (omega (arith, uniq a, one_self a))
                (λ z. omega (arith, uniq z)))
              λ s3 (rk3, out3).
                let es3 = out3 s (omega (arith, uniq s, one_self s)) ∙ es2 in
                load_lem s end1 s3 es3 (
                  rw
                    (if-first (not (child2 == 0)) (copy_word s n)
                      (set_parent_color child2 parent black)
                      (if is_red (cell_of left qs cs la ry)
                        then skip
                        else rebalance_from fuel parent)
                      s3)
                    (bind (set_parent_color s (up k) c) last s3
                      (recolor_cell left s qs la ry cs c (up k) s3 es3)
                      λ s4 (es4, out4, root4).
                        next s4 (moved s2 s3 s4 (es2, rl2, same2, root2) rk3 out3 es4 out4 root4))))

-- The successor's own place is left to its right child.
pub replace_by_lem :
    (fuel a s : ℕ) (c cs lc : Color) (l1 : Tree) (la : ℕ) (l2 sr : Tree) (m k : Ctx)
    (ry y0 x0 qs qr : ℕ) (st : State)
    → a ≢ 0
    → s ≢ 0
    → st.cell a ≡ some (cell_of left (up k) c la y0)
    → st.cell s ≡ some (cell_of left qs cs x0 ry)
    → RepSeg st.cell ry (addr sr) s m
    → Rep st.cell qr sr
    → Rep st.cell a (node lc l1 la l2)
    → RepCtx st.cell st.root a k
    → ((z : ℕ) → spots_in z a s (node lc l1 la l2) sr m k ≤ 1)
    → depth (below m c s (node lc l1 la l2) k) ≤ fuel
    → RbAt (node cs leaf s sr) (below m c s (node lc l1 la l2) k)
    → Returns
        (Mended
          (inorder (plug sr (below m c s (node lc l1 la l2) k)))
          (λ z. spots_in z a s (node lc l1 la l2) sr m k)
          st)
        (replace_by fuel a s (addr sr) (up_in m s) st)
unfolding Moved occ occ_ctx inorder
replace_by_lem fuel a s c cs lc l1 la l2 leaf m k ry y0 x0 qs qr st a_ne s_ne ea es seg rsr rl rk
      uniq h rb =
    let k' = below m c s (node lc l1 la l2) k in
    move fuel a s c cs lc l1 la l2 leaf m k ry y0 x0 qs qr st a_ne s_ne ea es seg rsr rl rk uniq 0
      (up_in m s)
      λ s4 (rk4, rsr4, same).
        weaken
          (subst
            (λ q.
              Returns (Mended (inorder (plug leaf k')) (λ z. occ_ctx z k') s4)
                ((if is_red (cell_of left qs cs la ry) then skip else rebalance_from fuel q) s4))
            (up-over m (under right c s (node lc l1 la l2) k))
            (vacate_leaf fuel cs s k' (cell_of left qs cs la ry) s4 h refl rb rk4 (λ z.
              omega (arith, uniq z, occ_ctx-over z m (under right c s (node lc l1 la l2) k)))))
          λ s' done.
            Mended-change st s4 s' refl
              (λ z i. omega (arith, i, occ_ctx-over z m (under right c s (node lc l1 la l2) k)))
              (λ z i. same z i) done
replace_by_lem fuel a s c cs lc l1 la l2 (node rc r1 ra r2) m k ry y0 x0 qs qr st a_ne s_ne ea es
      seg rsr rl rk uniq h rb =
    let k' = below m c s (node lc l1 la l2) k in
    let f : (ra == 0) ≡ false = ne_false ra rsr.0 in
    move fuel a s c cs lc l1 la l2 (node rc r1 ra r2) m k ry y0 x0 qs qr st a_ne s_ne ea es seg rsr
      rl rk uniq ra (up_in m s)
      λ s4 (rk4, rsr4, same). rw f (
        weaken
          (subst
            (λ q.
              Returns
                (Mended (inorder (plug (node black r1 ra r2) k'))
                  (λ z. occ z (node rc r1 ra r2) + occ_ctx z k') s4)
                (set_parent_color ra q black s4))
            (up-over m (under right c s (node lc l1 la l2) k))
            (vacate_child left cs rc s r1 ra r2 k' qr s4 rb rsr4 rk4 (λ z.
              omega (arith, uniq z, occ_ctx-over z m (under right c s (node lc l1 la l2) k)))))
          λ s' done.
            Mended-change st s4 s' (inorder-plug (node black r1 ra r2) (node rc r1 ra r2) k' refl)
              (λ z i. omega (arith, i, occ_ctx-over z m (under right c s (node lc l1 la l2) k)))
              (λ z i. same z i) done)
