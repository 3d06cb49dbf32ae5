-- ===== src/RbTree/Erase/Seek.antt =====
-- The search of `rb_erase_augmented` for the successor, and the writes that take it out of its place.
use struct.Base.{one, ℕ, zero, suc, ◌+◌, ◌≤◌, ◌≡◌, ◌∙◌, arith, some, false, [], ◌==◌, if◌then◌else◌}
use struct.RbTree.State.{
  Color, left, right, RbNode, State, Cmd, ◌>>◌, Returns, set_child, set_parent,
}
use struct.RbTree.Tree.{Tree, leaf, node, Ctx, under, addr, plug, depth, occ, occ_ctx}
use struct.RbTree.Rep.{cell_of, Rep, Rep-frame}
use struct.RbTree.Ops.{bind, weaken, load_lem}
use struct.RbTree.Rotate.{one_self, one_ne}
use struct.RbTree.Order.{lefts}
use struct.RbTree.Walk.Laws.{height}
use struct.RbTree.Erase.{seek_successor}
use struct.RbTree.Erase.Sides.{set_near, set_far}
use struct.RbTree.Erase.Settle.{ne_false}
use struct.RbTree.Erase.Segment.{up_in, RepSeg, RepSeg-frame, set_parent_seg}

-- A node without a left child at the end of the left chain `under left pc p pu m` below `a`.
pub record Leftmost (st : State) (a y : ℕ) (whole : Tree) (bound : ℕ) (cs : Color) (s : ℕ)
    (sr : Tree) (pc : Color) (p : ℕ) (pu : Tree) (m : Ctx) : Type 0 where
  pub rep : Rep st.cell p (node cs leaf s sr)
  pub seg : RepSeg st.cell y s a (under left pc p pu m)
  pub whole_eq : plug (node cs leaf s sr) (under left pc p pu m) ≡ whole
  pub chain : lefts m ≡ []
  pub near : suc (depth (under left pc p pu m)) ≤ bound

-- The search finds it, on fuel for the height of the subtree.
pub seek_lem :
    {Q : State → Type 0} (g : ℕ) (tc : Color) (tl : Tree) (s : ℕ) (tr : Tree) (pc : Color) (p : ℕ)
    (pu : Tree) (m : Ctx) (a y bound : ℕ) (whole : Tree) (next : ℕ → ℕ → RbNode → Cmd) (st : State)
    → height (node tc tl s tr) ≤ g
    → depth (under left pc p pu m) + height (node tc tl s tr) ≤ bound
    → Rep st.cell p (node tc tl s tr)
    → RepSeg st.cell y s a (under left pc p pu m)
    → plug (node tc tl s tr) (under left pc p pu m) ≡ whole
    → lefts m ≡ []
    → ((cs : Color) (s' : ℕ) (sr : Tree) (pc' : Color) (p' : ℕ) (pu' : Tree) (m' : Ctx)
        → Leftmost st a y whole bound cs s' sr pc' p' pu' m'
        → Returns Q (next p' s' (cell_of left p' cs 0 (addr sr)) st))
    → Returns Q (seek_successor g p s next st)
unfolding seek_successor
seek_lem zero tc tl s tr pc p pu m a y bound whole next st h d rep seg e ch found =
    absurd (omega arith)
seek_lem (suc g) tc leaf s tr pc p pu m a y bound whole next st h d rep seg e ch found =
    load_lem s (λ n. if n.rb_left == 0 then next p s n else seek_successor g s n.rb_left next) st
      rep.1
      (found tc s tr pc p pu m
        (record { rep = rep; seg = seg; whole_eq = e; chain = ch; near = omega arith }))
seek_lem (suc g) tc (node lc ll l lr) s tr pc p pu m a y bound whole next st h d rep seg e ch
      found =
    let f : (l == 0) ≡ false = ne_false l rep.2.0 in
    load_lem s (λ n. if n.rb_left == 0 then next p s n else seek_successor g s n.rb_left next) st
      rep.1
      (rw f (
        seek_lem g lc ll l lr tc s tr (under left pc p pu m) a y bound whole next st (omega arith)
          (omega arith) rep.2 (rep.0, rep.1, rep.3, seg) e ch found))

-- The successor out of its place, over its new right child `y`.
pub unhook :
    (st : State) (a y : ℕ) (whole : Tree) (bound : ℕ) (cs : Color) (s : ℕ) (sr : Tree) (pc : Color)
    (p : ℕ) (pu : Tree) (m : Ctx)
    → Leftmost st a y whole bound cs s sr pc p pu m
    → ((z : ℕ) → occ z (node cs leaf s sr) + occ_ctx z (under left pc p pu m) ≤ 1)
    → Returns
        (λ s'.
          (s'.cell s ≡ some (cell_of left p cs 0 y))
          × RepSeg s'.cell y (addr sr) s (under left pc p pu m)
          × Rep s'.cell s sr
          × ((z : ℕ) → one z s + occ_ctx z (under left pc p pu m) ≡ 0 → s'.cell z ≡ st.cell z)
          × (s'.root ≡ st.root))
        (((set_child left p (addr sr) >> set_child right s y) >> set_parent y s) st)
unfolding occ occ_ctx
unhook st a y whole bound cs s sr pc p pu m at uniq =
    let (s_ne, es, rl, rsr) = at.rep in
    let (p_ne, ep, rpu, rm) = at.seg in
    bind (set_child left p (addr sr) >> set_child right s y) (set_parent y s) st
      (bind (set_child left p (addr sr)) (set_child right s y) st
        (set_near left p (up_in m a) s (addr pu) (addr sr) pc st ep)
        λ s1 (ep1, out1, root1).
          weaken
            {Q = λ s2.
              (s2.cell p ≡ some (cell_of left (up_in m a) pc (addr sr) (addr pu)))
              × (s2.cell s ≡ some (cell_of left p cs 0 y))
              × ((z : ℕ) → one z s + one z p ≡ 0 → s2.cell z ≡ st.cell z)
              × (s2.root ≡ st.root)}
            (set_far left s p 0 (addr sr) y cs s1
              (out1 s (one_ne s p (omega (arith, uniq s, one_self s))) ∙ es))
            λ s2 (es2, out2, root2). (
              out2 p (one_ne p s (omega (arith, uniq p, one_self p))) ∙ ep1,
              es2,
              λ z i. out2 z (one_ne z s (omega arith)) ∙ out1 z (one_ne z p (omega arith)),
              root2 ∙ root1,
            ))
      λ s2 (ep2, es2, same2, root2).
        let seg2 : RepSeg s2.cell y (addr sr) a (under left pc p pu m) = (
          p_ne,
          ep2,
          Rep-frame p pu (λ z i. same2 z (omega (arith, uniq z))) rpu,
          RepSeg-frame y p a m (λ z i. same2 z (omega (arith, uniq z))) rm,
        ) in
        weaken
          (set_parent_seg y (addr sr) a s (under left pc p pu m) s2 p_ne seg2
            (λ z. omega (arith, uniq z)))
          λ s3 (seg3, out3, root3). (
            out3 s (omega (arith, uniq s, one_self s)) ∙ es2,
            seg3,
            Rep-frame s sr (λ z i. out3 z (omega (arith, uniq z)) ∙ same2 z (omega (arith, uniq z)))
                rsr,
            λ z i. out3 z (omega arith) ∙ same2 z (omega arith),
            root3 ∙ root2,
          )
