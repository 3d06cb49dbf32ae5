-- ===== src/RbTree/Flip.antt =====
-- Case 1 of `__rb_insert`, the colour flip, on a heap that holds a tree.
use struct.Base.{one, ℕ, ◌+◌, ◌≤◌, ◌≡◌, ◌≢◌, ◌∙◌, arith, some}
use struct.RbTree.State.{
  Color, red, black, Side, left, RbNode, State, Cmd, ◌>>◌, load, Returns, set_parent_color,
}
use struct.RbTree.Tree.{Tree, node, Ctx, join, addr, up, occ, occ_ctx}
use struct.RbTree.Rep.{cell_of, Rep, RepCtx, Rep-frame, RepCtx-frame, Rep-join, parent-cell_of}
use struct.RbTree.Ops.{bind, load_lem, recolor_cell}
use struct.RbTree.Insert.{flip}
use struct.RbTree.Rotate.{addr-join, one_self, one_ne}

-- The addresses that case 1 is about.
abbrev pub spots_flip : ℕ → (p g : ℕ) (t x u : Tree) → Ctx → ℕ
spots_flip z p g t x u k = one z g + (one z p + (occ z t + (occ z x + (occ z u + occ_ctx z k))))

module _ (e d : Side) (p g v : ℕ) (t x l r : Tree) (k : Ctx) (cg : Color) (s : State) (p_ne : p ≢ 0)
    (g_ne : g ≢ 0) (eg : s.cell g ≡ some (cell_of d (up k) cg p v))
    (ep : s.cell p ≡ some (cell_of e g red (addr t) (addr x))) (rt : Rep s.cell p t)
    (rx : Rep s.cell p x) (ru : Rep s.cell g (node red l v r)) (rk : RepCtx s.cell s.root g k)
    (uniq : (z : ℕ) → spots_flip z p g t x (node red l v r) k ≤ 1) where
  -- The heap when the loop goes on from `g`.
  unfoldable pub Flipped : State → Type 0
  Flipped s' =
      Rep s'.cell (up k) (join d red (join e black t p x) g (node black l v r))
      × RepCtx s'.cell s'.root g k
      × ((z : ℕ) → spots_flip z p g t x (node red l v r) k ≡ 0 → s'.cell z ≡ s.cell z)

  settle :
      (s' : State)
      → s'.cell g ≡ some (cell_of d (up k) red p v)
      → s'.cell p ≡ some (cell_of e g black (addr t) (addr x))
      → s'.cell v ≡ some (cell_of left g black (addr l) (addr r))
      → ((z : ℕ) → one z g + (one z p + one z v) ≡ 0 → s'.cell z ≡ s.cell z)
      → s'.root ≡ s.root
      → Flipped s'
  unfolding Flipped occ
  settle s' eg' ep' ev' same root =
      let rp : Rep s'.cell g (join e black t p x) =
        Rep-join s'.cell e g black t p x p_ne ep'
          (Rep-frame p t (λ z i. same z (omega (arith, uniq z))) rt)
          (Rep-frame p x (λ z i. same z (omega (arith, uniq z))) rx) in
      let rv : Rep s'.cell g (node black l v r) = (
        ru.0,
        ev',
        Rep-frame v l (λ z i. same z (omega (arith, uniq z))) ru.2,
        Rep-frame v r (λ z i. same z (omega (arith, uniq z))) ru.3,
      ) in
      (
        Rep-join s'.cell d (up k) red (join e black t p x) g (node black l v r) g_ne
            (rw addr-join eg') rp rv,
        rw root (RepCtx-frame s.root g k (λ z i. same z (omega (arith, uniq z))) rk),
        λ z i. same z (omega arith),
      )

  pub flip_lem :
      {Q : State → Type 0} (again : ℕ → Cmd)
      → ((s' : State) → Flipped s' → Returns Q (again (up k) s'))
      → Returns Q (flip again v p g s)
  unfolding flip Flipped occ
  flip_lem again next =
      let last = λ (g' : RbNode). set_parent_color g g'.parent red >> again g'.parent in
      bind (set_parent_color v g black) (set_parent_color p g black >> load g last) s
        (recolor_cell left v g (addr l) (addr r) red black g s ru.1)
        λ s1 (ev1, out1, root1).
          bind (set_parent_color p g black) (load g last) s1
            (recolor_cell e p g (addr t) (addr x) red black g s1
              (out1 p (one_ne p v (omega (arith, uniq p, one_self p))) ∙ ep))
            λ s2 (ep2, out2, root2).
              load_lem g last s2
                (out2 g (one_ne g p (omega (arith, uniq g, one_self g)))
                  ∙ out1 g (one_ne g v (omega (arith, uniq g, one_self g)))
                  ∙ eg)
                (rw parent-cell_of (
                  bind (set_parent_color g (up k) red) (again (up k)) s2
                    (recolor_cell d g (up k) p v cg red (up k) s2 (
                      out2 g (one_ne g p (omega (arith, uniq g, one_self g)))
                      ∙ out1 g (one_ne g v (omega (arith, uniq g, one_self g)))
                      ∙ eg))
                    λ s3 (eg3, out3, root3).
                      let same3 : (z : ℕ)
                          → one z g + (one z p + one z v) ≡ 0
                          → s3.cell z ≡ s.cell z =
                        λ z i.
                          out3 z (one_ne z g (omega arith))
                          ∙ out2 z (one_ne z p (omega arith))
                          ∙ out1 z (one_ne z v (omega arith)) in
                      next s3 (
                        settle s3 eg3
                          (out3 p (one_ne p g (omega (arith, uniq p, one_self p))) ∙ ep2)
                          (out3 v (one_ne v g (omega (arith, uniq v, one_self v)))
                            ∙ out2 v (one_ne v p (omega (arith, uniq v, one_self v)))
                            ∙ ev1)
                          same3 (root3 ∙ root2 ∙ root1))))
