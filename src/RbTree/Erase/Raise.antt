-- ===== src/RbTree/Erase/Raise.antt =====
-- Cases 3 and 4 of `__rb_erase_color`, on a heap that holds a tree.
use struct.Base.{one, ℕ, ◌+◌, ◌≤◌, ◌≡◌, ◌≢◌, ◌∙◌, arith, some}
use struct.RbTree.State.{
  Color, black, Side, other, RbNode, child, State, ◌>>◌, Returns, set_child, set_parent_color,
  rotate_set_parents,
}
use struct.RbTree.Tree.{Tree, Ctx, join, addr, up, occ, occ_ctx}
use struct.RbTree.Rep.{cell_of, Rep, RepCtx, Rep-frame, RepCtx-frame, Rep-join, child-same}
use struct.RbTree.Ops.{bind, weaken, load_lem, recolor_cell}
use struct.RbTree.Erase.{raise, set_parent_child}
use struct.RbTree.Erase.Sides.{lift_far, set_parent_child_lem}
use struct.RbTree.Rotate.{rotate_set_parents_lem, one_self, one_ne, addr-join}

-- The addresses that case 4 is about.
abbrev pub spots_raise : ℕ → (p s f : ℕ) (t near f1 f2 : Tree) → Ctx → ℕ
spots_raise z p s f t near f1 f2 k =
    one z p
    + (one z s + (one z f + (occ z t + (occ z near + (occ z f1 + (occ z f2 + occ_ctx z k))))))

module _ (d : Side) (p s f : ℕ) (t near f1 f2 : Tree) (k : Ctx) (x0 y yf qn : ℕ) (c cs cf : Color)
    (st : State) (p_ne : p ≢ 0) (s_ne : s ≢ 0) (f_ne : f ≢ 0)
    (ep : st.cell p ≡ some (cell_of d (up k) c (addr t) x0))
    (es : st.cell s ≡ some (cell_of d y cs (addr near) f))
    (ef : st.cell f ≡ some (cell_of d yf cf (addr f1) (addr f2))) (rt : Rep st.cell p t)
    (rn : Rep st.cell qn near) (r1 : Rep st.cell f f1) (r2 : Rep st.cell f f2)
    (rk : RepCtx st.cell st.root p k)
    (uniq : (z : ℕ) → spots_raise z p s f t near f1 f2 k ≤ 1) where
  Lifted : State → Type 0
  Lifted s3 =
      (s3.cell p ≡ some (cell_of d (up k) c (addr t) (addr near)))
      × (s3.cell s ≡ some (cell_of d y cs p f))
      × (s3.cell f ≡ some (cell_of d s black (addr f1) (addr f2)))
      × Rep s3.cell p near
      × (s3.root ≡ st.root)
      × ((z : ℕ) → one z p + (one z s + (one z f + occ z near)) ≡ 0 → s3.cell z ≡ st.cell z)

  -- The writes before `__rb_rotate_set_parents`.
  lift : Returns Lifted (
      (((set_child (other d) p (addr near) >> set_child d s p) >> set_parent_color f s black)
          >> set_parent_child (addr near) p)
        st)
  unfolding Lifted
  lift =
      bind ((set_child (other d) p (addr near) >> set_child d s p) >> set_parent_color f s black)
        (set_parent_child (addr near) p) st
        (bind (set_child (other d) p (addr near) >> set_child d s p) (set_parent_color f s black) st
          (lift_far d p s (up k) y (addr near) f (addr t) x0 c cs st ep es
            (one_ne p s (omega (arith, uniq p, one_self p))))
          λ s1 (ep1, es1, out1, root1).
            weaken
              {Q = λ s2.
                (s2.cell p ≡ some (cell_of d (up k) c (addr t) (addr near)))
                × (s2.cell s ≡ some (cell_of d y cs p f))
                × (s2.cell f ≡ some (cell_of d s black (addr f1) (addr f2)))
                × (s2.root ≡ st.root)
                × ((z : ℕ) → one z p + (one z s + one z f) ≡ 0 → s2.cell z ≡ st.cell z)}
              (recolor_cell d f yf (addr f1) (addr f2) cf black s s1 (
                out1 f (one_ne f p (omega (arith, uniq f, one_self f)))
                  (one_ne f s (omega (arith, uniq f, one_self f)))
                ∙ ef))
              λ s2 (ef2, out2, root2). (
                out2 p (one_ne p f (omega (arith, uniq p, one_self p))) ∙ ep1,
                out2 s (one_ne s f (omega (arith, uniq s, one_self s))) ∙ es1,
                ef2,
                root2 ∙ root1,
                λ z i.
                    out2 z (one_ne z f (omega arith))
                    ∙ out1 z (one_ne z p (omega arith)) (one_ne z s (omega arith)),
              ))
        λ s2 (ep2, es2, ef2, root2, same2).
          weaken
            (set_parent_child_lem near qn p s2
              (Rep-frame qn near (λ z i. same2 z (omega (arith, uniq z))) rn)
              (λ z. omega (arith, uniq z)))
            λ s3 (rn3, out3, root3). (
              out3 p (omega (arith, uniq p, one_self p)) ∙ ep2,
              out3 s (omega (arith, uniq s, one_self s)) ∙ es2,
              out3 f (omega (arith, uniq f, one_self f)) ∙ ef2,
              rn3,
              root3 ∙ root2,
              λ z i. out3 z (omega arith) ∙ same2 z (omega arith),
            )

  -- Case 4 turns the tree at `p`, in its place, and writes nothing else.
  pub raise_lem :
      Returns
        (λ s'.
          Rep s'.cell (up k) (join d c (join d black t p near) s (join d black f1 f f2))
          × RepCtx s'.cell s'.root s k
          × ((z : ℕ) → spots_raise z p s f t near f1 f2 k ≡ 0 → s'.cell z ≡ st.cell z))
        (raise d f s p st)
  unfolding raise Lifted
  raise_lem =
      let last = λ (n : RbNode).
        (((set_child (other d) p (child d n) >> set_child d s p) >> set_parent_color f s black)
          >> set_parent_child (child d n) p)
        >> rotate_set_parents p s black in
      load_lem s last st es (
        rw child-same (
          bind
            (((set_child (other d) p (addr near) >> set_child d s p) >> set_parent_color f s black)
              >> set_parent_child (addr near) p)
            (rotate_set_parents p s black) st lift
            λ s3 (ep3, es3, ef3, rn3, root3, same3).
              weaken
                (rotate_set_parents_lem d p s c (addr t) (addr near) y p f cs k s3 ep3 es3
                  (rw root3 (RepCtx-frame st.root p k (λ z i. same3 z (omega (arith, uniq z))) rk))
                  p_ne (λ z. omega (arith, uniq z)) black)
                λ s' (es', ep', rk', out').
                  let same : (z : ℕ)
                      → one z p + (one z s + (one z f + (occ z near + occ_ctx z k))) ≡ 0
                      → s'.cell z ≡ st.cell z =
                    λ z i. out' z (omega arith) ∙ same3 z (omega arith) in
                  let rp' : Rep s'.cell s (join d black t p near) =
                    Rep-join s'.cell d s black t p near p_ne ep'
                      (Rep-frame p t (λ z i. same z (omega (arith, uniq z))) rt)
                      (Rep-frame p near (λ z i. out' z (omega (arith, uniq z))) rn3) in
                  let rf' : Rep s'.cell s (join d black f1 f f2) =
                    Rep-join s'.cell d s black f1 f f2 f_ne
                      (out' f (omega (arith, uniq f, one_self f)) ∙ ef3)
                      (Rep-frame f f1 (λ z i. same z (omega (arith, uniq z))) r1)
                      (Rep-frame f f2 (λ z i. same z (omega (arith, uniq z))) r2) in
                  (
                    Rep-join s'.cell d (up k) c (join d black t p near) s (join d black f1 f f2)
                        s_ne (rw (addr-join d black t p near, addr-join d black f1 f f2) es') rp'
                        rf',
                    rk',
                    λ z i. same z (omega arith),
                  )))
