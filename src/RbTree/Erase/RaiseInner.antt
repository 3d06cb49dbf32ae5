-- ===== src/RbTree/Erase/RaiseInner.antt =====
-- Case 3 of `__rb_erase_color`, with the case 4 that it ends in, on a heap that holds a tree.
use struct.Base.{one, ℕ, ◌+◌, ◌≤◌, ◌<◌, ◌≡◌, ◌≢◌, ◌∙◌, arith, some}
use struct.RbTree.State.{
  Color, black, Side, other, RbNode, child, State, ◌>>◌, Returns, set_child, set_black_child,
}
use struct.RbTree.Tree.{Tree, Ctx, join, addr, up, blacken, occ}
use struct.RbTree.Rep.{cell_of, Rep, RepCtx, Rep-frame, RepCtx-frame, child-other}
use struct.RbTree.Ops.{bind, weaken, load_lem, set_black_child_lem}
use struct.RbTree.Erase.{raise, raise_inner}
use struct.RbTree.Erase.Sides.{set_near, set_far}
use struct.RbTree.Erase.Raise.{raise_lem, spots_raise}
use struct.RbTree.Rotate.{one_self, one_ne, addr-blacken, occ-blacken}

module _ (d : Side) (p s n : ℕ) (t a b far : Tree) (k : Ctx) (y yn : ℕ) (c cs cn : Color)
    (st : State) (p_ne : p ≢ 0) (s_ne : s ≢ 0) (n_ne : n ≢ 0)
    (ep : st.cell p ≡ some (cell_of d (up k) c (addr t) s))
    (es : st.cell s ≡ some (cell_of d y cs n (addr far)))
    (en : st.cell n ≡ some (cell_of d yn cn (addr a) (addr b))) (rt : Rep st.cell p t)
    (ra : Rep st.cell n a) (rb : Rep st.cell n b) (rf : Rep st.cell s far)
    (rk : RepCtx st.cell st.root p k) (uniq : (z : ℕ) → spots_raise z p n s t a b far k ≤ 1) where
  Turned : State → Type 0
  Turned s4 =
      (s4.cell p ≡ some (cell_of d (up k) c (addr t) n))
      × (s4.cell n ≡ some (cell_of d yn cn (addr a) s))
      × (s4.cell s ≡ some (cell_of d y cs (addr b) (addr far)))
      × Rep s4.cell s (blacken b)
      × (s4.root ≡ st.root)
      × ((z : ℕ) → one z p + (one z n + (one z s + occ z b)) ≡ 0 → s4.cell z ≡ st.cell z)

  -- The rotation at `s`.
  turn_inner : Returns Turned (
      (((set_child d s (addr b) >> set_child (other d) n s) >> set_child (other d) p n)
          >> set_black_child (addr b) s)
        st)
  unfolding Turned
  turn_inner =
      bind ((set_child d s (addr b) >> set_child (other d) n s) >> set_child (other d) p n)
        (set_black_child (addr b) s) st
        (bind (set_child d s (addr b) >> set_child (other d) n s) (set_child (other d) p n) st
          (bind (set_child d s (addr b)) (set_child (other d) n s) st
            (set_near d s y n (addr far) (addr b) cs st es)
            λ s1 (es1, out1, root1).
              weaken
                {Q = λ s2.
                  (s2.cell s ≡ some (cell_of d y cs (addr b) (addr far)))
                  × (s2.cell n ≡ some (cell_of d yn cn (addr a) s))
                  × ((z : ℕ) → z ≢ n → z ≢ s → s2.cell z ≡ st.cell z)
                  × (s2.root ≡ st.root)}
                (set_far d n yn (addr a) (addr b) s cn s1
                  (out1 n (one_ne n s (omega (arith, uniq n, one_self n))) ∙ en))
                λ s2 (en2, out2, root2). (
                  out2 s (one_ne s n (omega (arith, uniq s, one_self s))) ∙ es1,
                  en2,
                  λ z i j. out2 z i ∙ out1 z j,
                  root2 ∙ root1,
                ))
          λ s2 (es2, en2, out2, root2).
            weaken
              {Q = λ s3.
                (s3.cell p ≡ some (cell_of d (up k) c (addr t) n))
                × (s3.cell n ≡ some (cell_of d yn cn (addr a) s))
                × (s3.cell s ≡ some (cell_of d y cs (addr b) (addr far)))
                × (s3.root ≡ st.root)
                × ((z : ℕ) → one z p + (one z n + one z s) ≡ 0 → s3.cell z ≡ st.cell z)}
              (set_far d p (up k) (addr t) s n c s2 (
                out2 p (one_ne p n (omega (arith, uniq p, one_self p)))
                  (one_ne p s (omega (arith, uniq p, one_self p)))
                ∙ ep))
              λ s3 (ep3, out3, root3). (
                ep3,
                out3 n (one_ne n p (omega (arith, uniq n, one_self n))) ∙ en2,
                out3 s (one_ne s p (omega (arith, uniq s, one_self s))) ∙ es2,
                root3 ∙ root2,
                λ z i.
                    out3 z (one_ne z p (omega arith))
                    ∙ out2 z (one_ne z n (omega arith)) (one_ne z s (omega arith)),
              ))
        λ s3 (ep3, en3, es3, root3, same3).
          weaken
            (set_black_child_lem b n s s3
              (Rep-frame n b (λ z i. same3 z (omega (arith, uniq z))) rb)
              (λ z. omega (arith, uniq z)))
            λ s4 (rb4, out4, root4). (
              out4 p (omega (arith, uniq p, one_self p)) ∙ ep3,
              out4 n (omega (arith, uniq n, one_self n)) ∙ en3,
              out4 s (omega (arith, uniq s, one_self s)) ∙ es3,
              rb4,
              root4 ∙ root3,
              λ z i. out4 z (omega arith) ∙ same3 z (omega arith),
            )

  -- Case 3 turns the tree at `p`, in its place, and writes nothing else.
  pub raise_inner_lem :
      Returns
        (λ s'.
          Rep s'.cell (up k) (join d c (join d black t p a) n (join d black (blacken b) s far))
          × RepCtx s'.cell s'.root n k
          × ((z : ℕ) → spots_raise z p n s t a b far k ≡ 0 → s'.cell z ≡ st.cell z))
        (raise_inner d n s p st)
  unfolding raise_inner Turned
  raise_inner_lem =
      let last = λ (m : RbNode).
        (((set_child d s (child (other d) m) >> set_child (other d) n s) >> set_child (other d) p n)
          >> set_black_child (child (other d) m) s)
        >> raise d s n p in
      load_lem n last st en (
        rw child-other (
          bind
            (((set_child d s (addr b) >> set_child (other d) n s) >> set_child (other d) p n)
              >> set_black_child (addr b) s)
            (raise d s n p) st turn_inner
            λ s4 (ep4, en4, es4, rb4, root4, same4).
              let keep : (u : Tree) (q : ℕ)
                  → ((z : ℕ) → 0 < occ z u → one z p + (one z n + (one z s + occ z b)) ≡ 0)
                  → Rep st.cell q u
                  → Rep s4.cell q u =
                λ u q i. Rep-frame q u (λ z j. same4 z (i z j)) in
              weaken
                (raise_lem d p n s t a (blacken b) far k n yn y n c cn cs s4 p_ne n_ne s_ne ep4 en4
                  (rw addr-blacken es4) (keep t p (λ z i. omega (arith, uniq z)) rt)
                  (keep a n (λ z i. omega (arith, uniq z)) ra) rb4
                  (keep far s (λ z i. omega (arith, uniq z)) rf)
                  (rw root4 (RepCtx-frame st.root p k (λ z i. same4 z (omega (arith, uniq z))) rk))
                  (λ z. omega (arith, uniq z, occ-blacken z b)))
                λ s' (rep, rk', out). (
                  rep,
                  rk',
                  λ z i. out z (omega (arith, occ-blacken z b)) ∙ same4 z (omega arith),
                )))
