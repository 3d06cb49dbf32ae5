-- ===== src/RbTree/RotateInner.antt =====
-- Case 2 of `__rb_insert` and the case 3 that follows it, on a heap that holds a tree.
use struct.Base.{one, ℕ, ◌+◌, ◌≤◌, ◌≡◌, ◌≢◌, ◌∙◌, refl, arith, some}
use struct.RbTree.State.{
  Color, red, Side, left, right, other, child, RbNode, State, ◌>>◌, load, Returns, store, modify,
  set_child, set_parent_color, set_black_child,
}
use struct.RbTree.Tree.{Tree, Ctx, join, addr, up, blacken, rotated, occ, occ_ctx}
use struct.RbTree.Rep.{
  cell_of, Rep, RepCtx, Rep-frame, RepCtx-frame, Rep-join, occ-join, child-same, child-other,
}
use struct.RbTree.Ops.{Returns-eq, bind, weaken, load_lem, set_black_child_lem, recolor_cell}
use struct.RbTree.Insert.{rotate, rotate_inner}
use struct.RbTree.Rotate.{rotate_lem, occ-blacken, addr-blacken, addr-join, one_self, one_ne}

-- The first writes of case 2.
lower_parent :
    (d : Side) (nd p q q' x a a' b : ℕ) (cn cp : Color) (s : State)
    → s.cell nd ≡ some (cell_of d q' cn a' b)
    → s.cell p ≡ some (cell_of d q cp x nd)
    → p ≢ nd
    → Returns
        (λ s'.
          (s'.cell nd ≡ some (cell_of d q' cn p b))
          × (s'.cell p ≡ some (cell_of d q cp x a))
          × ((z : ℕ) → z ≢ p → z ≢ nd → s'.cell z ≡ s.cell z)
          × (s'.root ≡ s.root))
        ((set_child (other d) p a >> set_child d nd p) s)
unfolding modify ◌>>◌
lower_parent left nd p q q' x a a' b cn cp s en ep ne =
    Returns-eq {s = store nd (cell_of left q' cn p b) (store p (cell_of left q cp x a) s)}
      (ground arith) (ground arith, ground arith, λ z i j. ground arith, refl)
lower_parent right nd p q q' x a a' b cn cp s en ep ne =
    Returns-eq {s = store nd (cell_of right q' cn p b) (store p (cell_of right q cp x a) s)}
      (ground arith) (ground arith, ground arith, λ z i j. ground arith, refl)

-- The addresses that case 2 is about.
abbrev pub spots_inner : ℕ → (nd p g : ℕ) (x a b u : Tree) → Ctx → ℕ
spots_inner z nd p g x a b u k =
    one z g + (one z p + (one z nd + (occ z x + (occ z a + (occ z b + (occ z u + occ_ctx z k))))))

module _ (d : Side) (nd p g : ℕ) (x a b u : Tree) (k : Ctx) (x0 : ℕ) (cg cp cn : Color) (s : State)
    (nd_ne : nd ≢ 0) (p_ne : p ≢ 0) (g_ne : g ≢ 0)
    (eg : s.cell g ≡ some (cell_of d (up k) cg x0 (addr u)))
    (ep : s.cell p ≡ some (cell_of d g cp (addr x) nd))
    (en : s.cell nd ≡ some (cell_of d p cn (addr a) (addr b))) (rx : Rep s.cell p x)
    (ra : Rep s.cell nd a) (rb : Rep s.cell nd b) (ru : Rep s.cell g u)
    (rk : RepCtx s.cell s.root g k) (uniq : (z : ℕ) → spots_inner z nd p g x a b u k ≤ 1) where
  Lowered : State → Type 0
  Lowered s3 =
      (s3.cell nd ≡ some (cell_of d p cn p (addr b)))
      × (s3.cell p ≡ some (cell_of d g cp (addr x) (addr a)))
      × Rep s3.cell p (blacken a)
      × ((z : ℕ) → one z p + (one z nd + occ z a) ≡ 0 → s3.cell z ≡ s.cell z)
      × (s3.root ≡ s.root)

  lower :
      Returns Lowered
        (((set_child (other d) p (addr a) >> set_child d nd p) >> set_black_child (addr a) p) s)
  unfolding Lowered
  lower =
      bind (set_child (other d) p (addr a) >> set_child d nd p) (set_black_child (addr a) p) s
        (lower_parent d nd p g p (addr x) (addr a) (addr a) (addr b) cn cp s en ep
          (one_ne p nd (omega (arith, uniq p, one_self p))))
        λ s2 (en2, ep2, out2, root2).
          let same2 : (z : ℕ) → one z p + one z nd ≡ 0 → s2.cell z ≡ s.cell z =
            λ z i. out2 z (one_ne z p (omega arith)) (one_ne z nd (omega arith)) in
          weaken
            (set_black_child_lem a nd p s2
              (Rep-frame nd a (λ z i. same2 z (omega (arith, uniq z))) ra)
              (λ z. omega (arith, uniq z)))
            λ s3 (ra3, out3, root3). (
              out3 nd (omega (arith, uniq nd, one_self nd)) ∙ en2,
              out3 p (omega (arith, uniq p, one_self p)) ∙ ep2,
              ra3,
              λ z i. out3 z (omega arith) ∙ same2 z (omega arith),
              root3 ∙ root2,
            )

  Inner : State → Type 0
  Inner s4 =
      (s4.cell nd ≡ some (cell_of d p cn p (addr b)))
      × Rep s4.cell nd (join d red x p (blacken a))
      × ((z : ℕ) → one z p + (one z nd + occ z a) ≡ 0 → s4.cell z ≡ s.cell z)
      × (s4.root ≡ s.root)

  inner : Returns Inner (
      (((set_child (other d) p (addr a) >> set_child d nd p) >> set_black_child (addr a) p)
          >> set_parent_color p nd red)
        s)
  unfolding Inner Lowered
  inner =
      bind ((set_child (other d) p (addr a) >> set_child d nd p) >> set_black_child (addr a) p)
        (set_parent_color p nd red) s lower
        λ s3 (en3, ep3, ra3, same3, root3).
          weaken (recolor_cell d p g (addr x) (addr a) cp red nd s3 ep3) λ s4 (ep4, out4, root4).
            let same4 : (z : ℕ) → one z p + (one z nd + occ z a) ≡ 0 → s4.cell z ≡ s.cell z =
              λ z i. out4 z (one_ne z p (omega arith)) ∙ same3 z (omega arith) in
            (
              out4 nd (one_ne nd p (omega (arith, uniq nd, one_self nd))) ∙ en3,
              Rep-join s4.cell d nd red x p (blacken a) p_ne (rw addr-blacken ep4)
                  (Rep-frame p x (λ z i. same4 z (omega (arith, uniq z))) rx)
                  (Rep-frame p (blacken a)
                    (λ z i. out4 z (one_ne z p (omega (arith, uniq z, occ-blacken z a)))) ra3),
              same4,
              root4 ∙ root3,
            )

  occ-lowered : (z : ℕ) → occ z (join d red x p (blacken a)) ≡ one z p + (occ z x + occ z a)
  occ-lowered z = omega (arith, occ-join z d red x p (blacken a), occ-blacken z a)

  -- Case 2 and case 3 turn the tree at `g` into `rotated` round the node, in its place.
  pub rotate_inner_lem :
      Returns
        (λ s'.
          Rep s'.cell (up k) (rotated d cg (join d red x p (blacken a)) nd b g u)
          × RepCtx s'.cell s'.root nd k
          × ((z : ℕ) → spots_inner z nd p g x a b u k ≡ 0 → s'.cell z ≡ s.cell z))
        (rotate_inner d nd p g s)
  unfolding rotate_inner Inner
  rotate_inner_lem =
      let low = λ (tmp : ℕ).
        ((set_child (other d) p tmp >> set_child d nd p) >> set_black_child tmp p)
        >> set_parent_color p nd red in
      let last = λ (n' : RbNode). rotate d nd g (child (other d) n') in
      load_lem nd (λ n. low (child d n) >> load nd last) s en
        (rw child-same (
          bind (low (addr a)) (load nd last) s inner λ s4 (en4, rp4, same4, root4).
            load_lem nd last s4 en4 (
              rw child-other (
                weaken
                  (rotate_lem d nd g (join d red x p (blacken a)) b u k p x0 nd cg cn s4 nd_ne g_ne
                    (same4 g (omega (arith, uniq g, one_self g)) ∙ eg) (rw addr-join en4) rp4
                    (Rep-frame nd b (λ z i. same4 z (omega (arith, uniq z))) rb)
                    (Rep-frame g u (λ z i. same4 z (omega (arith, uniq z))) ru)
                    (rw root4 (RepCtx-frame s.root g k (λ z i. same4 z (omega (arith, uniq z))) rk))
                    (λ z. omega (arith, uniq z, occ-lowered z)))
                  λ s' (rep', rk', out'). (
                    rep',
                    rk',
                    λ z i. out' z (omega (arith, i, occ-lowered z)) ∙ same4 z (omega arith),
                  )))))
