-- ===== src/RbTree/Replace.antt =====
-- `rb_replace_node` of rbtree.c.
mod Tests
use struct.Base.{one, ℕ, ◌+◌, ◌≤◌, ◌<◌, ◌≡◌, ◌≢◌, ◌∙◌, refl, arith, some, ◌==◌, if◌then◌else◌}
use struct.RbTree.State.{
  Color, left, RbNode, State, Cmd, ◌>>◌, load, Returns, store, modify, change_child,
}
use struct.RbTree.Tree.{Tree, node, Ctx, addr, up, plug, occ, occ_ctx}
use struct.RbTree.Rep.{cell_of, Rep, RepCtx, Rep-frame, RepCtx-frame, Rep-plug}
use struct.RbTree.Ops.{Returns-eq, bind, weaken, load_lem, change_child_lem}
use struct.RbTree.Erase.{set_parent_child}
use struct.RbTree.Erase.Sides.{set_parent_child_lem}
use struct.RbTree.Rotate.{one_self, one_ne}

-- `rb_replace_node`: the last write is `*new = *victim`.
unfoldable pub replace_node : (victim new : ℕ) → Cmd
replace_node victim new = load victim λ v.
    change_child victim new v.parent
    >> load victim λ v1.
      set_parent_child v1.rb_left new
      >> load victim
          λ v2. set_parent_child v2.rb_right new >> load victim λ v3. modify new (λ m. v3)

-- `*new = *victim`
copy_cell :
    (nd : ℕ) (v : RbNode) (s : State) {n : RbNode}
    → s.cell nd ≡ some n
    → Returns
        (λ s'.
          (s'.cell nd ≡ some v) × ((z : ℕ) → z ≢ nd → s'.cell z ≡ s.cell z) × (s'.root ≡ s.root))
        (modify nd (λ m. v) s)
unfolding modify
copy_cell nd v s e =
    Returns-eq {s = store nd v s} (ground arith) (ground arith, λ z i. ground arith, refl)

-- On a heap with a tree, `rb_replace_node` of one of its nodes by a node outside it ends without a
-- fault with the new node in the place of the old one, in a tree that is the same but for that;
-- only the cells of the tree and of the new node are written.
pub replace_node_lem :
    (nd : ℕ) (c : Color) (l : Tree) (a : ℕ) (r : Tree) (k : Ctx) (s : State) {n : RbNode}
    → nd ≢ 0
    → s.cell nd ≡ some n
    → Rep s.cell (up k) (node c l a r)
    → RepCtx s.cell s.root a k
    → ((z : ℕ) → one z nd + (occ z (node c l a r) + occ_ctx z k) ≤ 1)
    → Returns
        (λ s'.
          Rep s'.cell 0 (plug (node c l nd r) k)
          × (s'.root ≡ addr (plug (node c l nd r) k))
          × ((z : ℕ) → one z nd + (occ z (node c l a r) + occ_ctx z k) ≡ 0 → s'.cell z ≡ s.cell z))
        (replace_node a nd s)
unfolding replace_node occ
replace_node_lem nd c l a r k s ne en (na, ea, rl, rr) rk uniq =
    let last = λ (v3 : RbNode). modify nd (λ m. v3) in
    let third = λ (v2 : RbNode). set_parent_child v2.rb_right nd >> load a last in
    let second = λ (v1 : RbNode). set_parent_child v1.rb_left nd >> load a third in
    load_lem a (λ (v : RbNode). change_child a nd v.parent >> load a second) s ea
      (bind (change_child a nd (up k)) (load a second) s
        (change_child_lem a nd k s rk na (omega (arith, uniq a, one_self a))
          (λ z. omega (arith, uniq z)))
        λ s1 (rk1, out1).
          let ea1 = out1 a (omega (arith, uniq a, one_self a)) ∙ ea in
          load_lem a second s1 ea1 (
            bind (set_parent_child (addr l) nd) (load a third) s1
              (set_parent_child_lem l a nd s1
                (Rep-frame a l (λ z i. out1 z (omega (arith, uniq z))) rl)
                (λ z. omega (arith, uniq z)))
              λ s2 (rl2, out2, root2).
                let ea2 = out2 a (omega (arith, uniq a, one_self a)) ∙ ea1 in
                load_lem a third s2 ea2 (
                  bind (set_parent_child (addr r) nd) (load a last) s2
                    (set_parent_child_lem r a nd s2
                      (Rep-frame a r
                        (λ z i. out2 z (omega (arith, uniq z)) ∙ out1 z (omega (arith, uniq z))) rr)
                      (λ z. omega (arith, uniq z)))
                    λ s3 (rr3, out3, root3).
                      let ea3 = out3 a (omega (arith, uniq a, one_self a)) ∙ ea2 in
                      load_lem a last s3 ea3 (
                        weaken
                          (copy_cell nd (cell_of left (up k) c (addr l) (addr r)) s3 (
                            out3 nd (omega (arith, uniq nd, one_self nd))
                            ∙ out2 nd (omega (arith, uniq nd, one_self nd))
                            ∙ out1 nd (omega (arith, uniq nd, one_self nd))
                            ∙ en))
                          λ s4 (en4, out4, root4).
                            let late : (z : ℕ)
                                → one z nd + (occ z l + occ z r) ≡ 0
                                → s4.cell z ≡ s1.cell z =
                              λ z i.
                                out4 z (one_ne z nd (omega arith))
                                ∙ out3 z (omega arith)
                                ∙ out2 z (omega arith) in
                            let done =
                              Rep-plug s4.cell s4.root (node c l nd r) k
                                (
                                  ne,
                                  en4,
                                  Rep-frame nd l
                                      (λ z i.
                                        out4 z (one_ne z nd (omega (arith, uniq z)))
                                        ∙ out3 z (omega (arith, uniq z)))
                                      rl2,
                                  Rep-frame nd r
                                      (λ z i. out4 z (one_ne z nd (omega (arith, uniq z)))) rr3,
                                )
                                (rw (root4 ∙ root3 ∙ root2) (
                                  RepCtx-frame s1.root nd k (λ z i. late z (omega (arith, uniq z)))
                                    rk1)) in
                            (done.0, done.1, λ z i. late z (omega arith) ∙ out1 z (omega arith))))))
