-- ===== src/RbTree/Insertion.antt =====
-- `rb_link_node` and `rb_insert_color` together: the insertion that a user of rbtree.h performs.
use struct.Base.{one, ℕ, suc, ◌+◌, ◌≤◌, ◌<◌, ◌≡◌, ◌≢◌, ◌∙◌, refl, arith, some}
use struct.RbTree.State.{
  Color, red, black, Side, left, right, RbNode, State, ◌>>◌, Returns, store, Slot, root_slot,
  child_slot, link_node, red_parent,
}
use struct.RbTree.Tree.{
  Tree, leaf, node, Ctx, top, under, addr, up, plug, depth, RootBlack, inorder, fix, occ, occ_ctx,
}
use struct.RbTree.Rep.{cell_of, Rep, RepCtx, Rep-frame, RepCtx-frame}
use struct.RbTree.Ops.{Returns-eq, bind, weaken, load_lem}
use struct.RbTree.Insert.{insert_color, loop}
use struct.RbTree.Rotate.{one_self, one_ne}
use struct.RbTree.Loop.{loop_refines}
use struct.RbTree.Balance.{RbCtx, IsRb, fix-IsRb}
use struct.RbTree.Order.{inorder-fix}

-- The slot of a place.
abbrev pub slot_of : Ctx → Slot
slot_of top = root_slot
slot_of (under d c a u k) = child_slot d a

link_cell :
    (d : Side) (nd a q : ℕ) (c : Color) (v : ℕ) (s : State) {n : RbNode}
    → s.cell nd ≡ some n
    → s.cell a ≡ some (cell_of d q c 0 v)
    → a ≢ nd
    → link_node nd a (child_slot d a) s
      ≡ some (store a (cell_of d q c nd v) (store nd (cell_of left a red 0 0) s))
unfolding link_node
link_cell left nd a q c v s en ea ne = ground arith
link_cell right nd a q c v s en ea ne = ground arith

-- `rb_link_node` hangs the node, red and without children, at a place that holds NULL.
pub link_node_lem :
    (nd : ℕ) (k : Ctx) (s : State) {n : RbNode}
    → nd ≢ 0
    → s.cell nd ≡ some n
    → RepCtx s.cell s.root 0 k
    → ((z : ℕ) → one z nd + occ_ctx z k ≤ 1)
    → Returns
        (λ s'.
          Rep s'.cell (up k) (node red leaf nd leaf)
          × RepCtx s'.cell s'.root nd k
          × ((z : ℕ) → one z nd + occ_ctx z k ≡ 0 → s'.cell z ≡ s.cell z))
        (link_node nd (up k) (slot_of k) s)
unfolding link_node occ_ctx
link_node_lem nd top s ne en rk uniq =
    Returns-eq {s = record (store nd (cell_of left 0 red 0 0) s) { root = nd }} (ground arith)
      ((ne, ground arith, tt, tt), refl, λ z i. ground arith)
link_node_lem nd (under d c a u k) s ne en (na, ea, ru, rk) uniq =
    let s' : State =
      store a (cell_of d (up k) c nd (addr u)) (store nd (cell_of left a red 0 0) s) in
    let far : a ≢ nd = one_ne a nd (omega (arith, uniq a, one_self a)) in
    Returns-eq {s = s'} (link_cell d nd a (up k) c (addr u) s en ea far) (
      (ne, ground arith, tt, tt),
      (
        na,
        ground arith,
        Rep-frame a u (λ z i. ground (arith, uniq z)) ru,
        RepCtx-frame s.root a k (λ z i. ground (arith, uniq z)) rk,
      ),
      λ z i. ground arith,
    )

RbCtx-root : (k : Ctx) (n : ℕ) → RbCtx k n → RootBlack k
RbCtx-root top n rk = tt
RbCtx-root (under d red a u top) n rk = elim rk.3 [ ]
RbCtx-root (under d black a u top) n rk = refl
RbCtx-root (under d red a u (under d' c' a' u' k)) n rk = RbCtx-root (under d' c' a' u' k) n rk.4
RbCtx-root (under d black a u (under d' c' a' u' k)) n rk =
    RbCtx-root (under d' c' a' u' k) (suc n) rk.2

-- The state holds a red-black tree with the given nodes in order, at its root.
pub record HoldsRb (s : State) (t : Tree) : Type 0 where
  pub rep : Rep s.cell 0 t
  pub root : s.root ≡ addr t
  pub rb : IsRb t

-- Linking a node in at a free place of a red-black tree and `rb_insert_color` on it end without a
-- fault, on any fuel above the depth of the place, with a red-black tree on the heap that has the
-- node at that place of the order; no other cell is written.
pub insertion :
    (fuel nd : ℕ) (k : Ctx) (s : State) {n : RbNode}
    → depth k < fuel
    → nd ≢ 0
    → s.cell nd ≡ some n
    → RepCtx s.cell s.root 0 k
    → RbCtx k 0
    → ((z : ℕ) → one z nd + occ_ctx z k ≤ 1)
    → Returns
        (λ s'.
          (t : Tree) × HoldsRb s' t
          × (inorder t ≡ inorder (plug (node red leaf nd leaf) k))
          × ((z : ℕ) → one z nd + occ_ctx z k ≡ 0 → s'.cell z ≡ s.cell z))
        ((link_node nd (up k) (slot_of k) >> insert_color fuel nd) s)
unfolding insert_color occ
insertion fuel nd k s h ne en rk rbk uniq =
    let t0 = node red leaf nd leaf in
    bind (link_node nd (up k) (slot_of k)) (insert_color fuel nd) s
      (link_node_lem nd k s ne en rk uniq)
      λ s1 (rep1, rk1, out1).
        load_lem nd (λ n. red_parent n λ parent. loop fuel nd parent) s1 rep1.1
          (weaken
            (loop_refines fuel t0 k s1 h ne (RbCtx-root k 0 rbk) rep1 rk1
              (λ z. omega (arith, uniq z)))
            λ s' (rep', root', out'). (
              fix t0 k,
              record {
                rep = rep';
                root = root';
                rb = fix-IsRb leaf nd leaf k 0 (tt, tt, tt, tt) (tt, tt) rbk;
              },
              inorder-fix red leaf nd leaf k,
              λ z i. out' z (omega (arith, i)) ∙ out1 z i,
            ))
