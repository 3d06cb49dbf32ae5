-- ===== src/RbList/Add.antt =====
-- `rblist__add_node` and `rblist__find` on a list whose nodes are sorted for the entry in hand.
use struct.Base.{
  occurrences, occurrences-append, one, ℕ, ◌+◌, ◌≤◌, ◌<◌, ◌≡◌, ◌≢◌, ◌∙◌, refl, sym, subst, ap, ap₂,
  arith, Option, none, some, List, ◌∷◌, ◌++◌, append-nil, u32, All,
}
use Prim.Native.Nat.{Ordering}
use struct.RbTree.State.{red, RbNode, State, ◌>>◌, store, Slot, root_slot, link_node}
use struct.RbTree.Tree.{Tree, leaf, node, Ctx, top, addr, up, plug, depth, inorder, occ, occ_ctx}
use struct.RbTree.Rep.{Rep, RepCtx, Rep-unplug, RepCtx-frame, occ-plug}
use struct.RbTree.Ops.{Returns-inv}
use struct.RbTree.Insert.{insert_color}
use struct.RbTree.Balance.{IsRb, RbCtx-leaf}
use struct.RbTree.Order.{occurrences-inorder}
use struct.RbTree.Insertion.{slot_of, HoldsRb, insertion}
use struct.RbTree.Walk.Laws.{height}
use struct.RbList.{RbList, success, eexist, enomem, missing, descend, find, add_node}
use struct.RbTree.Order.{lefts, rights, inorder-plug_sides}
use struct.RbList.Search.{Less, Greater, descend_found, descend_missing}

occ-leaf : (z n : ℕ) → occ z leaf + n ≡ n
unfolding occ
occ-leaf z n = omega arith

stored : (p : ℕ) (n : RbNode) (s : State) → (store p n s).cell p ≡ some n
stored p n s = ground arith

-- The list holds the nodes `xs` in this order, as a red-black tree.
pub record IsList (l : RbList) (t : Tree) (xs : List ℕ) : Type 0 where
  pub holds : HoldsRb l.entries t
  pub order : inorder t ≡ xs
  pub uniq : (z : ℕ) → occ z t ≤ 1

module _ (node_cmp : ℕ → Ordering) (fuel : ℕ) (l : RbList) (t : Tree) (h : height t < fuel) where
  -- An entry that compares equal to a node is found there, and is not added again.
  pub add_node-eexist :
      (xs : List ℕ) (m : ℕ) (ys : List ℕ) (new_node : Option (ℕ × RbNode))
      → IsList l t (xs ++ (m ∷ ys))
      → All (Less node_cmp) xs
      → node_cmp m ≡ Ordering.eq
      → All (Greater node_cmp) ys
      → (find node_cmp fuel l ≡ some m) × (add_node node_cmp fuel new_node l ≡ some (eexist, l))
  unfolding find add_node
  add_node-eexist xs m ys new_node is lt eq gt =
      let run =
        descend_found node_cmp fuel t top l.entries xs m ys h is.holds.rep is.holds.root is.order lt
          eq gt in
      (rw (run, find), rw (run, add_node))

  module _ (xs ys : List ℕ) (is : IsList l t (xs ++ ys)) (lt : All (Less node_cmp) xs)
      (gt : All (Greater node_cmp) ys) where
    -- Without memory for a node nothing changes.
    pub add_node-enomem :
        (find node_cmp fuel l ≡ some 0) × (add_node node_cmp fuel none l ≡ some (enomem, l))
    unfolding find add_node
    add_node-enomem =
        let (k, run, whole, ls, rs, d) =
          descend_missing node_cmp fuel t top l.entries xs ys h is.holds.rep is.holds.root is.order
            lt gt in
        (rw (run, find), rw (run, add_node))

    add_run :
        (nd : ℕ) (n : RbNode) (p : Slot) (parent : ℕ) (s' : State)
        → descend node_cmp fuel root_slot 0 l.entries ≡ some (missing p parent)
        → (link_node nd parent p >> insert_color fuel nd) (store nd n l.entries) ≡ some s'
        → add_node node_cmp fuel (some (nd, n)) l
          ≡ some (success, record { entries = s'; nr_entries = u32 (l.nr_entries + 1) })
    unfolding add_node
    add_run nd n p parent s' run run' = rw (run, add_node) (rw run')

    red_leaf :
        (nd : ℕ) {ws vs : List ℕ}
        → ws ≡ xs
        → vs ≡ ys
        → ws ++ (inorder (node red leaf nd leaf) ++ vs) ≡ xs ++ (nd ∷ ys)
    unfolding inorder
    red_leaf nd p q = ap₂ (λ v w. v ++ (nd ∷ w)) p q

    grown_uniq :
        (nd : ℕ) (t' : Tree) → inorder t' ≡ xs ++ (nd ∷ ys) → occ nd t ≡ 0 → (z : ℕ) → occ z t' ≤ 1
    unfolding occurrences
    grown_uniq nd t' order fresh z = ground (
      arith,
      fresh,
      is.uniq z,
      occurrences-inorder z t,
      ap (occurrences z) is.order,
      occurrences-append z xs ys,
      occurrences-inorder z t',
      ap (occurrences z) order,
      occurrences-append z xs (nd ∷ ys),
    )

    add_at :
        (nd : ℕ) (n : RbNode) (k : Ctx)
        → descend node_cmp fuel root_slot 0 l.entries ≡ some (missing (slot_of k) (up k))
        → plug leaf k ≡ t
        → lefts k ≡ xs
        → rights k ≡ ys
        → depth k ≤ height t
        → nd ≢ 0
        → occ nd t ≡ 0
        → (l' : RbList) × (t' : Tree) × (add_node node_cmp fuel (some (nd, n)) l
            ≡ some (success, l'))
          × IsList l' t' (xs ++ (nd ∷ ys))
          × (l'.nr_entries ≡ u32 (l.nr_entries + 1))
    add_at nd n k run whole ls rs d ne fresh =
        let s0 : State = store nd n l.entries in
        let out : (z : ℕ) → occ z t ≡ occ_ctx z k =
          λ z. ap (occ z) (sym whole) ∙ occ-plug z leaf k ∙ occ-leaf z (occ_ctx z k) in
        let (rl, rk) =
          Rep-unplug l.entries.cell l.entries.root leaf k
            (subst (λ w. Rep l.entries.cell 0 w) (sym whole) is.holds.rep)
            (is.holds.root ∙ ap addr (sym whole)) in
        let rk0 : RepCtx s0.cell s0.root 0 k =
          RepCtx-frame l.entries.root 0 k (λ z i. ground (arith, out nd, out z)) rk in
        let uniq0 : (z : ℕ) → one z nd + occ_ctx z k ≤ 1 =
          λ z. ground (arith, out nd, out z, is.uniq z) in
        let (s', run', (t', holds, order, same)) = Returns-inv _ (
          insertion fuel nd k s0 {n = n} (omega arith) ne (stored nd n l.entries) rk0
            (RbCtx-leaf k (subst IsRb (sym whole) is.holds.rb)) uniq0) in
        let order' : inorder t' ≡ xs ++ (nd ∷ ys) =
          order ∙ inorder-plug_sides (node red leaf nd leaf) k ∙ red_leaf nd ls rs in
        (
          record { entries = s'; nr_entries = u32 (l.nr_entries + 1) },
          t',
          add_run nd n (slot_of k) (up k) s' run run',
          record { holds = holds; order = order'; uniq = grown_uniq nd t' order' fresh },
          refl,
        )

    -- An entry that compares equal to no node is added at its place in the order, in a new
    -- red-black tree, and counted.
    pub add_node-success :
        (nd : ℕ) (n : RbNode)
        → nd ≢ 0
        → occ nd t ≡ 0
        → (l' : RbList) × (t' : Tree) × (add_node node_cmp fuel (some (nd, n)) l
            ≡ some (success, l'))
          × IsList l' t' (xs ++ (nd ∷ ys))
          × (l'.nr_entries ≡ u32 (l.nr_entries + 1))
    add_node-success nd n ne fresh =
        let (k, run, whole, ls, rs, d) =
          descend_missing node_cmp fuel t top l.entries xs ys h is.holds.rep is.holds.root is.order
            lt gt in
        add_at nd n k run whole ls (rs ∙ append-nil ys) (omega arith) ne fresh
