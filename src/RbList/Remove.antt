-- ===== src/RbList/Remove.antt =====
-- `rblist__remove_node` on a list.
use struct.Base.{
  occurrences, occurrences-append, one, ℕ, ◌+◌, ◌≤◌, ◌≡◌, ◌≢◌, ◌∙◌, refl, sym, ap, ap₂, subst,
  arith, none, some, List, ◌∷◌, ◌++◌, append-nil, append_assoc,
}
use struct.RbTree.State.{State}
use struct.RbTree.Tree.{Tree, node, top, addr, inorder, occ, occ_ctx}
use struct.RbTree.Rep.{Rep, Rep-unplug, Rep-frame, occ-plug}
use struct.RbTree.Ops.{Returns-inv}
use struct.RbTree.Balance.{IsRb}
use struct.RbTree.Order.{lefts, rights, occurrences-inorder}
use struct.RbTree.Walk.Laws.{height}
use struct.RbTree.Locate.{place_of}
use struct.RbTree.Insertion.{HoldsRb}
use struct.RbTree.Erase.{erase}
use struct.RbTree.Erase.Settle.{Mended}
use struct.RbTree.Erase.Vacate.{without}
use struct.RbTree.Erase.Erasure.{erasure}
use struct.RbList.{RbList, remove_node}
use struct.RbList.Add.{IsList}

-- What `node_delete` does: it gives back the cell of its node, and writes to no other.
pub record IsDelete (node_delete : ℕ → State → State) : Type 0 where
  pub outside : (nd : ℕ) (s : State) (z : ℕ) → z ≢ nd → (node_delete nd s).cell z ≡ s.cell z
  pub frees : (nd : ℕ) (s : State) → (node_delete nd s).cell nd ≡ none
  pub same_root : (nd : ℕ) (s : State) → (node_delete nd s).root ≡ s.root

regroup : (a l r b : List ℕ) → a ++ ((l ++ r) ++ b) ≡ (a ++ l) ++ (r ++ b)
regroup a l r b = simp append_assoc

-- No node stands twice in a list without a double.
uniq_order :
    (xs ys : List ℕ) (nd : ℕ) (t v : Tree)
    → ((z : ℕ) → occ z t ≤ 1)
    → inorder t ≡ xs ++ (nd ∷ ys)
    → inorder v ≡ xs ++ ys
    → ((z : ℕ) → occ z v ≤ 1) × (occ nd v ≡ 0)
unfolding occurrences
uniq_order xs ys nd t v uniq e f =
    let all : (z : ℕ) → occ z t ≡ occ z v + one z nd = λ z. ground (
      arith,
      occurrences-inorder z t,
      occurrences-inorder z v,
      ap (occurrences z) e,
      ap (occurrences z) f,
      occurrences-append z xs (nd ∷ ys),
      occurrences-append z xs ys,
    ) in
    ((λ z. omega (arith, all z, uniq z)), ground (arith, all nd, uniq nd))

-- The tree without the node stays on the heap when the node is given back.
pub deleted-Rep :
    (node_delete : ℕ → State → State)
    → IsDelete node_delete
    → (nd : ℕ) (v : Tree) (s : State) → occ nd v ≡ 0
    → Rep s.cell 0 v
    → Rep (node_delete nd s).cell 0 v
deleted-Rep node_delete del nd v s fresh rep =
    Rep-frame 0 v (λ z i. del.outside nd s z (λ e. ground (arith, e, i, fresh))) rep

module _ (fuel : ℕ) (l : RbList) (t : Tree) (xs : List ℕ) (nd : ℕ) (ys : List ℕ)
    (h : height t ≤ fuel) (is : IsList l t (xs ++ (nd ∷ ys))) where
  -- `rb_erase` of a node of the list leaves the others.
  pub erase_node :
      (s : State) × (v : Tree) × (erase fuel nd l.entries ≡ some s)
      × HoldsRb s v
      × (inorder v ≡ xs ++ ys)
      × ((z : ℕ) → occ z v ≤ 1)
      × (occ nd v ≡ 0)
      × ((z : ℕ) → occ z t ≡ 0 → s.cell z ≡ l.entries.cell z)
  erase_node =
      let at = place_of t top xs nd ys is.order in
      let it = node at.color at.l nd at.r in
      let (rep, rk) =
        Rep-unplug l.entries.cell l.entries.root it at.ctx
          (subst (λ w. Rep l.entries.cell 0 w) (sym at.whole) is.holds.rep)
          (is.holds.root ∙ ap addr (sym at.whole)) in
      let (s, run, (v, rb, o, rep', root, out)) =
        Returns-inv (Mended (without at.l at.r at.ctx) (λ z. occ z it + occ_ctx z at.ctx) l.entries)
          (erasure fuel at.color at.l nd at.r at.ctx l.entries (omega (arith, at.deep)) rep rk
            (subst IsRb (sym at.whole) is.holds.rb)
            (λ z. omega (arith, is.uniq z, occ-plug z it at.ctx, ap (occ z) at.whole))) in
      let order : inorder v ≡ xs ++ ys =
        o
        ∙ regroup (lefts at.ctx) (inorder at.l) (inorder at.r) (rights at.ctx)
        ∙ ap₂ (λ v w. v ++ w) at.nodes_before (at.nodes_after ∙ append-nil ys) in
      let (u, fresh) = uniq_order xs ys nd t v is.uniq is.order order in
      (
        s,
        v,
        run,
        record { rep = rep'; root = root; rb = rb },
        order,
        u,
        fresh,
        λ z i. out z (omega (arith, i, occ-plug z it at.ctx, ap (occ z) at.whole)),
      )

  -- rblist__remove_node of a node of a list leaves the list of the others, and the count as it was.
  pub remove_node_lem :
      (node_delete : ℕ → State → State)
      → IsDelete node_delete
      → (l' : RbList) × (t' : Tree) × (remove_node node_delete fuel nd l ≡ some l')
        × IsList l' t' (xs ++ ys)
        × (l'.nr_entries ≡ l.nr_entries)
  unfolding remove_node
  remove_node_lem node_delete del =
      let (s, v, run, holds, order, u, fresh, out) = erase_node in
      (
        record l { entries = node_delete nd s },
        v,
        rw (run, remove_node) refl,
        record {
          holds = record {
            rep = deleted-Rep node_delete del nd v s fresh holds.rep;
            root = del.same_root nd s ∙ holds.root;
            rb = holds.rb;
          };
          order = order;
          uniq = u;
        },
        refl,
      )
