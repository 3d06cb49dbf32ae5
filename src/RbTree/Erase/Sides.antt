-- ===== src/RbTree/Erase/Sides.antt =====
-- The two subtrees of a node, near and far from a side, and what one write does to them.
use struct.Base.{one, ℕ, ◌+◌, ◌≡◌, ◌≢◌, refl, arith, some}
use struct.RbTree.State.{
  Color, Side, left, right, other, State, ◌>>◌, Returns, returns, store, modify, set_child,
}
use struct.RbTree.Tree.{Tree, leaf, node, join, addr, sub, occ}
use struct.RbTree.Rep.{cell_of, Cells, Rep, Rep-frame}
use struct.RbTree.Ops.{Uniq, Outside, Returns-eq}
use struct.RbTree.Erase.{set_parent_child}

-- A node on the heap, seen from a side.
pub Rep-sides :
    (h : Cells) (d : Side) (q : ℕ) (c : Color) (l : Tree) (a : ℕ) (r : Tree)
    → Rep h q (node c l a r)
    → (h a
        ≡ some (cell_of d q c (addr (sub d (node c l a r))) (addr (sub (other d) (node c l a r)))))
      × Rep h a (sub d (node c l a r))
      × Rep h a (sub (other d) (node c l a r))
Rep-sides h left q c l a r (ne, e, rl, rr) = (e, rl, rr)
Rep-sides h right q c l a r (ne, e, rl, rr) = (e, rr, rl)

pub occ-sides :
    (z : ℕ) (d : Side) (c : Color) (l : Tree) (a : ℕ) (r : Tree)
    → occ z (node c l a r)
      ≡ one z a + (occ z (sub d (node c l a r)) + occ z (sub (other d) (node c l a r)))
unfolding occ
occ-sides z left c l a r = refl
occ-sides z right c l a r = omega arith

pub join-sides :
    (d : Side) (c c' : Color) (l : Tree) (a : ℕ) (r : Tree)
    → join d c' (sub d (node c l a r)) a (sub (other d) (node c l a r)) ≡ node c' l a r
join-sides left c c' l a r = refl
join-sides right c c' l a r = refl

-- `p` gets the near child of its far child `s`, and `s` gets `p`.
pub lift_far :
    (d : Side) (p s q y m n nd x0 : ℕ) (c cs : Color) (st : State)
    → st.cell p ≡ some (cell_of d q c nd x0)
    → st.cell s ≡ some (cell_of d y cs m n)
    → p ≢ s
    → Returns
        (λ st'.
          (st'.cell p ≡ some (cell_of d q c nd m))
          × (st'.cell s ≡ some (cell_of d y cs p n))
          × ((z : ℕ) → z ≢ p → z ≢ s → st'.cell z ≡ st.cell z)
          × (st'.root ≡ st.root))
        ((set_child (other d) p m >> set_child d s p) st)
unfolding modify ◌>>◌
lift_far left p s q y m n nd x0 c cs st ep es ne =
    Returns-eq {s = store s (cell_of left y cs p n) (store p (cell_of left q c nd m) st)}
      (ground arith) (ground arith, ground arith, λ z i j. ground arith, refl)
lift_far right p s q y m n nd x0 c cs st ep es ne =
    Returns-eq {s = store s (cell_of right y cs p n) (store p (cell_of right q c nd m) st)}
      (ground arith) (ground arith, ground arith, λ z i j. ground arith, refl)

-- One pointer of a node is changed.
pub set_near :
    (d : Side) (p q m n m' : ℕ) (c : Color) (st : State)
    → st.cell p ≡ some (cell_of d q c m n)
    → Returns
        (λ st'.
          (st'.cell p ≡ some (cell_of d q c m' n))
          × ((z : ℕ) → z ≢ p → st'.cell z ≡ st.cell z)
          × (st'.root ≡ st.root))
        (set_child d p m' st)
unfolding modify
set_near left p q m n m' c st e =
    Returns-eq {s = store p (cell_of left q c m' n) st} (ground arith)
      (ground arith, λ z i. ground arith, refl)
set_near right p q m n m' c st e =
    Returns-eq {s = store p (cell_of right q c m' n) st} (ground arith)
      (ground arith, λ z i. ground arith, refl)

pub set_far :
    (d : Side) (p q m n n' : ℕ) (c : Color) (st : State)
    → st.cell p ≡ some (cell_of d q c m n)
    → Returns
        (λ st'.
          (st'.cell p ≡ some (cell_of d q c m n'))
          × ((z : ℕ) → z ≢ p → st'.cell z ≡ st.cell z)
          × (st'.root ≡ st.root))
        (set_child (other d) p n' st)
unfolding modify
set_far left p q m n n' c st e = set_near right p q n m n' c st e
set_far right p q m n n' c st e = set_near left p q n m n' c st e

-- The root of a subtree gets another parent, and keeps its colour.
pub set_parent_child_lem :
    (t : Tree) (q p : ℕ) (s : State)
    → Rep s.cell q t
    → Uniq t
    → Returns
        (λ s'. Rep s'.cell p t × Outside s s' t × (s'.root ≡ s.root))
        (set_parent_child (addr t) p s)
unfolding modify occ
set_parent_child_lem leaf q p s rep uniq = returns (tt, λ x i. refl, refl)
set_parent_child_lem (node c l a r) q p s (ne, e, rl, rr) uniq =
    Returns-eq {s = store a (cell_of left p c (addr l) (addr r)) s} (ground arith) (
      (
        ne,
        ground arith,
        Rep-frame a l (λ x i. ground (arith, uniq x)) rl,
        Rep-frame a r (λ x i. ground (arith, uniq x)) rr,
      ),
      λ x i. ground arith,
      refl,
    )
