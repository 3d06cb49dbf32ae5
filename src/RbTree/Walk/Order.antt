-- ===== src/RbTree/Walk/Order.antt =====
-- `rb_first`, `rb_last`, `rb_next` and `rb_prev` go through the nodes of a tree in order.
use struct.Base.{
  ℕ, ◌+◌, ◌≤◌, ◌<◌, ◌≡◌, ◌≢◌, ◌∙◌, refl, sym, ap, ap₂, subst, arith, some, List, [], ◌∷◌, ◌++◌,
  append-nil, append_assoc,
}
use mathlib.Core.List.{reverse, reverse-append}
use struct.RbTree.State.{Color, Side, left, right, other, State}
use struct.RbTree.Tree.{
  Tree, leaf, node, Ctx, top, under, addr, up, sub, depth, occ, occ_ctx, inorder,
}
use struct.RbTree.Rep.{cell_of, Cells, Rep, RepCtx, Rep-unplug, occ-plug}
use struct.RbTree.Rotate.{one_self}
use struct.RbTree.Walk.{extreme, climb, end_of, neighbour, rb_first, rb_last, rb_next, rb_prev}
use struct.RbTree.Walk.Laws.{walk, behind, first_of_list, height, extreme_lem, climb_lem, if_ne}
use struct.RbTree.Walk.Place.{locate}

pub walk_right : (t : Tree) → walk right t ≡ inorder t
unfolding walk inorder
walk_right leaf = refl
walk_right (node c l a r) = ap₂ (λ x y. x ++ (a ∷ y)) (walk_right l) (walk_right r)

-- The tree lies on the heap from the root of the state, no address twice.
pub record Holds (s : State) (t : Tree) : Type 0 where
  pub rep : Rep s.cell 0 t
  pub root : s.root ≡ addr t
  pub uniq : (z : ℕ) → occ z t ≤ 1

-- `rb_first` is the first node in order and `rb_last` the last, NULL in an empty tree.
pub end_of_lem :
    (d : Side) (fuel : ℕ) (t : Tree) (s : State)
    → Holds s t
    → height t ≤ fuel
    → end_of (other d) fuel s ≡ some (first_of_list (walk d t))
unfolding end_of walk
end_of_lem d fuel leaf s h le = ground arith
end_of_lem d fuel (node c l a r) s h le =
    let e : s.root ≡ a = h.root in
    let ne : s.root ≢ 0 = λ z. h.rep.0 (sym e ∙ z) in
    if_ne _ _ s.root ne
    ∙ ap (λ p. extreme (other d) fuel p s) e
    ∙ extreme_lem d fuel (node c l a r) 0 s h.rep h.rep.0 le []
    ∙ ap (λ w. some (first_of_list w)) (append-nil (walk d (node c l a r)))

neighbour_down :
    (d : Side) (fuel nd q v m : ℕ) (c : Color) (s : State)
    → s.cell nd ≡ some (cell_of d q c m v)
    → q ≢ nd
    → m ≢ 0
    → neighbour d fuel nd s ≡ extreme (other d) fuel m s
unfolding neighbour
neighbour_down left fuel nd q v m c s e ne mz = ground arith
neighbour_down right fuel nd q v m c s e ne mz = ground arith

neighbour_up :
    (d : Side) (fuel nd q v : ℕ) (c : Color) (s : State)
    → s.cell nd ≡ some (cell_of d q c 0 v)
    → q ≢ nd
    → neighbour d fuel nd s ≡ climb d fuel nd s
unfolding neighbour
neighbour_up left fuel nd q v c s e ne = ground arith
neighbour_up right fuel nd q v c s e ne = ground arith

up_ne : (nd : ℕ) (k : Ctx) → nd ≢ 0 → occ_ctx nd k ≡ 0 → up k ≢ nd
unfolding occ_ctx
up_ne nd top ne out = λ e. ne (sym e)
up_ne nd (under d c a u k) ne out = ground arith

-- At a place: the subtree on the side of the walk first, then what is behind the place.
neighbour_at :
    (d : Side) (fuel : ℕ) (t : Tree) (k : Ctx) (r : ℕ) (s : State)
    → addr t ≢ 0
    → Rep s.cell (up k) t
    → RepCtx s.cell r (addr t) k
    → ((z : ℕ) → occ z t + occ_ctx z k ≤ 1)
    → height (sub d t) + depth k < fuel
    → neighbour d fuel (addr t) s ≡ some (first_of_list (walk d (sub d t) ++ behind d k))
unfolding walk occ
neighbour_at d fuel leaf k r s ne rt rk uniq h = absurd (ne refl)
neighbour_at left fuel (node c leaf a r) k root s ne rt rk uniq h =
    neighbour_up left fuel a (up k) (addr r) c s rt.1
      (up_ne a k ne (omega (arith, uniq a, one_self a)))
    ∙ climb_lem left fuel a k root s (omega arith) rt.1 refl ne rk (λ z. omega (arith, uniq z))
neighbour_at left fuel (node c (node cl ll al lr) a r) k root s ne rt rk uniq h =
    neighbour_down left fuel a (up k) (addr r) al c s rt.1
      (up_ne a k ne (omega (arith, uniq a, one_self a))) rt.2.0
    ∙ extreme_lem left fuel (node cl ll al lr) a s rt.2 rt.2.0 (omega arith) (behind left k)
neighbour_at right fuel (node c l a leaf) k root s ne rt rk uniq h =
    neighbour_up right fuel a (up k) (addr l) c s rt.1
      (up_ne a k ne (omega (arith, uniq a, one_self a)))
    ∙ climb_lem right fuel a k root s (omega arith) rt.1 refl ne rk (λ z. omega (arith, uniq z))
neighbour_at right fuel (node c l a (node cr rl ar rr)) k root s ne rt rk uniq h =
    neighbour_down right fuel a (up k) (addr l) ar c s rt.1
      (up_ne a k ne (omega (arith, uniq a, one_self a))) rt.3.0
    ∙ extreme_lem right fuel (node cr rl ar rr) a s rt.3 rt.3.0 (omega arith) (behind right k)

Rep-addr : (h : Cells) (q : ℕ) (t : Tree) → Rep h q t → 0 < height t → addr t ≢ 0
Rep-addr h q leaf rep e = absurd (omega arith)
Rep-addr h q (node c l a r) rep e = rep.0

behind_top : (d : Side) → behind d top ≡ []
unfolding behind
behind_top left = refl
behind_top right = refl

reverse_middle :
    (xs : List ℕ) (a : ℕ) (ys : List ℕ) → reverse (xs ++ (a ∷ ys)) ≡ reverse ys ++ (a ∷ reverse xs)
reverse_middle xs a ys =
    reverse-append xs (a ∷ ys)
    ∙ ap (λ w. w ++ reverse xs) (reverse-append (a ∷ []) ys)
    ∙ append_assoc (reverse ys) (a ∷ []) (reverse xs)

-- The neighbour of a node, as the walk over the whole tree has it.
pub neighbour_lem :
    (d : Side) (fuel nd : ℕ) (t : Tree) (s : State) (xs ys : List ℕ)
    → Holds s t
    → height t < fuel
    → walk d t ≡ xs ++ (nd ∷ ys)
    → neighbour d fuel nd s ≡ some (first_of_list ys)
neighbour_lem d fuel nd t s xs ys h le e =
    let (t', k', e1, e2, e5, e3, e4) = locate d t top xs nd ys e in
    let (rt, rk) =
      Rep-unplug s.cell s.root t' k' (subst (λ w. Rep s.cell 0 w) (sym e1) h.rep)
        (h.root ∙ ap addr (sym e1)) in
    ap (λ p. neighbour d fuel p s) (sym e2)
    ∙ neighbour_at d fuel t' k' s.root s (Rep-addr s.cell (up k') t' rt e5) rt rk
        (λ z. omega (arith, h.uniq z, occ-plug z t' k', ap (occ z) e1)) (omega arith)
    ∙ ap (λ w. some (first_of_list w)) (e3 ∙ ap (λ w. ys ++ w) (behind_top d) ∙ append-nil ys)

walk_left : (t : Tree) → walk left t ≡ reverse (inorder t)
unfolding walk inorder
walk_left leaf = refl
walk_left (node c l a r) =
    ap₂ (λ x y. x ++ (a ∷ y)) (walk_left r) (walk_left l)
    ∙ sym (reverse_middle (inorder l) a (inorder r))

-- `rb_first` as the order has it, in an empty tree too.
pub rb_first_lem :
    (fuel : ℕ) (t : Tree) (s : State)
    → Holds s t
    → height t ≤ fuel
    → rb_first fuel s ≡ some (first_of_list (inorder t))
rb_first_lem fuel t s h le =
    end_of_lem right fuel t s h le ∙ ap (λ w. some (first_of_list w)) (walk_right t)

-- `rb_next` of a node in the tree is the node that follows it in order and `rb_prev` the one that
-- precedes it, NULL at the two ends; `rb_first` and `rb_last` are the two ends. None of them
-- faults, and fuel above the height of the tree is enough.
pub walks_in_order :
    (fuel nd : ℕ) (t : Tree) (s : State) (xs ys : List ℕ)
    → Holds s t
    → height t < fuel
    → inorder t ≡ xs ++ (nd ∷ ys)
    → (rb_next fuel nd s ≡ some (first_of_list ys))
      × (rb_prev fuel nd s ≡ some (first_of_list (reverse xs)))
      × (rb_first fuel s ≡ some (first_of_list (inorder t)))
      × (rb_last fuel s ≡ some (first_of_list (reverse (inorder t))))
walks_in_order fuel nd t s xs ys h le e = (
  neighbour_lem right fuel nd t s xs ys h le (walk_right t ∙ e),
  neighbour_lem left fuel nd t s (reverse ys) (reverse xs) h le
      (walk_left t ∙ ap reverse e ∙ reverse_middle xs nd ys),
  rb_first_lem fuel t s h (omega arith),
  end_of_lem left fuel t s h (omega arith) ∙ ap (λ w. some (first_of_list w)) (walk_left t),
)
