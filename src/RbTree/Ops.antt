-- ===== src/RbTree/Ops.antt =====
-- What the accessors of rbtree_augmented.h do to a heap that holds a tree.
use struct.Base.{ℕ, ◌≤◌, ◌≡◌, ◌≢◌, refl, sym, subst, arith, Option, none, some}
use struct.RbTree.State.{
  Color, black, Side, left, right, RbNode, State, Cmd, ◌>>◌, load, Returns, returns, store, modify,
  set_parent_color, set_black_child, change_child,
}
use struct.RbTree.Tree.{Tree, leaf, node, Ctx, top, under, addr, up, blacken, occ, occ_ctx}
use struct.RbTree.Rep.{cell_of, Rep, RepCtx, Rep-frame, RepCtx-frame}

-- No address stands twice.
abbrev pub Uniq : Tree → Type 0
Uniq t = (x : ℕ) → occ x t ≤ 1

-- Nothing is written outside the tree, or the context.
abbrev pub Outside : State → State → Tree → Type 0
Outside s s' t = (x : ℕ) → occ x t ≡ 0 → s'.cell x ≡ s.cell x

abbrev pub OutsideCtx : State → State → Ctx → Type 0
OutsideCtx s s' k = (x : ℕ) → occ_ctx x k ≡ 0 → s'.cell x ≡ s.cell x

pub modify_lem :
    (p : ℕ) (f : RbNode → RbNode) (s : State) {n : RbNode}
    → s.cell p ≡ some n
    → modify p f s ≡ some (store p (f n) s)
unfolding modify
modify_lem p f s e = rw (e, modify)

module _ {P : State → Type 0} where
  pub Returns-eq : {r : Option State} {s : State} → r ≡ some s → P s → Returns P r
  Returns-eq {s} e p = rw e (returns {s = s} p)

  bind_at :
      {Q : State → Type 0} (k : Cmd) {r : Option State}
      → Returns P r
      → ((s : State) → P s → Returns Q (k s))
      → Returns Q (elim r [ none ↦ none | some s ↦ k s ])
  bind_at k (returns {s} p) next = next s p

  pub bind :
      {Q : State → Type 0} (m k : Cmd) (s : State)
      → Returns P (m s)
      → ((s' : State) → P s' → Returns Q (k s'))
      → Returns Q ((m >> k) s)
  unfolding ◌>>◌
  bind m k s r next = bind_at k r next

  pub weaken :
      {Q : State → Type 0} {r : Option State}
      → Returns P r
      → ((s : State) → P s → Q s)
      → Returns Q r
  weaken (returns {s} p) f = returns (f s p)

-- What a pointer in hand reads.
pub load_lem :
    {Q : State → Type 0} (p : ℕ) (k : RbNode → Cmd) (s : State) {n : RbNode}
    → s.cell p ≡ some n
    → Returns Q (k n s)
    → Returns Q (load p k s)
load_lem {Q} p k s e r = subst (λ o. Returns Q (elim o [ none ↦ none | some n ↦ k n s ])) (sym e) r

pub addr_ne : (x : ℕ) (t : Tree) → x ≢ 0 → occ x t ≡ 0 → addr t ≢ x
unfolding occ
addr_ne x leaf ne out = ground arith
addr_ne x (node c l a r) ne out = ground arith

-- The place for a recoloured and re-parented root of a subtree.
pub set_black_child_lem :
    (t : Tree) (q p : ℕ) (s : State)
    → Rep s.cell q t
    → Uniq t
    → Returns
        (λ s'. Rep s'.cell p (blacken t) × Outside s s' t × (s'.root ≡ s.root))
        (set_black_child (addr t) p s)
unfolding modify occ
set_black_child_lem leaf q p s rep uniq = returns (tt, λ x i. refl, refl)
set_black_child_lem (node c l a r) q p s (ne, e, rl, rr) uniq =
    Returns-eq {s = store a (cell_of left p black (addr l) (addr r)) s} (ground arith) (
      (
        ne,
        ground arith,
        Rep-frame a l (λ x i. ground (arith, uniq x)) rl,
        Rep-frame a r (λ x i. ground (arith, uniq x)) rr,
      ),
      λ x i. ground arith,
      refl,
    )

change_child_at :
    (old new : ℕ) (d : Side) (q : ℕ) (c : Color) (a : ℕ) (u : Tree) (s : State)
    → s.cell a ≡ some (cell_of d q c old (addr u))
    → a ≢ 0
    → old ≢ 0
    → occ old u ≡ 0
    → change_child old new a s ≡ some (store a (cell_of d q c new (addr u)) s)
unfolding change_child modify
change_child_at old new left q c a u s e na ne out = ground arith
change_child_at old new right q c a u s e na ne out = ground (arith, addr_ne old u ne out)

-- `__rb_change_child` puts `new` at the place of `old`.
pub change_child_lem :
    (old new : ℕ) (k : Ctx) (s : State)
    → RepCtx s.cell s.root old k
    → old ≢ 0
    → occ_ctx old k ≡ 0
    → ((x : ℕ) → occ_ctx x k ≤ 1)
    → Returns
        (λ s'. RepCtx s'.cell s'.root new k × OutsideCtx s s' k)
        (change_child old new (up k) s)
unfolding change_child modify occ_ctx
change_child_lem old new top s rep ne out uniq = returns (refl, λ x i. refl)
change_child_lem old new (under d c a u k) s (na, e, ru, rk) ne out uniq =
    Returns-eq {s = store a (cell_of d (up k) c new (addr u)) s}
      (change_child_at old new d (up k) c a u s e na ne (ground arith))
      (
        (
          na,
          ground arith,
          Rep-frame a u (λ x i. ground (arith, uniq x)) ru,
          RepCtx-frame s.root a k (λ x i. ground (arith, uniq x)) rk,
        ),
        λ x i. ground arith,
      )

-- A node that is recoloured and re-parented in place.
pub recolor_cell :
    (d : Side) (p q m n : ℕ) (c c' : Color) (q' : ℕ) (s : State)
    → s.cell p ≡ some (cell_of d q c m n)
    → Returns
        (λ s'.
          (s'.cell p ≡ some (cell_of d q' c' m n))
          × ((z : ℕ) → z ≢ p → s'.cell z ≡ s.cell z)
          × (s'.root ≡ s.root))
        (set_parent_color p q' c' s)
unfolding modify
recolor_cell left p q m n c c' q' s e =
    Returns-eq {s = store p (cell_of left q' c' m n) s} (ground arith)
      (ground arith, λ z i. ground arith, refl)
recolor_cell right p q m n c c' q' s e =
    Returns-eq {s = store p (cell_of right q' c' m n) s} (ground arith)
      (ground arith, λ z i. ground arith, refl)

pub Returns-inv :
    (P : State → Type 0) {r : Option State} → Returns P r → (s : State) × (r ≡ some s) × P s
Returns-inv P (returns {s} p) = (s, refl, p)
