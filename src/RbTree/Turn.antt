-- ===== src/RbTree/Turn.antt =====
-- A round of `__rb_insert` on a heap that holds a tree.
use struct.Base.{ℕ, ◌≤◌, ◌≡◌, ◌≢◌, arith, some}
use struct.RbTree.State.{Color, red, Side, left, right, other, State, Returns}
use struct.RbTree.Tree.{Tree, node, Ctx, addr, up, occ, rotations}
use struct.RbTree.Rep.{cell_of, Rep, RepCtx}
use struct.RbTree.Ops.{weaken, addr_ne}
use struct.RbTree.Insert.{turn_at, rotate, rotate_inner}
use struct.RbTree.Rotate.{rotate_lem, one_self}
use struct.RbTree.RotateInner.{rotate_inner_lem}
use struct.RbTree.Flip.{spots_flip}

turn_at_outer :
    (d : Side) (nd p g q x : ℕ) (c : Color) (s : State)
    → s.cell p ≡ some (cell_of d q c nd x)
    → x ≢ nd
    → turn_at d nd p g s ≡ rotate d p g x s
unfolding turn_at
turn_at_outer left nd p g q x c s e ne = ground arith
turn_at_outer right nd p g q x c s e ne = ground arith

turn_at_inner :
    (d : Side) (nd p g q x : ℕ) (c : Color) (s : State)
    → s.cell p ≡ some (cell_of (other d) q c nd x)
    → turn_at d nd p g s ≡ rotate_inner d nd p g s
unfolding turn_at
turn_at_inner left nd p g q x c s e = ground arith
turn_at_inner right nd p g q x c s e = ground arith

module _ (p g : ℕ) (ct : Color) (tl tr x u : Tree) (nd : ℕ) (k : Ctx) (cg : Color) (s : State)
    (p_ne : p ≢ 0) (g_ne : g ≢ 0) (rt : Rep s.cell p (node ct tl nd tr)) (rx : Rep s.cell p x)
    (ru : Rep s.cell g u) (rk : RepCtx s.cell s.root g k)
    (uniq : (z : ℕ) → spots_flip z p g (node ct tl nd tr) x u k ≤ 1) where
  -- The heap after the rotations at `g`.
  unfoldable pub Turned : (e d : Side) → State → Type 0
  Turned e d s' =
      Rep s'.cell (up k) (rotations e d (node ct tl nd tr) p x cg g u)
      × RepCtx s'.cell s'.root (addr (rotations e d (node ct tl nd tr) p x cg g u)) k
      × ((z : ℕ) → spots_flip z p g (node ct tl nd tr) x u k ≡ 0 → s'.cell z ≡ s.cell z)

  nd_not_x : addr x ≢ nd
  unfolding occ
  nd_not_x = addr_ne nd x rt.0 (omega (arith, uniq nd, one_self nd))

  pub turn_at_lem :
      (e d : Side)
      → s.cell g ≡ some (cell_of d (up k) cg p (addr u))
      → s.cell p ≡ some (cell_of e g red nd (addr x))
      → Returns (Turned e d) (turn_at d nd p g s)
  unfolding turn_at Turned occ
  turn_at_lem left left eg ep =
      rw (turn_at_outer left nd p g g (addr x) red s ep nd_not_x) (
        rotate_lem left p g (node ct tl nd tr) x u k g p p cg red s p_ne g_ne eg ep rt rx ru rk
          uniq)
  turn_at_lem right right eg ep = rw (turn_at_outer right nd p g g (addr x) red s ep nd_not_x) (
      rotate_lem right p g (node ct tl nd tr) x u k g p p cg red s p_ne g_ne eg ep rt rx ru rk uniq)
  turn_at_lem right left eg ep = rw (turn_at_inner left nd p g g (addr x) red s ep) (
      weaken
        (rotate_inner_lem left nd p g x tl tr u k p cg red ct s rt.0 p_ne g_ne eg ep rt.1 rx rt.2
          rt.3 ru rk (λ z. omega (arith, uniq z)))
        λ s' (rep, rk', out). (rep, rk', λ z i. out z (omega arith)))
  turn_at_lem left right eg ep = rw (turn_at_inner right nd p g g (addr x) red s ep) (
      weaken
        (rotate_inner_lem right nd p g x tr tl u k p cg red ct s rt.0 p_ne g_ne eg ep rt.1 rx rt.3
          rt.2 ru rk (λ z. omega (arith, uniq z)))
        λ s' (rep, rk', out). (rep, rk', λ z i. out z (omega arith)))
