-- ===== src/RbTree/Rep.antt =====
-- When a heap represents a tree, and that a change elsewhere on the heap leaves it so.
use struct.Base.{one, ℕ, ◌+◌, ◌<◌, ◌≡◌, ◌≢◌, refl, arith, Option, some}
use struct.RbTree.State.{Color, Side, left, right, other, child, RbNode}
use struct.RbTree.Tree.{Tree, leaf, node, Ctx, top, under, join, addr, up, plug, occ, occ_ctx}

-- The node with `p` on side `d` and `q` on the other.
abbrev pub cell_of : Side → ℕ → Color → ℕ → ℕ → RbNode
cell_of left q c p r = record { parent = q; color = c; rb_right = r; rb_left = p }
cell_of right q c p r = record { parent = q; color = c; rb_right = p; rb_left = r }

abbrev pub Cells : Type 0
Cells = ℕ → Option RbNode

-- The tree `t` lies on the heap, and its root's parent is `q`.
abbrev pub Rep : Cells → ℕ → Tree → Type 0
Rep h q leaf = Unit
Rep h q (node c l a r) =
    (a ≢ 0) × (h a ≡ some (cell_of left q c (addr l) (addr r))) × Rep h a l × Rep h a r

-- The context lies on the heap, its place holds the pointer `p`, and `r` is the tree's root.
abbrev pub RepCtx : Cells → ℕ → ℕ → Ctx → Type 0
RepCtx h r p top = r ≡ p
RepCtx h r p (under d c a u k) =
    (a ≢ 0) × (h a ≡ some (cell_of d (up k) c p (addr u))) × Rep h a u × RepCtx h r a k

-- `h'` has every cell of the tree, or of the context, as `h` has it.
abbrev pub Keeps : Cells → Cells → Tree → Type 0
Keeps h h' t = (x : ℕ) → 0 < occ x t → h' x ≡ h x

abbrev pub KeepsCtx : Cells → Cells → Ctx → Type 0
KeepsCtx h h' k = (x : ℕ) → 0 < occ_ctx x k → h' x ≡ h x

pub Rep-frame : {h h' : Cells} (q : ℕ) (t : Tree) → Keeps h h' t → Rep h q t → Rep h' q t
unfolding occ
Rep-frame q leaf same rep = tt
Rep-frame q (node c l a r) same (ne, e, rl, rr) = (
  ne,
  ground (arith, same a),
  Rep-frame a l (λ x i. same x (omega arith)) rl,
  Rep-frame a r (λ x i. same x (omega arith)) rr,
)

pub RepCtx-frame :
    {h h' : Cells} (r p : ℕ) (k : Ctx) → KeepsCtx h h' k → RepCtx h r p k → RepCtx h' r p k
unfolding occ_ctx
RepCtx-frame r p top same rep = rep
RepCtx-frame r p (under d c a u k) same (ne, e, ru, rk) = (
  ne,
  ground (arith, same a),
  Rep-frame a u (λ x i. same x (omega arith)) ru,
  RepCtx-frame r a k (λ x i. same x (omega arith)) rk,
)

pub Rep-join :
    (h : Cells) (d : Side) (q : ℕ) (c : Color) (t : Tree) (a : ℕ) (u : Tree)
    → a ≢ 0
    → h a ≡ some (cell_of d q c (addr t) (addr u))
    → Rep h a t
    → Rep h a u
    → Rep h q (join d c t a u)
Rep-join h left q c t a u ne e rt ru = (ne, e, rt, ru)
Rep-join h right q c t a u ne e rt ru = (ne, e, ru, rt)

pub occ-join :
    (x : ℕ) (d : Side) (c : Color) (t : Tree) (a : ℕ) (u : Tree)
    → occ x (join d c t a u) ≡ one x a + (occ x t + occ x u)
unfolding occ
occ-join x left c t a u = refl
occ-join x right c t a u = omega arith

-- A tree with its context is the whole tree.
pub Rep-plug :
    (h : Cells) (r : ℕ) (t : Tree) (k : Ctx)
    → Rep h (up k) t
    → RepCtx h r (addr t) k
    → Rep h 0 (plug t k) × (r ≡ addr (plug t k))
Rep-plug h r t top rt rk = (rt, rk)
Rep-plug h r t (under left c a u k) rt (ne, e, ru, rk) =
    Rep-plug h r (join left c t a u) k (ne, e, rt, ru) rk
Rep-plug h r t (under right c a u k) rt (ne, e, ru, rk) =
    Rep-plug h r (join right c t a u) k (ne, e, ru, rt) rk

-- What `cell_of` is made of.
pub child-same : (d : Side) (q : ℕ) (c : Color) (m n : ℕ) → child d (cell_of d q c m n) ≡ m
child-same left q c m n = refl
child-same right q c m n = refl

pub child-other : (d : Side) (q : ℕ) (c : Color) (m n : ℕ) → child (other d) (cell_of d q c m n) ≡ n
child-other left q c m n = refl
child-other right q c m n = refl

pub parent-cell_of : (d : Side) (q : ℕ) (c : Color) (m n : ℕ) → (cell_of d q c m n).parent ≡ q
parent-cell_of left q c m n = refl
parent-cell_of right q c m n = refl

pub color-cell_of : (d : Side) (q : ℕ) (c : Color) (m n : ℕ) → (cell_of d q c m n).color ≡ c
color-cell_of left q c m n = refl
color-cell_of right q c m n = refl

pub cell_of-other :
    (d : Side) (q : ℕ) (c : Color) (m n : ℕ) → cell_of (other d) q c m n ≡ cell_of d q c n m
cell_of-other left q c m n = refl
cell_of-other right q c m n = refl

-- A whole tree on the heap, seen from a place in it.
pub Rep-unplug :
    (h : Cells) (r : ℕ) (t : Tree) (k : Ctx)
    → Rep h 0 (plug t k)
    → r ≡ addr (plug t k)
    → Rep h (up k) t × RepCtx h r (addr t) k
Rep-unplug h r t top rep e = (rep, e)
Rep-unplug h r t (under left c a u k) rep e =
    let (rt, rk) = Rep-unplug h r (join left c t a u) k rep e in (rt.2, (rt.0, rt.1, rt.3, rk))
Rep-unplug h r t (under right c a u k) rep e =
    let (rt, rk) = Rep-unplug h r (join right c t a u) k rep e in (rt.3, (rt.0, rt.1, rt.2, rk))

pub occ-plug : (x : ℕ) (t : Tree) (k : Ctx) → occ x (plug t k) ≡ occ x t + occ_ctx x k
unfolding occ_ctx
occ-plug x t top = omega arith
occ-plug x t (under d c a u k) = omega (arith, occ-plug x (join d c t a u) k, occ-join x d c t a u)
