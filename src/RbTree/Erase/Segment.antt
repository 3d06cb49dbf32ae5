-- ===== src/RbTree/Erase/Segment.antt =====
-- The part of a context between a place and a node further up, on which the search for the
-- successor works.
use struct.Base.{ℕ, suc, ◌+◌, ◌≤◌, ◌<◌, ◌≡◌, ◌≢◌, ◌∙◌, refl, subst, arith, some}
use struct.RbTree.State.{Color, red, black, Side, left, right, State, Returns, set_parent}
use struct.RbTree.Tree.{Tree, Ctx, top, under, join, addr, up, plug, depth, occ_ctx}
use struct.RbTree.Rep.{cell_of, Cells, Rep, RepCtx, Rep-frame}
use struct.RbTree.Ops.{weaken, Returns-eq}
use struct.RbTree.Balance.{ParentBlack, RbCtx, RbAt, Fits}
use struct.RbTree.Rotate.{one_self}
use struct.RbTree.State.{store, modify}

-- The context `m` below `k`.
abbrev pub over : Ctx → Ctx → Ctx
over top k = k
over (under d c a u m) k = under d c a u (over m k)

-- The node above the place, where `q` is above the segment.
abbrev pub up_in : Ctx → ℕ → ℕ
up_in top q = q
up_in (under d c a u m) q = a

-- The segment lies on the heap; its place holds `p`, the node above it is `q`, and `r` points to
-- its highest node.
abbrev pub RepSeg : Cells → (r p q : ℕ) → Ctx → Type 0
RepSeg h r p q top = r ≡ p
RepSeg h r p q (under d c a u m) =
    (a ≢ 0) × (h a ≡ some (cell_of d (up_in m q) c p (addr u))) × Rep h a u × RepSeg h r a q m

pub up-over : (m k : Ctx) → up (over m k) ≡ up_in m (up k)
up-over top k = refl
up-over (under d c a u m) k = refl

pub plug-over : (t : Tree) (m k : Ctx) → plug t (over m k) ≡ plug (plug t m) k
plug-over t top k = refl
plug-over t (under d c a u m) k = plug-over (join d c t a u) m k

pub occ_ctx-over : (z : ℕ) (m k : Ctx) → occ_ctx z (over m k) ≡ occ_ctx z m + occ_ctx z k
unfolding occ_ctx
occ_ctx-over z top k = omega arith
occ_ctx-over z (under d c a u m) k = omega (arith, occ_ctx-over z m k)

pub RepCtx-over :
    (h : Cells) (root r p : ℕ) (m k : Ctx)
    → RepSeg h r p (up k) m
    → RepCtx h root r k
    → RepCtx h root p (over m k)
RepCtx-over h root r p top k e rk = subst (λ x. RepCtx h root x k) e rk
RepCtx-over h root r p (under d c a u m) k (ne, e, ru, rm) rk =
    (ne, rw (up-over m k) e, ru, RepCtx-over h root r a m k rm rk)

pub RepSeg-frame :
    {h h' : Cells} (r p q : ℕ) (m : Ctx)
    → ((x : ℕ) → 0 < occ_ctx x m → h' x ≡ h x)
    → RepSeg h r p q m
    → RepSeg h' r p q m
unfolding occ_ctx
RepSeg-frame r p q top same e = e
RepSeg-frame r p q (under d c a u m) same (ne, e, ru, rm) = (
  ne,
  ground (arith, same a),
  Rep-frame a u (λ x i. same x (omega arith)) ru,
  RepSeg-frame r a q m (λ x i. same x (omega arith)) rm,
)

-- The conditions do not ask which node is above the segment.
ParentBlack-over :
    (d : Side) (c : Color) (a a' : ℕ) (u : Tree) (m k : Ctx)
    → ParentBlack (over m (under d c a u k))
    → ParentBlack (over m (under d c a' u k))
ParentBlack-over d red a a' u top k b = b
ParentBlack-over d black a a' u top k b = b
ParentBlack-over d c a a' u (under d1 red b1 v m) k b = b
ParentBlack-over d c a a' u (under d1 black b1 v m) k b = b

pub RbCtx-over :
    (d : Side) (c : Color) (a a' : ℕ) (u : Tree) (m k : Ctx) (n : ℕ)
    → RbCtx (over m (under d c a u k)) n
    → RbCtx (over m (under d c a' u k)) n
RbCtx-over d red a a' u top k n rb = rb
RbCtx-over d black a a' u top k n rb = rb
RbCtx-over d c a a' u (under d1 red b v m) k n (x, y, z, w, rb) =
    (x, y, z, ParentBlack-over d c a a' u m k w, RbCtx-over d c a a' u m k n rb)
RbCtx-over d c a a' u (under d1 black b v m) k n (x, y, rb) =
    (x, y, RbCtx-over d c a a' u m k (suc n) rb)

-- The highest node of the segment gets another parent.
pub set_parent_seg :
    (r p q q' : ℕ) (m : Ctx) (st : State)
    → up_in m 0 ≢ 0
    → RepSeg st.cell r p q m
    → ((z : ℕ) → occ_ctx z m ≤ 1)
    → Returns
        (λ s'.
          RepSeg s'.cell r p q' m
          × ((z : ℕ) → occ_ctx z m ≡ 0 → s'.cell z ≡ st.cell z)
          × (s'.root ≡ st.root))
        (set_parent r q' st)
unfolding occ_ctx modify
set_parent_seg r p q q' top st ne rep uniq = absurd (ne refl)
set_parent_seg r p q q' (under left c a u top) st ne (na, e, ru, er) uniq =
    Returns-eq {s = store a (cell_of left q' c p (addr u)) st} (ground arith) (
      (na, ground arith, Rep-frame a u (λ x i. ground (arith, uniq x)) ru, er),
      λ z i. ground arith,
      refl,
    )
set_parent_seg r p q q' (under right c a u top) st ne (na, e, ru, er) uniq =
    Returns-eq {s = store a (cell_of right q' c p (addr u)) st} (ground arith) (
      (na, ground arith, Rep-frame a u (λ x i. ground (arith, uniq x)) ru, er),
      λ z i. ground arith,
      refl,
    )
set_parent_seg r p q q' (under d c a u (under d' c' a' u' m)) st ne (na, e, ru, rm) uniq =
    weaken (set_parent_seg r a q q' (under d' c' a' u' m) st rm.0 rm (λ z. omega (arith, uniq z)))
      λ s' (rm', out, root). (
        (
          na,
          out a (omega (arith, uniq a, one_self a)) ∙ e,
          Rep-frame a u (λ x i. out x (omega (arith, uniq x))) ru,
          rm',
        ),
        λ z i. out z (omega arith),
        root,
      )

Fits-over :
    (t : Tree) (d : Side) (c : Color) (a a' : ℕ) (u : Tree) (m k : Ctx)
    → Fits t (over m (under d c a u k))
    → Fits t (over m (under d c a' u k))
Fits-over t d red a a' u top k f = f
Fits-over t d black a a' u top k f = f
Fits-over t d c a a' u (under d1 red b v m) k f = f
Fits-over t d c a a' u (under d1 black b v m) k f = f

pub RbAt-over :
    (t : Tree) (d : Side) (c : Color) (a a' : ℕ) (u : Tree) (m k : Ctx)
    → RbAt t (over m (under d c a u k))
    → RbAt t (over m (under d c a' u k))
RbAt-over t d c a a' u m k (n, nr, bh, rb, f) =
    (n, nr, bh, RbCtx-over d c a a' u m k n rb, Fits-over t d c a a' u m k f)

pub depth-over : (m k : Ctx) → depth (over m k) ≡ depth m + depth k
depth-over top k = omega arith
depth-over (under d c a u m) k = omega (arith, depth-over m k)
