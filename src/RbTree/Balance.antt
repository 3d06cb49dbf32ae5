-- ===== src/RbTree/Balance.antt =====
-- The red-black conditions that rbtree.c states at its head, and that `fix` restores them without
-- changing the order of the nodes.
use struct.Base.{ℕ, zero, suc, ◌≡◌, refl}
use struct.RbTree.State.{Color, red, black, Side, left, right}
use struct.RbTree.Tree.{Tree, leaf, node, Ctx, top, under, join, plug, blacken, rotations, fix}

-- 3) leaves are black, 4) a red node has black children, 5) all paths have as many black nodes.
abbrev pub IsBlack : Tree → Type 0
IsBlack leaf = Unit
IsBlack (node red l a r) = ⊥
IsBlack (node black l a r) = Unit

abbrev pub NoRedRed : Tree → Type 0
NoRedRed leaf = Unit
NoRedRed (node red l a r) = IsBlack l × IsBlack r × NoRedRed l × NoRedRed r
NoRedRed (node black l a r) = NoRedRed l × NoRedRed r

abbrev pub BlackHeight : Tree → ℕ → Type 0
BlackHeight leaf zero = Unit
BlackHeight leaf (suc n) = ⊥
BlackHeight (node red l a r) n = BlackHeight l n × BlackHeight r n
BlackHeight (node black l a r) zero = ⊥
BlackHeight (node black l a r) (suc n) = BlackHeight l n × BlackHeight r n

-- A red-black tree; 2) its root is black.
pub record IsRb (t : Tree) : Type 0 where
  pub root_black : IsBlack t
  pub no_red_red : NoRedRed t
  pub height : ℕ
  pub balanced : BlackHeight t height

-- The same conditions of a context, for a place where a tree of black height `n` hangs.
abbrev pub ParentBlack : Ctx → Type 0
ParentBlack top = ⊥
ParentBlack (under d red a u k) = ⊥
ParentBlack (under d black a u k) = Unit

abbrev pub RbCtx : Ctx → ℕ → Type 0
RbCtx top n = Unit
RbCtx (under d red a u k) n = IsBlack u × NoRedRed u × BlackHeight u n × ParentBlack k × RbCtx k n
RbCtx (under d black a u k) n = NoRedRed u × BlackHeight u n × RbCtx k (suc n)

-- The tree may hang at the place without a red child of a red node, or a red root.
abbrev pub Fits : Tree → Ctx → Type 0
Fits t top = IsBlack t
Fits t (under d red a u k) = IsBlack t
Fits t (under d black a u k) = Unit

pub Fits-black : (t : Tree) (k : Ctx) → IsBlack t → Fits t k
Fits-black t top b = b
Fits-black t (under d red a u k) b = b
Fits-black t (under d black a u k) b = tt

pub plug-IsRb :
    (t : Tree) (k : Ctx) (n : ℕ)
    → NoRedRed t
    → BlackHeight t n
    → RbCtx k n
    → Fits t k
    → IsRb (plug t k)
plug-IsRb t top n nr bh rk f = record { root_black = f; no_red_red = nr; height = n; balanced = bh }
plug-IsRb t (under left red a u (under d' black a' u' k)) n nr bh rk f =
    plug-IsRb (node red t a u) (under d' black a' u' k) n (f, rk.0, nr, rk.1) (bh, rk.2) rk.4 tt
plug-IsRb t (under right red a u (under d' black a' u' k)) n nr bh rk f =
    plug-IsRb (node red u a t) (under d' black a' u' k) n (rk.0, f, rk.1, nr) (rk.2, bh) rk.4 tt
plug-IsRb t (under left black a u k) n nr bh rk f =
    plug-IsRb (node black t a u) k (suc n) (nr, rk.0) (bh, rk.1) rk.2
      (Fits-black (node black t a u) k tt)
plug-IsRb t (under right black a u k) n nr bh rk f =
    plug-IsRb (node black u a t) k (suc n) (rk.0, nr) (rk.1, bh) rk.2
      (Fits-black (node black u a t) k tt)
plug-IsRb t (under d red a u top) n nr bh rk f = elim rk.3 [ ]
plug-IsRb t (under d red a u (under d' red a' u' k)) n nr bh rk f = elim rk.3 [ ]

-- Blackening a black tree changes nothing; blackening a red one makes it higher.
pub blacken_black : (t : Tree) → IsBlack t → blacken t ≡ t
blacken_black leaf b = refl
blacken_black (node red l a r) b = elim b [ ]
blacken_black (node black l a r) b = refl

module _ (l r x u : Tree) (nd p g n : ℕ) (nr : NoRedRed (node red l nd r))
    (bh : BlackHeight (node red l nd r) n) (bx : IsBlack x) (nx : NoRedRed x) (hx : BlackHeight x n)
    (bu : IsBlack u) (nu : NoRedRed u) (hu : BlackHeight u n) where
  -- The rotations below a black grandparent give a black root over two red nodes.
  rotations_ok :
      (e d : Side)
      → NoRedRed (rotations e d (node red l nd r) p x black g u)
        × BlackHeight (rotations e d (node red l nd r) p x black g u) (suc n)
        × IsBlack (rotations e d (node red l nd r) p x black g u)
  rotations_ok left left = rw (blacken_black x bx) ((nr, (bx, bu, nx, nu)), (bh, (hx, hu)), tt)
  rotations_ok right right = rw (blacken_black x bx) (((bu, bx, nu, nx), nr), ((hu, hx), bh), tt)
  rotations_ok right left =
      rw (blacken_black l nr.0, blacken_black r nr.1)
        (((bx, nr.0, nx, nr.2), (nr.1, bu, nr.3, nu)), ((hx, bh.0), (bh.1, hu)), tt)
  rotations_ok left right =
      rw (blacken_black l nr.0, blacken_black r nr.1)
        (((bu, nr.0, nu, nr.2), (nr.1, bx, nr.3, nx)), ((hu, bh.0), (bh.1, hx)), tt)

fix_rotated :
    (e d : Side) (l r x u : Tree) (nd p g n : ℕ) (k : Ctx)
    → NoRedRed (node red l nd r)
    → BlackHeight (node red l nd r) n
    → RbCtx (under e red p x (under d black g u k)) n
    → IsBlack u
    → IsRb (plug (rotations e d (node red l nd r) p x black g u) k)
fix_rotated e d l r x u nd p g n k nr bh rk bu =
    let good = rotations_ok l r x u nd p g n nr bh rk.0 rk.1 rk.2 bu rk.4.0 rk.4.1 e d in
    plug-IsRb (rotations e d (node red l nd r) p x black g u) k (suc n) good.0 good.1 rk.4.2
      (Fits-black (rotations e d (node red l nd r) p x black g u) k good.2)

-- From a red node over black subtrees whose parent may be red, `__rb_insert` makes a red-black
-- tree.
pub fix-IsRb :
    (l : Tree) (nd : ℕ) (r : Tree) (k : Ctx) (n : ℕ)
    → NoRedRed (node red l nd r)
    → BlackHeight (node red l nd r) n
    → RbCtx k n
    → IsRb (fix (node red l nd r) k)
unfolding fix
fix-IsRb l nd r top n nr bh rk = record {
  root_black = tt;
  no_red_red = (nr.2, nr.3);
  height = suc n;
  balanced = bh;
}
fix-IsRb l nd r (under e black p x k) n nr bh rk =
    plug-IsRb (node red l nd r) (under e black p x k) n nr bh rk tt
fix-IsRb l nd r (under e red p x top) n nr bh rk = elim rk.3 [ ]
fix-IsRb l nd r (under e red p x (under d red g u k)) n nr bh rk = elim rk.3 [ ]
fix-IsRb l nd r (under e red p x (under d black g leaf k)) n nr bh rk =
    fix_rotated e d l r x leaf nd p g n k nr bh rk tt
fix-IsRb l nd r (under e red p x (under d black g (node black ul v ur) k)) n nr bh rk =
    fix_rotated e d l r x (node black ul v ur) nd p g n k nr bh rk tt
fix-IsRb l nd r (under left red p x (under left black g (node red ul v ur) k)) n nr bh rk =
    fix-IsRb (node black (node red l nd r) p x) g (node black ul v ur) k (suc n)
      (tt, tt, (nr, rk.1), (rk.4.0.2, rk.4.0.3)) ((bh, rk.2), rk.4.1) rk.4.2
fix-IsRb l nd r (under right red p x (under left black g (node red ul v ur) k)) n nr bh rk =
    fix-IsRb (node black x p (node red l nd r)) g (node black ul v ur) k (suc n)
      (tt, tt, (rk.1, nr), (rk.4.0.2, rk.4.0.3)) ((rk.2, bh), rk.4.1) rk.4.2
fix-IsRb l nd r (under left red p x (under right black g (node red ul v ur) k)) n nr bh rk =
    fix-IsRb (node black ul v ur) g (node black (node red l nd r) p x) k (suc n)
      (tt, tt, (rk.4.0.2, rk.4.0.3), (nr, rk.1)) (rk.4.1, (bh, rk.2)) rk.4.2
fix-IsRb l nd r (under right red p x (under right black g (node red ul v ur) k)) n nr bh rk =
    fix-IsRb (node black ul v ur) g (node black x p (node red l nd r)) k (suc n)
      (tt, tt, (rk.4.0.2, rk.4.0.3), (rk.1, nr)) (rk.4.1, (rk.2, bh)) rk.4.2

ParentBlack-of : (l : Tree) (a : ℕ) (r : Tree) (k : Ctx) → Fits (node red l a r) k → ParentBlack k
ParentBlack-of l a r top f = elim f [ ]
ParentBlack-of l a r (under d red b u k) f = elim f [ ]
ParentBlack-of l a r (under d black b u k) f = tt

-- What the conditions of a whole tree say of a place in it.
abbrev pub RbAt : Tree → Ctx → Type 0
RbAt t k = (n : ℕ) × NoRedRed t × BlackHeight t n × RbCtx k n × Fits t k

RbAt-under :
    (t : Tree) (d : Side) (c : Color) (a : ℕ) (u : Tree) (k : Ctx)
    → RbAt (join d c t a u) k
    → RbAt t (under d c a u k)
RbAt-under t left red a u k (n, nr, bh, rk, f) =
    (n, nr.2, bh.0, (nr.1, nr.3, bh.1, ParentBlack-of t a u k f, rk), nr.0)
RbAt-under t right red a u k (n, nr, bh, rk, f) =
    (n, nr.3, bh.1, (nr.0, nr.2, bh.0, ParentBlack-of u a t k f, rk), nr.1)
RbAt-under t left black a u k (zero, nr, bh, rk, f) = elim bh [ ]
RbAt-under t right black a u k (zero, nr, bh, rk, f) = elim bh [ ]
RbAt-under t left black a u k (suc n, nr, bh, rk, f) = (n, nr.0, bh.0, (nr.1, bh.1, rk), tt)
RbAt-under t right black a u k (suc n, nr, bh, rk, f) = (n, nr.1, bh.1, (nr.0, bh.0, rk), tt)

pub plug-RbAt : (t : Tree) (k : Ctx) → IsRb (plug t k) → RbAt t k
plug-RbAt t top rb = (rb.height, rb.no_red_red, rb.balanced, tt, rb.root_black)
plug-RbAt t (under d c a u k) rb = RbAt-under t d c a u k (plug-RbAt (join d c t a u) k rb)

pub RbCtx-leaf : (k : Ctx) → IsRb (plug leaf k) → RbCtx k 0
RbCtx-leaf k rb = go (plug-RbAt leaf k rb)
  where
    go : RbAt leaf k → RbCtx k 0
    go (zero, nr, bh, rk, f) = rk
    go (suc n, nr, bh, rk, f) = elim bh [ ]
