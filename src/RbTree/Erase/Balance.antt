-- ===== src/RbTree/Erase/Balance.antt =====
-- The trees that the cases of `__rb_erase_color` leave are red-black and have the nodes in order.
use struct.Base.{ℕ, suc, ◌≡◌, refl, append_assoc}
use struct.RbTree.State.{Color, red, black, Side, left, right, other}
use struct.RbTree.Tree.{Tree, node, Ctx, top, under, join, blacken, sub, inorder}
use struct.RbTree.Balance.{
  IsBlack, NoRedRed, BlackHeight, ParentBlack, RbCtx, Fits, Fits-black, RbAt,
}
use struct.RbTree.Order.{inorder-blacken}

-- A tree of black height `n` without a red child of a red node.
abbrev pub Sound : Tree → ℕ → Type 0
Sound t n = NoRedRed t × BlackHeight t n

-- The place of a node of colour `c` whose children have black height `n`.
abbrev pub Room : Color → Ctx → ℕ → Type 0
Room red k n = ParentBlack k × RbCtx k n
Room black k n = RbCtx k (suc n)

pub Room-under :
    (d : Side) (c : Color) (p : ℕ) (u : Tree) (k : Ctx) (n : ℕ)
    → RbCtx (under d c p u k) n
    → Sound u n × Room c k n
Room-under d red p u k n rk = ((rk.1, rk.2), (rk.3, rk.4))
Room-under d black p u k n rk = ((rk.0, rk.1), rk.2)

Fits-parent : (t : Tree) (k : Ctx) → ParentBlack k → Fits t k
Fits-parent t (under d black a u k) b = tt
Fits-parent t (under d red a u k) b = elim b [ ]
Fits-parent t top b = elim b [ ]

pub Sound-join :
    (d : Side) (t : Tree) (a : ℕ) (u : Tree) (n : ℕ)
    → Sound t n
    → Sound u n
    → Sound (join d black t a u) (suc n)
Sound-join left t a u n st su = ((st.0, su.0), (st.1, su.1))
Sound-join right t a u n st su = ((su.0, st.0), (su.1, st.1))

pub IsBlack-join : (d : Side) (t : Tree) (a : ℕ) (u : Tree) → IsBlack (join d black t a u)
IsBlack-join left t a u = tt
IsBlack-join right t a u = tt

-- A node of either colour over two black trees.
pub RbAt-join :
    (d : Side) (c : Color) (t : Tree) (a : ℕ) (u : Tree) (k : Ctx) (n : ℕ)
    → IsBlack t
    → IsBlack u
    → Sound t n
    → Sound u n
    → Room c k n
    → RbAt (join d c t a u) k
RbAt-join left red t a u k n bt bu st su r =
    (n, (bt, bu, st.0, su.0), (st.1, su.1), r.1, Fits-parent (node red t a u) k r.0)
RbAt-join right red t a u k n bt bu st su r =
    (n, (bu, bt, su.0, st.0), (su.1, st.1), r.1, Fits-parent (node red u a t) k r.0)
RbAt-join left black t a u k n bt bu st su r =
    (suc n, (st.0, su.0), (st.1, su.1), r, Fits-black (node black t a u) k tt)
RbAt-join right black t a u k n bt bu st su r =
    (suc n, (su.0, st.0), (su.1, st.1), r, Fits-black (node black u a t) k tt)

-- The subtrees of a node.
pub Sound-black :
    (d : Side) (l : Tree) (s : ℕ) (r : Tree) (n : ℕ)
    → Sound (node black l s r) (suc n)
    → Sound (sub d (node black l s r)) n × Sound (sub (other d) (node black l s r)) n
Sound-black left l s r n (nr, bh) = ((nr.0, bh.0), (nr.1, bh.1))
Sound-black right l s r n (nr, bh) = ((nr.1, bh.1), (nr.0, bh.0))

pub Sound-red :
    (d : Side) (l : Tree) (s : ℕ) (r : Tree) (n : ℕ)
    → Sound (node red l s r) n
    → (Sound (sub d (node red l s r)) n × IsBlack (sub d (node red l s r)))
      × (Sound (sub (other d) (node red l s r)) n × IsBlack (sub (other d) (node red l s r)))
Sound-red left l s r n (nr, bh) = (((nr.2, bh.0), nr.0), ((nr.3, bh.1), nr.1))
Sound-red right l s r n (nr, bh) = (((nr.3, bh.1), nr.1), ((nr.2, bh.0), nr.0))

-- Case 1 leaves room for a red node.
pub Room-lower :
    (d : Side) (s : ℕ) (far : Tree) (k : Ctx) (n : ℕ)
    → Sound far n
    → Room black k n
    → Room red (under d black s far k) n
Room-lower d s far k n sf r = (tt, (sf.0, sf.1, r))

pub Sound-lightened :
    (d : Side) (near : Tree) (s : ℕ) (far : Tree) (n : ℕ)
    → IsBlack near
    → IsBlack far
    → Sound near n
    → Sound far n
    → Sound (join d red near s far) n
Sound-lightened left near s far n bn bf sn sf = ((bn, bf, sn.0, sf.0), (sn.1, sf.1))
Sound-lightened right near s far n bn bf sn sf = ((bf, bn, sf.0, sn.0), (sf.1, sn.1))

-- The order of the nodes.
pub inorder-raise :
    (d : Side) (c c1 c2 c3 : Color) (t : Tree) (p : ℕ) (near : Tree) (s : ℕ) (far : Tree)
    → inorder (join d c (join d c1 t p near) s far) ≡ inorder (join d c2 t p (join d c3 near s far))
unfolding inorder
inorder-raise left c c1 c2 c3 t p near s far = simp append_assoc
inorder-raise right c c1 c2 c3 t p near s far = simp append_assoc

pub inorder-raise_inner :
    (d : Side) (c : Color) (t : Tree) (p : ℕ) (l : Tree) (n : ℕ) (r : Tree) (s : ℕ) (far : Tree)
    → inorder (
        join d c
          (join d black t p (sub d (node red l n r)))
          n
          (join d black (blacken (sub (other d) (node red l n r))) s far))
      ≡ inorder (join d c t p (join d black (node red l n r) s far))
unfolding inorder
inorder-raise_inner left c t p l n r s far = simp (inorder-blacken, append_assoc)
inorder-raise_inner right c t p l n r s far = simp (inorder-blacken, append_assoc)

pub inorder-red :
    (d : Side) (c : Color) (l : Tree) (a : ℕ) (r : Tree)
    → inorder (join d c (sub d (node red l a r)) a (sub (other d) (node red l a r)))
      ≡ inorder (node red l a r)
unfolding inorder
inorder-red left c l a r = refl
inorder-red right c l a r = refl
