-- ===== src/RbTree/Locate.antt =====
-- The place in a tree of a node that is given by its position in the order.
use struct.Base.{ℕ, ◌+◌, ◌≤◌, ◌≡◌, ◌∙◌, sym, ap, arith, List, [], ◌∷◌, ◌++◌, append_assoc}
use struct.RbTree.State.{Color, left, right}
use struct.RbTree.Tree.{Tree, leaf, node, Ctx, under, plug, depth, inorder}
use struct.RbTree.Order.{lefts, rights}
use struct.RbTree.Walk.Laws.{height}
use struct.RbTree.Walk.Place.{cut, before, here, after}

-- The node `nd` of `plug t k`, with the nodes `xs` before it and `ys` after it.
pub record PlaceIn (t : Tree) (k : Ctx) (xs : List ℕ) (nd : ℕ) (ys : List ℕ) : Type 0 where
  pub color : Color
  pub l : Tree
  pub r : Tree
  pub ctx : Ctx
  pub whole : plug (node color l nd r) ctx ≡ plug t k
  pub nodes_before : lefts ctx ++ inorder l ≡ lefts k ++ xs
  pub nodes_after : inorder r ++ rights ctx ≡ ys ++ rights k
  pub deep : depth ctx + height (node color l nd r) ≤ depth k + height t

pub place_of :
    (t : Tree) (k : Ctx) (xs : List ℕ) (nd : ℕ) (ys : List ℕ)
    → inorder t ≡ xs ++ (nd ∷ ys)
    → PlaceIn t k xs nd ys
unfolding inorder
place_of leaf k [] nd ys e = absurd (cc e)
place_of leaf k (x ∷ xs) nd ys e = absurd (cc e)
place_of (node c l a r) k xs nd ys e = elim (cut (inorder l) a (inorder r) xs nd ys e) [
  | before zs p q ↦
      let at = place_of l (under left c a r k) xs nd zs p in
      record {
        color = at.color;
        l = at.l;
        r = at.r;
        ctx = at.ctx;
        whole = at.whole;
        nodes_before = at.nodes_before;
        nodes_after =
            at.nodes_after
            ∙ sym (append_assoc zs (a ∷ inorder r) (rights k))
            ∙ ap (λ w. w ++ rights k) (sym q);
        deep = omega (arith, at.deep);
      }
  | here o p q ↦ record {
    color = c;
    l = l;
    r = r;
    ctx = k;
    whole = ap (λ n. plug (node c l n r) k) (sym p);
    nodes_before = ap (λ w. lefts k ++ w) o;
    nodes_after = ap (λ w. w ++ rights k) q;
    deep = omega arith;
  }
  | after zs o p ↦
      let at = place_of r (under right c a l k) zs nd ys p in
      record {
        color = at.color;
        l = at.l;
        r = at.r;
        ctx = at.ctx;
        whole = at.whole;
        nodes_before =
            at.nodes_before
            ∙ append_assoc (lefts k) (inorder l ++ (a ∷ [])) zs
            ∙ ap (λ w. lefts k ++ w) (append_assoc (inorder l) (a ∷ []) zs ∙ sym o);
        nodes_after = at.nodes_after;
        deep = omega (arith, at.deep);
      }
]
