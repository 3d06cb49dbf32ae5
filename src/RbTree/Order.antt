-- ===== src/RbTree/Order.antt =====
-- `fix` keeps the nodes of the tree and their order.
use struct.Base.{
  occurrences, occurrences-append, ℕ, ◌≡◌, ◌∙◌, refl, sym, ap, ap₂, arith, List, [], ◌∷◌, ◌++◌,
  append_assoc, append-nil,
}
use struct.RbTree.State.{Color, red, black, Side, left, right}
use struct.RbTree.Tree.{
  Tree, leaf, node, Ctx, top, under, join, plug, blacken, rotations, inorder, fix, occ,
}

pub inorder-blacken : (t : Tree) → inorder (blacken t) ≡ inorder t
unfolding inorder
inorder-blacken leaf = refl
inorder-blacken (node c l a r) = refl

-- The order of a join is settled by the orders of its parts.
pub inorder-join :
    (d : Side) (c c' : Color) (t t' : Tree) (a : ℕ) (u u' : Tree)
    → inorder t ≡ inorder t'
    → inorder u ≡ inorder u'
    → inorder (join d c t a u) ≡ inorder (join d c' t' a u')
unfolding inorder
inorder-join left c c' t t' a u u' e f = ap₂ (λ x y. x ++ (a ∷ y)) e f
inorder-join right c c' t t' a u u' e f = ap₂ (λ x y. y ++ (a ∷ x)) e f

pub inorder-plug :
    (t t' : Tree) (k : Ctx) → inorder t ≡ inorder t' → inorder (plug t k) ≡ inorder (plug t' k)
inorder-plug t t' top e = e
inorder-plug t t' (under d c a u k) e =
    inorder-plug (join d c t a u) (join d c t' a u) k (inorder-join d c c t t' a u u e refl)

inorder-rotations :
    (e d : Side) (ct cp c : Color) (l r x u : Tree) (nd p g : ℕ)
    → inorder (rotations e d (node ct l nd r) p x c g u)
      ≡ inorder (join d c (join e cp (node ct l nd r) p x) g u)
unfolding inorder
inorder-rotations left left ct cp c l r x u nd p g = simp (inorder-blacken, append_assoc)
inorder-rotations left right ct cp c l r x u nd p g = simp (inorder-blacken, append_assoc)
inorder-rotations right left ct cp c l r x u nd p g = simp (inorder-blacken, append_assoc)
inorder-rotations right right ct cp c l r x u nd p g = simp (inorder-blacken, append_assoc)

-- `__rb_insert` leaves the nodes in their order.
pub inorder-fix :
    (c : Color) (l : Tree) (nd : ℕ) (r : Tree) (k : Ctx)
    → inorder (fix (node c l nd r) k) ≡ inorder (plug (node c l nd r) k)
unfolding fix inorder
inorder-fix ct l nd r top = refl
inorder-fix ct l nd r (under e black p x k) = refl
inorder-fix ct l nd r (under e red p x top) = refl
inorder-fix ct l nd r (under e red p x (under d c g leaf k)) =
    inorder-plug _ _ k (inorder-rotations e d ct red c l r x leaf nd p g)
inorder-fix ct l nd r (under e red p x (under d c g (node black ul v ur) k)) =
    inorder-plug _ _ k (inorder-rotations e d ct red c l r x (node black ul v ur) nd p g)
inorder-fix ct l nd r (under e red p x (under left c g (node red ul v ur) k)) =
    inorder-fix red (join e black (node ct l nd r) p x) g (node black ul v ur) k
    ∙ inorder-plug _ _ k (
        inorder-join left red c (join e black (node ct l nd r) p x)
          (join e red (node ct l nd r) p x) g (node black ul v ur) (node red ul v ur)
          (inorder-join e black red (node ct l nd r) (node ct l nd r) p x x refl refl) refl)
inorder-fix ct l nd r (under e red p x (under right c g (node red ul v ur) k)) =
    inorder-fix red (node black ul v ur) g (join e black (node ct l nd r) p x) k
    ∙ inorder-plug _ _ k (
        inorder-join right red c (join e black (node ct l nd r) p x)
          (join e red (node ct l nd r) p x) g (node black ul v ur) (node red ul v ur)
          (inorder-join e black red (node ct l nd r) (node ct l nd r) p x x refl refl) refl)

-- How often an address occurs is settled by the order.
pub occurrences-inorder : (x : ℕ) (t : Tree) → occurrences x (inorder t) ≡ occ x t
unfolding occurrences inorder occ
occurrences-inorder x leaf = refl
occurrences-inorder x (node c l a r) = omega (
  arith,
  occurrences-append x (inorder l) (a ∷ inorder r),
  occurrences-inorder x l,
  occurrences-inorder x r,
)

-- The nodes of the context on the left of its place, and on the right.
abbrev pub lefts : Ctx → List ℕ
lefts top = []
lefts (under left c a u k) = lefts k
lefts (under right c a u k) = lefts k ++ (inorder u ++ (a ∷ []))

abbrev pub rights : Ctx → List ℕ
rights top = []
rights (under left c a u k) = a ∷ (inorder u ++ rights k)
rights (under right c a u k) = rights k

pub inorder-plug_sides :
    (t : Tree) (k : Ctx) → inorder (plug t k) ≡ lefts k ++ (inorder t ++ rights k)
unfolding inorder
inorder-plug_sides t top = sym (append-nil (inorder t))
inorder-plug_sides t (under left c a u k) =
    inorder-plug_sides (node c t a u) k
    ∙ ap (λ w. lefts k ++ w) (append_assoc (inorder t) (a ∷ inorder u) (rights k))
inorder-plug_sides t (under right c a u k) = inorder-plug_sides (node c u a t) k ∙ simp append_assoc
