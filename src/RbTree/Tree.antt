-- ===== src/RbTree/Tree.antt =====
-- What the heap of rbtree.c stands for: a tree of node addresses with colours, and the context of
-- a node in it, the way up to the root. The addresses in order are what the tree holds.
use struct.Base.{one, ℕ, suc, ◌+◌, ◌≡◌, List, [], ◌∷◌, ◌++◌}
use struct.RbTree.State.{Color, red, black, Side, left, right}

pub data Tree : Type 0 where
  leaf : Tree
  node : Color → Tree → ℕ → Tree → Tree

-- A node with the subtree `t` on side `d` and `u` on the other.
abbrev pub join : Side → Color → Tree → ℕ → Tree → Tree
join left c t a u = node c t a u
join right c t a u = node c u a t

-- The nodes above a place: for each its colour, address, and other subtree, and on which side
-- the place is.
pub data Ctx : Type 0 where
  top : Ctx
  under : Side → Color → ℕ → Tree → Ctx → Ctx

-- The address that a pointer to the tree holds, and that of the place's parent.
abbrev pub addr : Tree → ℕ
addr leaf = 0
addr (node c l a r) = a

abbrev pub up : Ctx → ℕ
up top = 0
up (under d c a u k) = a

abbrev pub plug : Tree → Ctx → Tree
plug t top = t
plug t (under d c a u k) = plug (join d c t a u) k

abbrev pub blacken : Tree → Tree
blacken leaf = leaf
blacken (node c l a r) = node black l a r

unfoldable pub inorder : Tree → List ℕ
inorder leaf = []
inorder (node c l a r) = inorder l ++ (a ∷ inorder r)

-- How often an address occurs.
unfoldable pub occ : ℕ → Tree → ℕ
occ x leaf = 0
occ x (node c l a r) = one x a + (occ x l + occ x r)

unfoldable pub occ_ctx : ℕ → Ctx → ℕ
occ_ctx x top = 0
occ_ctx x (under d c a u k) = one x a + (occ x u + occ_ctx x k)

-- The tree after case 3: `p` above, and `g` below it with `t` and `u`.
abbrev pub rotated : Side → Color → Tree → ℕ → Tree → ℕ → Tree → Tree
rotated d c n p t g u = join d c n p (join d red (blacken t) g u)

-- The subtree on a side.
abbrev pub sub : Side → Tree → Tree
sub d leaf = leaf
sub left (node c l a r) = l
sub right (node c l a r) = r

-- The number of nodes above a place.
abbrev pub depth : Ctx → ℕ
depth top = 0
depth (under d c a u k) = suc (depth k)

-- The root of the whole tree is black, unless the place is the root.
abbrev pub RootBlack : Ctx → Type 0
RootBlack top = Unit
RootBlack (under d c a u top) = c ≡ black
RootBlack (under d c a u (under d' c' a' u' k)) = RootBlack (under d' c' a' u' k)

-- The tree after the rotations at `g`, whose child `p` on side `d` has `t` on side `e`.
abbrev pub rotations : (e d : Side) → Tree → ℕ → Tree → Color → ℕ → Tree → Tree
rotations left left t p x c g u = rotated left c t p x g u
rotations right right t p x c g u = rotated right c t p x g u
rotations right left t p x c g u =
    rotated left c (join left red x p (blacken (sub left t))) (addr t) (sub right t) g u
rotations left right t p x c g u =
    rotated right c (join right red x p (blacken (sub right t))) (addr t) (sub left t) g u

-- What `__rb_insert` does, as a function of the tree: the whole tree after the repair that starts
-- at the red node on top of `t`.
unfoldable pub fix : Tree → Ctx → Tree
fix t top = blacken t
fix t (under e black p x k) = plug t (under e black p x k)
fix t (under e red p x top) = plug t (under e red p x top)
fix t (under e red p x (under d c g (node red l a r) k)) =
    fix (join d red (join e black t p x) g (node black l a r)) k
fix t (under e red p x (under d c g (node black l a r) k)) =
    plug (rotations e d t p x c g (node black l a r)) k
fix t (under e red p x (under d c g leaf k)) = plug (rotations e d t p x c g leaf) k
