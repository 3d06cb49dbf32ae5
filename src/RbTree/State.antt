-- ===== src/RbTree/State.antt =====
-- Nodes on a heap, and the accessors of rbtree.h and rbtree_augmented.h. A pointer is an address
-- and NULL is 0. `__rb_parent_color` is held as its two parts, the parent and the colour bit;
-- RbTree/Word shows that the packed word has the same accessors. `none` is a fault: an access
-- through a pointer to no node, or a `rb_red_parent` of a black node, whose word is no pointer.
use struct.Base.{ℕ, Bool, true, false, not, Option, none, some, ◌==◌, if◌then◌else◌}

pub data Color : Type 0 where
  red black : Color

-- The two children: rbtree.c treats them by two copies of its code, one the mirror of the other.
pub data Side : Type 0 where
  left right : Side

abbrev pub other : Side → Side
other left = right
other right = left

pub record RbNode : Type 0 where
  pub parent : ℕ
  pub color : Color
  pub rb_right : ℕ
  pub rb_left : ℕ

abbrev pub is_red : RbNode → Bool
is_red n = elim n.color [ red ↦ true | black ↦ false ]

abbrev pub child : Side → RbNode → ℕ
child left n = n.rb_left
child right n = n.rb_right

abbrev pub with_child : Side → ℕ → RbNode → RbNode
with_child left p n = record n { rb_left = p }
with_child right p n = record n { rb_right = p }

-- `root` is the field of `struct rb_root`.
pub record State : Type 0 where
  pub cell : ℕ → Option RbNode
  pub root : ℕ

abbrev pub Cmd : Type 0
Cmd = State → Option State

infixr 5 ◌>>◌
unfoldable pub ◌>>◌ : Cmd → Cmd → Cmd
◌>>◌ m k s = elim (m s) [ none ↦ none | some s' ↦ k s' ]

-- Reads the node at `p`, and goes on with it.
abbrev pub load : ℕ → (RbNode → Cmd) → Cmd
load p k s = elim (s.cell p) [ none ↦ none | some n ↦ k n s ]

abbrev pub skip : Cmd
skip s = some s

abbrev pub write : (ℕ → Option RbNode) → ℕ → RbNode → ℕ → Option RbNode
write h p n x = if x == p then some n else h x

abbrev pub store : ℕ → RbNode → State → State
store p n s = record s { cell = write s.cell p n }

-- A run that ends without a fault, in a state with the property `P`.
pub data Returns (P : State → Type 0) : Option State → Type 0 where
  returns : {s : State} → P s → Returns P (some s)

unfoldable pub modify : ℕ → (RbNode → RbNode) → Cmd
modify p f s = elim (s.cell p) [ none ↦ none | some n ↦ some (store p (f n) s) ]

abbrev pub set_child : Side → ℕ → ℕ → Cmd
set_child d p q = modify p (with_child d q)

abbrev pub set_parent : ℕ → ℕ → Cmd
set_parent rb p = modify rb (λ n. record n { parent = p })

abbrev pub set_parent_color : ℕ → ℕ → Color → Cmd
set_parent_color rb p c = modify rb (λ n. record n { parent = p; color = c })

abbrev pub set_black : ℕ → Cmd
set_black rb = modify rb (λ n. record n { color = black })

abbrev pub red_parent : RbNode → (ℕ → Cmd) → Cmd
red_parent n k s = if is_red n then k n.parent s else none

-- `if (tmp) rb_set_parent_color(tmp, p, RB_BLACK)`
abbrev pub set_black_child : ℕ → ℕ → Cmd
set_black_child tmp p = if tmp == 0 then skip else set_parent_color tmp p black

unfoldable pub change_child : (old new parent : ℕ) → Cmd
change_child old new parent =
    if not (parent == 0)
    then (load parent
        λ n. if n.rb_left == old then set_child left parent new else set_child right parent new)
    else λ s. some (record s { root = new })

unfoldable pub rotate_set_parents : (old new : ℕ) → Color → Cmd
unfolding change_child modify ◌>>◌
rotate_set_parents old new color = load old λ o.
    modify new (λ n. record n { parent = o.parent; color = o.color })
    >> set_parent_color old new color
    >> change_child old new o.parent

-- A `struct rb_node**`: the place in the tree where a pointer is kept.
pub data Slot : Type 0 where
  root_slot : Slot
  child_slot : Side → ℕ → Slot

abbrev pub read_slot : Slot → State → Option ℕ
read_slot root_slot s = some s.root
read_slot (child_slot d p) s = elim (s.cell p) [ none ↦ none | some n ↦ some (child d n) ]

abbrev pub write_slot : Slot → ℕ → Cmd
write_slot root_slot q = λ s. some (record s { root = q })
write_slot (child_slot d p) q = set_child d p q

-- `rb_link_node`: the new node is red, since its word is the bare pointer to its parent.
unfoldable pub link_node : (node parent : ℕ) → Slot → Cmd
unfolding modify ◌>>◌
link_node node parent rb_link =
    modify node (λ n. record { parent = parent; color = red; rb_right = 0; rb_left = 0 })
    >> write_slot rb_link node
