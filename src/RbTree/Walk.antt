-- ===== src/RbTree/Walk.antt =====
-- `rb_first`, `rb_last`, `rb_next` and `rb_prev`. Each pair is one function of a side: the code of
-- the second is that of the first with left and right exchanged. They only read the heap; `none`
-- is a fault or a loop that runs out of fuel.
pub mod Laws
pub mod Place
pub mod Order
use struct.Base.{ℕ, zero, suc, not, ◌&&◌, Option, none, some, ◌==◌, if◌then◌else◌}
use struct.RbTree.State.{Side, left, right, other, RbNode, is_red, child, State}

abbrev pub Query : Type 0
Query = State → Option ℕ

abbrev pub look : ℕ → (RbNode → Query) → Query
look p k s = elim (s.cell p) [ none ↦ none | some n ↦ k n s ]

-- `while (n->rb_left) n = n->rb_left; return n;` on side `d`.
unfoldable pub extreme : Side → ℕ → ℕ → Query
extreme d zero n = λ s. none
extreme d (suc fuel) n =
    look n λ m. if child d m == 0 then (λ s. some n) else extreme d fuel (child d m)

-- `while ((parent = rb_parent(node)) && node == parent->rb_right) node = parent; return parent;`
unfoldable pub climb : Side → ℕ → ℕ → Query
climb d zero node = λ s. none
climb d (suc fuel) node = look node λ m.
    if m.parent == 0
    then (λ s. some 0)
    else look m.parent
        λ p. if node == child d p then climb d fuel m.parent else (λ s. some m.parent)

-- `rb_first` on the left side, `rb_last` on the right.
unfoldable pub end_of : Side → ℕ → Query
end_of d fuel s = if s.root == 0 then some 0 else extreme d fuel s.root s

-- `rb_next` on the right side, `rb_prev` on the left.
unfoldable pub neighbour : Side → ℕ → ℕ → Query
neighbour d fuel node = look node λ m.
    if m.parent == node && is_red m
    then (λ s. some 0)
    else if not (child d m == 0)
    then extreme (other d) fuel (child d m)
    else climb d fuel node

abbrev pub rb_first : ℕ → Query
rb_first = end_of left

abbrev pub rb_last : ℕ → Query
rb_last = end_of right

abbrev pub rb_next : ℕ → ℕ → Query
rb_next = neighbour right

abbrev pub rb_prev : ℕ → ℕ → Query
rb_prev = neighbour left
