-- ===== src/RbTree/Erase.antt =====
-- `rb_erase_augmented` of rbtree_augmented.h and `__rb_erase_color` of rbtree.c, with the callbacks of
-- `rb_erase`, which do nothing. `d` is the side of `parent` on which `node` is: the source has the
-- code twice, with left and right exchanged.
pub mod Sides
pub mod Raise
pub mod RaiseInner
pub mod Lower
pub mod Balance
pub mod Settle
pub mod Round
pub mod Loop
pub mod Vacate
pub mod Segment
pub mod Successor
pub mod Seek
pub mod Erasure
mod Tests
use struct.Base.{ℕ, zero, suc, not, none, ◌==◌, if◌then◌else◌}
use struct.RbTree.State.{
  red, black, Side, left, right, other, RbNode, is_red, child, Cmd, ◌>>◌, load, skip, modify,
  set_child, set_parent, set_parent_color, set_black, set_black_child, change_child,
  rotate_set_parents,
}
use struct.RbTree.Insert.{when_red}

-- `if (tmp2) rb_set_parent(tmp2, parent)`
abbrev pub set_parent_child : (tmp p : ℕ) → Cmd
set_parent_child tmp p = if tmp == 0 then skip else set_parent tmp p

-- Case 4: a rotation at `parent`, and the colour of `tmp1`, the far child of `sibling`.
unfoldable pub raise : Side → (tmp1 sibling parent : ℕ) → Cmd
raise d tmp1 sibling parent = load sibling λ s.
    let tmp2 = child d s in
    (((set_child (other d) parent tmp2 >> set_child d sibling parent)
        >> set_parent_color tmp1 sibling black)
      >> set_parent_child tmp2 parent)
    >> rotate_set_parents parent sibling black

-- Case 3: a rotation at `sibling`, whose near child `tmp2` takes its place, then case 4.
unfoldable pub raise_inner : Side → (tmp2 sibling parent : ℕ) → Cmd
unfolding raise
raise_inner d tmp2 sibling parent = load tmp2 λ n.
    let tmp1 = child (other d) n in
    (((set_child d sibling tmp1 >> set_child (other d) tmp2 sibling)
        >> set_child (other d) parent tmp2)
      >> set_black_child tmp1 sibling)
    >> raise d sibling tmp2 parent

-- Case 2: the colour flip of `sibling`, and the rounds that go on from `parent`.
unfoldable pub lighten : (again : ℕ → ℕ → Cmd) → (sibling parent : ℕ) → Cmd
lighten again sibling parent =
    set_parent_color sibling parent red
    >> load parent λ p.
      if is_red p then set_black parent else (if p.parent == 0 then skip else again parent p.parent)

-- Cases 2, 3 and 4, below a black `sibling`.
unfoldable pub settle : Side → (again : ℕ → ℕ → Cmd) → (sibling parent : ℕ) → Cmd
settle d again sibling parent = load sibling λ s.
    let tmp1 = child (other d) s in
    let tmp2 = child d s in
    when_red tmp1 (raise d tmp1 sibling parent)
      (when_red tmp2 (raise_inner d tmp2 sibling parent) (lighten again sibling parent))

-- Case 1: a rotation at `parent` that gives it the near child `tmp1` of `sibling`.
unfoldable pub lower : Side → (tmp1 sibling parent : ℕ) → Cmd
lower d tmp1 sibling parent =
    ((set_child (other d) parent tmp1 >> set_child d sibling parent)
      >> set_parent_color tmp1 parent black)
    >> rotate_set_parents parent sibling red

-- One round.
unfoldable pub refill_at : Side → (again : ℕ → ℕ → Cmd) → (sibling parent : ℕ) → Cmd
refill_at d again sibling parent = load sibling λ s.
    if is_red s
    then (lower d (child d s) sibling parent >> settle d again (child d s) parent)
    else settle d again sibling parent

-- The rounds of `__rb_erase_color`, at most `fuel`; the first has a NULL `node`.
unfoldable pub erase_color : ℕ → (node parent : ℕ) → Cmd
erase_color zero node parent = λ s. none
erase_color (suc fuel) node parent = load parent λ p.
    if not (node == p.rb_right)
    then refill_at left (erase_color fuel) p.rb_right parent
    else refill_at right (erase_color fuel) p.rb_left parent

-- `if (rebalance) __rb_erase_color(rebalance, root, augment->rotate)`
unfoldable pub rebalance_from : ℕ → (rebalance : ℕ) → Cmd
rebalance_from fuel rebalance = if rebalance == 0 then skip else erase_color fuel 0 rebalance

-- `child->__rb_parent_color = pc`, with the word `pc` of the node `n`.
abbrev pub copy_word : ℕ → RbNode → Cmd
copy_word p n = modify p (λ m. record m { parent = n.parent; color = n.color })

-- Case 1 of `rb_erase_augmented`: no child on the left.
unfoldable pub splice_right : ℕ → ℕ → RbNode → Cmd
splice_right fuel node n =
    change_child node n.rb_right n.parent
    >> (if not (n.rb_right == 0)
        then copy_word n.rb_right n
        else (if is_red n then skip else rebalance_from fuel n.parent))

-- Still case 1: the child is `n->rb_left`.
unfoldable pub splice_left : ℕ → RbNode → Cmd
splice_left node n = copy_word n.rb_left n >> change_child node n.rb_left n.parent

-- `successor` takes the place of `node`, and `child2` has that of `successor` below `parent`.
unfoldable pub replace_by : ℕ → (node successor child2 parent : ℕ) → Cmd
replace_by fuel node successor child2 parent =
    (load node λ n. set_child left successor n.rb_left >> set_parent n.rb_left successor)
    >> load node λ n.
      change_child node successor n.parent
      >> load successor λ s.
        if not (child2 == 0)
        then (copy_word successor n >> set_parent_color child2 parent black)
        else (copy_word successor n >> (if is_red s then skip else rebalance_from fuel parent))

-- The search of case 3 for the leftmost node below `child`, and what is done there.
unfoldable pub seek_successor : ℕ → (parent successor : ℕ) → (ℕ → ℕ → RbNode → Cmd) → Cmd
seek_successor zero parent successor k = λ s. none
seek_successor (suc fuel) parent successor k =
    load successor λ s.
      if s.rb_left == 0 then k parent successor s else seek_successor fuel successor s.rb_left k

-- Cases 2 and 3: two children.
unfoldable pub erase_inner : ℕ → ℕ → RbNode → Cmd
erase_inner fuel node n = load n.rb_right λ y.
    if y.rb_left == 0
    then replace_by fuel node n.rb_right y.rb_right n.rb_right
    else seek_successor fuel n.rb_right y.rb_left λ parent successor s.
      ((set_child left parent s.rb_right >> set_child right successor n.rb_right)
        >> set_parent n.rb_right successor)
      >> replace_by fuel node successor s.rb_right parent

-- `rb_erase`
unfoldable pub erase : ℕ → ℕ → Cmd
erase fuel node = load node λ n.
    if n.rb_left == 0
    then splice_right fuel node n
    else (if n.rb_right == 0 then splice_left node n else erase_inner fuel node n)
