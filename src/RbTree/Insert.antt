-- ===== src/RbTree/Insert.antt =====
-- `__rb_insert`: the loop that restores the colours after a red node has been linked in.
-- Its augmentation callback is `dummy_rotate`, which does nothing.
use struct.Base.{ℕ, zero, suc, not, none, ◌==◌, if◌then◌else◌}
use struct.RbTree.State.{
  red, black, Side, left, right, other, is_red, child, Cmd, ◌>>◌, load, skip, set_child,
  set_parent_color, set_black_child, red_parent, rotate_set_parents,
}

-- Case 3: `parent` takes the place of `gparent`, whose child on side `d` becomes `tmp`.
unfoldable pub rotate : Side → (parent gparent tmp : ℕ) → Cmd
rotate d parent gparent tmp =
    ((set_child d gparent tmp >> set_child (other d) parent gparent) >> set_black_child tmp gparent)
    >> rotate_set_parents gparent parent red

-- Case 2: `node` takes the place of `parent`, then case 3 with their roles exchanged.
unfoldable pub rotate_inner : Side → (node parent gparent : ℕ) → Cmd
unfolding rotate
rotate_inner d node parent gparent = load node λ n.
    let tmp = child d n in
    (((set_child (other d) parent tmp >> set_child d node parent) >> set_black_child tmp parent)
      >> set_parent_color parent node red)
    >> load node λ n'. rotate d node gparent (child (other d) n')

-- `tmp && rb_is_red(tmp)`
unfoldable pub when_red : ℕ → Cmd → Cmd → Cmd
when_red tmp flip rot = if tmp == 0 then rot else load tmp λ t. if is_red t then flip else rot

-- Case 1: the colour flip, and the rounds that go on from `gparent`, whose parent they are given.
unfoldable pub flip : (again : ℕ → Cmd) → (tmp parent gparent : ℕ) → Cmd
flip again tmp parent gparent =
    set_parent_color tmp gparent black
    >> set_parent_color parent gparent black
    >> load gparent λ g'. set_parent_color gparent g'.parent red >> again g'.parent

-- Cases 2 and 3: `node` may be the inner child of `parent`.
unfoldable pub turn_at : Side → (node parent gparent : ℕ) → Cmd
turn_at d node parent gparent = load parent λ p.
    let tmp = child (other d) p in
    if node == tmp then rotate_inner d node parent gparent else rotate d parent gparent tmp

-- One round below a red `parent` on side `d` of `gparent`.
unfoldable pub turn : Side → (again : ℕ → Cmd) → (node parent gparent : ℕ) → Cmd
turn d again node parent gparent = load gparent λ g.
    let tmp = child (other d) g in
    when_red tmp (flip again tmp parent gparent) (turn_at d node parent gparent)

-- The rounds of the loop, at most `fuel`.
unfoldable pub loop : ℕ → (node parent : ℕ) → Cmd
loop zero node parent = λ s. none
loop (suc fuel) node parent =
    if parent == 0
    then set_parent_color node 0 black
    else load parent λ p.
      if not (is_red p)
      then skip
      else red_parent p λ gparent. load gparent λ g.
        turn (if not (parent == g.rb_right) then left else right) (loop fuel gparent) node parent
          gparent

-- `rb_insert_color`
unfoldable pub insert_color : ℕ → ℕ → Cmd
unfolding loop
insert_color fuel node = load node λ n. red_parent n λ parent. loop fuel node parent
