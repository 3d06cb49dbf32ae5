-- ===== src/RbTree/Word.antt =====
-- `__rb_parent_color`: a pointer to a node, whose last two bits are clear since nodes are aligned,
-- and the colour in its last bit. The accessors of rbtree.h and rbtree_augmented.h on the word, and
-- that they are those of the two fields in RbTree/State.
mod Tests
use struct.Base.{ℕ, ◌+◌, ◌-◌, ◌%◌, ◌≡◌, ◌≤◌, ◌<◌, max, arith}
use struct.RbTree.State.{Color, red, black}

-- `RB_RED` and `RB_BLACK`.
abbrev pub bit : Color → ℕ
bit red = 0
bit black = 1

-- `word | b` for a bit `b`.
abbrev pub or_bit : ℕ → ℕ → ℕ
or_bit w b = w - w % 2 + max (w % 2) b

unfoldable pub word_parent : ℕ → ℕ
word_parent pc = pc - pc % 4

unfoldable pub word_color : ℕ → ℕ
word_color pc = pc % 2

unfoldable pub word_set_parent : (pc p : ℕ) → ℕ
unfolding word_color
word_set_parent pc p = or_bit p (word_color pc)

unfoldable pub word_set_parent_color : (p : ℕ) → Color → ℕ
word_set_parent_color p c = or_bit p (bit c)

unfoldable pub word_set_black : ℕ → ℕ
word_set_black pc = or_bit pc (bit black)

-- For aligned pointers `p` and `q`, the word that `rb_set_parent_color` writes holds `p` and the
-- colour; `rb_set_parent` on it changes the pointer alone and `rb_set_black` the colour alone; and
-- the word of a red node is the pointer itself, as `rb_red_parent` reads it.
pub word_fields :
    (p q : ℕ) (c : Color)
    → p % 4 ≡ 0
    → q % 4 ≡ 0
    → (word_parent (word_set_parent_color p c) ≡ p)
      × (word_color (word_set_parent_color p c) ≡ bit c)
      × (word_set_parent (word_set_parent_color p c) q ≡ word_set_parent_color q c)
      × (word_set_black (word_set_parent_color p c) ≡ word_set_parent_color p black)
      × (word_set_parent_color p red ≡ p)
unfolding word_parent word_set_parent word_set_parent_color word_set_black
word_fields p q red hp hq = omega arith
word_fields p q black hp hq = omega arith
