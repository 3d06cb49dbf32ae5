-- ===== src/Avl.antt =====
-- avltree.cpp, on a heap of nodes; the reads are here. A node holds the keys from `min_key` to
-- `max_key`; its `balance_factor` is never used. NULL is 0, `bytes` is what `data` points to, and
-- `none` is a fault, an access to an address without a node.
pub mod Search
pub mod Ends
pub mod Change
pub mod Remove
pub mod Shape
pub mod Rotate
pub mod Insert
pub mod Hang
pub mod Grow
pub mod Place
mod Tests
use struct.Base.{ℕ, zero, suc, ◌&&◌, Option, none, some, List, ◌==◌, ltb, leb, if◌then◌else◌}

pub record AvlNode : Type 0 where
  pub min_key : ℕ
  pub max_key : ℕ
  pub left : ℕ
  pub right : ℕ
  pub parent : ℕ
  pub height : ℕ
  pub data_len : ℕ
  pub bytes : List ℕ

abbrev pub Cells : Type 0
Cells = ℕ → Option AvlNode

-- The loops of `GetMinAvlEntry` and `GetMaxAvlEntry`; `child` is the field that they follow.
unfoldable pub far_end : (child : AvlNode → ℕ) → (fuel tree : ℕ) → Cells → Option ℕ
far_end child zero tree h = none
far_end child (suc fuel) tree h = elim (h tree) [
  | none ↦ none
  | some n ↦ if child n == 0 then some tree else far_end child fuel (child n) h
]

unfoldable pub get_min_entry : (fuel tree : ℕ) → Cells → Option ℕ
get_min_entry fuel tree h = if tree == 0 then some 0 else far_end (λ n. n.left) fuel tree h

unfoldable pub get_max_entry : (fuel tree : ℕ) → Cells → Option ℕ
get_max_entry fuel tree h = if tree == 0 then some 0 else far_end (λ n. n.right) fuel tree h

-- `FindAvlEntry`: the node, or NULL.
unfoldable pub find_entry : (fuel tree key : ℕ) → Cells → Option ℕ
find_entry zero tree key h = none
find_entry (suc fuel) tree key h = if tree == 0 then some 0 else (elim (h tree) [
  | none ↦ none
  | some n ↦
      if leb n.min_key key && leb key n.max_key
      then some tree
      else (if ltb key n.min_key
          then find_entry fuel n.left key h
          else find_entry fuel n.right key h)
])
