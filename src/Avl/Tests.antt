-- ===== src/Avl/Tests.antt =====
-- A tree of three ranges.
use struct.Base.{
  ℕ, ◌+◌, ◌≡◌, refl, arith, Option, none, some, [], ◌∷◌, ◌==◌, if◌then◌else◌, one, occurrences,
}
use struct.Avl.{AvlNode, Cells, find_entry, get_min_entry, get_max_entry}
use struct.Avl.Search.{Entry, Tree, leaf, node, entries, Rep, holder, find_entry_lem}
use struct.Avl.Ends.{ends_lem}
use struct.Avl.Change.{insert_entry}
use struct.Avl.Shape.{addrs}
use struct.Avl.Insert.{at_leaf, to_left, to_left_rotated}
use struct.Avl.Hang.{Done}
use struct.Avl.Place.{Placed, insert_in_order}

abbrev cell : (min_key max_key left right parent height : ℕ) → Option AvlNode
cell min_key max_key left right parent height = some (record {
  min_key = min_key;
  max_key = max_key;
  left = left;
  right = right;
  parent = parent;
  height = height;
  data_len = 0;
  bytes = [];
})

abbrev cells : Cells
cells x =
    if x == 8
    then cell 20 29 16 24 0 1
    else if x == 16
    then cell 5 9 0 0 8 0
    else if x == 24
    then cell 30 30 0 0 8 0
    else none

abbrev tree : Tree
tree =
    node (node leaf (record { addr = 16; lo = 5; hi = 9 }) leaf)
      (record { addr = 8; lo = 20; hi = 29 })
      (node leaf (record { addr = 24; lo = 30; hi = 30 }) leaf)

tree-Rep : Rep cells tree
tree-Rep = (
  omega arith,
  (_, refl, refl, refl, refl, refl),
  (omega arith, (_, refl, refl, refl, refl, refl), tt, tt),
  (omega arith, (_, refl, refl, refl, refl, refl), tt, tt),
)

find_entry_lem_example : find_entry 3 8 7 cells ≡ some 16
unfolding holder
find_entry_lem_example =
    find_entry_lem cells 7 3 tree tree-Rep
      (
        omega arith,
        (omega arith, (omega arith, tt)),
        (omega arith, (omega arith, tt), (omega arith, tt, tt)),
      )
      (omega arith)

both_ends : (get_min_entry 2 8 cells ≡ some 16) × (get_max_entry 2 8 cells ≡ some 24)
both_ends = ends_lem cells 2 tree tree-Rep (omega arith)

-- Two ranges, the second one on the left.
abbrev leaning_cells : Cells
leaning_cells x = if x == 8 then cell 20 29 16 0 0 1 else if x == 16 then cell 5 9 0 0 8 0 else none

abbrev leaning : Tree
leaning =
    node (node leaf (record { addr = 16; lo = 5; hi = 9 }) leaf)
      (record { addr = 8; lo = 20; hi = 29 }) leaf

abbrev new_range : Entry
new_range = record { addr = 32; lo = 1; hi = 2 }

abbrev turned : Tree
turned =
    node (node leaf new_range leaf) (record { addr = 16; lo = 5; hi = 9 })
      (node leaf (record { addr = 8; lo = 20; hi = 29 }) leaf)

insert_in_order_example :
    Done leaning_cells turned
      (insert_entry 3 (some 32) 1 2 (7 ∷ []) 8)
      (λ z. one z 32 + occurrences z (addrs leaning))
    × Placed new_range (entries leaning) (entries turned)
unfolding occurrences
insert_in_order_example =
    insert_in_order new_range (7 ∷ []) 3 leaning_cells leaning turned
      (to_left_rotated (node leaf (record { addr = 16; lo = 5; hi = 9 }) leaf)
        (record { addr = 8; lo = 20; hi = 29 }) leaf (node leaf new_range leaf)
        (record { addr = 16; lo = 5; hi = 9 }) leaf (omega arith)
        (to_left leaf (record { addr = 16; lo = 5; hi = 9 }) leaf leaf new_range leaf (omega arith)
          at_leaf (λ e. omega (arith, e)))
        refl (omega arith))
      (λ e. omega (arith, e)) (omega arith)
      (
        λ e. omega (arith, e),
        (_, refl, (refl, refl, refl, refl, refl)),
        (λ e. omega (arith, e), (_, refl, (refl, refl, refl, refl, refl)), tt, tt),
        tt,
      )
      (omega arith, (omega arith, tt), (omega arith, tt, tt)) (λ z. ground arith) (omega arith)
