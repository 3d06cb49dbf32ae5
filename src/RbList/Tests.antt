-- ===== src/RbList/Tests.antt =====
-- Descents, additions, removals and indexing on a concrete list, and the theorems of RbList/Add,
-- RbList/Remove, RbList/Delete and RbList/Entry there.
use struct.Base.{ℕ, ◌≡◌, refl, arith, Option, none, some, [], ◌∷◌, ◌==◌, if◌then◌else◌}
use Prim.Native.Nat.{compare}
use struct.RbTree.State.{red, black, left, RbNode, State}
use struct.RbTree.Tree.{Tree, leaf, node, inorder, occ}
use struct.RbTree.Rep.{cell_of}
use struct.RbTree.Walk.{extreme, climb, end_of, neighbour, rb_next, rb_prev, rb_first, rb_last}
use struct.RbTree.Walk.Laws.{first_of_list}
use struct.RbTree.Walk.Order.{walks_in_order}
use struct.RbList.{RbList, success, eexist, enomem, find, add_node, remove_node, delete, entry}
use struct.RbList.Add.{IsList, add_node-eexist, add_node-enomem, add_node-success}
use struct.RbList.Entry.{entry_lem}
use struct.RbList.Remove.{IsDelete, remove_node_lem}
use struct.RbList.Delete.{Cleared, delete_lem}

-- 20 over 10 and 30; a node is compared by its address.
abbrev cells : ℕ → Option RbNode
cells x =
    if x == 20
    then some (cell_of left 0 black 10 30)
    else if x == 10
    then some (cell_of left 20 red 0 0)
    else if x == 30
    then some (cell_of left 20 red 0 0)
    else none

abbrev three : RbList
three = record { entries = record { cell = cells; root = 20 }; nr_entries = 3 }

abbrev tree : Tree
tree = node black (node red leaf 10 leaf) 20 (node red leaf 30 leaf)

abbrev blank : RbNode
blank = cell_of left 0 red 0 0

three-IsList : IsList three tree (10 ∷ 20 ∷ 30 ∷ [])
unfolding inorder occ
three-IsList = record {
  holds = record {
    rep = (omega arith, refl, (omega arith, refl, tt, tt), (omega arith, refl, tt, tt));
    root = refl;
    rb = record {
      root_black = tt;
      no_red_red = ((tt, tt, tt, tt), (tt, tt, tt, tt));
      height = 1;
      balanced = ((tt, tt), (tt, tt));
    };
  };
  order = refl;
  uniq = λ z. ground arith;
}

walk_three :
    (rb_first 3 three.entries ≡ some 10)
    × (rb_next 3 10 three.entries ≡ some 20)
    × (rb_next 3 20 three.entries ≡ some 30)
    × (rb_next 3 30 three.entries ≡ some 0)
unfolding end_of neighbour extreme climb
walk_three = (refl, refl, refl, refl)

walks_in_order_example :
    (rb_next 3 20 three.entries ≡ some 30)
    × (rb_prev 3 20 three.entries ≡ some 10)
    × (rb_first 3 three.entries ≡ some (first_of_list (inorder tree)))
    × (rb_last 3 three.entries ≡ some 30)
unfolding inorder
walks_in_order_example =
    walks_in_order 3 20 tree three.entries (10 ∷ []) (30 ∷ [])
      (record { rep = three-IsList.holds.rep; root = refl; uniq = three-IsList.uniq }) (omega arith)
      refl

entry_lem_example : entry 3 2 three ≡ some 30
entry_lem_example = entry_lem 3 2 three tree (10 ∷ 20 ∷ 30 ∷ []) three-IsList (omega arith)

add_node-eexist_example :
    (find (λ n. compare n 20) 3 three ≡ some 20)
    × (add_node (λ n. compare n 20) 3 none three ≡ some (eexist, three))
add_node-eexist_example =
    add_node-eexist (λ n. compare n 20) 3 three tree (omega arith) (10 ∷ []) 20 (30 ∷ []) none
      three-IsList (refl, tt) refl (refl, tt)

add_node-enomem_example :
    (find (λ n. compare n 25) 3 three ≡ some 0)
    × (add_node (λ n. compare n 25) 3 none three ≡ some (enomem, three))
add_node-enomem_example =
    add_node-enomem (λ n. compare n 25) 3 three tree (omega arith) (10 ∷ 20 ∷ []) (30 ∷ [])
      three-IsList (refl, (refl, tt)) (refl, tt)

add_node-success_example :
    (l' : RbList) × (t' : Tree) × (add_node (λ n. compare n 25) 3 (some (25, blank)) three
      ≡ some (success, l'))
    × IsList l' t' (10 ∷ 20 ∷ 25 ∷ 30 ∷ [])
    × (l'.nr_entries ≡ 4)
unfolding occ
add_node-success_example =
    add_node-success (λ n. compare n 25) 3 three tree (omega arith) (10 ∷ 20 ∷ []) (30 ∷ [])
      three-IsList (refl, (refl, tt)) (refl, tt) 25 blank (omega arith) refl

abbrev free_cell : ℕ → State → State
free_cell nd s = record s { cell = λ x. if x == nd then none else s.cell x }

free_cell-IsDelete : IsDelete free_cell
free_cell-IsDelete = record {
  outside = λ nd s z ne. ground arith;
  frees = λ nd s. ground arith;
  same_root = λ nd s. refl;
}

-- 20 goes, and the count stays at 3.
remove_node_lem_example :
    (l' : RbList) × (v : Tree) × (remove_node free_cell 2 20 three ≡ some l')
    × IsList l' v (10 ∷ 30 ∷ [])
    × (l'.nr_entries ≡ 3)
remove_node_lem_example =
    remove_node_lem 2 three tree (10 ∷ []) 20 (30 ∷ []) (omega arith) three-IsList free_cell
      free_cell-IsDelete

delete_lem_example :
    (s' : State) × (delete free_cell 4 three ≡ some (10 ∷ 20 ∷ 30 ∷ [], s'))
    × Cleared free_cell free_cell-IsDelete 4 (10 ∷ 20 ∷ 30 ∷ []) three.entries s'
delete_lem_example =
    delete_lem free_cell free_cell-IsDelete 4 three tree (10 ∷ 20 ∷ 30 ∷ []) (omega arith)
      three-IsList
