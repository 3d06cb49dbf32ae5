-- ===== src/RbTree/Tests.antt =====
-- Insertions on a concrete heap, and the theorem of RbTree/Insertion there.
use struct.Base.{
  one, ℕ, ◌+◌, ◌≡◌, refl, arith, Option, none, some, List, [], ◌∷◌, ◌==◌, if◌then◌else◌,
}
use struct.RbTree.State.{red, black, left, right, RbNode, State, Returns, ◌>>◌, link_node}
use struct.RbTree.Tree.{Tree, leaf, node, Ctx, top, under, plug, inorder, occ, occ_ctx}
use struct.RbTree.Rep.{cell_of}
use struct.RbTree.Insert.{insert_color, loop, turn, turn_at, flip, when_red}
use struct.RbTree.Insertion.{insertion, slot_of, HoldsRb}

-- 20 over 10 and 30, both red, and the free node 40.
abbrev heap : ℕ → Option RbNode
heap x =
    if x == 20
    then some (cell_of left 0 black 10 30)
    else if x == 10
    then some (cell_of left 20 red 0 0)
    else if x == 30
    then some (cell_of left 20 red 0 0)
    else if x == 40
    then some (cell_of left 0 black 0 0)
    else none

abbrev three : State
three = record { cell = heap; root = 20 }

abbrev right_of_30 : Ctx
right_of_30 = under right red 30 leaf (under right black 20 (node red leaf 10 leaf) top)

-- The nodes 10 and 30 turn black, and the root stays black.
after_40 : Option State → List (Option RbNode)
after_40 none = []
after_40 (some s) = s.cell 20 ∷ s.cell 10 ∷ s.cell 30 ∷ s.cell 40 ∷ []

flip_40 :
    after_40 ((link_node 40 30 (slot_of right_of_30) >> insert_color 5 40) three)
    ≡ some (cell_of left 0 black 10 30)
      ∷ some (cell_of left 20 black 0 0)
      ∷ some (cell_of left 20 black 0 40)
      ∷ some (cell_of left 30 red 0 0)
      ∷ []
unfolding after_40 link_node insert_color loop turn turn_at flip when_red
flip_40 = refl

insertion_example :
    Returns
      (λ s'.
        (t : Tree) × HoldsRb s' t
        × (inorder t ≡ inorder (plug (node red leaf 40 leaf) right_of_30))
        × ((z : ℕ) → one z 40 + occ_ctx z right_of_30 ≡ 0 → s'.cell z ≡ heap z))
      ((link_node 40 30 (slot_of right_of_30) >> insert_color 3 40) three)
unfolding occ_ctx occ
insertion_example =
    insertion 3 40 right_of_30 three (omega arith) (omega arith) refl
      (omega arith, refl, tt, (omega arith, refl, (omega arith, refl, tt, tt), refl))
      (tt, tt, tt, tt, ((tt, tt, tt, tt), (tt, tt), tt)) (λ z. ground arith)
