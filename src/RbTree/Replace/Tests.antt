-- ===== src/RbTree/Replace/Tests.antt =====
-- `rb_replace_node` on a concrete heap.
use struct.Base.{ℕ, ◌+◌, ◌≡◌, refl, arith, Option, none, some, ◌==◌, if◌then◌else◌}
use struct.RbTree.State.{red, black, left, RbNode, State, Returns}
use struct.RbTree.Tree.{Tree, leaf, node, top, occ, occ_ctx}
use struct.RbTree.Rep.{cell_of, Rep}
use struct.RbTree.Replace.{replace_node, replace_node_lem}

-- 20 over 10 and 30, both red, and the free node 40.
abbrev heap : ℕ → Option RbNode
heap x =
    if x == 20
    then some (cell_of left 0 black 10 30)
    else if x == 10
    then some (cell_of left 20 red 0 0)
    else if x == 30
    then some (cell_of left 20 red 0 0)
    else if x == 40
    then some (cell_of left 0 black 0 0)
    else none

abbrev three : State
three = record { cell = heap; root = 20 }

abbrev l10 : Tree
l10 = node red leaf 10 leaf

abbrev r30 : Tree
r30 = node red leaf 30 leaf

replace_node_lem_example :
    Returns
      (λ s'.
        Rep s'.cell 0 (node black l10 40 r30)
        × (s'.root ≡ 40)
        × ((z : ℕ)
            → (if z == 40 then 1 else 0) + (occ z (node black l10 20 r30) + 0) ≡ 0
            → s'.cell z ≡ three.cell z))
      (replace_node 20 40 three)
unfolding occ occ_ctx
replace_node_lem_example =
    replace_node_lem 40 black l10 20 r30 top three (λ e. absurd (omega arith)) refl
      (
        λ e. absurd (omega arith),
        refl,
        (λ e. absurd (omega arith), refl, tt, tt),
        (λ e. absurd (omega arith), refl, tt, tt),
      )
      refl (λ z. ground arith)
