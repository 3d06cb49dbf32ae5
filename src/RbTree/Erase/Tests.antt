-- ===== src/RbTree/Erase/Tests.antt =====
-- `__rb_erase_color` and `rb_erase` on concrete heaps, and their theorems there.
use struct.Base.{ℕ, ◌+◌, refl, arith, Option, none, some, [], ◌∷◌, ◌==◌, if◌then◌else◌}
use struct.RbTree.State.{red, black, left, RbNode, State, Returns}
use struct.RbTree.Tree.{Tree, leaf, node, Ctx, top, under, inorder, occ, occ_ctx}
use struct.RbTree.Rep.{cell_of}
use struct.RbTree.Erase.{erase_color, erase}
use struct.RbTree.Erase.Settle.{Mended}
use struct.RbTree.Erase.Loop.{erase_color_mends}
use struct.RbTree.Erase.Erasure.{erasure}

-- A black node has gone from the left of 20, whose other child 40 is red, over 30, which has the red
-- child 25, and 50.
abbrev heap : ℕ → Option RbNode
heap x =
    if x == 20
    then some (cell_of left 0 black 0 40)
    else if x == 40
    then some (cell_of left 20 red 30 50)
    else if x == 30
    then some (cell_of left 40 black 25 0)
    else if x == 25
    then some (cell_of left 30 red 0 0)
    else if x == 50
    then some (cell_of left 40 black 0 0)
    else none

abbrev broken : State
broken = record { cell = heap; root = 20 }

abbrev place : Ctx
place =
    under left black 20
      (node red (node black (node red leaf 25 leaf) 30 leaf) 40 (node black leaf 50 leaf)) top

erase_color_mends_example :
    Returns
      (Mended (20 ∷ 25 ∷ 30 ∷ 40 ∷ 50 ∷ []) (λ z. occ z leaf + occ_ctx z place) broken)
      (erase_color 1 0 20 broken)
unfolding inorder occ occ_ctx
erase_color_mends_example =
    erase_color_mends 1 leaf place 0 broken (omega arith) (λ e. absurd (omega arith)) tt (tt, tt)
      (((tt, tt, ((tt, tt, tt, tt), tt), (tt, tt))), (((tt, tt), tt), (tt, tt)), tt) tt
      (
        λ e. absurd (omega arith),
        refl,
        (
          λ e. absurd (omega arith),
          refl,
          (λ e. absurd (omega arith), refl, (λ e. absurd (omega arith), refl, tt, tt), tt),
          (λ e. absurd (omega arith), refl, tt, tt),
        ),
        refl,
      )
      (λ z. ground arith)

-- The same tree with the black node 10 on the left of 20.
abbrev whole : State
whole = record {
  cell = λ x.
      if x == 20
      then some (cell_of left 0 black 10 40)
      else if x == 10
      then some (cell_of left 20 black 0 0)
      else heap x;
  root = 20;
}

abbrev left_of_20 : Tree
left_of_20 = node black leaf 10 leaf

abbrev right_of_20 : Tree
right_of_20 = node red (node black (node red leaf 25 leaf) 30 leaf) 40 (node black leaf 50 leaf)

-- The node 20 goes, and 25 takes its place.
erasure_example :
    Returns
      (Mended
        (10 ∷ 25 ∷ 30 ∷ 40 ∷ 50 ∷ [])
        (λ z. occ z (node black left_of_20 20 right_of_20) + occ_ctx z top)
        whole)
      (erase 4 20 whole)
unfolding inorder occ occ_ctx
erasure_example =
    erasure 4 black left_of_20 20 right_of_20 top whole (omega arith)
      (
        λ e. absurd (omega arith),
        refl,
        (λ e. absurd (omega arith), refl, tt, tt),
        (
          λ e. absurd (omega arith),
          refl,
          (λ e. absurd (omega arith), refl, (λ e. absurd (omega arith), refl, tt, tt), tt),
          (λ e. absurd (omega arith), refl, tt, tt),
        ),
      )
      refl
      (record {
        root_black = tt;
        no_red_red = ((tt, tt), (tt, tt, ((tt, tt, tt, tt), tt), (tt, tt)));
        height = 2;
        balanced = ((tt, tt), ((((tt, tt), tt)), (tt, tt)));
      })
      (λ z. ground arith)
