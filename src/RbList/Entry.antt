-- ===== src/RbList/Entry.antt =====
-- `rblist__entry` indexes the nodes in order.
use struct.Base.{
  ℕ, zero, suc, ◌<◌, ◌≡◌, ◌≢◌, ◌∙◌, refl, sym, ap, arith, some, List, [], ◌∷◌, ◌++◌, append_assoc,
  get_or, All, All-append_intro,
}
use struct.RbTree.State.{State, right}
use struct.RbTree.Tree.{Tree, leaf, node, inorder}
use struct.RbTree.Rep.{Cells, Rep}
use struct.RbTree.Walk.{rb_next}
use struct.RbTree.Walk.Laws.{height, first_of_list}
use struct.RbTree.Walk.Order.{Holds, rb_first_lem, walk_right, neighbour_lem}
use struct.RbList.{RbList, entry, entry_from}
use struct.RbList.Add.{IsList}

pub nodes_ne_null : (h : Cells) (q : ℕ) (t : Tree) → Rep h q t → All (λ x. x ≢ 0) (inorder t)
unfolding inorder
nodes_ne_null h q leaf rep = tt
nodes_ne_null h q (node c l a r) (ne, e, rl, rr) =
    All-append_intro (λ x. x ≢ 0) (inorder l) (a ∷ inorder r) (nodes_ne_null h a l rl)
      (ne, nodes_ne_null h a r rr)

entry_step :
    (fuel idx nd next : ℕ) (s : State)
    → nd ≢ 0
    → rb_next fuel nd s ≡ some next
    → entry_from fuel (suc idx) nd s ≡ entry_from fuel idx next s
unfolding entry_from
entry_step fuel idx nd next s ne e = ground arith

entry_from_lem :
    (fuel idx : ℕ) (t : Tree) (s : State) (seen rest : List ℕ)
    → Holds s t
    → height t < fuel
    → inorder t ≡ seen ++ rest
    → All (λ x. x ≢ 0) rest
    → entry_from fuel idx (first_of_list rest) s ≡ some (get_or rest idx 0)
unfolding entry_from
entry_from_lem fuel zero t s seen [] h le e ne = refl
entry_from_lem fuel zero t s seen (x ∷ rest) h le e ne = refl
entry_from_lem fuel (suc idx) t s seen [] h le e ne = refl
entry_from_lem fuel (suc idx) t s seen (x ∷ rest) h le e ne =
    entry_step fuel idx x (first_of_list rest) s ne.0
      (neighbour_lem right fuel x t s seen rest h le (walk_right t ∙ e))
    ∙ entry_from_lem fuel idx t s (seen ++ (x ∷ [])) rest h le
        (e ∙ sym (append_assoc seen (x ∷ []) rest)) ne.1

-- `rblist__entry` returns the node with the given index in order, NULL beyond the last; fuel above
-- the height of the tree is enough for each of its steps.
pub entry_lem :
    (fuel idx : ℕ) (l : RbList) (t : Tree) (xs : List ℕ)
    → IsList l t xs
    → height t < fuel
    → entry fuel idx l ≡ some (get_or xs idx 0)
unfolding entry
entry_lem fuel idx l t xs is le =
    let h : Holds l.entries t = record {
      rep = is.holds.rep;
      root = is.holds.root;
      uniq = is.uniq;
    } in
    rw (rb_first_lem fuel t l.entries h (omega arith), entry)
      (entry_from_lem fuel idx t l.entries [] (inorder t) h le refl
          (nodes_ne_null l.entries.cell 0 t is.holds.rep)
        ∙ ap (λ w. some (get_or w idx 0)) is.order)
