-- ===== src/RbList/Delete.antt =====
-- `rblist__delete` hands every node to `node_delete`, in order, and reads none after that.
use struct.Base.{
  occurrences, ℕ, zero, suc, ◌≤◌, ◌<◌, ◌≡◌, ◌≢◌, ◌∙◌, refl, sym, subst, ap, arith, none, some, List,
  [], ◌∷◌, ◌++◌, length, length-append, ◌==◌, false, All,
}
use struct.RbTree.State.{State, right}
use struct.RbTree.Tree.{Tree, leaf, node, addr, inorder, occ}
use struct.RbTree.Walk.{rb_first, rb_next}
use struct.RbTree.Walk.Laws.{height, first_of_list}
use struct.RbTree.Walk.Order.{Holds, rb_first_lem, walk_right, neighbour_lem}
use struct.RbTree.Erase.{erase}
use struct.RbTree.Erase.Settle.{ne_false}
use struct.RbTree.Order.{occurrences-inorder}
use struct.RbList.{RbList, delete_from, delete}
use struct.RbList.Add.{IsList}
use struct.RbList.Entry.{nodes_ne_null}
use struct.RbList.Remove.{IsDelete, deleted-Rep, erase_node}

-- A tree is not higher than it has nodes.
pub height-le : (t : Tree) → height t ≤ length (inorder t)
unfolding inorder
height-le leaf = omega arith
height-le (node c l a r) =
    omega (arith, height-le l, height-le r, length-append (inorder l) (a ∷ inorder r))

pub IsList-height : (l : RbList) (t : Tree) (xs : List ℕ) → IsList l t xs → height t ≤ length xs
IsList-height l t xs is = omega (arith, height-le t, ap length is.order)

pub list-Holds : {l : RbList} {t : Tree} {xs : List ℕ} → IsList l t xs → Holds l.entries t
list-Holds is = record { rep = is.holds.rep; root = is.holds.root; uniq = is.uniq }

empty_tree : (t : Tree) → inorder t ≡ [] → t ≡ leaf
unfolding inorder
empty_tree leaf e = refl
empty_tree (node c l a r) e = absurd (not_nil (inorder l) e)
  where
    not_nil : (w : List ℕ) → w ++ (a ∷ inorder r) ≢ []
    not_nil [] e' = cc e'
    not_nil (x ∷ w) e' = cc e'

module _ (node_delete : ℕ → State → State) (del : IsDelete node_delete) (fuel : ℕ) where
  -- What is left of the heap once the nodes `xs` are given back.
  abbrev pub Cleared : List ℕ → State → State → Type 0
  Cleared xs s s' =
      (s'.root ≡ 0)
      × ((z : ℕ) → 0 < occurrences z xs → s'.cell z ≡ none)
      × ((z : ℕ) → occurrences z xs ≡ 0 → s'.cell z ≡ s.cell z)

  delete_step :
      (rounds nd next : ℕ) (s s1 s' : State) (pos : List ℕ)
      → nd ≢ 0
      → rb_next fuel nd s ≡ some next
      → erase fuel nd s ≡ some s1
      → delete_from node_delete rounds fuel next (node_delete nd s1) ≡ some (pos, s')
      → delete_from node_delete (suc rounds) fuel nd s ≡ some (nd ∷ pos, s')
  unfolding delete_from
  delete_step rounds nd next s s1 s' pos ne e1 e2 e3 =
      let f : (nd == 0) ≡ false = ne_false nd ne in rw (f, delete_from, e1, e2, e3) refl

  delete_from_lem :
      (rounds : ℕ) (l : RbList) (t : Tree) (xs : List ℕ)
      → length xs < rounds
      → length xs < fuel
      → IsList l t xs
      → (s' : State) × (delete_from node_delete rounds fuel (first_of_list xs) l.entries
          ≡ some (xs, s'))
        × Cleared xs l.entries s'
  unfolding delete_from occurrences
  delete_from_lem zero l t xs h g is = absurd (omega arith)
  delete_from_lem (suc rounds) l t [] h g is = (
    l.entries,
    refl,
    (is.holds.root ∙ ap addr (empty_tree t is.order), λ z i. absurd (omega arith), λ z i. refl),
  )
  delete_from_lem (suc rounds) l t (nd ∷ xs) h g is =
      let high = IsList-height l t (nd ∷ xs) is in
      let ne : nd ≢ 0 =
        (subst (All (λ x. x ≢ 0)) is.order (nodes_ne_null l.entries.cell 0 t is.holds.rep)).0 in
      let next =
        neighbour_lem right fuel nd t l.entries [] xs (list-Holds is) (omega arith)
          (walk_right t ∙ is.order) in
      let (s1, v, run, holds, order, u, fresh, out) =
        erase_node fuel l t [] nd xs (omega arith) is in
      let s2 = node_delete nd s1 in
      let l2 : RbList = record l { entries = s2 } in
      let (s', rest, (root', gone, same)) =
        delete_from_lem rounds l2 v xs (omega arith) (omega arith) (record {
          holds = record {
            rep = deleted-Rep node_delete del nd v s1 fresh holds.rep;
            root = del.same_root nd s1 ∙ holds.root;
            rb = holds.rb;
          };
          order = order;
          uniq = u;
        }) in
      let left : (z : ℕ) → occurrences z xs ≡ occ z v =
        λ z. ap (occurrences z) (sym order) ∙ occurrences-inorder z v in
      let whole : (z : ℕ) → occurrences z (nd ∷ xs) ≡ occ z t =
        λ z. ap (occurrences z) (sym is.order) ∙ occurrences-inorder z t in
      (
        s',
        delete_step rounds nd (first_of_list xs) l.entries s1 s' xs ne next run rest,
        (
          root',
          λ z i. ground (arith, gone z, same z, del.frees nd s1, left nd, fresh),
          λ z i. ground (arith, same z, del.outside nd s1 z, out z, whole z),
        ),
      )

  -- On a list rblist__delete hands each node to node_delete once, in order, ends without reading a
  -- node that was given back, and leaves an empty tree; no cell but those of the nodes has changed.
  pub delete_lem :
      (l : RbList) (t : Tree) (xs : List ℕ)
      → length xs < fuel
      → IsList l t xs
      → (s' : State) × (delete node_delete fuel l ≡ some (xs, s')) × Cleared xs l.entries s'
  unfolding delete
  delete_lem l t xs h is =
      let (s', run, done) = delete_from_lem fuel l t xs h h is in
      let first : rb_first fuel l.entries ≡ some (first_of_list xs) =
        rb_first_lem fuel t l.entries (list-Holds is) (omega (arith, IsList-height l t xs is))
        ∙ ap (λ w. some (first_of_list w)) is.order in
      (s', rw (first, delete) run, done)
