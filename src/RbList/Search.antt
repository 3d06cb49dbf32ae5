-- ===== src/RbList/Search.antt =====
-- The descent of rblist.cpp finds the place of an entry in the order of the nodes.
use struct.Base.{
  ℕ, zero, suc, ◌+◌, ◌≤◌, ◌<◌, ◌≡◌, ◌≢◌, ◌∙◌, refl, sym, subst, ap, arith, some, List, [], ◌∷◌,
  ◌++◌, append_assoc, append-nil, All, All-append,
}
use Prim.Native.Nat.{Ordering}
use struct.RbTree.State.{left, right, State, Slot, child_slot, read_slot}
use struct.RbTree.Tree.{Tree, leaf, node, Ctx, top, under, addr, up, plug, depth, inorder}
use struct.RbTree.Rep.{Rep, RepCtx}
use struct.RbTree.Insertion.{slot_of}
use struct.RbTree.Walk.Laws.{height}
use struct.RbTree.Walk.Place.{before, here, after, cut, item_right, item_left, part}
use struct.RbTree.Order.{lefts, rights}
use struct.RbList.{found, missing, descend}

module _ (node_cmp : ℕ → Ordering) where
  abbrev pub Less : ℕ → Type 0
  Less x = node_cmp x ≡ Ordering.lt

  abbrev pub Greater : ℕ → Type 0
  Greater x = node_cmp x ≡ Ordering.gt

  -- The slot that the descent reads below a place.
  read_slot_lem :
      (k : Ctx) (p : ℕ) (s : State) → RepCtx s.cell s.root p k → read_slot (slot_of k) s ≡ some p
  read_slot_lem top p s rk = ap some rk
  read_slot_lem (under left c a u k) p s rk = rw rk.1
  read_slot_lem (under right c a u k) p s rk = rw rk.1

  descend_step :
      (fuel q parent : ℕ) (p : Slot) (s : State)
      → read_slot p s ≡ some q
      → q ≢ 0
      → ((node_cmp q ≡ Ordering.gt)
          → descend node_cmp (suc fuel) p parent s ≡ descend node_cmp fuel (child_slot left q) q s)
        × ((node_cmp q ≡ Ordering.lt)
            → descend node_cmp (suc fuel) p parent s
              ≡ descend node_cmp fuel (child_slot right q) q s)
        × ((node_cmp q ≡ Ordering.eq) → descend node_cmp (suc fuel) p parent s ≡ some (found q))
  unfolding descend
  descend_step fuel q parent p s e ne = (λ c. ground arith, λ c. ground arith, λ c. ground arith)

  descend_leaf :
      (fuel parent : ℕ) (p : Slot) (s : State)
      → read_slot p s ≡ some 0
      → descend node_cmp (suc fuel) p parent s ≡ some (missing p parent)
  unfolding descend
  descend_leaf fuel parent p s e = ground arith

  -- An entry equal to one node is found there.
  pub descend_found :
      (fuel : ℕ) (t : Tree) (k : Ctx) (s : State) (xs : List ℕ) (m : ℕ) (ys : List ℕ)
      → height t < fuel
      → Rep s.cell (up k) t
      → RepCtx s.cell s.root (addr t) k
      → inorder t ≡ xs ++ (m ∷ ys)
      → All Less xs
      → node_cmp m ≡ Ordering.eq
      → All Greater ys
      → descend node_cmp fuel (slot_of k) (up k) s ≡ some (found m)
  unfolding inorder
  descend_found fuel leaf k s [] m ys h rt rk e lt eq gt = absurd (cc e)
  descend_found fuel leaf k s (x ∷ xs) m ys h rt rk e lt eq gt = absurd (cc e)
  descend_found zero (node c l a r) k s xs m ys h rt rk e lt eq gt = absurd (omega arith)
  descend_found (suc fuel) (node c l a r) k s xs m ys h rt rk e lt eq gt =
      let step = descend_step fuel a (up k) (slot_of k) s (read_slot_lem k a s rk) rt.0 in
      elim (cut (inorder l) a (inorder r) xs m ys e) [
        | before zs p q ↦
            step.0 ((All-append Greater zs (a ∷ inorder r) (subst (All Greater) q gt)).1.0)
            ∙ descend_found fuel l (under left c a r k) s xs m zs (omega arith) rt.2
                (rt.0, rt.1, rt.3, rk) p lt eq
                ((All-append Greater zs (a ∷ inorder r) (subst (All Greater) q gt)).0)
        | here w p q ↦ step.2 (ap node_cmp p ∙ eq) ∙ ap (λ n. some (found n)) p
        | after zs o p ↦
            step.1 ((All-append Less (inorder l) (a ∷ zs) (subst (All Less) o lt)).1.0)
            ∙ descend_found fuel r (under right c a l k) s zs m ys (omega arith) rt.3
                (rt.0, rt.1, rt.2, rk) p
                ((All-append Less (inorder l) (a ∷ zs) (subst (All Less) o lt)).1.1) eq gt
      ]

  -- The place of an entry between the nodes `xs` that compare less and the nodes `ys` that compare
  -- greater.
  abbrev pub Between : ℕ → Tree → Ctx → State → List ℕ → List ℕ → Type 0
  Between fuel t k s xs ys =
      (k' : Ctx) × (descend node_cmp fuel (slot_of k) (up k) s
        ≡ some (missing (slot_of k') (up k')))
      × (plug leaf k' ≡ plug t k)
      × (lefts k' ≡ lefts k ++ xs)
      × (rights k' ≡ ys ++ rights k)
      × (depth k' ≤ height t + depth k)

  pub descend_missing :
      (fuel : ℕ) (t : Tree) (k : Ctx) (s : State) (xs ys : List ℕ)
      → height t < fuel
      → Rep s.cell (up k) t
      → RepCtx s.cell s.root (addr t) k
      → inorder t ≡ xs ++ ys
      → All Less xs
      → All Greater ys
      → Between fuel t k s xs ys
  unfolding inorder
  descend_missing zero t k s xs ys h rt rk e lt gt = absurd (omega arith)
  descend_missing (suc fuel) leaf k s [] [] h rt rk e lt gt = (
    k,
    descend_leaf fuel (up k) (slot_of k) s (read_slot_lem k 0 s rk),
    refl,
    sym (append-nil (lefts k)),
    refl,
    omega arith,
  )
  descend_missing (suc fuel) leaf k s [] (y ∷ ys) h rt rk e lt gt = absurd (cc e)
  descend_missing (suc fuel) leaf k s (x ∷ xs) ys h rt rk e lt gt = absurd (cc e)
  descend_missing (suc fuel) (node c l a r) k s xs ys h rt rk e lt gt =
      let step = descend_step fuel a (up k) (slot_of k) s (read_slot_lem k a s rk) rt.0 in
      elim (part (inorder l) a (inorder r) xs ys e) [
        | item_right zs p q ↦
            let gs = All-append Greater zs (a ∷ inorder r) (subst (All Greater) q gt) in
            let (k', run, whole, ls, rs, d) =
              descend_missing fuel l (under left c a r k) s xs zs (omega arith) rt.2
                (rt.0, rt.1, rt.3, rk) p lt gs.0 in
            (
              k',
              step.0 gs.1.0 ∙ run,
              whole,
              ls,
              rs
                  ∙ sym (append_assoc zs (a ∷ inorder r) (rights k))
                  ∙ ap (λ w. w ++ rights k) (sym q),
              omega arith,
            )
        | item_left zs o p ↦
            let ls = All-append Less (inorder l) (a ∷ zs) (subst (All Less) o lt) in
            let (k', run, whole, ls', rs, d) =
              descend_missing fuel r (under right c a l k) s zs ys (omega arith) rt.3
                (rt.0, rt.1, rt.2, rk) p ls.1.1 gt in
            (
              k',
              step.1 ls.1.0 ∙ run,
              whole,
              ls'
                  ∙ append_assoc (lefts k) (inorder l ++ (a ∷ [])) zs
                  ∙ ap (λ w. lefts k ++ w) (append_assoc (inorder l) (a ∷ []) zs ∙ sym o),
              rs,
              omega arith,
            )
      ]
