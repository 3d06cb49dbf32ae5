-- ===== src/Avl/Ends.antt =====
-- The ends of a tree.
use struct.Base.{
  ℕ, zero, suc, ◌≤◌, ◌≡◌, ◌∙◌, refl, sym, ap, arith, true, false, some, List, [], ◌∷◌, ◌++◌, ◌==◌,
}
use struct.Avl.{Cells, far_end, get_min_entry, get_max_entry}
use struct.Avl.Search.{Entry, Tree, leaf, node, root, depth, entries, Rep}

abbrev pub first_addr : List Entry → ℕ
first_addr [] = 0
first_addr (e ∷ es) = e.addr

abbrev pub last_addr : List Entry → ℕ
last_addr [] = 0
last_addr (e ∷ []) = e.addr
last_addr (e ∷ f ∷ es) = last_addr (f ∷ es)

first_left :
    (l : Tree) (e : Entry) (r : Tree) (es : List Entry)
    → first_addr (entries (node l e r) ++ es) ≡ first_addr (entries (node l e r))
first_left leaf e r es = refl
first_left (node l' e' r') e r es =
    ap first_addr (assoc (entries (node l' e' r')) (e ∷ entries r) es)
    ∙ first_left l' e' r' ((e ∷ entries r) ++ es)
    ∙ sym (first_left l' e' r' (e ∷ entries r))
  where
    assoc : (xs ys zs : List Entry) → (xs ++ ys) ++ zs ≡ xs ++ (ys ++ zs)
    assoc [] ys zs = refl
    assoc (x ∷ xs) ys zs = ap (λ w. x ∷ w) (assoc xs ys zs)

last_right :
    (es : List Entry) (f : Entry) (fs : List Entry)
    → last_addr (es ++ (f ∷ fs)) ≡ last_addr (f ∷ fs)
last_right [] f fs = refl
last_right (e ∷ []) f fs = refl
last_right (e ∷ e' ∷ es) f fs = last_right (e' ∷ es) f fs

last_node :
    (l : Tree) (e : Entry) (r : Tree) (f : Entry)
    → last_addr (f ∷ entries (node l e r)) ≡ last_addr (entries (node l e r))
last_node leaf e r f = refl
last_node (node l' e' r') e r f =
    last_right (f ∷ entries (node l' e' r')) e (entries r)
    ∙ sym (last_right (entries (node l' e' r')) e (entries r))

module _ (h : Cells) where
  far_left :
      (fuel : ℕ) (l : Tree) (e : Entry) (r : Tree)
      → Rep h (node l e r)
      → depth (node l e r) ≤ fuel
      → far_end (λ n. n.left) fuel e.addr h ≡ some (first_addr (entries (node l e r)))
  unfolding far_end
  far_left zero l e r rep lt = absurd (omega arith)
  far_left (suc fuel) leaf e r (ne, (n, at, lo, hi, nl, nr), rl, rr) lt =
      let stop : (n.left == 0) ≡ true = ground (arith, nl) in rw (at, far_end, stop) refl
  far_left (suc fuel) (node l' e' r') e r (ne, (n, at, lo, hi, nl, nr), rl, rr) lt =
      let on : (n.left == 0) ≡ false = ground (arith, nl, rl.0) in
      rw (at, far_end, on, nl, far_left fuel l' e' r' rl (omega arith))
        (ap some (sym (first_left l' e' r' (e ∷ entries r))))

  far_right :
      (fuel : ℕ) (l : Tree) (e : Entry) (r : Tree)
      → Rep h (node l e r)
      → depth (node l e r) ≤ fuel
      → far_end (λ n. n.right) fuel e.addr h ≡ some (last_addr (entries (node l e r)))
  unfolding far_end
  far_right zero l e r rep lt = absurd (omega arith)
  far_right (suc fuel) l e leaf (ne, (n, at, lo, hi, nl, nr), rl, rr) lt =
      let stop : (n.right == 0) ≡ true = ground (arith, nr) in
      rw (at, far_end, stop) (ap some (sym (last_right (entries l) e [])))
  far_right (suc fuel) l e (node l' e' r') (ne, (n, at, lo, hi, nl, nr), rl, rr) lt =
      let on : (n.right == 0) ≡ false = ground (arith, nr, rr.0) in
      rw (at, far_end, on, nr, far_right fuel l' e' r' rr (omega arith))
        (ap some (sym (last_right (entries l) e (entries (node l' e' r')) ∙ last_node l' e' r' e)))

  -- GetMinAvlEntry and GetMaxAvlEntry return the first and the last node of a tree in order, and
  -- NULL for no tree; fuel for the height of the tree is enough.
  pub ends_lem :
      (fuel : ℕ) (t : Tree)
      → Rep h t
      → depth t ≤ fuel
      → (get_min_entry fuel (root t) h ≡ some (first_addr (entries t)))
        × (get_max_entry fuel (root t) h ≡ some (last_addr (entries t)))
  unfolding get_min_entry get_max_entry
  ends_lem fuel leaf rep lt = (refl, refl)
  ends_lem fuel (node l e r) rep lt =
      let here : (e.addr == 0) ≡ false = ground (arith, rep.0) in
      (
        rw (here, get_min_entry) (far_left fuel l e r rep lt),
        rw (here, get_max_entry) (far_right fuel l e r rep lt),
      )
