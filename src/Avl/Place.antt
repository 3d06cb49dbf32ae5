-- ===== src/Avl/Place.antt =====
-- The order of the ranges after `InsertAvlEntry`.
use struct.Base.{
  ℕ, ◌+◌, ◌≤◌, ◌<◌, ◌≡◌, ◌≢◌, ◌∙◌, refl, sym, ap, subst, arith, some, List, [], ◌∷◌, ◌++◌,
  append_assoc, All, All-append_intro, All_mono, one, occurrences,
}
use struct.Avl.{Cells}
use struct.Avl.Search.{Entry, Tree, node, root, depth, entries, Ordered, Ordered-split}
use struct.Avl.Shape.{addrs, Stands}
use struct.Avl.Change.{insert_entry}
use struct.Avl.Insert.{Inserts, at_leaf, to_left, to_left_rotated, to_right}
use struct.Avl.Hang.{Done}
use struct.Avl.Grow.{insert_entry_run}

-- The new range stands between those below and those above it.
pub record Placed (f : Entry) (old new : List Entry) : Type 0 where
  pub below : List Entry
  pub above : List Entry
  pub old_order : old ≡ below ++ above
  pub new_order : new ≡ below ++ (f ∷ above)
  pub all_below : All (λ g. g.hi < f.lo) below
  pub all_above : All (λ g. f.hi < g.lo) above

place_left :
    (f : Entry) (old new : List Entry) (e : Entry) (fs : List Entry)
    → f.hi < e.lo
    → e.lo ≤ e.hi
    → All (λ g. e.hi < g.lo) fs
    → Placed f old new
    → Placed f (old ++ (e ∷ fs)) (new ++ (e ∷ fs))
place_left f old new e fs lt le above p = record {
  below = p.below;
  above = p.above ++ (e ∷ fs);
  old_order = ap (λ w. w ++ (e ∷ fs)) p.old_order ∙ append_assoc p.below p.above (e ∷ fs);
  new_order = ap (λ w. w ++ (e ∷ fs)) p.new_order ∙ append_assoc p.below (f ∷ p.above) (e ∷ fs);
  all_below = p.all_below;
  all_above =
      All-append_intro (λ g. f.hi < g.lo) p.above (e ∷ fs) p.all_above
        (lt, All_mono fs (λ g o. omega (arith, lt, le, o)) above);
}

place_right :
    (f : Entry) (old new : List Entry) (e : Entry) (es : List Entry)
    → e.hi < f.lo
    → e.lo ≤ e.hi
    → All (λ g. g.hi < e.lo) es
    → Placed f old new
    → Placed f (es ++ (e ∷ old)) (es ++ (e ∷ new))
place_right f old new e es lt le below p = record {
  below = es ++ (e ∷ p.below);
  above = p.above;
  old_order = ap (λ w. es ++ (e ∷ w)) p.old_order ∙ sym (append_assoc es (e ∷ p.below) p.above);
  new_order =
      ap (λ w. es ++ (e ∷ w)) p.new_order ∙ sym (append_assoc es (e ∷ p.below) (f ∷ p.above));
  all_below =
      All-append_intro (λ g. g.hi < f.lo) es (e ∷ p.below)
        (All_mono es (λ g o. omega (arith, lt, le, o)) below) (lt, p.all_below);
  all_above = p.all_above;
}

Inserts-Placed :
    (f : Entry) (t t' : Tree)
    → Inserts f t t'
    → Ordered (entries t)
    → Placed f (entries t) (entries t')
Inserts-Placed f t t' at_leaf o = record {
  below = [];
  above = [];
  old_order = refl;
  new_order = refl;
  all_below = tt;
  all_above = tt;
}
Inserts-Placed f t t' (to_left l e r a x b lt i level) o =
    let (ol, below, le, above, or) = Ordered-split (entries l) e (entries r) o in
    place_left f (entries l) (entries (node a x b)) e (entries r) lt le above
      (Inserts-Placed f l (node a x b) i ol)
Inserts-Placed f t t' (to_left_rotated l e r a x b lt i level smaller) o =
    let (ol, below, le, above, or) = Ordered-split (entries l) e (entries r) o in
    subst (Placed f (entries l ++ (e ∷ entries r)))
      (append_assoc (entries a) (x ∷ entries b) (e ∷ entries r))
      (place_left f (entries l) (entries (node a x b)) e (entries r) lt le above
        (Inserts-Placed f l (node a x b) i ol))
Inserts-Placed f t t' (to_right l e r a x b le' lt i level) o =
    let (ol, below, le, above, or) = Ordered-split (entries l) e (entries r) o in
    place_right f (entries r) (entries (node a x b)) e (entries l) lt le below
      (Inserts-Placed f r (node a x b) i or)

-- On a tree of ordered ranges with its heights, each of whose nodes stands at its own address, with a
-- block from `malloc` that is not in the tree and fuel above the height of the tree, InsertAvlEntry of
-- a range that overlaps none on its way down, where no turn to the left is due, returns 0 and the root
-- of the tree with the range between those below and those above it, turned to the right where the
-- left subtree is too high, with its heights; only nodes of the tree and the block are written.
pub insert_in_order :
    (f : Entry) (bytes : List ℕ) (fuel : ℕ) (h : Cells) (t t' : Tree)
    → Inserts f t t'
    → f.addr ≢ 0
    → f.lo ≤ f.hi
    → Stands h t
    → Ordered (entries t)
    → ((z : ℕ) → one z f.addr + occurrences z (addrs t) ≤ 1)
    → depth t < fuel
    → Done h t'
        (insert_entry fuel (some f.addr) f.lo f.hi bytes (root t))
        (λ z. one z f.addr + occurrences z (addrs t))
      × Placed f (entries t) (entries t')
insert_in_order f bytes fuel h t t' i nil proper s o once lt =
    (insert_entry_run f bytes nil proper fuel h t t' i s once lt, Inserts-Placed f t t' i o)
