-- ===== src/Avl/Insert.antt =====
-- `InsertAvlEntry`, where it does not call `RRRotate`.
use struct.Base.{
  ℕ, ◌+◌, ◌≤◌, ◌<◌, ◌≡◌, ◌≢◌, refl, arith, true, false, some, ◌==◌, ltb, one, occurrences,
  occurrences-append,
}
use struct.Avl.{AvlNode, Cells}
use struct.Avl.Search.{Entry, Tree, leaf, node, depth}
use struct.Avl.Change.{
  ◌>>=◌, load, update, get_height, fix_height, ll_rotate, success, after_left, after_right,
}
use struct.Avl.Shape.{addrs}

-- The tree after the insertion of a range that overlaps none on its way down, where no turn to the
-- left is due.
pub data Inserts (f : Entry) : Tree → Tree → Type 0 where
  at_leaf : Inserts f leaf (node leaf f leaf)
  to_left :
      (l : Tree) (e : Entry) (r a : Tree) (x : Entry) (b : Tree)
      → f.hi < e.lo
      → Inserts f l (node a x b)
      → depth (node a x b) ≢ depth r + 2
      → Inserts f (node l e r) (node (node a x b) e r)
  to_left_rotated :
      (l : Tree) (e : Entry) (r a : Tree) (x : Entry) (b : Tree)
      → f.hi < e.lo
      → Inserts f l (node a x b)
      → depth (node a x b) ≡ depth r + 2
      → f.lo < x.lo
      → Inserts f (node l e r) (node a x (node b e r))
  to_right :
      (l : Tree) (e : Entry) (r a : Tree) (x : Entry) (b : Tree)
      → e.lo ≤ e.hi
      → e.hi < f.lo
      → Inserts f r (node a x b)
      → depth (node a x b) ≢ depth l + 2
      → Inserts f (node l e r) (node l e (node a x b))

pub Inserts-count :
    (f : Entry) (t t' : Tree)
    → Inserts f t t'
    → (z : ℕ) → occurrences z (addrs t') ≡ one z f.addr + occurrences z (addrs t)
unfolding occurrences
Inserts-count f t t' at_leaf z = omega arith
Inserts-count f t t' (to_left l e r a x b lt i ne) z =
    let c = Inserts-count f l (node a x b) i z in
    omega (
      arith,
      c,
      occurrences-append z (addrs l) (addrs r),
      occurrences-append z (addrs (node a x b)) (addrs r),
    )
Inserts-count f t t' (to_left_rotated l e r a x b lt i eq lt') z =
    let c = Inserts-count f l (node a x b) i z in
    omega (
      arith,
      c,
      occurrences-append z (addrs l) (addrs r),
      occurrences-append z (addrs a) (addrs b),
      occurrences-append z (addrs b) (addrs r),
      occurrences-append z (addrs a) (addrs (node b e r)),
    )
Inserts-count f t t' (to_right l e r a x b le lt i ne) z =
    let c = Inserts-count f r (node a x b) i z in
    omega (
      arith,
      c,
      occurrences-append z (addrs l) (addrs r),
      occurrences-append z (addrs l) (addrs (node a x b)),
    )

-- The runs behind the inner call.
module _ (q min_key : ℕ) (t l : AvlNode) (h h1 h2 h3 : Cells) (a b : ℕ) (here : h q ≡ some t)
    (u : update t.left (λ n. record n { parent = q }) h ≡ some (tt, h1))
    (ha : get_height t.left h1 ≡ some (a, h1)) (hb : get_height t.right h1 ≡ some (b, h1))
    (at_l : h1 t.left ≡ some l) where
  pub left_level :
      (a == b + 2) ≡ false
      → fix_height q h1 ≡ some (tt, h2)
      → after_left q min_key h ≡ some ((success, some q), h2)
  unfolding after_left
  left_level level fix = rw (after_left, ◌>>=◌, load, here, u, ha, hb, at_l, level, fix) refl

  pub left_turned :
      (p : ℕ)
      → (a == b + 2) ≡ true
      → ltb min_key l.min_key ≡ true
      → ll_rotate q h1 ≡ some (p, h2)
      → fix_height p h2 ≡ some (tt, h3)
      → after_left q min_key h ≡ some ((success, some p), h3)
  unfolding after_left
  left_turned p level smaller turn fix =
      rw (after_left, ◌>>=◌, load, here, u, ha, hb, at_l, level, smaller, turn, fix) refl

module _ (q min_key : ℕ) (t r : AvlNode) (h h1 h2 : Cells) (a b : ℕ) (here : h q ≡ some t)
    (u : update t.right (λ n. record n { parent = q }) h ≡ some (tt, h1))
    (ha : get_height t.right h1 ≡ some (a, h1)) (hb : get_height t.left h1 ≡ some (b, h1))
    (at_r : h1 t.right ≡ some r) where
  pub right_level :
      (a == b + 2) ≡ false
      → fix_height q h1 ≡ some (tt, h2)
      → after_right q min_key h ≡ some ((success, some q), h2)
  unfolding after_right
  right_level level fix = rw (after_right, ◌>>=◌, load, here, u, ha, hb, at_r, level, fix) refl
