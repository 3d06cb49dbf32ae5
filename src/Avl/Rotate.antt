-- ===== src/Avl/Rotate.antt =====
-- `LLRotate`.
use struct.Base.{
  ℕ, ◌+◌, ◌≤◌, ◌≡◌, ◌≢◌, ◌∙◌, refl, sym, subst, arith, max, true, false, some, ◌==◌, one,
  occurrences, occurrences-append,
}
use struct.Avl.{AvlNode, Cells}
use struct.Avl.Search.{Entry, Tree, node, root, depth}
use struct.Avl.Change.{◌>>=◌, put, load, update, fix_height, set_parent_if, ll_rotate}
use struct.Avl.Shape.{addrs, Stands, put-Stands, fix_height_lem, set_parent_lem, update_run}

-- The run of the writes.
module _ (q : ℕ) (t r : AvlNode) (h h1 h2 h3 h4 h5 h6 : Cells) (here : h q ≡ some t) where
  run_left :
      h t.left ≡ some r
      → update t.left (λ n. record n { parent = t.parent }) h ≡ some (tt, h1)
      → update q (λ m. record m { parent = t.left; left = r.right }) h1 ≡ some (tt, h2)
      → set_parent_if r.right q h2 ≡ some (tt, h3)
      → update t.left (λ n. record n { right = q }) h3 ≡ some (tt, h4)
      → fix_height q h4 ≡ some (tt, h5)
      → fix_height t.left h5 ≡ some (tt, h6)
      → ll_rotate q h ≡ some (t.left, h6)
  unfolding ll_rotate
  run_left at u1 u2 u3 u4 u5 u6 = rw (ll_rotate, ◌>>=◌, load, here, at, u1, u2, u3, u4, u5, u6) refl

  ll_rotate_run :
      (p : ℕ)
      → t.left ≡ p
      → h p ≡ some r
      → update p (λ n. record n { parent = t.parent }) h ≡ some (tt, h1)
      → update q (λ m. record m { parent = p; left = r.right }) h1 ≡ some (tt, h2)
      → set_parent_if r.right q h2 ≡ some (tt, h3)
      → update p (λ n. record n { right = q }) h3 ≡ some (tt, h4)
      → fix_height q h4 ≡ some (tt, h5)
      → fix_height p h5 ≡ some (tt, h6)
      → ll_rotate q h ≡ some (p, h6)
  ll_rotate_run p nl =
      subst
        (λ p.
          h p ≡ some r
          → update p (λ n. record n { parent = t.parent }) h ≡ some (tt, h1)
          → update q (λ m. record m { parent = p; left = r.right }) h1 ≡ some (tt, h2)
          → set_parent_if r.right q h2 ≡ some (tt, h3)
          → update p (λ n. record n { right = q }) h3 ≡ some (tt, h4)
          → fix_height q h4 ≡ some (tt, h5)
          → fix_height p h5 ≡ some (tt, h6)
          → ll_rotate q h ≡ some (p, h6))
        nl run_left

module _ (h : Cells) (y : Entry) (ny : AvlNode) (here : h y.addr ≡ some ny) (lo : ny.min_key ≡ y.lo)
    (hi : ny.max_key ≡ y.hi) (not_nil : y.addr ≢ 0) (a : Tree) (x : Entry) (b c : Tree)
    (nl : ny.left ≡ x.addr) (nr : ny.right ≡ root c) (sx : Stands h (node a x b)) (sc : Stands h c)
    (once : (z : ℕ)
      → one z y.addr
          + (one z x.addr
              + (occurrences z (addrs a) + (occurrences z (addrs b) + occurrences z (addrs c))))
        ≤ 1) where
  abbrev p : ℕ
  p = x.addr

  abbrev q : ℕ
  q = y.addr

  abbrev nx : AvlNode
  nx = sx.1.0

  apart : ((p == q) ≡ false) × ((q == p) ≡ false)
  apart = (grind (arith, once p), grind (arith, once p))

  -- The nodes of the subtrees are others.
  out :
      ((occurrences p (addrs a) ≡ 0)
        × (occurrences p (addrs b) ≡ 0)
        × (occurrences p (addrs c) ≡ 0))
      × ((occurrences q (addrs a) ≡ 0)
          × (occurrences q (addrs b) ≡ 0)
          × (occurrences q (addrs c) ≡ 0))
  out = (
    (grind (arith, once p), grind (arith, once p), grind (arith, once p)),
    (grind (arith, once q), grind (arith, once q), grind (arith, once q)),
  )

  -- LLRotate makes the left child of a node its parent, with the heights of both set; of the nodes only
  -- those of the tree change.
  pub ll_rotate_lem :
      (h' : Cells) × (ll_rotate y.addr h ≡ some (x.addr, h'))
      × Stands h' (node a x (node b y c))
      × ((z : ℕ) → one z q + (one z p + occurrences z (addrs b)) ≡ 0 → h' z ≡ h z)
  unfolding ll_rotate occurrences
  ll_rotate_lem =
      let (x0, (n, ax, fields), sa, sb) = sx in
      let (xlo, xhi, xl, xr, xh) = fields in
      let ((pa, pb, pc), (qa, qb, qc)) = out in
      let (pq, qp) = apart in
      let pp : (p == p) ≡ true = ground arith in
      let qq : (q == q) ≡ true = ground arith in
      let n1 : AvlNode = record n { parent = ny.parent } in
      let h1 = put p n1 h in
      let u1 = update_run p (λ n. record n { parent = ny.parent }) n h ax in
      let m2 : AvlNode = record ny { parent = p; left = n.right } in
      let h2 = put q m2 h1 in
      let u2 = update_run q (λ m. record m { parent = p; left = n.right }) ny h1 (rw qp here) in
      let keep2 : (t : Tree)
          → occurrences p (addrs t) ≡ 0
          → occurrences q (addrs t) ≡ 0
          → Stands h t
          → Stands h2 t =
        λ t op oq s. put-Stands h1 q m2 t oq (put-Stands h p n1 t op s) in
      let (h3, u3', keep3, same3) = set_parent_lem h2 b q (keep2 b pb qb sb) in
      let u3 : set_parent_if n.right q h2 ≡ some (tt, h3) =
        subst (λ w. set_parent_if w q h2 ≡ some (tt, h3)) (sym xr) u3' in
      let ax3 : h3 p ≡ some n1 = same3 p pb ∙ rw (pq, pp) refl in
      let ay3 : h3 q ≡ some m2 = same3 q qb ∙ rw qq refl in
      let n4 : AvlNode = record n1 { right = q } in
      let h4 = put p n4 h3 in
      let u4 = update_run p (λ n. record n { right = q }) n1 h3 ax3 in
      let keep4 : (t : Tree)
          → occurrences p (addrs t) ≡ 0
          → occurrences q (addrs t) ≡ 0
          → Stands h t
          → Stands h4 t =
        λ t op oq s. put-Stands h3 p n4 t op (keep3 t (keep2 t op oq s)) in
      let m5 : AvlNode = record m2 { height = max (depth b) (depth c) } in
      let h5 = put q m5 h4 in
      let u5 = fix_height_lem h4 q m2 b c (rw qp ay3) xr nr (keep4 b pb qb sb) (keep4 c pc qc sc) in
      let keep5 : (t : Tree)
          → occurrences p (addrs t) ≡ 0
          → occurrences q (addrs t) ≡ 0
          → Stands h t
          → Stands h5 t =
        λ t op oq s. put-Stands h4 q m5 t oq (keep4 t op oq s) in
      let sy : Stands h5 (node b y c) =
        (not_nil, (m5, rw qq refl, (lo, hi, xr, nr, refl)), keep5 b pb qb sb, keep5 c pc qc sc) in
      let n6 : AvlNode = record n4 { height = max (depth a) (depth (node b y c)) } in
      let u6 =
        fix_height_lem h5 p n4 a (node b y c) (rw (pq, pp) refl) xl refl (keep5 a pa qa sa) sy in
      let p_out : occurrences p (addrs (node b y c)) ≡ 0 =
        grind (arith, pb, pc, pq, occurrences-append p (addrs b) (addrs c)) in
      (
        put p n6 h5,
        ll_rotate_run q ny n h h1 h2 h3 h4 h5 (put p n6 h5) here p nl ax u1 u2 u3 u4 u5 u6,
        (
          x0,
          (n6, rw pp refl, (xlo, xhi, xl, refl, refl)),
          put-Stands h5 p n6 a pa (keep5 a pa qa sa),
          put-Stands h5 p n6 (node b y c) p_out sy,
        ),
        λ z o.
            let zp : (z == p) ≡ false = ground (arith, o) in
            let zq : (z == q) ≡ false = ground (arith, o) in
            let e6 : put p n6 h5 z ≡ h5 z = rw zp refl in
            let e5 : h5 z ≡ h4 z = rw zq refl in
            let e4 : h4 z ≡ h3 z = rw zp refl in
            let e2 : h2 z ≡ h1 z = rw zq refl in
            let e1 : h1 z ≡ h z = rw zp refl in e6 ∙ e5 ∙ e4 ∙ same3 z (omega (arith, o)) ∙ e2 ∙ e1,
      )
