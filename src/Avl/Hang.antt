-- ===== src/Avl/Hang.antt =====
-- The hanging of a subtree that `InsertAvlEntry` made below its parent, and what follows.
use struct.Base.{
  ℕ, ◌+◌, ◌≤◌, ◌<◌, ◌≡◌, ◌≢◌, ◌∙◌, refl, sym, subst, arith, true, false, Option, some, ◌==◌, ltb,
  one, occurrences, occurrences-append,
}
use struct.Avl.{AvlNode, Cells}
use struct.Avl.Search.{Entry, Tree, node, root, depth}
use struct.Avl.Change.{
  ◌>>=◌, put, update, get_height, Errno, success, set_left, set_right, after_left, after_right,
}
use struct.Avl.Shape.{
  addrs, Stands, put-Stands, parent-Stands, get_height_lem, fix_height-Stands, update_run,
}
use struct.Avl.Rotate.{ll_rotate_lem}
use struct.Avl.Insert.{left_level, left_turned, right_level}

not_equal : (m n : ℕ) → m ≢ n → (m == n) ≡ false
not_equal m n ne = ground (arith, ne)

equal : (m n : ℕ) → m ≡ n → (m == n) ≡ true
equal m n eq = ground (arith, eq)

smaller_than : (m n : ℕ) → m < n → ltb m n ≡ true
smaller_than m n lt = ground (arith, lt)

-- What a call of `InsertAvlEntry` on a subtree leaves, up to the nodes that it does not touch.
abbrev pub Done : Cells → Tree → ((Cells → Option ((Errno × Option ℕ) × Cells))) → (ℕ → ℕ) → Type 0
Done h t' run touched =
    (h' : Cells) × (run h ≡ some ((success, some (root t')), h'))
    × Stands h' t'
    × ((z : ℕ) → touched z ≡ 0 → h' z ≡ h z)

module _ (h : Cells) (e : Entry) (n : AvlNode) (ne : e.addr ≢ 0) (at : h e.addr ≡ some n)
    (lo : n.min_key ≡ e.lo) (hi : n.max_key ≡ e.hi) (a : Tree) (x : Entry) (b : Tree) (c : Tree)
    (sx : Stands h (node a x b)) (sc : Stands h c)
    (once : (z : ℕ)
      → one z e.addr
          + (one z x.addr
              + (occurrences z (addrs a) + (occurrences z (addrs b) + occurrences z (addrs c))))
        ≤ 1)
    (min_key : ℕ) where
  abbrev q : ℕ
  q = e.addr

  apart : ((q == x.addr) ≡ false) × ((x.addr == q) ≡ false)
  apart = (grind (arith, once q), grind (arith, once q))

  away :
      (occurrences q (addrs (node a x b)) ≡ 0)
      × (occurrences q (addrs c) ≡ 0)
      × (occurrences x.addr (addrs a) ≡ 0)
      × (occurrences x.addr (addrs (node b e c)) ≡ 0)
  unfolding occurrences
  away = (
    grind (arith, once q, occurrences-append q (addrs a) (addrs b)),
    grind (arith, once q),
    grind (arith, once x.addr),
    grind (arith, once x.addr, occurrences-append x.addr (addrs b) (addrs c)),
  )

  abbrev Hung : AvlNode → Type 0
  Hung m =
      (h3 : Cells) × (nx : AvlNode) × (update x.addr (λ n. record n { parent = q }) (put q m h)
        ≡ some (tt, h3))
      × (h3 q ≡ some m)
      × (h3 x.addr ≡ some nx)
      × (nx.min_key ≡ x.lo)
      × Stands h3 (node a x b)
      × Stands h3 c
      × ((z : ℕ) → one z q + one z x.addr ≡ 0 → h3 z ≡ h z)

  -- The subtree hangs from its parent.
  hung : (m : AvlNode) → Hung m
  hung m =
      let (x0, (nx, ax, fields), sa, sb) = sx in
      let (qx, xq) = apart in
      let (q1, q2, xa, xo) = away in
      let h2 = put q m h in
      let qq : (q == q) ≡ true = ground arith in
      let xx : (x.addr == x.addr) ≡ true = ground arith in
      let ax2 : h2 x.addr ≡ some nx = rw xq ax in
      let nx' : AvlNode = record nx { parent = q } in
      (
        put x.addr nx' h2,
        nx',
        update_run x.addr (λ n. record n { parent = q }) nx h2 ax2,
        rw (qx, qq) refl,
        rw xx refl,
        fields.0,
        parent-Stands h2 x.addr q nx (node a x b) ax2 (put-Stands h q m (node a x b) q1 sx),
        parent-Stands h2 x.addr q nx c ax2 (put-Stands h q m c q2 sc),
        λ z o.
            let zx : (z == x.addr) ≡ false = ground (arith, o) in
            let zq : (z == q) ≡ false = ground (arith, o) in rw (zx, zq) refl,
      )

  abbrev touched : ℕ → ℕ
  touched z = one z q + (one z x.addr + occurrences z (addrs b))

  pub level_left :
      n.right ≡ root c
      → depth (node a x b) ≢ depth c + 2
      → Done h
          (node (node a x b) e c)
          (set_left q (some x.addr) >>= λ _. after_left q min_key)
          touched
  level_left nr level =
      let m : AvlNode = record n { left = x.addr } in
      let (h3, nx, u, at3, ax3, min, sl, sr, same) = hung m in
      let (q1, q2, xa, xo) = away in
      let (h4, fix, s4, same4) =
        fix_height-Stands h3 e (node a x b) c m ne at3 lo hi refl nr q1 q2 sl sr in
      let qq : (q == q) ≡ true = ground arith in
      let ha = get_height_lem h3 (node a x b) sl in
      let hb : get_height m.right h3 ≡ some (depth c, h3) =
        subst (λ w. get_height w h3 ≡ some (depth c, h3)) (sym nr) (get_height_lem h3 c sr) in
      let run =
        left_level q min_key m nx (put q m h) h3 h4 h4 (depth (node a x b)) (depth c) (rw qq refl) u
          ha hb ax3 (not_equal (depth (node a x b)) (depth c + 2) level) fix in
      (
        h4,
        rw (◌>>=◌, update_run q (λ n. record n { left = x.addr }) n h at, run) refl,
        s4,
        λ z o. same4 z (omega (arith, o)) ∙ same z (omega (arith, o)),
      )

  pub level_right :
      n.left ≡ root c
      → depth (node a x b) ≢ depth c + 2
      → Done h
          (node c e (node a x b))
          (set_right q (some x.addr) >>= λ _. after_right q min_key)
          touched
  level_right nl level =
      let m : AvlNode = record n { right = x.addr } in
      let (h3, nx, u, at3, ax3, min, sl, sr, same) = hung m in
      let (q1, q2, xa, xo) = away in
      let (h4, fix, s4, same4) =
        fix_height-Stands h3 e c (node a x b) m ne at3 lo hi nl refl q2 q1 sr sl in
      let qq : (q == q) ≡ true = ground arith in
      let ha = get_height_lem h3 (node a x b) sl in
      let hb : get_height m.left h3 ≡ some (depth c, h3) =
        subst (λ w. get_height w h3 ≡ some (depth c, h3)) (sym nl) (get_height_lem h3 c sr) in
      let run =
        right_level q min_key m nx (put q m h) h3 h4 (depth (node a x b)) (depth c) (rw qq refl) u
          ha hb ax3 (not_equal (depth (node a x b)) (depth c + 2) level) fix in
      (
        h4,
        rw (◌>>=◌, update_run q (λ n. record n { right = x.addr }) n h at, run) refl,
        s4,
        λ z o. same4 z (omega (arith, o)) ∙ same z (omega (arith, o)),
      )

  pub turned_left :
      n.right ≡ root c
      → depth (node a x b) ≡ depth c + 2
      → min_key < x.lo
      → Done h
          (node a x (node b e c))
          (set_left q (some x.addr) >>= λ _. after_left q min_key)
          touched
  turned_left nr level smaller =
      let m : AvlNode = record n { left = x.addr } in
      let (h3, nx, u, at3, ax3, min, sl, sr, same) = hung m in
      let (q1, q2, xa, xo) = away in
      let (h4, turn, s4, same4) = ll_rotate_lem h3 e m at3 lo hi ne a x b c refl nr sl sr once in
      let (x0, (n4, ax4, fields4), sa4, so4) = s4 in
      let (h5, fix, s5, same5) =
        fix_height-Stands h4 x a (node b e c) n4 x0 ax4 fields4.0 fields4.1 fields4.2 fields4.3 xa
          xo sa4 so4 in
      let qq : (q == q) ≡ true = ground arith in
      let ha = get_height_lem h3 (node a x b) sl in
      let hb : get_height m.right h3 ≡ some (depth c, h3) =
        subst (λ w. get_height w h3 ≡ some (depth c, h3)) (sym nr) (get_height_lem h3 c sr) in
      let less : ltb min_key nx.min_key ≡ true =
        smaller_than min_key nx.min_key (subst (λ w. min_key < w) (sym min) smaller) in
      let run =
        left_turned q min_key m nx (put q m h) h3 h4 h5 (depth (node a x b)) (depth c) (rw qq refl)
          u ha hb ax3 x.addr (equal (depth (node a x b)) (depth c + 2) level) less turn fix in
      (
        h5,
        rw (◌>>=◌, update_run q (λ n. record n { left = x.addr }) n h at, run) refl,
        s5,
        λ z o. same5 z (omega (arith, o)) ∙ same4 z (omega (arith, o)) ∙ same z (omega (arith, o)),
      )
