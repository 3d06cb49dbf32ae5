-- ===== src/RbTree/Rotate.antt =====
-- `__rb_rotate_set_parents`, and cases 2 and 3 of `__rb_insert`, on a heap that holds a tree.
use struct.Base.{one, ℕ, ◌+◌, ◌≤◌, ◌≡◌, ◌≢◌, ◌∙◌, refl, arith, some}
use struct.RbTree.State.{
  Color, red, Side, left, right, other, State, ◌>>◌, Returns, store, modify, set_child,
  set_black_child, change_child, rotate_set_parents,
}
use struct.RbTree.Tree.{Tree, leaf, node, Ctx, join, addr, up, blacken, rotated, occ, occ_ctx}
use struct.RbTree.Rep.{cell_of, Rep, RepCtx, Rep-frame, RepCtx-frame, Rep-join}
use struct.RbTree.Ops.{Returns-eq, bind, weaken, set_black_child_lem, change_child_lem}
use struct.RbTree.Insert.{rotate}

-- The writes of `__rb_rotate_set_parents` before it changes the pointer from above.
swap_parents :
    (d : Side) (old new q : ℕ) (co color : Color) (a b y m n : ℕ) (cn : Color) (s : State)
    → s.cell old ≡ some (cell_of d q co a b)
    → s.cell new ≡ some (cell_of d y cn m n)
    → old ≢ new
    → rotate_set_parents old new color s
      ≡ change_child old new q
          (store old (cell_of d new color a b) (store new (cell_of d q co m n) s))
unfolding rotate_set_parents modify ◌>>◌
swap_parents left old new q co color a b y m n cn s eo en ne = ground arith
swap_parents right old new q co color a b y m n cn s eo en ne = ground arith

module _ (d : Side) (old new : ℕ) (co : Color) (a b y m n : ℕ) (cn : Color) (k : Ctx) (s : State)
    (eo : s.cell old ≡ some (cell_of d (up k) co a b)) (en : s.cell new ≡ some (cell_of d y cn m n))
    (rk : RepCtx s.cell s.root old k) (zero_ne : old ≢ 0)
    (uniq : (x : ℕ) → one x old + (one x new + occ_ctx x k) ≤ 1) where
  -- `new` takes the parent, the colour and the place of `old`, which becomes its child.
  pub rotate_set_parents_lem :
      (color : Color)
      → Returns
          (λ s'.
            (s'.cell new ≡ some (cell_of d (up k) co m n))
            × (s'.cell old ≡ some (cell_of d new color a b))
            × RepCtx s'.cell s'.root new k
            × ((x : ℕ) → one x old + (one x new + occ_ctx x k) ≡ 0 → s'.cell x ≡ s.cell x))
          (rotate_set_parents old new color s)
  rotate_set_parents_lem color =
      let ne : old ≢ new = λ e. ground (arith, uniq old) in
      let s1 : State =
        store old (cell_of d new color a b) (store new (cell_of d (up k) co m n) s) in
      let rk1 : RepCtx s1.cell s1.root old k =
        RepCtx-frame s.root old k (λ x i. ground (arith, uniq x)) rk in
      rw (swap_parents d old new (up k) co color a b y m n cn s eo en ne) (
        weaken
          (change_child_lem old new k s1 rk1 zero_ne (ground (arith, uniq old))
            (λ x. ground (arith, uniq x)))
          λ s' (rk', out). (
            ground (arith, out new, uniq new),
            ground (arith, out old, uniq old),
            rk',
            λ x i. ground (arith, out x),
          ))

-- The first writes of case 3.
lift_child :
    (d : Side) (p g q y x0 u n t t' : ℕ) (cg cp : Color) (s : State)
    → s.cell g ≡ some (cell_of d q cg x0 u)
    → s.cell p ≡ some (cell_of d y cp n t')
    → p ≢ g
    → Returns
        (λ s'.
          (s'.cell g ≡ some (cell_of d q cg t u))
          × (s'.cell p ≡ some (cell_of d y cp n g))
          × ((x : ℕ) → x ≢ p → x ≢ g → s'.cell x ≡ s.cell x)
          × (s'.root ≡ s.root))
        ((set_child d g t >> set_child (other d) p g) s)
unfolding modify ◌>>◌
lift_child left p g q y x0 u n t t' cg cp s eg ep ne =
    Returns-eq {s = store p (cell_of left y cp n g) (store g (cell_of left q cg t u) s)}
      (ground arith) (ground arith, ground arith, λ x i j. ground arith, refl)
lift_child right p g q y x0 u n t t' cg cp s eg ep ne =
    Returns-eq {s = store p (cell_of right y cp n g) (store g (cell_of right q cg t u) s)}
      (ground arith) (ground arith, ground arith, λ x i j. ground arith, refl)

pub occ-blacken : (x : ℕ) (t : Tree) → occ x (blacken t) ≡ occ x t
unfolding occ
occ-blacken x leaf = refl
occ-blacken x (node c l a r) = refl

pub addr-blacken : (t : Tree) → addr (blacken t) ≡ addr t
addr-blacken leaf = refl
addr-blacken (node c l a r) = refl

pub addr-join : (d : Side) (c : Color) (t : Tree) (a : ℕ) (u : Tree) → addr (join d c t a u) ≡ a
addr-join left c t a u = refl
addr-join right c t a u = refl

-- From the count of an address to inequalities.
pub one_self : (x : ℕ) → one x x ≡ 1
one_self x = ground arith

pub one_ne : (x a : ℕ) → one x a ≡ 0 → x ≢ a
one_ne x a e p = ground arith

-- The addresses that case 3 is about.
abbrev pub spots : ℕ → (p g : ℕ) (n t u : Tree) → Ctx → ℕ
spots x p g n t u k = one x g + (one x p + (occ x n + (occ x t + (occ x u + occ_ctx x k))))

module _ (d : Side) (p g : ℕ) (n t u : Tree) (k : Ctx) (y x0 qt : ℕ) (cg cp : Color) (s : State)
    (p_ne : p ≢ 0) (g_ne : g ≢ 0) (eg : s.cell g ≡ some (cell_of d (up k) cg x0 (addr u)))
    (ep : s.cell p ≡ some (cell_of d y cp (addr n) (addr t))) (rn : Rep s.cell p n)
    (rt : Rep s.cell qt t) (ru : Rep s.cell g u) (rk : RepCtx s.cell s.root g k)
    (uniq : (x : ℕ) → spots x p g n t u k ≤ 1) where
  Linked : State → Type 0
  Linked s3 =
      (s3.cell g ≡ some (cell_of d (up k) cg (addr t) (addr u)))
      × (s3.cell p ≡ some (cell_of d y cp (addr n) g))
      × Rep s3.cell g (blacken t)
      × RepCtx s3.cell s3.root g k
      × ((x : ℕ) → one x g + (one x p + occ x t) ≡ 0 → s3.cell x ≡ s.cell x)

  link :
      Returns Linked
        (((set_child d g (addr t) >> set_child (other d) p g) >> set_black_child (addr t) g) s)
  unfolding Linked
  link =
      bind (set_child d g (addr t) >> set_child (other d) p g) (set_black_child (addr t) g) s
        (lift_child d p g (up k) y x0 (addr u) (addr n) (addr t) (addr t) cg cp s eg ep
          (one_ne p g (omega (arith, uniq p, one_self p))))
        λ s2 (eg2, ep2, out2, root2).
          let same2 : (x : ℕ) → one x g + one x p ≡ 0 → s2.cell x ≡ s.cell x =
            λ x i. out2 x (one_ne x p (omega arith)) (one_ne x g (omega arith)) in
          weaken
            (set_black_child_lem t qt g s2
              (Rep-frame qt t (λ x i. same2 x (omega (arith, uniq x))) rt)
              (λ x. omega (arith, uniq x)))
            λ s3 (rt3, out3, root3).
              let same3 : (x : ℕ) → one x g + (one x p + occ x t) ≡ 0 → s3.cell x ≡ s.cell x =
                λ x i. out3 x (omega arith) ∙ same2 x (omega arith) in
              (
                out3 g (omega (arith, uniq g, one_self g)) ∙ eg2,
                out3 p (omega (arith, uniq p, one_self p)) ∙ ep2,
                rt3,
                rw (root3 ∙ root2)
                    (RepCtx-frame s.root g k (λ x i. same3 x (omega (arith, uniq x))) rk),
                same3,
              )

  -- Case 3 turns the tree at `g` into `rotated`, in its place, and writes nothing else.
  pub rotate_lem :
      Returns
        (λ s'.
          Rep s'.cell (up k) (rotated d cg n p t g u)
          × RepCtx s'.cell s'.root p k
          × ((x : ℕ) → spots x p g n t u k ≡ 0 → s'.cell x ≡ s.cell x))
        (rotate d p g (addr t) s)
  unfolding rotate Linked
  rotate_lem =
      bind ((set_child d g (addr t) >> set_child (other d) p g) >> set_black_child (addr t) g)
        (rotate_set_parents g p red) s link
        λ s3 (eg3, ep3, rt3, rk3, same3).
          weaken
            (rotate_set_parents_lem d g p cg (addr t) (addr u) y (addr n) g cp k s3 eg3 ep3 rk3 g_ne
              (λ x. omega (arith, uniq x)) red)
            λ s' (ep', eg', rk', out').
              let same : (x : ℕ)
                  → one x g + (one x p + (occ x t + occ_ctx x k)) ≡ 0
                  → s'.cell x ≡ s.cell x =
                λ x i. out' x (omega arith) ∙ same3 x (omega arith) in
              let rt' : Rep s'.cell g (blacken t) =
                Rep-frame g (blacken t) (λ x i. out' x (omega (arith, uniq x, occ-blacken x t)))
                  rt3 in
              let rg' : Rep s'.cell p (join d red (blacken t) g u) =
                Rep-join s'.cell d p red (blacken t) g u g_ne (rw addr-blacken eg') rt'
                  (Rep-frame g u (λ x i. same x (omega (arith, uniq x))) ru) in
              (
                Rep-join s'.cell d (up k) cg n p (join d red (blacken t) g u) p_ne
                    (rw addr-join ep') (Rep-frame p n (λ x i. same x (omega (arith, uniq x))) rn)
                    rg',
                rk',
                λ x i. same x (omega arith),
              )
