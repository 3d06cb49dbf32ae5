-- ===== src/RbTree/Erase/Lower.antt =====
-- Cases 1 and 2 of `__rb_erase_color`, on a heap that holds a tree.
use struct.Base.{
  one, ℕ, ◌+◌, ◌≤◌, ◌<◌, ◌≡◌, ◌≢◌, ◌∙◌, refl, sym, arith, some, false, ◌==◌, if◌then◌else◌,
}
use struct.RbTree.State.{
  Color, red, black, Side, left, right, other, RbNode, is_red, State, Cmd, load, skip, Returns,
  store, modify, set_parent_color, set_black,
}
use struct.RbTree.Tree.{Tree, Ctx, under, join, addr, up, blacken, rotated, occ}
use struct.RbTree.Rep.{
  cell_of, Cells, Rep, RepCtx, Rep-frame, RepCtx-frame, Rep-join, cell_of-other,
}
use struct.RbTree.Ops.{Returns-eq, bind, weaken, recolor_cell}
use struct.RbTree.Insert.{rotate}
use struct.RbTree.Erase.{lower, lighten}
use struct.RbTree.Rotate.{rotate_lem, spots, one_self, one_ne, addr-join}

-- Case 1 is the rotation of `__rb_insert` to the other side: its child is never NULL.
lower-rotate :
    (d : Side) (tmp s p : ℕ) (st : State)
    → tmp ≢ 0
    → lower d tmp s p st ≡ rotate (other d) s p tmp st
unfolding lower rotate
lower-rotate left tmp s p st ne = let e : (tmp == 0) ≡ false = ground arith in rw e refl
lower-rotate right tmp s p st ne = let e : (tmp == 0) ≡ false = ground arith in rw e refl

-- The rotated tree, seen from the place of `t`, one level further down.
rotated_place :
    (h : Cells) (root : ℕ) (d : Side) (c : Color) (t : Tree) (p : ℕ) (near : Tree) (s : ℕ)
    (far : Tree) (k : Ctx)
    → Rep h (up k) (rotated (other d) c far s near p t)
    → RepCtx h root s k
    → Rep h p t
      × Rep h p (blacken near)
      × RepCtx h root (addr t) (under d red p (blacken near) (under d c s far k))
rotated_place h root left c t p near s far k (ns, es, (np, ep, rt, rn), rf) rk =
    (rt, rn, (np, ep, rn, (ns, es, rf, rk)))
rotated_place h root right c t p near s far k (ns, es, rf, (np, ep, rn, rt)) rk =
    (rt, rn, (np, ep, rn, (ns, es, rf, rk)))

set_black_cell :
    (d : Side) (p q m n : ℕ) (c : Color) (s : State)
    → s.cell p ≡ some (cell_of d q c m n)
    → Returns
        (λ s'.
          (s'.cell p ≡ some (cell_of d q black m n))
          × ((z : ℕ) → z ≢ p → s'.cell z ≡ s.cell z)
          × (s'.root ≡ s.root))
        (set_black p s)
unfolding modify
set_black_cell left p q m n c s e =
    Returns-eq {s = store p (cell_of left q black m n) s} (ground arith)
      (ground arith, λ z i. ground arith, refl)
set_black_cell right p q m n c s e =
    Returns-eq {s = store p (cell_of right q black m n) s} (ground arith)
      (ground arith, λ z i. ground arith, refl)

-- The heap after case 2.
abbrev pub Lightened : Side → (p s : ℕ) → (t near far : Tree) → Ctx → State → State → Type 0
Lightened d p s t near far k st s' =
    Rep s'.cell (up k) (join d black t p (join d red near s far))
    × RepCtx s'.cell s'.root p k
    × ((z : ℕ) → spots z s p far near t k ≡ 0 → s'.cell z ≡ st.cell z)

-- The rest of case 2, once the sibling is red.
abbrev after : (ℕ → ℕ → Cmd) → ℕ → RbNode → Cmd
after again p n =
    if is_red n then set_black p else (if n.parent == 0 then skip else again p n.parent)

after_red :
    (d : Side) (again : ℕ → ℕ → Cmd) (p q m n : ℕ) (s : State)
    → s.cell p ≡ some (cell_of d q red m n)
    → load p (after again p) s ≡ set_black p s
after_red left again p q m n s e = rw (e, load) refl
after_red right again p q m n s e = rw (e, load) refl

after_black :
    (d : Side) (again : ℕ → ℕ → Cmd) (p q m n : ℕ) (s : State)
    → s.cell p ≡ some (cell_of d q black m n)
    → load p (after again p) s ≡ (if q == 0 then skip else again p q) s
after_black left again p q m n s e = rw (e, load) refl
after_black right again p q m n s e = rw (e, load) refl

module _ (d : Side) (p s : ℕ) (t near far : Tree) (k : Ctx) (c cs : Color) (st : State)
    (p_ne : p ≢ 0) (s_ne : s ≢ 0) (ep : st.cell p ≡ some (cell_of d (up k) c (addr t) s))
    (es : st.cell s ≡ some (cell_of d p cs (addr near) (addr far))) (rt : Rep st.cell p t)
    (rn : Rep st.cell s near) (rf : Rep st.cell s far) (rk : RepCtx st.cell st.root p k)
    (uniq : (z : ℕ) → spots z s p far near t k ≤ 1) where
  -- Case 1 gives `t` the sibling `near`.
  pub lower_lem :
      addr near ≢ 0
      → Returns
          (λ s'.
            Rep s'.cell p t
            × Rep s'.cell p (blacken near)
            × RepCtx s'.cell s'.root (addr t) (under d red p (blacken near) (under d c s far k))
            × ((z : ℕ) → spots z s p far near t k ≡ 0 → s'.cell z ≡ st.cell z))
          (lower d (addr near) s p st)
  lower_lem ne = rw (lower-rotate d (addr near) s p st ne) (
      weaken
        (rotate_lem (other d) s p far near t k p s s c cs st s_ne p_ne (rw cell_of-other ep)
          (rw cell_of-other es) rf rn rt rk uniq)
        λ s' (rep, rk', out).
          let (a, b, e) = rotated_place s'.cell s'.root d c t p near s far k rep rk' in
          (a, b, e, out))

  Flipped : State → Type 0
  Flipped s1 =
      (s1.cell s ≡ some (cell_of d p red (addr near) (addr far)))
      × ((z : ℕ) → z ≢ s → s1.cell z ≡ st.cell z)
      × (s1.root ≡ st.root)

  flipped_parent : (s1 : State) → Flipped s1 → s1.cell p ≡ some (cell_of d (up k) c (addr t) s)
  unfolding Flipped
  flipped_parent s1 (es1, out1, root1) =
      out1 p (one_ne p s (omega (arith, uniq p, one_self p))) ∙ ep

  lightened :
      (s1 s2 : State)
      → Flipped s1
      → s2.cell p ≡ some (cell_of d (up k) black (addr t) s)
      → ((z : ℕ) → z ≢ p → s2.cell z ≡ s1.cell z)
      → s2.root ≡ s1.root
      → Lightened d p s t near far k st s2
  unfolding Flipped
  lightened s1 s2 (es1, out1, root1) ep2 out2 root2 =
      let same : (z : ℕ) → one z p + one z s ≡ 0 → s2.cell z ≡ st.cell z =
        λ z i. out2 z (one_ne z p (omega arith)) ∙ out1 z (one_ne z s (omega arith)) in
      let keep : (u : Tree) (q : ℕ)
          → ((z : ℕ) → 0 < occ z u → one z p + one z s ≡ 0)
          → Rep st.cell q u
          → Rep s2.cell q u =
        λ u q i. Rep-frame q u (λ z j. same z (i z j)) in
      let ru : Rep s2.cell p (join d red near s far) =
        Rep-join s2.cell d p red near s far s_ne
          (out2 s (one_ne s p (omega (arith, uniq s, one_self s))) ∙ es1)
          (keep near s (λ z i. omega (arith, uniq z)) rn)
          (keep far s (λ z i. omega (arith, uniq z)) rf) in
      (
        Rep-join s2.cell d (up k) black t p (join d red near s far) p_ne
            (rw (addr-join d red near s far) ep2) (keep t p (λ z i. omega (arith, uniq z)) rt) ru,
        rw (root2 ∙ root1) (RepCtx-frame st.root p k (λ z i. same z (omega (arith, uniq z))) rk),
        λ z i. same z (omega arith),
      )

  flip_sibling : Returns Flipped (set_parent_color s p red st)
  unfolding Flipped
  flip_sibling = recolor_cell d s p (addr near) (addr far) cs red p st es

  -- Case 2 below a red `p` blackens it and is done.
  pub lighten_red :
      (again : ℕ → ℕ → Cmd)
      → c ≡ red
      → Returns (Lightened d p s t near far k st) (lighten again s p st)
  unfolding lighten Flipped
  lighten_red again cr =
      bind (set_parent_color s p red) (load p (after again p)) st flip_sibling λ s1 f.
        let e : s1.cell p ≡ some (cell_of d (up k) red (addr t) s) =
          rw (sym cr) (flipped_parent s1 f) in
        rw (after_red d again p (up k) (addr t) s s1 e) (
          weaken (set_black_cell d p (up k) (addr t) s red s1 e)
            λ s2 (ep2, out2, root2). lightened s1 s2 f ep2 out2 root2)

  -- Below a black one it goes on from `p`, unless that is the root.
  pub lighten_black :
      {Q : State → Type 0} (again : ℕ → ℕ → Cmd)
      → c ≡ black
      → ((s' : State)
          → Lightened d p s t near far k st s'
          → Returns Q ((if up k == 0 then skip else again p (up k)) s'))
      → Returns Q (lighten again s p st)
  unfolding lighten Flipped
  lighten_black again cb next =
      bind (set_parent_color s p red) (load p (after again p)) st flip_sibling λ s1 f.
        let e : s1.cell p ≡ some (cell_of d (up k) black (addr t) s) =
          rw (sym cb) (flipped_parent s1 f) in
        rw (after_black d again p (up k) (addr t) s s1 e)
          (next s1 (lightened s1 s1 f e (λ z i. refl) refl))
