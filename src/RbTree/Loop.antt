-- ===== src/RbTree/Loop.antt =====
-- The loop of `__rb_insert` computes `fix` on a heap that holds a tree.
use struct.Base.{one, ℕ, zero, suc, ◌+◌, ◌≤◌, ◌<◌, ◌≡◌, ◌≢◌, ◌∙◌, refl, sym, subst, arith, some}
use struct.RbTree.State.{Color, red, black, Side, left, right, State, Cmd, Returns}
use struct.RbTree.Tree.{
  Tree, leaf, node, Ctx, top, under, join, addr, up, plug, depth, RootBlack, fix, occ, occ_ctx,
  rotations,
}
use struct.RbTree.Rep.{cell_of, Rep, RepCtx, Rep-plug, Rep-frame, occ-join}
use struct.RbTree.Ops.{Returns-eq, weaken, recolor_cell}
use struct.RbTree.Insert.{flip, when_red, turn_at, turn, loop}
use struct.RbTree.Rotate.{addr-join, one_self, one_ne}
use struct.RbTree.Flip.{flip_lem, Flipped, spots_flip}
use struct.RbTree.Turn.{turn_at_lem, Turned}

-- Which of the cases a round takes.
turn_leaf :
    (d : Side) (again : ℕ → Cmd) (nd p g q m : ℕ) (c : Color) (s : State)
    → s.cell g ≡ some (cell_of d q c m 0)
    → turn d again nd p g s ≡ turn_at d nd p g s
unfolding turn when_red
turn_leaf left again nd p g q m c s e = ground arith
turn_leaf right again nd p g q m c s e = ground arith

turn_black :
    (d e : Side) (again : ℕ → Cmd) (nd p g q m v q' m' n' : ℕ) (c : Color) (s : State)
    → s.cell g ≡ some (cell_of d q c m v)
    → v ≢ 0
    → s.cell v ≡ some (cell_of left q' black m' n')
    → turn d again nd p g s ≡ turn_at d nd p g s
unfolding turn when_red
turn_black left e again nd p g q m v q' m' n' c s eg ne ev = ground arith
turn_black right e again nd p g q m v q' m' n' c s eg ne ev = ground arith

turn_red :
    (d : Side) (again : ℕ → Cmd) (nd p g q m v q' m' n' : ℕ) (c : Color) (s : State)
    → s.cell g ≡ some (cell_of d q c m v)
    → v ≢ 0
    → s.cell v ≡ some (cell_of left q' red m' n')
    → turn d again nd p g s ≡ flip again v p g s
unfolding turn when_red
turn_red left again nd p g q m v q' m' n' c s eg ne ev = ground arith
turn_red right again nd p g q m v q' m' n' c s eg ne ev = ground arith

-- A round of the loop below a red parent finds its side.
loop-turn :
    (d e : Side) (fuel nd p g q x v : ℕ) (c : Color) (s : State)
    → p ≢ 0
    → s.cell p ≡ some (cell_of e g red nd x)
    → s.cell g ≡ some (cell_of d q c p v)
    → v ≢ p
    → loop (suc fuel) nd p s ≡ turn d (loop fuel g) nd p g s
unfolding loop
loop-turn left left fuel nd p g q x v c s ne ep eg nv = ground arith
loop-turn left right fuel nd p g q x v c s ne ep eg nv = ground arith
loop-turn right left fuel nd p g q x v c s ne ep eg nv = ground arith
loop-turn right right fuel nd p g q x v c s ne ep eg nv = ground arith

loop_black :
    (e : Side) (fuel nd p q x : ℕ) (s : State)
    → p ≢ 0
    → s.cell p ≡ some (cell_of e q black nd x)
    → loop (suc fuel) nd p s ≡ some s
unfolding loop
loop_black left fuel nd p q x s ne ep = ground arith
loop_black right fuel nd p q x s ne ep = ground arith

RootBlack-tail :
    (d : Side) (c : Color) (a : ℕ) (u : Tree) (k : Ctx) → RootBlack (under d c a u k) → RootBlack k
RootBlack-tail d c a u top h = tt
RootBlack-tail d c a u (under d' c' a' u' k) h = h

-- The heap holds the repaired tree, and nothing outside it was written.
abbrev pub Repaired : State → Tree → Ctx → State → Type 0
Repaired s t k s' =
    Rep s'.cell 0 (fix t k)
    × (s'.root ≡ addr (fix t k))
    × ((z : ℕ) → occ z t + occ_ctx z k ≡ 0 → s'.cell z ≡ s.cell z)

-- The end of the loop by a rotation.
rotated_end :
    (e d : Side) (p g : ℕ) (ct : Color) (tl tr x u : Tree) (nd : ℕ) (k : Ctx) (cg : Color)
    (s : State)
    → p ≢ 0
    → s.cell p ≡ some (cell_of e g red nd (addr x))
    → Rep s.cell p (node ct tl nd tr)
    → Rep s.cell p x
    → RepCtx s.cell s.root p (under d cg g u k)
    → ((z : ℕ) → spots_flip z p g (node ct tl nd tr) x u k ≤ 1)
    → Returns
        (λ s'.
          Rep s'.cell 0 (plug (rotations e d (node ct tl nd tr) p x cg g u) k)
          × (s'.root ≡ addr (plug (rotations e d (node ct tl nd tr) p x cg g u) k))
          × ((z : ℕ) → spots_flip z p g (node ct tl nd tr) x u k ≡ 0 → s'.cell z ≡ s.cell z))
        (turn_at d nd p g s)
unfolding Turned
rotated_end e d p g ct tl tr x u nd k cg s p_ne ep rt rx rk uniq =
    weaken (turn_at_lem p g ct tl tr x u nd k cg s p_ne rk.0 rt rx rk.2 rk.3 uniq e d rk.1 ep)
      λ s' (rep, rk', out).
        let done =
          Rep-plug s'.cell s'.root (rotations e d (node ct tl nd tr) p x cg g u) k rep rk' in
        (done.0, done.1, out)

occ-flipped :
    (z : ℕ) (d e : Side) (t : Tree) (p : ℕ) (x : Tree) (g : ℕ) (u : Tree)
    → occ z (join d red (join e black t p x) g u)
      ≡ one z g + (one z p + (occ z t + occ z x) + occ z u)
occ-flipped z d e t p x g u =
    omega (arith, occ-join z d red (join e black t p x) g u, occ-join z e black t p x)

pub loop_refines :
    (fuel : ℕ) (t : Tree) (k : Ctx) (s : State)
    → depth k < fuel
    → addr t ≢ 0
    → RootBlack k
    → Rep s.cell (up k) t
    → RepCtx s.cell s.root (addr t) k
    → ((z : ℕ) → occ z t + occ_ctx z k ≤ 1)
    → Returns (Repaired s t k) (loop fuel (addr t) (up k) s)
unfolding loop fix occ occ_ctx Flipped
loop_refines zero t k s h ne rb rt rk uniq = absurd (omega arith)
loop_refines (suc fuel) leaf k s h ne rb rt rk uniq = absurd (ne refl)
loop_refines (suc fuel) (node c l nd r) top s h ne rb rt rk uniq =
    weaken (recolor_cell left nd 0 (addr l) (addr r) c black 0 s rt.1) λ s' (e', out, root). (
      (
        rt.0,
        e',
        Rep-frame nd l (λ z i. out z (one_ne z nd (omega (arith, uniq z)))) rt.2,
        Rep-frame nd r (λ z i. out z (one_ne z nd (omega (arith, uniq z)))) rt.3,
      ),
      root ∙ rk,
      λ z i. out z (one_ne z nd (omega arith)),
    )
loop_refines (suc fuel) t (under e black p x k) s h ne rb rt rk uniq =
    let done = Rep-plug s.cell s.root t (under e black p x k) rt rk in
    Returns-eq (loop_black e fuel (addr t) p (up k) (addr x) s rk.0 rk.1)
      (done.0, done.1, λ z i. refl)
loop_refines (suc fuel) t (under e red p x top) s h ne rb rt rk uniq = absurd (cc rb)
loop_refines (suc fuel) (node ct tl nd tr) (under e red p x (under d c g leaf k)) s h ne rb rt
      (p_ne, ep, rx, rk) uniq =
    rw
      (loop-turn d e fuel nd p g (up k) (addr x) 0 c s p_ne ep rk.1 (λ z. p_ne (sym z))
        ∙ turn_leaf d (loop fuel g) nd p g (up k) p c s rk.1)
      (weaken
        (rotated_end e d p g ct tl tr x leaf nd k c s p_ne ep rt rx rk (λ z. omega (arith, uniq z)))
        λ s' (rep, root, out). (rep, root, λ z i. out z (omega arith)))
loop_refines (suc fuel) (node ct tl nd tr) (under e red p x (under d c g (node black ul v ur) k)) s
      h ne rb rt (p_ne, ep, rx, rk) uniq =
    rw
      (loop-turn d e fuel nd p g (up k) (addr x) v c s p_ne ep rk.1
          (one_ne v p (omega (arith, uniq v, one_self v)))
        ∙ turn_black d e (loop fuel g) nd p g (up k) p v g (addr ul) (addr ur) c s rk.1 rk.2.0
            rk.2.1)
      (weaken
        (rotated_end e d p g ct tl tr x (node black ul v ur) nd k c s p_ne ep rt rx rk
          (λ z. omega (arith, uniq z)))
        λ s' (rep, root, out). (rep, root, λ z i. out z (omega arith)))
loop_refines (suc fuel) (node ct tl nd tr) (under e red p x (under d c g (node red ul v ur) k)) s h
      ne rb rt (p_ne, ep, rx, rk) uniq =
    rw
      (loop-turn d e fuel nd p g (up k) (addr x) v c s p_ne ep rk.1
          (one_ne v p (omega (arith, uniq v, one_self v)))
        ∙ turn_red d (loop fuel g) nd p g (up k) p v g (addr ul) (addr ur) c s rk.1 rk.2.0 rk.2.1)
      (flip_lem e d p g v (node ct tl nd tr) x ul ur k c s p_ne rk.0 rk.1 ep rt rx rk.2 rk.3
        (λ z. omega (arith, uniq z)) (loop fuel g)
        λ s' (rep, rk', out).
          let t' = join d red (join e black (node ct tl nd tr) p x) g (node black ul v ur) in
          let at_g : addr t' ≡ g = addr-join d red _ g _ in
          weaken
            (subst (λ a. Returns (Repaired s' t' k) (loop fuel a (up k) s')) at_g
              (loop_refines fuel t' k s' (omega arith) (rw at_g rk.0)
                (RootBlack-tail d c g (node red ul v ur) k
                  (RootBlack-tail e red p x (under d c g (node red ul v ur) k) rb))
                rep (subst (λ a. RepCtx s'.cell s'.root a k) (sym at_g) rk')
                (λ z. omega (
                  arith,
                  uniq z,
                  occ-flipped z d e (node ct tl nd tr) p x g (node black ul v ur),
                ))))
            λ s'' (rep'', root'', out''). (
              rep'',
              root'',
              λ z i.
                  out'' z
                    (omega (arith, occ-flipped z d e (node ct tl nd tr) p x g (node black ul v ur)))
                  ∙ out z (omega arith),
            ))
