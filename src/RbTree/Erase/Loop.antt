-- ===== src/RbTree/Erase/Loop.antt =====
-- `__rb_erase_color` on a heap that holds a tree that is red-black but for one place, whose subtree
-- has one black node too few.
use struct.Base.{
  ℕ, zero, suc, ◌+◌, ◌≤◌, ◌≡◌, ◌≢◌, ◌∙◌, refl, sym, subst, arith, some, true, false, List, ◌==◌,
}
use struct.RbTree.State.{
  Color, red, black, Side, left, right, other, State, Cmd, ◌>>◌, load, Returns,
}
use struct.RbTree.Tree.{
  Tree, leaf, node, Ctx, top, under, join, addr, up, plug, depth, sub, inorder, occ, occ_ctx,
}
use struct.RbTree.Rep.{cell_of, Rep, RepCtx, occ-join}
use struct.RbTree.Ops.{weaken, bind, addr_ne}
use struct.RbTree.Erase.{settle, lower, refill_at, erase_color}
use struct.RbTree.Erase.Sides.{Rep-sides, occ-sides, join-sides}
use struct.RbTree.Erase.Lower.{lower_lem}
use struct.RbTree.Rotate.{spots, addr-join, one_self}
use struct.RbTree.Balance.{IsBlack, RbCtx}
use struct.RbTree.Order.{inorder-join, inorder-plug}
use struct.RbTree.Erase.Balance.{
  Sound, Room, Room-under, IsBlack-join, Sound-black, Sound-red, inorder-raise, inorder-red,
}
use struct.RbTree.Erase.Settle.{Mended, Site, light_order}
use struct.RbTree.Erase.Round.{settle_lem}

-- The round finds its side.
refill_side :
    (d : Side) (fuel nd p q s : ℕ) (c : Color) (st : State)
    → st.cell p ≡ some (cell_of d q c nd s)
    → nd ≢ s
    → erase_color (suc fuel) nd p st ≡ refill_at d (erase_color fuel) s p st
unfolding erase_color
refill_side left fuel nd p q s c st e ne =
    let f : (nd == s) ≡ false = ground arith in rw (e, load, f) refl
refill_side right fuel nd p q s c st e ne =
    let f : (nd == nd) ≡ true = ground arith in rw (e, load, f) refl

refill_black :
    (d : Side) (again : ℕ → ℕ → Cmd) (s p q m n : ℕ) (st : State)
    → st.cell s ≡ some (cell_of left q black m n)
    → refill_at d again s p st ≡ settle d again s p st
unfolding refill_at
refill_black d again s p q m n st e = rw (e, load) refl

refill_red :
    (d : Side) (again : ℕ → ℕ → Cmd) (s p q m n : ℕ) (st : State)
    → st.cell s ≡ some (cell_of d q red m n)
    → refill_at d again s p st ≡ (lower d m s p >> settle d again m p) st
unfolding refill_at
refill_red left again s p q m n st e = rw (e, load) refl
refill_red right again s p q m n st e = rw (e, load) refl

pub Mended-change :
    {xs ys : List ℕ} {f g : ℕ → ℕ} (s s1 s' : State)
    → xs ≡ ys
    → ((z : ℕ) → g z ≡ 0 → f z ≡ 0)
    → ((z : ℕ) → g z ≡ 0 → s1.cell z ≡ s.cell z)
    → Mended xs f s1 s'
    → Mended ys g s s'
Mended-change s s1 s' e i before (v, rb, o, rep, root, out) =
    (v, rb, o ∙ e, rep, root, λ z j. out z (i z j) ∙ before z j)

-- Case 1 and the end of the round, which then is below a red `p`.
refill_below_red :
    (d : Side) (t : Tree) (p : ℕ) (near : Tree) (s : ℕ) (far : Tree) (k : Ctx) (n : ℕ) (st : State)
    (again : ℕ → ℕ → Cmd)
    → p ≢ 0
    → s ≢ 0
    → st.cell p ≡ some (cell_of d (up k) black (addr t) s)
    → st.cell s ≡ some (cell_of d p red (addr near) (addr far))
    → Rep st.cell p t
    → Rep st.cell s near
    → Rep st.cell s far
    → RepCtx st.cell st.root p k
    → ((z : ℕ) → spots z s p far near t k ≤ 1)
    → IsBlack t
    → Sound t n
    → IsBlack near
    → Sound near (suc n)
    → Sound far (suc n)
    → RbCtx k (suc (suc n))
    → Returns
        (Mended
          (inorder (plug (join d black t p (join d red near s far)) k))
          (λ z. spots z s p far near t k)
          st)
        ((lower d (addr near) s p >> settle d again (addr near) p) st)
unfolding occ occ_ctx
refill_below_red d t p leaf s far k n st again p_ne s_ne ep es rt rn rf rk uniq bt snt bn sn sf
      rbk =
    elim sn.1 [ ]
refill_below_red d t p (node red nl m nr) s far k n st again p_ne s_ne ep es rt rn rf rk uniq bt snt
      bn sn sf rbk =
    elim bn [ ]
refill_below_red d t p (node black nl m nr) s far k n st again p_ne s_ne ep es rt rn rf rk uniq bt
      snt bn sn sf rbk =
    let near = node black nl m nr in
    let k' = under d black s far k in
    let (s1, s2) = Sound-black d nl m nr n sn in
    bind (lower d m s p) (settle d again m p) st
      (lower_lem d p s t near far k black red st p_ne s_ne ep es rt rn rf rk uniq rn.0)
      λ st' (rt', rn', rk', out).
        let (em, r1, r2) = Rep-sides st'.cell d p black nl m nr rn' in
        let site : Site d red t p (sub d near) m (sub (other d) near) k' n st' = record {
          p_ne = p_ne;
          s_ne = rn.0;
          p_cell = rk'.1;
          s_cell = em;
          rep_t = rt';
          rep_near = r1;
          rep_far = r2;
          rep_ctx = rk'.3;
          uniq = λ z. omega (arith, uniq z, occ-sides z d black nl m nr);
          black_t = bt;
          sound_t = snt;
          sound_near = s1;
          sound_far = s2;
          room = (tt, (sf.0, sf.1, rbk));
        } in
        weaken
          (settle_lem d red t p (sub d near) m (sub (other d) near) k' n st' again site
            (λ e. absurd (cc e)))
          λ st'' done.
            Mended-change st st' st''
              (rw (join-sides d black black nl m nr) (
                inorder-plug (join d black (join d red t p near) s far)
                  (join d black t p (join d red near s far)) k
                  (inorder-raise d black red black red t p near s far)))
              (λ z i. omega (arith, i, occ-sides z d black nl m nr)) out done

-- From a heap with a tree that is red-black but for a black subtree `t` that has one black node too
-- few, at a place that is not the root, `__rb_erase_color` ends without a fault, on fuel no less
-- than the depth of the place, with a red-black tree of the same nodes in the same order; no other
-- cell is written.
pub erase_color_mends :
    (fuel : ℕ) (t : Tree) (k : Ctx) (n : ℕ) (st : State)
    → depth k ≤ fuel
    → up k ≢ 0
    → IsBlack t
    → Sound t n
    → RbCtx k (suc n)
    → Rep st.cell (up k) t
    → RepCtx st.cell st.root (addr t) k
    → ((z : ℕ) → occ z t + occ_ctx z k ≤ 1)
    → Returns
        (Mended (inorder (plug t k)) (λ z. occ z t + occ_ctx z k) st)
        (erase_color fuel (addr t) (up k) st)
unfolding occ occ_ctx
erase_color_mends fuel t top n st h ne bt snt rbk rt rk uniq = absurd (ne refl)
erase_color_mends zero t (under d c p u k) n st h ne bt snt rbk rt rk uniq = absurd (omega arith)
erase_color_mends (suc fuel) t (under d c p leaf k) n st h ne bt snt rbk rt rk uniq =
    elim (Room-under d c p leaf k (suc n) rbk).0.1 [ ]
erase_color_mends (suc fuel) t (under d red p (node red l s r) k) n st h ne bt snt rbk rt rk uniq =
    elim rbk.0 [ ]
erase_color_mends (suc fuel) t (under d black p (node red l s r) k) n st h ne bt snt rbk rt rk
      uniq =
    let u = node red l s r in
    let (es, rn, rf) = Rep-sides st.cell d p red l s r rk.2 in
    let ((sn, bn), (sf, bf)) = Sound-red d l s r (suc n) (rbk.0, rbk.1) in
    rw
      (refill_side d fuel (addr t) p (up k) s black st rk.1
          (addr_ne s t rk.2.0 (omega (arith, uniq s, one_self s)))
        ∙ refill_red d (erase_color fuel) s p p (addr (sub d u)) (addr (sub (other d) u)) st es)
      (weaken
        (refill_below_red d t p (sub d u) s (sub (other d) u) k n st (erase_color fuel) rk.0 rk.2.0
          rk.1 es rt rn rf rk.3 (λ z. omega (arith, uniq z, occ-sides z d red l s r)) bt snt bn sn
          sf rbk.2)
        λ st' done.
          Mended-change st st st'
            (inorder-plug (join d black t p (join d red (sub d u) s (sub (other d) u)))
              (join d black t p u) k
              (inorder-join d black black t t p (join d red (sub d u) s (sub (other d) u)) u refl
                (inorder-red d red l s r)))
            (λ z i. omega (arith, i, occ-sides z d red l s r)) (λ z i. refl) done)
erase_color_mends (suc fuel) t (under d c p (node black l s r) k) n st h ne bt snt rbk rt rk uniq =
    let u = node black l s r in
    let (es, rn, rf) = Rep-sides st.cell d p black l s r rk.2 in
    let (su, room) = Room-under d c p u k (suc n) rbk in
    let (sn, sf) = Sound-black d l s r n su in
    let near = sub d u in
    let far = sub (other d) u in
    let site : Site d c t p near s far k n st = record {
      p_ne = rk.0;
      s_ne = rk.2.0;
      p_cell = rk.1;
      s_cell = es;
      rep_t = rt;
      rep_near = rn;
      rep_far = rf;
      rep_ctx = rk.3;
      uniq = λ z. omega (arith, uniq z, occ-sides z d black l s r);
      black_t = bt;
      sound_t = snt;
      sound_near = sn;
      sound_far = sf;
      room = room;
    } in
    rw
      (refill_side d fuel (addr t) p (up k) s c st rk.1
          (addr_ne s t rk.2.0 (omega (arith, uniq s, one_self s)))
        ∙ refill_black d (erase_color fuel) s p p (addr l) (addr r) st rk.2.1)
      (weaken
        (settle_lem d c t p near s far k n st (erase_color fuel) site
          λ cb s' (rep, rk', out) ne' sound.
            let u' = join d red near s far in
            let t' = join d black t p u' in
            let at_p : addr t' ≡ p = addr-join d black t p u' in
            weaken
              (subst
                (λ a.
                  Returns (Mended (inorder (plug t' k)) (λ z. occ z t' + occ_ctx z k) s')
                    (erase_color fuel a (up k) s'))
                at_p
                (erase_color_mends fuel t' k (suc n) s' (omega arith) ne' (IsBlack-join d t p u')
                  sound (subst (λ x. Room x k (suc n)) cb room) rep
                  (subst (λ a. RepCtx s'.cell s'.root a k) (sym at_p) rk')
                  (λ z. omega (
                    arith,
                    uniq z,
                    occ-sides z d black l s r,
                    occ-join z d black t p u',
                    occ-join z d red near s far,
                  ))))
              λ st' done.
                Mended-change st s' st' (light_order d c t p near s far k)
                  (λ z i. omega (arith, i, occ-join z d black t p u', occ-join z d red near s far))
                  out done)
        λ st' done.
          Mended-change st st st'
            (inorder-plug (join d c t p (join d black near s far)) (join d c t p u) k (
              inorder-join d c c t t p (join d black near s far) u refl
                (rw (join-sides d black black l s r) refl)))
            (λ z i. omega (arith, i, occ-sides z d black l s r)) (λ z i. refl) done)
