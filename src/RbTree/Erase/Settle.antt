-- ===== src/RbTree/Erase/Settle.antt =====
-- A round of `__rb_erase_color` on a heap that holds a tree that is red-black but for one place, whose subtree
-- has one black node too few.
use struct.Base.{ℕ, suc, ◌≤◌, ◌≡◌, ◌≢◌, ◌∙◌, refl, arith, some, false, List, ◌==◌}
use struct.RbTree.State.{Color, red, black, Side, left, other, State, Cmd, Returns, returns}
use struct.RbTree.Tree.{
  Tree, leaf, node, Ctx, top, under, join, addr, up, plug, blacken, sub, inorder,
}
use struct.RbTree.Rep.{cell_of, Rep, RepCtx, Rep-plug}
use struct.RbTree.Ops.{weaken}
use struct.RbTree.Insert.{when_red}
use struct.RbTree.Erase.{raise, raise_inner, lighten}
use struct.RbTree.Erase.Sides.{Rep-sides, occ-sides}
use struct.RbTree.Erase.Raise.{raise_lem}
use struct.RbTree.Erase.RaiseInner.{raise_inner_lem}
use struct.RbTree.Erase.Lower.{Lightened, lighten_red, lighten_black}
use struct.RbTree.Rotate.{spots, addr-join}
use struct.RbTree.Balance.{IsBlack, IsRb, plug-IsRb, RbCtx, RbAt, Fits-black, blacken_black}
use struct.RbTree.Order.{inorder-join, inorder-plug}
use struct.RbTree.Erase.Balance.{
  Sound, Room, Sound-join, IsBlack-join, RbAt-join, Sound-red, Sound-lightened, inorder-raise,
  inorder-raise_inner, inorder-red,
}

-- The heap holds a red-black tree of the nodes `xs`, and only the addresses that `spots` counts
-- were written.
abbrev pub Mended : List ℕ → (ℕ → ℕ) → State → State → Type 0
Mended xs spots s s' =
    (v : Tree) × IsRb v
    × (inorder v ≡ xs)
    × Rep s'.cell 0 v
    × (s'.root ≡ addr v)
    × ((z : ℕ) → spots z ≡ 0 → s'.cell z ≡ s.cell z)

pub mended :
    {xs : List ℕ} {spots : ℕ → ℕ} (s s' : State) (v : Tree) (k : Ctx)
    → RbAt v k
    → inorder (plug v k) ≡ xs
    → Rep s'.cell (up k) v
    → RepCtx s'.cell s'.root (addr v) k
    → ((z : ℕ) → spots z ≡ 0 → s'.cell z ≡ s.cell z)
    → Mended xs spots s s'
mended s s' v k (n, nr, bh, rk, f) e rep rep_k out =
    let (rep', root) = Rep-plug s'.cell s'.root v k rep rep_k in
    (plug v k, plug-IsRb v k n nr bh rk f, e, rep', root, out)

-- The place of `t`, one black node too low below `p`, whose other child `s` is black.
pub record Site (d : Side) (c : Color) (t : Tree) (p : ℕ) (near : Tree) (s : ℕ) (far : Tree)
    (k : Ctx) (n : ℕ) (st : State) : Type 0 where
  pub p_ne : p ≢ 0
  pub s_ne : s ≢ 0
  pub p_cell : st.cell p ≡ some (cell_of d (up k) c (addr t) s)
  pub s_cell : st.cell s ≡ some (cell_of d p black (addr near) (addr far))
  pub rep_t : Rep st.cell p t
  pub rep_near : Rep st.cell s near
  pub rep_far : Rep st.cell s far
  pub rep_ctx : RepCtx st.cell st.root p k
  pub uniq : (z : ℕ) → spots z s p far near t k ≤ 1
  pub black_t : IsBlack t
  pub sound_t : Sound t n
  pub sound_near : Sound near n
  pub sound_far : Sound far n
  pub room : Room c k (suc n)

-- What the round is to reach.
abbrev pub Goal : Side → Color → Tree → ℕ → Tree → ℕ → Tree → Ctx → State → State → Type 0
Goal d c t p near s far k =
    Mended (inorder (plug (join d c t p (join d black near s far)) k))
      (λ z. spots z s p far near t k)

pub ne_false : (a : ℕ) → a ≢ 0 → (a == 0) ≡ false
ne_false a ne = ground arith

-- Which way `tmp && rb_is_red(tmp)` goes.
pub when_red-red :
    (a q m n : ℕ) (f g : Cmd) (s : State)
    → a ≢ 0
    → s.cell a ≡ some (cell_of left q red m n)
    → when_red a f g s ≡ f s
unfolding when_red
when_red-red a q m n f g s ne e = ground arith

pub when_red-black :
    (t : Tree) (q : ℕ) (f g : Cmd) (s : State)
    → IsBlack t
    → Rep s.cell q t
    → when_red (addr t) f g s ≡ g s
unfolding when_red
when_red-black leaf q f g s b rep = refl
when_red-black (node red l a r) q f g s b rep = elim b [ ]
when_red-black (node black l a r) q f g s b (ne, e, rl, rr) = ground arith

module _ (d : Side) (c : Color) (t : Tree) (p s : ℕ) (k : Ctx) (n : ℕ) (st : State) where
  -- Case 4, with a red far child.
  pub settle_raise :
      (near fl : Tree) (f : ℕ) (fr : Tree)
      → Site d c t p near s (node red fl f fr) k n st
      → Returns (Goal d c t p near s (node red fl f fr) k st) (raise d f s p st)
  settle_raise near fl f fr h =
      let far = node red fl f fr in
      let (ef, r1, r2) = Rep-sides st.cell d s red fl f fr h.rep_far in
      let ((s1, b1), (s2, b2)) = Sound-red d fl f fr n h.sound_far in
      weaken
        (raise_lem d p s f t near (sub d far) (sub (other d) far) k s p s s c black red st h.p_ne
          h.s_ne h.rep_far.0 h.p_cell h.s_cell ef h.rep_t h.rep_near r1 r2 h.rep_ctx
          (λ z. omega (arith, h.uniq z, occ-sides z d red fl f fr)))
        λ s' (rep, rk', out).
          let f' = join d black (sub d far) f (sub (other d) far) in
          let v = join d c (join d black t p near) s f' in
          mended st s' v k
            (RbAt-join d c (join d black t p near) s f' k (suc n) (IsBlack-join d t p near)
              (IsBlack-join d (sub d far) f (sub (other d) far))
              (Sound-join d t p near n h.sound_t h.sound_near)
              (Sound-join d (sub d far) f (sub (other d) far) n s1 s2) h.room)
            (inorder-plug _ _ k (
              inorder-join d c c (join d black t p near) (join d black t p near) s f' far refl
                (inorder-red d black fl f fr)
              ∙ inorder-raise d c black c black t p near s far))
            rep (rw (addr-join d c (join d black t p near) s f') rk')
            λ z i. out z (omega (arith, i, occ-sides z d red fl f fr))

  -- Case 3, with a black far child and a red near one.
  pub settle_inner :
      (nl : Tree) (m : ℕ) (nr far : Tree)
      → Site d c t p (node red nl m nr) s far k n st
      → Returns (Goal d c t p (node red nl m nr) s far k st) (raise_inner d m s p st)
  settle_inner nl m nr far h =
      let near = node red nl m nr in
      let (em, ra, rb) = Rep-sides st.cell d s red nl m nr h.rep_near in
      let ((sa, ba), (sb, bb)) = Sound-red d nl m nr n h.sound_near in
      let a = sub d near in
      let b = sub (other d) near in
      weaken
        (raise_inner_lem d p s m t a b far k p s c black red st h.p_ne h.s_ne h.rep_near.0 h.p_cell
          h.s_cell em h.rep_t ra rb h.rep_far h.rep_ctx
          (λ z. omega (arith, h.uniq z, occ-sides z d red nl m nr)))
        λ s' (rep, rk', out).
          let s_tree = join d black (blacken b) s far in
          let v = join d c (join d black t p a) m s_tree in
          mended st s' v k
            (RbAt-join d c (join d black t p a) m s_tree k (suc n) (IsBlack-join d t p a)
              (IsBlack-join d (blacken b) s far) (Sound-join d t p a n h.sound_t sa)
              (Sound-join d (blacken b) s far n (rw (blacken_black b bb) sb) h.sound_far) h.room)
            (inorder-plug v (join d c t p (join d black near s far)) k
              (inorder-raise_inner d c t p nl m nr s far))
            rep (rw (addr-join d c (join d black t p a) m s_tree) rk')
            λ z i. out z (omega (arith, i, occ-sides z d red nl m nr))

light-Sound :
    (d : Side) {c : Color} (t : Tree) (p : ℕ) (near : Tree) (s : ℕ) (far : Tree) (k : Ctx) (n : ℕ)
    (st : State)
    → Site d c t p near s far k n st
    → IsBlack near
    → IsBlack far
    → Sound (join d black t p (join d red near s far)) (suc n)
light-Sound d t p near s far k n st h bn bf =
    Sound-join d t p (join d red near s far) n h.sound_t
      (Sound-lightened d near s far n bn bf h.sound_near h.sound_far)

light-RbAt :
    (d : Side) {c : Color} (t : Tree) (p : ℕ) (near : Tree) (s : ℕ) (far : Tree) (k : Ctx) (n : ℕ)
    (st : State)
    → Site d c t p near s far k n st
    → IsBlack near
    → IsBlack far
    → RbCtx k (suc n)
    → RbAt (join d black t p (join d red near s far)) k
light-RbAt d t p near s far k n st h bn bf rk =
    let u = join d red near s far in
    let sound = light-Sound d t p near s far k n st h bn bf in
    (suc n, sound.0, sound.1, rk, Fits-black (join d black t p u) k (IsBlack-join d t p u))

pub light_order :
    (d : Side) (c : Color) (t : Tree) (p : ℕ) (near : Tree) (s : ℕ) (far : Tree) (k : Ctx)
    → inorder (plug (join d black t p (join d red near s far)) k)
      ≡ inorder (plug (join d c t p (join d black near s far)) k)
light_order d c t p near s far k =
    inorder-plug (join d black t p (join d red near s far)) (join d c t p (join d black near s far))
      k
      (inorder-join d black c t t p (join d red near s far) (join d black near s far) refl
        (inorder-join d red black near near s far far refl refl))

-- Case 2 below a red `p`.
pub settle_light_red :
    (d : Side) (t : Tree) (p : ℕ) (near : Tree) (s : ℕ) (far : Tree) (k : Ctx) (n : ℕ) (st : State)
    (again : ℕ → ℕ → Cmd)
    → Site d red t p near s far k n st
    → IsBlack near
    → IsBlack far
    → Returns (Goal d red t p near s far k st) (lighten again s p st)
settle_light_red d t p near s far k n st again h bn bf =
    weaken
      (lighten_red d p s t near far k red black st h.p_ne h.s_ne h.p_cell h.s_cell h.rep_t
        h.rep_near h.rep_far h.rep_ctx h.uniq again refl)
      λ s' (rep, rk', out).
        let u = join d red near s far in
        let v = join d black t p u in
        mended st s' v k (light-RbAt d t p near s far k n st h bn bf h.room.1)
          (light_order d red t p near s far k) rep (rw (addr-join d black t p u) rk') out

-- Case 2 below a black `p`, where the rounds may go on.
pub settle_light_black :
    (d : Side) (t : Tree) (p : ℕ) (near : Tree) (s : ℕ) (far : Tree) (k : Ctx) (n : ℕ) (st : State)
    (again : ℕ → ℕ → Cmd)
    → Site d black t p near s far k n st
    → IsBlack near
    → IsBlack far
    → ((s' : State)
        → Lightened d p s t near far k st s'
        → up k ≢ 0
        → Sound (join d black t p (join d red near s far)) (suc n)
        → Returns (Goal d black t p near s far k st) (again p (up k) s'))
    → Returns (Goal d black t p near s far k st) (lighten again s p st)
settle_light_black d t p near s far top n st again h bn bf next =
    lighten_black d p s t near far top black black st h.p_ne h.s_ne h.p_cell h.s_cell h.rep_t
      h.rep_near h.rep_far h.rep_ctx h.uniq again refl
      λ s' (rep, rk', out).
        let v = join d black t p (join d red near s far) in
        returns (
          mended st s' v top (light-RbAt d t p near s far top n st h bn bf tt)
            (light_order d black t p near s far top) rep
            (rw (addr-join d black t p (join d red near s far)) rk') out)
settle_light_black d t p near s far (under d' c' a' u' k) n st again h bn bf next =
    lighten_black d p s t near far (under d' c' a' u' k) black black st h.p_ne h.s_ne h.p_cell
      h.s_cell h.rep_t h.rep_near h.rep_far h.rep_ctx h.uniq again refl
      λ s' l.
        let e : (a' == 0) ≡ false = ne_false a' h.rep_ctx.0 in
        rw e
          (next s' l h.rep_ctx.0 (light-Sound d t p near s far (under d' c' a' u' k) n st h bn bf))
