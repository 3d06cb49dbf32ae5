-- ===== src/RbTree/Erase/Round.antt =====
-- The cases of a round of `__rb_erase_color` together, below a black sibling.
use struct.Base.{ℕ, suc, ◌≡◌, ◌≢◌, ◌∙◌, refl}
use struct.RbTree.State.{Color, red, black, Side, left, right, State, Cmd, load, Returns}
use struct.RbTree.Tree.{Tree, leaf, node, Ctx, join, addr, up}
use struct.RbTree.Insert.{when_red}
use struct.RbTree.Erase.{settle, raise, raise_inner, lighten}
use struct.RbTree.Erase.Lower.{Lightened}
use struct.RbTree.Balance.{IsBlack}
use struct.RbTree.Erase.Balance.{Sound}
use struct.RbTree.Erase.Settle.{
  Site, Goal, when_red-red, when_red-black, settle_raise, settle_inner, settle_light_red,
  settle_light_black,
}

-- Below a black sibling.
module _ (d : Side) (c : Color) (t : Tree) (p s : ℕ) (k : Ctx) (n : ℕ) (st : State)
    (again : ℕ → ℕ → Cmd) where
  -- How the rounds go on, where they do.
  abbrev pub Next : Tree → Tree → Type 0
  Next near far =
      (c ≡ black)
      → (s' : State) → Lightened d p s t near far k st s'
      → up k ≢ 0
      → Sound (join d black t p (join d red near s far)) (suc n)
      → Returns (Goal d c t p near s far k st) (again p (up k) s')

settle_light :
    (d : Side) (c : Color) (t : Tree) (p : ℕ) (near : Tree) (s : ℕ) (far : Tree) (k : Ctx) (n : ℕ)
    (st : State) (again : ℕ → ℕ → Cmd)
    → Site d c t p near s far k n st
    → IsBlack near
    → IsBlack far
    → Next d c t p s k n st again near far
    → Returns (Goal d c t p near s far k st) (lighten again s p st)
settle_light d red t p near s far k n st again h bn bf next =
    settle_light_red d t p near s far k n st again h bn bf
settle_light d black t p near s far k n st again h bn bf next =
    settle_light_black d t p near s far k n st again h bn bf (next refl)

settle_black :
    (d : Side) (c : Color) (t : Tree) (p : ℕ) (near : Tree) (s : ℕ) (far : Tree) (k : Ctx) (n : ℕ)
    (st : State) (again : ℕ → ℕ → Cmd)
    → Site d c t p near s far k n st
    → IsBlack far
    → Next d c t p s k n st again near far
    → Returns
        (Goal d c t p near s far k st)
        (when_red (addr near) (raise_inner d (addr near) s p) (lighten again s p) st)
settle_black d c t p leaf s far k n st again h bf next =
    rw (when_red-black leaf s (raise_inner d 0 s p) (lighten again s p) st tt tt)
      (settle_light d c t p leaf s far k n st again h tt bf next)
settle_black d c t p (node black nl m nr) s far k n st again h bf next =
    rw
      (when_red-black (node black nl m nr) s (raise_inner d m s p) (lighten again s p) st tt
        h.rep_near)
      (settle_light d c t p (node black nl m nr) s far k n st again h tt bf next)
settle_black d c t p (node red nl m nr) s far k n st again h bf next =
    rw
      (when_red-red m s (addr nl) (addr nr) (raise_inner d m s p) (lighten again s p) st
        h.rep_near.0 h.rep_near.1)
      (settle_inner d c t p s k n st nl m nr far h)

settle_sides :
    (d : Side) (c : Color) (t : Tree) (p : ℕ) (near : Tree) (s : ℕ) (far : Tree) (k : Ctx) (n : ℕ)
    (st : State) (again : ℕ → ℕ → Cmd)
    → Site d c t p near s far k n st
    → settle d again s p st
      ≡ when_red
          (addr far)
          (raise d (addr far) s p)
          (when_red (addr near) (raise_inner d (addr near) s p) (lighten again s p))
          st
unfolding settle
settle_sides left c t p near s far k n st again h = rw (h.s_cell, load) refl
settle_sides right c t p near s far k n st again h = rw (h.s_cell, load) refl

-- A round below a black sibling ends with the tree mended, or goes on from `p`.
pub settle_lem :
    (d : Side) (c : Color) (t : Tree) (p : ℕ) (near : Tree) (s : ℕ) (far : Tree) (k : Ctx) (n : ℕ)
    (st : State) (again : ℕ → ℕ → Cmd)
    → Site d c t p near s far k n st
    → Next d c t p s k n st again near far
    → Returns (Goal d c t p near s far k st) (settle d again s p st)
settle_lem d c t p near s leaf k n st again h next =
    rw
      (settle_sides d c t p near s leaf k n st again h
        ∙ when_red-black leaf s (raise d 0 s p)
            (when_red (addr near) (raise_inner d (addr near) s p) (lighten again s p)) st tt tt)
      (settle_black d c t p near s leaf k n st again h tt next)
settle_lem d c t p near s (node black fl f fr) k n st again h next =
    rw
      (settle_sides d c t p near s (node black fl f fr) k n st again h
        ∙ when_red-black (node black fl f fr) s (raise d f s p)
            (when_red (addr near) (raise_inner d (addr near) s p) (lighten again s p)) st tt
            h.rep_far)
      (settle_black d c t p near s (node black fl f fr) k n st again h tt next)
settle_lem d c t p near s (node red fl f fr) k n st again h next =
    rw
      (settle_sides d c t p near s (node red fl f fr) k n st again h
        ∙ when_red-red f s (addr fl) (addr fr) (raise d f s p)
            (when_red (addr near) (raise_inner d (addr near) s p) (lighten again s p)) st
            h.rep_far.0 h.rep_far.1)
      (settle_raise d c t p s k n st near fl f fr h)
