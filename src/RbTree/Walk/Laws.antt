-- ===== src/RbTree/Walk/Laws.antt =====
-- The walks over a heap that holds a tree follow the order of its nodes.
use struct.Base.{
  one, ℕ, zero, suc, ◌+◌, ◌≤◌, ◌<◌, ◌≡◌, ◌≢◌, ◌∙◌, refl, sym, ap, arith, max, some, List, [], ◌∷◌,
  ◌++◌, append_assoc, ◌==◌, if◌then◌else◌,
}
use struct.RbTree.State.{Color, Side, left, right, other, RbNode, State}
use struct.RbTree.Tree.{Tree, leaf, node, Ctx, top, under, addr, up, depth, occ_ctx}
use struct.RbTree.Rep.{cell_of, Rep, RepCtx}
use struct.RbTree.Ops.{addr_ne}
use struct.RbTree.Rotate.{one_self}
use struct.RbTree.Walk.{extreme, climb}

-- The nodes in the order in which a walk towards side `d` meets them.
unfoldable pub walk : Side → Tree → List ℕ
walk d leaf = []
walk left (node c l a r) = walk left r ++ (a ∷ walk left l)
walk right (node c l a r) = walk right l ++ (a ∷ walk right r)

-- The nodes that such a walk meets behind a place.
unfoldable pub behind : Side → Ctx → List ℕ
behind d top = []
behind left (under left c a u k) = behind left k
behind right (under right c a u k) = behind right k
behind left (under right c a u k) = a ∷ (walk left u ++ behind left k)
behind right (under left c a u k) = a ∷ (walk right u ++ behind right k)

-- The node at hand, NULL at the end.
abbrev pub first_of_list : List ℕ → ℕ
first_of_list [] = 0
first_of_list (x ∷ xs) = x

abbrev pub height : Tree → ℕ
height leaf = 0
height (node c l a r) = suc (max (height l) (height r))

pub if_ne {ℓ} : {A : Type ℓ} (x y : A) (m : ℕ) → m ≢ 0 → (if m == 0 then x else y) ≡ y
if_ne x y m ne = ground arith

extreme_step :
    (d : Side) (fuel a q v m : ℕ) (c : Color) (s : State)
    → s.cell a ≡ some (cell_of d q c m v)
    → extreme d (suc fuel) a s ≡ (if m == 0 then some a else extreme d fuel m s)
unfolding extreme
extreme_step left fuel a q v m c s e = ground arith
extreme_step right fuel a q v m c s e = ground arith

-- Following one side down from a node ends at the first node of the walk the other way.
pub extreme_lem :
    (d : Side) (fuel : ℕ) (t : Tree) (q : ℕ) (s : State)
    → Rep s.cell q t
    → addr t ≢ 0
    → height t ≤ fuel
    → (rest : List ℕ) → extreme (other d) fuel (addr t) s ≡ some (first_of_list (walk d t ++ rest))
unfolding walk
extreme_lem d fuel leaf q s rep ne h rest = absurd (ne refl)
extreme_lem d zero (node c l a r) q s rep ne h rest = absurd (omega arith)
extreme_lem right (suc fuel) (node c leaf a r) q s (ne', e, rl, rr) ne h rest =
    extreme_step left fuel a q (addr r) 0 c s e
extreme_lem right (suc fuel) (node c (node c' l' a' r') a r) q s (ne', e, rl, rr) ne h rest =
    extreme_step left fuel a q (addr r) a' c s e
    ∙ if_ne _ _ a' rl.0
    ∙ extreme_lem right fuel (node c' l' a' r') a s rl rl.0 (omega arith)
        (a ∷ (walk right r ++ rest))
    ∙ ap (λ w. some (first_of_list w))
        (sym (append_assoc (walk right (node c' l' a' r')) (a ∷ walk right r) rest))
extreme_lem left (suc fuel) (node c l a leaf) q s (ne', e, rl, rr) ne h rest =
    extreme_step right fuel a q (addr l) 0 c s e
extreme_lem left (suc fuel) (node c l a (node c' l' a' r')) q s (ne', e, rl, rr) ne h rest =
    extreme_step right fuel a q (addr l) a' c s e
    ∙ if_ne _ _ a' rr.0
    ∙ extreme_lem left fuel (node c' l' a' r') a s rr rr.0 (omega arith) (a ∷ (walk left l ++ rest))
    ∙ ap (λ w. some (first_of_list w))
        (sym (append_assoc (walk left (node c' l' a' r')) (a ∷ walk left l) rest))

climb_step :
    (d : Side) (fuel nd a q x : ℕ) (c : Color) (s : State) {n : RbNode}
    → s.cell nd ≡ some n
    → n.parent ≡ a
    → a ≢ 0
    → s.cell a ≡ some (cell_of d q c nd x)
    → climb d (suc fuel) nd s ≡ climb d fuel a s
unfolding climb
climb_step left fuel nd a q x c s en ep ne ea = ground arith
climb_step right fuel nd a q x c s en ep ne ea = ground arith

climb_stop :
    (d : Side) (fuel nd a q x : ℕ) (c : Color) (s : State) {n : RbNode}
    → s.cell nd ≡ some n
    → n.parent ≡ a
    → a ≢ 0
    → x ≢ nd
    → s.cell a ≡ some (cell_of (other d) q c nd x)
    → climb d (suc fuel) nd s ≡ some a
unfolding climb
climb_stop left fuel nd a q x c s en ep ne nx ea = ground arith
climb_stop right fuel nd a q x c s en ep ne nx ea = ground arith

-- Going up from a node until it is not on side `d` ends at the first node behind its place.
pub climb_lem :
    (d : Side) (fuel nd : ℕ) (k : Ctx) (r : ℕ) (s : State) {n : RbNode}
    → depth k < fuel
    → s.cell nd ≡ some n
    → n.parent ≡ up k
    → nd ≢ 0
    → RepCtx s.cell r nd k
    → ((z : ℕ) → one z nd + occ_ctx z k ≤ 1)
    → climb d fuel nd s ≡ some (first_of_list (behind d k))
unfolding occ_ctx behind
climb_lem d zero nd k r s h en ep ne rk uniq = absurd (omega arith)
climb_lem d (suc fuel) nd top r s h en ep ne rk uniq = unfold climb in ground arith
climb_lem left (suc fuel) nd (under left c a u k) r s h en ep ne (na, ea, ru, rk) uniq =
    climb_step left fuel nd a (up k) (addr u) c s en ep na ea
    ∙ climb_lem left fuel a k r s (omega arith) ea refl na rk (λ z. omega (arith, uniq z))
climb_lem right (suc fuel) nd (under right c a u k) r s h en ep ne (na, ea, ru, rk) uniq =
    climb_step right fuel nd a (up k) (addr u) c s en ep na ea
    ∙ climb_lem right fuel a k r s (omega arith) ea refl na rk (λ z. omega (arith, uniq z))
climb_lem left (suc fuel) nd (under right c a u k) r s h en ep ne (na, ea, ru, rk) uniq =
    climb_stop left fuel nd a (up k) (addr u) c s en ep na
      (addr_ne nd u ne (omega (arith, uniq nd, one_self nd))) ea
climb_lem right (suc fuel) nd (under left c a u k) r s h en ep ne (na, ea, ru, rk) uniq =
    climb_stop right fuel nd a (up k) (addr u) c s en ep na
      (addr_ne nd u ne (omega (arith, uniq nd, one_self nd))) ea
