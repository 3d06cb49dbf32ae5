-- ===== src/RbTree/Walk/Place.antt =====
-- Every node of a tree stands at a place, where what comes behind it can be read off.
use struct.Base.{
  ℕ, ◌+◌, ◌≤◌, ◌<◌, ◌≡◌, ◌∙◌, refl, sym, ap, arith, List, [], ◌∷◌, ◌++◌, append_assoc,
}
use struct.RbTree.State.{Side, left, right}
use struct.RbTree.Tree.{Tree, leaf, node, Ctx, under, addr, plug, sub, depth}
use struct.RbTree.Walk.Laws.{walk, behind, height}

-- Two ways to single out an item of one list: the first comes before the second, they are the
-- same, or it comes after.
pub data Cut (ws : List ℕ) (v : ℕ) (vs xs : List ℕ) (y : ℕ) (ys : List ℕ) : Type 0 where
  before : (zs : List ℕ) → ws ≡ xs ++ (y ∷ zs) → ys ≡ zs ++ (v ∷ vs) → Cut ws v vs xs y ys
  here : ws ≡ xs → v ≡ y → vs ≡ ys → Cut ws v vs xs y ys
  after : (zs : List ℕ) → xs ≡ ws ++ (v ∷ zs) → vs ≡ zs ++ (y ∷ ys) → Cut ws v vs xs y ys

pub cut :
    (ws : List ℕ) (v : ℕ) (vs xs : List ℕ) (y : ℕ) (ys : List ℕ)
    → ws ++ (v ∷ vs) ≡ xs ++ (y ∷ ys)
    → Cut ws v vs xs y ys
cut [] v vs [] y ys e = here refl (cc) (cc)
cut [] v vs (x ∷ xs) y ys e = after xs (cc) (cc)
cut (w ∷ ws) v vs [] y ys e = before ws (cc) (cc)
cut (w ∷ ws) v vs (x ∷ xs) y ys e = shift (cut ws v vs xs y ys (cc))
  where
    shift : Cut ws v vs xs y ys → Cut (w ∷ ws) v vs (x ∷ xs) y ys
    shift (before zs p q) = before zs (cc) q
    shift (here o p q) = here (cc) p q
    shift (after zs o p) = after zs (cc) p

-- Two ways to cut one list in two, the first before an item `v`.
pub data Part (ws : List ℕ) (v : ℕ) (vs xs ys : List ℕ) : Type 0 where
  item_right : (zs : List ℕ) → ws ≡ xs ++ zs → ys ≡ zs ++ (v ∷ vs) → Part ws v vs xs ys
  item_left : (zs : List ℕ) → xs ≡ ws ++ (v ∷ zs) → vs ≡ zs ++ ys → Part ws v vs xs ys

pub part :
    (ws : List ℕ) (v : ℕ) (vs xs ys : List ℕ) → ws ++ (v ∷ vs) ≡ xs ++ ys → Part ws v vs xs ys
part ws v vs [] ys e = item_right ws refl (sym e)
part [] v vs (x ∷ xs) ys e = item_left xs (cc) (cc)
part (w ∷ ws) v vs (x ∷ xs) ys e = shift (part ws v vs xs ys (cc))
  where
    shift : Part ws v vs xs ys → Part (w ∷ ws) v vs (x ∷ xs) ys
    shift (item_right zs p q) = item_right zs (cc) q
    shift (item_left zs p q) = item_left zs (cc) q

-- The place of the node `nd`, with the nodes `ys` of the subtree behind it.
abbrev pub PlaceOf : Side → Tree → Ctx → ℕ → List ℕ → Type 0
PlaceOf d t k nd ys =
    (t' : Tree) × (k' : Ctx) × (plug t' k' ≡ plug t k)
    × (addr t' ≡ nd)
    × (0 < height t')
    × (walk d (sub d t') ++ behind d k' ≡ ys ++ behind d k)
    × (height (sub d t') + depth k' ≤ height t + depth k)

pub locate :
    (d : Side) (t : Tree) (k : Ctx) (xs : List ℕ) (nd : ℕ) (ys : List ℕ)
    → walk d t ≡ xs ++ (nd ∷ ys)
    → PlaceOf d t k nd ys
unfolding walk behind
locate d leaf k [] nd ys e = absurd (cc e)
locate d leaf k (x ∷ xs) nd ys e = absurd (cc e)
locate right (node c l a r) k xs nd ys e = elim (cut (walk right l) a (walk right r) xs nd ys e) [
  | before zs p q ↦
      let (t', k', e1, e2, e5, e3, e4) = locate right l (under left c a r k) xs nd zs p in
      (
        t',
        k',
        e1,
        e2,
        e5,
        e3
            ∙ sym (append_assoc zs (a ∷ walk right r) (behind right k))
            ∙ ap (λ w. w ++ behind right k) (sym q),
        omega arith,
      )
  | here o p q ↦
      (node c l a r, k, refl, p, omega arith, ap (λ w. w ++ behind right k) q, omega arith)
  | after zs o p ↦
      let (t', k', e1, e2, e5, e3, e4) = locate right r (under right c a l k) zs nd ys p in
      (t', k', e1, e2, e5, e3, omega arith)
]
locate left (node c l a r) k xs nd ys e = elim (cut (walk left r) a (walk left l) xs nd ys e) [
  | before zs p q ↦
      let (t', k', e1, e2, e5, e3, e4) = locate left r (under right c a l k) xs nd zs p in
      (
        t',
        k',
        e1,
        e2,
        e5,
        e3
            ∙ sym (append_assoc zs (a ∷ walk left l) (behind left k))
            ∙ ap (λ w. w ++ behind left k) (sym q),
        omega arith,
      )
  | here o p q ↦
      (node c l a r, k, refl, p, omega arith, ap (λ w. w ++ behind left k) q, omega arith)
  | after zs o p ↦
      let (t', k', e1, e2, e5, e3, e4) = locate left l (under left c a r k) zs nd ys p in
      (t', k', e1, e2, e5, e3, omega arith)
]
