-- ===== src/Avl/Search.antt =====
-- Searches in a tree whose key ranges are in order.
use struct.Base.{
  ℕ, zero, suc, ◌≤◌, ◌<◌, ◌≡◌, ◌≢◌, ◌∙◌, refl, sym, ap, arith, max, false, Bool-cases, inl, inr,
  ◌&&◌, some, List, [], ◌∷◌, ◌++◌, All, All-append, All_mono, ◌==◌, ltb, leb, if◌then◌else◌,
}
use struct.Avl.{AvlNode, Cells, find_entry}

-- A node with its address and its range of keys.
pub record Entry : Type 0 where
  pub addr : ℕ
  pub lo : ℕ
  pub hi : ℕ

pub data Tree : Type 0 where
  leaf : Tree
  node : Tree → Entry → Tree → Tree

abbrev pub root : Tree → ℕ
root leaf = 0
root (node l e r) = e.addr

abbrev pub depth : Tree → ℕ
depth leaf = 0
depth (node l e r) = suc (max (depth l) (depth r))

abbrev pub entries : Tree → List Entry
entries leaf = []
entries (node l e r) = entries l ++ (e ∷ entries r)

-- The tree lies on the heap; parents and heights may be anything.
abbrev pub Rep : Cells → Tree → Type 0
Rep h leaf = Unit
Rep h (node l e r) =
    (e.addr ≢ 0)
    × ((n : AvlNode) × (h e.addr ≡ some n)
        × (n.min_key ≡ e.lo)
        × (n.max_key ≡ e.hi)
        × (n.left ≡ root l)
        × (n.right ≡ root r))
    × Rep h l
    × Rep h r

-- Ranges that do not overlap, in ascending order.
abbrev pub Ordered : List Entry → Type 0
Ordered [] = Unit
Ordered (e ∷ es) = (e.lo ≤ e.hi) × All (λ f. e.hi < f.lo) es × Ordered es

-- The specification: the entry of the list that has the key.
unfoldable pub holder : ℕ → List Entry → ℕ
holder key [] = 0
holder key (e ∷ es) = if leb e.lo key && leb key e.hi then e.addr else holder key es

pub Ordered-split :
    (es : List Entry) (e : Entry) (fs : List Entry)
    → Ordered (es ++ (e ∷ fs))
    → Ordered es
      × All (λ f. f.hi < e.lo) es
      × (e.lo ≤ e.hi)
      × All (λ f. e.hi < f.lo) fs
      × Ordered fs
Ordered-split [] e fs (a, b, c) = (tt, tt, a, b, c)
Ordered-split (x ∷ es) e fs (a, b, c) =
    let (o, p, q, r, s) = Ordered-split es e fs c in
    let (b1, b2) = All-append (λ f. x.hi < f.lo) es (e ∷ fs) b in ((a, b1, o), (b2.0, p), q, r, s)

holder_right :
    (key : ℕ) (es fs : List Entry)
    → All (λ f. f.hi < key) es
    → holder key (es ++ fs) ≡ holder key fs
unfolding holder
holder_right key [] fs p = refl
holder_right key (e ∷ es) fs (p, ps) = ground (arith, p, holder_right key es fs ps)

holder_none : (key : ℕ) (es : List Entry) → All (λ f. key < f.lo) es → holder key es ≡ 0
unfolding holder
holder_none key [] p = refl
holder_none key (e ∷ es) (p, ps) = ground (arith, p, holder_none key es ps)

holder_left :
    (key : ℕ) (es fs : List Entry) → holder key fs ≡ 0 → holder key (es ++ fs) ≡ holder key es
unfolding holder
holder_left key [] fs z = z
holder_left key (e ∷ es) fs z = ground (arith, holder_left key es fs z)

-- FindAvlEntry in a tree of ordered ranges returns the node whose range has the key, or NULL if
-- there is none; fuel above the height of the tree is enough.
pub find_entry_lem :
    (h : Cells) (key fuel : ℕ) (t : Tree)
    → Rep h t
    → Ordered (entries t)
    → depth t < fuel
    → find_entry fuel (root t) key h ≡ some (holder key (entries t))
unfolding find_entry holder
find_entry_lem h key zero t rep o lt = absurd (omega arith)
find_entry_lem h key (suc fuel) leaf rep o lt = refl
find_entry_lem h key (suc fuel) (node l e r) (ne, (n, at, lo, hi, nl, nr), rl, rr) o lt =
    let (ol, below, mid, above, or) = Ordered-split (entries l) e (entries r) o in
    let here : (e.addr == 0) ≡ false = ground (arith, ne) in
    let go_left = find_entry_lem h key fuel l rl ol (omega arith) in
    let go_right = find_entry_lem h key fuel r rr or (omega arith) in
    elim (Bool-cases (leb e.lo key && leb key e.hi)) [
      | inl inside ↦
          let skip : holder key (entries l ++ (e ∷ entries r)) ≡ holder key (e ∷ entries r) =
            holder_right key (entries l) (e ∷ entries r)
              (All_mono (entries l) (λ f p. ground (arith, p, inside)) below) in
          rw (here, find_entry, at, lo, hi, inside)
            (ap some (sym (skip ∙ rw (inside, holder) refl)))
      | inr outside ↦ elim (Bool-cases (ltb key e.lo)) [
        | inl smaller ↦
            let none_there : holder key (e ∷ entries r) ≡ 0 =
              rw (outside, holder)
                (holder_none key (entries r)
                  (All_mono (entries r) (λ f p. ground (arith, p, smaller, mid)) above)) in
            rw (here, find_entry, at, lo, hi, outside, smaller, nl, go_left)
              (ap some (sym (holder_left key (entries l) (e ∷ entries r) none_there)))
        | inr larger ↦
            let skip : holder key (entries l ++ (e ∷ entries r)) ≡ holder key (e ∷ entries r) =
              holder_right key (entries l) (e ∷ entries r)
                (All_mono (entries l) (λ f p. ground (arith, p, larger)) below) in
            rw (here, find_entry, at, lo, hi, outside, larger, nr, go_right)
              (ap some (sym (skip ∙ rw (outside, holder) refl)))
      ]
    ]
