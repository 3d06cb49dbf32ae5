-- ===== src/Avl/Shape.antt =====
-- What the writes of avltree.cpp leave of a tree with its heights.
use struct.Base.{
  ℕ, ◌<◌, ◌≡◌, ◌≢◌, ◌∙◌, inl, inr, refl, sym, ap, subst, arith, ==_iff, none, max, true, false,
  Bool-cases, some, List, [], ◌∷◌, ◌++◌, ◌==◌, one, occurrences, occurrences-append,
}
use struct.Avl.{AvlNode, Cells}
use struct.Avl.Search.{Entry, Tree, leaf, node, root, depth}
use struct.Avl.Change.{◌>>=◌, put, load, update, get_height, fix_height, set_parent_if}

-- The addresses of a tree.
abbrev pub addrs : Tree → List ℕ
addrs leaf = []
addrs (node l e r) = e.addr ∷ (addrs l ++ addrs r)

-- A node as the tree has it; its parent and its bytes may be anything.
abbrev pub At : Entry → (l r : Tree) → AvlNode → Type 0
At e l r n =
    (n.min_key ≡ e.lo)
    × (n.max_key ≡ e.hi)
    × (n.left ≡ root l)
    × (n.right ≡ root r)
    × (n.height ≡ max (depth l) (depth r))

-- The tree lies on the heap with its heights.
abbrev pub Stands : Cells → Tree → Type 0
Stands h leaf = Unit
Stands h (node l e r) =
    (e.addr ≢ 0) × ((n : AvlNode) × (h e.addr ≡ some n) × At e l r n) × Stands h l × Stands h r

some_inj : (m n : AvlNode) → some m ≡ some n → m ≡ n
some_inj m n eq = ap (λ o. elim o [ none ↦ m | some x ↦ x ]) eq

-- Writes to nodes that are not in a tree, and to parents, leave it.
pub put-Stands :
    (h : Cells) (p : ℕ) (n : AvlNode) (t : Tree)
    → occurrences p (addrs t) ≡ 0
    → Stands h t
    → Stands (put p n h) t
unfolding occurrences
put-Stands h p n leaf out s = tt
put-Stands h p n (node l e r) out (ne, (m, at, fields), sl, sr) =
    let differ : (e.addr == p) ≡ false = ground (arith, out) in
    (
      ne,
      (m, rw differ at, fields),
      put-Stands h p n l (omega (arith, out, occurrences-append p (addrs l) (addrs r))) sl,
      put-Stands h p n r (omega (arith, out, occurrences-append p (addrs l) (addrs r))) sr,
    )

pub parent-Stands :
    (h : Cells) (p q : ℕ) (n : AvlNode) (t : Tree)
    → h p ≡ some n
    → Stands h t
    → Stands (put p (record n { parent = q }) h) t
parent-Stands h p q n leaf here s = tt
parent-Stands h p q n (node l e r) here (ne, (m, at, fields), sl, sr) = (
  ne,
  elim (Bool-cases (e.addr == p)) [
    | inl same ↦
        let one_node : m ≡ n = some_inj m n (sym at ∙ ap h ((==_iff e.addr p).0 same) ∙ here) in
        (record n { parent = q }, rw same refl, subst (At e l r) one_node fields)
    | inr differ ↦ (m, rw differ at, fields)
  ],
  parent-Stands h p q n l here sl,
  parent-Stands h p q n r here sr,
)

pub get_height_lem : (h : Cells) (t : Tree) → Stands h t → get_height (root t) h ≡ some (depth t, h)
unfolding get_height
get_height_lem h leaf s = refl
get_height_lem h (node l e r) (ne, (n, at, fields), sl, sr) =
    let here : (e.addr == 0) ≡ false = ground (arith, ne) in
    rw (here, get_height, ◌>>=◌, load, at, fields.4) (ap (λ w. some (w, h)) (omega arith))

pub update_run :
    (p : ℕ) (f : AvlNode → AvlNode) (n : AvlNode) (h : Cells)
    → h p ≡ some n
    → update p f h ≡ some (tt, put p (f n) h)
update_run p f n h at = rw (update, at) refl

pub fix_height_lem :
    (h : Cells) (p : ℕ) (n : AvlNode) (l r : Tree)
    → h p ≡ some n
    → n.left ≡ root l
    → n.right ≡ root r
    → Stands h l
    → Stands h r
    → fix_height p h ≡ some (tt, put p (record n { height = max (depth l) (depth r) }) h)
unfolding fix_height
fix_height_lem h p n l r at nl nr sl sr =
    let gl : get_height n.left h ≡ some (depth l, h) =
      subst (λ w. get_height w h ≡ some (depth l, h)) (sym nl) (get_height_lem h l sl) in
    let gr : get_height n.right h ≡ some (depth r, h) =
      subst (λ w. get_height w h ≡ some (depth r, h)) (sym nr) (get_height_lem h r sr) in
    rw (fix_height, ◌>>=◌, load, at, gl, gr, update, at) refl

-- A write of the parent of a tree's root.
pub set_parent_lem :
    (h : Cells) (b : Tree) (q : ℕ)
    → Stands h b
    → (h' : Cells) × (set_parent_if (root b) q h ≡ some (tt, h'))
      × ((t : Tree) → Stands h t → Stands h' t)
      × ((z : ℕ) → occurrences z (addrs b) ≡ 0 → h' z ≡ h z)
unfolding occurrences
set_parent_lem h leaf q s = (h, refl, λ t s. s, λ z o. refl)
set_parent_lem h (node l e r) q (ne, (n, at, fields), sl, sr) =
    let here : (e.addr == 0) ≡ false = ground (arith, ne) in
    (
      put e.addr (record n { parent = q }) h,
      rw (here, update, at) refl,
      λ t s. parent-Stands h e.addr q n t at s,
      λ z o. let differ : (z == e.addr) ≡ false = ground (arith, o) in rw differ refl,
    )

pub Stands-frame :
    (h h' : Cells) (t : Tree)
    → ((z : ℕ) → 0 < occurrences z (addrs t) → h' z ≡ h z)
    → Stands h t
    → Stands h' t
unfolding occurrences
Stands-frame h h' leaf same s = tt
Stands-frame h h' (node l e r) same (ne, (n, at, fields), sl, sr) = (
  ne,
  (n, same e.addr (ground arith) ∙ at, fields),
  Stands-frame h h' l (λ z o. same z (omega (arith, o, occurrences-append z (addrs l) (addrs r))))
      sl,
  Stands-frame h h' r (λ z o. same z (omega (arith, o, occurrences-append z (addrs l) (addrs r))))
      sr,
)

-- A node gets its height.
pub fix_height-Stands :
    (h : Cells) (e : Entry) (l r : Tree) (n : AvlNode)
    → e.addr ≢ 0
    → h e.addr ≡ some n
    → n.min_key ≡ e.lo
    → n.max_key ≡ e.hi
    → n.left ≡ root l
    → n.right ≡ root r
    → occurrences e.addr (addrs l) ≡ 0
    → occurrences e.addr (addrs r) ≡ 0
    → Stands h l
    → Stands h r
    → (h' : Cells) × (fix_height e.addr h ≡ some (tt, h'))
      × Stands h' (node l e r)
      × ((z : ℕ) → one z e.addr ≡ 0 → h' z ≡ h z)
fix_height-Stands h e l r n ne at lo hi nl nr out_l out_r sl sr =
    let m : AvlNode = record n { height = max (depth l) (depth r) } in
    let here : (e.addr == e.addr) ≡ true = ground arith in
    (
      put e.addr m h,
      fix_height_lem h e.addr n l r at nl nr sl sr,
      (
        ne,
        (m, rw here refl, (lo, hi, nl, nr, refl)),
        put-Stands h e.addr m l out_l sl,
        put-Stands h e.addr m r out_r sr,
      ),
      λ z o. let differ : (z == e.addr) ≡ false = ground (arith, o) in rw differ refl,
    )
