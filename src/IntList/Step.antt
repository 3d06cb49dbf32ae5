-- ===== src/IntList/Step.antt =====
-- One call of intlist.h, next to what it does to the set.
use struct.Base.{
  occurrences, ℕ, suc, ◌≤◌, ◌<◌, ◌^◌, ◌≡◌, ◌∙◌, inl, inr, refl, sym, ap, subst, arith, Bool-cases,
  true, false, ◌⊎◌, Option, none, some, List, All, length, not, ◌==◌,
}
use Prim.Native.Nat.{compare}
use struct.RbTree.State.{RbNode}
use struct.RbTree.Tree.{Tree, occ}
use struct.RbTree.Walk.Laws.{height}
use struct.RbList.{RbList, Errno, success, eexist, enomem}
use struct.RbList
use struct.RbList.Delete.{IsList-height}
use struct.RbList.Ordered.{member, discard, discard-member}
use struct.RbTree.Order.{occurrences-inorder}
use struct.RbList.Ordered.Refine.{
  IsKeys, IsNew, Extends, spec_add, key_after, find_refines, add_refines, remove_refines,
}
use struct.IntList.{IntList, node_cmp, node_new, node_delete, add, find, has_entry, remove, new}
use struct.IntList.Compare.{rank}
use struct.IntList.Calls.{
  Call, add_call, has_call, remove_call, errno, flag, value, answer, spec, Unused,
}
use struct.IntList.Set.{
  compare-Order, InWindow, IsInts, agrees, insert-All, discard-All, length-insert, length-discard,
  length-map, unused_fresh, node_new-others, node_delete-IsDelete,
}

-- What one call is to do, for a list with the set `vs`.
abbrev pub Serves : ℕ → Call → IntList → List ℕ → ℕ → Type 0
Serves fuel c l vs low =
    (l' : IntList) × (t' : Tree) × (xs' : List ℕ) × (answer fuel c l ≡ some ((spec c vs).0, l'))
    × IsInts l' t' xs' (spec c vs).1 low

module _ (fuel : ℕ) (l : IntList) (t : Tree) (xs vs : List ℕ) (low : ℕ) (is : IsInts l t xs vs low)
    (h : length vs < fuel) (i : ℕ) (hi : i < 2 ^ 32) (w : InWindow low (rank i)) where
  high : height t < fuel
  high = omega (
    arith,
    IsList-height l.rblist t xs is.set.list,
    length-map (λ q. rank (l.ints q)) xs,
    ap length is.set.keys,
  )

  agree : All (λ q. node_cmp l.ints i q ≡ compare (rank (l.ints q)) (rank i)) xs
  agree =
      agrees l.ints i low xs hi w is.words (subst (All (InWindow low)) (sym is.set.keys) is.window)

  has_refines : Serves fuel (has_call i) l vs low
  unfolding answer has_entry find spec
  has_refines =
      let (q, run, mem, k) =
        find_refines compare compare-Order (λ q. rank (l.ints q)) (rank i) (node_cmp l.ints i) fuel
          l.rblist t xs vs high is.set agree in
      (l, t, xs, rw (run, answer, has_entry, find) (ap (λ b. some (flag b, l)) mem), is)

  -- The integers after an addition.
  ints_after : Errno → Option (ℕ × RbNode) → ℕ → ℕ
  ints_after success malloc = node_new malloc i l.ints
  ints_after eexist malloc = l.ints
  ints_after enomem malloc = l.ints

  answer_add :
      (malloc : Option (ℕ × RbNode)) (e : Errno) (l' : RbList)
      → RbList.add_node (node_cmp l.ints i) fuel malloc l.rblist ≡ some (e, l')
      → answer fuel (add_call malloc i) l
        ≡ some (errno e, record { rblist = l'; ints = ints_after e malloc })
  unfolding answer add ints_after
  answer_add malloc success l' run = rw (run, answer, add) refl
  answer_add malloc eexist l' run = rw (run, answer, add) refl
  answer_add malloc enomem l' run = rw (run, answer, add) refl

  words_after : (e : Errno) (malloc : Option (ℕ × RbNode)) (q : ℕ) → ints_after e malloc q < 2 ^ 32
  unfolding ints_after node_new
  words_after success none q = is.words q
  words_after success (some (nd, n)) q = ground (arith, hi, is.words q)
  words_after eexist malloc q = is.words q
  words_after enomem malloc q = is.words q

  window_after :
      (malloc : Option (ℕ × RbNode)) (e : Errno) (vs' : List ℕ)
      → spec_add compare (rank i) malloc vs ≡ (e, vs')
      → All (InWindow low) vs'
  window_after none e vs' s =
      subst (All (InWindow low)) (ap (λ p. p.1) s) (by (Bool-cases (member compare (rank i) vs)))
    where
      by :
          (member compare (rank i) vs ≡ true) ⊎ (member compare (rank i) vs ≡ false)
          → All (InWindow low) (spec_add compare (rank i) none vs).1
      by (inl m) = rw m is.window
      by (inr m) = rw m is.window
  window_after (some new) e vs' s =
      subst (All (InWindow low)) (ap (λ p. p.1) s) (by (Bool-cases (member compare (rank i) vs)))
    where
      by :
          (member compare (rank i) vs ≡ true) ⊎ (member compare (rank i) vs ≡ false)
          → All (InWindow low) (spec_add compare (rank i) (some new) vs).1
      by (inl m) = rw m is.window
      by (inr m) = rw m (insert-All (InWindow low) (rank i) vs w is.window)

  keys_after :
      (e : Errno) (malloc : Option (ℕ × RbNode))
      → key_after e (λ q. rank (l.ints q)) (λ q. rank (node_new malloc i l.ints q))
        ≡ (λ q. rank (ints_after e malloc q))
  unfolding ints_after
  keys_after success malloc = refl
  keys_after eexist malloc = refl
  keys_after enomem malloc = refl

  extends :
      (malloc : Option (ℕ × RbNode))
      → Unused (add_call malloc i) l
      → IsNew malloc t
        × Extends compare compare-Order
            (λ q. rank (l.ints q))
            (rank i)
            (node_cmp l.ints i)
            fuel
            l.rblist
            t
            xs
            vs
            high
            is.set
            agree
            malloc
            (λ q. rank (node_new malloc i l.ints q))
  unfolding node_new
  extends none u = (tt, tt)
  extends (some (nd, n)) (ne, free) =
      let fresh : occ nd t ≡ 0 =
        unused_fresh l.rblist.entries.cell 0 t nd is.set.list.holds.rep free in
      (
        (ne, fresh),
        (
          ground arith,
          node_new-others nd i n l.ints xs
              (ap (occurrences nd) (sym is.set.list.order) ∙ occurrences-inorder nd t ∙ fresh),
        ),
      )

  add_call_refines :
      (malloc : Option (ℕ × RbNode))
      → Unused (add_call malloc i) l
      → Serves fuel (add_call malloc i) l vs low
  unfolding spec
  add_call_refines malloc u =
      let (new, ext) = extends malloc u in
      let (e, l', t', xs', vs', run, s, set', count) =
        add_refines compare compare-Order (λ q. rank (l.ints q)) (rank i) (node_cmp l.ints i) fuel
          l.rblist t xs vs high is.set agree malloc (λ q. rank (node_new malloc i l.ints q)) new
          ext in
      (
        record { rblist = l'; ints = ints_after e malloc },
        t',
        xs',
        answer_add malloc e l' run
            ∙ ap (λ p. some (errno p.0, record { rblist = l'; ints = ints_after e malloc }))
                (sym s),
        record {
          set =
              subst (λ k. IsKeys compare k l' t' xs' (spec_add compare (rank i) malloc vs).1)
                (keys_after e malloc)
                (subst (IsKeys compare _ l' t' xs') (ap (λ p. p.1) (sym s)) set');
          words = words_after e malloc;
          window = subst (All (InWindow low)) (ap (λ p. p.1) (sym s)) (window_after malloc e vs' s);
        },
      )

  answer_remove :
      (q : ℕ)
      → find fuel i l ≡ some q
      → ((q == 0) ≡ true → answer fuel (remove_call i) l ≡ some (flag false, l))
        × ((r : RbList)
            → (q == 0) ≡ false
            → RbList.remove_node node_delete fuel q l.rblist ≡ some r
            → answer fuel (remove_call i) l ≡ some (flag true, record l { rblist = r }))
  unfolding answer remove
  answer_remove q run =
      (λ z. rw (run, answer, z) refl, λ r z e. rw (run, answer, z, remove, e) refl)

  remove_call_refines : Serves fuel (remove_call i) l vs low
  unfolding find spec
  remove_call_refines =
      let (q, run, mem, k) =
        find_refines compare compare-Order (λ q. rank (l.ints q)) (rank i) (node_cmp l.ints i) fuel
          l.rblist t xs vs high is.set agree in
      elim (Bool-cases (q == 0)) [
        | inl z ↦
            let none_there : member compare (rank i) vs ≡ false = sym mem ∙ ap not z in
            let same : discard compare (rank i) vs ≡ vs =
              discard-member compare (rank i) vs none_there in
            (
              l,
              t,
              xs,
              (answer_remove q run).0 z ∙ ap (λ b. some (flag b, l)) (sym none_there),
              record {
                set = subst (IsKeys compare (λ q. rank (l.ints q)) l.rblist t xs) (sym same) is.set;
                words = is.words;
                window = discard-All (InWindow low) (rank i) vs is.window;
              },
            )
        | inr z ↦
            let (l', t', xs', gone, set', count) =
              remove_refines compare compare-Order (λ q. rank (l.ints q)) (rank i)
                (node_cmp l.ints i) fuel l.rblist t xs vs high is.set agree node_delete
                node_delete-IsDelete q run (λ e. ground (arith, z, e)) in
            (
              record l { rblist = l' },
              t',
              xs',
              (answer_remove q run).1 l' z gone
                  ∙ ap (λ b. some (flag b, record l { rblist = l' })) (ap not (sym z) ∙ mem),
              record {
                set = set';
                words = is.words;
                window = discard-All (InWindow low) (rank i) vs is.window;
              },
            )
      ]

pub answer_refines :
    (fuel : ℕ) (l : IntList) (t : Tree) (xs vs : List ℕ) (low : ℕ) (c : Call)
    → IsInts l t xs vs low
    → length vs < fuel
    → value c < 2 ^ 32
    → InWindow low (rank (value c))
    → Unused c l
    → Serves fuel c l vs low
answer_refines fuel l t xs vs low (add_call malloc i) is h hi w u =
    add_call_refines fuel l t xs vs low is h i hi w malloc u
answer_refines fuel l t xs vs low (has_call i) is h hi w u =
    has_refines fuel l t xs vs low is h i hi w
answer_refines fuel l t xs vs low (remove_call i) is h hi w u =
    remove_call_refines fuel l t xs vs low is h i hi w

pub length-spec : (c : Call) (vs : List ℕ) → length (spec c vs).1 ≤ suc (length vs)
unfolding spec
length-spec (add_call none i) vs = ground arith
length-spec (add_call (some n) i) vs = ground (arith, length-insert (rank i) vs)
length-spec (has_call i) vs = omega arith
length-spec (remove_call i) vs = omega (arith, length-discard (rank i) vs)
