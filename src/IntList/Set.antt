-- ===== src/IntList/Set.antt =====
-- The list of integers that stands for a set of integers.
use struct.Base.{
  occurrences, ℕ, suc, ◌+◌, ◌≤◌, ◌<◌, ◌^◌, ◌≡◌, inl, inr, refl, arith, none, some, List, [], ◌∷◌,
  All, length,
}
use mathlib.Core.List.{map}
use Prim.Native.Nat.{compare}
use struct.RbTree.State.{RbNode}
use struct.RbTree.Tree.{Tree, leaf, node, occ}
use struct.RbTree.Rep.{Cells, Rep}
use struct.RbList.Remove.{IsDelete}
use struct.RbList.Ordered.{Order, Ordering-cases, insert, discard}
use struct.RbList.Ordered.Refine.{IsKeys}
use struct.IntList.{IntList, node_cmp, node_new, node_delete}
use struct.IntList.Compare.{rank, node_cmp-compare}

pub compare-Order : Order compare
compare-Order = record {
  eq_same = λ a b e. ground arith;
  same_eq = λ a. ground arith;
  lt-gt = λ a b e. ground arith;
  gt-lt = λ a b e. ground arith;
  lt_trans = λ a b c e f. ground arith;
}

-- The ranks that differ by less than 2 ^ 31 from one another.
abbrev pub InWindow : ℕ → ℕ → Type 0
InWindow low v = (low ≤ v) × (v < low + 2 ^ 31)

-- The list holds the integers of ranks `vs`, which lie in a window.
pub record IsInts (l : IntList) (t : Tree) (xs vs : List ℕ) (low : ℕ) : Type 0 where
  pub set : IsKeys compare (λ q. rank (l.ints q)) l.rblist t xs vs
  pub words : (q : ℕ) → l.ints q < 2 ^ 32
  pub window : All (InWindow low) vs

pub agrees :
    (ints : ℕ → ℕ) (i low : ℕ) (xs : List ℕ)
    → i < 2 ^ 32
    → InWindow low (rank i)
    → ((q : ℕ) → ints q < 2 ^ 32)
    → All (InWindow low) (map (λ q. rank (ints q)) xs)
    → All (λ q. node_cmp ints i q ≡ compare (rank (ints q)) (rank i)) xs
agrees ints i low [] hi w words ws = tt
agrees ints i low (q ∷ xs) hi w words (wq, ws) =
    ((node_cmp-compare ints q i (words q) hi).1 (omega arith), agrees ints i low xs hi w words ws)

pub insert-All :
    (P : ℕ → Type 0) (v : ℕ) (vs : List ℕ) → P v → All P vs → All P (insert compare v vs)
unfolding insert
insert-All P v [] h hs = (h, tt)
insert-All P v (w ∷ vs) h (p, hs) = elim (Ordering-cases (compare w v)) [
  | inl e ↦ rw (e, insert) (p, insert-All P v vs h hs)
  | inr (inl e) ↦ rw (e, insert) (p, hs)
  | inr (inr e) ↦ rw (e, insert) (h, (p, hs))
]

pub discard-All : (P : ℕ → Type 0) (v : ℕ) (vs : List ℕ) → All P vs → All P (discard compare v vs)
unfolding discard
discard-All P v [] hs = tt
discard-All P v (w ∷ vs) (p, hs) = elim (Ordering-cases (compare w v)) [
  | inl e ↦ rw (e, discard) (p, discard-All P v vs hs)
  | inr (inl e) ↦ rw (e, discard) (discard-All P v vs hs)
  | inr (inr e) ↦ rw (e, discard) (p, discard-All P v vs hs)
]

pub length-insert : (v : ℕ) (vs : List ℕ) → length (insert compare v vs) ≤ suc (length vs)
unfolding insert
length-insert v [] = omega arith
length-insert v (w ∷ vs) = ground (arith, length-insert v vs)

pub length-discard : (v : ℕ) (vs : List ℕ) → length (discard compare v vs) ≤ length vs
unfolding discard
length-discard v [] = omega arith
length-discard v (w ∷ vs) = ground (arith, length-discard v vs)

pub length-map : (f : ℕ → ℕ) (xs : List ℕ) → length (map f xs) ≡ length xs
length-map f [] = refl
length-map f (x ∷ xs) = omega (arith, length-map f xs)

-- A block that is not in use is no node.
pub unused_fresh : (h : Cells) (q : ℕ) (t : Tree) (z : ℕ) → Rep h q t → h z ≡ none → occ z t ≡ 0
unfolding occ
unused_fresh h q leaf z rep e = refl
unused_fresh h q (node c l a r) z (ne, ea, rl, rr) e =
    ground (arith, e, ea, unused_fresh h a l z rl e, unused_fresh h a r z rr e)

pub node_new-others :
    (nd i : ℕ) (n : RbNode) (ints : ℕ → ℕ) (xs : List ℕ)
    → occurrences nd xs ≡ 0
    → All (λ q. rank (node_new (some (nd, n)) i ints q) ≡ rank (ints q)) xs
unfolding node_new occurrences
node_new-others nd i n ints [] e = tt
node_new-others nd i n ints (x ∷ xs) e =
    (ground (arith, e), node_new-others nd i n ints xs (omega (arith, e)))

pub node_delete-IsDelete : IsDelete node_delete
unfolding node_delete
node_delete-IsDelete = record {
  outside = λ nd s z ne. ground arith;
  frees = λ nd s. ground arith;
  same_root = λ nd s. refl;
}
