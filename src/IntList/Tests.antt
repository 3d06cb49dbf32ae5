-- ===== src/IntList/Tests.antt =====
-- A list of two integers, what a client sees of it, and a comparison that overflows.
use struct.Base.{
  ◌≡◌, ◌↔◌, ◌^◌, refl, sym, ap, arith, true, false, Option, none, some, List, [], ◌∷◌,
}
use Prim.Native.Nat.{Ordering, compare}
use struct.RbTree.State.{red, left, RbNode}
use struct.RbTree.Rep.{cell_of}
use struct.RbTree.Tree.{leaf, inorder, occ}
use struct.RbList.{success}
use struct.RbList
use struct.RbList.Ordered.{member, insert}
use struct.IntList.{IntList, node_cmp, new}
use struct.IntList.Compare.{rank, DiffFits, node_cmp-compare}
use struct.IntList.Calls.{Call, add_call, has_call, errno, flag, answers, spec, spec_all}
use struct.IntList.Set.{IsInts}
use struct.IntList.Refine.{answers_refine, new_refines}

-- 2147483647 is not above -1 here: their difference wraps.
node_cmp_overflow : node_cmp (λ q. 2147483647) 4294967295 8 ≡ Ordering.lt
unfolding node_cmp
node_cmp_overflow = refl

node_cmp-compare_example : (node_cmp (λ q. 5) 7 8 ≡ compare (rank 5) (rank 7)) ↔ DiffFits 5 7
node_cmp-compare_example = node_cmp-compare (λ q. 5) 8 7 (omega arith) (omega arith)

abbrev garbage : IntList
garbage = record {
  rblist = record { entries = record { cell = λ x. none; root = 9 }; nr_entries = 7 };
  ints = λ q. 77;
}

abbrev blank : RbNode
blank = cell_of left 0 red 0 0

abbrev client : List Call
client = add_call (some (8, blank)) 5 ∷ has_call 5 ∷ has_call 6 ∷ []

abbrev empty_list : IntList
empty_list = record garbage {
  rblist = record { entries = record { cell = λ x. none; root = 0 }; nr_entries = 0 };
}

empty_list-IsInts : IsInts empty_list leaf [] [] (2 ^ 31)
unfolding inorder occ
empty_list-IsInts = record {
  set = record {
    list = record {
      holds = record {
        rep = tt;
        root = refl;
        rb = record { root_black = tt; no_red_red = tt; height = 0; balanced = tt };
      };
      order = refl;
      uniq = λ z. omega arith;
    };
    keys = refl;
    sorted = tt;
  };
  words = λ q. omega arith;
  window = tt;
}

answers_refine_example :
    answers 4 client empty_list ≡ some (errno success ∷ flag true ∷ flag false ∷ [])
unfolding spec_all spec member insert
answers_refine_example =
    answers_refine 4 (2 ^ 31) client empty_list leaf [] [] empty_list-IsInts (omega arith)
      (
        (omega arith, (omega arith, omega arith)),
        (
          (omega arith, (omega arith, omega arith)),
          ((omega arith, (omega arith, omega arith)), tt),
        ),
      )
      ((λ e. omega (arith, e), refl), λ r l e. (tt, λ r l e. (tt, λ r l e. tt)))

new_refines_example :
    (l : IntList) × (new (some garbage) ≡ some l)
    × (answers 4 client l ≡ some (errno success ∷ flag true ∷ flag false ∷ []))
unfolding spec_all spec member insert new RbList.init
new_refines_example =
    new_refines 4 (2 ^ 31) client garbage (λ q. omega arith) (omega arith)
      (
        (omega arith, (omega arith, omega arith)),
        (
          (omega arith, (omega arith, omega arith)),
          ((omega arith, (omega arith, omega arith)), tt),
        ),
      )
      (λ l e. (
        (λ f. omega (arith, f), ap (fresh_cell l) (sym e)),
        λ r l e. (tt, λ r l e. (tt, λ r l e. tt)),
      ))
  where
    fresh_cell : IntList → Option IntList → Option RbNode
    fresh_cell l none = none
    fresh_cell l (some m) = m.rblist.entries.cell 8
