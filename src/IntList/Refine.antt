-- ===== src/IntList/Refine.antt =====
-- The list of integers is a set of integers, as long as no two of them are further apart than an
-- `int` reaches.
use struct.Base.{ℕ, ◌+◌, ◌<◌, ◌^◌, ◌≡◌, refl, arith, some, List, [], ◌∷◌, All, length}
use struct.RbTree.Tree.{Tree, leaf, occ, inorder}
use struct.RbList.{RbList, Errno, success, eexist, enomem}
use struct.RbList
use struct.IntList.{IntList, new}
use struct.IntList.Compare.{rank}
use struct.IntList.Calls.{Call, Reply, value, answer, answers, spec, spec_all, AllUnused}
use struct.IntList.Set.{InWindow, IsInts}
use struct.IntList.Step.{answer_refines, length-spec}

answers_step :
    (fuel : ℕ) (c : Call) (cs : List Call) (l l' : IntList) (r : Reply) (rs : List Reply)
    → answer fuel c l ≡ some (r, l')
    → answers fuel cs l' ≡ some rs
    → answers fuel (c ∷ cs) l ≡ some (r ∷ rs)
unfolding answers
answers_step fuel c cs l l' r rs e f = rw (e, answers, f) refl

-- The calls fit in the window.
abbrev pub CallsFit : ℕ → List Call → Type 0
CallsFit low cs = All (λ c. (value c < 2 ^ 32) × InWindow low (rank (value c))) cs

-- Whatever calls a client makes of a list of integers, in which no two integers are further apart
-- than an int reaches and malloc returns blocks that are not in use, it sees the replies of a set.
pub answers_refine :
    (fuel : ℕ) (low : ℕ) (cs : List Call) (l : IntList) (t : Tree) (xs vs : List ℕ)
    → IsInts l t xs vs low
    → length vs + length cs < fuel
    → CallsFit low cs
    → AllUnused fuel cs l
    → answers fuel cs l ≡ some (spec_all cs vs)
unfolding answers spec_all
answers_refine fuel low [] l t xs vs is h fit u = refl
answers_refine fuel low (c ∷ cs) l t xs vs is h (f, fit) (u, us) =
    let (l', t', xs', run, is') = answer_refines fuel l t xs vs low c is (omega arith) f.0 f.1 u in
    answers_step fuel c cs l l' (spec c vs).0 (spec_all cs (spec c vs).1) run (
      answers_refine fuel low cs l' t' xs' (spec c vs).1 is' (omega (arith, length-spec c vs)) fit
        (us (spec c vs).0 l' run))

-- A list fresh from intlist__new replies as the empty set.
pub new_refines :
    (fuel low : ℕ) (cs : List Call) (l0 : IntList)
    → ((q : ℕ) → l0.ints q < 2 ^ 32)
    → length cs < fuel
    → CallsFit low cs
    → ((l : IntList) → new (some l0) ≡ some l → AllUnused fuel cs l)
    → (l : IntList) × (new (some l0) ≡ some l) × (answers fuel cs l ≡ some (spec_all cs []))
unfolding new inorder occ RbList.init
new_refines fuel low cs l0 words h fit u =
    let l : IntList = record l0 { rblist = RbList.init l0.rblist } in
    (
      l,
      refl,
      answers_refine fuel low cs l leaf [] []
          (record {
            set = record {
              list = record {
                holds = record {
                  rep = tt;
                  root = refl;
                  rb = record { root_black = tt; no_red_red = tt; height = 0; balanced = tt };
                };
                order = refl;
                uniq = λ z. omega arith;
              };
              keys = refl;
              sorted = tt;
            };
            words = words;
            window = tt;
          })
          (omega arith) fit (u l refl),
    )
