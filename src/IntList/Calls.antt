-- ===== src/IntList/Calls.antt =====
-- A client of intlist.h: the calls it makes and the replies it sees, next to those of a set of
-- integers, which is a list of ranks in ascending order.
use struct.Base.{
  ℕ, ◌≡◌, ◌≢◌, Bool, true, false, Option, none, some, List, [], ◌∷◌, ◌==◌, if◌then◌else◌,
}
use Prim.Native.Nat.{compare}
use struct.RbTree.State.{RbNode}
use struct.RbList.{Errno}
use struct.RbList.Ordered.{member, discard}
use struct.RbList.Ordered.Refine.{spec_add}
use struct.IntList.{IntList, add, find, has_entry, remove}
use struct.IntList.Compare.{rank}

-- `intlist__add`, for which `malloc` returns the given node, `intlist__has_entry`, and
-- `intlist__remove` of the node that `intlist__find` finds.
pub data Call : Type 0 where
  add_call : Option (ℕ × RbNode) → ℕ → Call
  has_call : ℕ → Call
  remove_call : ℕ → Call

pub data Reply : Type 0 where
  errno : Errno → Reply
  flag : Bool → Reply

abbrev pub value : Call → ℕ
value (add_call malloc i) = i
value (has_call i) = i
value (remove_call i) = i

unfoldable pub answer : ℕ → Call → IntList → Option (Reply × IntList)
answer fuel (add_call malloc i) l = elim (add fuel malloc i l) [
  | none ↦ none
  | some (e, l') ↦ some (errno e, l')
]
answer fuel (has_call i) l = elim (has_entry fuel i l) [ none ↦ none | some b ↦ some (flag b, l) ]
answer fuel (remove_call i) l = elim (find fuel i l) [
  | none ↦ none
  | some node ↦
      if node == 0
      then some (flag false, l)
      else (elim (remove fuel node l) [ none ↦ none | some l' ↦ some (flag true, l') ])
]

unfoldable pub answers : ℕ → List Call → IntList → Option (List Reply)
answers fuel [] l = some []
answers fuel (c ∷ cs) l = elim (answer fuel c l) [
  | none ↦ none
  | some (r, l') ↦ elim (answers fuel cs l') [ none ↦ none | some rs ↦ some (r ∷ rs) ]
]

-- The set that the client is promised.
unfoldable pub spec : Call → List ℕ → Reply × List ℕ
spec (add_call malloc i) vs =
    (errno (spec_add compare (rank i) malloc vs).0, (spec_add compare (rank i) malloc vs).1)
spec (has_call i) vs = (flag (member compare (rank i) vs), vs)
spec (remove_call i) vs = (flag (member compare (rank i) vs), discard compare (rank i) vs)

unfoldable pub spec_all : List Call → List ℕ → List Reply
spec_all [] vs = []
spec_all (c ∷ cs) vs = (spec c vs).0 ∷ spec_all cs (spec c vs).1

-- `malloc` returns a block that is not in use.
abbrev pub Unused : Call → IntList → Type 0
Unused (add_call none i) l = Unit
Unused (add_call (some (nd, n)) i) l = (nd ≢ 0) × (l.rblist.entries.cell nd ≡ none)
Unused (has_call i) l = Unit
Unused (remove_call i) l = Unit

abbrev pub AllUnused : ℕ → List Call → IntList → Type 0
AllUnused fuel [] l = Unit
AllUnused fuel (c ∷ cs) l =
    Unused c l
    × ((r : Reply) (l' : IntList) → answer fuel c l ≡ some (r, l') → AllUnused fuel cs l')
