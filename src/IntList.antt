-- ===== src/IntList.antt =====
-- The list of integers of intlist.cpp and intlist.h, a sorted list whose nodes hold an `int`.
-- An `int` is its 32-bit pattern. `rb_node` is the first member of `struct int_node`, so a node and
-- its `rb_node` have one address. What `malloc` returns is a parameter, an address with the garbage
-- that lies there.
pub mod Compare
pub mod Calls
pub mod Set
pub mod Step
pub mod Refine
mod Tests
use struct.Base.{
  ℕ, ◌+◌, ◌-◌, ◌%◌, ◌^◌, Bool, true, false, not, Option, none, some, List, ◌==◌, ltb, if◌then◌else◌,
}
use Prim.Native.Nat.{Ordering}
use struct.RbTree.State.{RbNode, State}
use struct.RbTree.Walk.{rb_first, rb_next}
use struct.RbList.{RbList, Errno, success, eexist, enomem}
use struct.RbList

-- `ints` has the member `i` of each node.
pub record IntList : Type 0 where
  pub rblist : RbList
  pub ints : ℕ → ℕ

-- `node->i - i`, which wraps, by its sign.
unfoldable pub sub32 : ℕ → ℕ → ℕ
sub32 a b = (a + 2 ^ 32 - b) % 2 ^ 32

unfoldable pub sign : ℕ → Ordering
sign w = if w == 0 then Ordering.eq else (if ltb w (2 ^ 31) then Ordering.gt else Ordering.lt)

-- `intlist__node_cmp`
unfoldable pub node_cmp : (ints : ℕ → ℕ) → (i node : ℕ) → Ordering
unfolding sub32 sign
node_cmp ints i node = sign (sub32 (ints node) i)

-- `intlist__node_new`, by what it writes to the new node.
unfoldable pub node_new : Option (ℕ × RbNode) → ℕ → (ℕ → ℕ) → ℕ → ℕ
node_new none i ints x = ints x
node_new (some (node, n)) i ints x = if x == node then i else ints x

-- `intlist__node_delete`: `free`.
unfoldable pub node_delete : ℕ → State → State
node_delete node s = record s { cell = λ x. if x == node then none else s.cell x }

-- `intlist__add`
unfoldable pub add : ℕ → Option (ℕ × RbNode) → ℕ → IntList → Option (Errno × IntList)
add fuel malloc i l = elim (RbList.add_node (node_cmp l.ints i) fuel malloc l.rblist) [
  | none ↦ none
  | some (success, r) ↦ some (success, record { rblist = r; ints = node_new malloc i l.ints })
  | some (eexist, r) ↦ some (eexist, record l { rblist = r })
  | some (enomem, r) ↦ some (enomem, record l { rblist = r })
]

-- `intlist__remove`
unfoldable pub remove : ℕ → ℕ → IntList → Option IntList
remove fuel node l = elim (RbList.remove_node node_delete fuel node l.rblist) [
  | none ↦ none
  | some r ↦ some (record l { rblist = r })
]

-- `intlist__find`: the node, or NULL.
unfoldable pub find : ℕ → ℕ → IntList → Option ℕ
find fuel i l = RbList.find (node_cmp l.ints i) fuel l.rblist

unfoldable pub has_entry : ℕ → ℕ → IntList → Option Bool
has_entry fuel i l = elim (find fuel i l) [ none ↦ none | some node ↦ some (not (node == 0)) ]

-- `intlist__new`; `l` is the garbage in the block that `malloc` returned, if it did.
unfoldable pub new : Option IntList → Option IntList
new none = none
new (some l) = some (record l { rblist = RbList.init l.rblist })

-- `intlist__delete`
unfoldable pub delete : ℕ → IntList → Option (List ℕ × State)
delete fuel l = RbList.delete node_delete fuel l.rblist

-- `intlist__entry`
unfoldable pub entry : ℕ → ℕ → IntList → Option ℕ
entry fuel idx l = RbList.entry fuel idx l.rblist

-- `intlist__empty` and `intlist__nr_entries`
unfoldable pub empty : IntList → Bool
empty l = RbList.empty l.rblist

unfoldable pub nr_entries : IntList → ℕ
nr_entries l = l.rblist.nr_entries

-- `intlist__first` and `intlist__next`
unfoldable pub first : ℕ → IntList → Option ℕ
first fuel l = rb_first fuel l.rblist.entries

unfoldable pub next : ℕ → ℕ → IntList → Option ℕ
next fuel node l = if node == 0 then some 0 else rb_next fuel node l.rblist.entries
