-- ===== src/RbList.antt =====
-- The sorted list of rblist.cpp, a red-black tree whose nodes its user compares and allocates.
-- `node_cmp` of a node against the entry in hand is a parameter, by the sign of its result: `lt`
-- for a negative one. The nodes that `node_new` returns and their contents are parameters too, and
-- so is `node_delete`, by what it does to the heap.
pub mod Search
pub mod Add
pub mod Entry
pub mod Remove
pub mod Delete
pub mod Ordered
mod Tests
use struct.Base.{
  ℕ, zero, suc, ◌+◌, ◌-◌, ◌%◌, Bool, Option, none, some, ◌==◌, if◌then◌else◌, u32, List, [], ◌∷◌,
}
use Prim.Native.Nat.{Ordering}
use struct.RbTree.State.{
  Color, red, black, Side, left, right, RbNode, State, Cmd, ◌>>◌, store, Slot, root_slot,
  child_slot, read_slot, link_node,
}
use struct.RbTree.Insert.{insert_color}
use struct.RbTree.Erase.{erase}
use struct.RbTree.Walk.{rb_first, rb_next}

-- `struct rblist`: `entries` is on the heap, with the nodes.
pub record RbList : Type 0 where
  pub entries : State
  pub nr_entries : ℕ

pub data Errno : Type 0 where
  success eexist enomem : Errno

-- Where the descent of `rblist__add_node` and of `rblist__find` ends: at a node that compares
-- equal, or at an empty slot below the last parent.
pub data Descent : Type 0 where
  found : ℕ → Descent
  missing : Slot → ℕ → Descent

module _ (node_cmp : ℕ → Ordering) where
  unfoldable pub descend : ℕ → Slot → (parent : ℕ) → State → Option Descent
  descend zero p parent s = none
  descend (suc fuel) p parent s = elim (read_slot p s) [
    | none ↦ none
    | some q ↦ if q == 0 then some (missing p parent) else (elim (node_cmp q) [
      | Ordering.gt ↦ descend fuel (child_slot left q) q s
      | Ordering.lt ↦ descend fuel (child_slot right q) q s
      | Ordering.eq ↦ some (found q)
    ])
  ]

  -- `rblist__find`: the node, or NULL.
  unfoldable pub find : ℕ → RbList → Option ℕ
  find fuel l = elim (descend fuel root_slot 0 l.entries) [
    | none ↦ none
    | some (found q) ↦ some q
    | some (missing p parent) ↦ some 0
  ]

  -- `rblist__add_node`; `new_node` is what `node_new` returns, an address with its contents.
  unfoldable pub add_node : ℕ → (new_node : Option (ℕ × RbNode)) → RbList → Option (Errno × RbList)
  add_node fuel new_node l = elim (descend fuel root_slot 0 l.entries) [
    | none ↦ none
    | some (found q) ↦ some (eexist, l)
    | some (missing p parent) ↦ elim new_node [
      | none ↦ some (enomem, l)
      | some (nd, n) ↦
          elim ((link_node nd parent p >> insert_color fuel nd) (store nd n l.entries)) [
            | none ↦ none
            | some s ↦ some (success, record { entries = s; nr_entries = u32 (l.nr_entries + 1) })
          ]
    ]
  ]

module _ (node_delete : ℕ → State → State) where
  -- `rblist__remove_node`
  unfoldable pub remove_node : (fuel rb_node : ℕ) → RbList → Option RbList
  remove_node fuel rb_node l = elim (erase fuel rb_node l.entries) [
    | none ↦ none
    | some s ↦ some (record l { entries = node_delete rb_node s })
  ]

  -- The loop of `rblist__delete` from `next` on, at most `rounds` of it: the nodes that are handed
  -- to `node_delete`, one after the other, and the heap at the end.
  unfoldable pub delete_from : (rounds fuel next : ℕ) → State → Option (List ℕ × State)
  delete_from zero fuel next s = none
  delete_from (suc rounds) fuel next s =
      if next == 0 then some ([], s) else (elim (rb_next fuel next s) [
        | none ↦ none
        | some next' ↦ elim (erase fuel next s) [
          | none ↦ none
          | some s1 ↦ elim (delete_from rounds fuel next' (node_delete next s1)) [
            | none ↦ none
            | some (pos, s') ↦ some (next ∷ pos, s')
          ]
        ]
      ])

  -- `rblist__delete`, but for the memory of the list itself.
  unfoldable pub delete : ℕ → RbList → Option (List ℕ × State)
  unfolding delete_from
  delete fuel l = elim (rb_first fuel l.entries) [
    | none ↦ none
    | some next ↦ delete_from fuel fuel next l.entries
  ]

-- `rblist__init`
unfoldable pub init : RbList → RbList
init l = record { entries = record l.entries { root = 0 }; nr_entries = 0 }

unfoldable pub empty : RbList → Bool
empty l = l.nr_entries == 0

-- The loop of `rblist__entry` from `node` on. It ends after at most `idx + 1` nodes, so `idx`
-- counts its rounds; `fuel` is that of each `rb_next`.
unfoldable pub entry_from : ℕ → (idx node : ℕ) → State → Option ℕ
entry_from fuel zero node s = some node
entry_from fuel (suc idx) node s =
    if node == 0
    then some 0
    else (elim (rb_next fuel node s) [ none ↦ none | some next ↦ entry_from fuel idx next s ])

unfoldable pub entry : ℕ → ℕ → RbList → Option ℕ
unfolding entry_from
entry fuel idx l = elim (rb_first fuel l.entries) [
  | none ↦ none
  | some node ↦ entry_from fuel idx node l.entries
]
