-- ===== src/HashTable/Children.antt =====
-- The parents and children of hashtable.cpp: an entry points to one child, and the children of an
-- entry make up a ring of their `BrotherEntry`.
use struct.Base.{ℕ, zero, suc, Option, none, some, ◌==◌, ◌||◌, if◌then◌else◌}
use struct.Dlist.{Heap, Cmd, ◌>>◌, set_next, set_prev, load_next}
use struct.HashTable.{
  success, einval, HashTable, Outcome, brother_of, write_at, get_node, unlink_fast,
}

-- The links that `AddChildHashEntry` makes behind the ring entry `list`.
unfoldable pub link_child : (list b : ℕ) → Cmd
link_child list b =
    (load_next list λ n. set_next b n)
    >> set_prev b list
    >> (load_next list λ n. set_prev n b)
    >> set_next list b

-- The body of `AddChildHashEntry`, for two entries.
unfoldable pub adopt : (parent child : ℕ) → HashTable → Option HashTable
adopt parent child t =
    let list = if t.child parent == 0 then brother_of child else brother_of (t.child parent) in
    elim (link_child list (brother_of child) t.brothers) [
      | none ↦ none
      | some brothers ↦ some (record t {
        brothers = brothers;
        child = write_at t.child parent child;
        parent = write_at t.parent child parent;
      })
    ]

-- The two lookups that start `AddChildHashEntry` and `RemoveChildHashEntry`; without one of the
-- nodes the call returns 0, the value of `ret` from its start.
abbrev pub with_nodes :
    (fuel id_parent id_child : ℕ)
    → (ℕ → ℕ → HashTable → Option HashTable)
    → Option HashTable
    → Outcome
with_nodes fuel id_parent id_child body none = some (einval, none)
with_nodes fuel id_parent id_child body (some t) = elim (get_node fuel id_parent t) [
  | none ↦ none
  | some parent ↦ elim (get_node fuel id_child t) [
    | none ↦ none
    | some child ↦
        if (parent == 0) || (child == 0)
        then some (success, some t)
        else (elim (body parent child t) [ none ↦ none | some t' ↦ some (success, some t') ])
  ]
]

-- `AddChildHashEntry`
unfoldable pub add_child : (fuel id_parent id_child : ℕ) → Option HashTable → Outcome
add_child fuel id_parent id_child = with_nodes fuel id_parent id_child adopt

-- The body of `RemoveChildHashEntry`: the new `Child` is the address of a `BrotherEntry`, not of the
-- entry that it stands in.
unfoldable pub part : (parent child : ℕ) → HashTable → Option HashTable
part parent child t =
    let b = brother_of child in
    if t.brothers.live b
    then (elim (unlink_fast b t.brothers) [
      | none ↦ none
      | some brothers ↦ some (record t {
        brothers = brothers;
        child =
            if t.child parent == child
            then write_at t.child parent (if t.brothers.next b == b then 0 else t.brothers.next b)
            else t.child;
        parent = write_at t.parent child 0;
      })
    ])
    else none

-- `RemoveChildHashEntry`
unfoldable pub remove_child : (fuel id_parent id_child : ℕ) → Option HashTable → Outcome
remove_child fuel id_parent id_child = with_nodes fuel id_parent id_child part

-- The loop of `GetChildHashEntryCount` from `pos` on, which ends at `list`.
unfoldable pub count_from : ℕ → (list pos : ℕ) → Heap → Option ℕ
count_from zero list pos h = none
count_from (suc fuel) list pos h =
    let rest = count_from fuel list (h.next pos) h in
    if h.live pos
    then (if h.next pos == list
        then some 1
        else (elim rest [ none ↦ none | some n ↦ some (suc n) ]))
    else none

-- `GetChildHashEntryCount`
unfoldable pub child_count : (fuel id_node : ℕ) → Option HashTable → Option ℕ
child_count fuel id_node none = some 0
child_count fuel id_node (some t) = elim (get_node fuel id_node t) [
  | none ↦ none
  | some e ↦
      if e == 0
      then some 0
      else (if t.child e == 0
          then some 0
          else count_from fuel (brother_of (t.child e)) (brother_of (t.child e)) t.brothers)
]
