-- ===== src/Avl/Remove.antt =====
-- `RebalanceAvlTree`, `RemoveAvlEntry` and `ClearAvlTree`.
use struct.Base.{ℕ, zero, suc, ◌+◌, Bool, true, false, Option, none, some, ◌==◌, ltb, if◌then◌else◌}
use struct.Avl.{Cells, get_min_entry, get_max_entry}
use struct.Avl.Change.{
  success, einval, enoent, Run, ◌>>=◌, give, load, update, get_height, ll_rotate, rr_rotate,
  lr_rotate, rl_rotate, Outcome, set_left, set_right,
}

unfoldable pub rebalance : ℕ → Run ℕ
rebalance tree = load tree >>= λ t. get_height t.left >>= λ a. get_height t.right >>= λ b.
    if a == b + 2
    then (load t.left >>= λ l. get_height l.left >>= λ c.
        get_height l.right >>= λ d. if ltb d c then ll_rotate tree else lr_rotate tree)
    else (if b == a + 2
        then (load t.right >>= λ r. get_height r.right >>= λ c.
            get_height r.left >>= λ d. if ltb d c then rr_rotate tree else rl_rotate tree)
        else give tree)

-- A call of `GetMinAvlEntry` or `GetMaxAvlEntry`.
abbrev pub ask : (Cells → Option ℕ) → Run ℕ
ask read h = elim (read h) [ none ↦ none | some p ↦ some (p, h) ]

abbrev pub free : ℕ → Run Unit
free p h = elim (h p) [ none ↦ none | some n ↦ some (tt, λ x. if x == p then none else h x) ]

-- The new root goes from its place, which its parent gives to one of its children.
unfoldable pub leave_place : ℕ → Run Unit
leave_place p = load p >>= λ n.
    if n.left == 0
    then (if n.right == 0
        then (load n.parent >>= λ q.
            if q.left == p
            then update n.parent (λ q. record q { left = 0 })
            else update n.parent (λ q. record q { right = 0 }))
        else update n.parent (λ q. record q { left = n.right }))
    else update n.parent (λ q. record q { right = n.left })

-- `RemoveAvlEntry` at the root, with the new root that is not NULL.
unfoldable pub take_root : (tree new_root : ℕ) → Run ℕ
take_root tree new_root = leave_place new_root >>= λ _. load tree >>= λ t.
    update new_root (λ n. record n { parent = 0; left = t.left; right = t.right }) >>= λ _.
    free tree >>= λ _. give new_root

-- `RemoveAvlEntry`; without a new root the node is not freed.
abbrev pub rebalanced : ℕ → Outcome
rebalanced tree = rebalance tree >>= λ tree'. give (success, some tree')

unfoldable pub remove_root : (fuel tree : ℕ) → Outcome
remove_root fuel tree = load tree >>= λ t. ask (get_min_entry fuel t.right) >>= λ a.
    if a == 0
    then (ask (get_max_entry fuel t.left) >>= λ b.
        if b == 0 then give (success, some 0) else take_root tree b >>= rebalanced)
    else take_root tree a >>= rebalanced

unfoldable pub remove_from : (fuel min_key tree : ℕ) → Outcome
remove_from zero min_key tree h = none
remove_from (suc fuel) min_key tree h =
    if tree == 0 then some ((enoent, none), h) else (elim (h tree) [
      | none ↦ none
      | some t ↦
          if min_key == t.min_key
          then remove_root fuel tree h
          else (if ltb min_key t.min_key
              then (elim (remove_from fuel min_key t.left h) [
                | none ↦ none
                | some ((success, out), h') ↦ (set_left tree out >>= λ _. rebalanced tree) h'
                | some ((errno, out), h') ↦ (set_left tree out >>= λ _. give (errno, none)) h'
              ])
              else (elim (remove_from fuel min_key t.right h) [
                | none ↦ none
                | some ((success, out), h') ↦ (set_right tree out >>= λ _. rebalanced tree) h'
                | some ((errno, out), h') ↦ (set_right tree out >>= λ _. give (errno, none)) h'
              ]))
    ])

-- A NULL for the last parameter is `false`.
unfoldable pub remove_entry : (pointer : Bool) → (fuel min_key tree : ℕ) → Outcome
remove_entry false fuel min_key tree = give (einval, none)
remove_entry true fuel min_key tree = remove_from fuel min_key tree

unfoldable pub clear_tree : (fuel tree : ℕ) → Run Unit
clear_tree zero tree h = none
clear_tree (suc fuel) tree h = if tree == 0 then some (tt, h) else (elim (h tree) [
  | none ↦ none
  | some t ↦
      (clear_tree fuel t.left >>= λ _.
      load tree >>= λ t'. clear_tree fuel t'.right >>= λ _. free tree)
        h
])
