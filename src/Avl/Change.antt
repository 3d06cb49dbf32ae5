-- ===== src/Avl/Change.antt =====
-- The writes of avltree.cpp: rotations, insertion, rebalancing, removal and the end of a tree.
use struct.Base.{
  ℕ, zero, suc, ◌+◌, max, ◌&&◌, ◌||◌, Option, none, some, List, ◌==◌, ltb, leb, if◌then◌else◌,
}
use struct.Avl.{AvlNode, Cells}

pub data Errno : Type 0 where
  success einval enomem eexist enoent : Errno

-- A command returns a value and the heap after it.
abbrev pub Run : Type 0 → Type 0
Run A = Cells → Option (A × Cells)

infixr 5 ◌>>=◌
abbrev pub ◌>>=◌ : {A B : Type 0} → Run A → (A → Run B) → Run B
◌>>=◌ m k h = elim (m h) [ none ↦ none | some (a, h') ↦ k a h' ]

abbrev pub give : {A : Type 0} → A → Run A
give a h = some (a, h)

abbrev pub put : ℕ → AvlNode → Cells → Cells
put p n h x = if x == p then some n else h x

-- A read of the node at `p`, and a write to some of its fields.
abbrev pub load : ℕ → Run AvlNode
load p h = elim (h p) [ none ↦ none | some n ↦ some (n, h) ]

abbrev pub update : ℕ → (AvlNode → AvlNode) → Run Unit
update p f h = elim (h p) [ none ↦ none | some n ↦ some (tt, put p (f n) h) ]

-- `GetHeight` plus 1, as all heights below are: 0 for NULL, so that `MAX(…) + 1` of two heights is the
-- `max` of them.
unfoldable pub get_height : ℕ → Run ℕ
get_height tree h = if tree == 0 then some (0, h) else (load tree >>= λ n. give (n.height + 1)) h

-- `tree->height = MAX(GetHeight(tree->left), GetHeight(tree->right)) + 1`
unfoldable pub fix_height : ℕ → Run Unit
fix_height tree = load tree >>= λ n. get_height n.left >>= λ a.
    get_height n.right >>= λ b. update tree λ n. record n { height = max a b }

abbrev pub set_parent_if : (child parent : ℕ) → Run Unit
set_parent_if child parent h =
    if child == 0 then some (tt, h) else update child (λ n. record n { parent = parent }) h

-- `LLRotate`
unfoldable pub ll_rotate : ℕ → Run ℕ
ll_rotate tree = load tree >>= λ t. load t.left >>= λ r.
    update t.left (λ n. record n { parent = t.parent }) >>= λ _.
    update tree (λ n. record n { parent = t.left; left = r.right }) >>= λ _.
    set_parent_if r.right tree >>= λ _. update t.left (λ n. record n { right = tree }) >>= λ _.
    fix_height tree >>= λ _. fix_height t.left >>= λ _. give t.left

-- `RRRotate`: the subtree between the two nodes is not kept, and the left one is taken twice.
unfoldable pub rr_rotate : ℕ → Run ℕ
rr_rotate tree = load tree >>= λ t. load t.right >>= λ r.
    update t.right (λ n. record n { parent = t.parent }) >>= λ _.
    update tree (λ n. record n { parent = t.right; right = t.left }) >>= λ _.
    set_parent_if t.left tree >>= λ _. update t.right (λ n. record n { left = tree }) >>= λ _.
    fix_height tree >>= λ _. fix_height t.right >>= λ _. give t.right

-- `LRRotate` and `RLRotate`
unfoldable pub lr_rotate : ℕ → Run ℕ
lr_rotate tree = rr_rotate tree >>= λ tree'. ll_rotate tree'

unfoldable pub rl_rotate : ℕ → Run ℕ
rl_rotate tree = ll_rotate tree >>= λ tree'. rr_rotate tree'

-- The node of a new range; `data_len` stays 0.
abbrev pub new_node : (min_key max_key : ℕ) → List ℕ → AvlNode
new_node min_key max_key bytes = record {
  min_key = min_key;
  max_key = max_key;
  left = 0;
  right = 0;
  parent = 0;
  height = 0;
  data_len = 0;
  bytes = bytes;
}

-- What a call returns, and what it writes through its last parameter, if it does.
abbrev pub Outcome : Type 0
Outcome = Run (Errno × Option ℕ)

abbrev pub set_left : ℕ → Option ℕ → Run Unit
set_left tree none = give tt
set_left tree (some p) = update tree λ n. record n { left = p }

abbrev pub set_right : ℕ → Option ℕ → Run Unit
set_right tree none = give tt
set_right tree (some p) = update tree λ n. record n { right = p }

-- The end of `InsertAvlEntry`
abbrev pub finish : ℕ → Outcome
finish tree = fix_height tree >>= λ _. give (success, some tree)

-- `InsertAvlEntry`, behind the insertion to the left or right.
unfoldable pub after_left : (tree min_key : ℕ) → Outcome
after_left tree min_key = load tree >>= λ t.
    update t.left (λ n. record n { parent = tree }) >>= λ _. get_height t.left >>= λ a.
    get_height t.right >>= λ b. load t.left >>= λ l.
    if a == b + 2
    then (if ltb min_key l.min_key then ll_rotate tree >>= finish else lr_rotate tree >>= finish)
    else finish tree

unfoldable pub after_right : (tree min_key : ℕ) → Outcome
after_right tree min_key = load tree >>= λ t.
    update t.right (λ n. record n { parent = tree }) >>= λ _. get_height t.right >>= λ a.
    get_height t.left >>= λ b. load t.right >>= λ r.
    if a == b + 2
    then (if ltb r.min_key min_key then rr_rotate tree >>= finish else rl_rotate tree >>= finish)
    else finish tree

-- `InsertAvlEntry`; a failure ends the call, after what the inner call wrote to the field.
unfoldable pub insert_entry :
    ℕ → (malloc : Option ℕ) → (min_key max_key : ℕ) → List ℕ → (tree : ℕ) → Outcome
insert_entry zero malloc min_key max_key bytes tree h = none
insert_entry (suc fuel) malloc min_key max_key bytes tree h =
    let go = insert_entry fuel malloc min_key max_key bytes in
    if tree == 0
    then (elim malloc [
      | none ↦ some ((enomem, none), h)
      | some p ↦ finish p (put p (new_node min_key max_key bytes) h)
    ])
    else (elim (h tree) [
      | none ↦ none
      | some t ↦
          if (leb t.min_key min_key && leb min_key t.max_key)
            || (leb t.min_key max_key && leb max_key t.max_key)
          then some ((eexist, some tree), h)
          else (if ltb max_key t.min_key
              then (elim (go t.left h) [
                | none ↦ none
                | some ((success, out), h') ↦
                    (set_left tree out >>= λ _. after_left tree min_key) h'
                | some ((errno, out), h') ↦ (set_left tree out >>= λ _. give (errno, none)) h'
              ])
              else (elim (go t.right h) [
                | none ↦ none
                | some ((success, out), h') ↦
                    (set_right tree out >>= λ _. after_right tree min_key) h'
                | some ((errno, out), h') ↦ (set_right tree out >>= λ _. give (errno, none)) h'
              ]))
    ])
