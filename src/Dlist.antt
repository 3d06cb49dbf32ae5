-- ===== src/Dlist.antt =====
-- The circular doubly linked lists of dlist.h. A list is its head, a node that is no entry; a
-- `dlist_t` and a `dnode_t` are the same `struct list_head`, by its address. `live` tells the
-- addresses at which there is one. `none` is a fault, an access to any other address.
pub mod Seg
pub mod Add
pub mod Remove
pub mod Move
pub mod Splice
pub mod Join
pub mod Cut
pub mod Walk
pub mod Drain
mod Tests
pub mod Link
use struct.Base.{
  ℕ, zero, suc, Bool, true, false, not, ◌&&◌, ◌||◌, Option, none, some, List, [], ◌∷◌, ◌==◌,
  if◌then◌else◌,
}

pub record Heap : Type 0 where
  pub live : ℕ → Bool
  pub next : ℕ → ℕ
  pub prev : ℕ → ℕ

abbrev pub Cmd : Type 0
Cmd = Heap → Option Heap

infixr 5 ◌>>◌
abbrev pub ◌>>◌ : Cmd → Cmd → Cmd
◌>>◌ m k h = elim (m h) [ none ↦ none | some h' ↦ k h' ]

abbrev pub skip : Cmd
skip h = some h

abbrev pub write : (ℕ → ℕ) → ℕ → ℕ → ℕ → ℕ
write f p q x = if x == p then q else f x

abbrev pub with_next : ℕ → ℕ → Heap → Heap
with_next p q h = record h { next = write h.next p q }

abbrev pub with_prev : ℕ → ℕ → Heap → Heap
with_prev p q h = record h { prev = write h.prev p q }

-- `p->next = q`, `p->prev = q`, and the reads of these fields.
abbrev pub set_next : ℕ → ℕ → Cmd
set_next p q h = if h.live p then some (with_next p q h) else none

abbrev pub set_prev : ℕ → ℕ → Cmd
set_prev p q h = if h.live p then some (with_prev p q h) else none

abbrev pub load_next : {A : Type 0} → ℕ → (ℕ → Heap → Option A) → Heap → Option A
load_next p k h = if h.live p then k (h.next p) h else none

abbrev pub load_prev : {A : Type 0} → ℕ → (ℕ → Heap → Option A) → Heap → Option A
load_prev p k h = if h.live p then k (h.prev p) h else none

-- `dlist_init`
unfoldable pub init : ℕ → Cmd
init list = set_next list list >> set_prev list list

-- `__list_add`
unfoldable pub list_add : (entry prev next : ℕ) → Cmd
list_add entry prev next =
    set_prev next entry >> set_next entry next >> set_prev entry prev >> set_next prev entry

unfoldable pub add : (list entry : ℕ) → Cmd
add list entry = load_next list λ next. list_add entry list next

unfoldable pub add_tail : (list entry : ℕ) → Cmd
add_tail list entry = load_prev list λ prev. list_add entry prev list

-- `__list_remove` and `__list_remove_entry`
unfoldable pub list_remove : (prev next : ℕ) → Cmd
list_remove prev next = set_prev next prev >> set_next prev next

unfoldable pub list_remove_entry : ℕ → Cmd
list_remove_entry entry = load_prev entry λ prev. load_next entry λ next. list_remove prev next

unfoldable pub remove : ℕ → Cmd
remove entry = list_remove_entry entry >> set_next entry entry >> set_prev entry entry >> init entry

unfoldable pub replace : (old_entry new_entry : ℕ) → Cmd
replace old_entry new_entry = load_next old_entry λ next.
    set_next new_entry next
    >> (load_next new_entry λ next'. set_prev next' new_entry)
    >> (load_prev old_entry λ prev. set_prev new_entry prev)
    >> (load_prev new_entry λ prev'. set_next prev' new_entry)
    >> init old_entry

unfoldable pub move : (new_list entry : ℕ) → Cmd
move new_list entry = list_remove_entry entry >> add new_list entry

unfoldable pub move_tail : (new_list entry : ℕ) → Cmd
move_tail new_list entry = list_remove_entry entry >> add_tail new_list entry

unfoldable pub is_last_entry : (list entry : ℕ) → Heap → Option Bool
is_last_entry list entry = load_next entry λ next h. some (next == list)

unfoldable pub empty : ℕ → Heap → Option Bool
empty list = load_next list λ next h. some (next == list)

unfoldable pub empty_careful : ℕ → Heap → Option Bool
empty_careful head =
    load_next head λ next. load_prev head λ prev h. some ((next == head) && (next == prev))

unfoldable pub is_singular : ℕ → Heap → Option Bool
is_singular head =
    load_next head λ next. load_prev head λ prev h. some (not (next == head) && (next == prev))

unfoldable pub rotate_left : ℕ → Cmd
rotate_left list h = elim (empty list h) [
  | none ↦ none
  | some true ↦ some h
  | some false ↦ load_next list (λ first. move_tail first list) h
]

-- `__list_cut_position`
unfoldable pub list_cut_position : (list head entry : ℕ) → Cmd
list_cut_position list head entry = load_next entry λ new_first.
    (load_next head λ next. set_next list next)
    >> (load_next list λ next. set_prev next list)
    >> set_prev list entry
    >> set_next entry list
    >> set_next head new_first
    >> set_prev new_first head

unfoldable pub cut_position : (old_list entry new_list : ℕ) → Cmd
cut_position old_list entry new_list h = elim (empty old_list h) [
  | none ↦ none
  | some true ↦ some h
  | some false ↦ elim (is_singular old_list h) [
    | none ↦ none
    | some singular ↦
        load_next old_list
          (λ next.
            if singular && (not (next == entry) && not (old_list == entry))
            then skip
            else (if entry == old_list
                then init new_list
                else list_cut_position new_list old_list entry))
          h
  ]
]

-- `__list_splice`
unfoldable pub list_splice : (list prev next : ℕ) → Cmd
list_splice list prev next = load_next list λ first.
    load_prev list
      λ last. set_prev first prev >> set_next prev first >> set_next last next >> set_prev next last

unfoldable pub join : (from to : ℕ) → Cmd
join from to h = elim (empty from h) [
  | none ↦ none
  | some true ↦ some h
  | some false ↦ load_next to (λ next. list_splice from to next) h
]

unfoldable pub join_tail : (from to : ℕ) → Cmd
join_tail from to h = elim (empty from h) [
  | none ↦ none
  | some true ↦ some h
  | some false ↦ load_prev to (λ prev. list_splice from prev to) h
]

-- The loops of `dlist_for_each` and `dlist_for_each_prev` from `pos` on, by the entries that their
-- body sees; the body changes no link.
unfoldable pub each_from : ℕ → (head pos : ℕ) → Heap → Option (List ℕ)
each_from zero head pos h = none
each_from (suc fuel) head pos h =
    if pos == head
    then some []
    else load_next pos
        (λ next h'. elim (each_from fuel head next h') [ none ↦ none | some ps ↦ some (pos ∷ ps) ])
        h

unfoldable pub for_each : ℕ → ℕ → Heap → Option (List ℕ)
for_each fuel head = load_next head λ pos. each_from fuel head pos

unfoldable pub each_prev_from : ℕ → (head pos : ℕ) → Heap → Option (List ℕ)
each_prev_from zero head pos h = none
each_prev_from (suc fuel) head pos h =
    if pos == head
    then some []
    else load_prev pos
        (λ prev h'. elim (each_prev_from fuel head prev h') [
          | none ↦ none
          | some ps ↦ some (pos ∷ ps)
        ])
        h

unfoldable pub for_each_prev : ℕ → ℕ → Heap → Option (List ℕ)
for_each_prev fuel head = load_prev head λ pos. each_prev_from fuel head pos

-- `dlist_for_each_safe`, whose body may change the links of the entry in hand.
unfoldable pub each_safe_from : (body : ℕ → Cmd) → ℕ → (head pos n : ℕ) → Cmd
each_safe_from body zero head pos n h = none
each_safe_from body (suc fuel) head pos n h =
    if pos == head
    then some h
    else (body pos >> load_next n λ n'. each_safe_from body fuel head n n') h

unfoldable pub for_each_safe : (body : ℕ → Cmd) → ℕ → ℕ → Cmd
for_each_safe body fuel head =
    load_next head λ pos. load_next pos λ n. each_safe_from body fuel head pos n
