-- ===== src/Hlist.antt =====
-- The hash chains of hlist.h. A head's `first` and a node's `next` are the first members of their
-- structs, so `&h->first` and `&n->next` are the addresses of `h` and `n`: on the heap of dlist.h
-- `next` holds both, by address, and `prev` holds `pprev`, the address of the pointer that points
-- to the node. NULL is 0.
pub mod Chain
pub mod Ops
pub mod Move
pub mod Walk
mod Tests
use struct.Base.{
  ℕ, zero, suc, ◌+◌, ◌*◌, Bool, true, false, Option, none, some, List, [], ◌∷◌, ◌==◌, if◌then◌else◌,
}
use struct.Dlist.{Heap, Cmd, ◌>>◌, skip, set_next, set_prev, load_next, load_prev}

-- `INIT_HLIST_HEAD` and `INIT_HLIST_NODE`
unfoldable pub init_head : ℕ → Cmd
init_head ptr = set_next ptr 0

unfoldable pub init_node : ℕ → Cmd
init_node h = set_next h 0 >> set_prev h 0

unfoldable pub unhashed : ℕ → Heap → Option Bool
unhashed h = load_prev h λ pprev s. some (pprev == 0)

unfoldable pub empty : ℕ → Heap → Option Bool
empty h = load_next h λ first s. some (first == 0)

-- `if (next) next->pprev = pprev`
unfoldable pub set_pprev : (next pprev : ℕ) → Cmd
set_pprev next pprev = if next == 0 then skip else set_prev next pprev

-- `__hlist_del`
unfoldable pub unlink : ℕ → Cmd
unlink n = load_next n λ next. load_prev n λ pprev. set_next pprev next >> set_pprev next pprev

-- `hlist_del`; `local` is the address of its parameter `n`, which is what the code writes.
unfoldable pub del : (local n : ℕ) → Cmd
del local n = unlink n >> set_next n n >> set_prev n local

unfoldable pub del_init : ℕ → Cmd
del_init n h = elim (unhashed n h) [
  | none ↦ none
  | some true ↦ some h
  | some false ↦ (unlink n >> init_node n) h
]

unfoldable pub add_head : (n h : ℕ) → Cmd
add_head n h =
    load_next h λ first. set_next n first >> set_pprev first n >> set_next h n >> set_prev n h

unfoldable pub add_before : (n next : ℕ) → Cmd
add_before n next =
    (load_prev next λ pprev. set_prev n pprev)
    >> set_next n next
    >> set_prev next n
    >> (load_prev n λ pprev. set_next pprev n)

-- `hlist_add_after` puts `next` behind `n`.
unfoldable pub add_after : (n next : ℕ) → Cmd
add_after n next =
    (load_next n λ old. set_next next old)
    >> set_next n next
    >> set_prev next n
    >> (load_next next λ behind. set_pprev behind next)

unfoldable pub add_fake : ℕ → Cmd
add_fake n = set_prev n n

unfoldable pub move_list : (old to : ℕ) → Cmd
move_list old to =
    (load_next old λ first. set_next to first)
    >> (load_next to λ first. set_pprev first to)
    >> set_next old 0

-- The loop of `hlist_for_each` from `pos` on, by the nodes that its body sees.
unfoldable pub chain_from : (fuel pos : ℕ) → Heap → Option (List ℕ)
chain_from zero pos h = none
chain_from (suc fuel) pos h =
    if pos == 0
    then some []
    else (load_next pos
        (λ next h'. elim (chain_from fuel next h') [ none ↦ none | some ps ↦ some (pos ∷ ps) ]) h)

unfoldable pub for_each : (fuel head : ℕ) → Heap → Option (List ℕ)
for_each fuel head = load_next head λ pos. chain_from fuel pos

-- `htable_init`: an `hlist_t` takes eight bytes.
unfoldable pub init_from : (i left list : ℕ) → Cmd
init_from i zero list = skip
init_from i (suc left) list = init_head (list + 8 * i) >> init_from (suc i) left list

unfoldable pub htable_init : (list size : ℕ) → Cmd
htable_init list size = init_from 0 size list
