-- ===== src/Fifo/Refine.antt =====
-- A valid fifo behaves as the bounded queue of the pointers between `head` and `tail`.
use struct.Base.{
  ℕ, zero, suc, ◌+◌, ◌-◌, ◌%◌, ◌<◌, ◌≡◌, ◌∙◌, refl, ap, ap₂, sym, arith, List, [], ◌∷◌, true, ◌↔◌,
  u32, u32_mod, length, get_or, dec_lt,
}
use native.Mathlib.Nat.{mod-eq_of_lt, add-mod_right, mod_self, zero-mod}
use struct.Ring.{items, length-items, items_slot, items-snoc}
use struct.Fifo.{Fifo, init, increment, put, get, empty, full}
use struct.Fifo.Inv.{IsValid, count, increment_cases, put-IsValid, get-IsValid}
use struct.Fifo.Queue
use struct.Fifo.Queue.{Op, enqueue, dequeue}

abbrev pub contents : Fifo → List ℕ
contents f = items f.table f.max f.head (count f)

-- The oldest pointer, and the window that `fifo_get` leaves.
items_pop :
    (t : List ℕ) (m p q n : ℕ)
    → p < m
    → 0 < n
    → q % m ≡ suc p % m
    → items t m p n ≡ get_or t p 0 ∷ items t m q (n - 1)
items_pop t m p q zero h k e = elim k [ ]
items_pop t m p q (suc n) h k e =
    ap₂ ◌∷◌ (ap (λ k. get_or t k 0) (mod-eq_of_lt h))
      (items_slot t m (suc p) q n (sym e) ∙ ap (items t m q) (omega arith))

module _ {f : Fifo} (v : IsValid f) where
  count-lt-max : count f < f.max
  count-lt-max = ground arith

  tail_slot : f.tail ≡ (f.head + count f) % f.max
  tail_slot = elim (dec_lt f.tail f.head) [
    | no le ↦ sym (ap (λ k. k % f.max) (ground arith) ∙ mod-eq_of_lt v.tail_in)
    | yes lt ↦ sym (
        ap (λ k. k % f.max) {y = f.tail + f.max} (ground arith)
        ∙ add-mod_right f.tail f.max
        ∙ mod-eq_of_lt v.tail_in)
  ]

  -- `fifo_put` stores the pointer if fewer than `max - 1` are queued, and says so.
  pub put_refines :
      (x : ℕ) → let (b, f') = put f x in (b, contents f') ≡ Queue.put (f.max - 1) (contents f) x
  unfolding put Queue.put
  put_refines x = ground (
    arith,
    increment_cases f.tail f.max,
    length-items f.table f.max f.head (count f),
    items-snoc f.table f.max f.head (count f) f.tail x,
    tail_slot,
    count-lt-max,
  )

  pub get_refines : let (x, f') = get f in (x, contents f') ≡ Queue.get (contents f)
  unfolding get Queue.get
  get_refines = ground (
    arith,
    increment_cases f.head f.max,
    items_pop f.table f.max f.head (get f).1.head (count f),
    add-mod_right 0 f.max,
    zero-mod f.max,
    mod_self f.max,
  )

max-put : (f : Fifo) (x : ℕ) → (put f x).1.max ≡ f.max
unfolding put
max-put f x = ground arith

max-get : (f : Fifo) → (get f).1.max ≡ f.max
unfolding get
max-get f = ground arith

-- Whatever calls a client makes of a valid fifo, it sees the replies of the queue of at most
-- `max - 1` pointers that starts with the fifo's contents.
pub run_refines :
    (ops : List Op) (f : Fifo)
    → IsValid f
    → Queue.run_fifo f ops ≡ Queue.run (f.max - 1) (contents f) ops
unfolding Queue.run_fifo Queue.run
run_refines [] f v = refl
run_refines (enqueue x ∷ ops) f v =
    rw (run_refines ops (put f x).1 (put-IsValid f x v), ← put_refines v x, max-put)
run_refines (dequeue ∷ ops) f v =
    rw (run_refines ops (get f).1 (get-IsValid f v), ← get_refines v, max-get)

-- What `fifo_init` makes is valid and empty, and holds up to `max` pointers.
pub init_refines :
    (malloc : ℕ → List ℕ) (max : ℕ) (ops : List Op)
    → ((n : ℕ) → length (malloc n) ≡ n)
    → max + 1 < u32_mod
    → Queue.run_fifo (init malloc max) ops ≡ Queue.run max [] ops
unfolding init
init_refines malloc max ops block small =
    run_refines ops (init malloc max) (ground (arith, block (max + 1), u32_small))
    ∙ ap (λ k. Queue.run k [] ops) (omega arith)
  where
    u32_small : u32 (max + 1) ≡ max + 1
    u32_small = omega arith

items_none : (t : List ℕ) (m p n : ℕ) → n ≡ 0 → items t m p n ≡ []
items_none t m p n e = ap (items t m p) e

-- `fifo_empty` and `fifo_full` are the tests for no and for `max - 1` queued pointers.
pub empty-full :
    (f : Fifo)
    → IsValid f
    → ((empty f ≡ true) ↔ (contents f ≡ [])) × ((full f ≡ true) ↔ (length (contents f) ≡ f.max - 1))
unfolding empty full increment
empty-full f v = (
  (
    λ e. items_none f.table f.max f.head (count f) (ground arith),
    λ e. ground (arith, ap length e, length-items f.table f.max f.head (count f)),
  ),
  (
    λ e. ground (arith, increment_cases f.tail f.max, length-items f.table f.max f.head (count f)),
    λ e. ground (arith, increment_cases f.tail f.max, length-items f.table f.max f.head (count f)),
  ),
)
