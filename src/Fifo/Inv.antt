-- ===== src/Fifo/Inv.antt =====
-- The representation invariant of `fifo_t`, and that every operation keeps it.
use struct.Base.{
  ℕ, suc, ◌+◌, ◌-◌, ◌%◌, ◌≤◌, ◌<◌, ◌≡◌, ◌∙◌, ap, arith, u32_mod, leb, if◌then◌else◌, length,
  length-set, dec_lt, ◌⊎◌, inl, inr,
}
use native.Mathlib.Nat.{mod-eq_of_lt, mod_self}
use struct.Fifo.{Fifo, increment, put, get}

pub record IsValid (f : Fifo) : Type 0 where
  pub storage : f.max ≤ length f.table
  pub small : f.max < u32_mod
  pub head_in : f.head < f.max
  pub tail_in : f.tail < f.max

-- How many slots are in use.
abbrev pub count : Fifo → ℕ
count f = if leb f.head f.tail then f.tail - f.head else f.tail + f.max - f.head

-- The two ways of an increment.
pub increment_cases :
    (i m : ℕ)
    → i < m
    → m < u32_mod
    → ((increment i m ≡ suc i) × (suc i < m)) ⊎ ((increment i m ≡ 0) × (suc i ≡ m))
unfolding increment
increment_cases i m h k = elim (dec_lt (suc i) m) [
  | yes p ↦ inl (ap (λ j. j % m) (omega arith) ∙ mod-eq_of_lt p, p)
  | no p ↦ inr (ap (λ j. j % m) (omega arith) ∙ mod_self m, omega arith)
]

-- Every table access of `fifo_put` and `fifo_get` is in range, and no index sum wraps.
pub put-IsValid : (f : Fifo) (x : ℕ) → IsValid f → IsValid (put f x).1
unfolding put
put-IsValid f x v = ground (arith, length-set f.table f.tail x, increment_cases f.tail f.max)

pub get-IsValid : (f : Fifo) → IsValid f → IsValid (get f).1
unfolding get
get-IsValid f v = ground (arith, increment_cases f.head f.max)
