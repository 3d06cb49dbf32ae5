-- ===== src/Fifo.antt =====
-- The bounded queue of pointers of fifo.h, one slot of whose table stays free.
pub mod Inv
pub mod Queue
pub mod Refine
mod Tests
use struct.Base.{
  ℕ, ◌+◌, ◌-◌, ◌%◌, Bool, true, false, not, List, [], u32, ◌==◌, if◌then◌else◌, get_or, set,
}

-- `fifo_t`. A `void*` is a number, and 0 is NULL; a closed fifo has no table.
pub record Fifo : Type 0 where
  pub tail : ℕ
  pub head : ℕ
  pub max : ℕ
  pub table : List ℕ

-- `malloc n` is the block of `n` slots that the allocator returns; `max` is its unsigned value. The
-- sum is of signed numbers, which C leaves undefined at INT_MAX; here it wraps as on the machine.
pub init : (malloc : ℕ → List ℕ) → ℕ → Fifo
init malloc max = record { tail = 0; head = 0; max = u32 (max + 1); table = malloc (u32 (max + 1)) }

pub close : Fifo → Fifo
close fifo = record fifo { table = [] }

unfoldable pub increment : ℕ → ℕ → ℕ
increment idx max = u32 (idx + 1) % max

pub put : Fifo → ℕ → Bool × Fifo
unfolding increment
put fifo entry =
    let next_tail = increment fifo.tail fifo.max in
    if not (next_tail == fifo.head)
    then (true, record fifo { table = set fifo.table fifo.tail entry; tail = next_tail })
    else (false, fifo)

-- `NULL` when the queue is empty.
pub get : Fifo → ℕ × Fifo
unfolding increment
get fifo =
    if fifo.head == fifo.tail
    then (0, fifo)
    else (get_or fifo.table fifo.head 0, record fifo { head = increment fifo.head fifo.max })

pub empty : Fifo → Bool
empty fifo = fifo.head == fifo.tail

pub full : Fifo → Bool
full fifo = u32 (fifo.tail + 1) % fifo.max == fifo.head
