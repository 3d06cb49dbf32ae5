-- ===== src/Fifo/Tests.antt =====
-- Runs of fifo.h on concrete queues, and the theorems of Fifo/Refine at concrete inputs.
use struct.Base.{
  ◌≡◌, ◌↔◌, refl, arith, true, false, List, [], ◌∷◌, replicate, length, length-replicate,
}
use struct.Fifo.{Fifo, init, put, get, empty, full}
use struct.Fifo.Queue
use struct.Fifo.Queue.{Op, enqueue, dequeue, stored, item}
use struct.Fifo.Refine.{run_refines, init_refines, empty-full, contents}

-- Four slots, with 8 and then 9 queued round the end of the table.
abbrev wrapped : Fifo
wrapped = record { tail = 1; head = 3; max = 4; table = 9 ∷ 0 ∷ 0 ∷ 8 ∷ [] }

abbrev script : List Op
script = enqueue 5 ∷ enqueue 6 ∷ dequeue ∷ dequeue ∷ dequeue ∷ dequeue ∷ []

run-wrapped :
    Queue.run_fifo wrapped script
    ≡ stored true ∷ stored false ∷ item 8 ∷ item 9 ∷ item 5 ∷ item 0 ∷ []
unfolding Queue.run_fifo put get
run-wrapped = refl

run_refines_example : Queue.run_fifo wrapped script ≡ Queue.run 3 (8 ∷ 9 ∷ []) script
run_refines_example = run_refines script wrapped (omega arith)

init_refines_example : Queue.run_fifo (init (λ n. replicate n 0) 2) script ≡ Queue.run 2 [] script
init_refines_example =
    init_refines (λ n. replicate n 0) 2 script (λ n. length-replicate n 0) (omega arith)

not_full :
    ((empty wrapped ≡ true) ↔ (contents wrapped ≡ []))
    × ((full wrapped ≡ true) ↔ (length (contents wrapped) ≡ 3))
not_full = empty-full wrapped (omega arith)
