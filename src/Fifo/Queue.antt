-- ===== src/Fifo/Queue.antt =====
-- What a client of fifo.h is promised: a queue of at most `cap` pointers, the oldest first.
use struct.Base.{ℕ, Bool, true, false, List, [], ◌∷◌, ◌++◌, ltb, if◌then◌else◌, length}
use struct.Fifo.{Fifo}
use struct.Fifo

abbrev pub Queue : Type 0
Queue = List ℕ

unfoldable pub get : Queue → ℕ × Queue
get [] = (0, [])
get (x ∷ q) = (x, q)

unfoldable pub put : ℕ → Queue → ℕ → Bool × Queue
put cap q x = if ltb (length q) cap then (true, q ++ (x ∷ [])) else (false, q)

-- The calls of a client, and what it sees of each.
pub data Op : Type 0 where
  enqueue : ℕ → Op
  dequeue : Op

pub data Reply : Type 0 where
  stored : Bool → Reply
  item : ℕ → Reply

unfoldable pub run : ℕ → Queue → List Op → List Reply
unfolding put get
run cap q [] = []
run cap q (enqueue x ∷ ops) = let (b, q') = put cap q x in stored b ∷ run cap q' ops
run cap q (dequeue ∷ ops) = let (x, q') = get q in item x ∷ run cap q' ops

unfoldable pub run_fifo : Fifo → List Op → List Reply
run_fifo f [] = []
run_fifo f (enqueue x ∷ ops) = let (b, f') = Fifo.put f x in stored b ∷ run_fifo f' ops
run_fifo f (dequeue ∷ ops) = let (x, f') = Fifo.get f in item x ∷ run_fifo f' ops
