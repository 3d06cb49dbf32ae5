-- ===== src/IntList/Compare.antt =====
-- When `intlist__node_cmp` orders integers.
use struct.Base.{ℕ, ◌+◌, ◌%◌, ◌^◌, ◌≤◌, ◌<◌, ◌≡◌, ◌↔◌, arith}
use Prim.Native.Nat.{compare}
use struct.IntList.{node_cmp}

-- The order of signed integers, on their bit patterns: how many are smaller.
abbrev pub rank : ℕ → ℕ
rank w = (w + 2 ^ 31) % 2 ^ 32

-- The difference of two integers is an `int`.
abbrev pub DiffFits : ℕ → ℕ → Type 0
DiffFits a b = (rank a < rank b + 2 ^ 31) × (rank b ≤ rank a + 2 ^ 31)

-- `intlist__node_cmp` has the sign of the order of the two integers exactly when their difference
-- is an `int`.
pub node_cmp-compare :
    (ints : ℕ → ℕ) (node i : ℕ)
    → ints node < 2 ^ 32
    → i < 2 ^ 32
    → (node_cmp ints i node ≡ compare (rank (ints node)) (rank i)) ↔ DiffFits (ints node) i
unfolding node_cmp
node_cmp-compare ints node i ha hb = (λ e. ground arith, λ f. ground arith)
