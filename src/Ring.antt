-- ===== src/Ring.antt =====
-- Circular storage, as fifo.h and kfifo.c use it: position `p` of the stream lies in slot `p % m`
-- of a table of `m` slots.
use struct.Base.{
  ℕ, zero, suc, ◌+◌, ◌-◌, ◌%◌, ◌≤◌, ◌<◌, ◌≡◌, ◌≢◌, refl, ap, ap₂, ◌∙◌, sym, List, [], ◌∷◌, ◌++◌,
  arith, dec_lt, length, get_or, set, get_or-set_self, get_or-set_ne,
}
use native.Mathlib.Nat.{mod-add-mod, mod-eq_of_lt, mod-eq-sub-mod, mod-lt, suc-mod}

-- Distinct positions less than `m` apart lie in distinct slots.
pub slot_ne : (m p k : ℕ) → 0 < k → k < m → p % m ≢ (p + k) % m
slot_ne m p k h0 h = elim (dec_lt (p % m + k) m) [
  | yes small ↦ omega (arith, mod-add-mod p m k, mod-eq_of_lt small)
  | no large ↦ omega (
    arith,
    mod-add-mod p m k,
    mod-lt p {m = m} (omega arith),
    mod-eq-sub-mod {n = p % m + k} {m = m} (omega arith),
    mod-eq_of_lt {n = p % m + k - m} {m = m} (omega (arith, mod-lt p {m = m} (omega arith))),
  )
]

-- The `n` items of the stream from position `p` on.
abbrev pub items : List ℕ → ℕ → ℕ → ℕ → List ℕ
items t m p zero = []
items t m p (suc n) = get_or t (p % m) 0 ∷ items t m (suc p) n

pub length-items : (t : List ℕ) (m p n : ℕ) → length (items t m p n) ≡ n
length-items t m p zero = refl
length-items t m p (suc n) = ap suc (length-items t m (suc p) n)

-- Only the slot of the first position matters.
pub items_slot : (t : List ℕ) (m p q n : ℕ) → p % m ≡ q % m → items t m p n ≡ items t m q n
items_slot t m p q zero e = refl
items_slot t m p q (suc n) e =
    ap₂ (λ k r. get_or t k 0 ∷ r) e
      (items_slot t m (suc p) (suc q) n (suc-mod p m ∙ ap (λ k. suc k % m) e ∙ sym (suc-mod q m)))

-- Writing the slot behind a window that is not full appends to it.
pub items-snoc :
    (t : List ℕ) (m p n i v : ℕ)
    → m ≤ length t
    → n < m
    → i ≡ (p + n) % m
    → items (set t i v) m p (suc n) ≡ items t m p n ++ (v ∷ [])
items-snoc t m p zero i v ht h e =
    ap (λ x. x ∷ [])
      (rw (e ∙ ap (λ k. k % m) {y = p} (omega arith))
        (get_or-set_self t (p % m) v 0 (omega (arith, mod-lt p {m = m} (omega arith)))))
items-snoc t m p (suc n) i v ht h e =
    ap₂ ◌∷◌ (get_or-set_ne t i (p % m) v 0 (λ c. slot_ne m p (suc n) (omega arith) h (sym c ∙ e)))
      (items-snoc t m (suc p) n i v ht (omega arith) (e ∙ ap (λ k. k % m) (omega arith)))
