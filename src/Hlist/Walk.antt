-- ===== src/Hlist/Walk.antt =====
-- `hlist_for_each` and `hlist_empty`.
use struct.Base.{
  ℕ, zero, suc, ◌<◌, ◌≡◌, refl, sym, ap, subst, arith, true, false, some, Bool, length, List, [],
  ◌∷◌, ◌++◌, append_assoc, ◌==◌,
}
use struct.Dlist.{Heap}
use struct.Hlist.{chain_from, for_each, empty}
use struct.Hlist.Chain.{IsHlist, behind, next_of_cut, live_cut}
use struct.Hlist.Ops.{here}

chain_from_lem :
    (h : Heap) (list fuel : ℕ) (us vs : List ℕ)
    → length vs < fuel
    → IsHlist h list (us ++ vs)
    → chain_from fuel (behind vs) h ≡ some vs
unfolding chain_from
chain_from_lem h list zero us vs lt is = absurd (omega arith)
chain_from_lem h list (suc fuel) us [] lt is = refl
chain_from_lem h list (suc fuel) us (e ∷ vs) lt is =
    let (prev_e, next_e, le, ne, live_n) = here h list us e vs is in
    let node : (e == 0) ≡ false = ground (arith, ne) in
    let more =
      chain_from_lem h list fuel (us ++ (e ∷ [])) vs (omega arith)
        (subst (IsHlist h list) (sym (append_assoc us (e ∷ []) vs)) is) in
    rw (node, chain_from, le, next_e, more) refl

abbrev is_nil : List ℕ → Bool
is_nil [] = true
is_nil (x ∷ xs) = false

-- hlist_for_each comes to every node of a chain once, in order, on fuel above their number, and
-- hlist_empty holds exactly when there is none.
pub chain_for_each :
    (h : Heap) (list fuel : ℕ) (xs : List ℕ)
    → length xs < fuel
    → IsHlist h list xs
    → (for_each fuel list h ≡ some xs) × (empty list h ≡ some (is_nil xs))
unfolding for_each empty
chain_for_each h list fuel xs lt is =
    let l = live_cut h list [] xs is in
    let first = next_of_cut h list [] xs is in
    (
      rw (l, for_each, first) (chain_from_lem h list fuel [] xs lt is),
      rw (l, empty, first) (ap some (by xs is)),
    )
  where
    by : (xs : List ℕ) → IsHlist h list xs → (behind xs == 0) ≡ is_nil xs
    by [] is = refl
    by (x ∷ xs) is = let (_, _, _, ne, _) = here h list [] x xs is in ground (arith, ne)
