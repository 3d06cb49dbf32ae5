-- ===== src/Dlist/Drain.antt =====
-- `dlist_for_each_safe` with `dlist_remove` as its body.
use struct.Base.{
  ℕ, zero, suc, ◌<◌, ◌≡◌, ◌∙◌, refl, sym, arith, true, some, List, [], ◌∷◌, ◌==◌, occurrences,
  length, All,
}
use struct.Dlist.{Heap, ◌>>◌, each_safe_from, for_each_safe, remove}
use struct.Dlist.Seg.{IsDlist, IsDlist-frame, Only, Only-trans}
use struct.Dlist.Add.{first, cut-Linked, head_live, live_first}
use struct.Dlist.Remove.{remove_lem}
use struct.Dlist.Walk.{entry_links}
use struct.Dlist.Join.{first_differs}

module _ (list : ℕ) where
  -- What is left: an empty list, and each entry a list of its own.
  abbrev pub Drained : List ℕ → Heap → Heap → Type 0
  Drained xs h h' = IsDlist h' list [] × All (λ e. IsDlist h' e []) xs × Only (list ∷ xs) h h'

  drain :
      (fuel : ℕ) (xs : List ℕ) (n : ℕ) (h : Heap)
      → length xs < fuel
      → IsDlist h list xs
      → h.next (first list xs) ≡ n
      → (h' : Heap) × (each_safe_from remove fuel list (first list xs) n h ≡ some h')
        × Drained xs h h'
  unfolding each_safe_from occurrences
  drain zero xs n h lt is e = absurd (omega arith)
  drain (suc fuel) [] n h lt is e =
      let here : (list == list) ≡ true = ground arith in
      (
        h,
        rw here refl,
        (
          is,
          tt,
          record { same_next = λ z i. refl; same_prev = λ z i. refl; same_live = λ z. refl },
        ),
      )
  drain (suc fuel) (x ∷ xs) n h lt is e =
      let differ = first_differs is in
      let (h1, run, is1, self, o1) = remove_lem h list [] x xs is in
      let nx : n ≡ first list xs = sym e ∙ (entry_links h list [] x xs is).2 in
      let ln : h1.live (first list xs) ≡ true = live_first h1 list [] xs is1 in
      let (h2, more, (is2, alone, o2)) =
        drain fuel xs (h1.next (first list xs)) h1 (omega arith) is1 refl in
      (
        h2,
        rw (differ, each_safe_from, ◌>>◌, run, nx, ln, more) refl,
        (
          is2,
          (
            IsDlist-frame h1 h2 (list ∷ xs) x [] o2 (λ z i. ground (arith, i, is.uniq z)) self,
            alone,
          ),
          Only-trans (list ∷ x ∷ xs) (list ∷ xs) (list ∷ x ∷ xs) (λ z i. (i, omega (arith, i))) o1
              o2,
        ),
      )

  -- dlist_for_each_safe with dlist_remove of the entry in hand ends without a fault, on fuel above
  -- the number of entries, and leaves the list empty and each entry as a list of its own.
  pub for_each_safe_lem :
      (fuel : ℕ) (xs : List ℕ) (h : Heap)
      → length xs < fuel
      → IsDlist h list xs
      → (h' : Heap) × (for_each_safe remove fuel list h ≡ some h') × Drained xs h h'
  unfolding for_each_safe
  for_each_safe_lem fuel xs h lt is =
      let l = head_live h list [] xs is in
      let n : h.next list ≡ first list xs = (cut-Linked h list [] xs is).0 in
      let lf : h.live (first list xs) ≡ true = live_first h list [] xs is in
      let (h', run, done) = drain fuel xs (h.next (first list xs)) h lt is refl in
      (h', rw (l, for_each_safe, n, lf, run) refl, done)
