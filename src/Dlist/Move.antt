-- ===== src/Dlist/Move.antt =====
-- `dlist_move` and `dlist_move_tail`.
use struct.Base.{
  ℕ, ◌+◌, ◌≤◌, ◌≡◌, ◌∙◌, refl, arith, true, some, List, [], ◌∷◌, ◌++◌, one, occurrences,
  occurrences-append,
}
use struct.Dlist.{Heap, ◌>>◌, move, move_tail}
use struct.Dlist.Seg.{IsDlist, IsDlist-frame, Only, Only-trans}
use struct.Dlist.Add.{add_lem, add_tail_lem}
use struct.Dlist.Remove.{list_remove_entry_lem}

-- From one list to another.
module _ (h : Heap) (a : ℕ) (us : List ℕ) (e : ℕ) (vs : List ℕ) (is : IsDlist h a (us ++ (e ∷ vs)))
    (b : ℕ) (ws : List ℕ) (is_b : IsDlist h b ws)
    (apart : (z : ℕ)
      → (one z a + occurrences z (us ++ (e ∷ vs))) + (one z b + occurrences z ws) ≤ 1) where
  abbrev pub Moved : List ℕ → Heap → Type 0
  Moved bs h' =
      IsDlist h' a (us ++ vs) × IsDlist h' b bs × Only (a ∷ b ∷ ((us ++ (e ∷ vs)) ++ ws)) h h'

  counts :
      (z : ℕ)
      → (occurrences z (us ++ (e ∷ vs)) ≡ occurrences z us + (one z e + occurrences z vs))
        × (occurrences z (us ++ vs) ≡ occurrences z us + occurrences z vs)
        × (occurrences z ((us ++ (e ∷ vs)) ++ ws)
            ≡ occurrences z us + (one z e + occurrences z vs) + occurrences z ws)
  unfolding occurrences
  counts z = (
    occurrences-append z us (e ∷ vs),
    occurrences-append z us vs,
    omega (arith, occurrences-append z (us ++ (e ∷ vs)) ws, occurrences-append z us (e ∷ vs)),
  )

  pub move_lem : (h' : Heap) × (move b e h ≡ some h') × Moved (e ∷ ws) h'
  unfolding move occurrences
  move_lem =
      let (h1, run, is1, o1) = list_remove_entry_lem h a us e vs is in
      let le : h1.live e ≡ true = o1.same_live e ∙ is.alive e (ground (arith, counts e)) in
      let (h2, run', is2, o2) =
        add_lem h1 b ws
          (IsDlist-frame h h1 (a ∷ (us ++ vs)) b ws o1 (λ z i. omega (arith, i, apart z, counts z))
            is_b)
          e le (ground (arith, apart e, counts e)) in
      (
        h2,
        rw (run, move, ◌>>◌, run') refl,
        (
          IsDlist-frame h1 h2 (e ∷ b ∷ ws) a (us ++ vs) o2
              (λ z i. omega (arith, i, apart z, counts z)) is1,
          is2,
          Only-trans (a ∷ (us ++ vs)) (e ∷ b ∷ ws) (a ∷ b ∷ ((us ++ (e ∷ vs)) ++ ws))
              (λ z i. (omega (arith, i, counts z), omega (arith, i, counts z))) o1 o2,
        ),
      )

  pub move_tail_lem : (h' : Heap) × (move_tail b e h ≡ some h') × Moved (ws ++ (e ∷ [])) h'
  unfolding move_tail occurrences
  move_tail_lem =
      let (h1, run, is1, o1) = list_remove_entry_lem h a us e vs is in
      let le : h1.live e ≡ true = o1.same_live e ∙ is.alive e (ground (arith, counts e)) in
      let (h2, run', is2, o2) =
        add_tail_lem h1 b ws
          (IsDlist-frame h h1 (a ∷ (us ++ vs)) b ws o1 (λ z i. omega (arith, i, apart z, counts z))
            is_b)
          e le (ground (arith, apart e, counts e)) in
      (
        h2,
        rw (run, move_tail, ◌>>◌, run') refl,
        (
          IsDlist-frame h1 h2 (e ∷ b ∷ ws) a (us ++ vs) o2
              (λ z i. omega (arith, i, apart z, counts z)) is1,
          is2,
          Only-trans (a ∷ (us ++ vs)) (e ∷ b ∷ ws) (a ∷ b ∷ ((us ++ (e ∷ vs)) ++ ws))
              (λ z i. (omega (arith, i, counts z), omega (arith, i, counts z))) o1 o2,
        ),
      )

  -- dlist_move takes a node out of its list and puts it first into another list, and
  -- dlist_move_tail puts it last; of the links only those of the two lists change.
  pub move-move_tail :
      ((h' : Heap) × (move b e h ≡ some h') × Moved (e ∷ ws) h')
      × ((h' : Heap) × (move_tail b e h ≡ some h') × Moved (ws ++ (e ∷ [])) h')
  move-move_tail = (move_lem, move_tail_lem)
