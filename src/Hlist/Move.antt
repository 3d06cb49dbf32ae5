-- ===== src/Hlist/Move.antt =====
-- `hlist_move_list`.
use struct.Base.{ℕ, ◌+◌, ◌≡◌, ◌≢◌, refl, arith, true, some, List, [], ◌∷◌, ◌==◌, one, occurrences}
use struct.Dlist.{Heap, ◌>>◌, with_next}
use struct.Dlist.Seg.{Seg, last, sources_count, Seg-frame, Only}
use struct.Hlist.{move_list}
use struct.Hlist.Chain.{IsHlist, behind, last-in, next_of_cut, live_cut, count, behind_count}
use struct.Hlist.Ops.{with_pprev, set_pprev_run, live_behind}

-- The heap after `hlist_move_list`, from the first node on.
abbrev moved : (old to n : ℕ) → Heap → Heap
moved old to n h = with_next old 0 (with_pprev n to (with_next to n h))

Seg-moved :
    (h : Heap) (old : ℕ) (xs : List ℕ) (to : ℕ)
    → IsHlist h old xs
    → one to old + occurrences to xs ≡ 0
    → Seg (moved old to (behind xs) h) to xs × ((moved old to (behind xs) h).next (last to xs) ≡ 0)
unfolding occurrences
Seg-moved h old [] to is fresh = (tt, ground (arith, fresh))
Seg-moved h old (x ∷ xs) to is fresh =
    let h' : Heap = moved old to x h in
    let c = count h old [] (x ∷ xs) is in
    (
      (
        (ground (arith, fresh), ground (arith, is.no_null)),
        Seg-frame h h' x xs (λ z i. ground (arith, i, c z, fresh, sources_count z x xs))
            (λ z i. ground (arith, i, c z)) is.links.1,
      ),
      ground (arith, last-in x xs, c (last x xs), fresh, is.ends),
    )

-- hlist_move_list moves the nodes of a chain to another head, and leaves none at the old one; only
-- links of the two heads and of the chain change.
pub move_list_lem :
    (h : Heap) (old : ℕ) (xs : List ℕ) (to : ℕ)
    → IsHlist h old xs
    → to ≢ 0
    → h.live to ≡ true
    → one to old + occurrences to xs ≡ 0
    → (h' : Heap) × (move_list old to h ≡ some h')
      × IsHlist h' to xs
      × IsHlist h' old []
      × Only (to ∷ old ∷ xs) h h'
unfolding move_list occurrences
move_list_lem h old xs to is nt lt fresh =
    let n = behind xs in
    let l = live_cut h old [] xs is in
    let first = next_of_cut h old [] xs is in
    let self : (to == to) ≡ true = ground arith in
    let h1 : Heap = with_next to n h in
    let run = set_pprev_run n to h1 (live_behind h old [] xs is) in
    let h' : Heap = moved old to n h in
    let (links', ends') = Seg-moved h old xs to is fresh in
    (
      h',
      rw (l, move_list, ◌>>◌, first, lt, lt, self, run, l) refl,
      record {
        links = links';
        ends = ends';
        uniq = λ z. ground (arith, is.uniq z, fresh);
        no_null = ground (arith, is.no_null, nt);
        alive = λ z i. ground (arith, i, lt, is.alive z);
      },
      record {
        links = tt;
        ends = ground arith;
        uniq = λ z. ground arith;
        no_null = omega (arith, is.no_null);
        alive = λ z i. is.alive z (omega (arith, i));
      },
      record {
        same_next = λ z i. ground (arith, i);
        same_prev = λ z i. ground (arith, i, behind_count z xs);
        same_live = λ z. refl;
      },
    )
