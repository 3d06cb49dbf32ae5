-- ===== src/Dlist/Walk.antt =====
-- The tests on lists, and the loops over them.
use struct.Base.{
  ℕ, zero, suc, ◌+◌, ◌<◌, ◌≡◌, ◌∙◌, refl, sym, ap, subst, arith, false, true, some, List, [], ◌∷◌,
  ◌++◌, append_assoc, append-nil, ◌==◌, one, occurrences, occurrences-append, not, ◌&&◌, Bool,
  length, length-append,
}
use mathlib.Core.List.{reverse, reverse-cons, reverse-reverse}
use struct.Dlist.{
  Heap, empty, empty_careful, is_singular, is_last_entry, each_from, for_each, each_prev_from,
  for_each_prev,
}
use struct.Dlist.Seg.{last, last-append, IsDlist}
use struct.Dlist.Add.{first, cut-Linked, head_live}
use struct.Dlist.Join.{empty_lem}

abbrev pub is_nil : List ℕ → Bool
is_nil [] = true
is_nil (x ∷ xs) = false

abbrev pub is_one : List ℕ → Bool
is_one [] = false
is_one (x ∷ xs) = is_nil xs

first_is_head :
    {h : Heap} {list : ℕ} (xs : List ℕ) → IsDlist h list xs → (first list xs == list) ≡ is_nil xs
unfolding occurrences
first_is_head [] is = ground arith
first_is_head (x ∷ xs) is = ground (arith, is.uniq x)

last-in : (a : ℕ) (xs : List ℕ) → 0 < one (last a xs) a + occurrences (last a xs) xs
unfolding occurrences
last-in a [] = ground arith
last-in a (x ∷ xs) = omega (arith, last-in x xs)

last_is_head :
    {h : Heap} {list : ℕ} (xs : List ℕ) → IsDlist h list xs → (last list xs == list) ≡ is_nil xs
unfolding occurrences
last_is_head [] is = ground arith
last_is_head {h} {list} (x ∷ xs) is = ground (arith, is.uniq (last x xs), last-in x xs)

first_is_last :
    {h : Heap} {list : ℕ} (xs : List ℕ)
    → IsDlist h list xs
    → (not (is_nil xs) && (first list xs == last list xs)) ≡ is_one xs
unfolding occurrences
first_is_last [] is = refl
first_is_last (x ∷ []) is = ground arith
first_is_last (x ∷ y ∷ xs) is = ground (arith, is.uniq x, last-in y xs)

-- The entry in a list, with its links.
pub entry_links :
    (h : Heap) (list : ℕ) (us : List ℕ) (e : ℕ) (vs : List ℕ)
    → IsDlist h list (us ++ (e ∷ vs))
    → (h.live e ≡ true)
      × (h.prev e ≡ last list us)
      × (h.next e ≡ first list vs)
      × ((e == list) ≡ false)
      × IsDlist h list ((us ++ (e ∷ [])) ++ vs)
unfolding occurrences
entry_links h list us e vs is =
    let c = occurrences-append e us (e ∷ vs) in
    let whole : IsDlist h list ((us ++ (e ∷ [])) ++ vs) =
      subst (IsDlist h list) (sym (append_assoc us (e ∷ []) vs)) is in
    (
      is.alive e (ground (arith, c)),
      (cut-Linked h list us (e ∷ vs) is).1,
      ap h.next (sym (last-append list us e [])) ∙ (cut-Linked h list (us ++ (e ∷ [])) vs whole).0,
      ground (arith, is.uniq e, c),
      whole,
    )

-- dlist_empty and dlist_empty_careful hold exactly when a list has no entries, and
-- dlist_is_singular when it has one.
pub tests_lem :
    (h : Heap) (list : ℕ) (xs : List ℕ)
    → IsDlist h list xs
    → (empty list h ≡ some (is_nil xs))
      × (empty_careful list h ≡ some (is_nil xs))
      × (is_singular list h ≡ some (is_one xs))
unfolding empty_careful is_singular
tests_lem h list xs is =
    let n : h.next list ≡ first list xs = (cut-Linked h list [] xs is).0 in
    let p : h.prev list ≡ last list xs =
      (cut-Linked h list xs [] (subst (IsDlist h list) (sym (append-nil xs)) is)).1 in
    let l = head_live h list [] xs is in
    let f = first_is_head xs is in
    (
      empty_lem h list xs is ∙ ap some f,
      rw (l, empty_careful, n, p, f) (ap some (both xs)),
      rw (l, is_singular, n, p, f) (ap some (first_is_last xs is)),
    )
  where
    both : (xs : List ℕ) → (is_nil xs && (first list xs == last list xs)) ≡ is_nil xs
    both [] = ground arith
    both (x ∷ xs) = refl

-- `dlist_is_last_entry` holds of an entry when none follows.
pub is_last_entry_lem :
    (h : Heap) (list : ℕ) (us : List ℕ) (e : ℕ) (vs : List ℕ)
    → IsDlist h list (us ++ (e ∷ vs))
    → is_last_entry list e h ≡ some (is_nil vs)
unfolding is_last_entry occurrences
is_last_entry_lem h list us e vs is =
    let (le, _, ne, _, whole) = entry_links h list us e vs is in
    rw (le, is_last_entry, ne) (ap some (at_end vs is))
  where
    at_end : (vs : List ℕ) → IsDlist h list (us ++ (e ∷ vs)) → (first list vs == list) ≡ is_nil vs
    at_end [] is' = ground arith
    at_end (v ∷ vs) is' = ground (arith, is'.uniq v, occurrences-append v us (e ∷ v ∷ vs))

length-reverse : (xs : List ℕ) → length (reverse xs) ≡ length xs
length-reverse [] = refl
length-reverse (x ∷ xs) =
    omega
      (arith, ap length (reverse-cons x xs), length-append (reverse xs) (x ∷ []), length-reverse xs)

module _ (h : Heap) (list : ℕ) where
  each_from_lem :
      (fuel : ℕ) (us vs : List ℕ)
      → length vs < fuel
      → IsDlist h list (us ++ vs)
      → each_from fuel list (first list vs) h ≡ some vs
  unfolding each_from
  each_from_lem zero us vs lt is = absurd (omega arith)
  each_from_lem (suc fuel) us [] lt is =
      let here : (list == list) ≡ true = ground arith in rw here refl
  each_from_lem (suc fuel) us (e ∷ vs) lt is =
      let (le, _, ne, differ, whole) = entry_links h list us e vs is in
      let more = each_from_lem fuel (us ++ (e ∷ [])) vs (omega arith) whole in
      rw (differ, each_from, le, ne, more) refl

  each_prev_from_lem :
      (fuel : ℕ) (ws vs : List ℕ)
      → length ws < fuel
      → IsDlist h list (reverse ws ++ vs)
      → each_prev_from fuel list (last list (reverse ws)) h ≡ some ws
  unfolding each_prev_from
  each_prev_from_lem zero ws vs lt is = absurd (omega arith)
  each_prev_from_lem (suc fuel) [] vs lt is =
      let here : (list == list) ≡ true = ground arith in rw here refl
  each_prev_from_lem (suc fuel) (e ∷ ws) vs lt is =
      let whole : IsDlist h list (reverse ws ++ (e ∷ vs)) =
        subst (IsDlist h list)
          (ap (λ w. w ++ vs) (reverse-cons e ws) ∙ append_assoc (reverse ws) (e ∷ []) vs) is in
      let (le, pe, _, differ, _) = entry_links h list (reverse ws) e vs whole in
      let more = each_prev_from_lem fuel ws (e ∷ vs) (omega arith) whole in
      ap (λ q. each_prev_from (suc fuel) list q h)
        (ap (last list) (reverse-cons e ws) ∙ last-append list (reverse ws) e [])
      ∙ rw (differ, each_prev_from, le, pe, more) refl

  -- dlist_for_each comes to every entry of a list once, in order, and dlist_for_each_prev in the
  -- reverse order; fuel above the number of entries is enough.
  pub for_each_lem :
      (fuel : ℕ) (xs : List ℕ)
      → length xs < fuel
      → IsDlist h list xs
      → (for_each fuel list h ≡ some xs) × (for_each_prev fuel list h ≡ some (reverse xs))
  unfolding for_each for_each_prev
  for_each_lem fuel xs lt is =
      let whole : IsDlist h list (xs ++ []) = subst (IsDlist h list) (sym (append-nil xs)) is in
      let back : reverse (reverse xs) ≡ xs = reverse-reverse xs in
      let l = head_live h list [] xs is in
      let n : h.next list ≡ first list xs = (cut-Linked h list [] xs is).0 in
      let p : h.prev list ≡ last list xs = (cut-Linked h list xs [] whole).1 in
      (
        rw (l, for_each, n) (each_from_lem fuel [] xs lt is),
        rw (l, for_each_prev, p)
            (ap (λ w. each_prev_from fuel list (last list w) h) (sym back)
              ∙ each_prev_from_lem fuel (reverse xs) [] (omega (arith, length-reverse xs))
                  (subst (λ w. IsDlist h list (w ++ [])) (sym back) whole)),
      )
