-- ===== src/Hlist/Chain.antt =====
-- What a hash chain is on the heap.
use struct.Base.{
  ℕ, ◌+◌, ◌≤◌, ◌<◌, ◌≡◌, ◌≢◌, ◌∙◌, refl, sym, ap, arith, true, List, [], ◌∷◌, ◌++◌, ◌==◌,
  if◌then◌else◌, one, occurrences, occurrences-append,
}
use struct.Dlist.{Heap}
use struct.Dlist.Seg.{
  Seg, last, last-append, sources, sources_count, Seg-split, Seg-join, Seg-frame, Only,
}

-- The chain at the head `list` has the nodes `xs`.
pub record IsHlist (h : Heap) (list : ℕ) (xs : List ℕ) : Type 0 where
  pub links : Seg h list xs
  pub ends : h.next (last list xs) ≡ 0
  pub uniq : (z : ℕ) → one z list + occurrences z xs ≤ 1
  pub no_null : one 0 list + occurrences 0 xs ≡ 0
  pub alive : (z : ℕ) → 0 < one z list + occurrences z xs → h.live z ≡ true

pub last-in : (a : ℕ) (xs : List ℕ) → 0 < one (last a xs) a + occurrences (last a xs) xs
unfolding occurrences
last-in a [] = ground arith
last-in a (x ∷ xs) = omega (arith, last-in x xs)

-- A chain none of whose nodes changed stays.
pub IsHlist-frame :
    (h h' : Heap) (zs : List ℕ) (list : ℕ) (xs : List ℕ)
    → Only zs h h'
    → ((z : ℕ) → 0 < one z list + occurrences z xs → occurrences z zs ≡ 0)
    → IsHlist h list xs
    → IsHlist h' list xs
unfolding occurrences
IsHlist-frame h h' zs list xs o apart is = record {
  links =
      Seg-frame h h' list xs
        (λ z i. o.same_next z (apart z (omega (arith, i, sources_count z list xs))))
        (λ z i. o.same_prev z (apart z (omega (arith, i)))) is.links;
  ends = o.same_next (last list xs) (apart (last list xs) (last-in list xs)) ∙ is.ends;
  uniq = is.uniq;
  no_null = is.no_null;
  alive = λ z i. o.same_live z ∙ is.alive z i;
}

-- The node behind a part of a chain, or NULL.
abbrev pub behind : List ℕ → ℕ
behind [] = 0
behind (v ∷ vs) = v

module _ (h : Heap) (list : ℕ) (us vs : List ℕ) (is : IsHlist h list (us ++ vs)) where
  pub next_of_cut : h.next (last list us) ≡ behind vs
  next_of_cut = by list us vs is.ends is.links
    where
      by :
          (a : ℕ) (us vs : List ℕ)
          → h.next (last a (us ++ vs)) ≡ 0
          → Seg h a (us ++ vs)
          → h.next (last a us) ≡ behind vs
      by a [] [] e s = e
      by a [] (v ∷ vs) e s = s.0.0
      by a (u ∷ us) vs e s = by u us vs e s.1

  pub live_cut : h.live (last list us) ≡ true
  live_cut =
      is.alive (last list us)
        (omega (arith, last-in list us, occurrences-append (last list us) us vs))

  pub count :
      (z : ℕ)
      → (one z list + (occurrences z us + occurrences z vs) ≤ 1)
        × (occurrences z (us ++ vs) ≡ occurrences z us + occurrences z vs)
        × (occurrences z (sources list us) + one z (last list us) ≡ one z list + occurrences z us)
  count z = (
    omega (arith, is.uniq z, occurrences-append z us vs),
    occurrences-append z us vs,
    sources_count z list us,
  )

  pub ends_cut : (n : ℕ) (ns : List ℕ) → vs ≡ n ∷ ns → h.next (last n ns) ≡ 0
  ends_cut n ns e =
      ap h.next (sym (last-append list us n ns))
      ∙ ap (λ w. h.next (last list (us ++ w))) (sym e)
      ∙ is.ends

last-whole : (a : ℕ) (us vs : List ℕ) → last a (us ++ vs) ≡ last (last a us) vs
last-whole a [] vs = refl
last-whole a (u ∷ us) vs = last-whole u us vs

-- How often an address is that of a node, which NULL is not.
abbrev pub one_node : ℕ → ℕ → ℕ
one_node z n = if n == 0 then 0 else one z n

pub behind_count : (z : ℕ) (vs : List ℕ) → one_node z (behind vs) ≤ occurrences z vs
unfolding occurrences
behind_count z [] = omega arith
behind_count z (v ∷ vs) = ground arith

-- `e` is put behind the node `p`, and before `n` if that is a node.
pub record Inserted (h h' : Heap) (p e n : ℕ) : Type 0 where
  pub next_p : h'.next p ≡ e
  pub next_e : h'.next e ≡ n
  pub prev_e : h'.prev e ≡ p
  pub prev_n : n ≢ 0 → h'.prev n ≡ e
  pub other_next : (z : ℕ) → one z p + one z e ≡ 0 → h'.next z ≡ h.next z
  pub other_prev : (z : ℕ) → one z e + one_node z n ≡ 0 → h'.prev z ≡ h.prev z
  pub same_live : (z : ℕ) → h'.live z ≡ h.live z

-- What stood between `p` and `n` is taken out.
pub record Bridged (h h' : Heap) (p n : ℕ) : Type 0 where
  pub next_p : h'.next p ≡ n
  pub prev_n : n ≢ 0 → h'.prev n ≡ p
  pub other_next : (z : ℕ) → one z p ≡ 0 → h'.next z ≡ h.next z
  pub other_prev : (z : ℕ) → one_node z n ≡ 0 → h'.prev z ≡ h.prev z
  pub same_live : (z : ℕ) → h'.live z ≡ h.live z

module _ (h h' : Heap) (list : ℕ) (us : List ℕ) (e : ℕ) where
  insert_tail :
      (vs : List ℕ)
      → IsHlist h list (us ++ vs)
      → Inserted h h' (last list us) e (behind vs)
      → one e list + occurrences e (us ++ vs) ≡ 0
      → Seg h' e vs × (h'.next (last e vs) ≡ 0)
  unfolding occurrences
  insert_tail [] is put fresh = (tt, put.next_e)
  insert_tail (v ∷ vs) is put fresh =
      let (s1, (l, s2)) = Seg-split h list us (v ∷ vs) is.links in
      let c = count h list us (v ∷ vs) is in
      (
        (
          (put.next_e, put.prev_n (λ z. ground (arith, z, is.no_null, c 0))),
          Seg-frame h h' v vs
              (λ z i. put.other_next z (ground (arith, i, c z, c e, fresh, sources_count z v vs)))
              (λ z i. put.other_prev z (ground (arith, i, c z, c e, fresh))) s2,
        ),
        put.other_next (last v vs) (ground (arith, last-in v vs, c (last v vs), c e, fresh))
            ∙ ends_cut h list us (v ∷ vs) is v vs refl,
      )

  pub IsHlist-insert :
      (vs : List ℕ)
      → IsHlist h list (us ++ vs)
      → Inserted h h' (last list us) e (behind vs)
      → e ≢ 0
      → h.live e ≡ true
      → one e list + occurrences e (us ++ vs) ≡ 0
      → IsHlist h' list (us ++ (e ∷ vs)) × Only (e ∷ list ∷ (us ++ vs)) h h'
  unfolding occurrences
  IsHlist-insert vs is put ne le fresh =
      let (s1, s2) = Seg-split h list us vs is.links in
      let c = count h list us vs is in
      let (tail, ends') = insert_tail vs is put fresh in
      let whole : (z : ℕ)
          → occurrences z (us ++ (e ∷ vs)) ≡ occurrences z us + (one z e + occurrences z vs) =
        λ z. occurrences-append z us (e ∷ vs) in
      (
        record {
          links =
              Seg-join h' list us (e ∷ vs)
                (Seg-frame h h' list us
                  (λ z i. put.other_next z (ground (arith, i, c z, c e, fresh)))
                  (λ z i. put.other_prev z (ground (arith, i, c z, c e, fresh, behind_count z vs)))
                  s1)
                ((put.next_p, put.prev_e), tail);
          ends = ap h'.next (last-append list us e vs) ∙ ends';
          uniq = λ z. ground (arith, whole z, c z, c e, fresh);
          no_null = ground (arith, whole 0, c 0, is.no_null);
          alive = λ z i. put.same_live z ∙ ground (arith, i, whole z, c z, le, is.alive z);
        },
        record {
          same_next = λ z i. put.other_next z (ground (arith, i, c z));
          same_prev = λ z i. put.other_prev z (ground (arith, i, c z, behind_count z vs));
          same_live = put.same_live;
        },
      )

module _ (h h' : Heap) (list : ℕ) (us : List ℕ) (e : ℕ) where
  bridge_tail :
      (vs : List ℕ)
      → IsHlist h list (us ++ (e ∷ vs))
      → Bridged h h' (last list us) (behind vs)
      → Seg h' (last list us) vs × (h'.next (last (last list us) vs) ≡ 0)
  unfolding occurrences
  bridge_tail [] is gone = (tt, gone.next_p)
  bridge_tail (v ∷ vs) is gone =
      let (s1, (l1, (l2, s2))) = Seg-split h list us (e ∷ v ∷ vs) is.links in
      let c = count h list us (e ∷ v ∷ vs) is in
      (
        (
          (gone.next_p, gone.prev_n (λ z. ground (arith, z, is.no_null, c 0))),
          Seg-frame h h' v vs
              (λ z i. gone.other_next z (ground (arith, i, c z, sources_count z v vs)))
              (λ z i. gone.other_prev z (ground (arith, i, c z))) s2,
        ),
        gone.other_next (last v vs) (ground (arith, last-in v vs, c (last v vs)))
            ∙ ends_cut h list us (e ∷ v ∷ vs) is e (v ∷ vs) refl,
      )

  pub IsHlist-bridge :
      (vs : List ℕ)
      → IsHlist h list (us ++ (e ∷ vs))
      → Bridged h h' (last list us) (behind vs)
      → IsHlist h' list (us ++ vs) × Only (list ∷ (us ++ vs)) h h'
  unfolding occurrences
  IsHlist-bridge vs is gone =
      let (s1, s2) = Seg-split h list us (e ∷ vs) is.links in
      let c = count h list us (e ∷ vs) is in
      let (tail, ends') = bridge_tail vs is gone in
      let rest : (z : ℕ) → occurrences z (us ++ vs) ≡ occurrences z us + occurrences z vs =
        λ z. occurrences-append z us vs in
      (
        record {
          links =
              Seg-join h' list us vs
                (Seg-frame h h' list us (λ z i. gone.other_next z (ground (arith, i, c z)))
                  (λ z i. gone.other_prev z (ground (arith, i, c z, behind_count z vs))) s1)
                tail;
          ends = ap h'.next (last-whole list us vs) ∙ ends';
          uniq = λ z. omega (arith, rest z, c z);
          no_null = omega (arith, rest 0, c 0, is.no_null);
          alive = λ z i. gone.same_live z ∙ is.alive z (omega (arith, i, rest z, c z));
        },
        record {
          same_next = λ z i. gone.other_next z (ground (arith, i, c z, rest z));
          same_prev = λ z i. gone.other_prev z (ground (arith, i, rest z, behind_count z vs));
          same_live = gone.same_live;
        },
      )
